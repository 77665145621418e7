-- ===== src/Eeprom/Files.antt =====
-- The files of the tool, ingenialink/ecat/net.c: what the input makes of what the output put there.
use ingenialink.Base.{
  ℕ, zero, suc, ◌+◌, ◌<◌, ◌≤◌, ◌≡◌, inl, inr, refl, ap, ◌∙◌, true, Option, some, List, Bool-cases,
  arith, get_or, set, ltb,
}
use ingenialink.Eeprom.{max_buf}
use ingenialink.Eeprom.Scan.{Scanned, input_intelhex}
use ingenialink.Eeprom.Records.{copied}
use ingenialink.Eeprom.Copied.{IsBytes}
use ingenialink.Eeprom.Master.{Soem}
use ingenialink.Eeprom.Tool.{Tool, input_bin_eeprom, output_bin, from_intelhex, from_bin}

-- A binary file holds the bytes.
pub input_bin_eeprom-output_bin :
    (n cc : ℕ) (buf target : List ℕ)
    → cc + n ≤ max_buf
    → input_bin_eeprom (output_bin n cc buf) cc target ≡ (copied n cc cc buf target, cc + n)
unfolding input_bin_eeprom output_bin
input_bin_eeprom-output_bin zero cc buf target h =
    let same : cc ≡ cc + 0 = omega arith in ap (λ (k : ℕ). (target, k)) same
input_bin_eeprom-output_bin (suc n) cc buf target h =
    let test : ltb cc max_buf ≡ true = ground arith in
    let total : cc + 1 + n ≡ cc + suc n = omega arith in
    let first = set target cc (get_or buf cc 0) in
    rw test (
      input_bin_eeprom-output_bin n (cc + 1) buf first (omega arith)
      ∙ ap (λ (k : ℕ). (copied n (cc + 1) (cc + 1) buf first, k)) total)

-- Bytes of two arrays.
pub joined-IsBytes :
    (n : ℕ) (e xs ys : List ℕ)
    → ((j : ℕ) → j < n → get_or e j 0 ≡ get_or xs j 0)
    → ((j : ℕ) → n ≤ j → get_or e j 0 ≡ get_or ys j 0)
    → IsBytes xs
    → IsBytes ys
    → IsBytes e
joined-IsBytes n e xs ys low high b c j = elim (Bool-cases (ltb j n)) [
  | inl h ↦ let here = low j (ground (arith, h)) in omega (arith, here, b j)
  | inr h ↦ let here = high j (ground (arith, h)) in omega (arith, here, c j)
]

module _ {W : Type 0} (soem : Soem W) (scan : ℕ → List ℕ → Scanned) where
  pub from_intelhex_lem :
      (junk : ℕ) (text e : List ℕ) (t : Tool W) (o : Option (Option (ℕ × ℕ) × List ℕ))
      → t.file ≡ some text
      → t.ebuf ≡ e
      → input_intelhex scan junk text e ≡ o
      → from_intelhex soem scan junk t ≡ o
  from_intelhex_lem junk text e t o h k r = rw h (rw k r)

  pub from_bin_lem :
      (n : ℕ) (buf e : List ℕ) (t : Tool W)
      → t.file ≡ some (output_bin n 0 buf)
      → t.ebuf ≡ e
      → n ≤ max_buf
      → from_bin soem scan t ≡ some (some (0, n), copied n 0 0 buf e)
  from_bin_lem n buf e t h k r =
      let back = input_bin_eeprom-output_bin n 0 buf e (omega arith) in
      let all : 0 + n ≡ n = omega arith in rw h (rw k (rw back (rw all refl)))
