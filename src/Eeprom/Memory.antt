-- ===== src/Eeprom/Memory.antt =====
-- The memory of a slave behind SOEM, ingenialink/ecat/net.c: what `eeprom_read` and `eeprom_write` rely on, and
-- what they then do.
use ingenialink.Base.{
  ℕ, zero, suc, ◌+◌, ◌*◌, ◌/◌, ◌%◌, ◌^◌, ◌<◌, ◌≤◌, ◌≡◌, ◌⊎◌, inl, inr, bit_and, refl, ◌∙◌, Bool,
  true, not, List, length, length-set, get_or-set, Bool-cases, arith, get_or, set, ◌==◌,
  if◌then◌else◌, [], ◌∷◌,
}
use ingenialink.Eeprom.Copied.{IsBytes, get_or-set_other}
use ingenialink.Eeprom.Master.{Soem, put_bytes}

-- The bytes of a number, the lowest first, are those of a memory from `i`.
abbrev pub Shows : ℕ → ℕ → ℕ → (ℕ → ℕ) → Type 0
Shows zero b i f = Unit
Shows (suc k) b i f = (b % 256 ≡ f i) × Shows k (b / 2 ^ 8) (i + 1) f

abbrev pub increment : Bool → ℕ
increment wide = if wide then 8 else 4

-- The position of a slave: from the first, whose position is 0, they count down.
abbrev pub IsAt : ℕ → ℕ → Type 0
IsAt slave aiadr = (slave < 2 ^ 16) × (aiadr < 2 ^ 16) × ((aiadr + slave) % 2 ^ 16 ≡ 1)

-- A slave that answers at a position: its memory is `byte`, by 2^16 words of 16 bits. It is `granted` to the
-- master by taking it from the PDI and giving it back to the master; only then are its words read and written. A
-- read shows 8 bytes or, without the bit `EC_ESTAT_R64` of its status, 4.
pub record Memory {W : Type 0} (soem : Soem W) (aiadr : ℕ) : Type 0 where
  pub wide : Bool
  pub byte : W → ℕ → ℕ
  pub granted : W → Bool
  pub grants :
      (w : W)
      → granted (
          soem.ec_apwr aiadr soem.ect_reg_eepcfg 1 0 (soem.ec_apwr aiadr soem.ect_reg_eepcfg 1 2 w))
        ≡ true
  pub configured :
      (v : ℕ) (w : W) (i : ℕ) → byte (soem.ec_apwr aiadr soem.ect_reg_eepcfg 1 v w) i ≡ byte w i
  pub status :
      (w : W)
      → (bit_and (soem.ec_aprd aiadr soem.ect_reg_eepstat 2 0 w).0 soem.ec_estat_r64 == 0)
        ≡ not wide
  pub status_keeps :
      (w : W) (i : ℕ) → byte (soem.ec_aprd aiadr soem.ect_reg_eepstat 2 0 w).1 i ≡ byte w i
  pub status_stays :
      (w : W) → granted w ≡ true → granted (soem.ec_aprd aiadr soem.ect_reg_eepstat 2 0 w).1 ≡ true
  pub reads_stay :
      (k : ℕ) (w : W) → granted w ≡ true → granted (soem.ec_readeeprom_ap aiadr k w).1 ≡ true
  pub reads :
      (k : ℕ) (w : W)
      → 2 * k + increment wide ≤ 2 ^ 17
      → granted w ≡ true
      → Shows (increment wide) (soem.ec_readeeprom_ap aiadr k w).0 (2 * k) (byte w)
  pub reads_keep : (k : ℕ) (w : W) (i : ℕ) → byte (soem.ec_readeeprom_ap aiadr k w).1 i ≡ byte w i
  pub writes_stay :
      (k v : ℕ) (w : W) → granted w ≡ true → granted (soem.ec_writeeeprom_ap aiadr k v w).1 ≡ true
  pub writes :
      (k v : ℕ) (w : W)
      → k < 2 ^ 16
      → v < 2 ^ 16
      → granted w ≡ true
      → (let w1 = (soem.ec_writeeeprom_ap aiadr k v w).1 in
          (byte w1 (2 * k) ≡ v % 256) × (byte w1 (2 * k + 1) ≡ v / 256))
  pub writes_keep :
      (k v : ℕ) (w : W) (i : ℕ)
      → k < 2 ^ 16
      → (i < 2 * k) ⊎ (2 * k + 2 ≤ i)
      → byte (soem.ec_writeeeprom_ap aiadr k v w).1 i ≡ byte w i

set-IsBytes : (xs : List ℕ) (i v : ℕ) → IsBytes xs → v < 256 → IsBytes (set xs i v)
set-IsBytes [] i v b h j = b j
set-IsBytes (x ∷ xs) zero v b h zero = h
set-IsBytes (x ∷ xs) zero v b h (suc j) = b (suc j)
set-IsBytes (x ∷ xs) (suc i) v b h zero = b 0
set-IsBytes (x ∷ xs) (suc i) v b h (suc j) = set-IsBytes xs i v (λ k. b (suc k)) h j

pub put_bytes-IsBytes : (k i b : ℕ) (xs : List ℕ) → IsBytes xs → IsBytes (put_bytes k i b xs)
put_bytes-IsBytes zero i b xs h = h
put_bytes-IsBytes (suc k) i b xs h =
    put_bytes-IsBytes k (i + 1) (b / 2 ^ 8) (set xs i (b % 256))
      (set-IsBytes xs i (b % 256) h (omega arith))

pub length-put_bytes : (k i b : ℕ) (xs : List ℕ) → length (put_bytes k i b xs) ≡ length xs
length-put_bytes zero i b xs = refl
length-put_bytes (suc k) i b xs =
    length-put_bytes k (i + 1) (b / 2 ^ 8) (set xs i (b % 256)) ∙ length-set xs i (b % 256)

pub put_bytes_below :
    (k i b j : ℕ) (xs : List ℕ) → j < i → get_or (put_bytes k i b xs) j 0 ≡ get_or xs j 0
put_bytes_below zero i b j xs h = refl
put_bytes_below (suc k) i b j xs h =
    put_bytes_below k (i + 1) (b / 2 ^ 8) j (set xs i (b % 256)) (omega arith)
    ∙ get_or-set_other xs i j (b % 256) (λ e. omega (arith, e))

pub put_bytes_inside :
    (k i b j : ℕ) (xs : List ℕ) (f : ℕ → ℕ)
    → Shows k b i f
    → i + k ≤ length xs
    → i ≤ j
    → j < i + k
    → get_or (put_bytes k i b xs) j 0 ≡ f j
put_bytes_inside zero i b j xs f s h a c = absurd (omega arith)
put_bytes_inside (suc k) i b j xs f s h a c =
    let first = set xs i (b % 256) in
    elim (Bool-cases (i == j)) [
      | inl e ↦
          let same : i ≡ j = ground (arith, e) in
          put_bytes_below k (i + 1) (b / 2 ^ 8) j first (omega (arith, same))
          ∙ ground (arith, get_or-set xs i j (b % 256) 0, e, same, s.0)
      | inr e ↦
          put_bytes_inside k (i + 1) (b / 2 ^ 8) j first f s.1
            (omega (arith, length-set xs i (b % 256))) (ground (arith, e)) (omega arith)
    ]
