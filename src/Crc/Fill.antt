-- ===== src/Crc/Fill.antt =====
-- The lookup table of ingenialink/eth/net.c: what `init_crcccitt_tab_eth` leaves in it, and that one
-- table step is eight clocks of the bit-serial register.
use ingenialink.Base.{
  ℕ, zero, suc, ◌+◌, ◌*◌, ◌/◌, ◌%◌, ◌^◌, ◌<◌, ◌≤◌, ◌≡◌, refl, sym, ap, ◌∙◌, bit_and, bit_xor, List,
  leb, ltb, if◌then◌else◌, arith, Bool-cases, Bool, true, inl, inr, ◌==◌, ==_iff, ◌&&◌, length, set,
  get_or, length-set, get_or-set,
}
use ingenialink.Base.Bits.{xor-mul, xor-mod, xor-lt, and_mask, xor_assoc, xor_comm, xor_fields}
use mathlib.Core.Path.{ap₂}
use native.Mathlib.Nat.{mod-eq_of_lt}
use ingenialink.Crc.{
  Table, initial_table, entry, fill_from, init_crcccitt_tab_eth, ensure_table, update_crc_ccitt_eth,
}
use ingenialink.Crc.Serial.{
  serial_bits, serial_byte, serial_bits-xor, serial_bits-shift, serial_bits-lt,
}

-- A test of the numbers from `i` on, `count` of them, by evaluation.
tests_from : ℕ → (ℕ → Bool) → ℕ → Bool
tests_from (suc count) test i = tests_from count test (suc i) && test i
tests_from zero test i = true

tests_from_sound :
    (count i k : ℕ) (test : ℕ → Bool)
    → tests_from count test i ≡ true
    → i ≤ k
    → k < i + count
    → test k ≡ true
unfolding tests_from
tests_from_sound (suc count) i k test passed low high =
    ground (arith, tests_from_sound count (suc i) k test)
tests_from_sound zero i k test passed low high = absurd (omega arith)

entries_table : tests_from 256 (λ i. entry i == serial_bits 8 (i * 256)) 0 ≡ true
unfolding tests_from entry serial_bits
entries_table = refl

-- The table entry of a byte is the register after that byte alone.
pub entry-serial : (i : ℕ) → i < 256 → entry i ≡ serial_bits 8 (i * 256)
entry-serial i h =
    (==_iff _ _).0 (tests_from_sound 256 0 i _ entries_table (omega arith) (omega arith))

-- The fill loop stores every entry from `i` on and leaves the others.
get_or-fill_from :
    (n i j : ℕ) (tab : List ℕ)
    → j < length tab
    → get_or (fill_from n i tab) j 0
      ≡ (if leb i j && ltb j (i + n) then entry j else get_or tab j 0)
unfolding fill_from
get_or-fill_from zero i j tab h = ground arith
get_or-fill_from (suc n) i j tab h = ground (
  arith,
  length-set tab i (entry i),
  get_or-set tab i j (entry i) 0 h,
  get_or-fill_from n (i + 1) j (set tab i (entry i)),
)

-- A table that is either still to be filled, with room for 256 entries, or filled.
pub record IsValid (t : Table) : Type 0 where
  pub room : length t.entries ≡ 256
  pub filled : t.ready ≡ true → (i : ℕ) → i < 256 → get_or t.entries i 0 ≡ entry i

pub initial_table-IsValid : IsValid initial_table
initial_table-IsValid = record { room = refl; filled = λ e i h. cc }

length-fill_from : (n i : ℕ) (tab : List ℕ) → length (fill_from n i tab) ≡ length tab
unfolding fill_from
length-fill_from zero i tab = refl
length-fill_from (suc n) i tab =
    length-fill_from n (i + 1) (set tab i (entry i)) ∙ length-set tab i (entry i)

init_crcccitt_tab_eth-IsValid : (t : Table) → IsValid t → IsValid (init_crcccitt_tab_eth t)
unfolding init_crcccitt_tab_eth
init_crcccitt_tab_eth-IsValid t v = record {
  room = length-fill_from 256 0 t.entries ∙ v.room;
  filled = λ e i h. ground (arith, v.room, get_or-fill_from 256 0 i t.entries);
}

-- Filling on demand: the state of the flag does not matter.
pub ensure_table-IsValid :
    (t : Table) → IsValid t → IsValid (ensure_table t) × ((ensure_table t).ready ≡ true)
unfolding ensure_table
ensure_table-IsValid t v = elim (Bool-cases t.ready) [
  | inl e ↦ simp e (v, refl)
  | inr e ↦ simp e (init_crcccitt_tab_eth-IsValid t v, refl)
]

-- A byte of the register after a table step.
upper :
    (crc c : ℕ)
    → crc < 2 ^ 16
    → c < 256
    → bit_and (bit_xor (crc / 256) c) 0xff ≡ bit_xor (crc / 256) c
upper crc c p q =
    and_mask 8 (bit_xor (crc / 256) c) ∙ mod-eq_of_lt (xor-lt 8 (crc / 256) c (omega arith) q)

-- The register and a byte in its upper half, as its lower byte and the sum of the upper ones.
split_register :
    (crc c : ℕ) → bit_xor (crc % 256) (bit_xor (crc / 256) c * 256) ≡ bit_xor crc (c * 256)
split_register crc c =
    ap (bit_xor (crc % 256)) (sym (xor-mul 8 (crc / 256) c))
    ∙ sym (xor_assoc (crc % 256) (crc / 256 * 256) (c * 256))
    ∙ ap (λ t. bit_xor t (c * 256)) (xor_comm (crc % 256) (crc / 256 * 256) ∙ whole)
  where
    whole : bit_xor (crc / 256 * 256) (crc % 256) ≡ crc
    whole = xor_fields 8 (crc / 256) (crc % 256) (omega arith) ∙ omega arith

-- One table step is eight clocks of the bit-serial register, for the table's ideal entries.
table_step :
    (crc c : ℕ)
    → crc < 2 ^ 16
    → c < 256
    → bit_xor (crc * 256) (entry (bit_xor (crc / 256) c)) % 2 ^ 16 ≡ serial_byte crc c
table_step crc c p q =
    xor-mod 16 (crc * 256) (entry h)
    ∙ ap₂ bit_xor low high
    ∙ sym (serial_bits-xor 8 (crc % 256) (h * 256) (omega arith) (omega (arith, small)))
    ∙ ap (serial_bits 8) (split_register crc c)
  where
    h : ℕ
    h = bit_xor (crc / 256) c

    small : h < 256
    small = xor-lt 8 (crc / 256) c (omega arith) q

    low : crc * 256 % 2 ^ 16 ≡ serial_bits 8 (crc % 256)
    low = omega (arith, serial_bits-shift 8 (crc % 256) (omega arith))

    high : entry h % 2 ^ 16 ≡ serial_bits 8 (h * 256)
    high =
        ap (λ t. t % 2 ^ 16) (entry-serial h small)
        ∙ mod-eq_of_lt (serial_bits-lt 8 (h * 256) (omega (arith, small)))

-- `update_crc_ccitt_eth` is eight clocks of the bit-serial register, whether or not the table is
-- filled, and leaves a valid table.
pub update_crc_ccitt_eth-serial :
    (t : Table) (crc c : ℕ)
    → IsValid t
    → crc < 2 ^ 16
    → c < 256
    → ((update_crc_ccitt_eth t crc c).0 ≡ serial_byte crc c)
      × IsValid (update_crc_ccitt_eth t crc c).1
unfolding update_crc_ccitt_eth
update_crc_ccitt_eth-serial t crc c v p q = (
  ap (λ i. bit_xor (crc * 256) (get_or (ensure_table t).entries i 0) % 2 ^ 16) (upper crc c p q)
      ∙ ap (λ e. bit_xor (crc * 256) e % 2 ^ 16)
          (good.0.filled good.1 (bit_xor (crc / 256) c) (xor-lt 8 (crc / 256) c (omega arith) q))
      ∙ table_step crc c p q,
  good.0,
)
  where
    good : IsValid (ensure_table t) × ((ensure_table t).ready ≡ true)
    good = ensure_table-IsValid t v
