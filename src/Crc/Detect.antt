-- ===== src/Crc/Detect.antt =====
-- What the checksum of ingenialink/eth/net.c computes over a buffer, and which corruptions of a
-- frame it detects.
use ingenialink.Base.{
  ℕ, zero, suc, ◌+◌, ◌*◌, ◌^◌, ◌<◌, ◌≤◌, ◌≡◌, refl, sym, ap, ◌∙◌, bit_xor, List, [], ◌∷◌, ◌++◌,
  arith, length, length-append, take, drop, get_or,
}
use ingenialink.Base.Bits.{xor-lt, xor_fields, xor_cancel, xor_comm, xor_assoc}
use mathlib.Core.Path.{subst}
use native.Mathlib.Numerals.{add-one}
use ingenialink.Crc.{Table, update_crc_ccitt_eth, crc_from, crc_calc_eth}
use ingenialink.Crc.Serial.{
  serial, serial_byte, serial_bits, serial_bits-lt, serial_bits-xor, serial_bits-shift,
  serial_bits-injective,
}
use ingenialink.Crc.Fill.{IsValid, update_crc_ccitt_eth-serial}

-- Every element is a byte.
abbrev pub Bytes : List ℕ → Type 0
Bytes [] = Unit {0}
Bytes (b ∷ bs) = (b < 256) × Bytes bs

byte_shift-lt : (b : ℕ) → b < 256 → b * 256 < 2 ^ 16
byte_shift-lt b h = omega arith

pub serial_byte-lt : (crc b : ℕ) → crc < 2 ^ 16 → b < 256 → serial_byte crc b < 2 ^ 16
serial_byte-lt crc b p q = serial_bits-lt 8 _ (xor-lt 16 crc (b * 256) p (byte_shift-lt b q))

pub serial-lt : (crc : ℕ) (bs : List ℕ) → crc < 2 ^ 16 → Bytes bs → serial crc bs < 2 ^ 16
unfolding serial
serial-lt crc [] p q = p
serial-lt crc (b ∷ bs) p q = serial-lt (serial_byte crc b) bs (serial_byte-lt crc b p q.0) q.1

-- `take n (drop idx buf)` begins with the byte that the loop reads.
take-drop_step :
    (n idx : ℕ) (buf : List ℕ)
    → idx + suc n ≤ length buf
    → take (suc n) (drop idx buf) ≡ get_or buf idx 0 ∷ take n (drop (suc idx) buf)
take-drop_step n idx [] h = absurd (omega arith)
take-drop_step n zero (x ∷ xs) h = refl
take-drop_step n (suc i) (x ∷ xs) h = take-drop_step n i xs (omega arith)

Bytes-get_or : (buf : List ℕ) (i : ℕ) → Bytes buf → get_or buf i 0 < 256
Bytes-get_or [] i h = omega arith
Bytes-get_or (x ∷ xs) zero h = h.0
Bytes-get_or (x ∷ xs) (suc i) h = Bytes-get_or xs i h.1

crc_from-serial :
    (n idx : ℕ) (buf : List ℕ) (t : Table) (crc : ℕ)
    → IsValid t
    → Bytes buf
    → crc < 2 ^ 16
    → idx + n ≤ length buf
    → ((crc_from n idx buf t crc).0 ≡ serial crc (take n (drop idx buf)))
      × IsValid (crc_from n idx buf t crc).1
unfolding crc_from serial
crc_from-serial zero idx buf t crc v b p h = (refl, v)
crc_from-serial (suc n) idx buf t crc v b p h = joined (
    crc_from-serial n (suc idx) buf t' crc' step.1 b
      (rw step.0 (serial_byte-lt crc c p (Bytes-get_or buf idx b))) (omega arith))
  where
    c : ℕ
    c = get_or buf idx 0

    crc' : ℕ
    crc' = (update_crc_ccitt_eth t crc c).0

    t' : Table
    t' = (update_crc_ccitt_eth t crc c).1

    step : (crc' ≡ serial_byte crc c) × IsValid t'
    step = update_crc_ccitt_eth-serial t crc c v p (Bytes-get_or buf idx b)

    joined :
        ((crc_from n (suc idx) buf t' crc').0 ≡ serial crc' (take n (drop (suc idx) buf)))
          × IsValid (crc_from n (suc idx) buf t' crc').1
        → ((crc_from (suc n) idx buf t crc).0 ≡ serial crc (take (suc n) (drop idx buf)))
          × IsValid (crc_from (suc n) idx buf t crc).1
    joined rest = (
      ap (λ k. (crc_from n k buf t' crc').0) (add-one idx)
          ∙ rest.0
          ∙ ap (λ z. serial z (take n (drop (suc idx) buf))) step.0
          ∙ ap (serial crc) (sym (take-drop_step n idx buf h)),
      subst (λ k. IsValid (crc_from n k buf t' crc').1) (sym (add-one idx)) rest.1,
    )

-- `crc_calc_eth` over `sz` words, fewer than 2^15, of a buffer that holds them is the bit-serial CRC, started at 0, of
-- the first `2 * sz` bytes, whether or not the lookup table is filled before; it leaves a valid table.
pub crc_calc_eth-serial :
    (t : Table) (buf : List ℕ) (sz : ℕ)
    → IsValid t
    → Bytes buf
    → sz < 2 ^ 15
    → sz * 2 ≤ length buf
    → ((crc_calc_eth t buf sz).0 ≡ serial 0 (take (sz * 2) buf)) × IsValid (crc_calc_eth t buf sz).1
unfolding crc_calc_eth
crc_calc_eth-serial t buf sz v b _ h =
    crc_from-serial (sz * 2) 0 buf t 0 v b (omega arith) (omega arith)

-- Bytes that are the same leave different registers different.
serial-injective :
    (x y : ℕ) (bs : List ℕ) → x < 2 ^ 16 → y < 2 ^ 16 → Bytes bs → serial x bs ≡ serial y bs → x ≡ y
unfolding serial
serial-injective x y [] p q h e = e
serial-injective x y (b ∷ bs) p q h e = xor_cancel (b * 256) x y (
    serial_bits-injective 8 _ _ (xor-lt 16 x _ p (byte_shift-lt b h.0))
      (xor-lt 16 y _ q (byte_shift-lt b h.0))
      (serial-injective (serial_byte x b) (serial_byte y b) bs (serial_byte-lt x b p h.0)
        (serial_byte-lt y b q h.0) h.1 e))

-- Two bytes in a row are sixteen clocks of their sum with the register.
two_bytes :
    (r a b : ℕ)
    → r < 2 ^ 16
    → a < 256
    → b < 256
    → serial_byte (serial_byte r a) b ≡ serial_bits 8 (serial_bits 8 (bit_xor r (a * 2 ^ 8 + b)))
two_bytes r a b p q h =
    ap (λ t. serial_bits 8 (bit_xor (serial_byte r a) t))
      (sym (serial_bits-shift 8 b (omega arith)))
    ∙ ap (serial_bits 8) (
        sym (
          serial_bits-xor 8 (bit_xor r (a * 256)) b (xor-lt 16 r _ p (byte_shift-lt a q))
            (omega arith)))
    ∙ ap (λ t. serial_bits 8 (serial_bits 8 t))
        (xor_assoc r (a * 256) b ∙ ap (bit_xor r) (xor_fields 8 a b h))

serial-append : (r : ℕ) (xs ys : List ℕ) → serial r (xs ++ ys) ≡ serial (serial r xs) ys
unfolding serial
serial-append r [] ys = refl
serial-append r (x ∷ xs) ys = serial-append (serial_byte r x) xs ys

-- A change confined to two neighbouring bytes changes the register.
serial_burst :
    (r a b c d : ℕ) (suf : List ℕ)
    → r < 2 ^ 16
    → Bytes (a ∷ b ∷ suf)
    → Bytes (c ∷ d ∷ suf)
    → serial r (a ∷ b ∷ suf) ≡ serial r (c ∷ d ∷ suf)
    → (a ≡ c) × (b ≡ d)
unfolding serial
serial_burst r a b c d suf p h k e = omega (arith, same)
  where
    x : ℕ
    x = a * 2 ^ 8 + b

    y : ℕ
    y = c * 2 ^ 8 + d

    hx : bit_xor r x < 2 ^ 16
    hx = xor-lt 16 r x p (omega arith)

    hy : bit_xor r y < 2 ^ 16
    hy = xor-lt 16 r y p (omega arith)

    registers : serial_byte (serial_byte r a) b ≡ serial_byte (serial_byte r c) d
    registers =
        serial-injective _ _ suf (serial_byte-lt _ b (serial_byte-lt r a p h.0) h.1.0)
          (serial_byte-lt _ d (serial_byte-lt r c p k.0) k.1.0) h.1.1 e

    same : x ≡ y
    same = xor_cancel r x y (
        xor_comm x r
        ∙ serial_bits-injective 8 _ _ hx hy (
            serial_bits-injective 8 _ _ (serial_bits-lt 8 _ hx) (serial_bits-lt 8 _ hy)
              (sym (two_bytes r a b p h.0 h.1.0) ∙ registers ∙ two_bytes r c d p k.0 k.1.0))
        ∙ xor_comm r y)

take-all {ℓ} : {A : Type ℓ} (xs : List A) (n : ℕ) → length xs ≡ n → take n xs ≡ xs
take-all [] zero e = refl
take-all [] (suc n) e = absurd (omega arith)
take-all (x ∷ xs) zero e = absurd (omega arith)
take-all (x ∷ xs) (suc n) e = ap (◌∷◌ x) (take-all xs n (omega arith))

pub crc_calc_eth-whole :
    (t : Table) (buf : List ℕ) (sz : ℕ)
    → IsValid t
    → Bytes buf
    → sz < 2 ^ 15
    → length buf ≡ sz * 2
    → (crc_calc_eth t buf sz).0 ≡ serial 0 buf
crc_calc_eth-whole t buf sz v b small e =
    (crc_calc_eth-serial t buf sz v b small (omega arith)).0
    ∙ ap (serial 0) (take-all buf (sz * 2) e)

Bytes-append : (xs ys : List ℕ) → Bytes (xs ++ ys) → Bytes xs × Bytes ys
Bytes-append [] ys h = (tt, h)
Bytes-append (x ∷ xs) ys h = ((h.0, (Bytes-append xs ys h.1).0), (Bytes-append xs ys h.1).1)

-- The checksum detects every corruption that stays within two neighbouring bytes: if two buffers of
-- `sz` words, fewer than 2^15, agree except for two neighbouring bytes and `crc_calc_eth` gives both the same value,
-- then those bytes agree too.
pub crc_calc_eth-burst :
    (t u : Table) (pre suf : List ℕ) (a b c d sz : ℕ)
    → IsValid t
    → IsValid u
    → Bytes (pre ++ a ∷ b ∷ suf)
    → Bytes (pre ++ c ∷ d ∷ suf)
    → sz < 2 ^ 15
    → length (pre ++ a ∷ b ∷ suf) ≡ sz * 2
    → (crc_calc_eth t (pre ++ a ∷ b ∷ suf) sz).0 ≡ (crc_calc_eth u (pre ++ c ∷ d ∷ suf) sz).0
    → (a ≡ c) × (b ≡ d)
crc_calc_eth-burst t u pre suf a b c d sz v w h k small l e =
    serial_burst (serial 0 pre) a b c d suf
      (serial-lt 0 pre (omega arith) (Bytes-append pre (a ∷ b ∷ suf) h).0)
      (Bytes-append pre (a ∷ b ∷ suf) h).1 (Bytes-append pre (c ∷ d ∷ suf) k).1
      (sym (serial-append 0 pre (a ∷ b ∷ suf)) ∙ sums ∙ serial-append 0 pre (c ∷ d ∷ suf))
  where
    l' : length (pre ++ c ∷ d ∷ suf) ≡ sz * 2
    l' = omega (arith, length-append pre (a ∷ b ∷ suf), length-append pre (c ∷ d ∷ suf))

    sums : serial 0 (pre ++ a ∷ b ∷ suf) ≡ serial 0 (pre ++ c ∷ d ∷ suf)
    sums =
        sym (crc_calc_eth-whole t (pre ++ a ∷ b ∷ suf) sz v h small l)
        ∙ e
        ∙ crc_calc_eth-whole u (pre ++ c ∷ d ∷ suf) sz w k small l'
