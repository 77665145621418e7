-- ===== src/Crc/Serial.antt =====
-- CRC-16 with polynomial 0x1021 as shift-register arithmetic, one bit at a time, with no table: the
-- reference that the table-driven code of ingenialink/eth/net.c is compared with.
use ingenialink.Base.{
  ℕ, zero, suc, ◌*◌, ◌/◌, ◌%◌, ◌^◌, ◌<◌, ◌≤◌, ◌≡◌, refl, sym, ap, ◌∙◌, bit_xor, List, [], ◌∷◌, leb,
  if◌then◌else◌, arith, Bool-cases, inl, inr, ◌≢◌,
}
use ingenialink.Base.Bits.{
  xor-mul, xor-div, xor-mod, xor-lt, xor_xor_comm, xor-zero, eq_of_xor-eq-zero, xor_self,
}
use mathlib.Core.Path.{ap₂}
use native.Mathlib.Nat.{pow-succ', one-le-pow}
use ingenialink.Crc.{poly}

-- One clock of the register: shift left, and subtract the polynomial if a bit falls out.
abbrev pub serial_bit : ℕ → ℕ
serial_bit x = if leb 0x8000 x then bit_xor (x * 2 % 2 ^ 16) poly else x * 2 % 2 ^ 16

unfoldable pub serial_bits : ℕ → ℕ → ℕ
serial_bits zero x = x
serial_bits (suc n) x = serial_bits n (serial_bit x)

-- A byte is added to the upper half of the register, then eight clocks.
abbrev pub serial_byte : ℕ → ℕ → ℕ
serial_byte crc b = serial_bits 8 (bit_xor crc (b * 256))

unfoldable pub serial : ℕ → List ℕ → ℕ
serial crc [] = crc
serial crc (b ∷ bs) = serial (serial_byte crc b) bs

-- The clock as a sum of what stays and what falls out.
clock_form : (x : ℕ) → x < 2 ^ 16 → serial_bit x ≡ bit_xor (x % 2 ^ 15 * 2) (x / 2 ^ 15 * poly)
clock_form x h = elim (Bool-cases (leb 0x8000 x)) [
  | inl big ↦ let top : x / 2 ^ 15 ≡ 1 = ground arith in rw (big, low, top)
  | inr small ↦ let top : x / 2 ^ 15 ≡ 0 = ground arith in rw (small, low, top) (sym (xor-zero _))
]
  where
    low : x * 2 % 2 ^ 16 ≡ x % 2 ^ 15 * 2
    low = omega arith

pub serial_bit-lt : (x : ℕ) → serial_bit x < 2 ^ 16
serial_bit-lt x = ground (arith, xor-lt 16 (x * 2 % 2 ^ 16) poly)

-- What falls out of a sum is the sum of what falls out.
fallout-xor : (s t : ℕ) → s < 2 → t < 2 → bit_xor s t * poly ≡ bit_xor (s * poly) (t * poly)
fallout-xor zero zero p q = refl
fallout-xor zero (suc zero) p q = refl
fallout-xor (suc zero) zero p q = refl
fallout-xor (suc zero) (suc zero) p q = refl
fallout-xor zero (suc (suc t)) p q = absurd (omega arith)
fallout-xor (suc zero) (suc (suc t)) p q = absurd (omega arith)
fallout-xor (suc (suc s)) t p q = absurd (omega arith)

-- The clock is linear.
pub serial_bit-xor :
    (x y : ℕ)
    → x < 2 ^ 16
    → y < 2 ^ 16
    → serial_bit (bit_xor x y) ≡ bit_xor (serial_bit x) (serial_bit y)
serial_bit-xor x y p q =
    clock_form (bit_xor x y) (xor-lt 16 x y p q)
    ∙ regroup
    ∙ ap₂ bit_xor (sym (clock_form x p)) (sym (clock_form y q))
  where
    regroup :
        bit_xor (bit_xor x y % 2 ^ 15 * 2) (bit_xor x y / 2 ^ 15 * poly)
        ≡ bit_xor
            (bit_xor (x % 2 ^ 15 * 2) (x / 2 ^ 15 * poly))
            (bit_xor (y % 2 ^ 15 * 2) (y / 2 ^ 15 * poly))
    regroup =
        rw
          (
            xor-mod 15 x y,
            xor-div 15 x y,
            sym (xor-mul 1 (x % 2 ^ 15) (y % 2 ^ 15)),
            fallout-xor (x / 2 ^ 15) (y / 2 ^ 15) (omega arith) (omega arith),
          )
          (xor_xor_comm (x % 2 ^ 15 * 2) (y % 2 ^ 15 * 2) (x / 2 ^ 15 * poly) (y / 2 ^ 15 * poly))

pub serial_bits-lt : (n x : ℕ) → x < 2 ^ 16 → serial_bits n x < 2 ^ 16
unfolding serial_bits
serial_bits-lt zero x h = h
serial_bits-lt (suc n) x h = serial_bits-lt n (serial_bit x) (serial_bit-lt x)

pub serial_bits-xor :
    (n x y : ℕ)
    → x < 2 ^ 16
    → y < 2 ^ 16
    → serial_bits n (bit_xor x y) ≡ bit_xor (serial_bits n x) (serial_bits n y)
unfolding serial_bits
serial_bits-xor zero x y p q = refl
serial_bits-xor (suc n) x y p q =
    rw (serial_bit-xor x y p q)
      (serial_bits-xor n (serial_bit x) (serial_bit y) (serial_bit-lt x) (serial_bit-lt y))

-- While no bit falls out, the clocks only shift.
pub serial_bits-shift : (n x : ℕ) → x * 2 ^ n < 2 ^ 16 → serial_bits n x ≡ x * 2 ^ n
unfolding serial_bits
serial_bits-shift zero x h = omega arith
serial_bits-shift (suc n) x h = rw one (serial_bits-shift n (x * 2) small ∙ sym twice)
  where
    twice : x * 2 ^ suc n ≡ x * 2 * 2 ^ n
    twice = omega (arith, ap (λ (t : ℕ). x * t) (pow-succ' 2 n))

    small : x * 2 * 2 ^ n < 2 ^ 16
    small = omega (arith, twice)

    room : x * 2 ≤ x * 2 * 2 ^ n
    room = grind (arith, one-le-pow n 2 (omega arith))

    one : serial_bit x ≡ x * 2
    one = ground (arith, room, small)

-- The clock loses nothing: only the empty register leads to the empty register.
zero_of_clock : (x : ℕ) → x < 2 ^ 16 → serial_bit x ≡ 0 → x ≡ 0
zero_of_clock x h e = elim (Bool-cases (leb 0x8000 x)) [
  | inl big ↦ absurd (odd (eq_of_xor-eq-zero _ _ (rw big at e)))
  | inr small ↦ ground arith
]
  where
    odd : x * 2 % 2 ^ 16 ≢ poly
    odd p = omega arith

zero_of_clocks : (n x : ℕ) → x < 2 ^ 16 → serial_bits n x ≡ 0 → x ≡ 0
unfolding serial_bits
zero_of_clocks zero x h e = e
zero_of_clocks (suc n) x h e =
    zero_of_clock x h (zero_of_clocks n (serial_bit x) (serial_bit-lt x) e)

pub serial_bits-injective :
    (n x y : ℕ) → x < 2 ^ 16 → y < 2 ^ 16 → serial_bits n x ≡ serial_bits n y → x ≡ y
serial_bits-injective n x y p q e = eq_of_xor-eq-zero x y (
    zero_of_clocks n (bit_xor x y) (xor-lt 16 x y p q)
      (serial_bits-xor n x y p q ∙ rw e (xor_self (serial_bits n y))))
