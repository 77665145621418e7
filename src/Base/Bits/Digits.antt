-- ===== src/Base/Bits/Digits.antt =====
-- One equation for the lowest digit of each operation, without the fuel.
use Prim.Native.Nat.{
  ℕ, zero, suc, ◌+◌, ◌*◌, ◌/◌, ◌%◌, ◌≤◌, ◌<◌, min, max, digits, differ, bitwise, bit_and, bit_or,
  bit_xor, bit_and-bitwise, bit_or-bitwise, bit_xor-bitwise,
}
use mathlib.Core.Path.{◌≡◌, refl}
use native.Mathlib.Omega.{arith}

module _ (zero_with : ℕ → ℕ) (combine : ℕ → ℕ → ℕ) where
  -- The digits do not depend on the fuel, once the fuel covers the number.
  digits-fuel :
      (x y enough more : ℕ)
      → x ≤ enough
      → x ≤ more
      → digits zero_with combine enough x y ≡ digits zero_with combine more x y
  digits-fuel zero y zero zero h k = refl
  digits-fuel zero y zero (suc more) h k = refl
  digits-fuel zero y (suc enough) zero h k = refl
  digits-fuel zero y (suc enough) (suc more) h k = refl
  digits-fuel (suc x) y zero more h k = absurd (omega arith)
  digits-fuel (suc x) y (suc enough) zero h k = absurd (omega arith)
  digits-fuel (suc x) y (suc enough) (suc more) h k =
      rw (digits-fuel (suc x / 2) (y / 2) enough more (omega arith) (omega arith))

  bitwise_step :
      (x y : ℕ)
      → bitwise zero_with combine (suc x) y
        ≡ combine (suc x % 2) (y % 2) + 2 * bitwise zero_with combine (suc x / 2) (y / 2)
  bitwise_step x y =
      let half = suc x / 2 in
      omega (arith, digits-fuel half (y / 2) x half (omega arith) (omega arith))

-- The digit that `differ` makes.
differ-parity : (d e : ℕ) → d < 2 → e < 2 → differ d e ≡ (d + e) % 2
differ-parity (suc zero) (suc zero) h k = refl
differ-parity (suc zero) zero h k = refl
differ-parity zero (suc zero) h k = refl
differ-parity zero zero h k = refl
differ-parity (suc (suc d)) e h k = absurd (omega arith)
differ-parity d (suc (suc e)) h k = absurd (omega arith)

pub bit_xor_step : (a b : ℕ) → bit_xor a b ≡ bit_xor (a / 2) (b / 2) * 2 + (a + b) % 2
bit_xor_step (suc x) y =
    let digit = differ-parity (suc x % 2) (y % 2) (omega arith) (omega arith) in
    simp bit_xor-bitwise (omega (arith, digit, bitwise_step (λ v. v) differ x y))
bit_xor_step zero y = simp bit_xor-bitwise (omega arith)

pub bit_and_step : (a b : ℕ) → bit_and a b ≡ bit_and (a / 2) (b / 2) * 2 + min (a % 2) (b % 2)
bit_and_step (suc x) y = simp bit_and-bitwise (omega (arith, bitwise_step (λ _. 0) min x y))
bit_and_step zero y = simp bit_and-bitwise (omega arith)

pub bit_or_step : (a b : ℕ) → bit_or a b ≡ bit_or (a / 2) (b / 2) * 2 + max (a % 2) (b % 2)
bit_or_step (suc x) y = simp bit_or-bitwise (omega (arith, bitwise_step (λ v. v) max x y))
bit_or_step zero y = simp bit_or-bitwise (omega arith)
