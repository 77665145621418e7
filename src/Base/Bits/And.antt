-- ===== src/Base/Bits/And.antt =====
-- `bit_and` with a mask of low bits is a remainder; `bit_or` of disjoint fields is a sum.
use Prim.Native.Nat.{ℕ, zero, suc, ◌+◌, ◌-◌, ◌*◌, ◌/◌, ◌%◌, ◌^◌, ◌≤◌, ◌<◌, bit_and, bit_or}
use mathlib.Core.Path.{◌≡◌, refl, ap}
use native.Mathlib.Nat.{pow-succ', one-le-pow}
use native.Mathlib.Omega.{arith}
use ingenialink.Base.Bits.Digits.{bit_and_step, bit_or_step}

zero_below : (n a : ℕ) → a ≤ n → (bit_and a 0 ≡ 0) × (bit_or a 0 ≡ a)
zero_below n zero h = (refl, refl)
zero_below zero (suc a) h = absurd (omega arith)
zero_below (suc n) (suc a) h =
    omega
      (arith, bit_and_step (suc a) 0, bit_or_step (suc a) 0, zero_below n (suc a / 2) (omega arith))

pub and-zero : (a : ℕ) → bit_and a 0 ≡ 0
and-zero a = (zero_below a a (omega arith)).0

or-zero : (a : ℕ) → bit_or a 0 ≡ a
or-zero a = (zero_below a a (omega arith)).1

twice : (q k : ℕ) → q * 2 ^ suc k ≡ 2 * (q * 2 ^ k)
twice q k = omega (arith, ap (λ (t : ℕ). q * t) (pow-succ' 2 k))

and_fields : (k q r : ℕ) → r < 2 ^ k → bit_and (q * 2 ^ k + r) (2 ^ k - 1) ≡ r
and_fields zero q r h = simp and-zero (omega arith)
and_fields (suc k) q r h = ground (
  arith,
  bit_and_step (q * 2 ^ suc k + r) (2 ^ suc k - 1),
  twice q k,
  pow-succ' 2 k,
  one-le-pow k 2,
  and_fields k q (r / 2),
)

-- `a & (2^k - 1)`.
pub and_mask : (k a : ℕ) → bit_and a (2 ^ k - 1) ≡ a % 2 ^ k
and_mask k a = ground (arith, one-le-pow k 2, and_fields k (a / 2 ^ k) (a % 2 ^ k))

-- `(q << k) | r` where `r` fits `k` bits.
pub or_fields : (k q r : ℕ) → r < 2 ^ k → bit_or (q * 2 ^ k) r ≡ q * 2 ^ k + r
or_fields zero q r h = ground (arith, or-zero q)
or_fields (suc k) q r h =
    ground (arith, bit_or_step (q * 2 ^ suc k) r, twice q k, pow-succ' 2 k, or_fields k q (r / 2))
