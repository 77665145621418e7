-- ===== src/Base/Bits/Xor.antt =====
-- `bit_xor` is a commutative group of exponent 2, and commutes with shifts and truncation.
use Prim.Native.Nat.{ℕ, zero, suc, ◌+◌, ◌*◌, ◌/◌, ◌%◌, ◌^◌, ◌≤◌, ◌<◌, bit_xor, bit_xor-bitwise}
use mathlib.Core.Path.{◌≡◌, refl, sym, ap, ◌∙◌}
use native.Mathlib.Nat.{
  pow-succ', div-div-eq-div-mul, div-one, div-add-mod, mul_assoc, mul-add-mod_self_left,
  mod-eq_of_lt, mod-lt, mod-one, one-le-pow,
}
use native.Mathlib.Omega.{arith}
use ingenialink.Base.Bits.Digits.{bit_xor_step}

-- Induction on a bound: both sides take the step from `a / 2`.
xor_comm_below : (n a b : ℕ) → a ≤ n → b ≤ n → bit_xor a b ≡ bit_xor b a
xor_comm_below n zero zero p q = refl
xor_comm_below zero zero (suc b) p q = absurd (omega arith)
xor_comm_below zero (suc a) b p q = absurd (omega arith)
xor_comm_below (suc n) zero (suc b) p q = omega (
  arith,
  bit_xor_step zero (suc b),
  bit_xor_step (suc b) zero,
  xor_comm_below n 0 (suc b / 2) (omega arith) (omega arith),
)
xor_comm_below (suc n) (suc a) b p q = omega (
  arith,
  bit_xor_step (suc a) b,
  bit_xor_step b (suc a),
  xor_comm_below n (suc a / 2) (b / 2) (omega arith) (omega arith),
)

pub xor_comm : (a b : ℕ) → bit_xor a b ≡ bit_xor b a
xor_comm a b = xor_comm_below (a + b) a b (omega arith) (omega arith)

pub xor-zero_left : (a : ℕ) → bit_xor 0 a ≡ a
xor-zero_left a = bit_xor-bitwise 0 a

pub xor-zero : (a : ℕ) → bit_xor a 0 ≡ a
xor-zero a = xor_comm a 0 ∙ xor-zero_left a

xor_self_below : (n a : ℕ) → a ≤ n → bit_xor a a ≡ 0
xor_self_below n zero p = refl
xor_self_below zero (suc a) p = absurd (omega arith)
xor_self_below (suc n) (suc a) p =
    omega (arith, bit_xor_step (suc a) (suc a), xor_self_below n (suc a / 2) (omega arith))

pub xor_self : (a : ℕ) → bit_xor a a ≡ 0
xor_self a = xor_self_below a a (omega arith)

-- The two halves of a sum of digits.
pub xor-half : (a b : ℕ) → bit_xor a b / 2 ≡ bit_xor (a / 2) (b / 2)
xor-half a b = omega (arith, bit_xor_step a b)

pub xor-parity : (a b : ℕ) → bit_xor a b % 2 ≡ (a + b) % 2
xor-parity a b = omega (arith, bit_xor_step a b)

xor_assoc_below :
    (n a b c : ℕ) → a ≤ n → b ≤ n → c ≤ n → bit_xor (bit_xor a b) c ≡ bit_xor a (bit_xor b c)
xor_assoc_below zero zero zero c p q r = simp xor-zero_left
xor_assoc_below zero (suc a) b c p q r = absurd (omega arith)
xor_assoc_below zero zero (suc b) c p q r = absurd (omega arith)
xor_assoc_below (suc n) a b c p q r = omega (
  arith,
  bit_xor_step (bit_xor a b) c,
  bit_xor_step a (bit_xor b c),
  ap (λ t. bit_xor t (c / 2)) (xor-half a b),
  ap (λ t. bit_xor (a / 2) t) (xor-half b c),
  xor-parity a b,
  xor-parity b c,
  xor_assoc_below n (a / 2) (b / 2) (c / 2) (omega arith) (omega arith) (omega arith),
)

pub xor_assoc : (a b c : ℕ) → bit_xor (bit_xor a b) c ≡ bit_xor a (bit_xor b c)
xor_assoc a b c = xor_assoc_below (a + b + c) a b c (omega arith) (omega arith) (omega arith)

-- Equal to its argument's other half: `a ^ b = 0` only if `a = b`.
pub eq_of_xor-eq-zero : (a b : ℕ) → bit_xor a b ≡ 0 → a ≡ b
eq_of_xor-eq-zero a b h =
    sym (xor-zero a)
    ∙ ap (bit_xor a) (sym (xor_self b))
    ∙ sym (xor_assoc a b b)
    ∙ ap (λ t. bit_xor t b) h
    ∙ xor-zero_left b

-- `(a ^ b) ^ (c ^ d)` regrouped.
pub xor_xor_comm :
    (a b c d : ℕ) → bit_xor (bit_xor a b) (bit_xor c d) ≡ bit_xor (bit_xor a c) (bit_xor b d)
xor_xor_comm a b c d =
    xor_assoc a b (bit_xor c d)
    ∙ ap (bit_xor a)
        (sym (xor_assoc b c d) ∙ ap (λ t. bit_xor t d) (xor_comm b c) ∙ xor_assoc c b d)
    ∙ sym (xor_assoc a c (bit_xor b d))

div-suc_pow : (k a : ℕ) → a / 2 ^ suc k ≡ a / 2 / 2 ^ k
div-suc_pow k a = ap (λ t. a / t) (pow-succ' 2 k) ∙ sym (div-div-eq-div-mul a 2 (2 ^ k))

-- A right shift goes through.
pub xor-div : (k a b : ℕ) → bit_xor a b / 2 ^ k ≡ bit_xor (a / 2 ^ k) (b / 2 ^ k)
xor-div zero a b = simp div-one
xor-div (suc k) a b = simp (div-suc_pow, xor-half) (xor-div k (a / 2) (b / 2))

-- So does a left shift.
pub xor-mul : (k a b : ℕ) → bit_xor (a * 2 ^ k) (b * 2 ^ k) ≡ bit_xor a b * 2 ^ k
xor-mul zero a b = simp mul_one
  where
    mul_one : (n : ℕ) → n * 2 ^ 0 ≡ n
    mul_one n = omega arith
xor-mul (suc k) a b = omega (
  arith,
  bit_xor_step (a * 2 ^ suc k) (b * 2 ^ suc k),
  ap₂' (omega (arith, twice a)) (omega (arith, twice b)),
  twice a,
  twice b,
  twice (bit_xor a b),
  xor-mul k a b,
)
  where
    twice : (n : ℕ) → n * 2 ^ suc k ≡ 2 * (n * 2 ^ k)
    twice n = omega (arith, ap (λ (t : ℕ). n * t) (pow-succ' 2 k))

    ap₂' :
        a * 2 ^ suc k / 2 ≡ a * 2 ^ k
        → b * 2 ^ suc k / 2 ≡ b * 2 ^ k
        → bit_xor (a * 2 ^ suc k / 2) (b * 2 ^ suc k / 2) ≡ bit_xor (a * 2 ^ k) (b * 2 ^ k)
    ap₂' p q = rw (p, q)

-- No bit appears above those of the arguments.
pub xor-lt : (k a b : ℕ) → a < 2 ^ k → b < 2 ^ k → bit_xor a b < 2 ^ k
xor-lt zero zero zero p q = omega arith
xor-lt zero zero (suc b) p q = absurd (omega arith)
xor-lt zero (suc a) b p q = absurd (omega arith)
xor-lt (suc k) a b p q = omega (
  arith,
  pow-succ' 2 k,
  bit_xor_step a b,
  xor-lt k (a / 2) (b / 2) (omega (arith, pow-succ' 2 k)) (omega (arith, pow-succ' 2 k)),
)

-- The low bits of a number, one at a time.
mod-twice : (m a : ℕ) → 0 < m → a % (2 * m) ≡ 2 * (a / 2 % m) + a % 2
mod-twice m a h =
    ap (λ t. t % (2 * m)) split
    ∙ mul-add-mod_self_left (2 * m) (a / 2 / m) (2 * (a / 2 % m) + a % 2)
    ∙ mod-eq_of_lt (omega (arith, mod-lt (a / 2) h))
  where
    split : a ≡ 2 * m * (a / 2 / m) + (2 * (a / 2 % m) + a % 2)
    split = omega (arith, div-add-mod (a / 2) m, mul_assoc 2 m (a / 2 / m))

mod-suc_pow : (k a : ℕ) → a % 2 ^ suc k ≡ 2 * (a / 2 % 2 ^ k) + a % 2
mod-suc_pow k a =
    ap (λ t. a % t) (pow-succ' 2 k) ∙ mod-twice (2 ^ k) a (one-le-pow k 2 (omega arith))

-- Truncation goes through.
pub xor-mod : (k a b : ℕ) → bit_xor a b % 2 ^ k ≡ bit_xor (a % 2 ^ k) (b % 2 ^ k)
xor-mod zero a b = simp mod-one
xor-mod (suc k) a b = omega (
  arith,
  mod-suc_pow k (bit_xor a b),
  bit_xor_step (a % 2 ^ suc k) (b % 2 ^ suc k),
  ap (λ t. t % 2 ^ k) (xor-half a b),
  xor-mod k (a / 2) (b / 2),
  xor-parity a b,
  halves a b (omega (arith, mod-suc_pow k a)) (omega (arith, mod-suc_pow k b)),
  mod-suc_pow k a,
  mod-suc_pow k b,
)
  where
    halves :
        (x y : ℕ)
        → x % 2 ^ suc k / 2 ≡ x / 2 % 2 ^ k
        → y % 2 ^ suc k / 2 ≡ y / 2 % 2 ^ k
        → bit_xor (x % 2 ^ suc k / 2) (y % 2 ^ suc k / 2) ≡ bit_xor (x / 2 % 2 ^ k) (y / 2 % 2 ^ k)
    halves x y p q = rw (p, q)

-- `(q << k) ^ r` where `r` fits `k` bits is a sum.
pub xor_fields : (k q r : ℕ) → r < 2 ^ k → bit_xor (q * 2 ^ k) r ≡ q * 2 ^ k + r
xor_fields zero q r h = let e : r ≡ 0 = omega arith in rw e (xor-zero _ ∙ omega arith)
xor_fields (suc k) q r h = omega (
  arith,
  bit_xor_step (q * 2 ^ suc k) r,
  ap (λ t. bit_xor t (r / 2)) half,
  twice,
  xor_fields k q (r / 2) (omega (arith, pow-succ' 2 k)),
)
  where
    twice : q * 2 ^ suc k ≡ 2 * (q * 2 ^ k)
    twice = omega (arith, ap (λ (t : ℕ). q * t) (pow-succ' 2 k))

    half : q * 2 ^ suc k / 2 ≡ q * 2 ^ k
    half = omega (arith, twice)

pub xor_cancel : (c a b : ℕ) → bit_xor a c ≡ bit_xor b c → a ≡ b
xor_cancel c a b e = eq_of_xor-eq-zero a b (
    sym (xor-zero _)
    ∙ ap (bit_xor (bit_xor a b)) (sym (xor_self c))
    ∙ xor_xor_comm a b c c
    ∙ ap (λ t. bit_xor t (bit_xor b c)) e
    ∙ xor_self (bit_xor b c))
