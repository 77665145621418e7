-- ===== src/Refcnt/Balance.antt =====
-- The count of references is that of the holders: the object is destroyed once, by the release that
-- balances the creation and all retains.
use ingenialink.Base.{
  ℕ, suc, ◌+◌, ◌-◌, ◌^◌, ◌<◌, true, false, Option, some, List, [], ◌∷◌, length, ◌==◌, ==_iff, ◌≡◌,
  refl, ap, ◌∙◌, arith, Bool-cases, inl, inr, ◌⊎◌,
}
use mathlib.Core.Path.{subst}
use ingenialink.Refcnt.{Refcnt, Use, retain, release, use_one, use_all}

abbrev pub retains : List Use → ℕ
retains [] = 0
retains (retain ∷ us) = suc (retains us)
retains (release ∷ us) = retains us

abbrev pub releases : List Use → ℕ
releases [] = 0
releases (retain ∷ us) = releases us
releases (release ∷ us) = suc (releases us)

abbrev pub alive : ℕ → Refcnt
alive n = record { cnt = n; destroyed = 0; freed = false }

abbrev pub dead : Refcnt
dead = record { cnt = 0; destroyed = 1; freed = true }

-- Every holder releases a reference it has: no release, and no retain, comes after the last.
abbrev pub Held : ℕ → List Use → Type 0
Held n [] = Unit
Held n (retain ∷ us) = (0 < n) × Held (suc n) us
Held n (release ∷ us) = (0 < n) × Held (n - 1) us

retain-alive : (n : ℕ) → n < 2 ^ 31 → use_one retain (alive n) ≡ some (alive (n + 1))
unfolding use_one
retain-alive n lt = ground arith

release-alive : (n : ℕ) → 1 < n → n < 2 ^ 32 → use_one release (alive n) ≡ some (alive (n - 1))
unfolding use_one
release-alive n lt le = ground arith

release-last : use_one release (alive 1) ≡ some dead
unfolding use_one
release-last = refl

use_all_cons :
    (u : Use) (us : List Use) (c c1 : Refcnt)
    → use_one u c ≡ some c1
    → use_all (u ∷ us) c ≡ use_all us c1
unfolding use_all
use_all_cons u us c c1 e = ground (arith, e)

use_all_nil : (c : Refcnt) → use_all [] c ≡ some c
unfolding use_all
use_all_nil c = refl

-- The uses left `total - given` references, or none and the object was destroyed once.
abbrev pub Left : ℕ → ℕ → Option Refcnt → Type 0
Left given total o =
    ((given < total) × (o ≡ some (alive (total - given)))) ⊎ ((given ≡ total) × (o ≡ some dead))

Left-cons :
    (given given' total total' : ℕ) (o o' : Option Refcnt)
    → given + total' ≡ given' + total
    → o' ≡ o
    → Left given total o
    → Left given' total' o'
Left-cons given given' total total' o o' q e (inl (lt, r)) =
    let d : total - given ≡ total' - given' = omega (arith, q) in
    inl (omega (arith, q), e ∙ r ∙ ap (λ n. some (alive n)) d)
Left-cons given given' total total' o o' q e (inr (eq, r)) = inr (omega (arith, q, eq), e ∙ r)

last :
    (us : List Use) (n : ℕ)
    → n ≡ 1
    → Held (n - 1) us
    → Left (suc (releases us)) (n + retains us) (use_all (release ∷ us) (alive n))
last [] n e h = inr (
  omega (arith, e),
  ap (λ k. use_all (release ∷ []) (alive k)) e
      ∙ use_all_cons release [] (alive 1) dead release-last
      ∙ use_all_nil dead,
)
last (retain ∷ us) n e h = absurd (omega (arith, h.0, e))
last (release ∷ us) n e h = absurd (omega (arith, h.0, e))

-- Fewer uses than the count can hold: if no holder uses a reference it does not have, no use comes
-- after the end, and the count is that of the references that are left, or none is left and the object
-- was destroyed once.
pub use_all-balance :
    (us : List Use) (n : ℕ)
    → Held n us
    → 0 < n
    → n + length us < 2 ^ 31
    → Left (releases us) (n + retains us) (use_all us (alive n))
unfolding use_all
use_all-balance [] n h pos lt =
    let d : n ≡ n + 0 - 0 = omega arith in inl (omega arith, ap (λ k. some (alive k)) d)
use_all-balance (retain ∷ us) n (_, h) pos lt =
    Left-cons (releases us) _ (n + 1 + retains us) _ _ _ (omega arith)
      (use_all_cons retain us (alive n) (alive (n + 1)) (retain-alive n (omega arith)))
      (use_all-balance us (n + 1) (subst (λ k. Held k us) (omega arith) h) (omega arith)
        (omega arith))
use_all-balance (release ∷ us) n (_, h) pos lt = elim (Bool-cases (n == 1)) [
  | inl q ↦ last us n ((==_iff n 1).0 q) h
  | inr q ↦
      let more : 1 < n = ground (arith, q) in
      Left-cons (releases us) _ (n - 1 + retains us) _ _ _ (omega arith)
        (use_all_cons release us (alive n) (alive (n - 1)) (release-alive n more (omega arith)))
        (use_all-balance us (n - 1) h (omega arith) (omega arith))
]
