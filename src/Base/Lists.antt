-- ===== src/Base/Lists.antt =====
-- C arrays as lists with native indices.
use Prim.Native.Nat.{ℕ, zero, suc, ◌+◌, ◌-◌, ◌≤◌, ◌<◌, min}
use mathlib.Core.Path.{◌≡◌, refl, sym, ap, ◌∙◌}
use mathlib.Core.Logic.{◌≢◌, ◌⊎◌, inl, inr}
use mathlib.Core.List.{List, [], ◌∷◌, ◌++◌}
use mathlib.Core.Option.{Option, none, some}
use native.Mathlib.Omega.{arith}
use ingenialink.Base.Tests.{◌==◌, if◌then◌else◌}

module _ {ℓ} {A : Type ℓ} where
  abbrev pub length : List A → ℕ
  length [] = 0
  length (x ∷ xs) = suc (length xs)

  abbrev pub get_elem? : List A → ℕ → Option A
  get_elem? [] i = none
  get_elem? (x ∷ xs) zero = some x
  get_elem? (x ∷ xs) (suc i) = get_elem? xs i

  abbrev pub get_or : List A → ℕ → A → A
  get_or [] i d = d
  get_or (x ∷ xs) zero d = x
  get_or (x ∷ xs) (suc i) d = get_or xs i d

  -- A write out of bounds changes nothing; the callers test the bound first.
  abbrev pub set : List A → ℕ → A → List A
  set [] i v = []
  set (x ∷ xs) zero v = v ∷ xs
  set (x ∷ xs) (suc i) v = x ∷ set xs i v

  abbrev pub take : ℕ → List A → List A
  take zero xs = []
  take (suc n) [] = []
  take (suc n) (x ∷ xs) = x ∷ take n xs

  abbrev pub drop : ℕ → List A → List A
  drop zero xs = xs
  drop (suc n) [] = []
  drop (suc n) (x ∷ xs) = drop n xs

  abbrev pub replicate : ℕ → A → List A
  replicate zero a = []
  replicate (suc n) a = a ∷ replicate n a

  pub length-append : (xs ys : List A) → length (xs ++ ys) ≡ length xs + length ys
  length-append [] ys = omega arith
  length-append (x ∷ xs) ys = omega (arith, length-append xs ys)

  pub length-set : (xs : List A) (i : ℕ) (v : A) → length (set xs i v) ≡ length xs
  length-set [] i v = refl
  length-set (x ∷ xs) zero v = refl
  length-set (x ∷ xs) (suc i) v = ap suc (length-set xs i v)

  pub length-replicate : (n : ℕ) (a : A) → length (replicate n a) ≡ n
  length-replicate zero a = refl
  length-replicate (suc n) a = ap suc (length-replicate n a)

  pub length-take : (n : ℕ) (xs : List A) → length (take n xs) ≡ min n (length xs)
  length-take zero xs = omega arith
  length-take (suc n) [] = omega arith
  length-take (suc n) (x ∷ xs) = omega (arith, length-take n xs)

  pub get_elem?-set_self :
      (xs : List A) (i : ℕ) (v : A) → i < length xs → get_elem? (set xs i v) i ≡ some v
  get_elem?-set_self [] i v h = elim h [ ]
  get_elem?-set_self (x ∷ xs) zero v h = refl
  get_elem?-set_self (x ∷ xs) (suc i) v h = get_elem?-set_self xs i v (omega arith)

  pub get_elem?-set_ne :
      (xs : List A) (i j : ℕ) (v : A) → i ≢ j → get_elem? (set xs i v) j ≡ get_elem? xs j
  get_elem?-set_ne [] i j v h = refl
  get_elem?-set_ne (x ∷ xs) zero zero v h = absurd (h refl)
  get_elem?-set_ne (x ∷ xs) zero (suc j) v h = refl
  get_elem?-set_ne (x ∷ xs) (suc i) zero v h = refl
  get_elem?-set_ne (x ∷ xs) (suc i) (suc j) v h = get_elem?-set_ne xs i j v (λ e. h (ap suc e))

  pub get_elem?-length : (xs : List A) (i : ℕ) → length xs ≤ i → get_elem? xs i ≡ none
  get_elem?-length [] i h = refl
  get_elem?-length (x ∷ xs) zero h = absurd (omega arith)
  get_elem?-length (x ∷ xs) (suc i) h = get_elem?-length xs i (omega arith)

  -- A read after a write.
  pub get_or-set :
      (xs : List A) (i j : ℕ) (v d : A)
      → j < length xs
      → get_or (set xs i v) j d ≡ (if i == j then v else get_or xs j d)
  get_or-set [] i j v d h = absurd (omega arith)
  get_or-set (x ∷ xs) zero zero v d h = refl
  get_or-set (x ∷ xs) zero (suc j) v d h = ground arith
  get_or-set (x ∷ xs) (suc i) zero v d h = ground arith
  get_or-set (x ∷ xs) (suc i) (suc j) v d h = ground (arith, get_or-set xs i j v d)

  pub get_elem?-lt : (xs : List A) (i : ℕ) → i < length xs → (a : A) × (get_elem? xs i ≡ some a)
  get_elem?-lt [] i h = absurd (omega arith)
  get_elem?-lt (x ∷ xs) zero h = (x, refl)
  get_elem?-lt (x ∷ xs) (suc i) h = get_elem?-lt xs i (omega arith)

  pub take-append : (xs ys : List A) (n : ℕ) → length xs ≡ n → take n (xs ++ ys) ≡ xs
  take-append [] ys n h = simp (sym h) refl
  take-append (x ∷ xs) ys zero h = absurd (omega arith)
  take-append (x ∷ xs) ys (suc n) h = ap (◌∷◌ x) (take-append xs ys n (omega arith))

  pub get_or-append :
      (xs ys : List A) (i k : ℕ) (d : A) → i ≡ length xs + k → get_or (xs ++ ys) i d ≡ get_or ys k d
  get_or-append [] ys i k d h = ap (λ (j : ℕ). get_or ys j d) (omega arith)
  get_or-append (x ∷ xs) ys zero k d h = absurd (omega arith)
  get_or-append (x ∷ xs) ys (suc i) k d h = get_or-append xs ys i k d (omega arith)

  pub length-drop : (n : ℕ) (xs : List A) → length (drop n xs) ≡ length xs - n
  length-drop zero xs = omega arith
  length-drop (suc n) [] = omega arith
  length-drop (suc n) (x ∷ xs) = omega (arith, length-drop n xs)

  pub drop-append : (n : ℕ) (xs ys : List A) → n ≤ length xs → drop n xs ++ ys ≡ drop n (xs ++ ys)
  drop-append zero xs ys h = refl
  drop-append (suc n) [] ys h = absurd (omega arith)
  drop-append (suc n) (x ∷ xs) ys h = drop-append n xs ys (omega arith)

  drop-nil : (n : ℕ) → drop n [] ≡ []
  drop-nil zero = refl
  drop-nil (suc n) = refl

  pub drop-drop : (n k : ℕ) (xs : List A) → drop n (drop k xs) ≡ drop (k + n) xs
  drop-drop n zero xs = ap (λ m. drop m xs) (omega arith)
  drop-drop n (suc k) [] = drop-nil n ∙ sym (drop-nil (suc k + n))
  drop-drop n (suc k) (x ∷ xs) =
      let e : suc (k + n) ≡ suc k + n = omega arith in
      drop-drop n k xs ∙ ap (λ m. drop m (x ∷ xs)) e

  pub append_assoc : (xs ys zs : List A) → (xs ++ ys) ++ zs ≡ xs ++ (ys ++ zs)
  append_assoc [] ys zs = refl
  append_assoc (x ∷ xs) ys zs = ap (◌∷◌ x) (append_assoc xs ys zs)

  pub append-nil : (xs : List A) → xs ++ [] ≡ xs
  append-nil [] = refl
  append-nil (x ∷ xs) = ap (◌∷◌ x) (append-nil xs)

  -- The last `n` of a list.
  abbrev pub latest : ℕ → List A → List A
  latest n xs = drop (length xs - n) xs

  pub latest-append : (n : ℕ) (xs ys : List A) → latest n (latest n xs ++ ys) ≡ latest n (xs ++ ys)
  latest-append n xs ys =
      let k = length xs - n in
      let l = length (latest n xs ++ ys) - n in
      ap (drop l) (drop-append k xs ys (omega arith))
      ∙ drop-drop l k (xs ++ ys)
      ∙ ap (λ m. drop m (xs ++ ys))
          (omega (arith, length-append (latest n xs) ys, length-drop k xs, length-append xs ys))

  pub latest-all : (n : ℕ) (xs : List A) → length xs ≤ n → latest n xs ≡ xs
  latest-all n xs h = let e : length xs - n ≡ 0 = omega arith in ap (λ m. drop m xs) e

  pub get_elem?-bound : (xs : List A) (i : ℕ) (a : A) → get_elem? xs i ≡ some a → i < length xs
  get_elem?-bound [] i a h = ground (arith, h)
  get_elem?-bound (x ∷ xs) zero a h = omega arith
  get_elem?-bound (x ∷ xs) (suc i) a h = omega (arith, get_elem?-bound xs i a h)

  pub set-beyond : (xs : List A) (i : ℕ) (v : A) → length xs ≤ i → set xs i v ≡ xs
  set-beyond [] i v h = refl
  set-beyond (x ∷ xs) zero v h = absurd (omega arith)
  set-beyond (x ∷ xs) (suc i) v h = ap (◌∷◌ x) (set-beyond xs i v (omega arith))

  -- A write of what was there takes back the write before it.
  pub set-restored :
      (xs : List A) (i : ℕ) (v a : A) → get_elem? xs i ≡ some a → set (set xs i v) i a ≡ xs
  set-restored [] i v a h = refl
  set-restored (x ∷ xs) zero v a h = ground (arith, h)
  set-restored (x ∷ xs) (suc i) v a h = ap (◌∷◌ x) (set-restored xs i v a h)

  -- An element after a write is the one written, or one from before at another place.
  pub get_elem?-set_cases :
      (xs : List A) (i k : ℕ) (v a : A)
      → get_elem? (set xs k v) i ≡ some a
      → ((i ≡ k) × (a ≡ v)) ⊎ ((i ≢ k) × (get_elem? xs i ≡ some a))
  get_elem?-set_cases [] i k v a h = ground (arith, h)
  get_elem?-set_cases (x ∷ xs) zero zero v a h = inl (refl, ground (arith, h))
  get_elem?-set_cases (x ∷ xs) (suc i) zero v a h = inr (omega arith, h)
  get_elem?-set_cases (x ∷ xs) zero (suc k) v a h = inr (omega arith, h)
  get_elem?-set_cases (x ∷ xs) (suc i) (suc k) v a h = elim (get_elem?-set_cases xs i k v a h) [
    | inl (e, q) ↦ inl (ap suc e, q)
    | inr (ne, q) ↦ inr (omega (arith, ne), q)
  ]

  pub set-same : (xs : List A) (i : ℕ) (a : A) → get_elem? xs i ≡ some a → set xs i a ≡ xs
  set-same [] i a h = refl
  set-same (x ∷ xs) zero a h = ground (arith, h)
  set-same (x ∷ xs) (suc i) a h = ap (◌∷◌ x) (set-same xs i a h)

  pub set-set : (xs : List A) (i : ℕ) (v a : A) → set (set xs i v) i a ≡ set xs i a
  set-set [] i v a = refl
  set-set (x ∷ xs) zero v a = refl
  set-set (x ∷ xs) (suc i) v a = ap (◌∷◌ x) (set-set xs i v a)
