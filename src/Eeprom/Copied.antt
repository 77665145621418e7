-- ===== src/Eeprom/Copied.antt =====
-- What an array holds after the bytes of another one were copied into it, as `input_intelhex` of ingenialink/ecat/net.c
-- does from the records.
use ingenialink.Base.{
  ℕ, zero, suc, ◌+◌, ◌<◌, ◌≤◌, ◌≡◌, ◌≢◌, ◌⊎◌, refl, ap, ◌∙◌, List, [], ◌∷◌, length, length-set,
  get_or-set, get_or, set, ◌==◌, arith, Bool-cases, inl, inr,
}
use ingenialink.Eeprom.Records.{AllBytes, copied}

-- An array of bytes.
abbrev pub IsBytes : List ℕ → Type 0
IsBytes buf = (i : ℕ) → get_or buf i 0 < 256

pub IsBytes-AllBytes : (n idx : ℕ) (buf : List ℕ) → IsBytes buf → AllBytes n idx buf
IsBytes-AllBytes zero idx buf b = tt
IsBytes-AllBytes (suc n) idx buf b = (b idx, IsBytes-AllBytes n (idx + 1) buf b)

pub length-copied :
    (n idx at : ℕ) (buf target : List ℕ) → length (copied n idx at buf target) ≡ length target
length-copied zero idx at buf target = refl
length-copied (suc n) idx at buf target =
    length-copied n (idx + 1) (at + 1) buf (set target at (get_or buf idx 0))
    ∙ length-set target at (get_or buf idx 0)

pub copied-add :
    (m n idx : ℕ) (buf target : List ℕ)
    → copied (m + n) idx idx buf target
      ≡ copied n (idx + m) (idx + m) buf (copied m idx idx buf target)
copied-add zero n idx buf target =
    let same : 0 + n ≡ n = omega arith in
    let here : idx ≡ idx + 0 = omega arith in
    ap (λ (k : ℕ). copied k idx idx buf target) same ∙ ap (λ (i : ℕ). copied n i i buf target) here
copied-add (suc m) n idx buf target =
    let more : suc m + n ≡ suc (m + n) = omega arith in
    let next : idx + 1 + m ≡ idx + suc m = omega arith in
    let first = set target idx (get_or buf idx 0) in
    ap (λ (k : ℕ). copied k idx idx buf target) more
    ∙ copied-add m n (idx + 1) buf first
    ∙ ap (λ (i : ℕ). copied n i i buf (copied m (idx + 1) (idx + 1) buf first)) next

pub get_or-set_other : (xs : List ℕ) (i j v : ℕ) → i ≢ j → get_or (set xs i v) j 0 ≡ get_or xs j 0
get_or-set_other [] i j v h = refl
get_or-set_other (x ∷ xs) zero zero v h = absurd (h refl)
get_or-set_other (x ∷ xs) zero (suc j) v h = refl
get_or-set_other (x ∷ xs) (suc i) zero v h = refl
get_or-set_other (x ∷ xs) (suc i) (suc j) v h = get_or-set_other xs i j v (λ e. h (ap suc e))

-- What is copied, and what is left.
pub copied_outside :
    (n idx j : ℕ) (buf target : List ℕ)
    → (j < idx) ⊎ (idx + n ≤ j)
    → get_or (copied n idx idx buf target) j 0 ≡ get_or target j 0
copied_outside zero idx j buf target h = refl
copied_outside (suc n) idx j buf target h =
    copied_outside n (idx + 1) j buf (set target idx (get_or buf idx 0)) (later h)
    ∙ get_or-set_other target idx j (get_or buf idx 0) (λ e. apart h e)
  where
    later : (j < idx) ⊎ (idx + suc n ≤ j) → (j < idx + 1) ⊎ (idx + 1 + n ≤ j)
    later (inl a) = inl (omega arith)
    later (inr a) = inr (omega arith)

    apart : (j < idx) ⊎ (idx + suc n ≤ j) → idx ≡ j → ⊥
    apart (inl a) e = omega (arith, e)
    apart (inr a) e = omega (arith, e)

pub copied_inside :
    (n idx j : ℕ) (buf target : List ℕ)
    → idx + n ≤ length target
    → idx ≤ j
    → j < idx + n
    → get_or (copied n idx idx buf target) j 0 ≡ get_or buf j 0
copied_inside zero idx j buf target h a b = absurd (omega arith)
copied_inside (suc n) idx j buf target h a b =
    let first = set target idx (get_or buf idx 0) in
    elim (Bool-cases (idx == j)) [
      | inl e ↦
          let same : idx ≡ j = ground (arith, e) in
          copied_outside n (idx + 1) j buf first (inl (omega (arith, same)))
          ∙ ground (arith, get_or-set target idx j (get_or buf idx 0) 0, e, same)
      | inr e ↦
          let apart : idx ≢ j = λ s. ground (arith, e, s) in
          copied_inside n (idx + 1) j buf first
            (omega (arith, length-set target idx (get_or buf idx 0))) (ground (arith, e))
            (omega arith)
    ]
