-- ===== src/Emcy/Queue.antt =====
-- The circular queue of emergencies against a list of the codes that are pending.
use ingenialink.Base.{
  ℕ, zero, suc, ◌+◌, ◌-◌, ◌%◌, ◌≤◌, ◌<◌, Option, none, some, List, [], ◌∷◌, ◌++◌, get_or, length,
  ◌≡◌, refl, ap, sym, arith, latest, length-set,
}
use ingenialink.Base.Bits.{and_mask}
use mathlib.Core.Path.{subst}
use ingenialink.Emcy.{Emcy, on_emcy, take_emcy}

-- The first cell that is taken, and the cell that is written next, are in the queue.
abbrev pub IsValid : Emcy → Type 0
IsValid e = (e.head < 4) × (e.tail < 4) × (e.sz ≡ 4) × (length e.queue ≡ 4)

-- `n` cells from `t`, around the end.
abbrev pub cells : ℕ → ℕ → List ℕ → List ℕ
cells zero t q = []
cells (suc n) t q = get_or q (t % 4) 0 ∷ cells n (t + 1) q

-- The codes that wait, the oldest first.
abbrev pub pending : Emcy → List ℕ
pending e = cells ((e.head + 4 - e.tail) % 4) e.tail e.queue

-- The abstract queue: it holds the latest three codes.
abbrev pub enqueue : ℕ → List ℕ → List ℕ
enqueue code q = latest 3 (q ++ (code ∷ []))

index_cases : (P : ℕ → Type 0) → (P 0 × P 1 × P 2 × P 3) → (n : ℕ) → n < 4 → P n
index_cases P h zero lt = h.0
index_cases P h (suc zero) lt = h.1
index_cases P h (suc (suc zero)) lt = h.2
index_cases P h (suc (suc (suc zero))) lt = h.3
index_cases P h (suc (suc (suc (suc n)))) lt = absurd (omega arith)

-- Something holds of a valid queue if it holds for every four cells at each of the places where the
-- queue can start and end.
module _ (P : Emcy → Type 0) where
  abbrev At : List ℕ → ℕ → ℕ → Type 0
  At q h t = P (record { head = h; tail = t; sz = 4; queue = q })

  abbrev Everywhere : List ℕ → Type 0
  Everywhere q =
      (At q 0 0 × At q 0 1 × At q 0 2 × At q 0 3)
      × (At q 1 0 × At q 1 1 × At q 1 2 × At q 1 3)
      × (At q 2 0 × At q 2 1 × At q 2 2 × At q 2 3)
      × (At q 3 0 × At q 3 1 × At q 3 2 × At q 3 3)

  places_cases :
      ((a b c d : ℕ) → Everywhere (a ∷ b ∷ c ∷ d ∷ []))
      → (q : List ℕ) (h t : ℕ) → length q ≡ 4
      → h < 4
      → t < 4
      → At q h t
  places_cases k [] h t e lh lt = absurd (omega (arith, e))
  places_cases k (a ∷ []) h t e lh lt = absurd (omega (arith, e))
  places_cases k (a ∷ b ∷ []) h t e lh lt = absurd (omega (arith, e))
  places_cases k (a ∷ b ∷ c ∷ []) h t e lh lt = absurd (omega (arith, e))
  places_cases k (a ∷ b ∷ c ∷ d ∷ x ∷ rest) h t e lh lt = absurd (omega (arith, e))
  places_cases k (a ∷ b ∷ c ∷ d ∷ []) h t e lh lt =
      let q = a ∷ b ∷ c ∷ d ∷ [] in
      let (r0, r1, r2, r3) = k a b c d in
      index_cases (λ h. At q h t)
        (
          index_cases (At q 0) r0 t lt,
          index_cases (At q 1) r1 t lt,
          index_cases (At q 2) r2 t lt,
          index_cases (At q 3) r3 t lt,
        )
        h lh

  valid_cases : ((a b c d : ℕ) → Everywhere (a ∷ b ∷ c ∷ d ∷ [])) → (e : Emcy) → IsValid e → P e
  valid_cases k e (lh, lt, es, el) =
      subst (λ n. P (record e { sz = n })) (sym es) (places_cases k e.queue e.head e.tail el lh lt)

-- `on_emcy` puts a code into the queue, and takes the oldest out if three wait already.
pub on_emcy-pending :
    (code : ℕ) (e : Emcy) → IsValid e → pending (on_emcy code e) ≡ enqueue code (pending e)
unfolding on_emcy
on_emcy-pending code =
    valid_cases (λ e. pending (on_emcy code e) ≡ enqueue code (pending e))
      (λ a b c d. (
        (refl, refl, refl, refl),
        (refl, refl, refl, refl),
        (refl, refl, refl, refl),
        (refl, refl, refl, refl),
      ))

-- `on_emcy` keeps the places of the queue.
pub on_emcy-IsValid : (code : ℕ) (e : Emcy) → IsValid e → IsValid (on_emcy code e)
unfolding on_emcy
on_emcy-IsValid code e (lh, lt, es, el) =
    ground (arith, and_mask 2 (e.head + 1), and_mask 2 (e.tail + 1), length-set e.queue e.head code)

-- A round of the loop takes the oldest code that waits, if there is one.
abbrev pub Takes : Emcy → Option (ℕ × Emcy) → Type 0
Takes e none = pending e ≡ []
Takes e (some (code, e')) = pending e ≡ code ∷ pending e'

pub take_emcy-Takes : (e : Emcy) → IsValid e → Takes e (take_emcy e)
unfolding take_emcy
take_emcy-Takes =
    valid_cases (λ e. Takes e (take_emcy e))
      (λ a b c d. (
        (refl, refl, refl, refl),
        (refl, refl, refl, refl),
        (refl, refl, refl, refl),
        (refl, refl, refl, refl),
      ))

pub take_emcy-IsValid :
    (e : Emcy) (code : ℕ) (e' : Emcy) → IsValid e → take_emcy e ≡ some (code, e') → IsValid e'
unfolding take_emcy
take_emcy-IsValid e code e' (lh, lt, es, el) h = ground (arith, h, and_mask 2 (e.tail + 1))

length-cells : (n t : ℕ) (q : List ℕ) → length (cells n t q) ≡ n
length-cells zero t q = refl
length-cells (suc n) t q = ap suc (length-cells n (t + 1) q)

pub pending-length : (e : Emcy) → IsValid e → length (pending e) ≤ 3
pending-length e v = omega (arith, length-cells ((e.head + 4 - e.tail) % 4) e.tail e.queue)
