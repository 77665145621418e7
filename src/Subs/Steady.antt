-- ===== src/Subs/Steady.antt =====
-- The table of ingenialink/base/net.c over any sequence of subscriptions and their ends, while it
-- keeps its size.
use ingenialink.Base.{
  ℕ, ◌*◌, ◌^◌, ◌<◌, ◌≢◌, true, false, Option, none, some, Result, ok, err, List, [], length,
  get_elem?, get_elem?-set_cases, set-restored, set-beyond, set, length-set, ◌≡◌, refl, sym, ap,
  ◌∙◌, arith, Bool-cases, inl, inr, ltb,
}
use mathlib.Core.Path.{subst}
use ingenialink.Subs.{Table, Alloc, grown_int}
use ingenialink.Subs.Nets.{slot_bytes, Slot, vacant, is_free, sw_subscribe, sw_unsubscribe}
use ingenialink.Subs.Places.{
  table, table_grown, NoneWith, Outcome, already, placed, no_memory, extended, sw_subscribe-Outcome,
}

-- No two slots in use have the same id.
abbrev pub Distinct : List Slot → Type 0
Distinct subs =
    (i j : ℕ) (a b : Slot)
    → get_elem? subs i ≡ some a
    → get_elem? subs j ≡ some b
    → is_free a ≡ false
    → is_free b ≡ false
    → a.id ≡ b.id
    → i ≡ j

-- A free slot holds nothing.
abbrev pub Clean : List Slot → Type 0
Clean subs = (i : ℕ) (a : Slot) → get_elem? subs i ≡ some a → is_free a ≡ true → a ≡ vacant

-- There is a slot, and twice the number of slots is an `int`.
abbrev pub IsSound : List Slot → Type 0
IsSound subs = (0 < length subs) × (length subs < 2 ^ 30) × Distinct subs × Clean subs

set-Distinct :
    (subs : List Slot) (k : ℕ) (s : Slot)
    → Distinct subs
    → NoneWith s.id subs
    → Distinct (set subs k s)
set-Distinct subs k s d nw i j a b ei ej fa fb same = elim (get_elem?-set_cases subs i k s a ei) [
  | inl (pi, pa) ↦ elim (get_elem?-set_cases subs j k s b ej) [
    | inl (pj, pb) ↦ pi ∙ sym pj
    | inr (nj, qj) ↦ absurd (ground (arith, nw j b qj, ap (λ (x : Slot). x.id) pa, same))
  ]
  | inr (ni, qi) ↦ elim (get_elem?-set_cases subs j k s b ej) [
    | inl (pj, pb) ↦ absurd (ground (arith, nw i a qi, ap (λ (x : Slot). x.id) pb, same))
    | inr (nj, qj) ↦ d i j a b qi qj fa fb same
  ]
]

clear-Distinct : (subs : List Slot) (k : ℕ) → Distinct subs → Distinct (set subs k vacant)
clear-Distinct subs k d i j a b ei ej fa fb same = elim (get_elem?-set_cases subs i k vacant a ei) [
  | inl (pi, pa) ↦ absurd (ground (arith, ap (λ (x : Slot). x.cb) pa, fa))
  | inr (ni, qi) ↦ elim (get_elem?-set_cases subs j k vacant b ej) [
    | inl (pj, pb) ↦ absurd (ground (arith, ap (λ (x : Slot). x.cb) pb, fb))
    | inr (nj, qj) ↦ d i j a b qi qj fa fb same
  ]
]

set-Clean :
    (subs : List Slot) (k : ℕ) (s : Slot)
    → Clean subs
    → (is_free s ≡ true → s ≡ vacant)
    → Clean (set subs k s)
set-Clean subs k s c h i a e f = elim (get_elem?-set_cases subs i k s a e) [
  | inl (p, q) ↦ q ∙ h (ap is_free (sym q) ∙ f)
  | inr (n, q) ↦ c i a q f
]

-- A subscription that ends empties its slot; a slot behind the table is left alone.
pub sw_unsubscribe_lem :
    (slot : ℕ) (subs : List Slot)
    → sw_unsubscribe slot (table subs) ≡ some (table (set subs slot vacant))
unfolding sw_unsubscribe
sw_unsubscribe_lem slot subs = elim (Bool-cases (ltb slot (length subs))) [
  | inl h ↦ ground (arith, h, length-set subs slot vacant)
  | inr h ↦ ground (arith, h, set-beyond subs slot vacant (ground (arith, h)))
]

slots : Option (Result ℕ × Table Slot) → List Slot
slots none = []
slots (some (r, t)) = t.subs

slots_of : Option (Table Slot) → List Slot
slots_of none = []
slots_of (some t) = t.subs

recorded : Option (Result ℕ × Table Slot) → ℕ
recorded none = 0
recorded (some (r, t)) = t.sz

returned : Option (Result ℕ × Table Slot) → ℕ
returned none = 0
returned (some (ok slot, t)) = slot
returned (some (err e, t)) = 0

grown_int-other : (n : ℕ) → 0 < n → n < 2 ^ 30 → grown_int slot_bytes n ≢ 2 * n
unfolding grown_int
grown_int-other n h k e = omega (arith, e)

module _ (alloc : Alloc Slot) where
  -- A table that has grown_int records another size than that of its memory.
  grown-differs :
      (s : Slot) (subs subs' m : List Slot) (r : Result ℕ)
      → 0 < length subs
      → length subs < 2 ^ 30
      → alloc.realloc subs (2 * length subs) ≡ some m
      → (o : Option (Result ℕ × Table Slot))
      → o ≡ some (ok (length subs), table_grown subs (set m (length subs) s))
      → o ≢ some (r, table subs')
  unfolding slots recorded
  grown-differs s subs subs' m r pos small g o e0 e = grown_int-other (length subs) pos small (
      omega (
        arith,
        ap length (ap slots (sym e0 ∙ e)),
        length-set m (length subs) s,
        alloc.sized subs m (2 * length subs) g,
        ap recorded (sym e0 ∙ e),
      ))

  Outcome-IsSound :
      (s : Slot) (subs subs' : List Slot) (o : Option (Result ℕ × Table Slot)) (r : Result ℕ)
      → IsSound subs
      → is_free s ≡ false
      → Outcome alloc s subs o
      → o ≡ some (r, table subs')
      → IsSound subs'
  unfolding slots
  Outcome-IsSound s subs subs' o r h f (already i a _ _) e = subst IsSound (ap slots e) h
  Outcome-IsSound s subs subs' o r h f (no_memory _ _ _) e = subst IsSound (ap slots e) h
  Outcome-IsSound s subs subs' o r (pos, small, d, c) f (placed slot nw first lt) e =
      let l = length-set subs slot s in
      subst IsSound (ap slots e) (
        omega (arith, l, pos),
        omega (arith, l, small),
        set-Distinct subs slot s d nw,
        set-Clean subs slot s c (λ q. absurd (ground (arith, q, f))),
      )
  Outcome-IsSound s subs subs' o r (pos, small, d, c) f (extended m nw nf g) e =
      absurd (grown-differs s subs subs' m r pos small g o refl e)

  Outcome-restored :
      (s : Slot) (slot : ℕ) (subs subs' : List Slot) (o : Option (Result ℕ × Table Slot))
      → IsSound subs
      → Outcome alloc s subs o
      → o ≡ some (ok slot, table subs')
      → set subs' slot vacant ≡ subs
  unfolding slots returned
  Outcome-restored s slot subs subs' o h (already i a _ _) e = absurd (ground (arith, e))
  Outcome-restored s slot subs subs' o h (no_memory _ _ _) e = absurd (ground (arith, e))
  Outcome-restored s slot subs subs' o (_, _, _, c) (placed k nw first lt) e =
      let (a, ea, free) = first.3 lt in
      cc (ap slots e, ap returned e, set-restored subs k s a ea, c k a ea free)
  Outcome-restored s slot subs subs' o (pos, small, d, c) (extended m nw nf g) e =
      absurd (grown-differs s subs subs' m (ok slot) pos small g o refl e)

  -- The end of the subscription that was just made takes it back: the table is as it was.
  pub sw_unsubscribe-sw_subscribe :
      (id cb ctx slot : ℕ) (subs subs' : List Slot)
      → IsSound subs
      → sw_subscribe alloc id cb ctx (table subs) ≡ some (ok slot, table subs')
      → sw_unsubscribe slot (table subs') ≡ some (table subs)
  sw_unsubscribe-sw_subscribe id cb ctx slot subs subs' h e =
      sw_unsubscribe_lem slot subs'
      ∙ ap (λ xs. some (table xs))
          (Outcome-restored (record { id = id; cb = cb; ctx = ctx }) slot subs subs' _ h
            (sw_subscribe-Outcome alloc (record { id = id; cb = cb; ctx = ctx }) subs h.0) e)

-- The tables that are reached by subscriptions with a callback, and by their ends, while the size
-- recorded is that of the memory.
pub data Uses : List Slot → List Slot → Type 0 where
  unused : (subs : List Slot) → Uses subs subs
  subscribes :
      (alloc : Alloc Slot) (id cb ctx : ℕ) (r : Result ℕ) (subs subs1 subs2 : List Slot)
      → 0 < cb
      → sw_subscribe alloc id cb ctx (table subs) ≡ some (r, table subs1)
      → Uses subs1 subs2
      → Uses subs subs2
  ends :
      (slot : ℕ) (subs subs1 subs2 : List Slot)
      → sw_unsubscribe slot (table subs) ≡ some (table subs1)
      → Uses subs1 subs2
      → Uses subs subs2

-- Whatever subscriptions and ends happen, no two subscribers have the same id, and a free slot is empty.
pub Uses-IsSound : (subs subs' : List Slot) → IsSound subs → Uses subs subs' → IsSound subs'
unfolding slots_of
Uses-IsSound subs subs' h (unused _) = h
Uses-IsSound subs subs' h (subscribes alloc id cb ctx r _ subs1 _ f e rest) =
    let s : Slot = record { id = id; cb = cb; ctx = ctx } in
    Uses-IsSound subs1 subs'
      (Outcome-IsSound alloc s subs subs1 _ r h (ground arith)
        (sw_subscribe-Outcome alloc s subs (h.0)) e)
      rest
Uses-IsSound subs subs' (pos, small, d, c) (ends slot _ subs1 _ e rest) =
    let l = length-set subs slot vacant in
    let q : set subs slot vacant ≡ subs1 = ap slots_of (sym (sw_unsubscribe_lem slot subs) ∙ e) in
    Uses-IsSound subs1 subs'
      (subst IsSound q (
        omega (arith, l, pos),
        omega (arith, l, small),
        clear-Distinct subs slot d,
        set-Clean subs slot vacant c (λ _. refl),
      ))
      rest
