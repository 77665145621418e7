-- ===== src/Subs/Places.antt =====
-- What a subscription of ingenialink/base/net.c does to a table, on every path.
use ingenialink.Base.{
  ℕ, ◌*◌, ◌<◌, Bool, false, Option, none, some, Result, ok, err, ealready, enomem, List, length,
  get_elem?, get_elem?-bound, set, length-set, ◌≡◌, sym, arith, Bool-cases, Option-cases, inl, inr,
  ==_iff, ltb,
}
use mathlib.Core.Path.{subst}
use ingenialink.Subs.{Table, Alloc, grown_int, search}
use ingenialink.Subs.Nets.{Slot, has_id, is_free, slot_bytes, sw_subscribe}
use ingenialink.Subs.Search.{First, search-First}

-- A table whose recorded size is that of its memory, and whose lock is free.
abbrev pub table : List Slot → Table Slot
table subs = record { subs = subs; sz = length subs; held = false }

abbrev pub NoneWith : ℕ → List Slot → Type 0
NoneWith id subs = (i : ℕ) (a : Slot) → get_elem? subs i ≡ some a → has_id id a ≡ false

abbrev pub NoneFree : List Slot → Type 0
NoneFree subs = (i : ℕ) (a : Slot) → get_elem? subs i ≡ some a → is_free a ≡ false

-- The memory has twice the slots, the recorded size is its bytes.
abbrev pub table_grown : List Slot → List Slot → Table Slot
table_grown subs subs' = record {
  subs = subs';
  sz = grown_int slot_bytes (length subs);
  held = false;
}

module _ (alloc : Alloc Slot) (s : Slot) (subs : List Slot) where
  -- What a subscription returns, and the table it leaves.
  pub data Outcome : Option (Result ℕ × Table Slot) → Type 0 where
    already :
        (i : ℕ) (a : Slot)
        → get_elem? subs i ≡ some a
        → a.id ≡ s.id
        → Outcome (some (err ealready, table subs))
    placed :
        (slot : ℕ)
        → NoneWith s.id subs
        → First is_free 0 (length subs) subs slot
        → slot < length subs
        → Outcome (some (ok slot, table (set subs slot s)))
    no_memory :
        NoneWith s.id subs
        → NoneFree subs
        → alloc.realloc subs (2 * length subs) ≡ none
        → Outcome (some (err enomem, table subs))
    extended :
        (subs' : List Slot)
        → NoneWith s.id subs
        → NoneFree subs
        → alloc.realloc subs (2 * length subs) ≡ some subs'
        → Outcome (some (ok (length subs), table_grown subs (set subs' (length subs) s)))

  -- The paths, by what the two searches find and by the answer of `realloc`.
  found_id :
      (f : ℕ)
      → search (has_id s.id) (length subs) 0 subs ≡ some f
      → f < length subs
      → sw_subscribe alloc s.id s.cb s.ctx (table subs) ≡ some (err ealready, table subs)
  unfolding sw_subscribe
  found_id f e lt = ground (arith, e)

  found_free :
      (f k : ℕ)
      → search (has_id s.id) (length subs) 0 subs ≡ some f
      → search is_free (length subs) 0 subs ≡ some k
      → f ≡ length subs
      → k < length subs
      → sw_subscribe alloc s.id s.cb s.ctx (table subs) ≡ some (ok k, table (set subs k s))
  unfolding sw_subscribe
  found_free f k e e1 q lt = ground (arith, e, e1, length-set subs k s)

  found_none :
      (f k : ℕ)
      → search (has_id s.id) (length subs) 0 subs ≡ some f
      → search is_free (length subs) 0 subs ≡ some k
      → f ≡ length subs
      → k ≡ length subs
      → alloc.realloc subs (2 * length subs) ≡ none
      → sw_subscribe alloc s.id s.cb s.ctx (table subs) ≡ some (err enomem, table subs)
  unfolding sw_subscribe
  found_none f k e e1 q q1 r = ground (arith, e, e1, r)

  found_memory :
      (f k : ℕ) (subs' : List Slot)
      → search (has_id s.id) (length subs) 0 subs ≡ some f
      → search is_free (length subs) 0 subs ≡ some k
      → f ≡ length subs
      → k ≡ length subs
      → alloc.realloc subs (2 * length subs) ≡ some subs'
      → length subs < length subs'
      → sw_subscribe alloc s.id s.cb s.ctx (table subs)
        ≡ some (ok (length subs), table_grown subs (set subs' (length subs) s))
  unfolding sw_subscribe
  found_memory f k subs' e e1 q q1 r lt = ground (arith, e, e1, r)

  First-none :
      (p : Slot → Bool) (k : ℕ)
      → First p 0 (length subs) subs k
      → k ≡ length subs
      → (i : ℕ) (a : Slot) → get_elem? subs i ≡ some a
      → p a ≡ false
  First-none p k (_, _, before, _) q i a e =
      before i a (omega arith) (omega (arith, q, get_elem?-bound subs i a e)) e

  -- Without a slot of the id: the first free slot is taken, or the memory is doubled.
  Outcome-unknown :
      (f k : ℕ)
      → 0 < length subs
      → search (has_id s.id) (length subs) 0 subs ≡ some f
      → search is_free (length subs) 0 subs ≡ some k
      → f ≡ length subs
      → NoneWith s.id subs
      → First is_free 0 (length subs) subs k
      → Outcome (sw_subscribe alloc s.id s.cb s.ctx (table subs))
  Outcome-unknown f k pos e e1 q nw first = elim (Bool-cases (ltb k (length subs))) [
    | inl h ↦
        let lt : k < length subs = ground (arith, h) in
        subst Outcome (sym (found_free f k e e1 q lt)) (placed k nw first lt)
    | inr h ↦
        let q1 : k ≡ length subs = ground (arith, h, first.1) in
        let nf = First-none is_free k first q1 in
        elim (Option-cases (alloc.realloc subs (2 * length subs))) [
          | inl r ↦ subst Outcome (sym (found_none f k e e1 q q1 r)) (no_memory nw nf r)
          | inr (subs', r) ↦
              subst Outcome
                (sym
                  (found_memory f k subs' e e1 q q1 r (omega (arith, alloc.sized subs subs' _ r))))
                (extended subs' nw nf r)
        ]
  ]

  -- A subscription is refused if a slot has the id, else it takes the first free slot; if none is free,
  -- it doubles the memory and takes the first slot of the new part, or finds no memory.
  pub sw_subscribe-Outcome :
      0 < length subs → Outcome (sw_subscribe alloc s.id s.cb s.ctx (table subs))
  sw_subscribe-Outcome pos =
      let (f, e, first) =
        search-First (has_id s.id) (length subs) 0 (length subs) subs (omega arith) (omega arith) in
      let (k, e1, first1) =
        search-First is_free (length subs) 0 (length subs) subs (omega arith) (omega arith) in
      elim (Bool-cases (ltb f (length subs))) [
        | inl h ↦
            let lt : f < length subs = ground (arith, h) in
            let (a, ea, same) = first.3 lt in
            subst Outcome (sym (found_id f e lt)) (already f a ea ((==_iff a.id s.id).0 same))
        | inr h ↦
            let q : f ≡ length subs = ground (arith, h, first.1) in
            Outcome-unknown f k pos e e1 q (First-none (has_id s.id) f first q) first1
      ]

  -- A search that no slot passes ends behind the table.
  First-end :
      (p : Slot → Bool) (k : ℕ)
      → First p 0 (length subs) subs k
      → ((i : ℕ) (a : Slot) → get_elem? subs i ≡ some a → p a ≡ false)
      → k ≡ length subs
  First-end p k (_, u, _, at) none_passes = elim (Bool-cases (ltb k (length subs))) [
    | inl h ↦
        let (a, ea, pa) = at (ground (arith, h)) in absurd (ground (arith, none_passes k a ea, pa))
    | inr h ↦ ground (arith, h, u)
  ]

  pub sw_subscribe-full :
      (subs' : List Slot)
      → 0 < length subs
      → NoneWith s.id subs
      → NoneFree subs
      → alloc.realloc subs (2 * length subs) ≡ some subs'
      → sw_subscribe alloc s.id s.cb s.ctx (table subs)
        ≡ some (ok (length subs), table_grown subs (set subs' (length subs) s))
  sw_subscribe-full subs' pos nw nf r =
      let (f, e, first) =
        search-First (has_id s.id) (length subs) 0 (length subs) subs (omega arith) (omega arith) in
      let (k, e1, first1) =
        search-First is_free (length subs) 0 (length subs) subs (omega arith) (omega arith) in
      found_memory f k subs' e e1 (First-end (has_id s.id) f first nw)
        (First-end is_free k first1 nf) r (omega (arith, alloc.sized subs subs' _ r))
