-- ===== src/Subs/Search.antt =====
-- The search for a slot: it finds the first slot that passes the test, or leaves the memory.
use ingenialink.Base.{
  ℕ, zero, suc, ◌+◌, ◌≤◌, ◌<◌, Bool, true, false, none, some, List, length, get_elem?, get_elem?-lt,
  get_elem?-length, ◌≡◌, refl, ap, arith, Bool-cases, inl, inr, ◌==◌, ==_iff, ltb,
}
use ingenialink.Subs.{search}

module _ {A : Type 0} (p : A → Bool) where
  -- `k` is the first slot from `slot` that passes, or `stop` if none before it does.
  abbrev pub First : ℕ → ℕ → List A → ℕ → Type 0
  First slot stop subs k =
      (slot ≤ k)
      × (k ≤ stop)
      × ((i : ℕ) (a : A) → slot ≤ i → i < k → get_elem? subs i ≡ some a → p a ≡ false)
      × (k < stop → (a : A) × (get_elem? subs k ≡ some a) × (p a ≡ true))

  search-step :
      (n slot : ℕ) (subs : List A) (a : A)
      → get_elem? subs slot ≡ some a
      → search p (suc n) slot subs
        ≡ elim (p a) [ true ↦ some slot | false ↦ search p n (slot + 1) subs ]
  unfolding search
  search-step n slot subs a h = ground (arith, h)

  search-zero : (slot : ℕ) (subs : List A) → search p zero slot subs ≡ some slot
  unfolding search
  search-zero slot subs = refl

  search-beyond :
      (n slot : ℕ) (subs : List A) → get_elem? subs slot ≡ none → search p (suc n) slot subs ≡ none
  unfolding search
  search-beyond n slot subs h = ground (arith, h)

  -- Inside the memory, the search finds the first.
  pub search-First :
      (n slot stop : ℕ) (subs : List A)
      → stop ≡ slot + n
      → stop ≤ length subs
      → (k : ℕ) × (search p n slot subs ≡ some k) × First slot stop subs k
  search-First zero slot stop subs e h = (
    slot,
    search-zero slot subs,
    (omega arith, omega arith, λ i a le lt e1. absurd (omega arith), λ lt. absurd (omega arith)),
  )
  search-First (suc n) slot stop subs e h =
      let (a, ea) = get_elem?-lt subs slot (omega arith) in
      elim (Bool-cases (p a)) [
        | inl pa ↦ (
          slot,
          ground (arith, search-step n slot subs a ea, pa),
          (omega arith, omega arith, λ i b le lt e1. absurd (omega arith), λ lt. (a, ea, pa)),
        )
        | inr pa ↦
            let (k, f, (l, u, before, at)) =
              search-First n (slot + 1) stop subs (omega (arith, e)) h in
            (
              k,
              ground (arith, search-step n slot subs a ea, pa, f),
              (
                omega arith,
                u,
                λ i b le lt e1. elim (Bool-cases (i == slot)) [
                  | inl q ↦ cc (e1, ap (get_elem? subs) ((==_iff i slot).0 q), ea, pa)
                  | inr q ↦ before i b (ground (arith, q)) lt e1
                ],
                at,
              ),
            )
      ]

  -- A search past the memory leaves it if no slot passes.
  pub search-outside :
      (n slot : ℕ) (subs : List A)
      → length subs < slot + n
      → slot ≤ length subs
      → ((i : ℕ) (a : A) → get_elem? subs i ≡ some a → p a ≡ false)
      → search p n slot subs ≡ none
  search-outside zero slot subs h le none_passes = absurd (omega arith)
  search-outside (suc n) slot subs h le none_passes = elim (Bool-cases (ltb slot (length subs))) [
    | inl lt ↦
        let (a, ea) = get_elem?-lt subs slot (ground (arith, lt)) in
        ground (
          arith,
          search-step n slot subs a ea,
          none_passes slot a ea,
          search-outside n (slot + 1) subs (omega arith) (ground (arith, lt)) none_passes,
        )
    | inr ge ↦ search-beyond n slot subs (get_elem?-length subs slot (ground (arith, ge)))
  ]

  -- If a slot passes, the search ends at one.
  pub First-hit :
      (slot stop k i : ℕ) (subs : List A) (a : A)
      → First slot stop subs k
      → slot ≤ i
      → i < stop
      → get_elem? subs i ≡ some a
      → p a ≡ true
      → k < stop
  First-hit slot stop k i subs a (l, u, before, at) le lt e pa = elim (Bool-cases (ltb k stop)) [
    | inl h ↦ ground (arith, h)
    | inr h ↦ absurd (ground (arith, before i a le (ground (arith, h)) e, pa))
  ]
