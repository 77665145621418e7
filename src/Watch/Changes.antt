-- ===== src/Watch/Changes.antt =====
-- What the monitor of ingenialink/base/servo.c notifies about an axis: the changes of its state.
use ingenialink.Base.{
  Error, some_eq, ℕ, zero, suc, ◌+◌, ◌≤◌, ◌<◌, true, false, Option, some, Result, ok, err,
  Result-cases, Bool-cases, inl, inr, List, [], ◌∷◌, ◌++◌, append_assoc, append-nil, length,
  length-set, get_elem?, get_elem?-lt, get_elem?-set_self, get_elem?-set_ne, set, ◌==◌, ==_iff,
  if◌then◌else◌, ◌≡◌, refl, sym, ap, ◌∙◌, arith,
}
use mathlib.Core.Path.{subst}
use ingenialink.Port.{Net, Catalog}
use ingenialink.Pds.{nrdy, State, state_decode, flags_decode}
use ingenialink.Watch.{
  first_states, Event, Watch, same_state, subnode_of, decoded, check, checks, axes, passes,
}

-- What was notified about an axis.
abbrev pub about : ℕ → List Event → List Event
about subnode [] = []
about subnode (e ∷ es) = if e.subnode == subnode then (e ∷ about subnode es) else about subnode es

-- The changes of the state in a sequence of statuswords, from the state `last` on; a read that failed
-- says nothing.
abbrev pub changes : ℕ → State → List (Result ℕ) → List Event
changes subnode last [] = []
changes subnode last (err e ∷ rs) = changes subnode last rs
changes subnode last (ok sw ∷ rs) =
    if same_state (state_decode sw) last
    then changes subnode last rs
    else (record { state = state_decode sw; flags = flags_decode sw; subnode = subnode }
        ∷ changes subnode (state_decode sw) rs)

-- The axes are those that the array of states has.
abbrev pub Known : List ℕ → Type 0
Known [] = Unit
Known (i ∷ is) = (i < 5) × Known is

module _ {W D : Type 0} (net : Net W) (catalog : Catalog D) (dict : Option D) where
  -- What the drive answers to the reads of the statusword of one axis.
  abbrev pub answers : ℕ → List ℕ → W → List (Result ℕ)
  answers a [] w = []
  answers a (i ∷ is) w =
      let (r, w1) = net.read (subnode_of i) 0x11 2 w in
      if i == a then (r ∷ answers a is w1) else answers a is w1

  check-ok :
      (i sw : ℕ) (m : Watch W)
      → (net.read (subnode_of i) 0x11 2 m.world).0 ≡ ok sw
      → check net catalog dict i m
        ≡ decoded i sw (record m { world = (net.read (subnode_of i) 0x11 2 m.world).1 })
  unfolding check
  check-ok i sw m e = ground (arith, e)

  check-err :
      (i : ℕ) (c : Error) (m : Watch W)
      → (net.read (subnode_of i) 0x11 2 m.world).0 ≡ err c
      → check net catalog dict i m
        ≡ some (record m { world = (net.read (subnode_of i) 0x11 2 m.world).1 })
  unfolding check
  check-err i c m e = ground (arith, e)

about-append : (k : ℕ) (xs ys : List Event) → about k (xs ++ ys) ≡ about k xs ++ about k ys
about-append k [] ys = refl
about-append k (x ∷ xs) ys = ground (arith, about-append k xs ys)

abbrev event : ℕ → ℕ → Event
event i sw = record { state = state_decode sw; flags = flags_decode sw; subnode = subnode_of i }

module _ {W : Type 0} where
  -- The axis `a` after a round for the axis `i`: it has a last state `s'`, and what is notified about it
  -- up to then and from `s'` on is what was to be notified from `s` on.
  abbrev Kept : ℕ → State → ℕ → Result ℕ → Watch W → W → Option (Watch W) → Type 0
  Kept a s i r m w o =
      (m' : Watch W) × (s' : State) × (o ≡ some m')
      × (length m'.states ≡ 5)
      × (get_elem? m'.states a ≡ some s')
      × (m'.world ≡ w)
      × ((rest : List (Result ℕ))
          → about (a + 1) m'.events ++ changes (a + 1) s' rest
            ≡ about (a + 1) m.events ++ changes (a + 1) s (if i == a then (r ∷ rest) else rest))

  decoded-same :
      (i sw : ℕ) (m : Watch W) (last : State)
      → get_elem? m.states i ≡ some last
      → same_state (state_decode sw) last ≡ true
      → decoded i sw m ≡ some (record m { sw = sw })
  unfolding decoded
  decoded-same i sw m last e q = ground (arith, e, q)

  abbrev noted : ℕ → ℕ → Watch W → Watch W
  noted i sw m = record m {
    sw = sw;
    states = set m.states i (state_decode sw);
    events = m.events ++ (event i sw ∷ []);
  }

  decoded-other :
      (i sw : ℕ) (m : Watch W) (last : State)
      → get_elem? m.states i ≡ some last
      → same_state (state_decode sw) last ≡ false
      → decoded i sw m ≡ some (noted i sw m)
  unfolding decoded
  decoded-other i sw m last e q = ground (arith, e, q)

  decoded-Kept :
      (a i sw : ℕ) (s : State) (m : Watch W)
      → i < 5
      → a < 5
      → length m.states ≡ 5
      → get_elem? m.states a ≡ some s
      → Kept a s i (ok sw) m m.world (decoded i sw m)
  decoded-Kept a i sw s m li la l es =
      let (last, el) = get_elem?-lt m.states i (omega (arith, l)) in
      let sub : subnode_of i ≡ i + 1 = omega arith in
      let joined = about-append (a + 1) m.events (event i sw ∷ []) in
      elim (Bool-cases (i == a)) [
        | inl q ↦
            let p : i ≡ a = (==_iff i a).0 q in
            let same : last ≡ s = some_eq (sym el ∙ ap (get_elem? m.states) p ∙ es) in
            elim (Bool-cases (same_state (state_decode sw) last)) [
              | inl t ↦
                  let ts = ap (same_state (state_decode sw)) (sym same) ∙ t in
                  (
                    record m { sw = sw },
                    s,
                    decoded-same i sw m last el t,
                    l,
                    es,
                    refl,
                    λ rest. ground (arith, q, ts),
                  )
              | inr t ↦
                  let ts = ap (same_state (state_decode sw)) (sym same) ∙ t in
                  (
                    noted i sw m,
                    state_decode sw,
                    decoded-other i sw m last el t,
                    length-set m.states i (state_decode sw) ∙ l,
                    ap (get_elem? (set m.states i (state_decode sw))) (sym p)
                        ∙ get_elem?-set_self m.states i (state_decode sw) (omega (arith, l)),
                    refl,
                    λ rest. ground (
                      arith,
                      q,
                      ts,
                      sub,
                      joined,
                      append_assoc (about (a + 1) m.events) (event i sw ∷ [])
                          (changes (a + 1) (state_decode sw) rest),
                    ),
                  )
            ]
        | inr q ↦ elim (Bool-cases (same_state (state_decode sw) last)) [
          | inl t ↦ (
            record m { sw = sw },
            s,
            decoded-same i sw m last el t,
            l,
            es,
            refl,
            λ rest. ground (arith, q),
          )
          | inr t ↦ (
            noted i sw m,
            s,
            decoded-other i sw m last el t,
            length-set m.states i (state_decode sw) ∙ l,
            get_elem?-set_ne m.states i a (state_decode sw) (λ e. ground (arith, e, q)) ∙ es,
            refl,
            λ rest. ground (arith, q, sub, joined, append-nil (about (a + 1) m.events)),
          )
        ]
      ]

module _ {W D : Type 0} (net : Net W) (catalog : Catalog D) (dict : Option D) where
  check-Kept :
      (a i : ℕ) (s : State) (m : Watch W)
      → i < 5
      → a < 5
      → length m.states ≡ 5
      → get_elem? m.states a ≡ some s
      → let (r, w) = net.read (subnode_of i) 0x11 2 m.world in
        Kept a s i r m w (check net catalog dict i m)
  check-Kept a i s m li la l es =
      let (r, w) = net.read (subnode_of i) 0x11 2 m.world in
      elim (Result-cases r) [
        | inl (sw, e) ↦
            subst (λ x. Kept a s i x m w (check net catalog dict i m)) (sym e)
              (subst (Kept a s i (ok sw) m w) (sym (check-ok net catalog dict i sw m e))
                (decoded-Kept a i sw s (record m { world = w }) li la l es))
        | inr (c, e) ↦
            subst (λ x. Kept a s i x m w (check net catalog dict i m)) (sym e)
              (
                record m { world = w },
                s,
                check-err net catalog dict i c m e,
                l,
                es,
                refl,
                λ rest. elim (Bool-cases (i == a)) [
                  | inl q ↦ ground (arith, q)
                  | inr q ↦ ground (arith, q)
                ],
              )
      ]

  checks_cons :
      (i : ℕ) (is : List ℕ) (m m1 : Watch W)
      → check net catalog dict i m ≡ some m1
      → checks net catalog dict (i ∷ is) m ≡ checks net catalog dict is m1
  unfolding checks
  checks_cons i is m m1 e = ground (arith, e)

  checks_nil : (m : Watch W) → checks net catalog dict [] m ≡ some m
  unfolding checks
  checks_nil m = refl

  -- Whatever rounds the monitor makes, on axes that it has states for, it ends, and what it notified about
  -- an axis are the changes of the state among the statuswords that were read of it, in their order.
  pub checks-changes :
      (a : ℕ) (s : State) (is : List ℕ) (m : Watch W)
      → a < 5
      → Known is
      → length m.states ≡ 5
      → get_elem? m.states a ≡ some s
      → (m' : Watch W) × (checks net catalog dict is m ≡ some m')
        × (about (a + 1) m'.events
            ≡ about (a + 1) m.events ++ changes (a + 1) s (answers net catalog dict a is m.world))
  checks-changes a s [] m la k l es = (m, checks_nil m, sym (append-nil (about (a + 1) m.events)))
  checks-changes a s (i ∷ is) m la (li, k) l es =
      let (m1, s1, e, l1, es1, w, kept) = check-Kept a i s m li la l es in
      let (m', e', n) = checks-changes a s1 is m1 la k l1 es1 in
      (
        m',
        checks_cons i is m m1 e ∙ e',
        n
            ∙ ap
                (λ v.
                  about (a + 1) m1.events ++ changes (a + 1) s1 (answers net catalog dict a is v))
                w
            ∙ kept (answers net catalog dict a is (net.read (subnode_of i) 0x11 2 m.world).1),
      )

Known-axes : (n i : ℕ) → i + n ≤ 5 → Known (axes n i)
Known-axes zero i h = tt
Known-axes (suc n) i h = (omega arith, Known-axes n (i + 1) (omega arith))

Known-append : (is js : List ℕ) → Known is → Known js → Known (is ++ js)
Known-append [] js k l = l
Known-append (i ∷ is) js (lt, k) l = (lt, Known-append is js k l)

Known-passes : (k subnodes : ℕ) → subnodes ≤ 5 → Known (passes k subnodes)
Known-passes zero subnodes h = tt
Known-passes (suc k) subnodes h =
    Known-append (axes subnodes 0) (passes k subnodes) (Known-axes subnodes 0 (omega arith))
      (Known-passes k subnodes h)

first_state : (a : ℕ) → a < 5 → get_elem? first_states a ≡ some nrdy
first_state zero h = refl
first_state (suc zero) h = refl
first_state (suc (suc zero)) h = refl
first_state (suc (suc (suc zero))) h = refl
first_state (suc (suc (suc (suc zero)))) h = refl
first_state (suc (suc (suc (suc (suc a))))) h = absurd (omega arith)

-- From its start, over any number of passes over at most five axes, the monitor notifies about each axis the changes of its
-- state among the statuswords read of it, from "not ready" on and in their order.
pub passes-changes :
    {W D : Type 0} (net : Net W) (catalog : Catalog D) (dict : Option D) (k subnodes a sw : ℕ)
    (w : W)
    → subnodes ≤ 5
    → a < subnodes
    → (m' : Watch W) × (checks net catalog dict
          (passes k subnodes)
          (record { states = first_states; sw = sw; events = []; world = w })
        ≡ some m')
      × (about (a + 1) m'.events
          ≡ changes (a + 1) nrdy (answers net catalog dict a (passes k subnodes) w))
passes-changes net catalog dict k subnodes a sw w h lt =
    checks-changes net catalog dict a nrdy (passes k subnodes)
      (record { states = first_states; sw = sw; events = []; world = w }) (omega arith)
      (Known-passes k subnodes h) refl (first_state a (omega arith))
