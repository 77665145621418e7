-- ===== src/Emcy/Runs.antt =====
-- The arrivals of emergencies and the rounds of the monitor, in every order.
use ingenialink.Base.{
  ℕ, zero, suc, ◌<◌, Option, none, some, List, [], ◌∷◌, ◌++◌, length, latest, latest-append,
  latest-all, append_assoc, append-nil, ◌≡◌, sym, ap, ◌∙◌, arith, Option-cases, inl, inr,
}
use mathlib.Core.Path.{subst}
use ingenialink.Subs.Servos.{Subscriber, Call, notify}
use ingenialink.Emcy.{Emcy, on_emcy, take_emcy, drain}
use ingenialink.Emcy.Queue.{
  pending-length, IsValid, pending, Takes, on_emcy-pending, on_emcy-IsValid, take_emcy-Takes,
  take_emcy-IsValid,
}

module _ (subs : List Subscriber) where
  -- The queue and the calls made so far. Emergencies arrive from the network at any time; the monitor
  -- holds the lock of the queue while it takes a code, and calls the subscribers after.
  pub data Step : Emcy → List (Call ℕ) → Option ℕ → Emcy → List (Call ℕ) → Type 0 where
    arrives :
        (code : ℕ) (e : Emcy) (calls : List (Call ℕ))
        → Step e calls (some code) (on_emcy code e) calls
    handles :
        (code : ℕ) (e e' : Emcy) (calls : List (Call ℕ))
        → take_emcy e ≡ some (code, e')
        → Step e calls none e' (calls ++ notify code subs)

  -- With what happens in each step: a code arrives, or none.
  pub data Steps : Emcy → List (Call ℕ) → List (Option ℕ) → Emcy → List (Call ℕ) → Type 0 where
    done : (e : Emcy) (calls : List (Call ℕ)) → Steps e calls [] e calls
    step :
        (what : Option ℕ) (later : List (Option ℕ)) (e e1 e2 : Emcy)
        (calls calls1 calls2 : List (Call ℕ))
        → Step e calls what e1 calls1
        → Steps e1 calls1 later e2 calls2
        → Steps e calls (what ∷ later) e2 calls2

  -- The same with a list of the codes that wait: a code that arrives goes to the end and only the latest
  -- three are kept; the oldest is taken.
  pub data Spec : List ℕ → List (Call ℕ) → List (Option ℕ) → List ℕ → List (Call ℕ) → Type 0 where
    finished : (q : List ℕ) (calls : List (Call ℕ)) → Spec q calls [] q calls
    enqueues :
        (code : ℕ) (later : List (Option ℕ)) (q q' : List ℕ) (calls calls' : List (Call ℕ))
        → Spec (latest 3 (q ++ (code ∷ []))) calls later q' calls'
        → Spec q calls (some code ∷ later) q' calls'
    dequeues :
        (code : ℕ) (later : List (Option ℕ)) (q q' : List ℕ) (calls calls' : List (Call ℕ))
        → Spec q (calls ++ notify code subs) later q' calls'
        → Spec (code ∷ q) calls (none ∷ later) q' calls'

  -- Every step from a valid queue leaves one.
  Step-IsValid :
      (what : Option ℕ) (e e' : Emcy) (calls calls' : List (Call ℕ))
      → IsValid e
      → Step e calls what e' calls'
      → IsValid e'
  Step-IsValid what e e' calls calls' v (arrives code _ _) = on_emcy-IsValid code e v
  Step-IsValid what e e' calls calls' v (handles code _ _ _ h) = take_emcy-IsValid e code e' v h

  Takes-some :
      (e : Emcy) (code : ℕ) (e' : Emcy)
      → IsValid e
      → take_emcy e ≡ some (code, e')
      → pending e ≡ code ∷ pending e'
  Takes-some e code e' v h = subst (Takes e) h (take_emcy-Takes e v)

  Step-refined :
      (what : Option ℕ) (later : List (Option ℕ)) (e e1 : Emcy) (calls calls1 : List (Call ℕ))
      (q' : List ℕ) (calls' : List (Call ℕ))
      → IsValid e
      → Step e calls what e1 calls1
      → Spec (pending e1) calls1 later q' calls'
      → Spec (pending e) calls (what ∷ later) q' calls'
  Step-refined what later e e1 calls calls1 q' calls' v (arrives code _ _) s =
      enqueues code later (pending e) q' calls calls'
        (subst (λ q. Spec q calls later q' calls') (on_emcy-pending code e v) s)
  Step-refined what later e e1 calls calls1 q' calls' v (handles code _ _ _ h) s =
      subst (λ q. Spec q calls (none ∷ later) q' calls') (sym (Takes-some e code e1 v h))
        (dequeues code later (pending e1) q' calls calls' s)

  -- Every interleaving of arriving codes and rounds of the monitor is the same interleaving over a list of the
  -- codes that wait: each code that arrives goes to its end, of which the latest three are kept, each
  -- round takes its first, and the calls are the same.
  pub Steps-refined :
      (happened : List (Option ℕ)) (e e' : Emcy) (calls calls' : List (Call ℕ))
      → IsValid e
      → Steps e calls happened e' calls'
      → Spec (pending e) calls happened (pending e') calls'
  Steps-refined happened e e' calls calls' v (done _ _) = finished (pending e) calls
  Steps-refined happened e e' calls calls' v (step what later _ e1 _ _ calls1 _ s rest) =
      Step-refined what later e e1 calls calls1 (pending e') calls' v s
        (Steps-refined later e1 e' calls1 calls' (Step-IsValid what e e1 calls calls1 v s) rest)

  -- The calls for codes, one after the other.
  abbrev pub notify_all : List ℕ → List (Call ℕ)
  notify_all [] = []
  notify_all (code ∷ codes) = notify code subs ++ notify_all codes

  -- The loop ends once it has as many rounds as codes wait and one more: every subscriber is called
  -- for each code that waits, the oldest first, and none waits then.
  pub drain-pending :
      (fuel : ℕ) (e : Emcy)
      → IsValid e
      → length (pending e) < fuel
      → (e' : Emcy) × (drain fuel subs e ≡ some (notify_all (pending e), e'))
        × IsValid e'
        × (pending e' ≡ [])
  unfolding drain
  drain-pending zero e v lt = absurd (omega arith)
  drain-pending (suc fuel) e v lt = elim (Option-cases (take_emcy e)) [
    | inl h ↦
        let none_waits = subst (Takes e) h (take_emcy-Takes e v) in
        (e, ground (arith, h, ap notify_all none_waits), v, none_waits)
    | inr ((code, e1), h) ↦
        let waits = Takes-some e code e1 v h in
        let (e', r, v', p) =
          drain-pending fuel e1 (take_emcy-IsValid e code e1 v h)
            (omega (arith, ap (length {A = ℕ}) waits)) in
        (e', ground (arith, h, r, ap notify_all waits), v', p)
  ]

-- A burst of emergencies.
abbrev pub arrive_all : List ℕ → Emcy → Emcy
arrive_all [] e = e
arrive_all (code ∷ codes) e = arrive_all codes (on_emcy code e)

arrive_all-IsValid : (codes : List ℕ) (e : Emcy) → IsValid e → IsValid (arrive_all codes e)
arrive_all-IsValid [] e v = v
arrive_all-IsValid (code ∷ codes) e v =
    arrive_all-IsValid codes (on_emcy code e) (on_emcy-IsValid code e v)

arrive_all-pending :
    (codes : List ℕ) (e : Emcy)
    → IsValid e
    → pending (arrive_all codes e) ≡ latest 3 (pending e ++ codes)
arrive_all-pending [] e v =
    sym (ap (latest 3) (append-nil (pending e)) ∙ latest-all 3 (pending e) (pending-length e v))
arrive_all-pending (code ∷ codes) e v =
    arrive_all-pending codes (on_emcy code e) (on_emcy-IsValid code e v)
    ∙ ap (λ q. latest 3 (q ++ codes)) (on_emcy-pending code e v)
    ∙ latest-append 3 (pending e ++ (code ∷ [])) codes
    ∙ ap (latest 3) (append_assoc (pending e) (code ∷ []) codes)

-- Emergencies that arrive while none waits: the monitor calls every subscriber for the latest three of
-- them, the oldest first, and ends within four rounds.
pub arrive_all-drained :
    (subs : List Subscriber) (codes : List ℕ) (e : Emcy)
    → IsValid e
    → pending e ≡ []
    → (e' : Emcy) × (drain 4 subs (arrive_all codes e)
        ≡ some (notify_all subs (latest 3 codes), e'))
      × (pending e' ≡ [])
arrive_all-drained subs codes e v none_waits =
    let b = arrive_all codes e in
    let vb = arrive_all-IsValid codes e v in
    let waits = arrive_all-pending codes e v ∙ ap (λ q. latest 3 (q ++ codes)) none_waits in
    let (e', r, _, p) = drain-pending subs 4 b vb (omega (arith, pending-length b vb)) in
    (e', r ∙ ap (λ q. some (notify_all subs q, e')) waits, p)
