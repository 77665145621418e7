-- ===== src/Life/Polled.antt =====
-- What a poller holds behind its creation and its end, ingenialink/poller.c.
use ingenialink.Base.{
  ap, sym, ◌∙◌, zero, suc, if◌then◌else◌, ℕ, ◌+◌, ◌<◌, ◌^◌, Bool, true, false, ◌&&◌, some, List, [],
  ◌∷◌, ◌++◌, ◌≡◌, refl, arith,
}
use ingenialink.Refcnt.{refcnt_retain, refcnt_release}
use ingenialink.Refcnt.Balance.{alive}
use ingenialink.Life.{give_back, give_back_all}
use ingenialink.Life.Pollers.{
  PollerPart, t, row, thread, rows, poller, timer, perf, lock, mappings, mappings_valid, acq_d_0,
  acq_d_1, poller_code, PollerRun, poller_fail, poller_create, buffers, poller_destroy,
}

-- What is held in the order of its first taking.
abbrev pub poller_parts : List PollerPart → List PollerPart
poller_parts h = acq_d_1 ∷ acq_d_0 ∷ mappings_valid ∷ mappings ∷ lock ∷ perf ∷ timer ∷ poller ∷ h

abbrev pub poller_obtained : (PollerPart → Bool) → Bool
poller_obtained got =
    got poller
    && got timer
    && got perf
    && got lock
    && got mappings
    && got mappings_valid
    && got acq_d_0
    && got acq_d_1

abbrev pub PollerOutcome : Bool → List PollerPart → ℕ → PollerRun → Type 0
PollerOutcome true held n o = o ≡ (true, some (poller_parts held), some (alive (n + 1)))
PollerOutcome false held n o = o ≡ (false, some held, some (alive n))

-- A servo that is held by some, `n` of them and fewer than its count can hold: if all is obtained, the
-- creation of a poller returns it and takes a reference to the servo; else it returns none, has given back
-- all that it had taken, and the count of the servo is as it was.
pub poller_create-Outcome :
    (got : PollerPart → Bool) (held : List PollerPart) (n : ℕ)
    → 0 < n
    → n < 2 ^ 31
    → PollerOutcome (poller_obtained got) held n (poller_create got held (alive n))
unfolding poller_create poller_fail give_back_all give_back refcnt_retain refcnt_release
poller_create-Outcome got held n p l = ground arith

give_back_all-own :
    (bs cs h : List PollerPart)
    → give_back_all poller_code (bs ++ cs) (bs ++ h) ≡ give_back_all poller_code cs h
unfolding give_back_all give_back
give_back_all-own [] cs h = refl
give_back_all-own (b ∷ bs) cs h = ground (arith, give_back_all-own bs cs h)

-- The parts that a predicate selects.
abbrev pub chosen : (PollerPart → Bool) → List PollerPart → List PollerPart
chosen f [] = []
chosen f (p ∷ ps) = let rest = chosen f ps in if f p then (p ∷ rest) else rest

-- The rows of an acquisition, of `n` channels from `ch`.
abbrev pub all_rows : Bool → ℕ → ℕ → List PollerPart
all_rows i zero ch = []
all_rows i (suc n) ch = row i ch ∷ all_rows i n (ch + 1)

-- The thread and every buffer that a poller of `n` channels may have.
abbrev pub all_buffers : ℕ → List PollerPart
all_buffers n = (thread ∷ t false ∷ []) ++ (all_rows false n 0 ++ (t true ∷ all_rows true n 0))

chosen-append :
    (f : PollerPart → Bool) (ps qs : List PollerPart)
    → chosen f (ps ++ qs) ≡ chosen f ps ++ chosen f qs
chosen-append f [] qs = refl
chosen-append f (p ∷ ps) qs = ground (arith, chosen-append f ps qs)

rows-chosen :
    (f : PollerPart → Bool) (i : Bool) (n ch : ℕ)
    → rows i (λ k. f (row i k)) n ch ≡ chosen f (all_rows i n ch)
unfolding rows
rows-chosen f i zero ch = refl
rows-chosen f i (suc n) ch = ground (arith, rows-chosen f i n (ch + 1))

abbrev joined : Bool → Bool → Bool → List PollerPart → List PollerPart → List PollerPart
joined a b c ps qs =
    (if a then (thread ∷ []) else [])
    ++ ((if b then (t false ∷ []) else []) ++ (ps ++ ((if c then (t true ∷ []) else []) ++ qs)))

joined-chosen :
    (f : PollerPart → Bool) (ps qs : List PollerPart)
    → joined (f thread) (f (t false)) (f (t true)) (chosen f ps) (chosen f qs)
      ≡ chosen f ((thread ∷ t false ∷ []) ++ (ps ++ (t true ∷ qs)))
joined-chosen f ps qs =
    let a = chosen f (thread ∷ []) in
    let b = chosen f (t false ∷ []) in
    let rs = ps ++ (t true ∷ qs) in
    ap (λ xs. a ++ (b ++ (chosen f ps ++ xs))) (sym (chosen-append f (t true ∷ []) qs))
    ∙ ap (λ xs. a ++ (b ++ xs)) (sym (chosen-append f ps (t true ∷ qs)))
    ∙ ap (λ xs. a ++ xs) (sym (chosen-append f (t false ∷ []) rs))
    ∙ sym (chosen-append f (thread ∷ []) (t false ∷ rs))

buffers-chosen :
    (f : PollerPart → Bool) (n : ℕ)
    → buffers (f thread) (λ i. f (t i)) (λ i k. f (row i k)) n ≡ chosen f (all_buffers n)
unfolding buffers
buffers-chosen f n =
    let d = joined (f thread) (f (t false)) (f (t true)) in
    ap (λ ps. d ps (rows true (λ k. f (row true k)) n 0)) (rows-chosen f false n 0)
    ∙ ap (d (chosen f (all_rows false n 0))) (rows-chosen f true n 0)
    ∙ joined-chosen f (all_rows false n 0) (all_rows true n 0)

-- The end of a poller of `n_ch` channels that holds, beside its parts, those of its thread and its buffers
-- that `f` selects, and whose servo has another reference, fewer than its count can hold: it gives back the
-- thread, the buffers and the parts, each once, and the reference to the servo.
pub poller_destroy-Whole :
    (f : PollerPart → Bool) (n_ch : ℕ) (held : List PollerPart) (n : ℕ)
    → 0 < n
    → n < 2 ^ 31
    → poller_destroy
        (f thread)
        (λ i. f (t i))
        (λ i k. f (row i k))
        n_ch
        (chosen f (all_buffers n_ch) ++ poller_parts held)
        (alive (n + 1))
      ≡ (some held, some (alive n))
unfolding poller_destroy give_back_all give_back refcnt_release
poller_destroy-Whole f n_ch held n p l =
    let bs = chosen f (all_buffers n_ch) in
    let cs = acq_d_1 ∷ acq_d_0 ∷ mappings ∷ mappings_valid ∷ lock ∷ perf ∷ timer ∷ poller ∷ [] in
    let back =
      λ (xs : List PollerPart). give_back_all poller_code (xs ++ cs) (bs ++ poller_parts held) in
    let all = ap back (buffers-chosen f n_ch) ∙ give_back_all-own bs cs (poller_parts held) in
    ground (arith, all)
