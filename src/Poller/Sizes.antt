-- ===== src/Poller/Sizes.antt =====
-- The configuration of the poller: what it leaves on every path.
use ingenialink.Base.{
  ℕ, zero, suc, ◌/◌, ◌^◌, ◌<◌, ◌⊎◌, inl, inr, Bool, true, false, none, some, Result, ok, err,
  estate, enomem, List, [], ◌∷◌, length, ◌≡◌, refl, sym, ap, ◌∙◌, arith, Bool-cases, Option-cases,
  some_eq,
}
use mathlib.Core.Path.{subst}
use ingenialink.Base.Int.{pos, signed}
use ingenialink.Poller.{Acq, Poller}
use ingenialink.Poller.Room.{IsSized, HasRoom, Rows}
use ingenialink.Poller.Config.{Heap, bytes_for, resize_rows, resize_acq, configure}

module _ {H A : Type 0} (heap : Heap H A) (sz : ℕ) (small : sz < 2 ^ 61) where
  places : bytes_for sz / 8 ≡ sz
  places = omega arith

  cons-Rows : (row : List A) (d : List (List A)) → length row ≡ sz → Rows sz d → Rows sz (row ∷ d)
  cons-Rows row d l rows zero r e = ap length (sym (some_eq e)) ∙ l
  cons-Rows row d l rows (suc c) r e = rows c r e

  resize_rows-none :
      (row : List A) (d : List (List A)) (h : H)
      → (heap.realloc row (bytes_for sz) h).0 ≡ none
      → (resize_rows heap sz (row ∷ d) h).0 ≡ false
  unfolding resize_rows
  resize_rows-none row d h e = ground (arith, e)

  resize_rows-some :
      (row row1 : List A) (d : List (List A)) (h : H)
      → (heap.realloc row (bytes_for sz) h).0 ≡ some row1
      → let (r, d1, h2) = resize_rows heap sz d (heap.realloc row (bytes_for sz) h).1 in
        resize_rows heap sz (row ∷ d) h ≡ (r, row1 ∷ d1, h2)
  unfolding resize_rows
  resize_rows-some row row1 d h e = ground (arith, e)

  -- If every row found memory, each has the new size.
  resize_rows-Rows :
      (d : List (List A)) (h : H)
      → let (r, d', h') = resize_rows heap sz d h in r ≡ true → (length d' ≡ length d) × Rows sz d'
  unfolding resize_rows
  resize_rows-Rows [] h e = (refl, λ c row q. absurd (ground (arith, q)))
  resize_rows-Rows (row ∷ d) h e = elim (Option-cases (heap.realloc row (bytes_for sz) h).0) [
    | inl q ↦ absurd (ground (arith, resize_rows-none row d h q, e))
    | inr (row1, q) ↦
        let step = resize_rows-some row row1 d h q in
        let (l, rows) =
          resize_rows-Rows d (heap.realloc row (bytes_for sz) h).1 (sym (ap (λ x. x.0) step) ∙ e) in
        subst (λ d'. (length d' ≡ suc (length d)) × Rows sz d') (sym (ap (λ x. x.1) step))
          (ap suc l, cons-Rows row1 _ (heap.sized row row1 (bytes_for sz) h q ∙ places) rows)
  ]

  resize_acq-some :
      (a : Acq A) (t : List A) (h : H)
      → (heap.realloc a.t (bytes_for sz) h).0 ≡ some t
      → let (r, d, h2) = resize_rows heap sz a.d (heap.realloc a.t (bytes_for sz) h).1 in
        resize_acq heap sz a h ≡ (r, record a { t = t; d = d }, h2)
  unfolding resize_acq
  resize_acq-some a t h e = ground (arith, e)

  resize_acq-none :
      (a : Acq A) (h : H)
      → (heap.realloc a.t (bytes_for sz) h).0 ≡ none
      → (resize_acq heap sz a h).0 ≡ false
  unfolding resize_acq
  resize_acq-none a h e = ground (arith, e)

  resize_acq-HasRoom :
      (n : ℕ) (a : Acq A) (h : H)
      → length a.d ≡ n
      → (resize_acq heap sz a h).0 ≡ true
      → HasRoom n sz (resize_acq heap sz a h).1
  resize_acq-HasRoom n a h l e = elim (Option-cases (heap.realloc a.t (bytes_for sz) h).0) [
    | inl q ↦ absurd (ground (arith, resize_acq-none a h q, e))
    | inr (t, q) ↦
        let step = resize_acq-some a t h q in
        let (l1, rows) =
          resize_rows-Rows a.d (heap.realloc a.t (bytes_for sz) h).1
            (sym (ap (λ x. x.0) step) ∙ e) in
        subst (HasRoom n sz) (sym (ap (λ x. x.1) step))
          (heap.sized a.t t (bytes_for sz) h q ∙ places, l1 ∙ l, rows)
  ]

-- What a configuration with a period below 2^31 returns, and the poller it leaves.
module _ {H A : Type 0} (t_s sz : ℕ) (p : Poller A) where
  abbrev pub Configured : Result (Unit {0}) × Poller A × H → Type 0
  Configured (ok u, p', h) = (p.running ≡ false) × IsSized p' × (p'.sz ≡ sz) × (p'.t_s ≡ pos t_s)
  Configured (err e, p', h) =
      ((p.running ≡ true) × (e ≡ estate) × (p' ≡ p))
      ⊎ ((p.running ≡ false) × (e ≡ enomem) × (p'.sz ≡ p.sz))

module _ {H A : Type 0} (heap : Heap H A) (t_s sz : ℕ) (p : Poller A) (h : H) where
  configure_running : p.running ≡ true → configure heap t_s sz p h ≡ (err estate, p, h)
  unfolding configure
  configure_running e = ground (arith, e)

  -- The two acquisitions, resized one after the other.
  abbrev resized_0 : Bool × Acq A × H
  resized_0 = resize_acq heap sz p.acq_0 h

  abbrev resized_1 : Bool × Acq A × H
  resized_1 = resize_acq heap sz p.acq_1 resized_0.2

  configure_first :
      p.running ≡ false
      → resized_0.0 ≡ false
      → configure heap t_s sz p h ≡ (err enomem, record p { acq_0 = resized_0.1 }, resized_0.2)
  unfolding configure
  configure_first e e0 = ground (arith, e, e0)

  configure_second :
      p.running ≡ false
      → resized_0.0 ≡ true
      → resized_1.0 ≡ false
      → configure heap t_s sz p h
        ≡ (err enomem, record p { acq_0 = resized_0.1; acq_1 = resized_1.1 }, resized_1.2)
  unfolding configure
  configure_second e e0 e1 = ground (arith, e, e0, e1)

  configure_both :
      p.running ≡ false
      → resized_0.0 ≡ true
      → resized_1.0 ≡ true
      → configure heap t_s sz p h ≡ (
        ok tt,
        record p { acq_0 = resized_0.1; acq_1 = resized_1.1; t_s = signed 32 t_s; sz = sz },
        resized_1.2,
      )
  unfolding configure
  configure_both e e0 e1 = ground (arith, e, e0, e1)

  -- With fewer than 2^61 places and a period below 2^31: a poller that runs is refused and stays; else a success
  -- leaves every buffer with the new size, and size and period recorded; a failure for want of memory
  -- keeps the recorded size.
  pub configure-Configured :
      sz < 2 ^ 61 → t_s < 2 ^ 31 → IsSized p → Configured t_s sz p (configure heap t_s sz p h)
  configure-Configured small short s = elim (Bool-cases p.running) [
    | inl e ↦ subst (Configured t_s sz p) (sym (configure_running e)) (inl (e, refl, refl))
    | inr e ↦ elim (Bool-cases resized_0.0) [
      | inr e0 ↦ subst (Configured t_s sz p) (sym (configure_first e e0)) (inr (e, refl, refl))
      | inl e0 ↦ elim (Bool-cases resized_1.0) [
        | inr e1 ↦
            subst (Configured t_s sz p) (sym (configure_second e e0 e1)) (inr (e, refl, refl))
        | inl e1 ↦
            let room_0 = resize_acq-HasRoom heap sz small p.n_ch p.acq_0 h s.2.1 e0 in
            let period : signed 32 t_s ≡ pos t_s = ground arith in
            let room_1 = resize_acq-HasRoom heap sz small p.n_ch p.acq_1 resized_0.2 s.3.1 e1 in
            subst (Configured t_s sz p) (sym (configure_both e e0 e1))
              (e, (s.0, s.1, room_0, room_1), refl, period)
      ]
    ]
  ]
