-- ===== src/Poller/Room.antt =====
-- The rounds of the poller stay inside its buffers, and leave the samples there are.
use ingenialink.Base.{
  [], ◌∷◌, ℕ, zero, suc, ◌+◌, ◌≤◌, ◌<◌, ◌≢◌, ◌⊎◌, inl, inr, Bool, true, false, Option, none, some,
  Result, List, length, get_elem?, get_elem?-lt, get_elem?-set_cases, get_elem?-set_ne,
  get_elem?-set_self, some_eq, set, length-set, leb, ◌≡◌, refl, sym, ap, ◌∙◌, arith, Bool-cases,
  Result-cases, if◌then◌else◌,
}
use ingenialink.Register.{Reg}
use ingenialink.Poller.Round.{round, Tall, acquire-round}
use ingenialink.Poller.{Acq, Poller, acq, put_acq, put_sample, sample, acquire, fill, tick}

module _ {A : Type 0} where
  abbrev pub Rows : ℕ → List (List A) → Type 0
  Rows sz d = (c : ℕ) (row : List A) → get_elem? d c ≡ some row → length row ≡ sz

  -- The buffers of an acquisition of `n` channels have `sz` places each.
  abbrev pub HasRoom : ℕ → ℕ → Acq A → Type 0
  HasRoom n sz a = (length a.t ≡ sz) × (length a.d ≡ n) × Rows sz a.d

  abbrev pub IsSized : Poller A → Type 0
  IsSized p =
      (length p.mappings ≡ p.n_ch)
      × (length p.mappings_valid ≡ p.n_ch)
      × HasRoom p.n_ch p.sz p.acq_0
      × HasRoom p.n_ch p.sz p.acq_1

  -- The sample of a channel at a place.
  abbrev pub cell : List (List A) → ℕ → ℕ → Option A
  cell d c i = elim (get_elem? d c) [ none ↦ none | some row ↦ get_elem? row i ]

  -- Rows of the same size, with the same samples at every place but one.
  abbrev pub Agree : ℕ → List (List A) → List (List A) → Type 0
  Agree cnt d d' = (length d' ≡ length d) × ((c i : ℕ) → i ≢ cnt → cell d' c i ≡ cell d c i)

  set-Rows :
      (sz ch : ℕ) (row : List A) (d : List (List A))
      → Rows sz d
      → length row ≡ sz
      → Rows sz (set d ch row)
  set-Rows sz ch row d h l c r e = elim (get_elem?-set_cases d c ch row r e) [
    | inl (q, q1) ↦ ap length q1 ∙ l
    | inr (ne, q) ↦ h c r q
  ]

  cell-set :
      (d : List (List A)) (ch cnt c i : ℕ) (row : List A) (v : A)
      → get_elem? d ch ≡ some row
      → i ≢ cnt
      → cell (set d ch (set row cnt v)) c i ≡ cell d c i
  cell-set [] ch cnt c i row v e ne = refl
  cell-set (x ∷ d) zero cnt zero i row v e ne =
      let same : x ≡ row = ground (arith, e) in
      get_elem?-set_ne row cnt i v (λ q. ne (sym q)) ∙ ap (λ r. get_elem? r i) (sym same)
  cell-set (x ∷ d) zero cnt (suc c) i row v e ne = refl
  cell-set (x ∷ d) (suc ch) cnt zero i row v e ne = refl
  cell-set (x ∷ d) (suc ch) cnt (suc c) i row v e ne = cell-set d ch cnt c i row v e ne

  -- A sample is written inside the rows, and they stay as large.
  put_sample_lem :
      (sz ch cnt : ℕ) (v : A) (d : List (List A))
      → ch < length d
      → cnt < sz
      → Rows sz d
      → (d' : List (List A)) × (put_sample ch cnt v d ≡ some d') × Rows sz d' × Agree cnt d d'
  unfolding put_sample
  put_sample_lem sz ch cnt v d lc lt rows =
      let (row, e) = get_elem?-lt d ch lc in
      (
        set d ch (set row cnt v),
        ground (arith, e, rows ch row e),
        set-Rows sz ch (set row cnt v) d rows (length-set row cnt v ∙ rows ch row e),
        (length-set d ch (set row cnt v), λ c i ne. cell-set d ch cnt c i row v e ne),
      )

  Agree-refl : (cnt : ℕ) (d : List (List A)) → Agree cnt d d
  Agree-refl cnt d = (refl, λ c i ne. refl)

  Agree-trans :
      (cnt : ℕ) (d d1 d2 : List (List A)) → Agree cnt d d1 → Agree cnt d1 d2 → Agree cnt d d2
  Agree-trans cnt d d1 d2 (l, k) (l1, k1) = (l1 ∙ l, λ c i ne. k1 c i ne ∙ k c i ne)

  module _ {W : Type 0} (time : W → A × W) (read : Reg → W → Result A × W) where
    abbrev Within : ℕ → ℕ → List (List A) → Option ((Bool × List (List A)) × W) → Type 0
    Within sz cnt d o =
        (fail : Bool) × (d' : List (List A)) × (w' : W) × (o ≡ some ((fail, d'), w'))
        × Rows sz d'
        × Agree cnt d d'

    sample-Within :
        (sz : ℕ) (reg : Reg) (ch cnt : ℕ) (d : List (List A)) (w : W)
        → ch < length d
        → cnt < sz
        → Rows sz d
        → Within sz cnt d (sample time read reg ch cnt d w)
    unfolding sample
    sample-Within sz reg ch cnt d w lc lt rows = elim (Result-cases (read reg w).0) [
      | inl (v, e) ↦
          let (d', p, rows', agree) = put_sample_lem sz ch cnt v d lc lt rows in
          (false, d', (read reg w).1, ground (arith, e, p), rows', agree)
      | inr (x, e) ↦ (true, d, (read reg w).1, ground (arith, e), rows, Agree-refl cnt d)
    ]

    acquire-skip :
        (valid : List Bool) (mappings : List Reg) (n ch cnt : ℕ) (fail : Bool) (d : List (List A))
        (w : W)
        → get_elem? valid ch ≡ some false
        → acquire time read valid mappings (suc n) ch cnt fail d w
          ≡ acquire time read valid mappings n (ch + 1) cnt fail d w
    unfolding acquire
    acquire-skip valid mappings n ch cnt fail d w e = ground (arith, e)

    acquire-sample :
        (valid : List Bool) (mappings : List Reg) (n ch cnt : ℕ) (fail failed : Bool)
        (d d1 : List (List A)) (w w1 : W) (reg : Reg)
        → get_elem? valid ch ≡ some true
        → get_elem? mappings ch ≡ some reg
        → sample time read reg ch cnt d w ≡ some ((failed, d1), w1)
        → acquire time read valid mappings (suc n) ch cnt fail d w
          ≡ acquire time read valid mappings n (ch + 1) cnt (if failed then true else fail) d1 w1
    unfolding acquire
    acquire-sample valid mappings n ch cnt fail failed d d1 w w1 reg e e1 e2 =
        ground (arith, e, e1, e2)

    acquire-Within :
        (valid : List Bool) (mappings : List Reg) (sz n ch cnt : ℕ) (fail : Bool)
        (d : List (List A)) (w : W)
        → ch + n ≤ length valid
        → ch + n ≤ length mappings
        → ch + n ≤ length d
        → cnt < sz
        → Rows sz d
        → Within sz cnt d (acquire time read valid mappings n ch cnt fail d w)
    unfolding acquire
    acquire-Within valid mappings sz zero ch cnt fail d w lv lm ld lt rows =
        (fail, d, w, refl, rows, Agree-refl cnt d)
    acquire-Within valid mappings sz (suc n) ch cnt fail d w lv lm ld lt rows =
        let (v, ev) = get_elem?-lt valid ch (omega arith) in
        elim (Bool-cases v) [
          | inr q ↦
              let (f, d', w', e, rows', agree) =
                acquire-Within valid mappings sz n (ch + 1) cnt fail d w (omega arith) (omega arith)
                  (omega arith) lt rows in
              (
                f,
                d',
                w',
                acquire-skip valid mappings n ch cnt fail d w (ev ∙ ap some q) ∙ e,
                rows',
                agree,
              )
          | inl q ↦
              let (reg, em) = get_elem?-lt mappings ch (omega arith) in
              let (f1, d1, w1, e1, rows1, agree1) =
                sample-Within sz reg ch cnt d w (omega arith) lt rows in
              let (f, d', w', e, rows', agree) =
                acquire-Within valid mappings sz n (ch + 1) cnt (if f1 then true else fail) d1 w1
                  (omega arith) (omega arith) (omega (arith, agree1.0)) lt rows1 in
              (
                f,
                d',
                w',
                acquire-sample valid mappings n ch cnt fail f1 d d1 w w1 reg (ev ∙ ap some q) em e1
                    ∙ e,
                rows',
                Agree-trans cnt d d1 d' agree1 agree,
              )
        ]

    -- What a round does to the current acquisition: a full one is marked; else the time and what a pass over the
    -- channels reads become the entries at `cnt`, which grows by one if no read failed, and every other
    -- entry stays.
    abbrev pub Ticked : Poller A → W → Acq A → Acq A → Type 0
    Ticked p w a a' =
        ((p.sz ≤ a.cnt) × (a' ≡ record a { lost = true }))
        ⊎ ((a.cnt < p.sz)
            × (a'.lost ≡ a.lost)
            × ((a'.cnt ≡ a.cnt) ⊎ (a'.cnt ≡ a.cnt + 1))
            × ((i : ℕ) → i ≢ a.cnt → get_elem? a'.t i ≡ get_elem? a.t i)
            × Agree a.cnt a.d a'.d
            × (get_elem? a'.t a.cnt ≡ some (time w).0)
            × (let (failed, d, w1) =
                  round time read a.cnt p.mappings_valid p.mappings a.d (time w).1 in
                (a'.d ≡ d) × (a'.cnt ≡ (if failed then a.cnt else a.cnt + 1))))

    fill_lem :
        (p : Poller A) (a : Acq A) (t : A) (w w' : W) (fail : Bool) (d : List (List A))
        → a.cnt < length a.t
        → acquire time read p.mappings_valid p.mappings p.n_ch 0 a.cnt false a.d w
          ≡ some ((fail, d), w')
        → fill time read p a t w
          ≡ some
              (record a { t = set a.t a.cnt t; d = d; cnt = if fail then a.cnt else a.cnt + 1 }, w')
    unfolding fill
    fill_lem p a t w w' fail d lt e = ground (arith, e)

    counted :
        (fail : Bool) (n : ℕ)
        → ((if fail then n else n + 1) ≡ n) ⊎ ((if fail then n else n + 1) ≡ n + 1)
    counted true n = inl refl
    counted false n = inr refl

    Rows-Tall : (sz cnt : ℕ) (d : List (List A)) → Rows sz d → cnt < sz → Tall time read cnt d
    Rows-Tall sz cnt d rows lt c row e = omega (arith, rows c row e)

    same_result :
        (failed fail : Bool) (d d' : List (List A)) (w w' : W)
        → ◌≡◌ {A = Option ((Bool × List (List A)) × W)}
            (some ((if failed then true else false, d), w))
            (some ((fail, d'), w'))
        → (fail ≡ failed) × (d' ≡ d)
    same_result true fail d d' w w' e =
        let q = some_eq e in (ap (λ x. x.0.0) (sym q), ap (λ x. x.0.1) (sym q))
    same_result false fail d d' w w' e =
        let q = some_eq e in (ap (λ x. x.0.0) (sym q), ap (λ x. x.0.1) (sym q))

    fill-Ticked :
        (p : Poller A) (a : Acq A) (w : W)
        → length p.mappings ≡ p.n_ch
        → length p.mappings_valid ≡ p.n_ch
        → HasRoom p.n_ch p.sz a
        → a.cnt < p.sz
        → (a' : Acq A) × (w' : W) × (fill time read p a (time w).0 (time w).1 ≡ some (a', w'))
          × Ticked p w a a'
          × HasRoom p.n_ch p.sz a'
    fill-Ticked p a w lm lv (lt, ld, rows) room =
        let (t, w1) = time w in
        let (fail, d, w', e, rows', agree) =
          acquire-Within p.mappings_valid p.mappings p.sz p.n_ch 0 a.cnt false a.d w1
            (omega (arith, lv)) (omega (arith, lm)) (omega (arith, ld)) room rows in
        let (failed, d1, w2) = round time read a.cnt p.mappings_valid p.mappings a.d w1 in
        let (same, same_rows) = same_result failed fail d1 d w2 w' (
          sym (
            acquire-round time read p.mappings_valid p.mappings a.d p.n_ch a.cnt w1 (sym lv)
              (sym lm) (sym ld) (Rows-Tall p.sz a.cnt a.d rows room))
          ∙ e) in
        (
          record a { t = set a.t a.cnt t; d = d; cnt = if fail then a.cnt else a.cnt + 1 },
          w',
          fill_lem p a t w1 w' fail d (omega arith) e,
          inr (
            room,
            refl,
            counted fail a.cnt,
            λ i ne. get_elem?-set_ne a.t a.cnt i t (λ q. ne (sym q)),
            agree,
            get_elem?-set_self a.t a.cnt t (omega arith),
            (same_rows, ap (λ b. if b then a.cnt else a.cnt + 1) same),
          ),
          (length-set a.t a.cnt t ∙ lt, agree.0 ∙ ld, rows'),
        )

    tick_full :
        (p : Poller A) (w : W)
        → p.sz ≤ (acq p.acq_curr p).cnt
        → tick time read p w
          ≡ some (put_acq p.acq_curr (record (acq p.acq_curr p) { lost = true }) p, (time w).1)
    unfolding tick
    tick_full p w le = ground arith

    tick-fill :
        (p : Poller A) (w w' : W) (a' : Acq A)
        → (acq p.acq_curr p).cnt < p.sz
        → fill time read p (acq p.acq_curr p) (time w).0 (time w).1 ≡ some (a', w')
        → tick time read p w ≡ some (put_acq p.acq_curr a' p, w')
    unfolding tick
    tick-fill p w w' a' lt e = ground (arith, e)

    acq-HasRoom : (c : Bool) (p : Poller A) → IsSized p → HasRoom p.n_ch p.sz (acq c p)
    acq-HasRoom false p h = h.2
    acq-HasRoom true p h = h.3

    -- A round of a poller whose buffers have their sizes stays inside them, whatever the reads return: a full
    -- acquisition is only marked as having lost data; else the time and what each channel in use reads are
    -- written at the count, a channel whose read fails keeps its sample, the count grows by one if
    -- no read failed and stays otherwise, and every sample at another place stays.
    pub tick-Ticked :
        (p : Poller A) (w : W)
        → IsSized p
        → (a' : Acq A) × (w' : W) × (tick time read p w ≡ some (put_acq p.acq_curr a' p, w'))
          × Ticked p w (acq p.acq_curr p) a'
          × HasRoom p.n_ch p.sz a'
    tick-Ticked p w h =
        let a = acq p.acq_curr p in
        let room = acq-HasRoom p.acq_curr p h in
        elim (Bool-cases (leb p.sz a.cnt)) [
          | inl q ↦
              let le : p.sz ≤ a.cnt = ground (arith, q) in
              (record a { lost = true }, (time w).1, tick_full p w le, inl (le, refl), room)
          | inr q ↦
              let lt : a.cnt < p.sz = ground (arith, q) in
              let (a', w', e, ticked, room') = fill-Ticked p a w h.0 h.1 room lt in
              (a', w', tick-fill p w w' a' lt e, ticked, room')
        ]
