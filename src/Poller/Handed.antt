-- ===== src/Poller/Handed.antt =====
-- The two acquisitions of the poller: the one that the program has got is not written until it gets
-- the other.
use ingenialink.Base.{
  ℕ, zero, suc, ◌+◌, ◌≤◌, inl, inr, Bool, true, false, not, Option, none, some, Result, ◌≡◌, refl,
  sym, ap, ◌∙◌, arith,
}
use mathlib.Core.Path.{subst}
use ingenialink.Register.{Reg}
use ingenialink.Poller.{Acq, Poller, acq, put_acq, tick, data_get}
use ingenialink.Poller.Room.{IsSized, HasRoom, Ticked, tick-Ticked}

module _ {A W : Type 0} (time : W → A × W) (read : Reg → W → Result A × W) where
  -- `n` rounds.
  unfoldable pub ticks : ℕ → Poller A → W → Option (Poller A × W)
  unfolding tick
  ticks zero p w = some (p, w)
  ticks (suc n) p w = elim (tick time read p w) [ none ↦ none | some (p1, w1) ↦ ticks n p1 w1 ]

  -- From `p`, whose current acquisition is `c`, `n` rounds lead to `p'`: the other acquisition is as it
  -- was, and no more samples are counted than there were rounds, nor than there are places.
  abbrev pub Going : ℕ → Bool → Poller A → Poller A → Type 0
  Going n c p p' =
      IsSized p'
      × (p'.acq_curr ≡ c)
      × (p'.sz ≡ p.sz)
      × (acq (not c) p' ≡ acq (not c) p)
      × ((acq c p').cnt ≤ (acq c p).cnt + n)
      × ((acq c p).cnt ≤ p.sz → (acq c p').cnt ≤ p.sz)

  Ticked-cnt :
      (p : Poller A) (w : W) (a a' : Acq A)
      → Ticked time read p w a a'
      → (a'.cnt ≤ a.cnt + 1) × (a.cnt ≤ p.sz → a'.cnt ≤ p.sz)
  Ticked-cnt p w a a' (inl (le, e)) =
      let q : a'.cnt ≡ a.cnt = ap (λ (x : Acq A). x.cnt) e in
      (omega (arith, q), λ k. omega (arith, q))
  Ticked-cnt p w a a' (inr (lt, l, inl e, k, g, t, r)) = (omega (arith, e), λ k. omega (arith, e))
  Ticked-cnt p w a a' (inr (lt, l, inr e, k, g, t, r)) = (omega (arith, e), λ k. omega (arith, e))

  tick_at :
      (c : Bool) (p : Poller A) (w : W)
      → p.acq_curr ≡ c
      → IsSized p
      → (a' : Acq A) × (w' : W) × (tick time read p w ≡ some (put_acq c a' p, w'))
        × Ticked time read p w (acq c p) a'
        × HasRoom p.n_ch p.sz a'
  tick_at c p w q h =
      subst
        (λ b.
          (a' : Acq A) × (w' : W) × (tick time read p w ≡ some (put_acq b a' p, w'))
          × Ticked time read p w (acq b p) a'
          × HasRoom p.n_ch p.sz a')
        q (tick-Ticked time read p w h)

  put_acq-Going :
      (c : Bool) (p : Poller A) (a' : Acq A)
      → p.acq_curr ≡ c
      → IsSized p
      → HasRoom p.n_ch p.sz a'
      → (a'.cnt ≤ (acq c p).cnt + 1) × ((acq c p).cnt ≤ p.sz → a'.cnt ≤ p.sz)
      → Going 1 c p (put_acq c a' p)
  put_acq-Going false p a' q h room cnt = ((h.0, h.1, room, h.3), q, refl, refl, cnt.0, cnt.1)
  put_acq-Going true p a' q h room cnt = ((h.0, h.1, h.2, room), q, refl, refl, cnt.0, cnt.1)

  tick-Going :
      (c : Bool) (p : Poller A) (w : W)
      → p.acq_curr ≡ c
      → IsSized p
      → (p' : Poller A) × (w' : W) × (tick time read p w ≡ some (p', w')) × Going 1 c p p'
  tick-Going c p w q h =
      let (a', w', e, t, room) = tick_at c p w q h in
      (put_acq c a' p, w', e, put_acq-Going c p a' q h room (Ticked-cnt p w (acq c p) a' t))

  Going-trans :
      (n : ℕ) (c : Bool) (p p1 p2 : Poller A)
      → Going 1 c p p1
      → Going n c p1 p2
      → Going (suc n) c p p2
  Going-trans n c p p1 p2 (_, q, z, o, k, b) (h1, q1, z1, o1, k1, b1) = (
    h1,
    q1,
    z1 ∙ z,
    o1 ∙ o,
    omega (arith, k, k1),
    λ le. omega (arith, b1 (omega (arith, b le, z)), z),
  )

  ticks_suc :
      (n : ℕ) (p p1 p2 : Poller A) (w w1 w2 : W)
      → tick time read p w ≡ some (p1, w1)
      → ticks n p1 w1 ≡ some (p2, w2)
      → ticks (suc n) p w ≡ some (p2, w2)
  unfolding ticks
  ticks_suc n p p1 p2 w w1 w2 e e1 = ground (arith, e, e1)

  ticks-Going :
      (n : ℕ) (c : Bool) (p : Poller A) (w : W)
      → p.acq_curr ≡ c
      → IsSized p
      → (p' : Poller A) × (w' : W) × (ticks n p w ≡ some (p', w')) × Going n c p p'
  unfolding ticks
  ticks-Going zero c p w q h = (p, w, refl, (h, q, refl, refl, omega arith, λ le. le))
  ticks-Going (suc n) c p w q h =
      let (p1, w1, e, g) = tick-Going c p w q h in
      let (p2, w2, e1, g1) = ticks-Going n c p1 w1 g.1 g.0 in
      (p2, w2, ticks_suc n p p1 p2 w w1 w2 e e1, Going-trans n c p p1 p2 g g1)

  -- The poller behind a `data_get` that returned `c`.
  abbrev got : Bool → Poller A → Poller A
  got c p = record (put_acq (not c) (record (acq (not c) p) { cnt = 0; lost = false }) p) {
    acq_curr = not c;
  }

  got_lem :
      (c : Bool) (p : Poller A)
      → IsSized p
      → IsSized (got c p)
        × ((got c p).sz ≡ p.sz)
        × (acq (not (not c)) (got c p) ≡ acq c p)
        × ((acq (not c) (got c p)).cnt ≡ 0)
        × ((p' : Poller A) → acq (not (not c)) p' ≡ acq c p')
  got_lem false p h = (h, refl, refl, refl, λ p'. refl)
  got_lem true p h = (h, refl, refl, refl, λ p'. refl)

  -- The acquisition that `data_get` returns is the one filled so far, and whatever number of rounds
  -- follow, it stays as it is; they fill the other one, from empty, with a sample per round at most and
  -- never more than there are places.
  pub data_get-handed :
      (p : Poller A) (n : ℕ) (w : W)
      → IsSized p
      → let (c, p1) = data_get p in
        (p' : Poller A) × (w' : W) × (ticks n p1 w ≡ some (p', w'))
        × IsSized p'
        × (c ≡ p.acq_curr)
        × (acq c p' ≡ acq c p)
        × (p'.acq_curr ≡ not c)
        × ((acq (not c) p').cnt ≤ n)
        × ((acq (not c) p').cnt ≤ p.sz)
  unfolding data_get
  data_get-handed p n w h =
      let c = p.acq_curr in
      let (h1, z, other, none_yet, same) = got_lem c p h in
      let (p', w', e, (h', q', z', o', k, b)) = ticks-Going n (not c) (got c p) w refl h1 in
      (
        p',
        w',
        e,
        h',
        refl,
        sym (same p') ∙ o' ∙ other,
        q',
        omega (arith, k, none_yet),
        omega (arith, b (omega (arith, none_yet)), z),
      )
