-- ===== src/Poller/Round.antt =====
-- The loop of the poller over the channels, ingenialink/poller.c, against a pass over the lists of channels and
-- rows.
use ingenialink.Base.{
  [], ◌∷◌, ◌++◌, ℕ, zero, suc, ◌+◌, ◌<◌, inl, inr, Bool, true, false, Option, some, Result, ok, err,
  Error, List, length, length-append, get_elem?, set, append_assoc, ◌≡◌, refl, sym, ap, ◌∙◌, arith,
  Result-cases, if◌then◌else◌,
}
use ingenialink.Register.{Reg}
use ingenialink.Poller.{put_sample, sample, acquire}

get_at {ℓ} :
    {B : Type ℓ} (before : List B) (x : B) (xs : List B) (i : ℕ)
    → i ≡ length before
    → get_elem? (before ++ (x ∷ xs)) i ≡ some x
get_at [] x xs zero e = refl
get_at [] x xs (suc i) e = absurd (omega (arith, e))
get_at (b ∷ before) x xs zero e = absurd (omega (arith, e))
get_at (b ∷ before) x xs (suc i) e = get_at before x xs i (omega (arith, e))

set_at {ℓ} :
    {B : Type ℓ} (before : List B) (x y : B) (xs : List B) (i : ℕ)
    → i ≡ length before
    → set (before ++ (x ∷ xs)) i y ≡ before ++ (y ∷ xs)
set_at [] x y xs zero e = refl
set_at [] x y xs (suc i) e = absurd (omega (arith, e))
set_at (b ∷ before) x y xs zero e = absurd (omega (arith, e))
set_at (b ∷ before) x y xs (suc i) e = ap (◌∷◌ b) (set_at before x y xs i (omega (arith, e)))

module _ {A W : Type 0} (time : W → A × W) (read : Reg → W → Result A × W) where
  -- The channels one after the other, each with its own row: one that is in use is read, and what is read
  -- becomes its sample at `cnt`. Whether a read failed, the rows, and the world.
  abbrev pub round : ℕ → List Bool → List Reg → List (List A) → W → Bool × List (List A) × W
  round cnt (false ∷ vs) (m ∷ ms) (row ∷ d) w =
      let (failed, d1, w1) = round cnt vs ms d w in (failed, row ∷ d1, w1)
  round cnt (true ∷ vs) (m ∷ ms) (row ∷ d) w =
      let (res, w1) = read m w in
      let (failed, d1, w2) = round cnt vs ms d w1 in
      elim res [ ok v ↦ (failed, set row cnt v ∷ d1, w2) | err e ↦ (true, row ∷ d1, w2) ]
  round cnt _ _ d w = (false, d, w)

  -- Every row has a place `cnt`.
  abbrev pub Tall : ℕ → List (List A) → Type 0
  Tall cnt d = (c : ℕ) (row : List A) → get_elem? d c ≡ some row → cnt < length row

  sample-read :
      (pd ds : List (List A)) (row : List A) (reg : Reg) (ch cnt : ℕ) (w : W) (v : A)
      → ch ≡ length pd
      → cnt < length row
      → (read reg w).0 ≡ ok v
      → sample time read reg ch cnt (pd ++ (row ∷ ds)) w
        ≡ some ((false, pd ++ (set row cnt v ∷ ds)), (read reg w).1)
  unfolding sample put_sample
  sample-read pd ds row reg ch cnt w v c k e =
      ground (arith, e, get_at pd row ds ch c, set_at pd row (set row cnt v) ds ch c)

  sample-failed :
      (d : List (List A)) (reg : Reg) (ch cnt : ℕ) (w : W) (x : Error)
      → (read reg w).0 ≡ err x
      → sample time read reg ch cnt d w ≡ some ((true, d), (read reg w).1)
  unfolding sample
  sample-failed d reg ch cnt w x e = ground (arith, e)

  -- The loop on the channels left, `vs`, `ms` and `ds`, behind those done.
  abbrev loop :
      List Bool
      → List Bool
      → List Reg
      → List Reg
      → List (List A)
      → List (List A)
      → ℕ
      → ℕ
      → ℕ
      → Bool
      → W
      → Option ((Bool × List (List A)) × W)
  loop pv vs pm ms pd ds n ch cnt fail w =
      acquire time read (pv ++ vs) (pm ++ ms) n ch cnt fail (pd ++ ds) w

  loop_skip :
      (pv vs : List Bool) (pm ms : List Reg) (pd ds : List (List A)) (m : Reg) (row : List A)
      (n ch cnt : ℕ) (fail : Bool) (w : W)
      → ch ≡ length pv
      → loop pv (false ∷ vs) pm (m ∷ ms) pd (row ∷ ds) (suc n) ch cnt fail w
        ≡ loop pv (false ∷ vs) pm (m ∷ ms) pd (row ∷ ds) n (ch + 1) cnt fail w
  unfolding acquire
  loop_skip pv vs pm ms pd ds m row n ch cnt fail w c = ground (arith, get_at pv false vs ch c)

  loop-sample :
      (pv vs : List Bool) (pm ms : List Reg) (pd ds : List (List A)) (m : Reg) (row row1 : List A)
      (n ch cnt : ℕ) (fail failed : Bool) (w w1 : W)
      → ch ≡ length pv
      → ch ≡ length pm
      → sample time read m ch cnt (pd ++ (row ∷ ds)) w ≡ some ((failed, pd ++ (row1 ∷ ds)), w1)
      → loop pv (true ∷ vs) pm (m ∷ ms) pd (row ∷ ds) (suc n) ch cnt fail w
        ≡ loop pv
            (true ∷ vs)
            pm
            (m ∷ ms)
            pd
            (row1 ∷ ds)
            n
            (ch + 1)
            cnt
            (if failed then true else fail)
            w1
  unfolding acquire
  loop-sample pv vs pm ms pd ds m row row1 n ch cnt fail failed w w1 c c1 e =
      ground (arith, get_at pv true vs ch c, get_at pm m ms ch c1, e)

  -- The first channel left becomes the last one done.
  loop_shift :
      (pv vs : List Bool) (pm ms : List Reg) (pd ds : List (List A)) (v : Bool) (m : Reg)
      (row : List A) (n ch cnt : ℕ) (fail : Bool) (w : W)
      → loop pv (v ∷ vs) pm (m ∷ ms) pd (row ∷ ds) n ch cnt fail w
        ≡ loop (pv ++ (v ∷ [])) vs (pm ++ (m ∷ [])) ms (pd ++ (row ∷ [])) ds n ch cnt fail w
  loop_shift pv vs pm ms pd ds v m row n ch cnt fail w =
      cc (append_assoc pv (v ∷ []) vs, append_assoc pm (m ∷ []) ms, append_assoc pd (row ∷ []) ds)

  -- What the loop returns for the rows `pd` done and a pass over those left.
  abbrev pub result :
      List (List A) → Bool → Bool × List (List A) × W → Option ((Bool × List (List A)) × W)
  result pd fail r = some ((if r.0 then true else fail, pd ++ r.1), r.2)

  round_ok :
      (cnt : ℕ) (vs : List Bool) (ms : List Reg) (ds : List (List A)) (m : Reg) (row : List A)
      (w : W) (v : A)
      → (read m w).0 ≡ ok v
      → (let r = round cnt vs ms ds (read m w).1 in
          round cnt (true ∷ vs) (m ∷ ms) (row ∷ ds) w ≡ (r.0, set row cnt v ∷ r.1, r.2))
  round_ok cnt vs ms ds m row w v e = ground (arith, e)

  round_err :
      (cnt : ℕ) (vs : List Bool) (ms : List Reg) (ds : List (List A)) (m : Reg) (row : List A)
      (w : W) (x : Error)
      → (read m w).0 ≡ err x
      → (let r = round cnt vs ms ds (read m w).1 in
          round cnt (true ∷ vs) (m ∷ ms) (row ∷ ds) w ≡ (true, row ∷ r.1, r.2))
  round_err cnt vs ms ds m row w x e = ground (arith, e)

  result-failed :
      (pd : List (List A)) (row : List A) (fail : Bool) (r : Bool × List (List A) × W)
      → result (pd ++ (row ∷ [])) true r ≡ result pd fail (true, row ∷ r.1, r.2)
  result-failed pd row fail (true, d, w) =
      ap (λ (d : List (List A)). some ((true, d), w)) (append_assoc pd (row ∷ []) d)
  result-failed pd row fail (false, d, w) =
      ap (λ (d : List (List A)). some ((true, d), w)) (append_assoc pd (row ∷ []) d)

  result-append :
      (pd : List (List A)) (row : List A) (fail : Bool) (r : Bool × List (List A) × W)
      → result (pd ++ (row ∷ [])) fail r ≡ result pd fail (r.0, row ∷ r.1, r.2)
  result-append pd row fail r =
      ap (λ (d : List (List A)). some ((if r.0 then true else fail, d), r.2))
        (append_assoc pd (row ∷ []) r.1)

  -- Done and left, the lists have as many elements each.
  abbrev Even : ℕ → List Bool → List Reg → List (List A) → Type 0
  Even n vs ms ds = (n ≡ length vs) × (n ≡ length ms) × (n ≡ length ds)

  Even-append :
      (ch : ℕ) (pv : List Bool) (pm : List Reg) (pd : List (List A)) (v : Bool) (m : Reg)
      (row : List A)
      → Even ch pv pm pd
      → Even (ch + 1) (pv ++ (v ∷ [])) (pm ++ (m ∷ [])) (pd ++ (row ∷ []))
  Even-append ch pv pm pd v m row (c, c1, c2) = (
    omega (arith, c, length-append pv (v ∷ [])),
    omega (arith, c1, length-append pm (m ∷ [])),
    omega (arith, c2, length-append pd (row ∷ [])),
  )

  Even-tail :
      (n : ℕ) (vs : List Bool) (ms : List Reg) (ds : List (List A)) (v : Bool) (m : Reg)
      (row : List A)
      → Even (suc n) (v ∷ vs) (m ∷ ms) (row ∷ ds)
      → Even n vs ms ds
  Even-tail n vs ms ds v m row (c, c1, c2) =
      (omega (arith, c), omega (arith, c1), omega (arith, c2))

  loop-round :
      (pv vs : List Bool) (pm ms : List Reg) (pd ds : List (List A)) (n ch cnt : ℕ) (fail : Bool)
      (w : W)
      → Even ch pv pm pd
      → Even n vs ms ds
      → Tall cnt ds
      → loop pv vs pm ms pd ds n ch cnt fail w ≡ result pd fail (round cnt vs ms ds w)
  unfolding acquire
  loop-round pv [] pm [] pd [] zero ch cnt fail w c l tall = refl
  loop-round pv (false ∷ vs) pm (m ∷ ms) pd (row ∷ ds) (suc n) ch cnt fail w c l tall =
      loop_skip pv vs pm ms pd ds m row n ch cnt fail w c.0
      ∙ loop_shift pv vs pm ms pd ds false m row n (ch + 1) cnt fail w
      ∙ loop-round (pv ++ (false ∷ [])) vs (pm ++ (m ∷ [])) ms (pd ++ (row ∷ [])) ds n (ch + 1) cnt
          fail w (Even-append ch pv pm pd false m row c) (Even-tail n vs ms ds false m row l)
          (λ i r e. tall (suc i) r e)
      ∙ result-append pd row fail (round cnt vs ms ds w)
  loop-round pv (true ∷ vs) pm (m ∷ ms) pd (row ∷ ds) (suc n) ch cnt fail w c l tall =
      let w1 = (read m w).1 in
      let rest = λ (row1 : List A) (fail1 : Bool).
        loop_shift pv vs pm ms pd ds true m row1 n (ch + 1) cnt fail1 w1
        ∙ loop-round (pv ++ (true ∷ [])) vs (pm ++ (m ∷ [])) ms (pd ++ (row1 ∷ [])) ds n (ch + 1)
            cnt fail1 w1 (Even-append ch pv pm pd true m row1 c) (Even-tail n vs ms ds true m row l)
            (λ i r e. tall (suc i) r e) in
      elim (Result-cases (read m w).0) [
        | inl (v, e) ↦
            loop-sample pv vs pm ms pd ds m row (set row cnt v) n ch cnt fail false w w1 c.0 c.1
              (sample-read pd ds row m ch cnt w v c.2 (tall 0 row refl) e)
            ∙ rest (set row cnt v) fail
            ∙ result-append pd (set row cnt v) fail (round cnt vs ms ds w1)
            ∙ ap (result pd fail) (sym (round_ok cnt vs ms ds m row w v e))
        | inr (x, e) ↦
            loop-sample pv vs pm ms pd ds m row row n ch cnt fail true w w1 c.0 c.1
              (sample-failed (pd ++ (row ∷ ds)) m ch cnt w x e)
            ∙ rest row true
            ∙ result-failed pd row fail (round cnt vs ms ds w1)
            ∙ ap (result pd fail) (sym (round_err cnt vs ms ds m row w x e))
      ]
  loop-round pv [] pm ms pd ds (suc n) ch cnt fail w c l tall = absurd (omega (arith, l.0))
  loop-round pv (v ∷ vs) pm ms pd ds zero ch cnt fail w c l tall = absurd (omega (arith, l.0))
  loop-round pv vs pm [] pd ds (suc n) ch cnt fail w c l tall = absurd (omega (arith, l.1))
  loop-round pv vs pm (m ∷ ms) pd ds zero ch cnt fail w c l tall = absurd (omega (arith, l.1))
  loop-round pv vs pm ms pd [] (suc n) ch cnt fail w c l tall = absurd (omega (arith, l.2))
  loop-round pv vs pm ms pd (d ∷ ds) zero ch cnt fail w c l tall = absurd (omega (arith, l.2))

  -- The loop over all channels is the pass.
  pub acquire-round :
      (vs : List Bool) (ms : List Reg) (ds : List (List A)) (n cnt : ℕ) (w : W)
      → n ≡ length vs
      → n ≡ length ms
      → n ≡ length ds
      → Tall cnt ds
      → acquire time read vs ms n 0 cnt false ds w ≡ result [] false (round cnt vs ms ds w)
  acquire-round vs ms ds n cnt w l l1 l2 tall =
      loop-round [] vs [] ms [] ds n 0 cnt false w (refl, refl, refl) (l, l1, l2) tall
