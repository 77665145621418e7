-- ===== src/Poller.antt =====
-- The poller, ingenialink/poller.c and ingenialink/poller.h: it reads the mapped registers of a servo
-- at each period into one of two acquisitions, while the program has the other.
pub mod Config
pub mod Round
pub mod Room
pub mod Handed
pub mod Sizes
mod Tests
use ingenialink.Base.{
  ℕ, zero, suc, ◌+◌, Bool, true, false, not, Option, none, some, Result, ok, err, List, length,
  get_elem?, set, ltb, leb, if◌then◌else◌,
}
use ingenialink.Base.Int.{ℤ}
use ingenialink.Register.{Reg}

-- `il_poller_acq_t` over the values `A` that stand for `double`. An array that is not allocated is
-- empty.
pub record Acq (A : Type 0) : Type 0 where
  pub t : List A
  pub d : List (List A)
  pub cnt : ℕ
  pub lost : Bool

pub record Poller (A : Type 0) : Type 0 where
  pub n_ch : ℕ
  pub mappings : List Reg
  pub mappings_valid : List Bool
  pub acq_0 : Acq A
  pub acq_1 : Acq A
  -- Whether the second acquisition is the current one.
  pub acq_curr : Bool
  pub t_s : ℤ
  pub sz : ℕ
  pub running : Bool
  pub stop : Bool

module _ {A : Type 0} where
  abbrev pub acq : Bool → Poller A → Acq A
  acq false p = p.acq_0
  acq true p = p.acq_1

  abbrev pub put_acq : Bool → Acq A → Poller A → Poller A
  put_acq false a p = record p { acq_0 = a }
  put_acq true a p = record p { acq_1 = a }

  -- `acq->d[ch][cnt] = v`
  unfoldable pub put_sample : ℕ → ℕ → A → List (List A) → Option (List (List A))
  put_sample ch cnt v d = elim (get_elem? d ch) [
    | none ↦ none
    | some row ↦ if ltb cnt (length row) then some (set d ch (set row cnt v)) else none
  ]

  -- `time` is the wait for the period and the time it then is, `read` is `il_servo_read` of a register;
  -- a read that fails leaves the buffer alone. `none` is an access outside an array.
  module _ {W : Type 0} (time : W → A × W) (read : Reg → W → Result A × W) where
    -- A read into `d[ch][cnt]`: whether it failed, and the rows.
    unfoldable pub sample : Reg → ℕ → ℕ → List (List A) → W → Option ((Bool × List (List A)) × W)
    unfolding put_sample
    sample reg ch cnt d w =
        let (r, w1) = read reg w in
        elim r [
          | err e ↦ some ((true, d), w1)
          | ok v ↦ elim (put_sample ch cnt v d) [ none ↦ none | some d1 ↦ some ((false, d1), w1) ]
        ]

    -- The loop over the channels from `ch`, `n` of them.
    unfoldable pub acquire :
        List Bool
        → List Reg
        → ℕ
        → ℕ
        → ℕ
        → Bool
        → List (List A)
        → W
        → Option ((Bool × List (List A)) × W)
    unfolding sample
    acquire valid mappings zero ch cnt fail d w = some ((fail, d), w)
    acquire valid mappings (suc n) ch cnt fail d w =
        let next = acquire valid mappings n (ch + 1) cnt in
        elim (get_elem? valid ch) [
          | none ↦ none
          | some v ↦ elim v [
            | false ↦ next fail d w
            | true ↦ elim (get_elem? mappings ch) [
              | none ↦ none
              | some reg ↦ elim (sample reg ch cnt d w) [
                | none ↦ none
                | some ((failed, d1), w1) ↦ next (if failed then true else fail) d1 w1
              ]
            ]
          ]
        ]

    -- An acquisition with space left.
    unfoldable pub fill : Poller A → Acq A → A → W → Option (Acq A × W)
    unfolding acquire
    fill p a t w =
        if ltb a.cnt (length a.t)
        then elim (acquire p.mappings_valid p.mappings p.n_ch 0 a.cnt false a.d w) [
          | none ↦ none
          | some ((fail, d), w1) ↦
              some (
                record a { t = set a.t a.cnt t; d = d; cnt = if fail then a.cnt else a.cnt + 1 },
                w1,
              )
        ]
        else none

    -- One round of the loop of `poller_td`.
    unfoldable pub tick : Poller A → W → Option (Poller A × W)
    unfolding fill
    tick p w =
        let (t, w1) = time w in
        let a = acq p.acq_curr p in
        if leb p.sz a.cnt
        then some (put_acq p.acq_curr (record a { lost = true }) p, w1)
        else elim (fill p a t w1) [
          | none ↦ none
          | some (a1, w2) ↦ some (put_acq p.acq_curr a1 p, w2)
        ]

  -- The acquisition that the program gets, and the poller behind it.
  unfoldable pub data_get : Poller A → Bool × Poller A
  data_get p =
      let next = not p.acq_curr in
      let a = acq next p in
      (p.acq_curr, record (put_acq next (record a { cnt = 0; lost = false }) p) { acq_curr = next })
