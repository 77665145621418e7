-- ===== src/Watch.antt =====
-- The monitor of state changes, `state_subs_monitor` of ingenialink/base/servo.c: it reads the
-- statusword of each axis in turn and notifies the subscribers when the state of an axis is another.
pub mod Changes
mod Tests
use ingenialink.Base.{
  ℕ, zero, suc, ◌+◌, ◌%◌, ◌^◌, Bool, Option, none, some, Result, ok, err, List, [], ◌∷◌, ◌++◌,
  get_elem?, set, ◌==◌, if◌then◌else◌,
}
use ingenialink.Register.{status_word_register}
use ingenialink.Port.{Net, Catalog}
use ingenialink.Access.Reads.{raw_read_u16}
use ingenialink.Pds.{
  State, nrdy, disabled, rdy, on, enabled, qstop, faultr, fault, state_decode, flags_decode,
}
use ingenialink.Subs.Servos.{Subscriber, Call, notify}

-- The values of `il_servo_state_t`.
abbrev pub state_code : State → ℕ
state_code nrdy = 0
state_code disabled = 1
state_code rdy = 2
state_code on = 3
state_code enabled = 4
state_code qstop = 5
state_code faultr = 6
state_code fault = 7

abbrev pub same_state : State → State → Bool
same_state a b = state_code a == state_code b

-- What a subscriber is told: the state, the flags and the axis.
pub record Event : Type 0 where
  pub state : State
  pub flags : ℕ
  pub subnode : ℕ

-- The last state of each axis, the stored statusword, what was notified so far, and all that is outside.
pub record Watch (W : Type 0) : Type 0 where
  pub states : List State
  pub sw : ℕ
  pub events : List Event
  pub world : W

abbrev pub subnode_of : ℕ → ℕ
subnode_of i = (i + 1) % 2 ^ 8

-- The five states at the start of the thread.
abbrev pub first_states : List State
first_states = nrdy ∷ nrdy ∷ nrdy ∷ nrdy ∷ nrdy ∷ []

module _ {W : Type 0} where
  -- Behind a statusword that was read; `none` is an axis that the array of states does not have.
  unfoldable pub decoded : ℕ → ℕ → Watch W → Option (Watch W)
  decoded i sw m =
      let state = state_decode sw in
      let event : Event = record {
        state = state;
        flags = flags_decode sw;
        subnode = subnode_of i;
      } in
      let m1 = record m { sw = sw } in
      elim (get_elem? m.states i) [
        | none ↦ none
        | some last ↦
            if same_state state last
            then some m1
            else some
                (record m1 { states = set m.states i state; events = m.events ++ (event ∷ []) })
      ]

  module _ {D : Type 0} (net : Net W) (catalog : Catalog D) (dict : Option D) where
    -- One round of the loop over the axes.
    unfoldable pub check : ℕ → Watch W → Option (Watch W)
    unfolding raw_read_u16 decoded
    check i m =
        let subnode = subnode_of i in
        let (r, w) =
          raw_read_u16 net catalog dict (some (status_word_register subnode)) "" subnode m.world in
        elim r [
          | err e ↦ some (record m { world = w })
          | ok sw ↦ decoded i sw (record m { world = w })
        ]

    -- Rounds for these axes, one after the other.
    unfoldable pub checks : List ℕ → Watch W → Option (Watch W)
    unfolding check
    checks [] m = some m
    checks (i ∷ is) m = elim (check i m) [ none ↦ none | some m1 ↦ checks is m1 ]

-- The axes of the loop, `n` of them from `i`.
abbrev pub axes : ℕ → ℕ → List ℕ
axes zero i = []
axes (suc n) i = i ∷ axes n (i + 1)

-- `k` passes of the thread over the axes.
abbrev pub passes : ℕ → ℕ → List ℕ
passes zero subnodes = []
passes (suc k) subnodes = axes subnodes 0 ++ passes k subnodes

-- The calls that the events make.
unfoldable pub tell : List Subscriber → List Event → List (Call Event)
unfolding notify
tell subs [] = []
tell subs (e ∷ es) = notify e subs ++ tell subs es
