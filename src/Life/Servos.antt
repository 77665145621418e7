-- ===== src/Life/Servos.antt =====
-- The initialisation of a servo and its end, `il_servo_base__init` and `il_servo_base__deinit` of
-- ingenialink/base/servo.c, with the reference count of its network.
use ingenialink.Base.{
  ℕ, Bool, not, ◌&&◌, Option, some, Result, ok, err, Error, efail, List, [], ◌∷◌, if◌then◌else◌,
}
use ingenialink.Refcnt.{Refcnt, refcnt_release}
use ingenialink.Life.{give_back_all}

-- A slot is a subscription to the network, a monitor a thread.
pub data ServoPart : Type 0 where
  dict units_lock sw_lock sw_changed sw_slot state_subs state_subs_lock state_monitor : ServoPart
  emcy_lock emcy_not_empty emcy_slot emcy_subs emcy_subs_lock emcy_monitor : ServoPart

abbrev pub servo_code : ServoPart → ℕ
servo_code dict = 0
servo_code units_lock = 1
servo_code sw_lock = 2
servo_code sw_changed = 3
servo_code sw_slot = 4
servo_code state_subs = 5
servo_code state_subs_lock = 6
servo_code state_monitor = 7
servo_code emcy_lock = 8
servo_code emcy_not_empty = 9
servo_code emcy_slot = 10
servo_code emcy_subs = 11
servo_code emcy_subs_lock = 12
servo_code emcy_monitor = 13

-- The result, what is held and the count of the network.
abbrev pub ServoRun : Type 0
ServoRun = Result (Unit {0}) × Option (List ServoPart) × Option Refcnt

-- From a label on, down to `cleanup_net`.
unfoldable pub servo_fail : Error → List ServoPart → List ServoPart → Refcnt → ServoRun
unfolding give_back_all
servo_fail e labels held net = (err e, give_back_all servo_code labels held, refcnt_release net)

-- The initialisation in three stages, up to the first subscription, up to the second and behind it. `h`
-- is what is held, `c` the label of the latest part and those it falls through to, `got` whether a part is
-- obtained.
module _ (got : ServoPart → Bool) where
  unfoldable pub init_emcy_subs : List ServoPart → List ServoPart → Refcnt → ServoRun
  unfolding servo_fail
  init_emcy_subs c h net =
      let h11 = emcy_subs ∷ h in
      let c11 = emcy_subs ∷ c in
      let h12 = emcy_subs_lock ∷ h11 in
      let c12 = emcy_subs_lock ∷ c11 in
      if not (got emcy_subs)
      then servo_fail efail c h net
      else if not (got emcy_subs_lock)
      then servo_fail efail c11 h11 net
      else if not (got emcy_monitor)
      then servo_fail efail c12 h12 net
      else (ok tt, some (emcy_monitor ∷ h12), some net)

  unfoldable pub init_state_subs :
      Result (Unit {0}) → List ServoPart → List ServoPart → Refcnt → ServoRun
  unfolding servo_fail init_emcy_subs
  init_state_subs emcy_subscribed c h net =
      let h5 = state_subs ∷ h in
      let c5 = state_subs ∷ c in
      let h6 = state_subs_lock ∷ h5 in
      let c6 = state_subs_lock ∷ c5 in
      let h7 = state_monitor ∷ h6 in
      let c7 = state_monitor ∷ c6 in
      let h8 = emcy_lock ∷ h7 in
      let c8 = emcy_lock ∷ c7 in
      let h9 = emcy_not_empty ∷ h8 in
      let c9 = emcy_not_empty ∷ c8 in
      if not (got state_subs)
      then servo_fail efail c h net
      else if not (got state_subs_lock)
      then servo_fail efail c5 h5 net
      else if not (got state_monitor)
      then servo_fail efail c6 h6 net
      else if not (got emcy_lock)
      then servo_fail efail c7 h7 net
      else if not (got emcy_not_empty)
      then servo_fail efail c8 h8 net
      else elim emcy_subscribed [
        | err e ↦ servo_fail e c9 h9 net
        | ok _ ↦ init_emcy_subs (emcy_slot ∷ c9) (emcy_slot ∷ h9) net
      ]

  -- `loaded` is whether a dictionary is asked for; the other two are the answers of the subscriptions.
  unfoldable pub servo_init :
      Bool → Result (Unit {0}) → Result (Unit {0}) → List ServoPart → Refcnt → ServoRun
  unfolding servo_fail init_state_subs
  servo_init loaded sw_subscribed emcy_subscribed held net =
      let h = if loaded then (dict ∷ held) else held in
      let c = if loaded then (dict ∷ []) else [] in
      let h1 = units_lock ∷ h in
      let c1 = units_lock ∷ c in
      let h2 = sw_lock ∷ h1 in
      let c2 = sw_lock ∷ c1 in
      let h3 = sw_changed ∷ h2 in
      let c3 = sw_changed ∷ c2 in
      if loaded && not (got dict)
      then servo_fail efail [] held net
      else if not (got units_lock)
      then servo_fail efail c h net
      else if not (got sw_lock)
      then servo_fail efail c1 h1 net
      else if not (got sw_changed)
      then servo_fail efail c2 h2 net
      else elim sw_subscribed [
        | err e ↦ servo_fail e c3 h3 net
        | ok _ ↦ init_state_subs emcy_subscribed (sw_slot ∷ c3) (sw_slot ∷ h3) net
      ]

unfoldable pub servo_deinit : Bool → List ServoPart → Option (List ServoPart)
unfolding give_back_all
servo_deinit loaded held =
    let c = if loaded then (dict ∷ []) else [] in
    give_back_all servo_code
      (emcy_subs_lock ∷ emcy_subs ∷ emcy_slot ∷ emcy_not_empty ∷ emcy_lock ∷ state_monitor
        ∷ state_subs_lock ∷ state_subs ∷ sw_slot ∷ sw_changed ∷ sw_lock ∷ units_lock ∷ c)
      held
