-- ===== src/Life/Whole.antt =====
-- What a servo holds behind its initialisation and its end, ingenialink/base/servo.c.
use ingenialink.Base.{
  Bool, true, false, not, refl, ◌&&◌, some, Result, ok, err, List, [], ◌∷◌, ◌≡◌, ◌≢◌, arith,
}
use ingenialink.Refcnt.{Refcnt, refcnt_release}
use ingenialink.Life.{give_back, give_back_all}
use ingenialink.Life.Servos.{
  ServoPart, dict, units_lock, sw_lock, sw_changed, sw_slot, state_subs, state_subs_lock,
  state_monitor, emcy_lock, emcy_not_empty, emcy_slot, emcy_subs, emcy_subs_lock, emcy_monitor,
  servo_code, ServoRun, servo_fail, init_emcy_subs, init_state_subs, servo_init, servo_deinit,
}

-- The parts but the dictionary, the latest first.
abbrev pub servo_parts : List ServoPart → List ServoPart
servo_parts h =
    emcy_monitor ∷ emcy_subs_lock ∷ emcy_subs ∷ emcy_slot ∷ emcy_not_empty ∷ emcy_lock
    ∷ state_monitor ∷ state_subs_lock ∷ state_subs ∷ sw_slot ∷ sw_changed ∷ sw_lock ∷ units_lock ∷ h

abbrev pub with_dict : Bool → List ServoPart → List ServoPart
with_dict true held = dict ∷ held
with_dict false held = held

abbrev pub succeeded : Result (Unit {0}) → Bool
succeeded (ok u) = true
succeeded (err e) = false

-- A success, with everything held and the count of the network as it was, or a failure, with nothing held
-- and a reference to the network released.
abbrev pub ServoOutcome : Bool → List ServoPart → List ServoPart → Refcnt → ServoRun → Type 0
ServoOutcome true all held net (r, h, n) = (r ≡ ok tt) × (h ≡ some all) × (n ≡ some net)
ServoOutcome false all held net (r, h, n) = (r ≢ ok tt) × (h ≡ some held) × (n ≡ refcnt_release net)

module _ (got : ServoPart → Bool) where
  abbrev got_emcy_subs : Bool
  got_emcy_subs = got emcy_subs && got emcy_subs_lock && got emcy_monitor

  init_emcy_subs-Outcome :
      (c h held : List ServoPart) (net : Refcnt)
      → give_back_all servo_code c h ≡ some held
      → ServoOutcome got_emcy_subs
          (emcy_monitor ∷ emcy_subs_lock ∷ emcy_subs ∷ h)
          held
          net
          (init_emcy_subs got c h net)
  unfolding init_emcy_subs servo_fail give_back_all give_back
  init_emcy_subs-Outcome c h held net e = ground (arith, e)

  abbrev stages : List ServoPart → List ServoPart
  stages h =
      emcy_slot ∷ emcy_not_empty ∷ emcy_lock ∷ state_monitor ∷ state_subs_lock ∷ state_subs ∷ h

  init_emcy_subs-stages :
      (c h held : List ServoPart) (net : Refcnt)
      → give_back_all servo_code c h ≡ some held
      → ServoOutcome got_emcy_subs
          (emcy_monitor ∷ emcy_subs_lock ∷ emcy_subs ∷ stages h)
          held
          net
          (init_emcy_subs got (stages c) (stages h) net)
  unfolding give_back_all give_back
  init_emcy_subs-stages c h held net e = init_emcy_subs-Outcome (stages c) (stages h) held net e

  abbrev got_state_subs : Result (Unit {0}) → Bool
  got_state_subs answer =
      got state_subs
      && got state_subs_lock
      && got state_monitor
      && got emcy_lock
      && got emcy_not_empty
      && succeeded answer
      && got_emcy_subs

  init_state_subs-Outcome :
      (answer : Result (Unit {0})) (c h held : List ServoPart) (net : Refcnt)
      → give_back_all servo_code c h ≡ some held
      → ServoOutcome
          (got_state_subs answer)
          (emcy_monitor ∷ emcy_subs_lock ∷ emcy_subs ∷ stages h)
          held
          net
          (init_state_subs got answer c h net)
  unfolding init_state_subs servo_fail give_back_all give_back
  init_state_subs-Outcome (err a) c h held net e = ground (arith, e)
  init_state_subs-Outcome (ok u) c h held net e =
      ground (arith, e, init_emcy_subs-stages c h held net e)

  -- Whether all is obtained, the dictionary if it is asked for.
  abbrev pub servo_obtained : Bool → Result (Unit {0}) → Result (Unit {0}) → Bool
  servo_obtained loaded sw_answer emcy_answer =
      not (loaded && not (got dict))
      && got units_lock
      && got sw_lock
      && got sw_changed
      && succeeded sw_answer
      && got_state_subs emcy_answer

  init_state_subs-slot :
      (answer : Result (Unit {0})) (c h held : List ServoPart) (net : Refcnt)
      → give_back_all servo_code c h ≡ some held
      → ServoOutcome (got_state_subs answer) (servo_parts h) held net (
          init_state_subs got answer
            (sw_slot ∷ sw_changed ∷ sw_lock ∷ units_lock ∷ c)
            (sw_slot ∷ sw_changed ∷ sw_lock ∷ units_lock ∷ h)
            net)
  unfolding give_back_all give_back
  init_state_subs-slot answer c h held net e =
      init_state_subs-Outcome answer (sw_slot ∷ sw_changed ∷ sw_lock ∷ units_lock ∷ c)
        (sw_slot ∷ sw_changed ∷ sw_lock ∷ units_lock ∷ h) held net e

  servo_init-loaded :
      (loaded : Bool) (sw_answer emcy_answer : Result (Unit {0})) (held : List ServoPart)
      (net : Refcnt)
      → ServoOutcome
          (servo_obtained loaded sw_answer emcy_answer)
          (servo_parts (with_dict loaded held))
          held
          net
          (servo_init got loaded sw_answer emcy_answer held net)
  unfolding servo_init servo_fail give_back_all give_back
  servo_init-loaded true (err a) emcy_answer held net = ground arith
  servo_init-loaded false (err a) emcy_answer held net = ground arith
  servo_init-loaded true (ok u) emcy_answer held net =
      ground (arith, init_state_subs-slot emcy_answer (dict ∷ []) (dict ∷ held) held net refl)
  servo_init-loaded false (ok u) emcy_answer held net =
      ground (arith, init_state_subs-slot emcy_answer [] held held net refl)

servo_deinit-parts :
    (loaded : Bool) (held : List ServoPart)
    → servo_deinit loaded (servo_parts (with_dict loaded held)) ≡ some (emcy_monitor ∷ held)
unfolding servo_deinit give_back_all give_back
servo_deinit-parts true held = refl
servo_deinit-parts false held = refl

-- The initialisation of a servo, with a dictionary or without: if every lock, condition, array and thread is
-- obtained and both subscriptions succeed, then it succeeds, the count of the network is as it was, and
-- the end of the servo gives back all but the thread of the emergencies, which nothing waits for. Else it
-- fails, has given back all that it had taken, and has released a reference to the network, which it had
-- not taken.
pub servo_init-Outcome :
    (got : ServoPart → Bool) (loaded : Bool) (sw_answer emcy_answer : Result (Unit {0}))
    (held : List ServoPart) (net : Refcnt)
    → (ServoOutcome
        (servo_obtained got loaded sw_answer emcy_answer)
        (servo_parts (with_dict loaded held))
        held
        net
        (servo_init got loaded sw_answer emcy_answer held net))
      × (servo_deinit loaded (servo_parts (with_dict loaded held)) ≡ some (emcy_monitor ∷ held))
servo_init-Outcome got loaded sw_answer emcy_answer held net =
    (servo_init-loaded got loaded sw_answer emcy_answer held net, servo_deinit-parts loaded held)
