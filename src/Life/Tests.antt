-- ===== src/Life/Tests.antt =====
-- Initialisations that fail and that succeed, and witnesses.
use ingenialink.Base.{
  not, Bool, true, false, some, ok, err, edisconn, enomem, [], ◌∷◌, ◌≡◌, refl, arith,
}
use ingenialink.Refcnt.Balance.{alive}
use ingenialink.Life.{give_back, give_back_all}
use ingenialink.Life.Nets.{NetPart, emcy_subs, net_init, net_init-Outcome, NetOutcome}
use ingenialink.Life.Servos.{ServoPart, servo_init, servo_deinit, emcy_monitor, dict}
use ingenialink.Life.Whole.{ServoOutcome, servo_parts, servo_init-Outcome}
use ingenialink.Life.Pollers.{PollerPart, thread, t, row, perf, poller_create, poller_destroy}
use ingenialink.Life.Polled.{poller_parts, poller_create-Outcome, poller_destroy-Whole}

abbrev no_emcy : NetPart → Bool
no_emcy emcy_subs = false
no_emcy _ = true

abbrev all_servo : ServoPart → Bool
all_servo _ = true

abbrev no_perf : PollerPart → Bool
no_perf perf = false
no_perf _ = true

net_init-Outcome_example : NetOutcome false [] (net_init no_emcy [])
net_init-Outcome_example = net_init-Outcome no_emcy []

-- The memory for the subscribers of emergencies is missing.
net_init_fails : net_init no_emcy [] ≡ (err enomem, some [])
unfolding net_init give_back_all give_back
net_init_fails = refl

servo_init-Outcome_example :
    (ServoOutcome true
      (servo_parts (dict ∷ []))
      []
      (alive 1)
      (servo_init all_servo true (ok tt) (ok tt) [] (alive 1)))
    × (servo_deinit true (servo_parts (dict ∷ [])) ≡ some (emcy_monitor ∷ []))
servo_init-Outcome_example = servo_init-Outcome all_servo true (ok tt) (ok tt) [] (alive 1)

-- The network refuses the first subscription.
servo_init_fails :
    ServoOutcome false
      (servo_parts [])
      []
      (alive 2)
      (servo_init all_servo false (err edisconn) (ok tt) [] (alive 2))
servo_init_fails = (servo_init-Outcome all_servo false (err edisconn) (ok tt) [] (alive 2)).0

poller_create-Outcome_example :
    poller_create no_perf [] (alive 1) ≡ (false, some [], some (alive 1))
poller_create-Outcome_example = poller_create-Outcome no_perf [] 1 (omega arith) (omega arith)

-- A poller that runs, of two channels, with both rows of the first acquisition only.
abbrev buffered : PollerPart → Bool
buffered thread = true
buffered (t i) = not i
buffered (row i ch) = not i
buffered _ = false

poller_destroy-Whole_example :
    poller_destroy true
      (λ i. not i)
      (λ i ch. not i)
      2
      (thread ∷ t false ∷ row false 0 ∷ row false 1 ∷ poller_parts [])
      (alive 2)
    ≡ (some [], some (alive 1))
poller_destroy-Whole_example = poller_destroy-Whole buffered 2 [] 1 (omega arith) (omega arith)
