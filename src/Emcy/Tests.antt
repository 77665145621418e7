-- ===== src/Emcy/Tests.antt =====
-- Runs of the queue of emergencies, and witnesses.
use ingenialink.Base.{ℕ, none, some, List, [], ◌∷◌, latest, ◌≡◌, refl, arith}
use ingenialink.Subs.Servos.{Subscriber, Call, notify}
use ingenialink.Emcy.{Emcy, on_emcy, take_emcy, drain}
use ingenialink.Emcy.Queue.{IsValid, pending}
use ingenialink.Emcy.Runs.{
  Steps, Spec, arrives, handles, done, step, Steps-refined, notify_all, arrive_all,
  arrive_all-drained,
}

abbrev cleared : Emcy
cleared = record { head = 3; tail = 3; sz = 4; queue = 0 ∷ 0 ∷ 0 ∷ 0 ∷ [] }

cleared-IsValid : IsValid cleared
cleared-IsValid = (omega arith, omega arith, refl, refl)

abbrev two : List Subscriber
two = record { cb = 8; ctx = 80 } ∷ record { cb = 0; ctx = 0 } ∷ record { cb = 9; ctx = 90 } ∷ []

abbrev one_waits : Emcy
one_waits = record { head = 0; tail = 3; sz = 4; queue = 0 ∷ 0 ∷ 0 ∷ 5 ∷ [] }

abbrev handled : Emcy
handled = record { head = 0; tail = 0; sz = 4; queue = 0 ∷ 0 ∷ 0 ∷ 5 ∷ [] }

abbrev calls : List (Call ℕ)
calls = (8, 80, 5) ∷ (9, 90, 5) ∷ []

notified : notify 5 two ≡ calls
unfolding notify
notified = refl

-- An emergency arrives and is handled.
run : Steps two cleared [] (some 5 ∷ none ∷ []) handled calls
unfolding on_emcy take_emcy notify
run = step (some 5) (none ∷ []) cleared one_waits handled [] [] calls (arrives 5 cleared []) (
    step none [] one_waits handled handled [] calls calls (handles 5 one_waits handled [] refl)
      (done handled calls))

Steps-refined_example : Spec two (pending cleared) [] (some 5 ∷ none ∷ []) (pending handled) calls
Steps-refined_example =
    Steps-refined two (some 5 ∷ none ∷ []) cleared handled [] calls cleared-IsValid run

arrive_all-drained_example :
    (e' : Emcy) × (drain 4 two (arrive_all (1 ∷ 2 ∷ 3 ∷ 4 ∷ []) cleared)
      ≡ some (notify_all two (latest 3 (1 ∷ 2 ∷ 3 ∷ 4 ∷ [])), e'))
    × (pending e' ≡ [])
arrive_all-drained_example =
    arrive_all-drained two (1 ∷ 2 ∷ 3 ∷ 4 ∷ []) cleared cleared-IsValid refl
