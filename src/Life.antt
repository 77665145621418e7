-- ===== src/Life.antt =====
-- What the initialisation of networks and servos takes and gives back, ingenialink/base/net.c and
-- ingenialink/base/servo.c: locks, conditions, memory, threads and subscriptions, as the list of what is
-- held, the latest first.
pub mod Nets
pub mod Servos
pub mod Pollers
pub mod Polled
pub mod Whole
mod Tests
use ingenialink.Base.{ℕ, Option, none, some, List, [], ◌∷◌, ◌==◌, if◌then◌else◌}

module _ {R : Type 0} (code : R → ℕ) where
  -- `free` and the like: `none` for what is not held.
  unfoldable pub give_back : R → List R → Option (List R)
  give_back r [] = none
  give_back r (x ∷ xs) =
      let rest = give_back r xs in
      if code x == code r then some xs else elim rest [ none ↦ none | some ys ↦ some (x ∷ ys) ]

  unfoldable pub give_back_all : List R → List R → Option (List R)
  unfolding give_back
  give_back_all [] held = some held
  give_back_all (r ∷ rs) held = elim (give_back r held) [
    | none ↦ none
    | some held1 ↦ give_back_all rs held1
  ]
