-- ===== src/Subs/Delivery.antt =====
-- Whom ingenialink/base/servo.c notifies: a subscription adds one call, its end takes it away.
use ingenialink.Base.{ℕ, false, Option, some, Result, ok, List, ◌∷◌, ◌++◌, length, ◌≡◌}
use ingenialink.Subs.{Table}
use ingenialink.Subs.Servos.{Subscriber, Call, notify}

abbrev pub table : List Subscriber → Table Subscriber
table subs = record { subs = subs; sz = length subs; held = false }

-- With `subscribe` and `unsubscribe`, whom `event` is notified to: a subscriber comes in between the
-- calls there were, and goes again.
abbrev pub Delivers :
    (ℕ → ℕ → Table Subscriber → Option (Result ℕ × Table Subscriber))
    → (ℕ → Table Subscriber → Option (Table Subscriber))
    → {E : Type 0} → E
    → ℕ
    → ℕ
    → List Subscriber
    → Type 0
Delivers subscribe unsubscribe {E} event cb ctx subs =
    (slot : ℕ) × (subs1 : List Subscriber) × (subs2 : List Subscriber) × (xs : List (Call E))
    × (ys : List (Call E)) × (subscribe cb ctx (table subs) ≡ some (ok slot, table subs1))
    × (unsubscribe slot (table subs1) ≡ some (table subs2))
    × (notify event subs ≡ xs ++ ys)
    × (notify event subs1 ≡ xs ++ ((cb, ctx, event) ∷ ys))
    × (notify event subs2 ≡ xs ++ ys)
