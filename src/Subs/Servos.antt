-- ===== src/Subs/Servos.antt =====
-- ingenialink/base/servo.c: the subscriptions to state changes and to emergencies of a servo, and the
-- calls of the subscribers.
use ingenialink.Base.{
  ℕ, ◌*◌, Bool, Option, none, some, Result, ok, err, enomem, List, [], ◌∷◌, ltb, ◌==◌,
  if◌then◌else◌,
}
use ingenialink.Subs.{Table, Alloc, lock, unlock, search, write, grown}

pub record Subscriber : Type 0 where
  pub cb : ℕ
  pub ctx : ℕ

abbrev pub subscriber_bytes : ℕ
subscriber_bytes = 16

abbrev pub nobody : Subscriber
nobody = record { cb = 0; ctx = 0 }

abbrev pub no_cb : Subscriber → Bool
no_cb s = s.cb == 0

module _ (alloc : Alloc Subscriber) where
  -- The write of the slot, and the unlock behind it.
  unfoldable pub finish : Table Subscriber → ℕ → Subscriber → Option (Result ℕ × Table Subscriber)
  unfolding write unlock
  finish t slot s = elim (write t slot s) [
    | none ↦ none
    | some t1 ↦ elim (unlock t1) [ none ↦ none | some t2 ↦ some (ok slot, t2) ]
  ]

  -- The size is compared and doubled as it is recorded.
  unfoldable pub place : Table Subscriber → ℕ → Subscriber → Option (Result ℕ × Table Subscriber)
  unfolding finish grown unlock
  place t slot s =
      if slot == t.sz
      then elim (alloc.realloc t.subs (2 * t.sz)) [
        | none ↦ elim (unlock t) [ none ↦ none | some t' ↦ some (err enomem, t') ]
        | some subs ↦ finish (record t { subs = subs; sz = grown subscriber_bytes t.sz }) slot s
      ]
      else finish t slot s

  unfoldable pub subscribe_locked :
      Subscriber → Table Subscriber → Option (Result ℕ × Table Subscriber)
  unfolding search place
  subscribe_locked s t = elim (search no_cb t.sz 0 t.subs) [
    | none ↦ none
    | some slot ↦ place t slot s
  ]

  unfoldable pub state_subscribe : ℕ → ℕ → Table Subscriber → Option (Result ℕ × Table Subscriber)
  unfolding lock subscribe_locked
  state_subscribe cb ctx t = elim (lock t) [
    | none ↦ none
    | some t' ↦ subscribe_locked (record { cb = cb; ctx = ctx }) t'
  ]

  unfoldable pub emcy_subscribe : ℕ → ℕ → Table Subscriber → Option (Result ℕ × Table Subscriber)
  unfolding lock subscribe_locked
  emcy_subscribe cb ctx t = elim (lock t) [
    | none ↦ none
    | some t' ↦ subscribe_locked (record { cb = cb; ctx = ctx }) t'
  ]

-- A slot that is out of range returns with the lock held.
unfoldable pub state_unsubscribe : ℕ → Table Subscriber → Option (Table Subscriber)
unfolding lock write unlock
state_unsubscribe slot t = elim (lock t) [
  | none ↦ none
  | some t1 ↦
      if ltb slot t1.sz
      then elim (write t1 slot nobody) [ none ↦ none | some t2 ↦ unlock t2 ]
      else some t1
]

unfoldable pub emcy_unsubscribe : ℕ → Table Subscriber → Option (Table Subscriber)
unfolding lock write unlock
emcy_unsubscribe slot t = elim (lock t) [
  | none ↦ none
  | some t1 ↦
      if ltb slot t1.sz
      then elim (write t1 slot nobody) [ none ↦ none | some t2 ↦ unlock t2 ]
      else some t1
]

-- The calls that a notification makes, in the order of the slots: the callbacks are the program's, so
-- what the code does is which of them it calls with which context. `event` stands for the other
-- arguments.
abbrev pub Call : Type 0 → Type 0
Call E = ℕ × ℕ × E

unfoldable pub notify : {E : Type 0} → E → List Subscriber → List (Call E)
notify event [] = []
notify event (s ∷ subs) =
    let rest = notify event subs in if s.cb == 0 then rest else ((s.cb, s.ctx, event) ∷ rest)
