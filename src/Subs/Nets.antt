-- ===== src/Subs/Nets.antt =====
-- ingenialink/base/net.c: the subscriptions to statusword updates and to emergencies of a node.
use ingenialink.Base.{
  ℕ, ◌*◌, Bool, Option, none, some, Result, ok, err, ealready, enomem, ltb, ◌==◌, if◌then◌else◌,
}
use ingenialink.Subs.{Table, Alloc, lock, unlock, search, write, grown_int}

-- Pointers are numbers, NULL is 0.
pub record Slot : Type 0 where
  pub id : ℕ
  pub cb : ℕ
  pub ctx : ℕ

-- The bytes of a slot where pointers have 8.
abbrev pub slot_bytes : ℕ
slot_bytes = 24

abbrev pub vacant : Slot
vacant = record { id = 0; cb = 0; ctx = 0 }

abbrev pub has_id : ℕ → Slot → Bool
has_id id s = s.id == id

abbrev pub is_free : Slot → Bool
is_free s = s.cb == 0

module _ (alloc : Alloc Slot) where
  unfoldable pub store : Table Slot → ℕ → Slot → Option (Result ℕ × Table Slot)
  unfolding write
  store t slot s = elim (write t slot s) [ none ↦ none | some t' ↦ some (ok slot, t') ]

  -- Behind the test whether there is space left.
  unfoldable pub extend : Table Slot → ℕ → Slot → Option (Result ℕ × Table Slot)
  unfolding store grown_int
  extend t slot s =
      if slot == t.sz
      then elim (alloc.realloc t.subs (2 * t.sz)) [
        | none ↦ some (err enomem, t)
        | some subs ↦ store (record t { subs = subs; sz = grown_int slot_bytes t.sz }) slot s
      ]
      else store t slot s

  -- Between the lock and the label `unlock`.
  unfoldable pub subscribe_body : Slot → Table Slot → Option (Result ℕ × Table Slot)
  unfolding search extend
  subscribe_body s t = elim (search (has_id s.id) t.sz 0 t.subs) [
    | none ↦ none
    | some found ↦
        if ltb found t.sz
        then some (err ealready, t)
        else elim (search is_free t.sz 0 t.subs) [ none ↦ none | some slot ↦ extend t slot s ]
  ]

  unfoldable pub unlocked : Option (Result ℕ × Table Slot) → Option (Result ℕ × Table Slot)
  unfolding unlock
  unlocked none = none
  unlocked (some (r, t)) = elim (unlock t) [ none ↦ none | some t' ↦ some (r, t') ]

  unfoldable pub sw_subscribe : ℕ → ℕ → ℕ → Table Slot → Option (Result ℕ × Table Slot)
  unfolding lock subscribe_body unlocked
  sw_subscribe id cb ctx t = elim (lock t) [
    | none ↦ none
    | some t' ↦ unlocked (subscribe_body (record { id = id; cb = cb; ctx = ctx }) t')
  ]

  -- The lock is not taken, but released.
  unfoldable pub emcy_subscribe : ℕ → ℕ → ℕ → Table Slot → Option (Result ℕ × Table Slot)
  unfolding subscribe_body unlocked
  emcy_subscribe id cb ctx t = unlocked (subscribe_body (record { id = id; cb = cb; ctx = ctx }) t)

unfoldable pub clear : ℕ → Table Slot → Option (Table Slot)
unfolding write
clear slot t = if ltb slot t.sz then write t slot vacant else some t

-- A slot below 0 would be a write before the array; slots are those that a subscription returned.
unfoldable pub sw_unsubscribe : ℕ → Table Slot → Option (Table Slot)
unfolding lock clear unlock
sw_unsubscribe slot t = elim (lock t) [
  | none ↦ none
  | some t1 ↦ elim (clear slot t1) [ none ↦ none | some t2 ↦ unlock t2 ]
]

unfoldable pub emcy_unsubscribe : ℕ → Table Slot → Option (Table Slot)
unfolding lock clear unlock
emcy_unsubscribe slot t = elim (lock t) [
  | none ↦ none
  | some t1 ↦ elim (clear slot t1) [ none ↦ none | some t2 ↦ unlock t2 ]
]
