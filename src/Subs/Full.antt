-- ===== src/Subs/Full.antt =====
-- Where the tables of ingenialink/base/net.c and ingenialink/base/servo.c stop working: behind their
-- memory, and behind a slot that is out of range.
use ingenialink.Base.{
  ℕ, ◌*◌, ◌^◌, ◌≤◌, ◌<◌, true, false, none, some, ok, List, length, set, length-set, ◌≡◌, refl,
  arith,
}
use ingenialink.Subs.{Table, Alloc, search, grown_int}
use ingenialink.Subs.Nets.{Slot, has_id, sw_subscribe}
use ingenialink.Subs.Servos.{Subscriber, state_subscribe, state_unsubscribe}
use ingenialink.Subs.Search.{search-outside}
use ingenialink.Subs.Places.{table, table_grown, NoneWith, NoneFree, sw_subscribe-full}

outside-stuck :
    (alloc : Alloc Slot) (id cb ctx : ℕ) (t : Table Slot)
    → search (has_id id) t.sz 0 t.subs ≡ none
    → t.held ≡ false
    → sw_subscribe alloc id cb ctx t ≡ none
unfolding sw_subscribe
outside-stuck alloc id cb ctx t e h = ground (arith, e, h)

-- A full table.
module _ (alloc : Alloc Slot) (s : Slot) (subs m : List Slot) where
  -- While the 48 bytes per slot can be counted by an `int`: the subscription that doubles the table succeeds, but records the bytes of the memory as its number of
  -- slots: a later subscription of an id that no slot has reads behind the memory.
  pub sw_subscribe-overrun :
      0 < length subs
      → length subs * 48 < 2 ^ 31
      → NoneWith s.id subs
      → NoneFree subs
      → alloc.realloc subs (2 * length subs) ≡ some m
      → let t = table_grown subs (set m (length subs) s) in
        (sw_subscribe alloc s.id s.cb s.ctx (table subs) ≡ some (ok (length subs), t))
        × ((id cb ctx : ℕ) → NoneWith id t.subs → sw_subscribe alloc id cb ctx t ≡ none)
  unfolding grown_int
  sw_subscribe-overrun pos small nw nf r = (
    sw_subscribe-full alloc s subs m pos nw nf r,
    λ id cb ctx nw1.
        outside-stuck alloc id cb ctx (table_grown subs (set m (length subs) s))
          (search-outside (has_id id) _ 0 (set m (length subs) s)
            (omega (arith, length-set m (length subs) s, alloc.sized subs m (2 * length subs) r))
            (omega arith) nw1)
          refl,
  )

-- The end of a subscription at a slot out of range returns with the lock: neither a subscription nor
-- the end of one returns after it.
pub state_unsubscribe-stuck :
    (alloc : Alloc Subscriber) (slot : ℕ) (t : Table Subscriber)
    → t.sz ≤ slot
    → t.held ≡ false
    → (t' : Table Subscriber) × (state_unsubscribe slot t ≡ some t')
      × ((cb ctx : ℕ) → state_subscribe alloc cb ctx t' ≡ none)
      × ((k : ℕ) → state_unsubscribe k t' ≡ none)
unfolding state_subscribe state_unsubscribe
state_unsubscribe-stuck alloc slot t le h =
    (record t { held = true }, ground (arith, h), λ cb ctx. refl, λ k. refl)
