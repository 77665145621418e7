-- ===== src/Subs/Tests.antt =====
-- Runs of the subscriptions, and witnesses.
use ingenialink.Base.{
  ℕ, zero, suc, ◌-◌, ◌<◌, some, none, ok, err, ealready, List, [], ◌∷◌, ◌++◌, length, replicate,
  take, set, get_elem?, length-append, length-take, length-replicate, ◌≡◌, refl, ap, arith,
}
use ingenialink.Subs.{Alloc}
use ingenialink.Subs.Nets
use ingenialink.Subs.Nets.{Slot, vacant, has_id, sw_subscribe, sw_unsubscribe}
use ingenialink.Subs.Servos.{Subscriber, nobody, emcy_subscribe}
use ingenialink.Subs.Places.{table, table_grown, NoneWith, NoneFree}
use ingenialink.Subs.Steady.{
  IsSound, unused, subscribes, ends, Uses-IsSound, sw_unsubscribe-sw_subscribe,
}
use ingenialink.Subs.Full.{sw_subscribe-overrun}

-- A `realloc` that succeeds and fills the new slots with `a`.
module _ {A : Type 0} (a : A) where
  abbrev resize : List A → ℕ → List A
  resize xs n = take n xs ++ replicate (n - length xs) a

  length-resize : (xs : List A) (n : ℕ) → length (resize xs n) ≡ n
  length-resize xs n = omega (
    arith,
    length-append (take n xs) (replicate (n - length xs) a),
    length-take n xs,
    length-replicate (n - length xs) a,
  )

  resize_kept :
      (xs ys : List A) (n i : ℕ)
      → i < length xs
      → i < n
      → get_elem? (take n xs ++ ys) i ≡ get_elem? xs i
  resize_kept [] ys n i lt ln = absurd (omega arith)
  resize_kept (x ∷ xs) ys zero i lt ln = absurd (omega arith)
  resize_kept (x ∷ xs) ys (suc n) zero lt ln = refl
  resize_kept (x ∷ xs) ys (suc n) (suc i) lt ln = resize_kept xs ys n i (omega arith) (omega arith)

  resize_sized : (xs ys : List A) (n : ℕ) → some (resize xs n) ≡ some ys → length ys ≡ n
  resize_sized xs ys n e = ground (arith, e, length-resize xs n)

  resize_begins :
      (xs ys : List A) (n i : ℕ)
      → some (resize xs n) ≡ some ys
      → i < length xs
      → i < n
      → get_elem? ys i ≡ get_elem? xs i
  resize_begins xs ys n i e lt ln =
      ground (arith, e, resize_kept xs (replicate (n - length xs) a) n i lt ln)

  abbrev plenty : Alloc A
  plenty = record {
    realloc = λ xs n. some (resize xs n);
    sized = resize_sized;
    kept = resize_begins;
  }

abbrev s7 : Slot
s7 = record { id = 7; cb = 100; ctx = 200 }

abbrev fresh : List Slot
fresh = replicate 10 vacant

first_subscription :
    sw_subscribe (plenty vacant) 7 100 200 (table fresh) ≡ some (ok 0, table (set fresh 0 s7))
unfolding sw_subscribe
first_subscription = refl

second_refused :
    sw_subscribe (plenty vacant) 7 101 201 (table (set fresh 0 s7))
    ≡ some (err ealready, table (set fresh 0 s7))
unfolding sw_subscribe
second_refused = refl

-- An id of 0 is taken by every empty slot.
zero_refused :
    sw_subscribe (plenty vacant) 0 100 200 (table fresh) ≡ some (err ealready, table fresh)
unfolding sw_subscribe
zero_refused = refl

-- Its lock is released without being taken.
emcy_undefined : Nets.emcy_subscribe (plenty vacant) 7 100 200 (table fresh) ≡ none
unfolding Nets.emcy_subscribe
emcy_undefined = refl

fresh_lem : (n i : ℕ) (a : Slot) → get_elem? (replicate n vacant) i ≡ some a → a ≡ vacant
fresh_lem zero i a e = ground (arith, e)
fresh_lem (suc n) zero a e = ground (arith, e)
fresh_lem (suc n) (suc i) a e = fresh_lem n i a e

fresh-IsSound : IsSound fresh
fresh-IsSound = (
  omega arith,
  omega arith,
  λ i j a b ei ej fa fb same.
      absurd (ground (arith, ap (λ (x : Slot). x.cb) (fresh_lem 10 i a ei), fa)),
  λ i a e f. fresh_lem 10 i a e,
)

unsubscribed : sw_unsubscribe 0 (table (set fresh 0 s7)) ≡ some (table fresh)
unfolding sw_unsubscribe
unsubscribed = refl

Uses-IsSound_example : IsSound fresh
Uses-IsSound_example = Uses-IsSound fresh fresh fresh-IsSound (
    subscribes (plenty vacant) 7 100 200 (ok 0) fresh (set fresh 0 s7) fresh (omega arith)
      first_subscription (ends 0 (set fresh 0 s7) fresh fresh unsubscribed (unused fresh)))

sw_unsubscribe-sw_subscribe_example : sw_unsubscribe 0 (table (set fresh 0 s7)) ≡ some (table fresh)
sw_unsubscribe-sw_subscribe_example =
    sw_unsubscribe-sw_subscribe (plenty vacant) 7 100 200 0 fresh (set fresh 0 s7) fresh-IsSound
      first_subscription

full_NoneWith : NoneWith 8 (s7 ∷ [])
full_NoneWith zero a e = ground (arith, e)
full_NoneWith (suc i) a e = ground (arith, e)

full_NoneFree : NoneFree (s7 ∷ [])
full_NoneFree zero a e = ground (arith, e)
full_NoneFree (suc i) a e = ground (arith, e)

abbrev s8 : Slot
s8 = record { id = 8; cb = 100; ctx = 201 }

sw_subscribe-overrun_example :
    let t = table_grown (s7 ∷ []) (s7 ∷ s8 ∷ []) in
    (sw_subscribe (plenty vacant) 8 100 201 (table (s7 ∷ [])) ≡ some (ok 1, t))
    × ((id cb ctx : ℕ) → NoneWith id t.subs → sw_subscribe (plenty vacant) id cb ctx t ≡ none)
sw_subscribe-overrun_example =
    sw_subscribe-overrun (plenty vacant) s8 (s7 ∷ []) (s7 ∷ vacant ∷ []) (omega arith) (omega arith)
      full_NoneWith full_NoneFree refl

abbrev event : ℕ
event = 5

abbrev listeners : List Subscriber
listeners = record { cb = 8; ctx = 80 } ∷ nobody ∷ []
