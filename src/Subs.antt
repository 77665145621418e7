-- ===== src/Subs.antt =====
-- The tables of subscribers of ingenialink/base/net.c and ingenialink/base/servo.c: an array with a
-- size that is kept beside it, and a lock. What the subscriptions of both share.
pub mod Nets
pub mod Servos
pub mod Search
pub mod Places
pub mod Steady
pub mod Full
pub mod Delivery
mod Tests
use ingenialink.Base.{
  ℕ, zero, suc, ◌+◌, ◌*◌, ◌%◌, ◌^◌, ◌≤◌, ◌<◌, Bool, true, false, Option, none, some, List, length,
  get_elem?, set, ltb, ◌==◌, if◌then◌else◌, ◌≡◌,
}

-- `subs` is the memory that the table has, `sz` the number of slots that it records, `held` whether its
-- lock is taken.
pub record Table (A : Type 0) : Type 0 where
  pub subs : List A
  pub sz : ℕ
  pub held : Bool

-- `realloc` to a number of slots: what it documents is that the new memory has that many, and begins
-- with the old slots. The others hold anything.
pub record Alloc (A : Type 0) : Type 0 where
  pub realloc : List A → ℕ → Option (List A)
  pub sized : (xs ys : List A) (n : ℕ) → realloc xs n ≡ some ys → length ys ≡ n
  pub kept :
      (xs ys : List A) (n i : ℕ)
      → realloc xs n ≡ some ys
      → i < length xs
      → i < n
      → get_elem? ys i ≡ get_elem? xs i

-- The number recorded after the table of a servo has grown: the size of the memory in bytes, a `size_t`.
unfoldable pub grown : ℕ → ℕ → ℕ
grown size sz = 2 * sz * size % 2 ^ 64

-- The same of a table of a network, whose size is an `int`: its pattern, of a positive number below 2^31.
unfoldable pub grown_int : ℕ → ℕ → ℕ
grown_int size sz = 2 * sz * size % 2 ^ 32

module _ {A : Type 0} where
  -- Locking a lock that is held never returns, and unlocking one that is free is undefined: `none`.
  unfoldable pub lock : Table A → Option (Table A)
  lock t = if t.held then none else some (record t { held = true })

  unfoldable pub unlock : Table A → Option (Table A)
  unlock t = if t.held then some (record t { held = false }) else none

  -- The first of `n` slots from `slot` that passes the test, or the slot behind them; `none` is a read
  -- outside the memory.
  unfoldable pub search : (A → Bool) → ℕ → ℕ → List A → Option ℕ
  search p zero slot subs = some slot
  search p (suc n) slot subs =
      let rest = search p n (slot + 1) subs in
      elim (get_elem? subs slot) [ none ↦ none | some a ↦ if p a then some slot else rest ]

  -- A write of a slot.
  unfoldable pub write : Table A → ℕ → A → Option (Table A)
  write t slot a =
      if ltb slot (length t.subs) then some (record t { subs = set t.subs slot a }) else none
