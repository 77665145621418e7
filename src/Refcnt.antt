-- ===== src/Refcnt.antt =====
-- Reference counts, ingenialink/utils.c.
pub mod Balance
mod Tests
use ingenialink.Base.{
  ℕ, ◌+◌, ◌-◌, ◌%◌, ◌^◌, Bool, true, false, not, Option, none, some, List, [], ◌∷◌, ◌==◌,
  if◌then◌else◌,
}

-- `il_utils_refcnt_t`: how often its object's destructor was called, and whether the count itself was
-- freed, stand beside the count. `cnt` is an `int` as its bit pattern.
pub record Refcnt : Type 0 where
  pub cnt : ℕ
  pub destroyed : ℕ
  pub freed : Bool

-- `alloc` and `lock` are whether the memory and the lock are obtained.
unfoldable pub refcnt_create : Bool → Bool → Option Refcnt
refcnt_create alloc lock =
    if not alloc
    then none
    else if not lock
    then none
    else some (record { cnt = 1; destroyed = 0; freed = false })

unfoldable pub refcnt_destroy : Refcnt → Refcnt
refcnt_destroy c = record c { freed = true }

-- `none` is a use of a count that was freed.
unfoldable pub refcnt_retain : Refcnt → Option Refcnt
refcnt_retain c = if c.freed then none else some (record c { cnt = (c.cnt + 1) % 2 ^ 32 })

unfoldable pub refcnt_release : Refcnt → Option Refcnt
unfolding refcnt_destroy
refcnt_release c =
    let n = (c.cnt + (2 ^ 32 - 1)) % 2 ^ 32 in
    let c1 = record c { cnt = n } in
    if c.freed
    then none
    else if n == 0
    then some (refcnt_destroy (record c1 { destroyed = c.destroyed + 1 }))
    else some c1

-- What the holders of references do, in whatever order.
pub data Use : Type 0 where
  retain release : Use

unfoldable pub use_one : Use → Refcnt → Option Refcnt
unfolding refcnt_retain refcnt_release
use_one retain c = refcnt_retain c
use_one release c = refcnt_release c

unfoldable pub use_all : List Use → Refcnt → Option Refcnt
unfolding use_one
use_all [] c = some c
use_all (u ∷ us) c = elim (use_one u c) [ none ↦ none | some c1 ↦ use_all us c1 ]
