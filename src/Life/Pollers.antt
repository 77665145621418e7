-- ===== src/Life/Pollers.antt =====
-- The creation of a poller and its end, `il_poller_create` and `il_poller_destroy` of
-- ingenialink/poller.c, with the reference count of its servo.
use ingenialink.Base.{
  ℕ, zero, suc, ◌+◌, ◌*◌, Bool, true, false, not, Option, none, some, List, [], ◌∷◌, ◌++◌,
  if◌then◌else◌,
}
use ingenialink.Refcnt.{Refcnt, refcnt_retain, refcnt_release}
use ingenialink.Life.{give_back_all}

-- `t i` is `acq[i].t`, `row i ch` is `acq[i].d[ch]`, with true for the index 1.
pub data PollerPart : Type 0 where
  poller timer perf lock mappings mappings_valid acq_d_0 acq_d_1 thread : PollerPart
  t : Bool → PollerPart
  row : Bool → ℕ → PollerPart

abbrev pub poller_code : PollerPart → ℕ
poller_code poller = 0
poller_code timer = 1
poller_code perf = 2
poller_code lock = 3
poller_code mappings = 4
poller_code mappings_valid = 5
poller_code acq_d_0 = 6
poller_code acq_d_1 = 7
poller_code thread = 8
poller_code (t false) = 9
poller_code (t true) = 10
poller_code (row false ch) = 11 + 2 * ch
poller_code (row true ch) = 12 + 2 * ch

-- Whether a poller is returned, what is held and the count of the servo.
abbrev pub PollerRun : Type 0
PollerRun = Bool × Option (List PollerPart) × Option Refcnt

-- From a label on, down to `cleanup_poller`.
unfoldable pub poller_fail : List PollerPart → List PollerPart → Refcnt → PollerRun
unfolding give_back_all
poller_fail labels held servo = (false, give_back_all poller_code labels held, refcnt_release servo)

-- `got` is whether a part is obtained. `none` in the place of the count is a count that was freed.
unfoldable pub poller_create : (PollerPart → Bool) → List PollerPart → Refcnt → PollerRun
unfolding poller_fail
poller_create got held servo =
    let h0 = poller ∷ held in
    let c0 = poller ∷ [] in
    let h1 = timer ∷ h0 in
    let c1 = timer ∷ c0 in
    let h2 = perf ∷ h1 in
    let c2 = perf ∷ c1 in
    let h3 = lock ∷ h2 in
    let c3 = lock ∷ c2 in
    let h4 = mappings ∷ h3 in
    let c4 = mappings ∷ c3 in
    let h5 = mappings_valid ∷ h4 in
    let c5 = mappings_valid ∷ c4 in
    let h6 = acq_d_0 ∷ h5 in
    let c6 = acq_d_0 ∷ c5 in
    if not (got poller) then (false, some held, some servo) else elim (refcnt_retain servo) [
      | none ↦ (false, some h0, none)
      | some servo1 ↦
          if not (got timer)
          then poller_fail c0 h0 servo1
          else if not (got perf)
          then poller_fail c1 h1 servo1
          else if not (got lock)
          then poller_fail c2 h2 servo1
          else if not (got mappings)
          then poller_fail c3 h3 servo1
          else if not (got mappings_valid)
          then poller_fail c4 h4 servo1
          else if not (got acq_d_0)
          then poller_fail c5 h5 servo1
          else if not (got acq_d_1)
          then poller_fail c6 h6 servo1
          else (true, some (acq_d_1 ∷ h6), some servo1)
    ]

-- The rows of `n` channels from `ch` that are not `NULL`.
unfoldable pub rows : Bool → (ℕ → Bool) → ℕ → ℕ → List PollerPart
rows i d zero ch = []
rows i d (suc n) ch = let rest = rows i d n (ch + 1) in if d ch then (row i ch ∷ rest) else rest

-- The thread, if the poller runs, and the buffers that are not `NULL`.
unfoldable pub buffers : Bool → (Bool → Bool) → (Bool → ℕ → Bool) → ℕ → List PollerPart
unfolding rows
buffers running times d n_ch =
    (if running then (thread ∷ []) else [])
    ++ ((if times false then (t false ∷ []) else [])
        ++ (rows false (d false) n_ch 0
            ++ ((if times true then (t true ∷ []) else []) ++ rows true (d true) n_ch 0)))

unfoldable pub poller_destroy :
    Bool
    → (Bool → Bool)
    → (Bool → ℕ → Bool)
    → ℕ
    → List PollerPart
    → Refcnt
    → Option (List PollerPart) × Option Refcnt
unfolding buffers give_back_all
poller_destroy running times d n_ch held servo = (
  give_back_all poller_code
      (buffers running times d n_ch
        ++ (acq_d_1 ∷ acq_d_0 ∷ mappings ∷ mappings_valid ∷ lock ∷ perf ∷ timer ∷ poller ∷ []))
      held,
  refcnt_release servo,
)
