-- ===== src/Life/Nets.antt =====
-- The initialisation of a network and its end, `il_net_base__init` and `il_net_base__deinit` of
-- ingenialink/base/net.c.
use ingenialink.Base.{
  ◌&&◌, true, false, ℕ, Bool, not, Option, none, some, Result, ok, err, enomem, List, [], ◌∷◌, ◌≡◌,
  arith, if◌then◌else◌,
}
use ingenialink.Life.{give_back, give_back_all}

pub data NetPart : Type 0 where
  port lock state_lock sw_subs sw_subs_lock emcy_subs emcy_subs_lock : NetPart

abbrev pub net_code : NetPart → ℕ
net_code port = 0
net_code lock = 1
net_code state_lock = 2
net_code sw_subs = 3
net_code sw_subs_lock = 4
net_code emcy_subs = 5
net_code emcy_subs_lock = 6

-- What the label of a part and those that it falls through to give back.
abbrev pub net_cleanup : NetPart → List NetPart
net_cleanup port = port ∷ []
net_cleanup lock = lock ∷ port ∷ []
net_cleanup state_lock = state_lock ∷ lock ∷ port ∷ []
net_cleanup sw_subs = sw_subs ∷ state_lock ∷ lock ∷ port ∷ []
net_cleanup sw_subs_lock = sw_subs_lock ∷ sw_subs ∷ state_lock ∷ lock ∷ port ∷ []
net_cleanup emcy_subs = emcy_subs ∷ sw_subs_lock ∷ sw_subs ∷ state_lock ∷ lock ∷ port ∷ []
net_cleanup emcy_subs_lock =
    emcy_subs_lock ∷ emcy_subs ∷ sw_subs_lock ∷ sw_subs ∷ state_lock ∷ lock ∷ port ∷ []

abbrev pub net_fail : NetPart → List NetPart → Result (Unit {0}) × Option (List NetPart)
net_fail label held = (err enomem, give_back_all net_code (net_cleanup label) held)

-- `got` is whether a part is obtained; a port that is not is `NULL`, which nothing checks and `free` accepts.
unfoldable pub net_init :
    (NetPart → Bool) → List NetPart → Result (Unit {0}) × Option (List NetPart)
unfolding give_back_all
net_init got held =
    let h0 = port ∷ held in
    let h1 = lock ∷ h0 in
    let h2 = state_lock ∷ h1 in
    let h3 = sw_subs ∷ h2 in
    let h4 = sw_subs_lock ∷ h3 in
    let h5 = emcy_subs ∷ h4 in
    if not (got lock)
    then net_fail port h0
    else if not (got state_lock)
    then net_fail lock h1
    else if not (got sw_subs)
    then net_fail state_lock h2
    else if not (got sw_subs_lock)
    then net_fail sw_subs h3
    else if not (got emcy_subs)
    then net_fail sw_subs_lock h4
    else if not (got emcy_subs_lock)
    then net_fail emcy_subs h5
    else (ok tt, some (emcy_subs_lock ∷ h5))

unfoldable pub net_deinit : List NetPart → Option (List NetPart)
unfolding give_back_all
net_deinit held = give_back_all net_code (net_cleanup emcy_subs_lock) held

-- Whether every part is obtained that is checked.
abbrev pub net_obtained : (NetPart → Bool) → Bool
net_obtained got =
    got lock
    && got state_lock
    && got sw_subs
    && got sw_subs_lock
    && got emcy_subs
    && got emcy_subs_lock

-- A success that the end undoes, or a failure that left nothing behind.
abbrev pub NetOutcome : Bool → List NetPart → Result (Unit {0}) × Option (List NetPart) → Type 0
NetOutcome b held (r, none) = ⊥
NetOutcome true held (r, some h) = (r ≡ ok tt) × (net_deinit h ≡ some held)
NetOutcome false held (r, some h) = (r ≡ err enomem) × (h ≡ held)

-- The initialisation of a network succeeds if every lock and array is obtained, and then the end of the
-- network gives back all that it took, each once; else it returns `IL_ENOMEM` and has given back all that
-- it had taken.
pub net_init-Outcome :
    (got : NetPart → Bool) (held : List NetPart)
    → NetOutcome (net_obtained got) held (net_init got held)
unfolding net_init net_deinit give_back_all give_back
net_init-Outcome got held = ground arith
