-- ===== src/Pds/Simulated.antt =====
-- A simulated drive with the states and commands of CiA 402.
use ingenialink.Base.{ℕ, ◌/◌, ◌%◌, ◌<◌, ◌^◌, ◌≡◌, refl, ◌==◌, ◌&&◌, if◌then◌else◌, arith}
use ingenialink.Pds.{State, nrdy, disabled, rdy, on, enabled, qstop, faultr, fault}
use ingenialink.Pds.Decode.{Shows}
use ingenialink.Pds.Drive.{
  Moves, initialise, shut_down, stay_disabled, switch_on_enable, enable_operation,
  disable_operation, resume, leave_ready, leave_on, leave_enabled, leave_quick_stop, react,
  stay_fault, reset, Settles, stays, initialised, reacted,
}
use ingenialink.Pds.Drive

abbrev pub word : State → ℕ
word nrdy = 0x0200
word disabled = 0x0240
word rdy = 0x0221
word on = 0x0233
word enabled = 0x0237
word qstop = 0x0217
word faultr = 0x021f
word fault = 0x0218

pub word-lt : (st : State) → word st < 2 ^ 16
word-lt st = ground arith

pub word-Shows : (st : State) → Shows st (word st)
word-Shows nrdy = (refl, refl)
word-Shows disabled = (refl, refl)
word-Shows rdy = (refl, refl, refl)
word-Shows on = (refl, refl, refl)
word-Shows enabled = (refl, refl, refl)
word-Shows qstop = (refl, refl, refl)
word-Shows faultr = (refl, refl)
word-Shows fault = (refl, refl)

-- The state behind a command.
abbrev pub moved : ℕ → State → ℕ → State
moved prev nrdy cmd = disabled
moved prev disabled cmd = if cmd % 8 == 6 then rdy else disabled
moved prev rdy cmd =
    if cmd % 16 == 7
    then on
    else if cmd % 16 == 15
    then enabled
    else if cmd / 2 % 2 == 0
    then disabled
    else rdy
moved prev on cmd = if cmd % 16 == 15 then enabled else if cmd / 2 % 2 == 0 then disabled else on
moved prev enabled cmd =
    if cmd % 16 == 7 then on else if cmd / 2 % 2 == 0 then disabled else enabled
moved prev qstop cmd =
    if cmd % 16 == 15 then enabled else if cmd / 2 % 2 == 0 then disabled else qstop
moved prev faultr cmd = fault
moved prev fault cmd = if prev / 128 % 2 == 0 && cmd / 128 % 2 == 1 then disabled else fault

pub moved-Moves : (prev cmd : ℕ) (st st' : State) → Moves prev st cmd st' → moved prev st cmd ≡ st'
moved-Moves prev cmd _ _ (initialise h) = refl
moved-Moves prev cmd _ _ (shut_down h) = ground (arith, h.0)
moved-Moves prev cmd _ _ (stay_disabled h) = ground (arith, h.0)
moved-Moves prev cmd _ _ (Drive.switch_on h) = ground (arith, h.0)
moved-Moves prev cmd _ _ (switch_on_enable h) = ground (arith, h.0)
moved-Moves prev cmd _ _ (enable_operation h) = ground (arith, h.0)
moved-Moves prev cmd _ _ (disable_operation h) = ground (arith, h.0)
moved-Moves prev cmd _ _ (resume h) = ground (arith, h.0)
moved-Moves prev cmd _ _ (leave_ready h) = ground (arith, h.0)
moved-Moves prev cmd _ _ (leave_on h) = ground (arith, h.0)
moved-Moves prev cmd _ _ (leave_enabled h) = ground (arith, h.0)
moved-Moves prev cmd _ _ (leave_quick_stop h) = ground (arith, h.0)
moved-Moves prev cmd _ _ (react h) = refl
moved-Moves prev cmd _ _ (stay_fault h) = ground (arith, h)
moved-Moves prev cmd _ _ (reset h k) = ground (arith, h, k)

-- A read lets it settle.
abbrev pub settled : State → State
settled nrdy = disabled
settled faultr = fault
settled st = st

pub settled-Settles : (st : State) → Settles st (settled st)
settled-Settles nrdy = initialised
settled-Settles faultr = reacted
settled-Settles disabled = stays
settled-Settles rdy = stays
settled-Settles on = stays
settled-Settles enabled = stays
settled-Settles qstop = stays
settled-Settles fault = stays
