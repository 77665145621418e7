-- ===== src/Pds.antt =====
-- The power drive system of a servo, ingenialink/mc.h and ingenialink/eth/servo.c (whose state machine
-- ingenialink/ecat/servo.c repeats): the statusword's states and
-- `il_eth_servo__state_decode`.
pub mod Cmd
pub mod Decode
pub mod Control
mod Io
mod Rules
mod Frame
pub mod Drive
pub mod Simulated
mod Rounds
pub mod Safety
pub mod Reached
pub mod Termination
pub mod Wait
pub mod Liveness
mod Tests
use ingenialink.Base.{ℕ, ◌/◌, ◌^◌, bit_and, if◌then◌else◌, ◌==◌, Bool, true, false}

-- `il_servo_state_t`
pub data State : Type 0 where
  nrdy disabled rdy on enabled qstop faultr fault : State

-- The masks `IL_MC_PDS_STA_*_MSK`: bits 0 to 3 and 6, and those with the quick stop bit 5.
abbrev pub mask : ℕ
mask = 0x4f

abbrev pub mask_qs : ℕ
mask_qs = 0x6f

abbrev pub matches : ℕ → ℕ → ℕ → Bool
matches sw msk sta = bit_and sw msk == sta

-- The tests in the order of the source.
unfoldable pub state_decode : ℕ → State
state_decode sw =
    if matches sw mask 0x00
    then nrdy
    else if matches sw mask 0x40
    then disabled
    else if matches sw mask_qs 0x21
    then rdy
    else if matches sw mask_qs 0x23
    then on
    else if matches sw mask_qs 0x27
    then enabled
    else if matches sw mask_qs 0x07
    then qstop
    else if matches sw mask 0x0f
    then faultr
    else if matches sw mask 0x08
    then fault
    else nrdy

-- What goes to `*flags`: `sw >> FLAGS_SW_POS`.
unfoldable pub flags_decode : ℕ → ℕ
flags_decode sw = sw / 2 ^ 10
