-- ===== src/Pds/Tests.antt =====
-- Runs of the servo's loops on a simulated drive, and witnesses.
use ingenialink.Base.{
  ◌+◌, ℕ, true, none, some, ok, err, efail, ◌≡◌, ◌↔◌, ◌≢◌, refl, ◌==◌, if◌then◌else◌, arith,
}
use ingenialink.Base.Int.{ℤ, pos, negsuc}
use ingenialink.Port.{Net, Catalog, Clock}
use ingenialink.Pds.{State, nrdy, disabled, rdy, on, enabled, qstop, faultr, fault, state_decode}
use ingenialink.Pds.Cmd
use ingenialink.Pds.Control.{Servo, disable, switch_on, enable, fault_reset, sw_wait_change}
use ingenialink.Pds.Decode.{Shows, state_decode_iff}
use ingenialink.Pds.Drive.{Drive, stays}
use ingenialink.Pds.Simulated
use ingenialink.Pds.Simulated.{settled, settled-Settles, moved, moved-Moves, word-Shows}
use ingenialink.Pds.Frame.{Frame}
use ingenialink.Pds.Wait.{Wakeup, signalled}
use ingenialink.Pds.Termination.{fault_reset-returns}
use ingenialink.Pds.Safety.{Disabling, SwitchingOn, Enabling, enable-Keeps}

-- A drive that is nothing but its state, and counts the writes that it gets of other values than those of a
-- disable.
abbrev word : State → ℕ
word nrdy = 0x0200
word disabled = 0x0240
word rdy = 0x0221
word on = 0x0233
word enabled = 0x0237
word qstop = 0x0217
word faultr = 0x021f
word fault = 0x0218

abbrev next : State → ℕ → State
next nrdy cmd = if cmd == Cmd.dv then disabled else nrdy
next disabled cmd = if cmd == Cmd.sd then rdy else disabled
next rdy cmd =
    if cmd == Cmd.so
    then on
    else if cmd == Cmd.soeo
    then enabled
    else if cmd == Cmd.dv
    then disabled
    else rdy
next on cmd = if cmd == Cmd.eo then enabled else if cmd == Cmd.dv then disabled else on
next enabled cmd = if cmd == Cmd.do_ then on else if cmd == Cmd.dv then disabled else enabled
next qstop cmd = if cmd == Cmd.eo then enabled else if cmd == Cmd.dv then disabled else qstop
next faultr cmd = fault
next fault cmd = if cmd == Cmd.fr then disabled else fault

abbrev net : Net State
net = record {
  read = λ subnode address sz st. (ok (word st), st);
  write = λ subnode address val sz confirm extended st. (ok tt, next st val);
  wait_write = λ subnode address val sz confirm extended st. (ok tt, next st val);
}

abbrev catalog : Catalog (Unit {0})
catalog = record { reg_get = λ d id subnode. err efail }

abbrev clock : Clock State
clock = record { gettime = λ st. ((true, 0), st) }

-- A drive that keeps the last controlword too, and settles when it is read.
abbrev Machine : Type 0
Machine = State × ℕ

abbrev live : Net Machine
live = record {
  read = λ subnode address sz m. (ok (Simulated.word m.0), (settled m.0, m.1));
  write = λ subnode address val sz confirm extended m. (ok tt, (moved m.1 m.0 val, val));
  wait_write = λ subnode address val sz confirm extended m. (ok tt, (moved m.1 m.0 val, val));
}

abbrev ticking : Clock Machine
ticking = record { gettime = λ m. ((true, 0), m) }

abbrev drive : Drive live ticking 1
drive = record {
  state = λ m. m.0;
  control = λ m. m.1;
  word = λ m. Simulated.word m.0;
  shown = λ m. word-Shows m.0;
  answers = λ m. refl;
  read_settles = λ m. settled-Settles m.0;
  ticks = λ m. refl;
  tick_settles = λ m. stays;
  accepts = λ cmd m lt. refl;
  takes = λ cmd m lt. refl;
  moves = λ cmd st m lt h. moved-Moves m.1 cmd m.0 st h;
}

abbrev begin : State → Servo Machine
begin st = record { sw = 0; world = (st, 0x80) }

abbrev start : State → Servo State
start st = record { sw = 0; world = st }

abbrev timeout : ℤ
timeout = pos 500

-- The runs, by evaluation.
enable_fault :
    enable net catalog clock none 0 4 0 1 timeout (start fault)
    ≡ some (ok tt, record { sw = 0x0237; world = enabled })
unfolding enable
enable_fault = refl

switch_on_enabled :
    switch_on net catalog clock none 0 4 0 1 timeout (start enabled)
    ≡ some (ok tt, record { sw = 0x0233; world = on })
unfolding switch_on
switch_on_enabled = refl

disable_on :
    disable net catalog clock none 0 4 0 1 timeout (start on)
    ≡ some (ok tt, record { sw = 0x0240; world = disabled })
unfolding disable
disable_on = refl

fault_reset_fault :
    fault_reset net catalog clock none 0 21 0 1 timeout (start fault)
    ≡ some (ok tt, record { sw = 0x0240; world = disabled })
unfolding fault_reset
fault_reset_fault = refl

-- A drive that is not enabled is not enabled by what a disable or a switch on may write.
abbrev Idle : State → Type 0
Idle st = st ≢ enabled

next-Disabling : (cmd : ℕ) (st : State) → Disabling cmd → Idle st → Idle (next st cmd)
next-Disabling cmd st a i = ground arith

Disabling-Idle : Frame net clock 1 Disabling Idle
Disabling-Idle = record {
  reads = λ w p. p;
  times = λ w p. p;
  writes = λ cmd w a p. next-Disabling cmd w a p;
}

next-SwitchingOn : (cmd : ℕ) (st : State) → SwitchingOn cmd → Idle st → Idle (next st cmd)
next-SwitchingOn cmd st a i = ground arith

SwitchingOn-Idle : Frame net clock 1 SwitchingOn Idle
SwitchingOn-Idle = record {
  reads = λ w p. p;
  times = λ w p. p;
  writes = λ cmd w a p. next-SwitchingOn cmd w a p;
}

switch_on_disabled :
    switch_on net catalog clock none 0 4 0 1 timeout (start disabled)
    ≡ some (ok tt, record { sw = 0x0233; world = on })
unfolding switch_on
switch_on_disabled = refl

-- No command of an enable makes a quick stop.
abbrev Running : State → Type 0
Running st = st ≢ qstop

next-Enabling : (cmd : ℕ) (st : State) → Enabling cmd → Running st → Running (next st cmd)
next-Enabling cmd st a i = ground arith

Enabling-Running : Frame net clock 1 Enabling Running
Enabling-Running = record {
  reads = λ w p. p;
  times = λ w p. p;
  writes = λ cmd w a p. next-Enabling cmd w a p;
}

enable-Keeps_example : Running enabled
enable-Keeps_example =
    enable-Keeps net catalog clock none 0 1 Running 4 0 timeout (start fault) (ok tt)
      (record { sw = 0x0237; world = enabled }) Enabling-Running (ground arith) enable_fault

-- A negative timeout has passed at the first look at the clock.
waits_end :
    (sw : ℕ) (s : Servo State) → sw_wait_change net catalog clock none 0 1 sw (negsuc 0) 1 s ≢ none
unfolding sw_wait_change
waits_end sw s = λ p. ground (arith, p)

fault_reset-returns_example :
    fault_reset net catalog clock none 0 21 1 1 (negsuc 0) (start fault) ≢ none
fault_reset-returns_example =
    fault_reset-returns net catalog clock none 0 1 1 (negsuc 0) waits_end (start fault)

state_decode_iff_example : (state_decode 0x0218 ≡ fault) ↔ Shows fault 0x0218
state_decode_iff_example = state_decode_iff fault 0x0218 (ground arith)

-- A statusword that rises at each wakeup.
abbrev rising : Servo State → Wakeup × Servo State
rising s = (signalled, record s { sw = s.sw + 512 })
