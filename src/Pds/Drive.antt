-- ===== src/Pds/Drive.antt =====
-- A drive that follows CiA 402, as seen through the network, and the steps of
-- ingenialink/eth/servo.c that succeed on it.
use ingenialink.Base.{
  ℕ, zero, suc, ◌<◌, ◌^◌, true, Option, some, ok, ◌≡◌, ◌≢◌, refl, sym, ap, ◌∙◌, arith, Bool-cases,
  inl, inr, Bool, false, ◌/◌, ◌%◌,
}
use ingenialink.Base.Int.{ℤ, pos, ltb_ℤ}
use ingenialink.Port.{Net, Catalog, Clock}
use ingenialink.Pds.{State, nrdy, disabled, rdy, on, enabled, qstop, faultr, fault, state_decode}
use ingenialink.Pds.Cmd
use ingenialink.Pds.Decode.{Shows, state_decode-Shows}
use mathlib.Core.Path.{subst}
use ingenialink.Pds.Control.{
  Servo, M, ◌>>=◌, sw_get, start_time, wait_loop, sw_wait_change, command, is_faulty,
}
use ingenialink.Pds.Io.{command_lem, sw_get_lem, poll_lem}

-- The commands of the controlword, by the bits 0 to 3 and 7 that CiA 402 gives them.
abbrev pub Commands : ℕ → ℕ → Type 0
Commands low cmd = (cmd % 16 ≡ low) × (cmd / 128 % 2 ≡ 0)

abbrev pub Shutdown : ℕ → Type 0
Shutdown cmd = (cmd % 8 ≡ 6) × (cmd / 128 % 2 ≡ 0)

abbrev pub DisableVoltage : ℕ → Type 0
DisableVoltage cmd = (cmd / 2 % 2 ≡ 0) × (cmd / 128 % 2 ≡ 0)

-- A transition by a command, behind a controlword `prev`. A fault is reset by the rise of bit 7. From `rdy`,
-- enable operation passes through `on`. What a drive leaves by itself it has left when it takes the command.
pub data Moves (prev : ℕ) : State → ℕ → State → Type 0 where
  initialise : {cmd : ℕ} → DisableVoltage cmd → Moves prev nrdy cmd disabled
  shut_down : {cmd : ℕ} → Shutdown cmd → Moves prev disabled cmd rdy
  stay_disabled : {cmd : ℕ} → DisableVoltage cmd → Moves prev disabled cmd disabled
  switch_on : {cmd : ℕ} → Commands 7 cmd → Moves prev rdy cmd on
  switch_on_enable : {cmd : ℕ} → Commands 15 cmd → Moves prev rdy cmd enabled
  enable_operation : {cmd : ℕ} → Commands 15 cmd → Moves prev on cmd enabled
  disable_operation : {cmd : ℕ} → Commands 7 cmd → Moves prev enabled cmd on
  resume : {cmd : ℕ} → Commands 15 cmd → Moves prev qstop cmd enabled
  leave_ready : {cmd : ℕ} → DisableVoltage cmd → Moves prev rdy cmd disabled
  leave_on : {cmd : ℕ} → DisableVoltage cmd → Moves prev on cmd disabled
  leave_enabled : {cmd : ℕ} → DisableVoltage cmd → Moves prev enabled cmd disabled
  leave_quick_stop : {cmd : ℕ} → DisableVoltage cmd → Moves prev qstop cmd disabled
  react : {cmd : ℕ} → cmd / 128 % 2 ≡ 0 → Moves prev faultr cmd fault
  stay_fault : {cmd : ℕ} → cmd / 128 % 2 ≡ 0 → Moves prev fault cmd fault
  reset : {cmd : ℕ} → prev / 128 % 2 ≡ 0 → cmd / 128 % 2 ≡ 1 → Moves prev fault cmd disabled

-- The automatic transitions, which happen at any time or not yet.
pub data Settles : State → State → Type 0 where
  stays : {st : State} → Settles st st
  initialised : Settles nrdy disabled
  reacted : Settles faultr fault

abbrev pub is_passing : State → Bool
is_passing nrdy = true
is_passing faultr = true
is_passing _ = false

pub Settles-still : {st a : State} → is_passing st ≡ false → Settles st a → a ≡ st
Settles-still h stays = refl
Settles-still h initialised = absurd (ground (arith, h))
Settles-still h reacted = absurd (ground (arith, h))

pub Settles-is_faulty : {st a : State} → Settles st a → is_faulty a ≡ is_faulty st
Settles-is_faulty stays = refl
Settles-is_faulty initialised = refl
Settles-is_faulty reacted = refl

-- A command leads from a state, or from the one that it settles to.
abbrev pub Leads : State → ℕ → State → Type 0
Leads st cmd st' = (prev : ℕ) (a : State) → Settles st a → Moves prev a cmd st'

still-Leads :
    {st st' : State} {cmd : ℕ}
    → is_passing st ≡ false
    → ((prev : ℕ) → Moves prev st cmd st')
    → Leads st cmd st'
still-Leads {st} {st'} {cmd} h m prev a s =
    subst (λ (a : State). Moves prev a cmd st') (sym (Settles-still h s)) (m prev)

settled_initialise : (prev : ℕ) {a : State} → Settles nrdy a → Moves prev a Cmd.dv disabled
settled_initialise prev stays = initialise (refl, refl)
settled_initialise prev initialised = stay_disabled (refl, refl)

pub lead_initialise : Leads nrdy Cmd.dv disabled
lead_initialise prev a s = settled_initialise prev s

pub lead_shut_down : Leads disabled Cmd.sd rdy
lead_shut_down = still-Leads refl (λ prev. shut_down (refl, refl))

pub lead_switch_on : Leads rdy Cmd.so on
lead_switch_on = still-Leads refl (λ prev. switch_on (refl, refl))

pub lead_switch_on_enable : Leads rdy Cmd.soeo enabled
lead_switch_on_enable = still-Leads refl (λ prev. switch_on_enable (refl, refl))

pub lead_enable_operation : Leads on Cmd.eo enabled
lead_enable_operation = still-Leads refl (λ prev. enable_operation (refl, refl))

pub lead_disable_operation : Leads enabled Cmd.do_ on
lead_disable_operation = still-Leads refl (λ prev. disable_operation (refl, refl))

pub lead_resume : Leads qstop Cmd.eo enabled
lead_resume = still-Leads refl (λ prev. resume (refl, refl))

pub lead_leave_ready : Leads rdy Cmd.dv disabled
lead_leave_ready = still-Leads refl (λ prev. leave_ready (refl, refl))

pub lead_leave_on : Leads on Cmd.dv disabled
lead_leave_on = still-Leads refl (λ prev. leave_on (refl, refl))

pub lead_leave_enabled : Leads enabled Cmd.dv disabled
lead_leave_enabled = still-Leads refl (λ prev. leave_enabled (refl, refl))

pub lead_leave_quick_stop : Leads qstop Cmd.dv disabled
lead_leave_quick_stop = still-Leads refl (λ prev. leave_quick_stop (refl, refl))

-- Behind the axis `subnode` of the network there is such a drive: it answers each read of the statusword with a
-- word that shows its state by the bits of CiA 402, and moves by itself or by the controlwords that are written.
pub record Drive {W : Type 0} (net : Net W) (clock : Clock W) (subnode : ℕ) : Type 0 where
  pub state : W → State
  pub control : W → ℕ
  pub word : W → ℕ
  pub shown : (w : W) → Shows (state w) (word w)
  pub answers : (w : W) → (net.read subnode 0x11 2 w).0 ≡ ok (word w)
  pub read_settles : (w : W) → Settles (state w) (state (net.read subnode 0x11 2 w).1)
  pub ticks : (w : W) → (clock.gettime w).0.0 ≡ true
  pub tick_settles : (w : W) → Settles (state w) (state (clock.gettime w).1)
  pub accepts : (cmd : ℕ) (w : W) → cmd < 2 ^ 16 → (net.write subnode 0x10 cmd 2 true 0 w).0 ≡ ok tt
  pub takes :
      (cmd : ℕ) (w : W) → cmd < 2 ^ 16 → control (net.write subnode 0x10 cmd 2 true 0 w).1 ≡ cmd
  pub moves :
      (cmd : ℕ) (st : State) (w : W)
      → cmd < 2 ^ 16
      → Moves (control w) (state w) cmd st
      → state (net.write subnode 0x10 cmd 2 true 0 w).1 ≡ st

-- The operation succeeds, with a result and a state that satisfy `Q`.
abbrev pub Succeeds : {W A : Type 0} → (A → Servo W → Type 0) → M W A → Servo W → Type 0
Succeeds {W} {A} Q m s = (a : A) × (s' : Servo W) × (m s ≡ some (ok a, s')) × Q a s'

pub Succeeds-bind :
    {W A B : Type 0} (Q : A → Servo W → Type 0) (R : B → Servo W → Type 0) (m : M W A)
    (f : A → M W B) (s : Servo W)
    → Succeeds Q m s
    → ((a : A) (s1 : Servo W) → Q a s1 → Succeeds R (f a) s1)
    → Succeeds R (m >>= f) s
Succeeds-bind Q R m f s (a, s1, e, q) k =
    let (b, s2, e2, r) = k a s1 q in (b, s2, ground (arith, e, e2), r)

pub Succeeds-eq :
    {W A : Type 0} (Q : A → Servo W → Type 0) (m k : M W A) (s : Servo W)
    → m s ≡ k s
    → Succeeds Q k s
    → Succeeds Q m s
Succeeds-eq Q m k s e (a, s1, e1, q) = (a, s1, e ∙ e1, q)

module _ {W D : Type 0} (net : Net W) (catalog : Catalog D) (clock : Clock W) (dict : Option D)
    (junk subnode : ℕ) (drive : Drive net clock subnode) where
  -- The drive was in the state `st`, which the word `v` shows.
  abbrev pub At : State → ℕ → Servo W → Type 0
  At st v s = (state_decode v ≡ st) × Settles st (drive.state s.world)

  pub sw_get-Succeeds :
      (s : Servo W)
      → Succeeds (At (drive.state s.world)) (sw_get net catalog clock dict junk subnode) s
  sw_get-Succeeds s = (
    drive.word s.world,
    record { sw = drive.word s.world; world = (net.read subnode 0x11 2 s.world).1 },
    ground (arith, sw_get_lem net catalog clock dict junk subnode s, drive.answers s.world),
    (
      state_decode-Shows (drive.state s.world) (drive.word s.world) (drive.shown s.world),
      drive.read_settles s.world,
    ),
  )

  pub command-Succeeds :
      (cmd : ℕ) (st : State) (s : Servo W)
      → cmd < 2 ^ 16
      → Moves (drive.control s.world) (drive.state s.world) cmd st
      → Succeeds
          (λ _ s'. (drive.state s'.world ≡ st) × (drive.control s'.world ≡ cmd))
          (command net catalog clock dict junk subnode cmd)
          s
  command-Succeeds cmd st s lt m = (
    tt,
    record s { world = (net.write subnode 0x10 cmd 2 true 0 s.world).1 },
    ground (
      arith,
      command_lem net catalog clock dict junk subnode cmd s lt,
      drive.accepts cmd s.world lt,
    ),
    (drive.moves cmd st s.world lt m, drive.takes cmd s.world lt),
  )

  wait_loop-changed :
      (polls start sw buff : ℕ) (timeout : ℤ) (s : Servo W)
      → buff ≢ sw
      → wait_loop net catalog clock dict junk polls subnode timeout start sw buff s
        ≡ some (ok buff, record s { sw = buff })
  unfolding wait_loop
  wait_loop-changed zero start sw buff timeout s ne = ground arith
  wait_loop-changed (suc n) start sw buff timeout s ne = ground arith

  start_time-Succeeds :
      (timeout : ℤ) (s : Servo W)
      → Succeeds
          (λ _ s'. Settles (drive.state s.world) (drive.state s'.world))
          (start_time net catalog clock dict junk timeout)
          s
  unfolding start_time
  start_time-Succeeds timeout s = elim (Bool-cases (ltb_ℤ (pos 0) timeout)) [
    | inl e ↦ (
      (clock.gettime s.world).0.1,
      record s { world = (clock.gettime s.world).1 },
      ground (arith, e, drive.ticks s.world),
      drive.tick_settles s.world,
    )
    | inr e ↦ (0, s, ground (arith, e), stays)
  ]

  -- The drive is in a state which it does not leave by itself and the word does not show.
  pub sw_wait_change-Succeeds :
      (st : State) (polls sw : ℕ) (timeout : ℤ) (s : Servo W)
      → is_passing st ≡ false
      → state_decode sw ≢ st
      → drive.state s.world ≡ st
      → Succeeds (At st) (sw_wait_change net catalog clock dict junk polls sw timeout subnode) s
  unfolding sw_wait_change
  sw_wait_change-Succeeds st polls sw timeout s still ne here =
      Succeeds-bind (λ _ s'. Settles (drive.state s.world) (drive.state s'.world)) (At st)
        (start_time net catalog clock dict junk timeout) _ s (start_time-Succeeds timeout s)
        (λ start s1 settles.
          let e : drive.state s1.world ≡ st =
            Settles-still still
              (subst (λ (a : State). Settles a (drive.state s1.world)) here settles) in
          let v = drive.word s1.world in
          let w = (net.read subnode 0x11 2 s1.world).1 in
          let shown = state_decode-Shows (drive.state s1.world) v (drive.shown s1.world) ∙ e in
          (
            v,
            record { sw = v; world = w },
            ground (
              arith,
              poll_lem net catalog clock dict junk subnode junk s1.world,
              drive.answers s1.world,
              wait_loop-changed polls start sw v timeout (record s1 { world = w })
                  (λ same. ne (ap state_decode (sym same) ∙ shown)),
            ),
            (
              shown,
              subst (λ (a : State). Settles a (drive.state w)) e (drive.read_settles s1.world),
            ),
          ))
