-- ===== src/Pds/Reached.antt =====
-- What a successful return of the loops of ingenialink/eth/servo.c says of the statusword stored in
-- `servo->sw`.
use ingenialink.Base.{ℕ, zero, suc, ◌+◌, Bool, true, Option, some, ok, ◌≡◌, ◌≢◌, not, arith}
use ingenialink.Base.Int.{ℤ}
use ingenialink.Port.{Net, Catalog, Clock}
use ingenialink.Pds.{State, disabled, on, enabled, faultr, fault, state_decode}
use ingenialink.Pds.Cmd
use ingenialink.Pds.Control.{
  Servo, M, return, ◌>>=◌, sw_get, poll, start_time, wait_loop, sw_wait_change, command,
  fault_reset, fault_reset_loop, disable_loop, disable, switch_on_command, switch_on_loop,
  switch_on, enable_command, enable_loop, reset_if_faulty, enable, is_faulty, is_disabled, is_on,
  is_enabled, fault_reset_retries,
}
use ingenialink.Pds.Io.{sw_get_lem}
use ingenialink.Pds.Rules.{Leaves, Leaves-bind}

-- The result is the stored statusword; the stored statusword shows a state that satisfies `test`.
abbrev Stored : {W : Type 0} → ℕ → Servo W → Type 0
Stored sw s = s.sw ≡ sw

abbrev pub Decodes : {W A : Type 0} → (State → Bool) → A → Servo W → Type 0
Decodes test a s = test (state_decode s.sw) ≡ true

abbrev Anything : {W A : Type 0} → A → Servo W → Type 0
Anything a s = Unit {0}

is_disabled_sound : (st : State) → is_disabled st ≡ true → st ≡ disabled
is_disabled_sound st h = ground arith

is_on_sound : (st : State) → is_on st ≡ true → st ≡ on
is_on_sound st h = ground arith

is_enabled_sound : (st : State) → is_enabled st ≡ true → st ≡ enabled
is_enabled_sound st h = ground arith

not_faulty : (st : State) → not (is_faulty st) ≡ true → (st ≢ fault) × (st ≢ faultr)
not_faulty st h = ground arith

module _ {W D : Type 0} (net : Net W) (catalog : Catalog D) (clock : Clock W) (dict : Option D)
    (junk subnode : ℕ) where
  sw_get-Stored : (s : Servo W) → Leaves Stored (sw_get net catalog clock dict junk subnode) s
  sw_get-Stored s a s' e = ground (arith, sw_get_lem net catalog clock dict junk subnode s)

  wait_loop-Stored :
      (polls start sw buff : ℕ) (timeout : ℤ) (s : Servo W)
      → Leaves Stored (wait_loop net catalog clock dict junk polls subnode timeout start sw buff) s
  unfolding wait_loop
  wait_loop-Stored zero start sw buff timeout s a s' e = ground arith
  wait_loop-Stored (suc n) start sw buff timeout s a s' e =
      let w = (clock.gettime s.world).1 in
      let answer = poll net catalog clock dict junk subnode buff w in
      ground
        (arith, wait_loop-Stored n start sw answer.0 timeout (record s { world = answer.1 }) a s')

  sw_wait_change-Stored :
      (polls sw : ℕ) (timeout : ℤ) (s : Servo W)
      → Leaves Stored (sw_wait_change net catalog clock dict junk polls sw timeout subnode) s
  unfolding sw_wait_change
  sw_wait_change-Stored polls sw timeout s =
      Leaves-bind Anything Stored (start_time net catalog clock dict junk timeout) _ s (λ _ _ _. tt)
        (λ start s1 _.
          let answer = poll net catalog clock dict junk subnode junk s1.world in
          wait_loop-Stored polls start sw answer.0 timeout (record s1 { world = answer.1 }))

  -- A command, the wait for a change, and then `k`: the body of the loops.
  round-Decodes :
      (cmd polls sw : ℕ) (timeout : ℤ) (test : State → Bool) (k : ℕ → M W (Unit {0})) (s : Servo W)
      → ((sw' : ℕ) (s' : Servo W) → s'.sw ≡ sw' → Leaves (Decodes test) (k sw') s')
      → Leaves
          (Decodes test)
          (command net catalog clock dict junk subnode cmd >>= λ _.
            sw_wait_change net catalog clock dict junk polls sw timeout subnode >>= k)
          s
  round-Decodes cmd polls sw timeout test k s h =
      Leaves-bind Anything (Decodes test) (command net catalog clock dict junk subnode cmd) _ s
        (λ _ _ _. tt)
        (λ _ s1 _.
          Leaves-bind Stored (Decodes test)
            (sw_wait_change net catalog clock dict junk polls sw timeout subnode) k s1
            (sw_wait_change-Stored polls sw timeout s1) h)

  reset-Decodes :
      (polls : ℕ) (timeout : ℤ) (test : State → Bool) (k : ℕ → M W (Unit {0})) (s : Servo W)
      → ((sw' : ℕ) (s' : Servo W) → s'.sw ≡ sw' → Leaves (Decodes test) (k sw') s')
      → Leaves
          (Decodes test)
          (fault_reset net catalog clock dict junk (suc fault_reset_retries) polls subnode timeout
            >>= λ _. sw_get net catalog clock dict junk subnode >>= k)
          s
  reset-Decodes polls timeout test k s h =
      Leaves-bind Anything (Decodes test)
        (fault_reset net catalog clock dict junk (suc fault_reset_retries) polls subnode timeout) _
        s (λ _ _ _. tt)
        (λ _ s1 _.
          Leaves-bind Stored (Decodes test) (sw_get net catalog clock dict junk subnode) k s1
            (sw_get-Stored s1) h)

  -- The loops, started with the stored statusword.
  disable_loop-Decodes :
      (n polls sw : ℕ) (timeout : ℤ) (s : Servo W)
      → s.sw ≡ sw
      → Leaves
          (Decodes is_disabled)
          (disable_loop net catalog clock dict junk n polls subnode timeout sw)
          s
  unfolding disable_loop
  disable_loop-Decodes zero polls sw timeout s h a s' e = ground arith
  disable_loop-Decodes (suc n) polls sw timeout s h a s' e = ground (
    arith,
    reset-Decodes polls timeout is_disabled _ s
        (λ sw' s'. disable_loop-Decodes n polls sw' timeout s') a s',
    round-Decodes Cmd.dv polls sw timeout is_disabled _ s
        (λ sw' s'. disable_loop-Decodes n polls sw' timeout s') a s',
  )

  switch_on_loop-Decodes :
      (n polls sw : ℕ) (timeout : ℤ) (s : Servo W)
      → s.sw ≡ sw
      → Leaves
          (Decodes is_on)
          (switch_on_loop net catalog clock dict junk n polls subnode timeout sw)
          s
  unfolding switch_on_loop
  switch_on_loop-Decodes zero polls sw timeout s h a s' e = ground arith
  switch_on_loop-Decodes (suc n) polls sw timeout s h a s' e = ground (
    arith,
    reset-Decodes polls timeout is_on _ s (λ sw' s'. switch_on_loop-Decodes n polls sw' timeout s')
        a s',
    round-Decodes (switch_on_command (state_decode sw)) polls sw timeout is_on _ s
        (λ sw' s'. switch_on_loop-Decodes n polls sw' timeout s') a s',
  )

  enable_loop-Decodes :
      (n polls sw : ℕ) (timeout : ℤ) (s : Servo W)
      → s.sw ≡ sw
      → Leaves
          (Decodes is_enabled)
          (enable_loop net catalog clock dict junk n polls subnode timeout sw)
          s
  unfolding enable_loop
  enable_loop-Decodes zero polls sw timeout s h a s' e = ground arith
  enable_loop-Decodes (suc n) polls sw timeout s h a s' e = ground (
    arith,
    Leaves-bind Anything (Decodes is_enabled) (return (enable_command (state_decode sw))) _ s
        (λ _ _ _. tt)
        (λ cmd s1 _.
          round-Decodes cmd polls sw timeout is_enabled _ s1
            (λ sw' s'. enable_loop-Decodes n polls sw' timeout s'))
        a s',
  )

  fault_reset_loop-Decodes :
      (n polls retries sw : ℕ) (timeout : ℤ) (s : Servo W)
      → s.sw ≡ sw
      → Leaves
          (Decodes (λ st. not (is_faulty st)))
          (fault_reset_loop net catalog clock dict junk n polls subnode timeout retries sw)
          s
  unfolding fault_reset_loop
  fault_reset_loop-Decodes zero polls retries sw timeout s h a s' e = ground arith
  fault_reset_loop-Decodes (suc n) polls retries sw timeout s h a s' e = ground (
    arith,
    Leaves-bind Anything (Decodes (λ st. not (is_faulty st)))
        (command net catalog clock dict junk subnode 0) _ s (λ _ _ _. tt)
        (λ _ s1 _.
          round-Decodes Cmd.fr polls sw timeout (λ st. not (is_faulty st)) _ s1
            (λ sw' s'. fault_reset_loop-Decodes n polls (retries + 1) sw' timeout s'))
        a s',
  )

  from_loop :
      (test : State → Bool) (k : ℕ → M W (Unit {0})) (s : Servo W)
      → ((sw : ℕ) (s1 : Servo W) → s1.sw ≡ sw → Leaves (Decodes test) (k sw) s1)
      → Leaves (Decodes test) (sw_get net catalog clock dict junk subnode >>= k) s
  from_loop test k s h =
      Leaves-bind Stored (Decodes test) (sw_get net catalog clock dict junk subnode) k s
        (sw_get-Stored s) h

  -- If `disable` returns success, the last statusword that was read, kept in `servo->sw`, shows the state
  -- disabled (switch on disabled).
  pub disable-reached :
      (rounds polls : ℕ) (timeout : ℤ) (s s' : Servo W)
      → disable net catalog clock dict junk rounds polls subnode timeout s ≡ some (ok tt, s')
      → state_decode s'.sw ≡ disabled
  unfolding disable
  disable-reached rounds polls timeout s s' e = is_disabled_sound (state_decode s'.sw) (
      from_loop is_disabled (disable_loop net catalog clock dict junk rounds polls subnode timeout)
        s (λ sw s1. disable_loop-Decodes rounds polls sw timeout s1) tt s' e)

  -- If `switch_on` returns success, the last statusword that was read, kept in `servo->sw`, shows the state
  -- switched on.
  pub switch_on-reached :
      (rounds polls : ℕ) (timeout : ℤ) (s s' : Servo W)
      → switch_on net catalog clock dict junk rounds polls subnode timeout s ≡ some (ok tt, s')
      → state_decode s'.sw ≡ on
  unfolding switch_on
  switch_on-reached rounds polls timeout s s' e = is_on_sound (state_decode s'.sw) (
      from_loop is_on (switch_on_loop net catalog clock dict junk rounds polls subnode timeout) s
        (λ sw s1. switch_on_loop-Decodes rounds polls sw timeout s1) tt s' e)

  -- If `enable` returns success, the last statusword that was read, kept in `servo->sw`, shows the state
  -- enabled.
  pub enable-reached :
      (rounds polls : ℕ) (timeout : ℤ) (s s' : Servo W)
      → enable net catalog clock dict junk rounds polls subnode timeout s ≡ some (ok tt, s')
      → state_decode s'.sw ≡ enabled
  unfolding enable
  enable-reached rounds polls timeout s s' e = is_enabled_sound (state_decode s'.sw) (
      Leaves-bind Anything (Decodes is_enabled) (sw_get net catalog clock dict junk subnode) _ s
        (λ _ _ _. tt)
        (λ sw s1 _.
          Leaves-bind Anything (Decodes is_enabled)
            (reset_if_faulty net catalog clock dict junk polls subnode timeout sw) _ s1
            (λ _ _ _. tt)
            (λ _ s2 _.
              from_loop is_enabled
                (enable_loop net catalog clock dict junk rounds polls subnode timeout) s2
                (λ sw' s3. enable_loop-Decodes rounds polls sw' timeout s3)))
        tt s' e)

  -- If `fault_reset` returns success, the last statusword that was read shows neither of the fault
  -- states.
  pub fault_reset-reached :
      (rounds polls : ℕ) (timeout : ℤ) (s s' : Servo W)
      → fault_reset net catalog clock dict junk rounds polls subnode timeout s ≡ some (ok tt, s')
      → (state_decode s'.sw ≢ fault) × (state_decode s'.sw ≢ faultr)
  unfolding fault_reset
  fault_reset-reached rounds polls timeout s s' e = not_faulty (state_decode s'.sw) (
      from_loop (λ st. not (is_faulty st))
        (fault_reset_loop net catalog clock dict junk rounds polls subnode timeout 0) s
        (λ sw s1. fault_reset_loop-Decodes rounds polls 0 sw timeout s1) tt s' e)
