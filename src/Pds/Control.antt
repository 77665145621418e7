-- ===== src/Pds/Control.antt =====
-- ingenialink/eth/servo.c: reading and waiting for the statusword, and the loops that drive a servo
-- to a state (`disable`, `switch_on`, `enable`, `fault_reset`). Loops take fuel, the polls of one wait
-- and the rounds of a loop; `none` means that the fuel ran out.
use ingenialink.Base.{
  ℕ, zero, suc, ◌+◌, ◌*◌, Bool, true, false, Option, none, some, Result, ok, err, efail, etimedout,
  estate, ◌==◌, ltb, if◌then◌else◌,
}
use ingenialink.Base.Int.{ℤ, pos, pos_part, neg_part, ltb_ℤ}
use ingenialink.Register.{status_word_register, mcb_ctl_word}
use ingenialink.Port.{Net, Catalog, Clock}
use ingenialink.Access.{Reading, unsigned, integer, float_bits}
use ingenialink.Access.Reads.{raw_read_u16, read}
use ingenialink.Access.Writes.{raw_write_u16}
use ingenialink.Pds.{State, nrdy, disabled, rdy, on, enabled, faultr, fault, state_decode}
use ingenialink.Pds.Cmd

-- `servo->sw.value`, and all that is outside the servo.
pub record Servo (W : Type 0) : Type 0 where
  pub sw : ℕ
  pub world : W

-- A servo operation: `none` if the fuel ran out.
abbrev pub M : Type 0 → Type 0 → Type 0
M W A = Servo W → Option (Result A × Servo W)

abbrev pub return : {W A : Type 0} → Result A → M W A
return r s = some (r, s)

-- `if (r < 0) return r;` between two steps.
infixl 5 ◌>>=◌ ◌>>◌
abbrev pub ◌>>=◌ : {W A B : Type 0} → M W A → (A → M W B) → M W B
◌>>=◌ m f s = elim (m s) [
  | none ↦ none
  | some (r, s') ↦ elim r [ ok a ↦ f a s' | err e ↦ some (err e, s') ]
]

abbrev pub ◌>>◌ : {W A B : Type 0} → M W A → M W B → M W B
m >> k = m >>= λ _. k

-- The statusword that a read of it delivered, or what the variable held when the read failed.
abbrev pub delivered : ℕ → Result Reading → ℕ
delivered junk (ok (unsigned n)) = n
delivered junk (ok (integer z)) = pos_part z
delivered junk (ok (float_bits n)) = n
delivered junk (err e) = junk

-- `diff.s > start.s + timeout / 1000.`
abbrev pub expired : ℕ → ℤ → ℕ → Bool
expired start timeout now = ltb (1000 * start + pos_part timeout) (1000 * now + neg_part timeout)

abbrev pub is_faulty : State → Bool
is_faulty fault = true
is_faulty faultr = true
is_faulty _ = false

abbrev pub is_disabled : State → Bool
is_disabled disabled = true
is_disabled _ = false

abbrev pub is_on : State → Bool
is_on on = true
is_on _ = false

abbrev pub is_enabled : State → Bool
is_enabled enabled = true
is_enabled _ = false

abbrev pub fault_reset_retries : ℕ
fault_reset_retries = 20

-- The command of `il_eth_servo_switch_on` in a state that is neither faulty nor on.
abbrev pub switch_on_command : State → ℕ
switch_on_command nrdy = Cmd.dv
switch_on_command disabled = Cmd.sd
switch_on_command rdy = Cmd.so
switch_on_command enabled = Cmd.do_
switch_on_command _ = Cmd.dv

-- The command of `il_eth_servo_enable` in a state that is neither enabled nor `fault`; in `fault` the
-- loop gives up.
abbrev pub enable_command : State → Result ℕ
enable_command fault = err estate
enable_command nrdy = ok Cmd.dv
enable_command disabled = ok Cmd.sd
enable_command rdy = ok Cmd.soeo
enable_command _ = ok Cmd.eo

-- `junk` is what an uninitialised variable of the stack holds.
module _ {W D : Type 0} (net : Net W) (catalog : Catalog D) (clock : Clock W) (dict : Option D)
    (junk : ℕ) where
  unfoldable pub sw_get : ℕ → M W ℕ
  unfolding read
  sw_get subnode s =
      let (r, w) = read net catalog dict (some (status_word_register subnode)) "" subnode s.world in
      let sw = delivered junk r in some (ok sw, record { sw = sw; world = w })

  -- One read into `buff`, which keeps its value if the read fails.
  abbrev pub poll : ℕ → ℕ → W → ℕ × W
  poll subnode buff w =
      let (r, w') =
        raw_read_u16 net catalog dict (some (status_word_register subnode)) "" subnode w in
      (elim r [ ok v ↦ v | err _ ↦ buff ], w')

  -- `while (buff == *sw)`, by the polls left.
  unfoldable pub wait_loop : ℕ → ℕ → ℤ → ℕ → ℕ → ℕ → M W ℕ
  unfolding raw_read_u16
  wait_loop zero subnode timeout start sw buff s = elim (buff == sw) [
    | false ↦ some (ok buff, record s { sw = buff })
    | true ↦ none
  ]
  wait_loop (suc n) subnode timeout start sw buff s = elim (buff == sw) [
    | false ↦ some (ok buff, record s { sw = buff })
    | true ↦
        let (t, w) = clock.gettime s.world in
        elim (expired start timeout t.1) [
          | true ↦ some (err etimedout, record s { world = w })
          | false ↦
              let (buff', w') = poll subnode buff w in
              wait_loop n subnode timeout start sw buff' (record s { world = w' })
        ]
  ]

  -- The start time is taken for a positive timeout only.
  unfoldable pub start_time : ℤ → M W ℕ
  start_time timeout s =
      if ltb_ℤ (pos 0) timeout
      then (let (t, w) = clock.gettime s.world in
          if t.0
          then some (ok t.1, record s { world = w })
          else some (err efail, record s { world = w }))
      else some (ok 0, s)

  unfoldable pub sw_wait_change : ℕ → ℕ → ℤ → ℕ → M W ℕ
  unfolding wait_loop start_time
  sw_wait_change polls sw timeout subnode = do
    start ← start_time timeout
    λ s.
        let (buff, w) = poll subnode junk s.world in
        wait_loop polls subnode timeout start sw buff (record s { world = w })

  -- A write of the controlword, confirmed, to the axis `subnode`.
  unfoldable pub command : ℕ → ℕ → M W (Unit {0})
  unfolding raw_write_u16
  command subnode cmd s =
      let reg = record mcb_ctl_word { subnode = subnode } in
      let (r, w) = raw_write_u16 net catalog dict (some reg) "" cmd true 0 subnode s.world in
      some (r, record s { world = w })

  unfoldable pub fault_reset_loop : ℕ → ℕ → ℕ → ℤ → ℕ → ℕ → M W (Unit {0})
  unfolding command sw_wait_change state_decode
  fault_reset_loop zero polls subnode timeout retries sw s = none
  fault_reset_loop (suc n) polls subnode timeout retries sw s = elim (is_faulty (state_decode sw)) [
    | false ↦ some (ok tt, s)
    | true ↦ elim (retries == fault_reset_retries) [
      | true ↦ some (err estate, s)
      | false ↦
          (do
            command subnode 0
            command subnode Cmd.fr
            sw' ← sw_wait_change polls sw timeout subnode
            fault_reset_loop n polls subnode timeout (retries + 1) sw')
            s
    ]
  ]

  unfoldable pub fault_reset : ℕ → ℕ → ℕ → ℤ → M W (Unit {0})
  unfolding sw_get fault_reset_loop
  fault_reset rounds polls subnode timeout = do
    sw ← sw_get subnode
    fault_reset_loop rounds polls subnode timeout 0 sw

  -- The rounds of `il_eth_servo_disable`.
  unfoldable pub disable_loop : ℕ → ℕ → ℕ → ℤ → ℕ → M W (Unit {0})
  unfolding fault_reset sw_get command sw_wait_change state_decode
  disable_loop zero polls subnode timeout sw s = none
  disable_loop (suc n) polls subnode timeout sw s = elim (is_faulty (state_decode sw)) [
    | true ↦
        (do
          fault_reset (suc fault_reset_retries) polls subnode timeout
          sw' ← sw_get subnode
          disable_loop n polls subnode timeout sw')
          s
    | false ↦ elim (is_disabled (state_decode sw)) [
      | true ↦ some (ok tt, s)
      | false ↦
          (do
            command subnode Cmd.dv
            sw' ← sw_wait_change polls sw timeout subnode
            disable_loop n polls subnode timeout sw')
            s
    ]
  ]

  unfoldable pub disable : ℕ → ℕ → ℕ → ℤ → M W (Unit {0})
  unfolding sw_get disable_loop
  disable rounds polls subnode timeout = do
    sw ← sw_get subnode
    disable_loop rounds polls subnode timeout sw

  -- The rounds of `il_eth_servo_switch_on`.
  unfoldable pub switch_on_loop : ℕ → ℕ → ℕ → ℤ → ℕ → M W (Unit {0})
  unfolding fault_reset sw_get command sw_wait_change state_decode
  switch_on_loop zero polls subnode timeout sw s = none
  switch_on_loop (suc n) polls subnode timeout sw s = elim (is_faulty (state_decode sw)) [
    | true ↦
        (do
          fault_reset (suc fault_reset_retries) polls subnode timeout
          sw' ← sw_get subnode
          switch_on_loop n polls subnode timeout sw')
          s
    | false ↦ elim (is_on (state_decode sw)) [
      | true ↦ some (ok tt, s)
      | false ↦
          (do
            command subnode (switch_on_command (state_decode sw))
            sw' ← sw_wait_change polls sw timeout subnode
            switch_on_loop n polls subnode timeout sw')
            s
    ]
  ]

  unfoldable pub switch_on : ℕ → ℕ → ℕ → ℤ → M W (Unit {0})
  unfolding sw_get switch_on_loop
  switch_on rounds polls subnode timeout = do
    sw ← sw_get subnode
    switch_on_loop rounds polls subnode timeout sw

  -- The rounds of `il_eth_servo_enable`.
  unfoldable pub enable_loop : ℕ → ℕ → ℕ → ℤ → ℕ → M W (Unit {0})
  unfolding command sw_wait_change state_decode
  enable_loop zero polls subnode timeout sw s = none
  enable_loop (suc n) polls subnode timeout sw s = elim (is_enabled (state_decode sw)) [
    | true ↦ some (ok tt, s)
    | false ↦
        (do
          cmd ← return (enable_command (state_decode sw))
          command subnode cmd
          sw' ← sw_wait_change polls sw timeout subnode
          enable_loop n polls subnode timeout sw')
          s
  ]

  -- The fault reset before the loop.
  unfoldable pub reset_if_faulty : ℕ → ℕ → ℤ → ℕ → M W (Unit {0})
  unfolding fault_reset sw_get state_decode
  reset_if_faulty polls subnode timeout sw s = elim (is_faulty (state_decode sw)) [
    | true ↦
        (do
          fault_reset (suc fault_reset_retries) polls subnode timeout
          _ ← sw_get subnode
          return (ok tt))
          s
    | false ↦ some (ok tt, s)
  ]

  unfoldable pub enable : ℕ → ℕ → ℕ → ℤ → M W (Unit {0})
  unfolding sw_get reset_if_faulty enable_loop
  enable rounds polls subnode timeout = do
    sw ← sw_get subnode
    reset_if_faulty polls subnode timeout sw
    sw' ← sw_get subnode
    enable_loop rounds polls subnode timeout sw'
