-- ===== src/Pds/Safety.antt =====
-- Safety of the loops of ingenialink/eth/servo.c: what they may write to the drive.
use ingenialink.Base.{
  ℕ, zero, suc, ◌<◌, ◌^◌, Option, some, Result, ok, ◌≡◌, refl, ◌⊎◌, inl, inr, arith,
}
use ingenialink.Base.Int.{ℤ}
use ingenialink.Port.{Net, Catalog, Clock}
use ingenialink.Pds.{State, state_decode}
use ingenialink.Pds.Cmd
use ingenialink.Pds.Control.{
  Servo, return, sw_get, disable_loop, disable, switch_on_command, switch_on_loop, switch_on,
  enable_command, enable_loop, reset_if_faulty, enable, is_faulty, is_disabled, is_on, is_enabled,
}
use ingenialink.Pds.Frame.{Frame, sw_get-Keeps, round-Keeps, reset-Keeps}
use ingenialink.Pds.Rules.{Keeps, Keeps-bind, Keeps-return, Keeps-return_bind, Keeps-none, Keeps-if}

-- The commands of a disable: disable voltage and fault reset.
abbrev pub Disabling : ℕ → Type 0
Disabling cmd = (cmd ≡ Cmd.dv) ⊎ (cmd ≡ Cmd.fr)

-- The commands that do not enable the operation.
abbrev pub SwitchingOn : ℕ → Type 0
SwitchingOn cmd = (cmd ≡ Cmd.dv) ⊎ ((cmd ≡ Cmd.sd) ⊎ ((cmd ≡ Cmd.so) ⊎ (cmd ≡ Cmd.fr)))

abbrev pub Enabling : ℕ → Type 0
Enabling cmd = (cmd ≡ Cmd.dv) ⊎ ((cmd ≡ Cmd.sd) ⊎ ((cmd ≡ Cmd.eo) ⊎ (cmd ≡ Cmd.fr)))

switch_on_command-SwitchingOn : (st : State) → SwitchingOn (switch_on_command st)
switch_on_command-SwitchingOn st = ground arith

SwitchingOn-lt : (cmd : ℕ) → SwitchingOn cmd → cmd < 2 ^ 16
SwitchingOn-lt cmd h = ground arith

enable_command-Enabling : (st : State) (cmd : ℕ) → enable_command st ≡ ok cmd → Enabling cmd
enable_command-Enabling st cmd e = ground arith

Enabling-lt : (cmd : ℕ) → Enabling cmd → cmd < 2 ^ 16
Enabling-lt cmd h = ground arith

module _ {W D : Type 0} (net : Net W) (catalog : Catalog D) (clock : Clock W) (dict : Option D)
    (junk subnode : ℕ) (P : W → Type 0) where
  disable_loop-Keeps :
      Frame net clock subnode Disabling P
      → (n polls sw : ℕ) (timeout : ℤ)
      → Keeps P (disable_loop net catalog clock dict junk n polls subnode timeout sw)
  unfolding disable_loop
  disable_loop-Keeps frame zero polls sw timeout = Keeps-none P
  disable_loop-Keeps frame (suc n) polls sw timeout =
      Keeps-if P (is_faulty (state_decode sw)) _ _
        (reset-Keeps net catalog clock dict junk subnode Disabling P frame polls timeout _
          (inl refl) (inr refl) (λ sw'. disable_loop-Keeps frame n polls sw' timeout))
        (Keeps-if P (is_disabled (state_decode sw)) (return (ok tt)) _ (Keeps-return P (ok tt)) (
          round-Keeps net catalog clock dict junk subnode Disabling P frame Cmd.dv polls sw timeout
            _ (omega arith) (inl refl) (λ sw'. disable_loop-Keeps frame n polls sw' timeout)))

  -- Whatever it returns, `disable` writes only the commands disable voltage and fault reset, to the
  -- controlword of its axis: a property of the world that these writes, the reads of the statusword
  -- and the clock keep, it keeps.
  pub disable-Keeps :
      (rounds polls : ℕ) (timeout : ℤ) (s : Servo W) (r : Result (Unit {0})) (s' : Servo W)
      → Frame net clock subnode Disabling P
      → P s.world
      → disable net catalog clock dict junk rounds polls subnode timeout s ≡ some (r, s')
      → P s'.world
  unfolding disable
  disable-Keeps rounds polls timeout s r s' frame =
      Keeps-bind P (sw_get net catalog clock dict junk subnode) _
        (sw_get-Keeps net catalog clock dict junk subnode Disabling P frame)
        (λ sw. disable_loop-Keeps frame rounds polls sw timeout) s r s'

  switch_on_loop-Keeps :
      Frame net clock subnode SwitchingOn P
      → (n polls sw : ℕ) (timeout : ℤ)
      → Keeps P (switch_on_loop net catalog clock dict junk n polls subnode timeout sw)
  unfolding switch_on_loop
  switch_on_loop-Keeps frame zero polls sw timeout = Keeps-none P
  switch_on_loop-Keeps frame (suc n) polls sw timeout =
      Keeps-if P (is_faulty (state_decode sw)) _ _
        (reset-Keeps net catalog clock dict junk subnode SwitchingOn P frame polls timeout _
          (inl refl) (inr (inr (inr refl))) (λ sw'. switch_on_loop-Keeps frame n polls sw' timeout))
        (Keeps-if P (is_on (state_decode sw)) (return (ok tt)) _ (Keeps-return P (ok tt)) (
          round-Keeps net catalog clock dict junk subnode SwitchingOn P frame
            (switch_on_command (state_decode sw)) polls sw timeout _
            (SwitchingOn-lt (switch_on_command (state_decode sw))
              (switch_on_command-SwitchingOn (state_decode sw)))
            (switch_on_command-SwitchingOn (state_decode sw))
            (λ sw'. switch_on_loop-Keeps frame n polls sw' timeout)))

  -- Whatever it returns, `switch_on` never writes the command that enables the operation: it writes only
  -- disable voltage, shutdown, switch on (which is also disable operation) and fault reset, to the
  -- controlword of its axis.
  pub switch_on-Keeps :
      (rounds polls : ℕ) (timeout : ℤ) (s : Servo W) (r : Result (Unit {0})) (s' : Servo W)
      → Frame net clock subnode SwitchingOn P
      → P s.world
      → switch_on net catalog clock dict junk rounds polls subnode timeout s ≡ some (r, s')
      → P s'.world
  unfolding switch_on
  switch_on-Keeps rounds polls timeout s r s' frame =
      Keeps-bind P (sw_get net catalog clock dict junk subnode) _
        (sw_get-Keeps net catalog clock dict junk subnode SwitchingOn P frame)
        (λ sw. switch_on_loop-Keeps frame rounds polls sw timeout) s r s'

  enable_loop-Keeps :
      Frame net clock subnode Enabling P
      → (n polls sw : ℕ) (timeout : ℤ)
      → Keeps P (enable_loop net catalog clock dict junk n polls subnode timeout sw)
  unfolding enable_loop
  enable_loop-Keeps frame zero polls sw timeout = Keeps-none P
  enable_loop-Keeps frame (suc n) polls sw timeout =
      Keeps-if P (is_enabled (state_decode sw)) (return (ok tt)) _ (Keeps-return P (ok tt)) (
        Keeps-return_bind P (enable_command (state_decode sw)) _ (λ cmd e.
          let allowed = enable_command-Enabling (state_decode sw) cmd e in
          round-Keeps net catalog clock dict junk subnode Enabling P frame cmd polls sw timeout _
            (Enabling-lt cmd allowed) allowed (λ sw'. enable_loop-Keeps frame n polls sw' timeout)))

  reset_if_faulty-Keeps :
      Frame net clock subnode Enabling P
      → (polls sw : ℕ) (timeout : ℤ)
      → Keeps P (reset_if_faulty net catalog clock dict junk polls subnode timeout sw)
  unfolding reset_if_faulty
  reset_if_faulty-Keeps frame polls sw timeout =
      Keeps-if P (is_faulty (state_decode sw)) _ (return (ok tt))
        (reset-Keeps net catalog clock dict junk subnode Enabling P frame polls timeout _ (inl refl)
          (inr (inr (inr refl))) (λ sw'. Keeps-return P (ok tt)))
        (Keeps-return P (ok tt))

  -- Whatever it returns, `enable` writes only disable voltage, shutdown, enable operation (with or
  -- without switch on) and fault reset, to the controlword of its axis.
  pub enable-Keeps :
      (rounds polls : ℕ) (timeout : ℤ) (s : Servo W) (r : Result (Unit {0})) (s' : Servo W)
      → Frame net clock subnode Enabling P
      → P s.world
      → enable net catalog clock dict junk rounds polls subnode timeout s ≡ some (r, s')
      → P s'.world
  unfolding enable
  enable-Keeps rounds polls timeout s r s' frame =
      Keeps-bind P (sw_get net catalog clock dict junk subnode) _
        (sw_get-Keeps net catalog clock dict junk subnode Enabling P frame)
        (λ sw.
          Keeps-bind P (reset_if_faulty net catalog clock dict junk polls subnode timeout sw) _
            (reset_if_faulty-Keeps frame polls sw timeout)
            (λ _.
              Keeps-bind P (sw_get net catalog clock dict junk subnode) _
                (sw_get-Keeps net catalog clock dict junk subnode Enabling P frame)
                (λ sw'. enable_loop-Keeps frame rounds polls sw' timeout)))
        s r s'
