-- ===== src/Pds/Rounds.antt =====
-- The rounds of the loops of ingenialink/eth/servo.c on a drive that follows CiA 402.
use ingenialink.Base.{
  ℕ, suc, ◌<◌, ◌^◌, ◌/◌, ◌%◌, refl, ap, true, false, Option, ◌≡◌, ◌≢◌, sym, ◌∙◌, arith,
}
use mathlib.Core.Path.{subst}
use ingenialink.Base.Int.{ℤ}
use ingenialink.Port.{Net, Catalog, Clock}
use ingenialink.Pds.{State, disabled, faultr, fault, state_decode}
use ingenialink.Pds.Cmd
use ingenialink.Pds.Control.{
  Servo, M, ◌>>=◌, sw_get, sw_wait_change, command, fault_reset, fault_reset_loop, is_faulty,
  fault_reset_retries,
}
use ingenialink.Pds.Drive.{
  Drive, Leads, Settles, Settles-still, Settles-is_faulty, is_passing, Moves, react, stay_fault,
  reset, Succeeds, Succeeds-bind, At, sw_get-Succeeds, command-Succeeds, sw_wait_change-Succeeds,
}

ne_disabled : (st seen : State) → is_faulty st ≡ true → seen ≡ st → seen ≢ disabled
ne_disabled st seen f e = ground arith

module _ {W D : Type 0} (net : Net W) (catalog : Catalog D) (clock : Clock W) (dict : Option D)
    (junk subnode : ℕ) (drive : Drive net clock subnode) where
  -- The drive is in the state `st`.
  abbrev pub In : State → {A : Type 0} → A → Servo W → Type 0
  In st a s = drive.state s.world ≡ st

  -- A command that moves the drive, the wait for the change, and then `k`.
  pub round :
      {B : Type 0} (R : B → Servo W → Type 0) (st st' : State) (cmd polls sw : ℕ) (timeout : ℤ)
      (k : ℕ → M W B) (s : Servo W)
      → At net catalog clock dict junk subnode drive st sw s
      → cmd < 2 ^ 16
      → Leads st cmd st'
      → is_passing st' ≡ false
      → st ≢ st'
      → ((v : ℕ) (s1 : Servo W)
          → At net catalog clock dict junk subnode drive st' v s1
          → Succeeds R (k v) s1)
      → Succeeds R
          (command net catalog clock dict junk subnode cmd >>= λ _.
            sw_wait_change net catalog clock dict junk polls sw timeout subnode >>= k)
          s
  round R st st' cmd polls sw timeout k s at lt m still ne h =
      Succeeds-bind (λ _ s'. (drive.state s'.world ≡ st') × (drive.control s'.world ≡ cmd)) R
        (command net catalog clock dict junk subnode cmd) _ s
        (command-Succeeds net catalog clock dict junk subnode drive cmd st' s lt
          (m (drive.control s.world) (drive.state s.world) at.1))
        (λ _ s1 e.
          Succeeds-bind (At net catalog clock dict junk subnode drive st') R
            (sw_wait_change net catalog clock dict junk polls sw timeout subnode) k s1
            (sw_wait_change-Succeeds net catalog clock dict junk subnode drive st' polls sw timeout
              s1 still (λ same. ne (sym at.0 ∙ same)) e.0)
            h)

  settle :
      (st : State) (s : Servo W)
      → is_faulty st ≡ true
      → drive.state s.world ≡ st
      → Succeeds
          (λ _ s'. (drive.state s'.world ≡ fault) × (drive.control s'.world ≡ 0))
          (command net catalog clock dict junk subnode 0)
          s
  settle fault s f e =
      command-Succeeds net catalog clock dict junk subnode drive 0 fault s (omega arith)
        (subst (λ x. Moves (drive.control s.world) x 0 fault) (sym e) (stay_fault refl))
  settle faultr s f e =
      command-Succeeds net catalog clock dict junk subnode drive 0 fault s (omega arith)
        (subst (λ x. Moves (drive.control s.world) x 0 fault) (sym e) (react refl))
  settle st s f e = ground arith

  fault_reset_loop-done :
      (n polls retries sw : ℕ) (timeout : ℤ) (s : Servo W)
      → At net catalog clock dict junk subnode drive disabled sw s
      → Succeeds
          (In disabled)
          (fault_reset_loop net catalog clock dict junk (suc n) polls subnode timeout retries sw)
          s
  unfolding fault_reset_loop
  fault_reset_loop-done n polls retries sw timeout s at =
      (tt, s, ground (arith, at.0), Settles-still refl at.1)

  fault_reset_loop-round :
      (st : State) (n polls sw : ℕ) (timeout : ℤ) (s : Servo W)
      → is_faulty st ≡ true
      → At net catalog clock dict junk subnode drive st sw s
      → Succeeds
          (In disabled)
          (fault_reset_loop net catalog clock dict junk (suc (suc n)) polls subnode timeout 0 sw)
          s
  unfolding fault_reset_loop
  fault_reset_loop-round st n polls sw timeout s f at =
      let (a, s', e, q) =
        Succeeds-bind (λ _ s'. (drive.state s'.world ≡ fault) × (drive.control s'.world ≡ 0))
          (In disabled) (command net catalog clock dict junk subnode 0)
          (λ _. command net catalog clock dict junk subnode Cmd.fr >>= λ _.
            sw_wait_change net catalog clock dict junk polls sw timeout subnode >>= λ sw'.
            fault_reset_loop net catalog clock dict junk (suc n) polls subnode timeout 1 sw')
          s (settle (drive.state s.world) s (Settles-is_faulty at.1 ∙ f) refl)
          (λ _ s1 e1.
            Succeeds-bind
              (λ _ s'. (drive.state s'.world ≡ disabled) × (drive.control s'.world ≡ Cmd.fr))
              (In disabled) (command net catalog clock dict junk subnode Cmd.fr) _ s1
              (command-Succeeds net catalog clock dict junk subnode drive Cmd.fr disabled s1
                (omega arith)
                (subst (λ x. Moves (drive.control s1.world) x Cmd.fr disabled) (sym e1.0)
                  (reset (ap (λ (c : ℕ). c / 128 % 2) e1.1) refl)))
              (λ _ s2 e2.
                Succeeds-bind (At net catalog clock dict junk subnode drive disabled) (In disabled)
                  (sw_wait_change net catalog clock dict junk polls sw timeout subnode) _ s2
                  (sw_wait_change-Succeeds net catalog clock dict junk subnode drive disabled polls
                    sw timeout s2 refl (ne_disabled st (state_decode sw) f at.0) e2.0)
                  (λ v s3 at3. fault_reset_loop-done n polls 1 v timeout s3 at3))) in
      (a, s', ground (arith, at.0, f, e), q)

  -- A fault reset on a faulty drive: it succeeds in one retry and leaves the drive disabled.
  pub fault_reset-Succeeds :
      (n polls : ℕ) (timeout : ℤ) (s : Servo W)
      → is_faulty (drive.state s.world) ≡ true
      → Succeeds
          (In disabled)
          (fault_reset net catalog clock dict junk (suc (suc n)) polls subnode timeout)
          s
  unfolding fault_reset
  fault_reset-Succeeds n polls timeout s f =
      Succeeds-bind (At net catalog clock dict junk subnode drive (drive.state s.world))
        (In disabled) (sw_get net catalog clock dict junk subnode) _ s
        (sw_get-Succeeds net catalog clock dict junk subnode drive s)
        (λ v s1 at. fault_reset_loop-round (drive.state s.world) n polls v timeout s1 f at)

  -- A fault reset, a read of the statusword, and then `k`.
  pub after_reset :
      {B : Type 0} (R : B → Servo W → Type 0) (polls : ℕ) (timeout : ℤ) (k : ℕ → M W B)
      (s : Servo W)
      → is_faulty (drive.state s.world) ≡ true
      → ((v : ℕ) (s1 : Servo W)
          → At net catalog clock dict junk subnode drive disabled v s1
          → Succeeds R (k v) s1)
      → Succeeds R
          (fault_reset net catalog clock dict junk (suc fault_reset_retries) polls subnode timeout
            >>= λ _. sw_get net catalog clock dict junk subnode >>= k)
          s
  after_reset R polls timeout k s f h =
      Succeeds-bind (In disabled) R
        (fault_reset net catalog clock dict junk (suc fault_reset_retries) polls subnode timeout) _
        s (fault_reset-Succeeds 19 polls timeout s f)
        (λ _ s1 e1.
          Succeeds-bind (At net catalog clock dict junk subnode drive (drive.state s1.world)) R
            (sw_get net catalog clock dict junk subnode) k s1
            (sw_get-Succeeds net catalog clock dict junk subnode drive s1)
            (λ v s2 at.
              h v s2 (at.0 ∙ e1, subst (λ (a : State). Settles a (drive.state s2.world)) e1 at.1)))
