-- ===== src/Pds/Frame.antt =====
-- What the statusword reads, the waits and `il_eth_servo_fault_reset` of ingenialink/eth/servo.c leave
-- alone.
use ingenialink.Base.{ℕ, zero, suc, ◌+◌, ◌<◌, ◌^◌, true, Option, ok, err, estate, arith, ◌==◌}
use ingenialink.Base.Int.{ℤ}
use ingenialink.Port.{Net, Catalog, Clock}
use ingenialink.Pds.{state_decode}
use ingenialink.Pds.Cmd
use ingenialink.Pds.Control.{
  M, return, ◌>>=◌, sw_get, wait_loop, start_time, sw_wait_change, command, fault_reset_loop,
  fault_reset, is_faulty, fault_reset_retries,
}
use ingenialink.Pds.Io.{value_or, command_lem, sw_get_lem, poll_lem}
use ingenialink.Pds.Rules.{Keeps, Keeps-bind, Keeps-return, Keeps-none, Keeps-if}

-- Reads of the statusword of the axis `subnode`, the clock, and writes of the commands `Allowed` to its
-- controlword keep `P`.
pub record Frame {W : Type 0} (net : Net W) (clock : Clock W) (subnode : ℕ) (Allowed : ℕ → Type 0)
    (P : W → Type 0) : Type 0 where
  pub reads : (w : W) → P w → P (net.read subnode 0x11 2 w).1
  pub times : (w : W) → P w → P (clock.gettime w).1
  pub writes : (cmd : ℕ) (w : W) → Allowed cmd → P w → P (net.write subnode 0x10 cmd 2 true 0 w).1

module _ {W D : Type 0} (net : Net W) (catalog : Catalog D) (clock : Clock W) (dict : Option D)
    (junk subnode : ℕ) (Allowed : ℕ → Type 0) (P : W → Type 0)
    (frame : Frame net clock subnode Allowed P) where
  pub sw_get-Keeps : Keeps P (sw_get net catalog clock dict junk subnode)
  sw_get-Keeps s r s' p e =
      ground (arith, sw_get_lem net catalog clock dict junk subnode s, frame.reads s.world p)

  pub command-Keeps :
      (cmd : ℕ)
      → cmd < 2 ^ 16
      → Allowed cmd
      → Keeps P (command net catalog clock dict junk subnode cmd)
  command-Keeps cmd lt a s r s' p e = ground (
    arith,
    command_lem net catalog clock dict junk subnode cmd s lt,
    frame.writes cmd s.world a p,
  )

  wait_loop-Keeps :
      (polls start sw buff : ℕ) (timeout : ℤ)
      → Keeps P (wait_loop net catalog clock dict junk polls subnode timeout start sw buff)
  unfolding wait_loop
  wait_loop-Keeps zero start sw buff timeout s r s' p e = ground arith
  wait_loop-Keeps (suc n) start sw buff timeout s r s' p e =
      let w = (clock.gettime s.world).1 in
      let pw = frame.times s.world p in
      let answer = net.read subnode 0x11 2 w in
      ground (
        arith,
        pw,
        poll_lem net catalog clock dict junk subnode buff w,
        frame.reads w pw,
        wait_loop-Keeps n start sw (value_or buff answer.0) timeout (record s { world = answer.1 })
            r s' (frame.reads w pw),
      )

  start_time-Keeps : (timeout : ℤ) → Keeps P (start_time net catalog clock dict junk timeout)
  unfolding start_time
  start_time-Keeps timeout s r s' p e = ground (arith, frame.times s.world p)

  pub sw_wait_change-Keeps :
      (polls sw : ℕ) (timeout : ℤ)
      → Keeps P (sw_wait_change net catalog clock dict junk polls sw timeout subnode)
  unfolding sw_wait_change
  sw_wait_change-Keeps polls sw timeout =
      Keeps-bind P (start_time net catalog clock dict junk timeout) _ (start_time-Keeps timeout)
        (λ start s r s' p e. ground (
          arith,
          poll_lem net catalog clock dict junk subnode junk s.world,
          wait_loop-Keeps polls start sw (value_or junk (net.read subnode 0x11 2 s.world).0) timeout
              (record s { world = (net.read subnode 0x11 2 s.world).1 }) r s'
              (frame.reads s.world p),
        ))

  fault_reset_loop-Keeps :
      Allowed Cmd.dv
      → Allowed Cmd.fr
      → (n polls retries sw : ℕ) (timeout : ℤ)
      → Keeps P (fault_reset_loop net catalog clock dict junk n polls subnode timeout retries sw)
  unfolding fault_reset_loop
  fault_reset_loop-Keeps dv fr zero polls retries sw timeout = Keeps-none P
  fault_reset_loop-Keeps dv fr (suc n) polls retries sw timeout =
      Keeps-if P (is_faulty (state_decode sw)) _ (return (ok tt))
        (Keeps-if P (retries == fault_reset_retries) (return (err estate)) _
          (Keeps-return P (err estate))
          (Keeps-bind P (command net catalog clock dict junk subnode 0) _
            (command-Keeps 0 (omega arith) dv)
            (λ _.
              Keeps-bind P (command net catalog clock dict junk subnode Cmd.fr) _
                (command-Keeps Cmd.fr (omega arith) fr)
                (λ _.
                  Keeps-bind P (sw_wait_change net catalog clock dict junk polls sw timeout subnode)
                    _ (sw_wait_change-Keeps polls sw timeout)
                    (λ sw'. fault_reset_loop-Keeps dv fr n polls (retries + 1) sw' timeout)))))
        (Keeps-return P (ok tt))

  pub fault_reset-Keeps :
      Allowed Cmd.dv
      → Allowed Cmd.fr
      → (n polls : ℕ) (timeout : ℤ)
      → Keeps P (fault_reset net catalog clock dict junk n polls subnode timeout)
  unfolding fault_reset
  fault_reset-Keeps dv fr n polls timeout =
      Keeps-bind P (sw_get net catalog clock dict junk subnode) _ sw_get-Keeps
        (λ sw. fault_reset_loop-Keeps dv fr n polls 0 sw timeout)

  -- A command, the wait for a change, and then `k`: the body of the loops.
  pub round-Keeps :
      (cmd polls sw : ℕ) (timeout : ℤ) (k : ℕ → M W (Unit {0}))
      → cmd < 2 ^ 16
      → Allowed cmd
      → ((sw' : ℕ) → Keeps P (k sw'))
      → Keeps P (
          command net catalog clock dict junk subnode cmd >>= λ _.
          sw_wait_change net catalog clock dict junk polls sw timeout subnode >>= k)
  round-Keeps cmd polls sw timeout k lt a h =
      Keeps-bind P (command net catalog clock dict junk subnode cmd) _ (command-Keeps cmd lt a)
        (λ _.
          Keeps-bind P (sw_wait_change net catalog clock dict junk polls sw timeout subnode) k
            (sw_wait_change-Keeps polls sw timeout) h)

  -- A fault reset, a read of the statusword, and then `k`.
  pub reset-Keeps :
      (polls : ℕ) (timeout : ℤ) (k : ℕ → M W (Unit {0}))
      → Allowed Cmd.dv
      → Allowed Cmd.fr
      → ((sw' : ℕ) → Keeps P (k sw'))
      → Keeps P (
          fault_reset net catalog clock dict junk (suc fault_reset_retries) polls subnode timeout
          >>= λ _. sw_get net catalog clock dict junk subnode >>= k)
  reset-Keeps polls timeout k dv fr h =
      Keeps-bind P
        (fault_reset net catalog clock dict junk (suc fault_reset_retries) polls subnode timeout) _
        (fault_reset-Keeps dv fr (suc fault_reset_retries) polls timeout)
        (λ _. Keeps-bind P (sw_get net catalog clock dict junk subnode) k sw_get-Keeps h)
