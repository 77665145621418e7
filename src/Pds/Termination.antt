-- ===== src/Pds/Termination.antt =====
-- `il_eth_servo_fault_reset` of ingenialink/eth/servo.c ends after its retries.
use ingenialink.Base.{
  ℕ, zero, suc, ◌+◌, ◌<◌, ◌≤◌, ◌≢◌, Option, none, some, Result, ok, err, refl, ◌^◌, arith,
  Bool-cases, inl, inr, ◌==◌,
}
use ingenialink.Base.Int.{ℤ}
use ingenialink.Port.{Net, Catalog, Clock}
use ingenialink.Pds.{state_decode}
use ingenialink.Pds.Cmd
use ingenialink.Pds.Control.{
  Servo, M, sw_get, sw_wait_change, command, fault_reset, fault_reset_loop, is_faulty,
  fault_reset_retries,
}
use ingenialink.Pds.Io.{command_lem, sw_get_lem}

bind_returns :
    {W A B : Type 0} (f : A → M W B) (o : Option (Result A × Servo W))
    → o ≢ none
    → ((a : A) (s' : Servo W) → f a s' ≢ none)
    → (elim o [ none ↦ none | some (r, s1) ↦ elim r [ ok a ↦ f a s1 | err e ↦ some (err e, s1) ] ])
      ≢ none
bind_returns f none h k = absurd (h refl)
bind_returns f (some (ok a, s1)) h k = k a s1
bind_returns f (some (err e, s1)) h k = λ p. ground arith

module _ {W D : Type 0} (net : Net W) (catalog : Catalog D) (clock : Clock W) (dict : Option D)
    (junk subnode polls : ℕ) (timeout : ℤ)
    (waits_end : (sw : ℕ) (s : Servo W)
      → sw_wait_change net catalog clock dict junk polls sw timeout subnode s ≢ none) where
  command_returns :
      (cmd : ℕ) (s : Servo W)
      → cmd < 2 ^ 16
      → command net catalog clock dict junk subnode cmd s ≢ none
  command_returns cmd s lt =
      λ p. ground (arith, p, command_lem net catalog clock dict junk subnode cmd s lt)

  loop_returns :
      (n retries sw : ℕ) (s : Servo W)
      → retries ≤ 20
      → 20 < n + retries
      → fault_reset_loop net catalog clock dict junk n polls subnode timeout retries sw s ≢ none
  unfolding fault_reset_loop
  loop_returns zero retries sw s h k = absurd (omega arith)
  loop_returns (suc n) retries sw s h k = elim (Bool-cases (is_faulty (state_decode sw))) [
    | inr e ↦ λ p. ground (arith, e, p)
    | inl e ↦ elim (Bool-cases (retries == fault_reset_retries)) [
      | inl r ↦ λ p. ground (arith, e, r, p)
      | inr r ↦ λ p.
          bind_returns _ (command net catalog clock dict junk subnode 0 s)
            (command_returns 0 s (omega arith))
            (λ _ s1.
              bind_returns _ (command net catalog clock dict junk subnode Cmd.fr s1)
                (command_returns Cmd.fr s1 (omega arith))
                (λ _ s2.
                  bind_returns _
                    (sw_wait_change net catalog clock dict junk polls sw timeout subnode s2)
                    (waits_end sw s2)
                    (λ sw' s3.
                      loop_returns n (retries + 1) sw' s3 (ground (arith, r)) (omega arith))))
            (ground (arith, e, r, p))
    ]
  ]

  -- If the waits for a change end, `fault_reset` returns within 21 rounds, its 20 retries and the look at
  -- the last statusword, with success or an error, whatever the drive does.
  pub fault_reset-returns :
      (s : Servo W)
      → fault_reset net catalog clock dict junk (suc fault_reset_retries) polls subnode timeout s
        ≢ none
  unfolding fault_reset
  fault_reset-returns s =
      bind_returns (fault_reset_loop net catalog clock dict junk 21 polls subnode timeout 0)
        (sw_get net catalog clock dict junk subnode s)
        (λ p. ground (arith, p, sw_get_lem net catalog clock dict junk subnode s))
        (λ sw s1. loop_returns 21 0 sw s1 (omega arith) (omega arith))
