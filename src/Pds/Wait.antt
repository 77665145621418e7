-- ===== src/Pds/Wait.antt =====
-- The wait for a value of the statusword, `sw_wait_value` and `il_eth_servo_wait_reached` of
-- ingenialink/eth/servo.c, and `il_eth_servo_store_all`.
use ingenialink.Base.{
  ℕ, zero, suc, ◌^◌, bit_and, true, Option, none, some, Result, ok, err, efail, etimedout, ◌==◌,
  ◌≡◌, inl, inr, Bool-cases, if◌then◌else◌, arith,
}
use ingenialink.Register.{store_all}
use ingenialink.Port.{Net, Catalog}
use ingenialink.Access.Writes.{raw_wait_write_u32}
use ingenialink.Pds.Control.{Servo}

-- How a wait for the condition ends.
pub data Wakeup : Type 0 where
  signalled timed_out failed : Wakeup

-- `osal_cond_wait` is a parameter: it releases the lock of the statusword, so the statusword behind it may
-- be another.
module _ {W : Type 0} (cond_wait : Servo W → Wakeup × Servo W) where
  -- Each round is one of the fuel; `none` if it ran out.
  unfoldable pub sw_wait_value : ℕ → ℕ → ℕ → Servo W → Option (Result (Unit {0}) × Servo W)
  sw_wait_value zero msk val s = none
  sw_wait_value (suc fuel) msk val s =
      if bit_and s.sw msk == val
      then some (ok tt, s)
      else let (wakeup, s1) = cond_wait s in
        elim wakeup [
          | timed_out ↦ some (err etimedout, s1)
          | failed ↦ some (err efail, s1)
          | signalled ↦ sw_wait_value fuel msk val s1
        ]

  unfoldable pub wait_reached : ℕ → Servo W → Option (Result (Unit {0}) × Servo W)
  unfolding sw_wait_value
  wait_reached fuel s = sw_wait_value fuel (2 ^ 10) (2 ^ 10) s

module _ {W D : Type 0} (net : Net W) (catalog : Catalog D) (dict : Option D) where
  unfoldable pub servo_store_all : ℕ → W → Result (Unit {0}) × W
  unfolding raw_wait_write_u32
  servo_store_all subnode w =
      raw_wait_write_u32 net catalog dict (some (record store_all { subnode = subnode })) ""
        0x65766173 true 0 subnode w

  -- Storing all writes the word `save` to the register of the axis and waits for the drive.
  servo_store_all-writes :
      (subnode : ℕ) (w : W)
      → servo_store_all subnode w ≡ net.wait_write subnode 0x06db 0x65766173 4 true 0 w
  unfolding servo_store_all raw_wait_write_u32
  servo_store_all-writes subnode w = ground arith

module _ {W : Type 0} (cond_wait : Servo W → Wakeup × Servo W) (msk val : ℕ) where
  -- The statusword behind `k` wakeups, while each is signalled.
  abbrev pub woken : ℕ → Servo W → Servo W
  woken zero s = s
  woken (suc k) s = woken k (cond_wait s).1

  abbrev pub AllSignalled : ℕ → Servo W → Type 0
  AllSignalled zero s = Unit
  AllSignalled (suc k) s = ((cond_wait s).0 ≡ signalled) × AllSignalled k (cond_wait s).1

  -- If `k` wakeups in a row are signalled and the statusword behind the last of them has the value, then
  -- `k + 1` rounds are enough: the wait succeeds, and the statusword it leaves has the value.
  pub sw_wait_value-reached :
      (k : ℕ) (s : Servo W)
      → AllSignalled k s
      → bit_and (woken k s).sw msk ≡ val
      → (s' : Servo W) × (sw_wait_value cond_wait (suc k) msk val s ≡ some (ok tt, s'))
        × (bit_and s'.sw msk ≡ val)
  unfolding sw_wait_value
  sw_wait_value-reached zero s a e = (s, ground (arith, e), e)
  sw_wait_value-reached (suc k) s a e = elim (Bool-cases (bit_and s.sw msk == val)) [
    | inl q ↦ (s, ground (arith, q), ground (arith, q))
    | inr q ↦
        let (s', r, h) = sw_wait_value-reached k (cond_wait s).1 a.1 e in
        (s', ground (arith, q, r, a.0), h)
  ]
