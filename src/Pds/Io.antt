-- ===== src/Pds/Io.antt =====
-- What the primitive steps of Pds/Control.antt do to the network: a read of the statusword and a
-- write of the controlword, as calls of the network's operations.
use ingenialink.Base.{
  ℕ, ◌<◌, ◌^◌, true, some, Option, ok, err, Result, Result-cases, ◌≡◌, inl, inr, arith,
}
use ingenialink.Port.{Net, Catalog, Clock}
use ingenialink.Access.Reads.{raw_read_u16, read}
use ingenialink.Access.Writes.{raw_write_u16}
use ingenialink.Pds.Control.{Servo, sw_get, poll, command}

-- The value read, or what the variable held before.
abbrev pub value_or : ℕ → Result ℕ → ℕ
value_or junk (ok v) = v
value_or junk (err _) = junk

module _ {W D : Type 0} (net : Net W) (catalog : Catalog D) (clock : Clock W) (dict : Option D)
    (junk : ℕ) where
  pub command_lem :
      (subnode cmd : ℕ) (s : Servo W)
      → cmd < 2 ^ 16
      → command net catalog clock dict junk subnode cmd s
        ≡ some (
          (net.write subnode 0x10 cmd 2 true 0 s.world).0,
          record s { world = (net.write subnode 0x10 cmd 2 true 0 s.world).1 },
        )
  unfolding command raw_write_u16
  command_lem subnode cmd s lt = ground arith

  pub sw_get_lem :
      (subnode : ℕ) (s : Servo W)
      → sw_get net catalog clock dict junk subnode s ≡ (
          let (r, w) = net.read subnode 0x11 2 s.world in
          some (ok (value_or junk r), record { sw = value_or junk r; world = w }))
  unfolding sw_get read raw_read_u16
  sw_get_lem subnode s = elim (Result-cases (net.read subnode 0x11 2 s.world).0) [
    | inl (v, e) ↦ ground (arith, e)
    | inr (c, e) ↦ ground (arith, e)
  ]

  pub poll_lem :
      (subnode buff : ℕ) (w : W)
      → poll net catalog clock dict junk subnode buff w
        ≡ (let (r, w') = net.read subnode 0x11 2 w in (value_or buff r, w'))
  unfolding raw_read_u16
  poll_lem subnode buff w = ground arith
