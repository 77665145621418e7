-- ===== src/Access/Guard.antt =====
-- What the register checks of ingenialink/base/servo.c let through to the network.
use Prim.Native.String.{String}
use ingenialink.Base.{
  ℕ, ◌-◌, ◌^◌, ◌%◌, ◌≤◌, ◌<◌, ◌≡◌, ◌≢◌, ◌⊎◌, Bool, true, false, Option, none, some, Result, ok, err,
  einval, eaccess, arith,
}
use ingenialink.Base.Int.{ℤ, pos, negsuc, signed, ◌≤ℤ◌}
use ingenialink.Register.{Dtype, u16, s32, read_write, read_only, Reg}
use ingenialink.Port.{Net, Catalog}
use ingenialink.Access.{check_write, dtype_eq, confirmation, pattern_of}
use ingenialink.Access.Reads.{raw_read_s32}
use ingenialink.Access.Writes.{raw_write_u16, raw_write_s32}

-- What a write to a given register does, by its three outcomes: `IL_EINVAL` exactly for a register of
-- another type or a value outside the range, else `IL_EACCESS` for a read-only register, both with the
-- network as it was, else the network's write.
abbrev pub Guarded :
    {W : Type 0}
    → Net W
    → Reg
    → Dtype
    → Type 0
    → Type 0
    → ℕ
    → ℕ
    → Bool
    → ℕ
    → W
    → Result (Unit {0}) × W
    → Type 0
Guarded net reg d inside outside val sz confirm extended w r =
    (((dtype_eq reg.dtype d ≡ false) ⊎ outside) × (r ≡ (err einval, w)))
    ⊎ ((dtype_eq reg.dtype d ≡ true) × inside × (reg.access ≡ read_only) × (r ≡ (err eaccess, w)))
    ⊎ ((dtype_eq reg.dtype d ≡ true)
        × inside
        × (reg.access ≢ read_only)
        × (r ≡ net.write reg.subnode reg.address val sz (confirmation reg confirm) extended w))

module _ {W D : Type 0} (net : Net W) (catalog : Catalog D) where
  -- A write of a 16-bit unsigned value to a given register is refused with `IL_EINVAL` if the register
  -- has another type or the value lies outside its range, else with `IL_EACCESS` if the register is
  -- read-only, and in both cases leaves the network as it was; else its result is that of the network's
  -- write of the value to the register's address.
  pub raw_write_u16-Guarded :
      (dict : Option D) (reg : Reg) (id : String) (val extended subnode : ℕ) (confirm : Bool)
      (w : W)
      → Guarded net reg u16
          ((reg.range_min % 2 ^ 16 ≤ val) × (val ≤ reg.range_max % 2 ^ 16))
          ((val < reg.range_min % 2 ^ 16) ⊎ (reg.range_max % 2 ^ 16 < val))
          val
          2
          confirm
          extended
          w
          (raw_write_u16 net catalog dict (some reg) id val confirm extended subnode w)
  unfolding raw_write_u16 check_write
  raw_write_u16-Guarded dict reg id val extended subnode confirm w = ground arith

  -- The same for a 32-bit signed value, whose range is compared as signed and whose two's complement
  -- pattern is written.
  pub raw_write_s32-Guarded :
      (dict : Option D) (reg : Reg) (id : String) (val : ℤ) (extended subnode : ℕ) (confirm : Bool)
      (w : W)
      → Guarded net reg s32
          ((signed 32 (reg.range_min % 2 ^ 32) ≤ℤ val)
            × (val ≤ℤ signed 32 (reg.range_max % 2 ^ 32)))
          (¬ (signed 32 (reg.range_min % 2 ^ 32) ≤ℤ val)
            ⊎ ¬ (val ≤ℤ signed 32 (reg.range_max % 2 ^ 32)))
          (pattern_of 32 val)
          4
          confirm
          extended
          w
          (raw_write_s32 net catalog dict (some reg) id val confirm extended subnode w)
  unfolding raw_write_s32 check_write
  raw_write_s32-Guarded dict reg id val extended subnode confirm w = ground arith

  -- The range is not checked when the register is looked up by its id: whatever the range of the register
  -- that the dictionary holds, a writable 16-bit register is written with any value.
  pub raw_write_u16_by_id-unchecked :
      (d : D) (reg : Reg) (id : String) (val extended subnode : ℕ) (confirm : Bool) (w : W)
      → catalog.reg_get d id subnode ≡ ok reg
      → reg.dtype ≡ u16
      → reg.access ≢ read_only
      → raw_write_u16 net catalog (some d) none id val confirm extended subnode w
        ≡ net.write reg.subnode reg.address val 2 (confirmation reg confirm) extended w
  unfolding raw_write_u16 check_write
  raw_write_u16_by_id-unchecked d reg id val extended subnode confirm w e t a = ground arith

-- A network that answers a read of a register with what was last written there.
abbrev pub Remembers : {W : Type 0} → Net W → Type 0
Remembers {W} net =
    (subnode address val sz extended : ℕ) (confirm : Bool) (w : W)
    → val < 256 ^ sz
    → net.read subnode address sz (net.write subnode address val sz confirm extended w).1
      ≡ (ok val, (net.write subnode address val sz confirm extended w).1)

signed-pattern_of :
    (val : ℤ)
    → negsuc (2 ^ 31 - 1) ≤ℤ val
    → val ≤ℤ pos (2 ^ 31 - 1)
    → signed 32 (pattern_of 32 val) ≡ val
signed-pattern_of (pos n) lo hi = ground arith
signed-pattern_of (negsuc n) lo hi = ground arith

pattern_of-lt :
    (val : ℤ) → negsuc (2 ^ 31 - 1) ≤ℤ val → val ≤ℤ pos (2 ^ 31 - 1) → pattern_of 32 val < 256 ^ 4
pattern_of-lt (pos n) lo hi = omega arith
pattern_of-lt (negsuc n) lo hi = omega arith

module _ {W D : Type 0} (net : Net W) (catalog : Catalog D) (remembers : Remembers net) where
  -- Over a network that answers a read with what was last written: a 32-bit signed value within
  -- `int32_t` that a register of that type, readable and writable, admits is read back as it was
  -- written, negative values included.
  pub read-write_s32 :
      (dict : Option D) (reg : Reg) (id : String) (val : ℤ) (extended subnode : ℕ) (confirm : Bool)
      (w : W)
      → reg.dtype ≡ s32
      → reg.access ≡ read_write
      → signed 32 (reg.range_min % 2 ^ 32) ≤ℤ val
      → val ≤ℤ signed 32 (reg.range_max % 2 ^ 32)
      → negsuc (2 ^ 31 - 1) ≤ℤ val
      → val ≤ℤ pos (2 ^ 31 - 1)
      → (raw_read_s32 net catalog dict
          (some reg)
          id
          subnode
          (raw_write_s32 net catalog dict (some reg) id val confirm extended subnode w).1).0
        ≡ ok val
  unfolding raw_read_s32 raw_write_s32
  read-write_s32 dict reg id val extended subnode confirm w t a lo hi min_lo max_hi = ground (
    arith,
    signed-pattern_of val min_lo max_hi,
    remembers reg.subnode reg.address (pattern_of 32 val) 4 extended confirm w
        (pattern_of-lt val min_lo max_hi),
  )
