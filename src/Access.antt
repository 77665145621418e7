-- ===== src/Access.antt =====
-- ingenialink/base/servo.c, access to the registers of a drive: `get_reg`, `raw_read`, `raw_write` and
-- the typed functions over them. The host is little-endian (`IL_BIG_ENDIAN` is not defined), so
-- `__swap_be_*` is the identity. Signed values are integers, floats are bit patterns.
pub mod Reads
pub mod Writes
pub mod Guard
mod Tests
use Prim.Native.String.{String}
use ingenialink.Base.{
  ℕ, ◌+◌, ◌-◌, ◌*◌, ◌^◌, ◌%◌, Bool, true, false, ◌||◌, Option, none, some, Result, ok, err, Error,
  efail, einval, eaccess, ltb, if◌then◌else◌, ◌>>=◌, ◌>>◌,
}
use ingenialink.Base.Int.{ℤ, pos, negsuc, signed, ltb_ℤ}
use ingenialink.Register.{
  Dtype, u8, s8, u16, s16, u32, s32, u64, s64, float, float64, str, Access, read_only, write_only,
  Reg,
}
use ingenialink.Port.{Net, Catalog}

-- Comparison of two data types.
pub dtype_eq : Dtype → Dtype → Bool
dtype_eq u8 u8 = true
dtype_eq s8 s8 = true
dtype_eq u16 u16 = true
dtype_eq s16 s16 = true
dtype_eq u32 u32 = true
dtype_eq s32 s32 = true
dtype_eq u64 u64 = true
dtype_eq s64 s64 = true
dtype_eq float float = true
dtype_eq float64 float64 = true
dtype_eq str str = true
dtype_eq _ _ = false

-- The checks of `raw_read` on the register.
pub check_read : Reg → Dtype → Result (Unit {0})
unfolding dtype_eq
check_read reg dtype =
    if dtype_eq reg.dtype dtype
    then elim reg.access [ write_only ↦ err eaccess | _ ↦ ok tt ]
    else err einval

-- The checks of `raw_write` on the register.
pub check_write : Reg → Dtype → Result (Unit {0})
unfolding dtype_eq
check_write reg dtype =
    if dtype_eq reg.dtype dtype
    then elim reg.access [ read_only ↦ err eaccess | _ ↦ ok tt ]
    else err einval

-- No confirmation is asked of a write-only register.
abbrev pub confirmation : Reg → Bool → Bool
confirmation reg confirmed = elim reg.access [ write_only ↦ false | _ ↦ confirmed ]

-- A call that was refused before it reached the network.
abbrev pub refused {ℓ} : {A : Type ℓ} {W : Type 0} → Error → W → Result A × W
refused e w = (err e, w)

-- A value below the range's minimum or above its maximum, for an unsigned and for a signed register
-- of `w` bits.
pub out_of_range : ℕ → Reg → ℕ → Bool
out_of_range w reg val = ltb val (reg.range_min % 2 ^ w) || ltb (reg.range_max % 2 ^ w) val

pub out_of_range_signed : ℕ → Reg → ℤ → Bool
out_of_range_signed w reg val =
    ltb_ℤ val (signed w (reg.range_min % 2 ^ w)) || ltb_ℤ (signed w (reg.range_max % 2 ^ w)) val

-- The bit pattern of a signed value of `w` bits.
abbrev pub pattern_of : ℕ → ℤ → ℕ
pattern_of w (pos n) = n
pattern_of w (negsuc n) = 2 ^ w - n - 1

-- What a read stored, before its conversion to `double`.
pub data Reading : Type 0 where
  unsigned : ℕ → Reading
  integer : ℤ → Reading
  float_bits : ℕ → Reading

abbrev pub map_fst {ℓ κ} :
    {A : Type ℓ} {B : Type κ} {W : Type 0} → (A → B) → Result A × W → Result B × W
map_fst f (ok a, w) = (ok (f a), w)
map_fst f (err e, w) = (err e, w)

module _ {W D : Type 0} (net : Net W) (catalog : Catalog D) where
  pub get_reg : Option D → Option Reg → String → ℕ → Result Reg
  get_reg dict (some reg) id subnode = ok reg
  get_reg none none id subnode = err efail
  get_reg (some d) none id subnode = catalog.reg_get d id subnode

  pub raw_read : Option D → Option Reg → String → Dtype → ℕ → ℕ → W → Result ℕ × W
  unfolding get_reg check_read
  raw_read dict pdef id dtype sz subnode w =
      elim (do reg ← get_reg dict pdef id subnode; check_read reg dtype; ok reg) [
        | err e ↦ refused e w
        | ok reg ↦ net.read reg.subnode reg.address sz w
      ]

  pub raw_write : Reg → Dtype → ℕ → ℕ → Bool → ℕ → W → Result (Unit {0}) × W
  unfolding check_write
  raw_write reg dtype data_ sz confirmed extended w = elim (check_write reg dtype) [
    | err e ↦ refused e w
    | ok _ ↦ net.write reg.subnode reg.address data_ sz (confirmation reg confirmed) extended w
  ]

  pub raw_wait_write : Reg → Dtype → ℕ → ℕ → Bool → ℕ → W → Result (Unit {0}) × W
  unfolding check_write
  raw_wait_write reg dtype data_ sz confirmed extended w = elim (check_write reg dtype) [
    | err e ↦ refused e w
    | ok _ ↦ net.wait_write reg.subnode reg.address data_ sz (confirmation reg confirmed) extended w
  ]
