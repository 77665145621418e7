-- ===== src/Access/Writes.antt =====
-- ingenialink/base/servo.c, the typed writes and `il_servo_base__write`.
use Prim.Native.String.{String}
use ingenialink.Base.{ℕ, Bool, false, Option, none, some, Result, ok, err, einval, if◌then◌else◌}
use ingenialink.Base.Int.{ℤ}
use ingenialink.Register.{Dtype, u8, s8, u16, s16, u32, s32, u64, s64, float, Reg}
use ingenialink.Port.{Net, Catalog}
use ingenialink.Access.{
  raw_write, raw_wait_write, get_reg, refused, out_of_range, out_of_range_signed, pattern_of,
}

-- The range is checked only if the caller gave the register: `if (reg != NULL)`.
pub rejects : ℕ → Option Reg → ℕ → Bool
unfolding out_of_range
rejects w none val = false
rejects w (some reg) val = out_of_range w reg val

pub rejects_signed : ℕ → Option Reg → ℤ → Bool
unfolding out_of_range_signed
rejects_signed w none val = false
rejects_signed w (some reg) val = out_of_range_signed w reg val

module _ {W D : Type 0} (net : Net W) (catalog : Catalog D) where
  unfoldable pub raw_write_u8 :
      Option D → Option Reg → String → ℕ → Bool → ℕ → ℕ → W → Result (Unit {0}) × W
  unfolding get_reg rejects raw_write
  raw_write_u8 dict reg id val confirm extended subnode w =
      elim (get_reg net catalog dict reg id subnode) [
        | err e ↦ refused e w
        | ok reg_ ↦
            if rejects 8 reg val
            then refused einval w
            else raw_write net catalog reg_ u8 val 1 confirm extended w
      ]

  unfoldable pub raw_write_s8 :
      Option D → Option Reg → String → ℤ → Bool → ℕ → ℕ → W → Result (Unit {0}) × W
  unfolding get_reg rejects_signed raw_write
  raw_write_s8 dict reg id val confirm extended subnode w =
      elim (get_reg net catalog dict reg id subnode) [
        | err e ↦ refused e w
        | ok reg_ ↦
            if rejects_signed 8 reg val
            then refused einval w
            else raw_write net catalog reg_ s8 (pattern_of 8 val) 1 confirm extended w
      ]

  unfoldable pub raw_write_u16 :
      Option D → Option Reg → String → ℕ → Bool → ℕ → ℕ → W → Result (Unit {0}) × W
  unfolding get_reg rejects raw_write
  raw_write_u16 dict reg id val confirm extended subnode w =
      elim (get_reg net catalog dict reg id subnode) [
        | err e ↦ refused e w
        | ok reg_ ↦
            if rejects 16 reg val
            then refused einval w
            else raw_write net catalog reg_ u16 val 2 confirm extended w
      ]

  unfoldable pub raw_write_s16 :
      Option D → Option Reg → String → ℤ → Bool → ℕ → ℕ → W → Result (Unit {0}) × W
  unfolding get_reg rejects_signed raw_write
  raw_write_s16 dict reg id val confirm extended subnode w =
      elim (get_reg net catalog dict reg id subnode) [
        | err e ↦ refused e w
        | ok reg_ ↦
            if rejects_signed 16 reg val
            then refused einval w
            else raw_write net catalog reg_ s16 (pattern_of 16 val) 2 confirm extended w
      ]

  unfoldable pub raw_write_u32 :
      Option D → Option Reg → String → ℕ → Bool → ℕ → ℕ → W → Result (Unit {0}) × W
  unfolding get_reg rejects raw_write
  raw_write_u32 dict reg id val confirm extended subnode w =
      elim (get_reg net catalog dict reg id subnode) [
        | err e ↦ refused e w
        | ok reg_ ↦
            if rejects 32 reg val
            then refused einval w
            else raw_write net catalog reg_ u32 val 4 confirm extended w
      ]

  unfoldable pub raw_write_s32 :
      Option D → Option Reg → String → ℤ → Bool → ℕ → ℕ → W → Result (Unit {0}) × W
  unfolding get_reg rejects_signed raw_write
  raw_write_s32 dict reg id val confirm extended subnode w =
      elim (get_reg net catalog dict reg id subnode) [
        | err e ↦ refused e w
        | ok reg_ ↦
            if rejects_signed 32 reg val
            then refused einval w
            else raw_write net catalog reg_ s32 (pattern_of 32 val) 4 confirm extended w
      ]

  unfoldable pub raw_write_u64 :
      Option D → Option Reg → String → ℕ → Bool → ℕ → ℕ → W → Result (Unit {0}) × W
  unfolding get_reg rejects raw_write
  raw_write_u64 dict reg id val confirm extended subnode w =
      elim (get_reg net catalog dict reg id subnode) [
        | err e ↦ refused e w
        | ok reg_ ↦
            if rejects 64 reg val
            then refused einval w
            else raw_write net catalog reg_ u64 val 8 confirm extended w
      ]

  unfoldable pub raw_write_s64 :
      Option D → Option Reg → String → ℤ → Bool → ℕ → ℕ → W → Result (Unit {0}) × W
  unfolding get_reg rejects_signed raw_write
  raw_write_s64 dict reg id val confirm extended subnode w =
      elim (get_reg net catalog dict reg id subnode) [
        | err e ↦ refused e w
        | ok reg_ ↦
            if rejects_signed 64 reg val
            then refused einval w
            else raw_write net catalog reg_ s64 (pattern_of 64 val) 8 confirm extended w
      ]

  unfoldable pub raw_wait_write_u32 :
      Option D → Option Reg → String → ℕ → Bool → ℕ → ℕ → W → Result (Unit {0}) × W
  unfolding get_reg rejects raw_wait_write
  raw_wait_write_u32 dict reg id val confirm extended subnode w =
      elim (get_reg net catalog dict reg id subnode) [
        | err e ↦ refused e w
        | ok reg_ ↦
            if rejects 32 reg val
            then refused einval w
            else raw_wait_write net catalog reg_ u32 val 4 confirm extended w
      ]

  -- Floats are written with no check of the range.
  unfoldable pub raw_write_float :
      Option D → Option Reg → String → ℕ → Bool → ℕ → ℕ → W → Result (Unit {0}) × W
  unfolding get_reg raw_write
  raw_write_float dict reg id val confirm extended subnode w =
      elim (get_reg net catalog dict reg id subnode) [
        | err e ↦ refused e w
        | ok reg_ ↦ raw_write net catalog reg_ float val 4 confirm extended w
      ]

-- The conversions of a `double` by casts, which C leaves to the platform.
pub record Casts (F : Type 0) : Type 0 where
  pub to_unsigned : ℕ → F → ℕ
  pub to_signed : ℕ → F → ℤ
  pub to_float : F → ℕ

module _ {W D F : Type 0} (net : Net W) (catalog : Catalog D) (casts : Casts F) where
  -- The switch of `il_servo_base__write` over the register's type.
  unfoldable pub write_by_dtype :
      Option D → Reg → ℕ → Dtype → F → Bool → ℕ → W → Result (Unit {0}) × W
  unfolding raw_write_u8 raw_write_s8 raw_write_u16 raw_write_s16 raw_write_u32 raw_write_s32
      raw_write_u64 raw_write_s64 raw_write_float
  write_by_dtype dict reg subnode u8 val confirm extended w =
      raw_write_u8 net catalog dict (some reg) "" (casts.to_unsigned 8 val) confirm extended subnode
        w
  write_by_dtype dict reg subnode s8 val confirm extended w =
      raw_write_s8 net catalog dict (some reg) "" (casts.to_signed 8 val) confirm extended subnode w
  write_by_dtype dict reg subnode u16 val confirm extended w =
      raw_write_u16 net catalog dict (some reg) "" (casts.to_unsigned 16 val) confirm extended
        subnode w
  write_by_dtype dict reg subnode s16 val confirm extended w =
      raw_write_s16 net catalog dict (some reg) "" (casts.to_signed 16 val) confirm extended subnode
        w
  write_by_dtype dict reg subnode u32 val confirm extended w =
      raw_write_u32 net catalog dict (some reg) "" (casts.to_unsigned 32 val) confirm extended
        subnode w
  write_by_dtype dict reg subnode s32 val confirm extended w =
      raw_write_s32 net catalog dict (some reg) "" (casts.to_signed 32 val) confirm extended subnode
        w
  write_by_dtype dict reg subnode u64 val confirm extended w =
      raw_write_u64 net catalog dict (some reg) "" (casts.to_unsigned 64 val) confirm extended
        subnode w
  write_by_dtype dict reg subnode s64 val confirm extended w =
      raw_write_s64 net catalog dict (some reg) "" (casts.to_signed 64 val) confirm extended subnode
        w
  write_by_dtype dict reg subnode float val confirm extended w =
      raw_write_float net catalog dict (some reg) "" (casts.to_float val) confirm extended subnode w
  write_by_dtype dict reg subnode _ val confirm extended w = refused einval w

  unfoldable pub write :
      Option D → Option Reg → String → F → Bool → ℕ → ℕ → W → Result (Unit {0}) × W
  unfolding get_reg write_by_dtype
  write dict reg id val confirm extended subnode w =
      elim (get_reg net catalog dict reg id subnode) [
        | err e ↦ refused e w
        | ok reg_ ↦ write_by_dtype dict reg_ subnode reg_.dtype val confirm extended w
      ]
