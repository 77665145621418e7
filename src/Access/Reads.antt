-- ===== src/Access/Reads.antt =====
-- ingenialink/base/servo.c, the typed reads and `il_servo_base__read`.
use Prim.Native.String.{String}
use ingenialink.Base.{ℕ, Option, some, Result, ok, err, einval}
use ingenialink.Base.Int.{ℤ, signed}
use ingenialink.Register.{Dtype, u8, s8, u16, s16, u32, s32, u64, s64, float, float64, str, Reg}
use ingenialink.Port.{Net, Catalog}
use ingenialink.Access.{raw_read, get_reg, map_fst, refused, Reading, unsigned, integer, float_bits}

module _ {W D : Type 0} (net : Net W) (catalog : Catalog D) where
  unfoldable pub raw_read_u8 : Option D → Option Reg → String → ℕ → W → Result ℕ × W
  unfolding raw_read
  raw_read_u8 dict reg id subnode w = raw_read net catalog dict reg id u8 1 subnode w

  unfoldable pub raw_read_s8 : Option D → Option Reg → String → ℕ → W → Result ℤ × W
  unfolding raw_read
  raw_read_s8 dict reg id subnode w =
      map_fst (signed 8) (raw_read net catalog dict reg id s8 1 subnode w)

  unfoldable pub raw_read_u16 : Option D → Option Reg → String → ℕ → W → Result ℕ × W
  unfolding raw_read
  raw_read_u16 dict reg id subnode w = raw_read net catalog dict reg id u16 2 subnode w

  unfoldable pub raw_read_s16 : Option D → Option Reg → String → ℕ → W → Result ℤ × W
  unfolding raw_read
  raw_read_s16 dict reg id subnode w =
      map_fst (signed 16) (raw_read net catalog dict reg id s16 2 subnode w)

  unfoldable pub raw_read_u32 : Option D → Option Reg → String → ℕ → W → Result ℕ × W
  unfolding raw_read
  raw_read_u32 dict reg id subnode w = raw_read net catalog dict reg id u32 4 subnode w

  unfoldable pub raw_read_str : Option D → Option Reg → String → ℕ → W → Result ℕ × W
  unfolding raw_read
  raw_read_str dict reg id subnode w = raw_read net catalog dict reg id str 4 subnode w

  unfoldable pub raw_read_s32 : Option D → Option Reg → String → ℕ → W → Result ℤ × W
  unfolding raw_read
  raw_read_s32 dict reg id subnode w =
      map_fst (signed 32) (raw_read net catalog dict reg id s32 4 subnode w)

  unfoldable pub raw_read_u64 : Option D → Option Reg → String → ℕ → W → Result ℕ × W
  unfolding raw_read
  raw_read_u64 dict reg id subnode w = raw_read net catalog dict reg id u64 8 subnode w

  unfoldable pub raw_read_s64 : Option D → Option Reg → String → ℕ → W → Result ℤ × W
  unfolding raw_read
  raw_read_s64 dict reg id subnode w =
      map_fst (signed 64) (raw_read net catalog dict reg id s64 8 subnode w)

  unfoldable pub raw_read_float : Option D → Option Reg → String → ℕ → W → Result ℕ × W
  unfolding raw_read
  raw_read_float dict reg id subnode w = raw_read net catalog dict reg id float 4 subnode w

  -- The switch of `il_servo_base__read` over the register's type.
  unfoldable pub read_by_dtype : Option D → Reg → ℕ → Dtype → W → Result Reading × W
  unfolding raw_read_u8 raw_read_s8 raw_read_u16 raw_read_s16 raw_read_u32 raw_read_s32 raw_read_u64
      raw_read_s64 raw_read_float raw_read_str
  read_by_dtype dict reg subnode u8 w = map_fst unsigned (raw_read_u8 dict (some reg) "" subnode w)
  read_by_dtype dict reg subnode s8 w = map_fst integer (raw_read_s8 dict (some reg) "" subnode w)
  read_by_dtype dict reg subnode u16 w =
      map_fst unsigned (raw_read_u16 dict (some reg) "" subnode w)
  read_by_dtype dict reg subnode s16 w = map_fst integer (raw_read_s16 dict (some reg) "" subnode w)
  read_by_dtype dict reg subnode u32 w =
      map_fst unsigned (raw_read_u32 dict (some reg) "" subnode w)
  read_by_dtype dict reg subnode s32 w = map_fst integer (raw_read_s32 dict (some reg) "" subnode w)
  read_by_dtype dict reg subnode u64 w =
      map_fst unsigned (raw_read_u64 dict (some reg) "" subnode w)
  read_by_dtype dict reg subnode s64 w = map_fst integer (raw_read_s64 dict (some reg) "" subnode w)
  read_by_dtype dict reg subnode float w =
      map_fst float_bits (raw_read_float dict (some reg) "" subnode w)
  read_by_dtype dict reg subnode str w =
      map_fst unsigned (raw_read_str dict (some reg) "" subnode w)
  read_by_dtype dict reg subnode float64 w = refused einval w

  unfoldable pub read : Option D → Option Reg → String → ℕ → W → Result Reading × W
  unfolding get_reg read_by_dtype
  read dict reg id subnode w = elim (get_reg net catalog dict reg id subnode) [
    | err e ↦ refused e w
    | ok reg_ ↦ read_by_dtype dict reg_ subnode reg_.dtype w
  ]
