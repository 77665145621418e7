-- ===== src/Storage/Restore.antt =====
-- The writing of the stored values to a drive, `il_servo_dict_storage_write` of ingenialink/servo.c.
use Prim.Native.String.{String}
use ingenialink.Base.{
  ℕ, zero, suc, ◌+◌, ◌%◌, ◌^◌, Bool, true, Option, none, some, Result, err, efail, List, [], ◌∷◌,
  length, get_elem?, ltb, ◌==◌, if◌then◌else◌,
}
use ingenialink.Base.Int.{signed}
use ingenialink.Register.{Dtype, u8, s8, u16, s16, u32, s32, u64, s64, float, float64, str, Reg}
use ingenialink.Port.{Net}
use ingenialink.Access.Writes.{
  raw_write_u8, raw_write_s8, raw_write_u16, raw_write_s16, raw_write_u32, raw_write_s32,
  raw_write_u64, raw_write_s64, raw_write_float,
}
use ingenialink.Storage.{Entry, Dict, find, catalog, reg_ids_get, is_rw}

-- The first of `n` subnodes from `j` with registers; `none` if none has, where the source returns no
-- value, or if one has no table.
unfoldable pub first_filled : ℕ → ℕ → Dict → Option ℕ
first_filled zero j dict = none
first_filled (suc n) j dict =
    let rest = first_filled n (j + 1) dict in
    elim (get_elem? dict (j % 2 ^ 8)) [
      | none ↦ none
      | some t ↦ if ltb 0 (length t) then some j else rest
    ]

unfoldable pub dict_get_subnode : ℕ → Dict → ℕ → Option ℕ
unfolding first_filled
dict_get_subnode subnodes dict subnode = elim (get_elem? dict (subnode % 2 ^ 8)) [
  | none ↦ none
  | some t ↦ if length t == 0 then first_filled (subnodes + 1) 0 dict else some subnode
]

module _ {W : Type 0} (net : Net W) where
  -- The switch over the type; `none` for a type that it passes over.
  unfoldable pub write_value : Dtype → Reg → String → ℕ → W → Option (Result (Unit {0}) × W)
  unfolding raw_write_u8 raw_write_s8 raw_write_u16 raw_write_s16 raw_write_u32 raw_write_s32
      raw_write_u64 raw_write_s64 raw_write_float
  write_value u8 reg id j w =
      some (raw_write_u8 net catalog none (some reg) id (reg.storage % 2 ^ 8) true 0 j w)
  write_value s8 reg id j w =
      some (raw_write_s8 net catalog none (some reg) id (signed 8 (reg.storage % 2 ^ 8)) true 0 j w)
  write_value u16 reg id j w =
      some (raw_write_u16 net catalog none (some reg) id (reg.storage % 2 ^ 16) true 0 j w)
  write_value s16 reg id j w =
      some
        (raw_write_s16 net catalog none (some reg) id (signed 16 (reg.storage % 2 ^ 16)) true 0 j w)
  write_value u32 reg id j w =
      some (raw_write_u32 net catalog none (some reg) id (reg.storage % 2 ^ 32) true 0 j w)
  write_value s32 reg id j w =
      some
        (raw_write_s32 net catalog none (some reg) id (signed 32 (reg.storage % 2 ^ 32)) true 0 j w)
  write_value u64 reg id j w =
      some (raw_write_u64 net catalog none (some reg) id (reg.storage % 2 ^ 64) true 0 j w)
  write_value s64 reg id j w =
      some
        (raw_write_s64 net catalog none (some reg) id (signed 64 (reg.storage % 2 ^ 64)) true 0 j w)
  write_value float reg id j w =
      some (raw_write_float net catalog none (some reg) id (reg.storage % 2 ^ 32) true 0 j w)
  write_value float64 reg id j w = none
  write_value str reg id j w = none

  -- One id of the table, for the axis `j`.
  unfoldable pub write_one :
      ℕ → List Entry → String → Result (Unit {0}) → W → Option (Result (Unit {0}) × W)
  unfolding find write_value
  write_one j regs id r w = elim (find id regs) [
    | none ↦ none
    | some found ↦
        let reg = record found { subnode = j } in
        if is_rw reg.access
        then elim (write_value reg.dtype reg id j w) [
          | none ↦ some (r, w)
          | some (r1, w1) ↦ some (r1, w1)
        ]
        else some (r, w)
  ]

  unfoldable pub write_ids :
      ℕ → List Entry → List String → Result (Unit {0}) → W → Option (Result (Unit {0}) × W)
  unfolding write_one
  write_ids j regs [] r w = some (r, w)
  write_ids j regs (id ∷ ids) r w = elim (write_one j regs id r w) [
    | none ↦ none
    | some (r1, w1) ↦ write_ids j regs ids r1 w1
  ]

  -- The loop over `n` subnodes from `j`: those that `src` has a table for are written.
  unfoldable pub write_subnodes :
      (ℕ → Bool)
      → (ℕ → Option ℕ)
      → ℕ
      → ℕ
      → Dict
      → Result (Unit {0})
      → W
      → Option (Result (Unit {0}) × W)
  unfolding write_ids
  write_subnodes alloc src zero j dict r w = some (r, w)
  write_subnodes alloc src (suc n) j dict r w = elim (src j) [
    | none ↦ write_subnodes alloc src n (j + 1) dict r w
    | some from ↦
        if alloc from
        then elim (get_elem? dict (from % 2 ^ 8)) [
          | none ↦ none
          | some regs ↦ elim (write_ids j regs (reg_ids_get regs) r w) [
            | none ↦ none
            | some (r1, w1) ↦ write_subnodes alloc src n (j + 1) dict r1 w1
          ]
        ]
        else some (err efail, w)
  ]

  -- The dictionary is what `il_dict_create` makes of the file. `subnode` is none for all and below 256.
  unfoldable pub dict_storage_write :
      (ℕ → Bool) → ℕ → Option Dict → Option ℕ → W → Option (Result (Unit {0}) × W)
  unfolding write_subnodes dict_get_subnode
  dict_storage_write alloc subnodes none subnode w = some (err efail, w)
  dict_storage_write alloc subnodes (some dict) none w =
      write_subnodes alloc (λ j. some j) (subnodes + 1) 0 dict (err efail) w
  dict_storage_write alloc subnodes (some dict) (some k) w =
      elim (dict_get_subnode subnodes dict k) [
        | none ↦ none
        | some from ↦
            write_subnodes alloc (λ j. if j == k then some from else none) (subnodes + 1) 0 dict
              (err efail) w
      ]
