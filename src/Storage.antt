-- ===== src/Storage.antt =====
-- The registers of a dictionary and their stored values, ingenialink/dict.c (`il_dict_reg_get`,
-- `il_dict_reg_storage_update`) and ingenialink/servo.c (`il_servo_dict_storage_read`). The hash table
-- of a subnode is the list of its entries, in the order in which its slots are visited.
pub mod Refresh
pub mod Restore
pub mod Written
pub mod Whole
mod Tests
use Prim.Native.String.{String}
use text.Mathlib.Text.{◌==◌}
use ingenialink.Base.{
  ℕ, zero, suc, ◌+◌, ◌*◌, ◌/◌, ◌%◌, ◌^◌, Bool, true, false, Option, none, some, Result, ok, err,
  efail, List, [], ◌∷◌, map, get_elem?, set, if◌then◌else◌,
}
use ingenialink.Register.{
  Dtype, u8, s8, u16, s16, u32, s32, u64, s64, float, float64, str, Access, read_write, Reg,
}
use ingenialink.Port.{Net, Catalog}
use ingenialink.Access.{map_fst, pattern_of}
use ingenialink.Access.Reads.{
  raw_read_u8, raw_read_s8, raw_read_u16, raw_read_s16, raw_read_u32, raw_read_str, raw_read_s32,
  raw_read_u64, raw_read_s64, raw_read_float,
}

pub record Entry : Type 0 where
  pub id : String
  pub reg : Reg

-- `kh_get`, by the id.
unfoldable pub find : String → List Entry → Option Reg
find id [] = none
find id (e ∷ es) = let rest = find id es in if e.id == id then some e.reg else rest

-- The tables of the subnodes. `il_dict_reg_get` and `il_dict_reg_ids_get` take the subnode as a `uint8_t`.
abbrev pub Dict : Type 0
Dict = List (List Entry)

unfoldable pub reg_get : Dict → String → ℕ → Result Reg
unfolding find
reg_get dict id subnode = elim (get_elem? dict (subnode % 2 ^ 8)) [
  | none ↦ err efail
  | some es ↦ elim (find id es) [ none ↦ err efail | some reg ↦ ok reg ]
]

-- The lookup that the register accesses stand on.
abbrev pub catalog : Catalog Dict
catalog = record { reg_get = reg_get }

abbrev pub stored : ℕ → Reg → Reg
stored v reg = record reg { storage = v; storage_valid = true }

-- The update of the entry that `kh_get` finds; the text of the XML node beside it is not modelled.
unfoldable pub storage_update : String → ℕ → List Entry → List Entry
storage_update id v [] = []
storage_update id v (e ∷ es) =
    let rest = storage_update id v es in
    if e.id == id then (record e { reg = stored v e.reg } ∷ es) else (e ∷ rest)

abbrev pub reg_ids_get : List Entry → List String
reg_ids_get [] = []
reg_ids_get (e ∷ es) = e.id ∷ reg_ids_get es

abbrev pub is_rw : Access → Bool
is_rw read_write = true
is_rw _ = false

-- A member of `w` bits of a union that held `junk`.
abbrev pub in_union : ℕ → ℕ → ℕ → ℕ
in_union w junk v = junk / 2 ^ w * 2 ^ w + v

-- What the loop carries: the table of the subnode, `r`, and the world.
pub record Progress (W : Type 0) : Type 0 where
  pub regs : List Entry
  pub r : Result (Unit {0})
  pub world : W

module _ {W : Type 0} (net : Net W) (junk : ℕ) where
  -- The switch over the type: the union that a read leaves, or its failure; `none` for a type that it
  -- passes over.
  unfoldable pub read_value : Dtype → Reg → String → ℕ → W → Option (Result ℕ × W)
  unfolding raw_read_u8 raw_read_s8 raw_read_u16 raw_read_s16 raw_read_u32 raw_read_str raw_read_s32
      raw_read_u64 raw_read_s64 raw_read_float
  read_value u8 reg id j w =
      some (map_fst (in_union 8 junk) (raw_read_u8 net catalog none (some reg) id j w))
  read_value s8 reg id j w = some (
      map_fst (λ z. in_union 8 junk (pattern_of 8 z))
        (raw_read_s8 net catalog none (some reg) id j w))
  read_value u16 reg id j w =
      some (map_fst (in_union 16 junk) (raw_read_u16 net catalog none (some reg) id j w))
  read_value s16 reg id j w = some (
      map_fst (λ z. in_union 16 junk (pattern_of 16 z))
        (raw_read_s16 net catalog none (some reg) id j w))
  read_value u32 reg id j w =
      some (map_fst (in_union 32 junk) (raw_read_u32 net catalog none (some reg) id j w))
  read_value str reg id j w =
      some (map_fst (in_union 32 junk) (raw_read_str net catalog none (some reg) id j w))
  read_value s32 reg id j w = some (
      map_fst (λ z. in_union 32 junk (pattern_of 32 z))
        (raw_read_s32 net catalog none (some reg) id j w))
  read_value u64 reg id j w = some (raw_read_u64 net catalog none (some reg) id j w)
  read_value s64 reg id j w =
      some (map_fst (pattern_of 64) (raw_read_s64 net catalog none (some reg) id j w))
  read_value float reg id j w =
      some (map_fst (in_union 32 junk) (raw_read_float net catalog none (some reg) id j w))
  read_value float64 reg id j w = none

  -- One id; `none` stands for a register that is not found, whose pointer is then not set.
  unfoldable pub read_one : ℕ → String → Progress W → Option (Progress W)
  unfolding find storage_update read_value
  read_one j id p = elim (find id p.regs) [
    | none ↦ none
    | some reg ↦
        if is_rw reg.access
        then elim (read_value reg.dtype reg id j p.world) [
          | none ↦ some p
          | some (err e, w) ↦ some (record p { r = err e; world = w })
          | some (ok v, w) ↦
              some (record p { regs = storage_update id v p.regs; r = ok tt; world = w })
        ]
        else some p
  ]

  unfoldable pub read_ids : ℕ → List String → Progress W → Option (Progress W)
  unfolding read_one
  read_ids j [] p = some p
  read_ids j (id ∷ ids) p = elim (read_one j id p) [ none ↦ none | some p1 ↦ read_ids j ids p1 ]

  -- The loop over `n` subnodes from `j`. `alloc` is whether there is memory for the ids of a subnode.
  unfoldable pub read_subnodes :
      (ℕ → Bool) → ℕ → ℕ → Dict → Result (Unit {0}) → W → Option (Result (Unit {0}) × Dict × W)
  unfolding read_ids
  read_subnodes alloc zero j dict r w = some (r, dict, w)
  read_subnodes alloc (suc n) j dict r w =
      if alloc j
      then elim (get_elem? dict (j % 2 ^ 8)) [
        | none ↦ none
        | some regs ↦
            elim (read_ids j (reg_ids_get regs) (record { regs = regs; r = r; world = w })) [
              | none ↦ none
              | some p ↦ read_subnodes alloc n (j + 1) (set dict (j % 2 ^ 8) p.regs) p.r p.world
            ]
      ]
      else some (err efail, dict, w)

  -- `subnodes` is the number of axes.
  unfoldable pub dict_storage_read :
      (ℕ → Bool) → ℕ → Option Dict → W → Option (Result (Unit {0}) × Option Dict × W)
  unfolding read_subnodes
  dict_storage_read alloc subnodes none w = some (err efail, none, w)
  dict_storage_read alloc subnodes (some dict) w =
      elim (read_subnodes alloc (subnodes + 1) 0 dict (ok tt) w) [
        | none ↦ none
        | some (r, dict1, w1) ↦ some (r, some dict1, w1)
      ]
