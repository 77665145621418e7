-- ===== src/Register.antt =====
-- include/public/ingenialink/registers.h and ingenialink/base/registers.c: registers, their types
-- and the predefined ones.
use ingenialink.Base.{ℕ, ◌-◌, ◌^◌, Bool, false}

-- `il_reg_dtype_t`
pub data Dtype : Type 0 where
  u8 s8 u16 s16 u32 s32 u64 s64 float float64 str : Dtype

-- `il_reg_access_t`
pub data Access : Type 0 where
  read_write read_only write_only : Access

-- `il_reg_phy_t`
pub data Phy : Type 0 where
  none torque pos vel acc volt_rel rad : Phy

-- `il_reg_t`, less the texts, labels and enumerations that no access reads. The unions of the range
-- and of the storage are their 64-bit patterns.
pub record Reg : Type 0 where
  pub subnode : ℕ
  pub address : ℕ
  pub dtype : Dtype
  pub access : Access
  pub phy : Phy
  pub range_min : ℕ
  pub range_max : ℕ
  pub storage : ℕ
  pub storage_valid : Bool

abbrev predefined : ℕ → ℕ → Dtype → Access → ℕ → Reg
predefined subnode address dtype access range_max = record {
  subnode = subnode;
  address = address;
  dtype = dtype;
  access = access;
  phy = Phy.none;
  range_min = 0;
  range_max = range_max;
  storage = 0;
  storage_valid = false;
}

abbrev pub mcb_ctl_word : Reg
mcb_ctl_word = predefined 1 0x0010 u16 read_write (2 ^ 16 - 1)

abbrev pub mcb_sts_word : Reg
mcb_sts_word = predefined 1 0x0011 u16 read_only (2 ^ 16 - 1)

abbrev pub store_all : Reg
store_all = predefined 1 0x06db u32 read_write (2 ^ 32 - 1)

abbrev pub number_axis : Reg
number_axis = predefined 0 0x00a0 u16 read_only (2 ^ 16 - 1)

-- The register that `state_get`, `sw_get` and `sw_wait_change` build on the stack.
abbrev pub status_word_register : ℕ → Reg
status_word_register subnode = predefined subnode 0x0011 u16 read_write (2 ^ 16 - 1)
