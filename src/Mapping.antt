-- ===== src/Mapping.antt =====
-- The mapping of registers to the channels of the monitoring and of the disturbance,
-- ingenialink/eth/net.c (`il_eth_net_set_mapped_register` to `il_eth_net_disable_monitoring`), over the
-- network's read and write. `none` stands for an access outside an array.
pub mod Disturbance
pub mod Descriptor
pub mod Bounds
mod Tests
use ingenialink.Base.{
  ℕ, ◌+◌, ◌*◌, ◌%◌, ◌^◌, bit_or, Bool, true, false, Option, none, some, List, [], ◌∷◌, Result, ok,
  err, ltb, if◌then◌else◌, length, get_elem?, set,
}
use ingenialink.Register.{Dtype, u8, s8, u16, s16, u32, s32, u64, s64, float, float64, str}
use ingenialink.Port.{Net}

-- The numbers of `il_reg_dtype_t`.
abbrev pub dtype_code : Dtype → ℕ
dtype_code u8 = 0
dtype_code s8 = 1
dtype_code u16 = 2
dtype_code s16 = 3
dtype_code u32 = 4
dtype_code s32 = 5
dtype_code u64 = 6
dtype_code s64 = 7
dtype_code float = 8
dtype_code float64 = 9
dtype_code str = 10

-- The part of `il_net_t` that the mapping keeps: the types of the 15 monitoring and 16 disturbance
-- channels, the numbers of mapped registers, the size of a block, and what is behind the network.
pub record Mapped (W : Type 0) : Type 0 where
  pub monitoring_types : List Dtype
  pub monitoring_number_mapped_registers : ℕ
  pub monitoring_bytes_per_block : ℕ
  pub disturbance_types : List Dtype
  pub disturbance_number_mapped_registers : ℕ
  pub last_channel : ℕ
  pub world : W

abbrev pub il_net_monitoring_mapping_registers : List ℕ
il_net_monitoring_mapping_registers =
    0x0D0 ∷ 0x0D1 ∷ 0x0D2 ∷ 0x0D3 ∷ 0x0D4 ∷ 0x0D5 ∷ 0x0D6 ∷ 0x0D7 ∷ 0x0D8 ∷ 0x0D9 ∷ 0x0DA ∷ 0x0DB
    ∷ 0x0DC ∷ 0x0DD ∷ 0x0DE ∷ 0x0DF ∷ []

abbrev pub il_net_disturbance_mapping_registers : List ℕ
il_net_disturbance_mapping_registers =
    0x090 ∷ 0x091 ∷ 0x092 ∷ 0x093 ∷ 0x094 ∷ 0x095 ∷ 0x096 ∷ 0x097 ∷ 0x098 ∷ 0x099 ∷ 0x09A ∷ 0x09B
    ∷ 0x09C ∷ 0x09D ∷ 0x09E ∷ 0x09F ∷ []

-- `entire_frame` of the second version: the type and the size below the subnode and the address.
unfoldable pub entire_frame : Dtype → ℕ → ℕ → ℕ → ℕ
entire_frame dtype size subnode address =
    bit_or (dtype_code dtype * 2 ^ 8) size % 2 ^ 16
    + bit_or (subnode * 2 ^ 12) address % 2 ^ 16 * 2 ^ 16

-- The writes and the read of a register of the communication core, with the network's state in the
-- record.
module _ {W : Type 0} (net : Net W) where
  abbrev pub write_register : ℕ → ℕ → ℕ → Mapped W → Result (Unit {0}) × Mapped W
  write_register address val sz m =
      let (r, w) = net.write 0 address val sz true 0 m.world in (r, record m { world = w })

  abbrev pub read_register : ℕ → ℕ → Mapped W → Result ℕ × Mapped W
  read_register address sz m =
      let (r, w) = net.read 0 address sz m.world in (r, record m { world = w })

  -- The read of the block size into the record; a failed read leaves it alone.
  abbrev pub read_bytes_per_block : Mapped W → Result (Unit {0}) × Mapped W
  read_bytes_per_block m =
      let (r, m') = read_register 0x00E4 2 m in
      elim r [ ok n ↦ (ok tt, record m' { monitoring_bytes_per_block = n }) | err e ↦ (err e, m') ]

  -- Whether the version register answers: the second version of the monitoring.
  abbrev pub answers : Result ℕ → Bool
  answers (ok _) = true
  answers (err _) = false

  unfoldable pub remove_all_mapped_registers_v1 : Mapped W → Result (Unit {0}) × Mapped W
  remove_all_mapped_registers_v1 m =
      let (r, m') = write_register 0x00E2 1 2 m in
      (r, record m' { monitoring_number_mapped_registers = 0 })

  unfoldable pub remove_all_mapped_registers_v2 : Mapped W → Result (Unit {0}) × Mapped W
  remove_all_mapped_registers_v2 m =
      let (r, m') = write_register 0x00E3 0 2 m in
      (r, record m' { monitoring_number_mapped_registers = 0 })

  unfoldable pub remove_all_mapped_registers : Mapped W → Result (Unit {0}) × Mapped W
  unfolding remove_all_mapped_registers_v1 remove_all_mapped_registers_v2
  remove_all_mapped_registers m =
      let (r, m') = read_register 0x00BA 4 m in
      if answers r then remove_all_mapped_registers_v2 m' else remove_all_mapped_registers_v1 m'

  unfoldable pub set_mapped_register_v1 :
      ℕ → ℕ → Dtype → Mapped W → Option (Result (Unit {0}) × Mapped W)
  set_mapped_register_v1 channel address dtype m =
      if ltb channel (length m.monitoring_types)
      then (let m1 = record m { monitoring_types = set m.monitoring_types channel dtype } in
          let (_, m2) = write_register 0x00E0 (address % 2 ^ 16) 2 m1 in
          let m3 = record m2 {
            monitoring_number_mapped_registers =
                (m2.monitoring_number_mapped_registers + 1) % 2 ^ 16;
          } in
          some (read_bytes_per_block m3))
      else none

  unfoldable pub set_mapped_register_v2 :
      ℕ → ℕ → ℕ → Dtype → ℕ → Mapped W → Option (Result (Unit {0}) × Mapped W)
  unfolding entire_frame
  set_mapped_register_v2 channel address subnode dtype size m =
      if ltb channel (length m.monitoring_types)
      then elim (get_elem? il_net_monitoring_mapping_registers
          m.monitoring_number_mapped_registers) [
            | none ↦ none
            | some register ↦
                let m1 = record m { monitoring_types = set m.monitoring_types channel dtype } in
                let (_, m2) =
                  write_register register (entire_frame dtype size subnode address) 4 m1 in
                let count = (m2.monitoring_number_mapped_registers + 1) % 2 ^ 16 in
                let m3 = record m2 { monitoring_number_mapped_registers = count } in
                let (_, m4) = write_register 0x00E3 count 2 m3 in some (read_bytes_per_block m4)
          ]
      else none

  unfoldable pub set_mapped_register :
      ℕ → ℕ → ℕ → Dtype → ℕ → Mapped W → Option (Result (Unit {0}) × Mapped W)
  unfolding set_mapped_register_v1 set_mapped_register_v2
  set_mapped_register channel address subnode dtype size m =
      let (r, m') = read_register 0x00BA 4 m in
      if answers r
      then set_mapped_register_v2 channel address subnode dtype size m'
      else set_mapped_register_v1 channel address dtype m'

  unfoldable pub monitoring_remove_data : Mapped W → Result (Unit {0}) × Mapped W
  monitoring_remove_data m = write_register 0x0EA 1 2 m

  unfoldable pub enable_monitoring : Mapped W → Result (Unit {0}) × Mapped W
  enable_monitoring m = write_register 0x00C0 1 2 m

  unfoldable pub disable_monitoring : Mapped W → Result (Unit {0}) × Mapped W
  disable_monitoring m = write_register 0x00C0 0 2 m
