-- ===== src/Mapping/Disturbance.antt =====
-- The disturbance half of the mapping of ingenialink/eth/net.c and `il_net_disturbance_set_mapped_register`
-- of ingenialink/net.c.
use ingenialink.Base.{
  ℕ, ◌+◌, ◌%◌, ◌^◌, bit_and, Option, none, some, Result, ok, err, ltb, ◌==◌, if◌then◌else◌, length,
  get_elem?, set,
}
use ingenialink.Register.{Dtype}
use ingenialink.Port.{Net}
use ingenialink.Mapping.{
  Mapped, entire_frame, il_net_disturbance_mapping_registers, write_register, read_register,
  answers,
}

module _ {W : Type 0} (net : Net W) where
  unfoldable pub disturbance_remove_all_mapped_registers_v1 :
      Mapped W → Result (Unit {0}) × Mapped W
  disturbance_remove_all_mapped_registers_v1 m =
      let (r, m') = write_register net 0x00E7 1 2 m in
      (r, record m' { disturbance_number_mapped_registers = 0 })

  unfoldable pub disturbance_remove_all_mapped_registers_v2 :
      Mapped W → Result (Unit {0}) × Mapped W
  disturbance_remove_all_mapped_registers_v2 m =
      let (r, m') = write_register net 0x00E8 0 2 m in
      (r, record m' { disturbance_number_mapped_registers = 0 })

  unfoldable pub disturbance_remove_all_mapped_registers : Mapped W → Result (Unit {0}) × Mapped W
  unfolding disturbance_remove_all_mapped_registers_v1 disturbance_remove_all_mapped_registers_v2
  disturbance_remove_all_mapped_registers m =
      let (r, m') = read_register net 0x00BA 4 m in
      if answers net r
      then disturbance_remove_all_mapped_registers_v2 m'
      else disturbance_remove_all_mapped_registers_v1 m'

  unfoldable pub disturbance_set_mapped_register_v1 :
      ℕ → ℕ → Dtype → Mapped W → Option (Result (Unit {0}) × Mapped W)
  disturbance_set_mapped_register_v1 channel address dtype m =
      if ltb channel (length m.disturbance_types)
      then some (
          write_register net 0x00E5 (address % 2 ^ 16) 2
            (record m { disturbance_types = set m.disturbance_types channel dtype }))
      else none

  unfoldable pub disturbance_set_mapped_register_v2 :
      ℕ → ℕ → ℕ → Dtype → ℕ → Mapped W → Option (Result (Unit {0}) × Mapped W)
  unfolding entire_frame
  disturbance_set_mapped_register_v2 channel address subnode dtype size m =
      if ltb channel (length m.disturbance_types)
      then elim (get_elem? il_net_disturbance_mapping_registers
          m.disturbance_number_mapped_registers) [
            | none ↦ none
            | some register ↦
                let m1 = record m { disturbance_types = set m.disturbance_types channel dtype } in
                let (_, m2) =
                  write_register net register (entire_frame dtype size subnode address) 4 m1 in
                let count = (m2.disturbance_number_mapped_registers + 1) % 2 ^ 16 in
                some (
                  write_register net 0x0E8 count 2
                    (record m2 { disturbance_number_mapped_registers = count }))
          ]
      else none

  -- The operation of the Ethernet network, and before it the last channel that
  -- `il_net_disturbance_set_mapped_register` keeps.
  unfoldable pub disturbance_set_mapped_register :
      ℕ → ℕ → ℕ → Dtype → ℕ → Mapped W → Option (Result (Unit {0}) × Mapped W)
  unfolding disturbance_set_mapped_register_v1 disturbance_set_mapped_register_v2
  disturbance_set_mapped_register channel address subnode dtype size m =
      let m1 = record m {
        last_channel = (if ltb channel m.last_channel then m.last_channel else channel) % 2 ^ 8;
      } in
      let (r, m') = read_register net 0x00BA 4 m1 in
      if answers net r
      then disturbance_set_mapped_register_v2 channel address subnode dtype size m'
      else disturbance_set_mapped_register_v1 channel address dtype m'

  -- The register that enables: a separate one if bit 0 of the version says that monitoring and
  -- disturbance are detached.
  abbrev pub enabling_register : Result ℕ → ℕ
  enabling_register (err _) = 0x00C0
  enabling_register (ok version) = if bit_and version 1 == 0 then 0x00C0 else 0x00C7

  unfoldable pub enable_disturbance : Mapped W → Result (Unit {0}) × Mapped W
  enable_disturbance m =
      let (r, m') = read_register net 0x00BA 4 m in write_register net (enabling_register r) 1 2 m'

  unfoldable pub disable_disturbance : Mapped W → Result (Unit {0}) × Mapped W
  disable_disturbance m =
      let (r, m') = read_register net 0x00BA 4 m in write_register net (enabling_register r) 0 2 m'

  unfoldable pub disturbance_remove_data : Mapped W → Result (Unit {0}) × Mapped W
  disturbance_remove_data m = write_register net 0x0EB 1 2 m
