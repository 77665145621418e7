-- ===== src/Mapping/Tests.antt =====
-- Runs of the mapping, and witnesses.
use ingenialink.Base.{ℕ, ◌≤◌, ◌<◌, List, [], ◌∷◌, none, some, ok, ◌≡◌, ◌⊎◌, refl, replicate, arith}
use ingenialink.Register.{u16, s32}
use ingenialink.Port.{Net}
use ingenialink.Mapping.{Mapped}
use ingenialink.Mapping.Disturbance.{enable_disturbance}
use ingenialink.Mapping.Bounds.{Request, map_registers, map_registers-room}

-- A network that records the address and the value of each write, and whose registers hold 5.
abbrev net : Net (List (ℕ × ℕ))
net = record {
  read = λ subnode address sz w. (ok 5, w);
  write = λ subnode address val sz confirm extended w. (ok tt, (address, val) ∷ w);
  wait_write = λ subnode address val sz confirm extended w. (ok tt, (address, val) ∷ w);
}

abbrev fresh : Mapped (List (ℕ × ℕ))
fresh = record {
  monitoring_types = replicate 15 u16;
  monitoring_number_mapped_registers = 0;
  monitoring_bytes_per_block = 0;
  disturbance_types = replicate 16 u16;
  disturbance_number_mapped_registers = 0;
  last_channel = 0;
  world = [];
}

abbrev position : Request
position = record { channel = 0; address = 0x30; subnode = 1; dtype = s32; size = 4 }

abbrev status : Request
status = record { channel = 1; address = 0x11; subnode = 1; dtype = u16; size = 2 }

map_registers-room_example :
    ((2 ≤ 16)
      × ((m' : Mapped (List (ℕ × ℕ))) × (map_registers net (position ∷ status ∷ []) fresh ≡ some m')
          × (m'.monitoring_number_mapped_registers ≡ 2)))
    ⊎ ((16 < 2) × (map_registers net (position ∷ status ∷ []) fresh ≡ none))
map_registers-room_example =
    map_registers-room net (position ∷ status ∷ []) fresh (omega arith, (omega arith, tt))
      (omega arith)

-- The writes of a mapping, the last one first.
mapped_writes :
    map_registers net (position ∷ []) fresh
    ≡ some (record fresh {
      monitoring_types = s32 ∷ replicate 14 u16;
      monitoring_number_mapped_registers = 1;
      monitoring_bytes_per_block = 5;
      world = (0x00E3, 1) ∷ (0x0D0, 0x10300504) ∷ [];
    })
unfolding map_registers
mapped_writes = refl

-- A version with bit 0 set: the detached register.
enabled_writes : (enable_disturbance net fresh).1.world ≡ (0x00C7, 1) ∷ []
unfolding enable_disturbance
enabled_writes = refl
