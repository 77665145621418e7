-- ===== src/Crc/Tests.antt =====
-- Runs of the checksum, and witnesses.
use ingenialink.Base.{ℕ, ◌*◌, List, [], ◌∷◌, ◌≡◌, refl, arith, take}
use ingenialink.Crc.{initial_table, crc_calc_eth}
use ingenialink.Crc.Serial.{serial}
use ingenialink.Crc.Fill.{IsValid, initial_table-IsValid}
use ingenialink.Crc.Detect.{crc_calc_eth-serial, crc_calc_eth-burst}

-- A frame that reads the statusword, without its checksum.
abbrev frame : List ℕ
frame = 0xA1 ∷ 0x00 ∷ 0x12 ∷ 0x01 ∷ 0 ∷ 0 ∷ 0 ∷ 0 ∷ 0 ∷ 0 ∷ 0 ∷ 0 ∷ []

crc_calc_eth-serial_example :
    ((crc_calc_eth initial_table frame 6).0 ≡ serial 0 (take (6 * 2) frame))
    × IsValid (crc_calc_eth initial_table frame 6).1
crc_calc_eth-serial_example =
    crc_calc_eth-serial initial_table frame 6 initial_table-IsValid (ground arith) (omega arith)
      (omega arith)

crc_calc_eth-burst_example : (◌≡◌ {A = ℕ} 0x12 0x12) × (◌≡◌ {A = ℕ} 0x01 0x01)
crc_calc_eth-burst_example =
    crc_calc_eth-burst initial_table initial_table (0xA1 ∷ 0x00 ∷ [])
      (0 ∷ 0 ∷ 0 ∷ 0 ∷ 0 ∷ 0 ∷ 0 ∷ 0 ∷ []) 0x12 0x01 0x12 0x01 6 initial_table-IsValid
      initial_table-IsValid (ground arith) (ground arith) (omega arith) refl refl

-- The check value of the CRC-16/XMODEM of "123456789", less its last byte.
check_value :
    (crc_calc_eth initial_table (0x31 ∷ 0x32 ∷ 0x33 ∷ 0x34 ∷ 0x35 ∷ 0x36 ∷ 0x37 ∷ 0x38 ∷ []) 4).0
    ≡ 0x9015
unfolding crc_calc_eth
check_value = refl
