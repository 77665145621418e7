-- ===== src/Crc.antt =====
-- ingenialink/eth/net.c, CRC-16-CCITT of the frames: the lookup table `crc_tabccitt_eth` with its
-- flag, and the functions that fill and use it. `uint16_t` arithmetic wraps by `% 2 ^ 16`.
-- ingenialink/ecat/net.c holds the same functions under `_ecat` names.
pub mod Serial
pub mod Fill
pub mod Detect
mod Tests
use ingenialink.Base.{
  ℕ, zero, suc, ◌+◌, ◌*◌, ◌/◌, ◌%◌, ◌^◌, bit_and, bit_xor, Bool, true, false, List, ◌==◌,
  if◌then◌else◌, set, get_or, replicate,
}

abbrev pub poly : ℕ
poly = 0x1021

-- `crc_tabccitt_init_eth` and `crc_tabccitt_eth[256]`.
pub record Table : Type 0 where
  pub ready : Bool
  pub entries : List ℕ

-- The static table before its first use.
abbrev pub initial_table : Table
initial_table = record { ready = false; entries = replicate 256 0 }

-- The body of the inner loop, on `crc` and `c`.
pub bit_round : ℕ × ℕ → ℕ × ℕ
bit_round (crc, c) = (
  (if bit_and (bit_xor crc c) 0x8000 == 0
      then crc * 2 % 2 ^ 16
      else bit_xor (crc * 2) poly % 2 ^ 16),
  c * 2 % 2 ^ 16,
)

-- `for (j = 0; j < 8; j++)`, by the rounds left.
pub bit_rounds : ℕ → ℕ × ℕ → ℕ × ℕ
unfolding bit_round
bit_rounds zero s = s
bit_rounds (suc j) s = bit_rounds j (bit_round s)

-- The value that one round of the outer loop stores.
unfoldable pub entry : ℕ → ℕ
unfolding bit_rounds
entry i = (bit_rounds 8 (0, i * 256 % 2 ^ 16)).0

-- The outer loop, by the rounds left.
pub fill_from : ℕ → ℕ → List ℕ → List ℕ
fill_from zero i tab = tab
fill_from (suc n) i tab = fill_from n (i + 1) (set tab i (entry i))

unfoldable pub init_crcccitt_tab_eth : Table → Table
unfolding fill_from entry
init_crcccitt_tab_eth t = record { ready = true; entries = fill_from 256 0 t.entries }

unfoldable pub ensure_table : Table → Table
unfolding init_crcccitt_tab_eth
ensure_table t = if t.ready then t else init_crcccitt_tab_eth t

unfoldable pub update_crc_ccitt_eth : Table → ℕ → ℕ → ℕ × Table
unfolding ensure_table
update_crc_ccitt_eth t crc c =
    let t' = ensure_table t in
    (bit_xor (crc * 256) (get_or t'.entries (bit_and (bit_xor (crc / 256) c) 0xff) 0) % 2 ^ 16, t')

-- The loop of `crc_calc_eth` over the bytes from `idx`, by the rounds left.
unfoldable pub crc_from : ℕ → ℕ → List ℕ → Table → ℕ → ℕ × Table
unfolding update_crc_ccitt_eth
crc_from zero idx buf t crc = (crc, t)
crc_from (suc n) idx buf t crc =
    let (crc', t') = update_crc_ccitt_eth t crc (get_or buf idx 0) in
    crc_from n (idx + 1) buf t' crc'

-- `crc_calc_eth` of `sz` words, the buffer given by its bytes. The size and the index of the source are
-- `uint16_t`: from 2^15 words on its loop does not end, and only fewer are modelled; every call has 6.
unfoldable pub crc_calc_eth : Table → List ℕ → ℕ → ℕ × Table
unfolding crc_from
crc_calc_eth t buf sz = crc_from (sz * 2) 0 buf t 0
