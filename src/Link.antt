-- ===== src/Link.antt =====
-- The exchange of frames with a drive over a socket, ingenialink/eth/net.c: the layout of a frame
-- (ingenialink/eth/frame.h), and the state that the exchange changes.
pub mod Samples
pub mod Send
pub mod Recv
pub mod Layout
pub mod Exchange
pub mod Packing
pub mod Monitor
pub mod Blocks
pub mod Tables
pub mod Served
mod Tests
use ingenialink.Base.{
  ℕ, zero, suc, ◌+◌, ◌*◌, ◌/◌, ◌%◌, ◌^◌, bit_or, Bool, List, [], ◌∷◌, ◌++◌, get_or,
}
use ingenialink.Crc.{Table, crc_calc_eth}
use ingenialink.Register.{Dtype}

-- A number of `n` bytes in memory, and back.
abbrev pub le_bytes : ℕ → ℕ → List ℕ
le_bytes zero v = []
le_bytes (suc n) v = v % 256 ∷ le_bytes n (v / 256)

abbrev pub le_value : List ℕ → ℕ
le_value [] = 0
le_value (b ∷ bs) = b + 256 * le_value bs

-- The word at a position of a frame.
abbrev pub word_at : List ℕ → ℕ → ℕ
word_at frame k = get_or frame (2 * k) 0 + 256 * get_or frame (2 * k + 1) 0

abbrev pub cmd_read : ℕ
cmd_read = 1

abbrev pub cmd_write : ℕ
cmd_write = 2

abbrev pub cmd_ack : ℕ
cmd_ack = 3

unfoldable pub hdr_h : ℕ → ℕ
hdr_h subnode = bit_or (0xA * 2 ^ 4) subnode % 2 ^ 16

unfoldable pub hdr_l : ℕ → ℕ → ℕ → ℕ
hdr_l address cmd extended = bit_or (bit_or (address * 2 ^ 4) (cmd * 2 ^ 1)) extended % 2 ^ 16

-- The words before the checksum.
unfoldable pub body : ℕ → ℕ → ℕ → ℕ → ℕ → List ℕ
unfolding hdr_h hdr_l
body subnode address cmd extended d =
    le_bytes 2 (hdr_h subnode) ++ le_bytes 2 (hdr_l address cmd extended) ++ le_bytes 8 d

-- A frame, its checksum behind its body.
unfoldable pub build : Table → ℕ → ℕ → ℕ → ℕ → ℕ → List ℕ × Table
unfolding body crc_calc_eth
build t subnode address cmd extended d =
    let words = body subnode address cmd extended d in
    let (crc, t') = crc_calc_eth t words 6 in (words ++ le_bytes 2 crc, t')

-- A channel of the monitoring or of the disturbance: its type, and its samples as bit patterns.
pub record Channel : Type 0 where
  pub type_ : Dtype
  pub samples : List ℕ

-- What a wait for the socket reports.
pub data Readiness : Type 0 where
  elapsed broken readable : Readiness

-- The socket: `select` with the receive timeout, `recv` into a frame array of 2048 bytes, given as the
-- array's contents afterwards, `send`, which succeeds or not, and `close`.
pub record Socket (S : Type 0) : Type 0 where
  pub select : S → Readiness × S
  pub recv : S → List ℕ × S
  pub send : List ℕ → S → Bool × S
  pub close : S → S

-- The table of the checksum, the socket, and the part of `il_net_t` that frames read and change.
pub record EthNet (S : Type 0) : Type 0 where
  pub table : Table
  pub socket : S
  pub extended_buff : List ℕ
  pub monitoring_raw_data : List ℕ
  pub monitoring_data_size : ℕ
  pub monitoring_bytes_per_block : ℕ
  -- The channels of the mapped registers, `monitoring_number_mapped_registers` of them.
  pub monitoring_channels : List Channel
  -- The channels up to `last_channel`.
  pub disturbance_channels : List Channel
  pub disturbance_data_size : ℕ
