-- ===== src/Link/Tests.antt =====
-- Runs of the exchange of frames, and witnesses.
use ingenialink.Base.{
  length, take, drop, ℕ, ◌<◌, ◌^◌, true, Option, some, Result, ok, List, [], ◌∷◌, ◌++◌, replicate,
  get_elem?, ◌≡◌, refl, arith,
}
use ingenialink.Register.{u16, s32}
use ingenialink.Crc.{initial_table, crc_calc_eth}
use ingenialink.Crc.Fill.{initial_table-IsValid}
use ingenialink.Link.{
  elapsed, Socket, readable, EthNet, Channel, le_value, word_at, build, cmd_read, cmd_ack, hdr_l,
}
use ingenialink.Link.Layout.{hdr_l-fields, build-checked}
use ingenialink.Link.Exchange.{
  remainder, command_field, pending_field, Judged, after_crc, receive-Judged, receive-reply,
}
use ingenialink.Link.Samples.{recv_bytes, process_bytes, pack_channels, unpack_channels}
use ingenialink.Link.Packing.{Copied, unpack-pack}
use ingenialink.Link.Monitor.{receive_block, read_monitoring_data}
use ingenialink.Link.Blocks.{stored, payload, Fits, receive_block-stored}
use ingenialink.Link.Recv.{receive, read}

abbrev fresh : {S : Type 0} → S → EthNet S
fresh s = record {
  table = initial_table;
  socket = s;
  extended_buff = replicate 128 0;
  monitoring_raw_data = replicate 64 0;
  monitoring_data_size = 0;
  monitoring_bytes_per_block = 0;
  monitoring_channels = [];
  disturbance_channels = [];
  disturbance_data_size = 0;
}

abbrev e : EthNet (Unit {0})
e = fresh tt

-- The reply of a drive to a read of its statusword.
abbrev reply : List ℕ
reply = (build initial_table 1 0x11 cmd_ack 0 0x0237).0

receive-Judged_example : Judged 0x11 2 true reply e (receive 0x11 2 true reply e)
receive-Judged_example = receive-Judged 0x11 2 true reply e

receive-reply_example :
    (bytes : List ℕ) × (receive 0x11 2 true reply e ≡ some (ok bytes, after_crc e reply))
    × (le_value bytes ≡ 0x0237)
receive-reply_example =
    receive-reply initial_table 1 0x11 2 0x0237 true e initial_table-IsValid initial_table-IsValid
      (omega arith) (omega arith) (omega arith)

hdr_l-fields_example : hdr_l 0x11 cmd_read 0 ≡ 0x0112
hdr_l-fields_example = hdr_l-fields 0x11 cmd_read 0 (omega arith) (omega arith) (omega arith)

build-checked_example : (crc_calc_eth initial_table reply 6).0 ≡ word_at reply 6
build-checked_example =
    build-checked initial_table initial_table-IsValid 1 0x11 cmd_ack 0 0x0237 initial_table
      initial_table-IsValid

-- A body with one byte that arrives changed.
abbrev rest : List ℕ
rest = replicate 8 0

abbrev sent : List Channel
sent =
    record { type_ = u16; samples = 7 ∷ 0x1234 ∷ [] }
    ∷ record { type_ = s32; samples = 1 ∷ 0xFFFFFFFE ∷ [] }
    ∷ []

abbrev received : List Channel
received = record { type_ = u16; samples = 0 ∷ [] } ∷ record { type_ = s32; samples = 0 ∷ [] } ∷ []

packed : pack_channels 1 sent ≡ some (0x34 ∷ 0x12 ∷ 0xFE ∷ 0xFF ∷ 0xFF ∷ 0xFF ∷ [])
unfolding pack_channels
packed = refl

u16_fits : (v : ℕ) → get_elem? (7 ∷ 0x1234 ∷ []) 1 ≡ some v → v < 2 ^ 16
u16_fits v h = ground arith

s32_fits : (v : ℕ) → get_elem? (1 ∷ 0xFFFFFFFE ∷ []) 1 ≡ some v → v < 2 ^ 32
s32_fits v h = ground arith

unpack-pack_example :
    ((ds' : List Channel) × (unpack_channels recv_bytes 0
          ((0x34 ∷ 0x12 ∷ 0xFE ∷ 0xFF ∷ 0xFF ∷ 0xFF ∷ []) ++ [])
          received
        ≡ some ds')
      × Copied 1 0 sent ds')
    × ((ds' : List Channel) × (unpack_channels process_bytes 0
            ((0x34 ∷ 0x12 ∷ 0xFE ∷ 0xFF ∷ 0xFF ∷ 0xFF ∷ []) ++ [])
            received
          ≡ some ds')
        × Copied 1 0 sent ds')
unpack-pack_example =
    unpack-pack 1 0 sent received (0x34 ∷ 0x12 ∷ 0xFE ∷ 0xFF ∷ 0xFF ∷ 0xFF ∷ []) []
      (refl, omega arith, u16_fits, (refl, omega arith, s32_fits, tt)) packed

-- A peer that answers each read with the statusword of an enabled drive.
abbrev sock : Socket (List (List ℕ))
sock = record {
  select = λ s. (readable, s);
  recv = λ s. (reply, s);
  send = λ frame s. (true, frame ∷ s);
  close = λ s. s;
}

delivered_bytes : Option (Result (List ℕ) × EthNet (List (List ℕ))) → List ℕ
delivered_bytes (some (ok bytes, _)) = bytes
delivered_bytes _ = []

read_statusword : delivered_bytes (read sock 1 0x11 2 (fresh [])) ≡ 0x37 ∷ 0x02 ∷ []
unfolding delivered_bytes read
read_statusword = refl

-- A block of four bytes, 0x01020304, of a monitoring.
abbrev block : List ℕ
block = (build initial_table 0 0x00B2 cmd_ack 1 4).0 ++ (4 ∷ 3 ∷ 2 ∷ 1 ∷ [])

block-remainder : remainder e block ≡ word_at block 6
unfolding build
block-remainder = refl

block-command : command_field block ≡ 3
unfolding build
block-command = refl

block-pending : pending_field block ≡ 1
unfolding build
block-pending = refl

block-Fits : Fits 4 block e
unfolding build
block-Fits = (omega arith, omega arith, omega arith)

receive_block-stored_example :
    (e' : EthNet (Unit {0})) × (receive_block 0x00B2 8 4 block e
      ≡ some (ok (take 2 (drop 4 block)), e'))
    × (stored e' ≡ stored e ++ payload 4 block)
    × (length e'.monitoring_raw_data ≡ length e.monitoring_raw_data)
receive_block-stored_example =
    receive_block-stored 8 4 block e block-remainder block-command block-pending block-Fits

-- A peer that answers with these frames, one after the other, and is silent then.
abbrev scripted : Socket (List (List ℕ))
scripted = record {
  select = λ s. elim s [ [] ↦ (elapsed, []) | f ∷ fs ↦ (readable, f ∷ fs) ];
  recv = λ s. elim s [ [] ↦ ([], []) | f ∷ fs ↦ (f, fs) ];
  send = λ frame s. (true, s);
  close = λ s. [];
}

abbrev count_of : ℕ → List ℕ
count_of n = (build initial_table 0 0x00B7 cmd_ack 0 n).0

abbrev monitored : List (List ℕ) → EthNet (List (List ℕ))
monitored script = record (fresh script) {
  monitoring_bytes_per_block = 4;
  monitoring_channels = record { type_ = s32; samples = 0 ∷ 0 ∷ [] } ∷ [];
}

channels_after : Option (Result (Unit {0}) × EthNet (List (List ℕ))) → List Channel
channels_after (some (ok _, x)) = x.monitoring_channels
channels_after _ = []

-- Two blocks of a sample each.
read_two_blocks :
    channels_after (
      read_monitoring_data scripted 3
        (0 ∷ 0 ∷ 0 ∷ 0 ∷ [])
        (monitored (count_of 8 ∷ block ∷ count_of 4 ∷ block ∷ count_of 0 ∷ [])))
    ≡ record { type_ = s32; samples = 0x01020304 ∷ 0x01020304 ∷ [] } ∷ []
unfolding channels_after read_monitoring_data build
read_two_blocks = refl
