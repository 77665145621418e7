-- ===== src/Link/Blocks.antt =====
-- The blocks of a monitoring, as ingenialink/eth/net.c collects them.
use ingenialink.Base.{
  ℕ, ◌+◌, ◌^◌, ◌<◌, ◌≤◌, ◌≡◌, sym, ap, ◌∙◌, some, ok, List, ◌++◌, length, length-take, length-drop,
  length-append, take-append, append_assoc, take, drop, min, arith,
}
use ingenialink.Link.{EthNet, word_at}
use ingenialink.Link.Layout.{field_cmd, field_pending}
use ingenialink.Link.Exchange.{remainder, command_field, pending_field, after_crc}
use ingenialink.Link.Recv.{address_monitoring_data, overwrite}
use ingenialink.Link.Monitor.{splice, append_block, receive_block}

-- The bytes that are stored.
abbrev pub stored : {S : Type 0} → EthNet S → List ℕ
stored e = take e.monitoring_data_size e.monitoring_raw_data

-- The bytes that a frame brings when `num` are expected at most.
abbrev pub block_size : ℕ → List ℕ → ℕ
block_size num frame = min (word_at frame 2) num

abbrev pub payload : ℕ → List ℕ → List ℕ
payload num frame = take (block_size num frame) (drop 14 frame)

length-payload :
    (num : ℕ) (frame : List ℕ)
    → 14 + block_size num frame ≤ length frame
    → length (payload num frame) ≡ block_size num frame
length-payload num frame h =
    omega (arith, length-take (block_size num frame) (drop 14 frame), length-drop 14 frame)

take-splice :
    (start n : ℕ) (bytes array : List ℕ)
    → start ≤ length array
    → length bytes ≡ n
    → take (start + n) (splice start bytes array) ≡ take start array ++ bytes
take-splice start n bytes array le l =
    let rest = drop (length bytes) (drop start array) in
    ap (take (start + n)) (sym (append_assoc (take start array) bytes rest))
    ∙ take-append (take start array ++ bytes) rest (start + n)
        (omega (arith, length-append (take start array) bytes, length-take start array))

length-splice :
    (start : ℕ) (bytes array : List ℕ)
    → start + length bytes ≤ length array
    → length (splice start bytes array) ≡ length array
length-splice start bytes array le = omega (
  arith,
  length-append (take start array) (overwrite bytes (drop start array)),
  length-append bytes (drop (length bytes) (drop start array)),
  length-take start array,
  length-drop (length bytes) (drop start array),
  length-drop start array,
)

module _ {S : Type 0} where
  -- Where a block fits: in the frame, in the array of raw data, and in the count.
  abbrev pub Fits : ℕ → List ℕ → EthNet S → Type 0
  Fits num frame e =
      (14 + block_size num frame ≤ length frame)
      × (e.monitoring_data_size + block_size num frame ≤ length e.monitoring_raw_data)
      × (e.monitoring_data_size + block_size num frame < 2 ^ 32)

  append_block-Fits :
      (num : ℕ) (frame : List ℕ) (e : EthNet S)
      → Fits num frame e
      → append_block num frame e
        ≡ some (
          ok (take 2 (drop 4 frame)),
          record e {
            monitoring_raw_data =
                splice e.monitoring_data_size (payload num frame) e.monitoring_raw_data;
            monitoring_data_size = e.monitoring_data_size + block_size num frame;
          },
        )
  unfolding append_block
  append_block-Fits num frame e (a, b, c) = ground arith

  receive_block-accepted :
      (sz num : ℕ) (frame : List ℕ) (e : EthNet S)
      → remainder e frame ≡ word_at frame 6
      → command_field frame ≡ 3
      → pending_field frame ≡ 1
      → receive_block address_monitoring_data sz num frame e
        ≡ append_block num frame (after_crc e frame)
  unfolding receive_block
  receive_block-accepted sz num frame e q c p =
      ground (arith, q, c, p, field_cmd (word_at frame 1), field_pending (word_at frame 1))

  -- A frame with a right checksum, the command of an answer and the pending bit, whose block fits: it is
  -- accepted, the block goes behind the bytes stored so far, which stay, and the array keeps its length.
  pub receive_block-stored :
      (sz num : ℕ) (frame : List ℕ) (e : EthNet S)
      → remainder e frame ≡ word_at frame 6
      → command_field frame ≡ 3
      → pending_field frame ≡ 1
      → Fits num frame e
      → (e' : EthNet S) × (receive_block address_monitoring_data sz num frame e
          ≡ some (ok (take 2 (drop 4 frame)), e'))
        × (stored e' ≡ stored e ++ payload num frame)
        × (length e'.monitoring_raw_data ≡ length e.monitoring_raw_data)
  receive_block-stored sz num frame e q c p fits =
      let l = length-payload num frame fits.0 in
      (
        _,
        receive_block-accepted sz num frame e q c p
            ∙ append_block-Fits num frame (after_crc e frame) fits,
        take-splice e.monitoring_data_size (block_size num frame) (payload num frame)
            e.monitoring_raw_data (omega (arith, fits.1)) l,
        length-splice e.monitoring_data_size (payload num frame) e.monitoring_raw_data
            (omega (arith, l, fits.1)),
      )
