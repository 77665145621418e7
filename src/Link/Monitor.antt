-- ===== src/Link/Monitor.antt =====
-- The reading of the monitoring, `il_eth_net_recv_monitoring` and `il_eth_net__read_monitoring` of
-- ingenialink/eth/net.c, and `il_eth_net__wait_write`. `none` stands for an access outside an array, or for
-- fuel that ran out.
use ingenialink.Base.{
  ℕ, zero, suc, ◌+◌, ◌/◌, ◌%◌, ◌^◌, bit_and, Bool, false, not, ◌||◌, ◌&&◌, Option, none, some,
  Result, ok, err, efail, ewrongcrc, enack, List, ◌++◌, length, take, drop, min, ◌==◌, ltb,
  if◌then◌else◌,
}
use ingenialink.Crc.{crc_calc_eth}
use ingenialink.Err.{ilerr__eth}
use ingenialink.Link.{Socket, elapsed, broken, readable, EthNet, word_at, le_value, cmd_ack}
use ingenialink.Link.Samples.{process_monitoring_data}
use ingenialink.Link.Send.{net_send}
use ingenialink.Link.Recv.{address_monitoring_data, overwrite, net_recv, read}

-- A `memcpy` into an array from an index on.
abbrev pub splice : ℕ → List ℕ → List ℕ → List ℕ
splice start bytes array = take start array ++ overwrite bytes (drop start array)

module _ {S : Type 0} where
  -- A block of the monitoring, `num_bytes` of it at most, goes behind the bytes there are.
  unfoldable pub append_block : ℕ → List ℕ → EthNet S → Option (Result (List ℕ) × EthNet S)
  append_block num_bytes frame e =
      let size = min (word_at frame 2) num_bytes in
      let start = e.monitoring_data_size in
      if ltb (length frame) (14 + size) || ltb (length e.monitoring_raw_data) (start + size)
      then none
      else some (
        ok (take 2 (drop 4 frame)),
        record e {
          monitoring_raw_data = splice start (take size (drop 14 frame)) e.monitoring_raw_data;
          monitoring_data_size = (start + size) % 2 ^ 32;
        },
      )

  unfoldable pub extended_reply : List ℕ → EthNet S → Option (Result (List ℕ) × EthNet S)
  extended_reply frame e =
      let size = word_at frame 2 in
      if ltb (length frame) (14 + size) || ltb (length e.extended_buff) size
      then none
      else some (
        ok (take 2 (drop 4 frame)),
        record e { extended_buff = overwrite (take size (drop 14 frame)) e.extended_buff },
      )

  -- The checks of a frame: its address is not among them.
  unfoldable pub receive_block : ℕ → ℕ → ℕ → List ℕ → EthNet S → Option (Result (List ℕ) × EthNet S)
  unfolding append_block extended_reply ilerr__eth
  receive_block address sz num_bytes frame e =
      let (crc_res, t) = crc_calc_eth e.table frame 6 in
      let e' = record e { table = t } in
      let hdr_l = word_at frame 1 in
      if not (crc_res == word_at frame 6)
      then some (err (ilerr__eth ewrongcrc), e')
      else if not (bit_and hdr_l 0x000E / 2 ^ 1 == cmd_ack)
      then some (err enack, e')
      else if bit_and hdr_l 0x0001 == 1
      then if address == address_monitoring_data
        then append_block num_bytes frame e'
        else extended_reply frame e'
      else some (ok (take sz (drop 4 frame)), e')

module _ {S : Type 0} (sock : Socket S) where
  unfoldable pub recv_monitoring : ℕ → ℕ → ℕ → EthNet S → Option (Result (List ℕ) × EthNet S)
  unfolding receive_block
  recv_monitoring address sz num_bytes e =
      let (ready, s) = sock.select e.socket in
      elim ready [
        | elapsed ↦ some (err efail, record e { socket = sock.close s })
        | broken ↦ some (err efail, record e { socket = s })
        | readable ↦
            let (frame, s') = sock.recv s in
            receive_block address sz num_bytes frame (record e { socket = s' })
      ]

  -- `num_bytes > 0`, of the bytes of an `int`.
  abbrev pub is_positive : List ℕ → Bool
  is_positive num = ltb 0 (le_value num) && ltb (le_value num) (2 ^ 31)

  -- `while (num_bytes > 0)`, and what is behind it.
  unfoldable pub read_blocks :
      ℕ → ℕ → ℕ → ℕ → List ℕ → EthNet S → Option (Result (Unit {0}) × EthNet S)
  unfolding net_send recv_monitoring read process_monitoring_data
  read_blocks zero subnode address sz num e = none
  read_blocks (suc fuel) subnode address sz num e =
      if is_positive num
      then elim (net_send sock subnode (address % 2 ^ 16) 0 0 0 e) [
        | none ↦ none
        | some (err c, e1) ↦ some (err c, e1)
        | some (ok _, e1) ↦ elim (recv_monitoring (address % 2 ^ 16) sz (le_value num) e1) [
          | none ↦ none
          | some (err c, e2) ↦ some (err c, e2)
          | some (ok _, e2) ↦ elim (read sock 0 0x00B7 4 e2) [
            | none ↦ none
            | some (err c, e3) ↦ some (err c, e3)
            | some (ok bytes, e3) ↦ read_blocks fuel subnode address sz (overwrite bytes num) e3
          ]
        ]
      ]
      else elim (process_monitoring_data e) [ none ↦ none | some e1 ↦ some (ok tt, e1) ]

  -- `num` is what the uninitialised `num_bytes` holds. If the count of bytes cannot be read, the old method
  -- reads the data itself.
  unfoldable pub read_monitoring :
      ℕ → ℕ → ℕ → ℕ → List ℕ → EthNet S → Option (Result (Unit {0}) × EthNet S)
  unfolding read read_blocks
  read_monitoring fuel subnode address sz num e = elim (read sock 0 0x00B7 4 e) [
    | none ↦ none
    | some (ok bytes, e1) ↦
        read_blocks fuel subnode address sz (overwrite bytes num)
          (record e1 { monitoring_data_size = 0 })
    | some (err c, e1) ↦ elim (read sock 0 0x00B2 8 e1) [
      | none ↦ none
      | some (err c1, e2) ↦ some (err c1, e2)
      | some (ok bytes, e2) ↦ some (ok tt, e2)
    ]
  ]

  unfoldable pub read_monitoring_data :
      ℕ → List ℕ → EthNet S → Option (Result (Unit {0}) × EthNet S)
  unfolding read_monitoring
  read_monitoring_data fuel num e = read_monitoring fuel 0 0x00B2 8 num e

  -- Confirmed always, after a second.
  unfoldable pub wait_write : ℕ → ℕ → ℕ → ℕ → ℕ → EthNet S → Option (Result (List ℕ) × EthNet S)
  unfolding net_send net_recv
  wait_write subnode address data_ sz extended e =
      let address_ = address % 2 ^ 16 in
      elim (net_send sock subnode address_ data_ sz extended e) [
        | none ↦ none
        | some (err c, e') ↦ some (err c, e')
        | some (ok _, e') ↦ net_recv sock address_ 0 false e'
      ]
