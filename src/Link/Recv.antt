-- ===== src/Link/Recv.antt =====
-- `net_recv`, `il_eth_net__read` and `il_eth_net__write` of ingenialink/eth/net.c. `none` stands for an
-- access outside an array.
use ingenialink.Base.{
  ℕ, ◌+◌, ◌/◌, ◌%◌, ◌^◌, bit_and, Bool, true, false, not, ◌||◌, Option, none, some, Result, ok, err,
  etimedout, eio, ewrongcrc, enack, ewrongreg, List, ◌++◌, length, take, drop, ◌==◌, ltb,
  if◌then◌else◌,
}
use ingenialink.Crc.{crc_calc_eth}
use ingenialink.Err.{ilerr__eth}
use ingenialink.Link.{Socket, elapsed, broken, readable, EthNet, word_at, cmd_ack}
use ingenialink.Link.Samples.{recv_bytes, unpack}
use ingenialink.Link.Send.{net_send}

abbrev pub address_monitoring_data : ℕ
address_monitoring_data = 0x00B2

-- A `memcpy` over the beginning of an array.
abbrev pub overwrite : List ℕ → List ℕ → List ℕ
overwrite xs array = xs ++ drop (length xs) array

module _ {S : Type 0} where
  -- A reply with the pending bit: its data words give the number of bytes behind the frame.
  unfoldable pub receive_pending :
      ℕ → Bool → List ℕ → EthNet S → Option (Result (List ℕ) × EthNet S)
  unfolding unpack
  receive_pending address has_buf frame e =
      let size = word_at frame 2 in
      let bytes = take size (drop 14 frame) in
      let answer = take 2 (drop 4 frame) in
      if not has_buf || ltb (length frame) (14 + size)
      then none
      else if address == address_monitoring_data
      then if ltb (length e.monitoring_raw_data) size
        then none
        else elim (unpack recv_bytes (record e {
          monitoring_raw_data = overwrite bytes e.monitoring_raw_data;
          monitoring_data_size = size;
        })) [ none ↦ none | some e' ↦ some (ok answer, e') ]
      else if ltb (length e.extended_buff) size
      then none
      else some (ok answer, record e { extended_buff = overwrite bytes e.extended_buff })

  -- The checks of a frame, in the order of the source; the result is what goes to the beginning of
  -- `buf`, `sz` bytes of the frame; the callers without a buffer pass 0 for `sz`.
  unfoldable pub receive : ℕ → ℕ → Bool → List ℕ → EthNet S → Option (Result (List ℕ) × EthNet S)
  unfolding ilerr__eth receive_pending
  receive address sz has_buf frame e =
      let (crc_res, t) = crc_calc_eth e.table frame 6 in
      let e' = record e { table = t } in
      let hdr_l = word_at frame 1 in
      if not (crc_res == word_at frame 6)
      then some (err (ilerr__eth ewrongcrc), e')
      else if not (bit_and hdr_l 0x000E / 2 ^ 1 == cmd_ack)
      then some (err enack, e')
      else if not (bit_and hdr_l 0xFFF0 / 2 ^ 4 == address)
      then some (err (ilerr__eth ewrongreg), e')
      else if bit_and hdr_l 0x0001 == 1
      then receive_pending address has_buf frame e'
      else some (ok (take sz (drop 4 frame)), e')

module _ {S : Type 0} (sock : Socket S) where
  unfoldable pub net_recv : ℕ → ℕ → Bool → EthNet S → Option (Result (List ℕ) × EthNet S)
  unfolding ilerr__eth receive
  net_recv address sz has_buf e =
      let (ready, s) = sock.select e.socket in
      elim ready [
        | elapsed ↦ some (err (ilerr__eth etimedout), record e { socket = s })
        | broken ↦ some (err (ilerr__eth eio), record e { socket = s })
        | readable ↦
            let (frame, s') = sock.recv s in
            receive address sz has_buf frame (record e { socket = s' })
      ]

  unfoldable pub read : ℕ → ℕ → ℕ → EthNet S → Option (Result (List ℕ) × EthNet S)
  unfolding net_send net_recv
  read subnode address sz e =
      let address_ = address % 2 ^ 16 in
      elim (net_send sock subnode address_ 0 0 0 e) [
        | none ↦ none
        | some (err c, e') ↦ some (err c, e')
        | some (ok _, e') ↦ net_recv address_ sz true e'
      ]

  unfoldable pub write : ℕ → ℕ → ℕ → ℕ → ℕ → EthNet S → Option (Result (List ℕ) × EthNet S)
  unfolding net_send net_recv
  write subnode address data_ sz extended e =
      let address_ = address % 2 ^ 16 in
      elim (net_send sock subnode address_ data_ sz extended e) [
        | none ↦ none
        | some (err c, e') ↦ some (err c, e')
        | some (ok _, e') ↦ net_recv address_ 0 false e'
      ]
