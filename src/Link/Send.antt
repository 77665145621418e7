-- ===== src/Link/Send.antt =====
-- `net_send` of ingenialink/eth/net.c.
use ingenialink.Base.{
  ℕ, ◌+◌, Option, none, some, Result, ok, err, efail, List, ◌++◌, length, ◌==◌, ltb, ◌||◌,
  if◌then◌else◌,
}
use ingenialink.Err.{ilerr__eth}
use ingenialink.Link.{Socket, EthNet, build, cmd_read, cmd_write}
use ingenialink.Link.Samples.{pack_from}

module _ {S : Type 0} (sock : Socket S) where
  -- `send`, a failure of which is the code -1.
  unfoldable pub transmit : List ℕ → EthNet S → Result (Unit {0}) × EthNet S
  unfolding ilerr__eth
  transmit bytes e =
      let (sent, s) = sock.send bytes e.socket in
      (if sent then ok tt else err (ilerr__eth efail), record e { socket = s })

  -- The frame with the packed samples behind it. `none` if they do not fit the memory allocated for them
  -- or the array of 1024 bytes.
  unfoldable pub send_extended : List ℕ → EthNet S → Option (Result (Unit {0}) × EthNet S)
  unfolding transmit pack_from
  send_extended frame e =
      let size = e.disturbance_data_size in
      elim (pack_from size size 0 0 e.disturbance_channels) [
        | none ↦ none
        | some packed ↦
            if ltb size (length packed) || ltb 1024 (size + length frame)
            then none
            else some (transmit (frame ++ packed) e)
      ]

  -- `data` is the number that the `sz` bytes of the argument hold, at most 8.
  unfoldable pub net_send : ℕ → ℕ → ℕ → ℕ → ℕ → EthNet S → Option (Result (Unit {0}) × EthNet S)
  unfolding build transmit send_extended
  net_send subnode address data_ sz extended e =
      let cmd = if sz == 0 then cmd_read else cmd_write in
      let is_extended = extended == 1 in
      let d = if is_extended then e.disturbance_data_size else if sz == 0 then 0 else data_ in
      let (frame, t) = build e.table subnode address cmd extended d in
      let e' = record e { table = t } in
      if is_extended then send_extended frame e' else some (transmit frame e')
