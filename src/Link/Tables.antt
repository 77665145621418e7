-- ===== src/Link/Tables.antt =====
-- The exchange of frames, ingenialink/eth/net.c, keeps the table of the checksum valid, whatever is received.
use ingenialink.Base.{
  ℕ, zero, suc, ◌+◌, ◌*◌, ◌%◌, ◌^◌, Bool, true, false, if◌then◌else◌, Option, refl, ◌≡◌, ◌==◌, none,
  some, Result, ok, err, List, arith,
}
use ingenialink.Crc.{Table, ensure_table, update_crc_ccitt_eth, crc_from, crc_calc_eth}
use ingenialink.Crc.Fill.{IsValid, ensure_table-IsValid}
use ingenialink.Link.{Socket, EthNet, body, build, cmd_read, cmd_write}
use ingenialink.Link.Samples.{unpack}
use ingenialink.Link.Send.{transmit, send_extended, net_send}
use ingenialink.Link.Recv.{receive_pending, receive, net_recv, read, write}
use ingenialink.Link.Monitor.{wait_write}

crc_from-IsValid :
    (n idx : ℕ) (buf : List ℕ) (t : Table) (crc : ℕ)
    → IsValid t
    → IsValid (crc_from n idx buf t crc).1
unfolding crc_from update_crc_ccitt_eth
crc_from-IsValid zero idx buf t crc v = v
crc_from-IsValid (suc n) idx buf t crc v =
    crc_from-IsValid n (idx + 1) buf (ensure_table t) _ (ensure_table-IsValid t v).0

pub crc_calc_eth-IsValid :
    (t : Table) (buf : List ℕ) (sz : ℕ) → IsValid t → IsValid (crc_calc_eth t buf sz).1
unfolding crc_calc_eth
crc_calc_eth-IsValid t buf sz v = crc_from-IsValid (sz * 2) 0 buf t 0 v

pub build-IsValid :
    (t : Table) (subnode address cmd extended d : ℕ)
    → IsValid t
    → IsValid (build t subnode address cmd extended d).1
unfolding build
build-IsValid t subnode address cmd extended d v =
    crc_calc_eth-IsValid t (body subnode address cmd extended d) 6 v

-- What an operation leaves, if it stays inside its arrays.
abbrev pub Sound : {S A : Type 0} → Option (Result A × EthNet S) → Type 0
Sound none = Unit
Sound (some (r, e)) = IsValid e.table

module _ {S : Type 0} where
  receive-Sound :
      (address sz : ℕ) (has_buf : Bool) (frame : List ℕ) (e : EthNet S)
      → IsValid e.table
      → Sound (receive address sz has_buf frame e)
  unfolding receive receive_pending unpack
  receive-Sound address sz has_buf frame e v =
      ground (arith, crc_calc_eth-IsValid e.table frame 6 v)

module _ {S : Type 0} (sock : Socket S) where
  net_recv-Sound :
      (address sz : ℕ) (has_buf : Bool) (e : EthNet S)
      → IsValid e.table
      → Sound (net_recv sock address sz has_buf e)
  unfolding net_recv
  net_recv-Sound address sz has_buf e v =
      let s = (sock.select e.socket).1 in
      ground (
        arith,
        receive-Sound address sz has_buf (sock.recv s).0 (record e { socket = (sock.recv s).1 }) v,
      )

  transmit-table : (bytes : List ℕ) (e : EthNet S) → (transmit sock bytes e).1.table ≡ e.table
  unfolding transmit
  transmit-table bytes e = refl

  send_extended-Sound :
      (frame : List ℕ) (e : EthNet S) → IsValid e.table → Sound (send_extended sock frame e)
  unfolding send_extended transmit
  send_extended-Sound frame e v = ground arith

  sent-Sound :
      (is_extended : Bool) (frame : List ℕ) (e : EthNet S)
      → IsValid e.table
      → Sound (if is_extended then send_extended sock frame e else some (transmit sock frame e))
  unfolding transmit
  sent-Sound true frame e v = send_extended-Sound frame e v
  sent-Sound false frame e v = v

  net_send-Sound :
      (subnode address d sz extended : ℕ) (e : EthNet S)
      → IsValid e.table
      → Sound (net_send sock subnode address d sz extended e)
  unfolding net_send transmit
  net_send-Sound subnode address d sz extended e v =
      let cmd = if sz == 0 then cmd_read else cmd_write in
      let is_extended = extended == 1 in
      let d' = if is_extended then e.disturbance_data_size else if sz == 0 then 0 else d in
      let built = build e.table subnode address cmd extended d' in
      let valid = build-IsValid e.table subnode address cmd extended d' v in
      let e' = record e { table = built.1 } in sent-Sound is_extended built.0 e' valid

  answered-Sound :
      (o : Option (Result (Unit {0}) × EthNet S))
      (k : EthNet S → Option (Result (List ℕ) × EthNet S))
      → Sound o
      → ((e : EthNet S) → IsValid e.table → Sound (k e))
      → Sound
          (elim o [ none ↦ none | some (err c, e') ↦ some (err c, e') | some (ok _, e') ↦ k e' ])
  answered-Sound none k v h = tt
  answered-Sound (some (err c, e')) k v h = v
  answered-Sound (some (ok u, e')) k v h = h e' v

  pub read-Sound :
      (subnode address sz : ℕ) (e : EthNet S)
      → IsValid e.table
      → Sound (read sock subnode address sz e)
  unfolding read
  read-Sound subnode address sz e v =
      answered-Sound (net_send sock subnode (address % 2 ^ 16) 0 0 0 e)
        (λ e'. net_recv sock (address % 2 ^ 16) sz true e')
        (net_send-Sound subnode (address % 2 ^ 16) 0 0 0 e v)
        (λ e' w. net_recv-Sound (address % 2 ^ 16) sz true e' w)

  pub write-Sound :
      (subnode address d sz extended : ℕ) (e : EthNet S)
      → IsValid e.table
      → Sound (write sock subnode address d sz extended e)
  unfolding write
  write-Sound subnode address d sz extended e v =
      answered-Sound (net_send sock subnode (address % 2 ^ 16) d sz extended e)
        (λ e'. net_recv sock (address % 2 ^ 16) 0 false e')
        (net_send-Sound subnode (address % 2 ^ 16) d sz extended e v)
        (λ e' w. net_recv-Sound (address % 2 ^ 16) 0 false e' w)

  pub wait_write-Sound :
      (subnode address d sz extended : ℕ) (e : EthNet S)
      → IsValid e.table
      → Sound (wait_write sock subnode address d sz extended e)
  unfolding wait_write
  wait_write-Sound subnode address d sz extended e v =
      answered-Sound (net_send sock subnode (address % 2 ^ 16) d sz extended e)
        (λ e'. net_recv sock (address % 2 ^ 16) 0 false e')
        (net_send-Sound subnode (address % 2 ^ 16) d sz extended e v)
        (λ e' w. net_recv-Sound (address % 2 ^ 16) 0 false e' w)
