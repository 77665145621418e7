-- ===== src/Link/Served.antt =====
-- Reads and writes of ingenialink/eth/net.c against a peer that answers each frame: what goes over the
-- socket is the operation on the peer's registers.
use ingenialink.Base.{
  if◌then◌else◌, ◌==◌, zero, suc, length, get_or, [], ◌∷◌, ℕ, ◌+◌, ◌*◌, ◌/◌, ◌%◌, ◌^◌, ◌<◌, ◌≤◌,
  ◌≡◌, refl, sym, ap, ◌∙◌, Bool, false, true, Option, none, some, Result, ok, err, List, ◌++◌, take,
  drop, arith,
}
use mathlib.Core.Path.{subst}
use ingenialink.Crc.{Table, initial_table, update_crc_ccitt_eth, crc_from, crc_calc_eth}
use ingenialink.Crc.Serial.{serial}
use ingenialink.Crc.Fill.{IsValid, initial_table-IsValid}
use ingenialink.Link.{
  Socket, readable, EthNet, le_bytes, le_value, word_at, body, build, cmd_read, cmd_write, cmd_ack,
  hdr_h, hdr_l,
}
use ingenialink.Base.Bits.{or_fields}
use ingenialink.Link.Layout.{
  build-serial, build-checked, build-hdr_l, hdr_l-fields, le_value-le_bytes,
}
use ingenialink.Link.Exchange.{after_crc, delivered}
use ingenialink.Link.Tables.{build-IsValid}
use ingenialink.Link.Send.{transmit, net_send}
use ingenialink.Link.Recv.{receive, net_recv, read, write}

-- The twelve bytes before the checksum: the axis behind `0xA`, the address behind the command, eight bytes of data,
-- each word with its low byte first.
abbrev pub frame_words : ℕ → ℕ → ℕ → ℕ → List ℕ
frame_words subnode address cmd d =
    (160 + subnode)
    ∷ 0
    ∷ (address % 16 * 16 + cmd * 2)
    ∷ (address / 16)
    ∷ (d % 256)
    ∷ (d / 2 ^ 8 % 256)
    ∷ (d / 2 ^ 16 % 256)
    ∷ (d / 2 ^ 24 % 256)
    ∷ (d / 2 ^ 32 % 256)
    ∷ (d / 2 ^ 40 % 256)
    ∷ (d / 2 ^ 48 % 256)
    ∷ (d / 2 ^ 56 % 256)
    ∷ []

-- A frame as the protocol has it, with the bit-serial CRC of its words.
abbrev pub framed : ℕ → ℕ → ℕ → ℕ → List ℕ
framed subnode address cmd d =
    let words = frame_words subnode address cmd d in
    words ++ (serial 0 words % 256) ∷ (serial 0 words / 256 % 256) ∷ []

-- The fields have room in a frame.
abbrev pub Encodable : ℕ → ℕ → ℕ → ℕ → Type 0
Encodable subnode address cmd d =
    (subnode < 2 ^ 4) × (address < 2 ^ 12) × (cmd < 2 ^ 3) × (d < 256 ^ 8)

-- Behind the socket there is a peer with a state `D`: to a frame whose fields have room it answers with a
-- frame of the same axis and address, with what `serve` makes of the axis, the address, the command and
-- the data; the rest of the array that receives it is arbitrary.
pub record Peer {S D : Type 0} (sock : Socket S) (serve : ℕ → ℕ → ℕ → ℕ → D → ℕ × D) (view : S → D)
    : Type 0 where
  pub rest : S → List ℕ
  pub sends :
      (subnode address cmd d : ℕ) (s : S)
      → Encodable subnode address cmd d
      → (sock.send (framed subnode address cmd d) s).0 ≡ true
  pub ready :
      (subnode address cmd d : ℕ) (s : S)
      → Encodable subnode address cmd d
      → (sock.select (sock.send (framed subnode address cmd d) s).1).0 ≡ readable
  pub answers :
      (subnode address cmd d : ℕ) (s : S)
      → Encodable subnode address cmd d
      → (let s' = (sock.select (sock.send (framed subnode address cmd d) s).1).1 in
          (sock.recv s').0
          ≡ framed subnode address cmd_ack (serve subnode address cmd d (view s)).0 ++ rest s')
  pub moves :
      (subnode address cmd d : ℕ) (s : S)
      → Encodable subnode address cmd d
      → view (sock.recv (sock.select (sock.send (framed subnode address cmd d) s).1).1).1
        ≡ (serve subnode address cmd d (view s)).1

-- The frame that the code builds, without the pending bit.
abbrev packed : ℕ → ℕ → ℕ → ℕ → List ℕ
packed subnode address cmd d =
    body subnode address cmd 0 d ++ le_bytes 2 (serial 0 (body subnode address cmd 0 d))

packed-length : (subnode address cmd d : ℕ) → 12 ≤ length (packed subnode address cmd d)
unfolding body
packed-length subnode address cmd d = omega arith

get_or-append_first :
    (ws xs : List ℕ) (i : ℕ) → i < length ws → get_or (ws ++ xs) i 0 ≡ get_or ws i 0
get_or-append_first [] xs i h = absurd (omega arith)
get_or-append_first (w ∷ ws) xs zero h = refl
get_or-append_first (w ∷ ws) xs (suc i) h = get_or-append_first ws xs i (omega arith)

-- What lies behind the bytes that are read does not matter.
crc_from-append :
    (n idx : ℕ) (ws xs : List ℕ) (t : Table) (crc : ℕ)
    → idx + n ≤ length ws
    → crc_from n idx (ws ++ xs) t crc ≡ crc_from n idx ws t crc
unfolding crc_from
crc_from-append zero idx ws xs t crc h = refl
crc_from-append (suc n) idx ws xs t crc h =
    let next = λ (b : ℕ). update_crc_ccitt_eth t crc b in
    ap (λ (b : ℕ). crc_from n (idx + 1) (ws ++ xs) (next b).1 (next b).0)
      (get_or-append_first ws xs idx (omega arith))
    ∙ crc_from-append n (idx + 1) ws xs (next (get_or ws idx 0)).1 (next (get_or ws idx 0)).0
        (omega arith)

crc_calc_eth-packed :
    (t : Table) (subnode address cmd d : ℕ) (xs : List ℕ)
    → crc_calc_eth t (packed subnode address cmd d ++ xs) 6
      ≡ crc_calc_eth t (packed subnode address cmd d) 6
unfolding crc_calc_eth
crc_calc_eth-packed t subnode address cmd d xs =
    crc_from-append (6 * 2) 0 (packed subnode address cmd d) xs t 0
      (packed-length subnode address cmd d)

packed-build :
    (t : Table) (subnode address cmd d : ℕ)
    → IsValid t
    → (build t subnode address cmd 0 d).0 ≡ packed subnode address cmd d
packed-build t subnode address cmd d v = build-serial t v subnode address cmd 0 d

packed-checked :
    (t : Table) (subnode address cmd d : ℕ) (xs : List ℕ)
    → IsValid t
    → (crc_calc_eth t (packed subnode address cmd d ++ xs) 6).0
      ≡ word_at (packed subnode address cmd d ++ xs) 6
unfolding body
packed-checked t subnode address cmd d xs v =
    ap (λ (r : ℕ × Table). r.0) (crc_calc_eth-packed t subnode address cmd d xs)
    ∙ subst (λ frame. (crc_calc_eth t frame 6).0 ≡ word_at frame 6)
        (packed-build t subnode address cmd d v) (build-checked t v subnode address cmd 0 d t v)

packed-hdr_l :
    (subnode address cmd d : ℕ) (xs : List ℕ)
    → address < 2 ^ 12
    → cmd < 2 ^ 3
    → word_at (packed subnode address cmd d ++ xs) 1 ≡ address * 2 ^ 4 + cmd * 2
unfolding body
packed-hdr_l subnode address cmd d xs ha hc =
    subst (λ frame. word_at frame 1 ≡ hdr_l address cmd 0 % 2 ^ 16)
      (packed-build initial_table subnode address cmd d initial_table-IsValid)
      (build-hdr_l initial_table initial_table-IsValid subnode address cmd 0 d)
    ∙ omega (arith, hdr_l-fields address cmd 0 ha hc (omega arith))

packed-data :
    (subnode address cmd d sz : ℕ) (xs : List ℕ)
    → sz ≤ 8
    → d < 256 ^ sz
    → le_value (take sz (drop 4 (packed subnode address cmd d ++ xs))) ≡ d
unfolding body
packed-data subnode address cmd d sz xs hs hd =
    le_value-le_bytes sz 8 d (le_bytes 2 (serial 0 (body subnode address cmd 0 d)) ++ xs) hs hd

receive-packed :
    {S : Type 0} (subnode address sz d : ℕ) (has_buf : Bool) (xs : List ℕ) (e : EthNet S)
    → IsValid e.table
    → address < 2 ^ 12
    → (let frame = packed subnode address cmd_ack d ++ xs in
        receive address sz has_buf frame e ≡ some (ok (take sz (drop 4 frame)), after_crc e frame))
receive-packed subnode address sz d has_buf xs e v ha =
    delivered address sz has_buf (packed subnode address cmd_ack d ++ xs) e
      (packed-checked e.table subnode address cmd_ack d xs v)
      (packed-hdr_l subnode address cmd_ack d xs ha (omega arith)) ha

hdr_h_lem : (subnode : ℕ) → subnode < 2 ^ 4 → hdr_h subnode ≡ 160 + subnode
unfolding hdr_h
hdr_h_lem subnode h = ground (arith, or_fields 4 10 subnode h)

hdr_l_lem :
    (address cmd : ℕ)
    → address < 2 ^ 12
    → cmd < 2 ^ 3
    → hdr_l address cmd 0 ≡ address * 2 ^ 4 + cmd * 2
hdr_l_lem address cmd ha hc = omega (arith, hdr_l-fields address cmd 0 ha hc (omega arith))

-- Bytes one by one.
bytes_twelve :
    {a0 a1 a2 a3 a4 a5 a6 a7 b0 b1 b2 b3 b4 b5 b6 b7 : ℕ} (xs : List ℕ)
    → (a0 ≡ b0) × (a1 ≡ b1) × (a2 ≡ b2) × (a3 ≡ b3) × (a4 ≡ b4) × (a5 ≡ b5) × (a6 ≡ b6) × (a7 ≡ b7)
    → a0 ∷ a1 ∷ a2 ∷ a3 ∷ a4 ∷ a5 ∷ a6 ∷ a7 ∷ xs ≡ b0 ∷ b1 ∷ b2 ∷ b3 ∷ b4 ∷ b5 ∷ b6 ∷ b7 ∷ xs
bytes_twelve xs h = cc

words_lem :
    (subnode address cmd d : ℕ)
    → subnode < 2 ^ 4
    → address < 2 ^ 12
    → cmd < 2 ^ 3
    → le_bytes 2 (160 + subnode) ++ le_bytes 2 (address * 2 ^ 4 + cmd * 2) ++ le_bytes 8 d
      ≡ frame_words subnode address cmd d
words_lem subnode address cmd d hn ha hc = ground arith

body-frame_words :
    (subnode address cmd d : ℕ)
    → subnode < 2 ^ 4
    → address < 2 ^ 12
    → cmd < 2 ^ 3
    → body subnode address cmd 0 d ≡ frame_words subnode address cmd d
unfolding body
body-frame_words subnode address cmd d hn ha hc =
    ap (λ (h : ℕ). le_bytes 2 h ++ le_bytes 2 (hdr_l address cmd 0) ++ le_bytes 8 d)
      (hdr_h_lem subnode hn)
    ∙ ap (λ (h : ℕ). le_bytes 2 (160 + subnode) ++ le_bytes 2 h ++ le_bytes 8 d)
        (hdr_l_lem address cmd ha hc)
    ∙ words_lem subnode address cmd d hn ha hc

-- The two are the same.
packed-framed :
    (subnode address cmd d : ℕ)
    → subnode < 2 ^ 4
    → address < 2 ^ 12
    → cmd < 2 ^ 3
    → packed subnode address cmd d ≡ framed subnode address cmd d
packed-framed subnode address cmd d hn ha hc =
    ap (λ (words : List ℕ). words ++ le_bytes 2 (serial 0 words))
      (body-frame_words subnode address cmd d hn ha hc)

pub framed-data :
    (subnode address cmd d sz : ℕ) (xs : List ℕ)
    → subnode < 2 ^ 4
    → address < 2 ^ 12
    → cmd < 2 ^ 3
    → sz ≤ 8
    → d < 256 ^ sz
    → le_value (take sz (drop 4 (framed subnode address cmd d ++ xs))) ≡ d
framed-data subnode address cmd d sz xs hn ha hc hs hd =
    subst (λ (f : List ℕ). le_value (take sz (drop 4 (f ++ xs))) ≡ d)
      (packed-framed subnode address cmd d hn ha hc) (packed-data subnode address cmd d sz xs hs hd)

-- The answer is accepted, and its data are delivered.
receive-framed :
    {S : Type 0} (subnode address sz d : ℕ) (has_buf : Bool) (xs : List ℕ) (e : EthNet S)
    → IsValid e.table
    → subnode < 2 ^ 4
    → address < 2 ^ 12
    → (let frame = framed subnode address cmd_ack d ++ xs in
        receive address sz has_buf frame e ≡ some (ok (take sz (drop 4 frame)), after_crc e frame))
receive-framed subnode address sz d has_buf xs e v hn ha =
    subst
      (λ (f : List ℕ).
        receive address sz has_buf (f ++ xs) e
        ≡ some (ok (take sz (drop 4 (f ++ xs))), after_crc e (f ++ xs)))
      (packed-framed subnode address cmd_ack d hn ha (omega arith))
      (receive-packed subnode address sz d has_buf xs e v ha)

module _ {S D : Type 0} (sock : Socket S) (serve : ℕ → ℕ → ℕ → ℕ → D → ℕ × D) (view : S → D)
    (peer : Peer sock serve view) where
  -- The socket after a request, and the frame that then arrives.
  abbrev pub asked : ℕ → ℕ → ℕ → ℕ → S → S
  asked subnode address cmd d s = (sock.select (sock.send (framed subnode address cmd d) s).1).1

  transmit-sent :
      (bytes : List ℕ) (e : EthNet S)
      → (sock.send bytes e.socket).0 ≡ true
      → transmit sock bytes e ≡ (ok tt, record e { socket = (sock.send bytes e.socket).1 })
  unfolding transmit
  transmit-sent bytes e h = ground arith

  abbrev command_of : ℕ → ℕ
  command_of sz = if sz == 0 then cmd_read else cmd_write

  -- The state after a request was sent and its answer awaited.
  abbrev sent : ℕ → ℕ → ℕ → ℕ → EthNet S → EthNet S
  sent subnode address cmd d e = record e {
    table = (build e.table subnode address cmd 0 d).1;
    socket = (sock.send (framed subnode address cmd d) e.socket).1;
  }

  net_send-framed :
      (subnode address d sz : ℕ) (e : EthNet S)
      → IsValid e.table
      → Encodable subnode address (command_of sz) (if sz == 0 then 0 else d)
      → net_send sock subnode address d sz 0 e
        ≡ some (ok tt, sent subnode address (command_of sz) (if sz == 0 then 0 else d) e)
  unfolding net_send
  net_send-framed subnode address d sz e v ha =
      let d' = if sz == 0 then 0 else d in
      let cmd = command_of sz in
      let e' = record e { table = (build e.table subnode address cmd 0 d').1 } in
      ap (λ (f : List ℕ). some (transmit sock f e'))
        (packed-build e.table subnode address cmd d' v
          ∙ packed-framed subnode address cmd d' ha.0 ha.1 ha.2)
      ∙ ap some (
          transmit-sent (framed subnode address cmd d') e'
            (peer.sends subnode address cmd d' e.socket ha))

  net_recv-ready :
      (address sz : ℕ) (has_buf : Bool) (e : EthNet S)
      → (sock.select e.socket).0 ≡ readable
      → (let s = (sock.select e.socket).1 in
          net_recv sock address sz has_buf e
          ≡ receive address sz has_buf (sock.recv s).0 (record e { socket = (sock.recv s).1 }))
  unfolding net_recv
  net_recv-ready address sz has_buf e h = ground arith

  -- The exchange: the answer to a request, and the peer after it.
  abbrev Exchanged : ℕ → ℕ → ℕ → ℕ → ℕ → EthNet S → Option (Result (List ℕ) × EthNet S) → Type 0
  Exchanged subnode address cmd d sz e o =
      let (value, next) = serve subnode address cmd d (view e.socket) in
      (bytes : List ℕ) × (e' : EthNet S) × (o ≡ some (ok bytes, e'))
      × (view e'.socket ≡ next)
      × (sz ≤ 8 → value < 256 ^ sz → le_value bytes ≡ value)

  net_recv-Exchanged :
      (subnode address cmd d sz : ℕ) (has_buf : Bool) (e : EthNet S)
      → IsValid e.table
      → Encodable subnode address cmd d
      → Exchanged subnode address cmd d sz e
          (net_recv sock address sz has_buf (sent subnode address cmd d e))
  net_recv-Exchanged subnode address cmd d sz has_buf e v ha =
      let s = asked subnode address cmd d e.socket in
      let value = (serve subnode address cmd d (view e.socket)).0 in
      let frame = framed subnode address cmd_ack value ++ peer.rest s in
      let e1 = record (sent subnode address cmd d e) { socket = (sock.recv s).1 } in
      (
        take sz (drop 4 frame),
        after_crc e1 frame,
        net_recv-ready address sz has_buf (sent subnode address cmd d e)
              (peer.ready subnode address cmd d e.socket ha)
            ∙ ap (λ (f : List ℕ). receive address sz has_buf f e1)
                (peer.answers subnode address cmd d e.socket ha)
            ∙ receive-framed subnode address sz value has_buf (peer.rest s) e1
                (build-IsValid e.table subnode address cmd 0 d v) ha.0 ha.1,
        peer.moves subnode address cmd d e.socket ha,
        λ hs hd.
            framed-data subnode address cmd_ack value sz (peer.rest s) ha.0 ha.1 (omega arith) hs
              hd,
      )

  -- The answer awaited by `k`, if the request was sent.
  abbrev answered :
      Option (Result (Unit {0}) × EthNet S)
      → (EthNet S → Option (Result (List ℕ) × EthNet S))
      → Option (Result (List ℕ) × EthNet S)
  answered o k = elim o [
    | none ↦ none
    | some (err c, e') ↦ some (err c, e')
    | some (ok _, e') ↦ k e'
  ]

  answered-net_send :
      (subnode address d sz wanted : ℕ) (has_buf : Bool) (e : EthNet S)
      → IsValid e.table
      → Encodable subnode address (command_of sz) (if sz == 0 then 0 else d)
      → answered
          (net_send sock subnode (address % 2 ^ 16) d sz 0 e)
          (λ e'. net_recv sock (address % 2 ^ 16) wanted has_buf e')
        ≡ net_recv sock address wanted has_buf
            (sent subnode address (command_of sz) (if sz == 0 then 0 else d) e)
  answered-net_send subnode address d sz wanted has_buf e v ha =
      let small : address % 2 ^ 16 ≡ address = omega (arith, ha.1) in
      ap
        (λ (a : ℕ).
          answered (net_send sock subnode a d sz 0 e) (λ e'. net_recv sock a wanted has_buf e'))
        small
      ∙ ap
          (λ (o : Option (Result (Unit {0}) × EthNet S)).
            answered o (λ e'. net_recv sock address wanted has_buf e'))
          (net_send-framed subnode address d sz e v ha)

  -- Over a socket whose peer answers each request with the frame of what it serves, and with a valid table: a read of a
  -- register of 8 bytes at most, below 4096, of an axis below 16, returns what the peer serves, if that fits the
  -- register, and the peer has moved on by this one read.
  pub read-served :
      (subnode address sz : ℕ) (e : EthNet S)
      → IsValid e.table
      → subnode < 2 ^ 4
      → address < 2 ^ 12
      → sz ≤ 8
      → (serve subnode address cmd_read 0 (view e.socket)).0 < 256 ^ sz
      → (bytes : List ℕ) × (e' : EthNet S) × (read sock subnode address sz e ≡ some (ok bytes, e'))
        × (le_value bytes ≡ (serve subnode address cmd_read 0 (view e.socket)).0)
        × (view e'.socket ≡ (serve subnode address cmd_read 0 (view e.socket)).1)
  unfolding read
  read-served subnode address sz e v hn ha hs hd =
      let fit : Encodable subnode address cmd_read 0 = (hn, ha, omega arith, omega arith) in
      let (bytes, e', r, m, w) = net_recv-Exchanged subnode address cmd_read 0 sz true e v fit in
      (bytes, e', answered-net_send subnode address 0 0 sz true e v fit ∙ r, w hs hd, m)

  pub write-served :
      (subnode address d sz : ℕ) (e : EthNet S)
      → IsValid e.table
      → subnode < 2 ^ 4
      → address < 2 ^ 12
      → d < 256 ^ 8
      → 0 < sz
      → (bytes : List ℕ) × (e' : EthNet S) × (write sock subnode address d sz 0 e
          ≡ some (ok bytes, e'))
        × (view e'.socket ≡ (serve subnode address cmd_write d (view e.socket)).1)
  unfolding write
  write-served subnode address d sz e v hn ha hd hs =
      let (bytes, e', r, m, w) =
        net_recv-Exchanged subnode address cmd_write d 0 false e v (hn, ha, omega arith, hd) in
      let test : (sz == 0) ≡ false = ground arith in
      let asks = λ (b : Bool).
        net_recv sock address 0 false
          (sent subnode address (if b then cmd_read else cmd_write) (if b then 0 else d) e) in
      let fits = λ (b : Bool).
        Encodable subnode address (if b then cmd_read else cmd_write) (if b then 0 else d) in
      let fit = subst fits (sym test) (hn, ha, omega arith, hd) in
      (bytes, e', answered-net_send subnode address d sz 0 false e v fit ∙ ap asks test ∙ r, m)
