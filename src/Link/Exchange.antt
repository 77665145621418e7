-- ===== src/Link/Exchange.antt =====
-- What an exchange of frames of ingenialink/eth/net.c delivers.
use ingenialink.Base.{
  ℕ, ◌+◌, ◌*◌, ◌/◌, ◌%◌, ◌^◌, ◌<◌, ◌≤◌, ◌≡◌, ◌≢◌, ◌⊎◌, inl, inr, Bool, Option, some, Result, ok,
  err, ewrongcrc, enack, ewrongreg, List, ◌∷◌, ◌++◌, length, length-append, take, drop, arith, ◌∙◌,
  sym,
}
use ingenialink.Crc.{Table, crc_calc_eth}
use ingenialink.Crc.Fill.{IsValid}
use ingenialink.Crc.Detect.{Bytes, crc_calc_eth-whole, crc_calc_eth-burst, serial-lt}
use ingenialink.Link.{EthNet, le_bytes, le_value, word_at, build, cmd_ack}
use ingenialink.Link.Layout.{
  hdr_l-fields, field_cmd, field_pending, field_address, build-checked, build-hdr_l, build-data,
  trailer, crc_calc_eth-trailer,
}
use ingenialink.Link.Recv.{receive, receive_pending}

-- The checksum of a frame, as the receiver computes it with its table, and the table afterwards.
abbrev pub remainder : {S : Type 0} → EthNet S → List ℕ → ℕ
remainder e frame = (crc_calc_eth e.table frame 6).0

abbrev pub after_crc : {S : Type 0} → EthNet S → List ℕ → EthNet S
after_crc e frame = record e { table = (crc_calc_eth e.table frame 6).1 }

-- The fields of the low header word by arithmetic.
abbrev pub command_field : List ℕ → ℕ
command_field frame = word_at frame 1 / 2 % 8

abbrev pub address_field : List ℕ → ℕ
address_field frame = word_at frame 1 / 16 % 4096

abbrev pub pending_field : List ℕ → ℕ
pending_field frame = word_at frame 1 % 2

-- The five outcomes of the checks of a frame.
abbrev pub Judged :
    {S : Type 0} → ℕ → ℕ → Bool → List ℕ → EthNet S → Option (Result (List ℕ) × EthNet S) → Type 0
Judged address sz has_buf frame e r =
    ((remainder e frame ≢ word_at frame 6) × (r ≡ some (err ewrongcrc, after_crc e frame)))
    ⊎ ((remainder e frame ≡ word_at frame 6)
        × (command_field frame ≢ 3)
        × (r ≡ some (err enack, after_crc e frame)))
    ⊎ ((remainder e frame ≡ word_at frame 6)
        × (command_field frame ≡ 3)
        × (address_field frame ≢ address)
        × (r ≡ some (err ewrongreg, after_crc e frame)))
    ⊎ ((remainder e frame ≡ word_at frame 6)
        × (command_field frame ≡ 3)
        × (address_field frame ≡ address)
        × (pending_field frame ≡ 0)
        × (r ≡ some (ok (take sz (drop 4 frame)), after_crc e frame)))
    ⊎ ((remainder e frame ≡ word_at frame 6)
        × (command_field frame ≡ 3)
        × (address_field frame ≡ address)
        × (pending_field frame ≡ 1)
        × (r ≡ receive_pending address has_buf frame (after_crc e frame)))

differs : {a b c d : ℕ} → (a ≢ c) ⊎ (b ≢ d) → (a ≡ c) × (b ≡ d) → ⊥
differs (inl ne) same = ne same.0
differs (inr ne) same = ne same.1

module _ {S : Type 0} where
  -- A frame is judged by its checksum, then by its command, then by its address: the first that is wrong
  -- gives the code of the failure, `IL_EWRONGCRC`, `IL_ENACK` or `IL_EWRONGREG`; a frame without fault is
  -- delivered, its data words or, if the pending bit is set, through `receive_pending`.
  pub receive-Judged :
      (address sz : ℕ) (has_buf : Bool) (frame : List ℕ) (e : EthNet S)
      → Judged address sz has_buf frame e (receive address sz has_buf frame e)
  unfolding receive
  receive-Judged address sz has_buf frame e = ground (
    arith,
    field_cmd (word_at frame 1),
    field_pending (word_at frame 1),
    field_address (word_at frame 1),
  )

  refused_lem :
      (address sz : ℕ) (has_buf : Bool) (frame : List ℕ) (e : EthNet S)
      → remainder e frame ≢ word_at frame 6
      → receive address sz has_buf frame e ≡ some (err ewrongcrc, after_crc e frame)
  unfolding receive
  refused_lem address sz has_buf frame e ne = ground arith

  pub delivered :
      (address sz : ℕ) (has_buf : Bool) (frame : List ℕ) (e : EthNet S)
      → remainder e frame ≡ word_at frame 6
      → word_at frame 1 ≡ address * 2 ^ 4 + cmd_ack * 2
      → address < 2 ^ 12
      → receive address sz has_buf frame e ≡ some (ok (take sz (drop 4 frame)), after_crc e frame)
  unfolding receive
  delivered address sz has_buf frame e same header ha = ground (
    arith,
    same,
    header,
    field_cmd (word_at frame 1),
    field_pending (word_at frame 1),
    field_address (word_at frame 1),
  )

  -- The reply that a drive frames for the register's address, with a value that fits `sz` bytes, is
  -- accepted, and what is delivered is that value, whatever both sides' tables hold so far.
  pub receive-reply :
      (t : Table) (subnode address sz d : ℕ) (has_buf : Bool) (e : EthNet S)
      → IsValid t
      → IsValid e.table
      → address < 2 ^ 12
      → sz ≤ 8
      → d < 256 ^ sz
      → (bytes : List ℕ) × (receive address sz has_buf (build t subnode address cmd_ack 0 d).0 e
          ≡ some (ok bytes, after_crc e (build t subnode address cmd_ack 0 d).0))
        × (le_value bytes ≡ d)
  receive-reply t subnode address sz d has_buf e v w ha hs hd =
      let frame = (build t subnode address cmd_ack 0 d).0 in
      let header = build-hdr_l t v subnode address cmd_ack 0 d in
      let fields = hdr_l-fields address cmd_ack 0 ha (omega arith) (omega arith) in
      (
        take sz (drop 4 frame),
        delivered address sz has_buf frame e
            (build-checked t v subnode address cmd_ack 0 d e.table w)
            (omega (arith, header, fields)) ha,
        build-data t v subnode address cmd_ack 0 d sz hs hd,
      )

  -- A frame whose checksum was computed for other words, different in at most two neighbouring bytes, is
  -- refused with `IL_EWRONGCRC`.
  pub receive-corrupted :
      (t : Table) (pre suf : List ℕ) (a b c d address sz : ℕ) (has_buf : Bool) (e : EthNet S)
      → IsValid t
      → IsValid e.table
      → Bytes (pre ++ a ∷ b ∷ suf)
      → Bytes (pre ++ c ∷ d ∷ suf)
      → length (pre ++ a ∷ b ∷ suf) ≡ 12
      → (a ≢ c) ⊎ (b ≢ d)
      → (let frame = (pre ++ c ∷ d ∷ suf) ++ le_bytes 2 (crc_calc_eth t (pre ++ a ∷ b ∷ suf) 6).0 in
          receive address sz has_buf frame e ≡ some (err ewrongcrc, after_crc e frame))
  receive-corrupted t pre suf a b c d address sz has_buf e v w h k len ne =
      refused_lem address sz has_buf (seen ++ le_bytes 2 crc) e (λ same. differs ne (
        crc_calc_eth-burst t e.table pre suf a b c d 6 v w h k (omega arith) len
          (sym (trailer seen crc seen_len crc-lt) ∙ sym same ∙ computed)))
    where
      sent : List ℕ
      sent = pre ++ a ∷ b ∷ suf

      seen : List ℕ
      seen = pre ++ c ∷ d ∷ suf

      crc : ℕ
      crc = (crc_calc_eth t sent 6).0

      crc-lt : crc < 2 ^ 16
      crc-lt = omega (
        arith,
        crc_calc_eth-whole t sent 6 v h (omega arith) len,
        serial-lt 0 sent (omega arith) h,
      )

      seen_len : length seen ≡ 12
      seen_len =
          omega (arith, length-append pre (a ∷ b ∷ suf), length-append pre (c ∷ d ∷ suf), len)

      computed : remainder e (seen ++ le_bytes 2 crc) ≡ (crc_calc_eth e.table seen 6).0
      computed =
          crc_calc_eth-trailer e.table seen crc w k seen_len crc-lt
          ∙ sym (crc_calc_eth-whole e.table seen 6 w k (omega arith) seen_len)
