-- ===== src/Link/Layout.antt =====
-- The fields of the frames of ingenialink/eth/net.c.
use ingenialink.Base.{
  ℕ, zero, suc, ◌+◌, ◌*◌, ◌/◌, ◌%◌, ◌^◌, ◌<◌, ◌≤◌, ◌≡◌, refl, bit_and, List, [], ◌∷◌, ◌++◌, length,
  length-append, take-append, get_or-append, drop, take, arith, ap, ◌∙◌, sym,
}
use mathlib.Core.Path.{subst}
use native.Mathlib.Nat.{pow-succ'}
use ingenialink.Base.Bits.{or_fields, bit_and_step, and_mask}
use ingenialink.Crc.{Table, crc_calc_eth}
use ingenialink.Crc.Serial.{serial}
use ingenialink.Crc.Fill.{IsValid}
use ingenialink.Crc.Detect.{Bytes, crc_calc_eth-serial, crc_calc_eth-whole, serial-lt}
use ingenialink.Link.{le_bytes, le_value, word_at, hdr_h, hdr_l, body, build}

-- The bytes of a number that fits them give the number back, also when more bytes were stored.
pub le_value-le_bytes :
    (m n v : ℕ) (xs : List ℕ) → m ≤ n → v < 256 ^ m → le_value (take m (le_bytes n v ++ xs)) ≡ v
le_value-le_bytes zero n v xs le h = omega arith
le_value-le_bytes (suc m) zero v xs le h = absurd (omega arith)
le_value-le_bytes (suc m) (suc n) v xs le h = omega (
  arith,
  pow-succ' 256 m,
  le_value-le_bytes m n (v / 256) xs (omega arith) (omega (arith, pow-succ' 256 m)),
)

-- The header's low word holds the address, the command and the pending bit side by side.
pub hdr_l-fields :
    (address cmd extended : ℕ)
    → address < 2 ^ 12
    → cmd < 2 ^ 3
    → extended < 2
    → hdr_l address cmd extended ≡ address * 2 ^ 4 + cmd * 2 + extended
unfolding hdr_l
hdr_l-fields address cmd extended ha hc he = ground (
  arith,
  or_fields 4 address (cmd * 2) (omega arith),
  or_fields 1 (address * 2 ^ 3 + cmd) extended (omega arith),
)

hdr_h-fields : (subnode : ℕ) → subnode < 2 ^ 4 → hdr_h subnode ≡ 0xA * 2 ^ 4 + subnode
unfolding hdr_h
hdr_h-fields subnode h = ground (arith, or_fields 4 0xA subnode h)

-- The three fields as the receiver takes them out of the low word.
pub field_cmd : (h : ℕ) → bit_and h 0x000E / 2 ^ 1 ≡ h / 2 % 2 ^ 3
field_cmd h = omega (arith, bit_and_step h 0x000E, and_mask 3 (h / 2))

pub field_pending : (h : ℕ) → bit_and h 0x0001 ≡ h % 2
field_pending h = and_mask 1 h

pub field_address : (h : ℕ) → bit_and h 0xFFF0 / 2 ^ 4 ≡ h / 2 ^ 4 % 2 ^ 12
field_address h = omega (
  arith,
  bit_and_step h 0xFFF0,
  bit_and_step (h / 2) 0x7FF8,
  bit_and_step (h / 2 / 2) 0x3FFC,
  bit_and_step (h / 2 / 2 / 2) 0x1FFE,
  and_mask 12 (h / 2 / 2 / 2 / 2),
)

append-Bytes : (xs ys : List ℕ) → Bytes xs → Bytes ys → Bytes (xs ++ ys)
append-Bytes [] ys h k = k
append-Bytes (x ∷ xs) ys h k = (h.0, append-Bytes xs ys h.1 k)

body-Bytes : (subnode address cmd extended d : ℕ) → Bytes (body subnode address cmd extended d)
unfolding body
body-Bytes subnode address cmd extended d = ground arith

body-length :
    (subnode address cmd extended d : ℕ) → length (body subnode address cmd extended d) ≡ 12
unfolding body
body-length subnode address cmd extended d = refl

body-hdr_l :
    (subnode address cmd extended d : ℕ) (xs : List ℕ)
    → word_at (body subnode address cmd extended d ++ xs) 1 ≡ hdr_l address cmd extended % 2 ^ 16
unfolding body
body-hdr_l subnode address cmd extended d xs = omega arith

body-data :
    (subnode address cmd extended d : ℕ) (xs : List ℕ) (sz : ℕ)
    → sz ≤ 8
    → d < 256 ^ sz
    → le_value (take sz (drop 4 (body subnode address cmd extended d ++ xs))) ≡ d
unfolding body
body-data subnode address cmd extended d xs sz le h = le_value-le_bytes sz 8 d xs le h

-- A frame is its body and the checksum of the body.
build_lem :
    (t : Table) (subnode address cmd extended d : ℕ)
    → (build t subnode address cmd extended d).0
      ≡ body subnode address cmd extended d
        ++ le_bytes 2 (crc_calc_eth t (body subnode address cmd extended d) 6).0
unfolding build
build_lem t subnode address cmd extended d = refl

-- Behind 12 bytes, two bytes hold a word; the checksum does not read them.
pub trailer :
    (ws : List ℕ) (x : ℕ) → length ws ≡ 12 → x < 2 ^ 16 → word_at (ws ++ le_bytes 2 x) 6 ≡ x
trailer ws x len h = omega (
  arith,
  get_or-append ws (le_bytes 2 x) 12 0 0 (omega arith),
  get_or-append ws (le_bytes 2 x) 13 1 0 (omega arith),
)

pub crc_calc_eth-trailer :
    (u : Table) (ws : List ℕ) (x : ℕ)
    → IsValid u
    → Bytes ws
    → length ws ≡ 12
    → x < 2 ^ 16
    → (crc_calc_eth u (ws ++ le_bytes 2 x) 6).0 ≡ serial 0 ws
crc_calc_eth-trailer u ws x v b len h =
    (crc_calc_eth-serial u (ws ++ le_bytes 2 x) 6 v
      (append-Bytes ws (le_bytes 2 x) b (omega arith, (omega arith, tt))) (omega arith)
      (omega (arith, length-append ws (le_bytes 2 x), len))).0
    ∙ ap (serial 0) (take-append ws (le_bytes 2 x) 12 len)

checked :
    (u : Table) (ws : List ℕ)
    → IsValid u
    → Bytes ws
    → length ws ≡ 12
    → (crc_calc_eth u (ws ++ le_bytes 2 (serial 0 ws)) 6).0
      ≡ word_at (ws ++ le_bytes 2 (serial 0 ws)) 6
checked u ws v b len =
    crc_calc_eth-trailer u ws (serial 0 ws) v b len (serial-lt 0 ws (omega arith) b)
    ∙ sym (trailer ws (serial 0 ws) len (serial-lt 0 ws (omega arith) b))

module _ (t : Table) (valid : IsValid t) (subnode address cmd extended d : ℕ) where
  pub build-serial :
      (build t subnode address cmd extended d).0
      ≡ body subnode address cmd extended d
        ++ le_bytes 2 (serial 0 (body subnode address cmd extended d))
  build-serial =
      build_lem t subnode address cmd extended d
      ∙ ap (λ crc. body subnode address cmd extended d ++ le_bytes 2 crc)
          (crc_calc_eth-whole t (body subnode address cmd extended d) 6 valid
            (body-Bytes subnode address cmd extended d) (omega arith)
            (body-length subnode address cmd extended d))

  -- The checksum that the sender stores behind the body is the one that the receiver computes.
  pub build-checked :
      (u : Table)
      → IsValid u
      → (crc_calc_eth u (build t subnode address cmd extended d).0 6).0
        ≡ word_at (build t subnode address cmd extended d).0 6
  build-checked u w =
      subst (λ frame. (crc_calc_eth u frame 6).0 ≡ word_at frame 6) (sym build-serial)
        (checked u (body subnode address cmd extended d) w
          (body-Bytes subnode address cmd extended d) (body-length subnode address cmd extended d))

  -- The low header word and the data words of a frame.
  pub build-hdr_l :
      word_at (build t subnode address cmd extended d).0 1 ≡ hdr_l address cmd extended % 2 ^ 16
  build-hdr_l =
      subst (λ frame. word_at frame 1 ≡ hdr_l address cmd extended % 2 ^ 16) (sym build-serial)
        (body-hdr_l subnode address cmd extended d _)

  pub build-data :
      (sz : ℕ)
      → sz ≤ 8
      → d < 256 ^ sz
      → le_value (take sz (drop 4 (build t subnode address cmd extended d).0)) ≡ d
  build-data sz le h =
      subst (λ frame. le_value (take sz (drop 4 frame)) ≡ d) (sym build-serial)
        (body-data subnode address cmd extended d _ sz le h)
