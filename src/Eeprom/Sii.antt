-- ===== src/Eeprom/Sii.antt =====
-- `SIIcrc` of ingenialink/ecat/net.c: what the checksum of the first 14 bytes detects.
use ingenialink.Base.{
  ℕ, zero, suc, ◌+◌, ◌/◌, ◌%◌, ◌<◌, ◌≤◌, ◌≡◌, ◌≢◌, refl, sym, ap, ◌∙◌, bit_xor, Bool, true, false,
  ◌&&◌, List, get_or, ◌==◌, ltb, if◌then◌else◌, Bool-cases, inl, inr, arith,
}
use ingenialink.Base.Bits.{xor-lt, xor_comm, xor_cancel}
use ingenialink.Eeprom.Copied.{IsBytes}
use ingenialink.Eeprom.Tool.{sii_round, sii_rounds, calc_crc, sii_from, sii_crc}

-- The round before a result.
abbrev round_back : ℕ → ℕ
round_back c = if c % 2 == 0 then c / 2 else bit_xor c 0x07 / 2 + 128

abbrev is_back : ℕ → Bool
is_back c = round_back (sii_round c) == c && ltb (sii_round c) 256

abbrev all_back : ℕ → Bool
all_back zero = true
all_back (suc n) = is_back n && all_back n

both : (p q : Bool) → (p && q) ≡ true → (p ≡ true) × (q ≡ true)
both true true h = (refl, refl)
both true false h = absurd (ground (arith, h))
both false q h = absurd (ground (arith, h))

all_back_lem : (n c : ℕ) → all_back n ≡ true → c < n → is_back c ≡ true
all_back_lem zero c a h = absurd (omega arith)
all_back_lem (suc n) c a h =
    let (last, before) = both (is_back n) (all_back n) a in
    elim (Bool-cases (c == n)) [
      | inl e ↦ let same : c ≡ n = ground (arith, e) in ap is_back same ∙ last
      | inr e ↦ all_back_lem n c before (ground (arith, e))
    ]

told : (a b d : ℕ) → (a == b && ltb d 256) ≡ true → (a ≡ b) × (d < 256)
told a b d h = (ground (arith, h), ground (arith, h))

sii_round_lem : (c : ℕ) → c < 256 → (round_back (sii_round c) ≡ c) × (sii_round c < 256)
sii_round_lem c h = told (round_back (sii_round c)) c (sii_round c) (all_back_lem 256 c refl h)

sii_rounds-injective : (n c d : ℕ) → c < 256 → d < 256 → sii_rounds n c ≡ sii_rounds n d → c ≡ d
sii_rounds-injective zero c d h k e = e
sii_rounds-injective (suc n) c d h k e =
    let (back_c, lt_c) = sii_round_lem c h in
    let (back_d, lt_d) = sii_round_lem d k in
    sym back_c
    ∙ ap round_back (sii_rounds-injective n (sii_round c) (sii_round d) lt_c lt_d e)
    ∙ back_d

sii_rounds-lt : (n c : ℕ) → c < 256 → sii_rounds n c < 256
sii_rounds-lt zero c h = h
sii_rounds-lt (suc n) c h = sii_rounds-lt n (sii_round c) (sii_round_lem c h).1

calc_crc-lt : (c b : ℕ) → c < 256 → b < 256 → calc_crc c b < 256
calc_crc-lt c b h k = sii_rounds-lt 8 (bit_xor c b) (xor-lt 8 c b h k)

-- One step is reversible, in the checksum and in the byte.
calc_crc-injective : (c d b : ℕ) → c < 256 → d < 256 → b < 256 → calc_crc c b ≡ calc_crc d b → c ≡ d
calc_crc-injective c d b h k l e =
    xor_cancel b c d
      (sii_rounds-injective 8 (bit_xor c b) (bit_xor d b) (xor-lt 8 c b h l) (xor-lt 8 d b k l) e)

calc_crc-injective_byte :
    (c a b : ℕ) → c < 256 → a < 256 → b < 256 → calc_crc c a ≡ calc_crc c b → a ≡ b
calc_crc-injective_byte c a b h k l e = xor_cancel c a b (
    xor_comm a c
    ∙ sii_rounds-injective 8 (bit_xor c a) (bit_xor c b) (xor-lt 8 c a h k) (xor-lt 8 c b h l) e
    ∙ xor_comm c b)

-- Over equal bytes, the checksum at the end tells that at the start.
sii_from-injective :
    (n i c d : ℕ) (xs ys : List ℕ)
    → IsBytes xs
    → c < 256
    → d < 256
    → ((j : ℕ) → i ≤ j → j < i + n → get_or xs j 0 ≡ get_or ys j 0)
    → sii_from n i xs c ≡ sii_from n i ys d
    → c ≡ d
sii_from-injective zero i c d xs ys b h k same e = e
sii_from-injective (suc n) i c d xs ys b h k same e =
    let x = get_or xs i 0 in
    let y = get_or ys i 0 in
    let equal : x ≡ y = same i (omega arith) (omega arith) in
    let y-lt : y < 256 = omega (arith, b i, equal) in
    calc_crc-injective c d x h k (b i) (
      sii_from-injective n (i + 1) (calc_crc c x) (calc_crc d y) xs ys b (calc_crc-lt c x h (b i))
        (calc_crc-lt d y k y-lt) (λ j p q. same j (omega arith) (omega arith)) e
      ∙ ap (calc_crc d) (sym equal))

sii_from_detects :
    (n i at c : ℕ) (xs ys : List ℕ)
    → IsBytes xs
    → IsBytes ys
    → c < 256
    → i ≤ at
    → at < i + n
    → ((j : ℕ) → j ≢ at → j < i + n → get_or xs j 0 ≡ get_or ys j 0)
    → sii_from n i xs c ≡ sii_from n i ys c
    → get_or xs at 0 ≡ get_or ys at 0
sii_from_detects zero i at c xs ys b d h p q same e = absurd (omega arith)
sii_from_detects (suc n) i at c xs ys b d h p q same e =
    let x = get_or xs i 0 in
    let y = get_or ys i 0 in
    elim (Bool-cases (i == at)) [
      | inl f ↦
          let here : i ≡ at = ground (arith, f) in
          let equal = calc_crc-injective_byte c x y h (b i) (d i) (
            sii_from-injective n (i + 1) (calc_crc c x) (calc_crc c y) xs ys b
              (calc_crc-lt c x h (b i)) (calc_crc-lt c y h (d i))
              (λ j k l. same j (λ s. omega (arith, s, here)) (omega arith)) e) in
          ap (λ (k : ℕ). get_or xs k 0) (sym here) ∙ equal ∙ ap (λ (k : ℕ). get_or ys k 0) here
      | inr f ↦
          let apart : i ≢ at = λ s. ground (arith, f, s) in
          let equal : x ≡ y = same i apart (omega arith) in
          sii_from_detects n (i + 1) at (calc_crc c x) xs ys b d (calc_crc-lt c x h (b i))
            (omega (arith, apart)) (omega arith) (λ j k l. same j k (omega arith))
            (e ∙ ap (λ (z : ℕ). sii_from n (i + 1) ys (calc_crc c z)) (sym equal))
    ]

-- The checksum detects every change of one byte: two arrays of bytes whose first 14 bytes agree but for one have different
-- checksums.
pub sii_crc_detects :
    (at : ℕ) (xs ys : List ℕ)
    → at < 14
    → IsBytes xs
    → IsBytes ys
    → ((j : ℕ) → j ≢ at → j < 14 → get_or xs j 0 ≡ get_or ys j 0)
    → get_or xs at 0 ≢ get_or ys at 0
    → sii_crc xs ≢ sii_crc ys
sii_crc_detects at xs ys h b d same differ e =
    differ (sii_from_detects 14 0 at 0xff xs ys b d (omega arith) (omega arith) h same e)
