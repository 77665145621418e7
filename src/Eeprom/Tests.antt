-- ===== src/Eeprom/Tests.antt =====
-- Runs of the Intel HEX files, and a witness.
use ingenialink.Base.{
  set, ◌≢◌, ℕ, zero, suc, ◌+◌, ◌*◌, ◌-◌, ◌/◌, ◌%◌, ◌^◌, ◌<◌, ◌≤◌, ◌≡◌, refl, sym, ap, ◌∙◌, Bool,
  ◌&&◌, ◌||◌, leb, none, some, true, false, List, [], ◌∷◌, ◌++◌, length, length-append,
  append_assoc, get_or, ◌==◌, ltb, arith, replicate, if◌then◌else◌,
}
use native.Mathlib.Nat.{pow-succ'}
use ingenialink.Eeprom.Print.{hex_digit, hex_fixed, output_intelhex}
use ingenialink.Eeprom.Scan.{Scanned, matched, mismatch, at_end, input_intelhex}
use ingenialink.Eeprom.Text.{length-hex_fixed}
use ingenialink.Eeprom.Records.{Reads}
use ingenialink.Eeprom.Copied.{IsBytes, get_or-set_other}
use ingenialink.Eeprom.Sii.{sii_crc_detects}
use ingenialink.Eeprom.Writing.{eeprom_write-Written, Written}
use ingenialink.Eeprom.Master.{eeprom_write}
use ingenialink.Eeprom.Tool.{Tool, mode_readintel, mode_writeintel, sii_crc}
use ingenialink.Eeprom.Clone.{IsCloned, eeprom_tool_clone}
use ingenialink.Eeprom.Simulated.{World, soem, memory, bus, zeros, zeros-IsBuffer}
use ingenialink.Eeprom.Round.{input_intelhex-output_intelhex}

-- A conversion that reads hexadecimal digits in capitals.
abbrev is_digit : ℕ → Bool
is_digit c = (leb 48 c && leb c 57) || (leb 65 c && leb c 70)

abbrev digits : ℕ → ℕ → List ℕ → ℕ × List ℕ
digits zero v text = (v, text)
digits (suc w) v [] = (v, [])
digits (suc w) v (c ∷ cs) =
    let rest = digits w (v * 16 + (if ltb c 58 then c - 48 else c - 55)) cs in
    if is_digit c then rest else (v, c ∷ cs)

abbrev scan_hex : ℕ → List ℕ → Scanned
scan_hex w text =
    let (v, rest) = digits w 0 text in
    if length rest == length text
    then (if get_or text 0 0 == 0 then at_end else mismatch)
    else matched v rest

digits_step :
    (w v d : ℕ) (cs : List ℕ)
    → d < 16
    → digits (suc w) v (hex_digit d ∷ cs) ≡ digits w (v * 16 + d) cs
digits_step w v d cs h =
    let test : is_digit (hex_digit d) ≡ true = ground arith in
    let value : (if ltb (hex_digit d) 58 then hex_digit d - 48 else hex_digit d - 55) ≡ d =
      ground arith in
    rw test (rw value refl)

expand : (v q n : ℕ) → (v * q + n / 16) * 16 + n % 16 ≡ v * (16 * q) + n
expand v q n = omega arith

digits_lem :
    (w k v n : ℕ) (rest : List ℕ)
    → n < 16 ^ w
    → digits (w + k) v (hex_fixed w n ++ rest) ≡ digits k (v * 16 ^ w + n) rest
digits_lem zero k v n rest h =
    let same : 0 + k ≡ k = omega arith in
    let total : v ≡ v * 1 + n = omega arith in
    ap (λ (w : ℕ). digits w v rest) same ∙ ap (λ (x : ℕ). digits k x rest) total
digits_lem (suc w) k v n rest h =
    let more : suc w + k ≡ w + suc k = omega arith in
    let p = pow-succ' 16 w in
    let total : (v * 16 ^ w + n / 16) * 16 + n % 16 ≡ v * 16 ^ suc w + n =
      expand v (16 ^ w) n ∙ sym (ap (λ (q : ℕ). v * q + n) p) in
    ap (λ (m : ℕ). digits m v ((hex_fixed w (n / 16) ++ hex_digit (n % 16) ∷ []) ++ rest)) more
    ∙ ap (digits (w + suc k) v) (append_assoc (hex_fixed w (n / 16)) (hex_digit (n % 16) ∷ []) rest)
    ∙ digits_lem w (suc k) v (n / 16) (hex_digit (n % 16) ∷ rest) (omega (arith, p))
    ∙ digits_step k (v * 16 ^ w + n / 16) (n % 16) rest (omega arith)
    ∙ ap (λ (x : ℕ). digits k x rest) total

scan_hex-Reads : Reads scan_hex
scan_hex-Reads w n rest p h =
    let all : w + 0 ≡ w = omega arith in
    let value : 0 * 16 ^ w + n ≡ n = omega arith in
    let seen : digits w 0 (hex_fixed w n ++ rest) ≡ (n, rest) =
      ap (λ (m : ℕ). digits m 0 (hex_fixed w n ++ rest)) (sym all)
      ∙ digits_lem w 0 0 n rest h
      ∙ ap (λ (x : ℕ). (x, rest)) value in
    let longer : (length rest == length (hex_fixed w n ++ rest)) ≡ false =
      ground (arith, length-append (hex_fixed w n) rest, length-hex_fixed w n) in
    rw seen (rw longer refl)

-- Forty bytes, in two records.
abbrev bytes : List ℕ
bytes = 0xC ∷ 0xFF ∷ replicate 36 0x5A ++ 0xA ∷ 0xDE ∷ []

abbrev small : List ℕ → Bool
small [] = true
small (x ∷ xs) = ltb x 256 && small xs

small-IsBytes : (xs : List ℕ) → small xs ≡ true → IsBytes xs
small-IsBytes [] h i = omega arith
small-IsBytes (x ∷ xs) h zero = ground (arith, h)
small-IsBytes (x ∷ xs) h (suc i) = small-IsBytes xs (ground (arith, h)) i

bytes-IsBytes : IsBytes bytes
bytes-IsBytes = small-IsBytes bytes refl

input_intelhex-output_intelhex_example :
    (ebuf : List ℕ) × (input_intelhex scan_hex 0 (output_intelhex 40 bytes) (replicate 64 0)
      ≡ some (some (0, 40), ebuf))
    × (length ebuf ≡ 64)
    × ((j : ℕ) → j < 40 → get_or ebuf j 0 ≡ get_or bytes j 0)
    × ((j : ℕ) → 40 ≤ j → get_or ebuf j 0 ≡ get_or (replicate 64 0) j 0)
input_intelhex-output_intelhex_example =
    input_intelhex-output_intelhex scan_hex scan_hex-Reads 0 40 bytes (replicate 64 0) (omega arith)
      (omega arith) (omega arith) bytes-IsBytes

-- A record with a wrong checksum, one that states more bytes than its line can hold, a line too short, and a last
-- line without its end.
wrong_checksum :
    input_intelhex scan_hex 0
      (b':' ∷ b'0' ∷ b'1' ∷ b'0' ∷ b'0' ∷ b'0' ∷ b'0' ∷ b'0' ∷ b'0' ∷ b'0' ∷ b'A' ∷ b'F' ∷ b'6'
        ∷ 0x0A ∷ [])
      (9 ∷ [])
    ≡ some (none, 10 ∷ [])
unfolding input_intelhex
wrong_checksum = refl

too_many_bytes :
    input_intelhex scan_hex 0
      (b':' ∷ b'7' ∷ b'C' ∷ b'0' ∷ b'0' ∷ b'0' ∷ b'0' ∷ b'0' ∷ b'0' ∷ b'0' ∷ b'A' ∷ 0x0A ∷ [])
      []
    ≡ none
unfolding input_intelhex
too_many_bytes = refl

too_short : input_intelhex scan_hex 0 (b':' ∷ b'0' ∷ b'0' ∷ 0x0A ∷ []) [] ≡ some (none, [])
unfolding input_intelhex
too_short = refl

no_end_of_line :
    input_intelhex scan_hex 0
      (b':' ∷ b'0' ∷ b'1' ∷ b'0' ∷ b'0' ∷ b'0' ∷ b'0' ∷ b'0' ∷ b'0' ∷ b'0' ∷ b'A' ∷ b'F' ∷ b'5'
        ∷ [])
      (9 ∷ [])
    ≡ some (some (524288, 0), 9 ∷ [])
unfolding input_intelhex
no_end_of_line = refl

-- Two records in descending addresses: the start is 1, and the length that of one record.
descending :
    input_intelhex scan_hex 0
      (b':' ∷ b'0' ∷ b'1' ∷ b'0' ∷ b'0' ∷ b'0' ∷ b'2' ∷ b'0' ∷ b'0' ∷ b'0' ∷ b'A' ∷ b'F' ∷ b'3'
        ∷ 0x0A ∷ b':' ∷ b'0' ∷ b'1' ∷ b'0' ∷ b'0' ∷ b'0' ∷ b'1' ∷ b'0' ∷ b'0' ∷ b'0' ∷ b'B' ∷ b'F'
        ∷ b'3' ∷ 0x0A ∷ [])
      (9 ∷ 9 ∷ 9 ∷ [])
    ≡ some (some (1, 1), 9 ∷ 11 ∷ 10 ∷ [])
unfolding input_intelhex
descending = refl

-- A memory that counts, but for the size that it states, 128 bytes; and an empty one.
abbrev numbers : ℕ → ℕ
numbers i = if i == 0x7C then 0 else if i == 0x7D then 0 else i

-- No slave is granted to the master yet.
abbrev counting : World
counting = (numbers, 0, 0)

abbrev source : Tool World
source = record { ebuf = (zeros 524288).0; file = none; world = counting }

abbrev target : Tool World
target = record { ebuf = (zeros 524288).0; file = none; world = (λ i. 0xFF, 0, 0) }

eeprom_tool_clone_example :
    IsCloned soem 1 bus soem 1 bus scan_hex 0 0 true mode_readintel mode_writeintel source target
eeprom_tool_clone_example =
    eeprom_tool_clone soem 1 bus soem 1 bus scan_hex 0 0 true source target scan_hex-Reads
      zeros-IsBuffer zeros-IsBuffer (omega arith)

eeprom_write-Written_example :
    (w1 : World) × (eeprom_write soem 1 1 2 5 bytes counting ≡ (true, w1))
    × Written soem 0 memory 2 7 bytes counting w1
eeprom_write-Written_example =
    eeprom_write-Written soem 1 1 0 bus.place memory 2 5 bytes counting (omega arith) (omega arith)
      refl (omega arith) bytes-IsBytes

-- Two bytes from an odd place: the second one is not written.
odd_start : (eeprom_write soem 1 1 1 2 bytes (λ i. 0, 0, 0)).1.0 2 ≡ 0
unfolding eeprom_write
odd_start = refl

sii_crc_detects_example : sii_crc (set bytes 4 7) ≢ sii_crc bytes
sii_crc_detects_example =
    sii_crc_detects 4 (set bytes 4 7) bytes (omega arith) (small-IsBytes (set bytes 4 7) refl)
      bytes-IsBytes (λ j p q. get_or-set_other bytes 4 j 7 (λ e. p (sym e)))
      (λ e. ground (arith, e))

sii_crc_bytes : sii_crc bytes ≡ 0x7B
sii_crc_bytes = refl
