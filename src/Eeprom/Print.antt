-- ===== src/Eeprom/Print.antt =====
-- `output_intelhex` of ingenialink/ecat/net.c: the text of an Intel HEX file.
use ingenialink.Base.{
  ℕ, zero, suc, ◌+◌, ◌-◌, ◌/◌, ◌%◌, ◌^◌, bit_and, max, min, List, [], ◌∷◌, ◌++◌, get_or, ◌==◌, ltb,
  if◌then◌else◌,
}

-- A digit of `%X`.
abbrev pub hex_digit : ℕ → ℕ
hex_digit d = if ltb d 10 then 48 + d else 55 + d

-- The last `w` digits.
abbrev pub hex_fixed : ℕ → ℕ → List ℕ
hex_fixed zero n = []
hex_fixed (suc w) n = hex_fixed w (n / 16) ++ hex_digit (n % 16) ∷ []

-- How many digits there are, of 8 at most.
unfoldable pub hex_width : ℕ → ℕ → ℕ
hex_width zero n = 0
hex_width (suc k) n = let rest = hex_width k (n / 16) in if n == 0 then 0 else rest + 1

-- `%2.2X`, `%4.4X`: `w` digits, or more if they are needed.
unfoldable pub hex : ℕ → ℕ → List ℕ
unfolding hex_width
hex w n = hex_fixed (max w (hex_width 8 n)) n

-- The loop over the bytes of a record, and their sum.
unfoldable pub print_bytes : ℕ → ℕ → List ℕ → List ℕ
unfolding hex
print_bytes zero idx ebuf = []
print_bytes (suc n) idx ebuf = hex 2 (get_or ebuf idx 0) ++ print_bytes n (idx + 1) ebuf

unfoldable pub sum_bytes : ℕ → ℕ → List ℕ → ℕ
sum_bytes zero idx ebuf = 0
sum_bytes (suc n) idx ebuf = get_or ebuf idx 0 + sum_bytes n (idx + 1) ebuf

-- `(0x100 - sum) & 0xff` of a sum that is an `int`, behind the bytes written.
abbrev pub output_checksum : ℕ → ℕ
output_checksum sum = (2 ^ 32 + 0x100 - sum) % 256

-- A record of `ll` bytes from `cc`, without its end of line.
unfoldable pub print_record : ℕ → ℕ → List ℕ → List ℕ
unfolding hex print_bytes sum_bytes
print_record ll cc ebuf =
    b':'
    ∷ (hex 2 ll
        ++ (hex 4 cc
            ++ (b'0'
                ∷ b'0'
                ∷ (print_bytes ll cc ebuf
                    ++ hex 2 (
                        output_checksum
                          (ll + cc / 2 ^ 8 + bit_and cc 0xff + sum_bytes ll cc ebuf))))))

-- `:00000001FF`
abbrev pub end_record : List ℕ
end_record = b':' ∷ b'0' ∷ b'0' ∷ b'0' ∷ b'0' ∷ b'0' ∷ b'0' ∷ b'0' ∷ b'1' ∷ b'F' ∷ b'F' ∷ []

-- The loop from `cc`, by the bytes left at most.
unfoldable pub print_records : ℕ → ℕ → ℕ → List ℕ → List ℕ
unfolding print_record
print_records zero cc length_ ebuf = end_record ++ 0x0A ∷ []
print_records (suc n) cc length_ ebuf =
    let ll = min (length_ - cc) 0x20 in
    let rest = print_records n (cc + ll) length_ ebuf in
    if ltb cc length_ then print_record ll cc ebuf ++ 0x0A ∷ rest else end_record ++ 0x0A ∷ []

-- The contents of the file, if it is opened.
unfoldable pub output_intelhex : ℕ → List ℕ → List ℕ
unfolding print_records
output_intelhex length_ ebuf = print_records length_ 0 length_ ebuf
