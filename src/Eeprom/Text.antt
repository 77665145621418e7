-- ===== src/Eeprom/Text.antt =====
-- The text of Intel HEX records, ingenialink/ecat/net.c: digits and lines.
use ingenialink.Base.{
  append-nil, ℕ, zero, suc, ◌+◌, ◌/◌, ◌%◌, ◌^◌, ◌<◌, ◌≤◌, ◌≡◌, ◌≢◌, refl, sym, ap, ◌∙◌, max, List,
  [], ◌∷◌, ◌++◌, length, length-append, append_assoc, arith,
}
use native.Mathlib.Nat.{pow-succ'}
use ingenialink.Eeprom.Print.{hex_digit, hex_fixed, hex_width, hex}
use ingenialink.Eeprom.Scan.{lines}

hex_width-le : (k w n : ℕ) → n < 16 ^ w → hex_width k n ≤ w
unfolding hex_width
hex_width-le zero w n h = omega arith
hex_width-le (suc k) zero n h = ground arith
hex_width-le (suc k) (suc w) n h =
    ground (arith, hex_width-le k w (n / 16) (omega (arith, pow-succ' 16 w)))

-- A number with room in the width is printed with that many digits.
pub hex_lem : (w n : ℕ) → n < 16 ^ w → hex w n ≡ hex_fixed w n
unfolding hex
hex_lem w n h =
    let wide : max w (hex_width 8 n) ≡ w = omega (arith, hex_width-le 8 w n h) in
    ap (λ (k : ℕ). hex_fixed k n) wide

pub length-hex_fixed : (w n : ℕ) → length (hex_fixed w n) ≡ w
length-hex_fixed zero n = refl
length-hex_fixed (suc w) n =
    length-append (hex_fixed w (n / 16)) (hex_digit (n % 16) ∷ [])
    ∙ omega (arith, length-hex_fixed w (n / 16))

-- No end of line.
abbrev pub Plain : List ℕ → Type 0
Plain [] = Unit
Plain (c ∷ cs) = (c ≢ 0x0A) × Plain cs

pub append-Plain : (xs ys : List ℕ) → Plain xs → Plain ys → Plain (xs ++ ys)
append-Plain [] ys p q = q
append-Plain (x ∷ xs) ys p q = (p.0, append-Plain xs ys p.1 q)

hex_digit-Plain : (d : ℕ) → d < 16 → hex_digit d ≢ 0x0A
hex_digit-Plain d h = λ e. ground (arith, e)

pub hex_fixed-Plain : (w n : ℕ) → Plain (hex_fixed w n)
hex_fixed-Plain zero n = tt
hex_fixed-Plain (suc w) n =
    append-Plain (hex_fixed w (n / 16)) (hex_digit (n % 16) ∷ []) (hex_fixed-Plain w (n / 16))
      (hex_digit-Plain (n % 16) (omega arith), tt)

lines_step :
    (c : ℕ) (cs line : List ℕ)
    → c ≢ 0x0A
    → length line < 255
    → lines (c ∷ cs) line ≡ lines cs (line ++ c ∷ [])
unfolding lines
lines_step c cs line h k = ground arith

lines_end : (cs line : List ℕ) → lines (0x0A ∷ cs) line ≡ line ∷ lines cs []
unfolding lines
lines_end cs line = refl

-- A line of 255 characters at most is read whole.
pub lines-line :
    (xs rest line : List ℕ)
    → Plain xs
    → length line + length xs ≤ 255
    → lines (xs ++ 0x0A ∷ rest) line ≡ (line ++ xs) ∷ lines rest []
lines-line [] rest line p h =
    lines_end rest line ∙ ap (λ (l : List ℕ). l ∷ lines rest []) (sym (append-nil line))
lines-line (x ∷ xs) rest line p h =
    lines_step x (xs ++ 0x0A ∷ rest) line p.0 (omega arith)
    ∙ lines-line xs rest (line ++ x ∷ []) p.1 (omega (arith, length-append line (x ∷ [])))
    ∙ ap (λ (l : List ℕ). l ∷ lines rest []) (append_assoc line (x ∷ []) xs)
