-- ===== src/Eeprom/Round.antt =====
-- The round trip of an Intel HEX file, ingenialink/ecat/net.c.
use ingenialink.Base.{
  ℕ, zero, suc, ◌+◌, ◌-◌, ◌^◌, ◌<◌, ◌≤◌, ◌≡◌, refl, sym, ap, ◌∙◌, min, true, false, List, [], ◌∷◌,
  ◌++◌, length, get_or, ltb, arith, some, replicate, Bool-cases, inl, inr,
}
use mathlib.Core.Path.{subst}
use ingenialink.Eeprom.{max_buf}
use ingenialink.Eeprom.Print.{hex_fixed, print_record, end_record, print_records, output_intelhex}
use ingenialink.Eeprom.Scan.{Scanned, padded, lines, Hex, scan_record, scan_lines, input_intelhex}
use ingenialink.Eeprom.Text.{lines-line}
use ingenialink.Eeprom.Records.{Reads, copied}
use ingenialink.Eeprom.Copied.{
  IsBytes, IsBytes-AllBytes, length-copied, copied-add, copied_outside, copied_inside,
}
use ingenialink.Eeprom.Lines.{loaded, print_record-read, print_record-Plain}

print_records-more :
    (n cc len : ℕ) (buf : List ℕ)
    → cc < len
    → print_records (suc n) cc len buf
      ≡ print_record (min (len - cc) 0x20) cc buf
        ++ 0x0A ∷ print_records n (cc + min (len - cc) 0x20) len buf
unfolding print_records
print_records-more n cc len buf h = let test : ltb cc len ≡ true = ground arith in rw test refl

print_records-done :
    (n cc len : ℕ) (buf : List ℕ) → len ≤ cc → print_records n cc len buf ≡ end_record ++ 0x0A ∷ []
unfolding print_records
print_records-done zero cc len buf h = refl
print_records-done (suc n) cc len buf h =
    let test : ltb cc len ≡ false = ground arith in rw test refl

module _ (scan : ℕ → List ℕ → Scanned) (reads : Reads scan) where
  end_record-read : (h : Hex) → scan_record scan (padded end_record) h ≡ some (true, h)
  unfolding scan_record
  end_record-read h =
      let r3 = b'F' ∷ b'F' ∷ replicate 245 0 in
      let r2 = hex_fixed 2 1 ++ r3 in
      let r1 = hex_fixed 4 0 ++ r2 in
      ground (
        arith,
        reads 2 0 r1 (omega arith) (omega arith),
        reads 4 0 r2 (omega arith) (omega arith),
        reads 2 1 r3 (omega arith) (omega arith),
      )

  scan_lines-step :
      (line : List ℕ) (rest : List (List ℕ)) (h h1 : Hex)
      → 11 ≤ length line
      → get_or line 0 0 ≡ b':'
      → scan_record scan (padded line) h ≡ some (true, h1)
      → scan_lines scan (line ∷ rest) h ≡ scan_lines scan rest h1
  unfolding scan_lines
  scan_lines-step line rest h h1 a b e = ground (arith, e)

  -- The last line.
  end_record-lines :
      (h : Hex) → scan_lines scan (lines (end_record ++ 0x0A ∷ []) []) h ≡ some (true, h)
  unfolding scan_lines lines
  end_record-lines h =
      ap (λ (ls : List (List ℕ)). scan_lines scan ls h)
        (lines-line end_record [] []
          (
            omega arith,
            (
              omega arith,
              (
                omega arith,
                (
                  omega arith,
                  (
                    omega arith,
                    (
                      omega arith,
                      (omega arith, (omega arith, (omega arith, (omega arith, (omega arith, tt))))),
                    ),
                  ),
                ),
              ),
            ),
          )
          (omega arith))
      ∙ scan_lines-step end_record [] h h (omega arith) refl (end_record-read h)

  -- What the lines from `cc` on make of a state that holds the bytes before it.
  abbrev IsRead : ℕ → ℕ → List ℕ → Hex → List (List ℕ) → Type 0
  IsRead len cc buf h ls =
      (h1 : Hex) × (scan_lines scan ls h ≡ some (true, h1))
      × (h1.ebuf ≡ copied (len - cc) cc cc buf h.ebuf)
      × (h1.hlength ≡ len)
      × (0 < len → h1.hstart ≡ 0)

  loaded-hstart :
      (ll cc : ℕ) (buf : List ℕ) (h : Hex)
      → (0 < cc → h.hstart ≡ 0)
      → (loaded ll cc buf h).hstart ≡ 0
  loaded-hstart ll zero buf h a = ground arith
  loaded-hstart ll (suc cc) buf h a = ground (arith, a (omega arith))

  loaded-hlength :
      (ll cc : ℕ) (buf : List ℕ) (h : Hex)
      → h.hlength ≡ cc
      → (loaded ll cc buf h).hstart ≡ 0
      → (loaded ll cc buf h).hlength ≡ cc + ll
  loaded-hlength ll cc buf h a b = ground (arith, a, b)

  -- Behind the first record.
  first_record-IsRead :
      (ll cc len : ℕ) (buf : List ℕ) (h : Hex) (ls : List (List ℕ))
      → 0 < ll
      → cc + ll ≤ len
      → IsRead len (cc + ll) buf (loaded ll cc buf h) ls
      → ll ≤ 32
      → len ≤ 2 ^ 16
      → IsBytes buf
      → IsRead len cc buf h (print_record ll cc buf ∷ ls)
  unfolding print_record
  first_record-IsRead ll cc len buf h ls p a (h1, e, b, l, s) k w bs =
      let bytes = IsBytes-AllBytes ll cc buf bs in
      let (plain, long) = print_record-Plain ll cc buf k (omega arith) bytes in
      let split : len - cc ≡ ll + (len - (cc + ll)) = omega arith in
      (
        h1,
        scan_lines-step (print_record ll cc buf) ls h (loaded ll cc buf h) (omega (arith, long))
              refl (print_record-read scan reads ll cc buf h k (omega arith) (omega arith) bytes)
            ∙ e,
        b
            ∙ sym (
                ap (λ (n : ℕ). copied n cc cc buf h.ebuf) split
                ∙ copied-add ll (len - (cc + ll)) cc buf h.ebuf),
        l,
        s,
      )

  -- At the end, and at a record.
  done-IsRead :
      (n cc len : ℕ) (buf : List ℕ) (h : Hex)
      → len ≡ cc
      → h.hlength ≡ cc
      → (0 < cc → h.hstart ≡ 0)
      → IsRead len cc buf h (lines (print_records n cc len buf) [])
  done-IsRead n cc len buf h a l s =
      let none_left : 0 ≡ len - cc = omega (arith, a) in
      (
        h,
        ap (λ (text : List ℕ). scan_lines scan (lines text []) h)
              (print_records-done n cc len buf (omega (arith, a)))
            ∙ end_record-lines h,
        ap (λ (k : ℕ). copied k cc cc buf h.ebuf) none_left,
        l ∙ sym a,
        λ p. s (omega (arith, a)),
      )

  more-IsRead :
      (n cc len : ℕ) (buf : List ℕ) (h : Hex)
      → cc < len
      → len ≤ 2 ^ 16
      → IsBytes buf
      → IsRead len
          (cc + min (len - cc) 0x20)
          buf
          (loaded (min (len - cc) 0x20) cc buf h)
          (lines (print_records n (cc + min (len - cc) 0x20) len buf) [])
      → IsRead len cc buf h (lines (print_records (suc n) cc len buf) [])
  more-IsRead n cc len buf h b w bs rest =
      let ll = min (len - cc) 0x20 in
      let bytes = IsBytes-AllBytes ll cc buf bs in
      let (plain, long) = print_record-Plain ll cc buf (omega arith) (omega arith) bytes in
      let text =
        ap (λ (t : List ℕ). lines t []) (print_records-more n cc len buf b)
        ∙ lines-line (print_record ll cc buf) (print_records n (cc + ll) len buf) [] plain
            (omega (arith, long)) in
      subst (IsRead len cc buf h) (sym text) (
        first_record-IsRead ll cc len buf h (lines (print_records n (cc + ll) len buf) [])
          (omega arith) (omega arith) rest (omega arith) w bs)

  print_records-IsRead :
      (n cc len : ℕ) (buf : List ℕ) (h : Hex)
      → len ≤ cc + n
      → cc ≤ len
      → len ≤ 2 ^ 16
      → IsBytes buf
      → h.hlength ≡ cc
      → (0 < cc → h.hstart ≡ 0)
      → IsRead len cc buf h (lines (print_records n cc len buf) [])
  print_records-IsRead zero cc len buf h a b w bs l s =
      done-IsRead zero cc len buf h (omega arith) l s
  print_records-IsRead (suc n) cc len buf h a b w bs l s =
      let ll = min (len - cc) 0x20 in
      let from = loaded-hstart ll cc buf h s in
      let rest = print_records-IsRead n (cc + ll) len buf (loaded ll cc buf h) in
      elim (Bool-cases (ltb cc len)) [
        | inl e ↦
            let more : cc < len = ground (arith, e) in
            more-IsRead n cc len buf h more w bs (
              rest (omega arith) (omega arith) w bs (loaded-hlength ll cc buf h l from) (λ p. from))
        | inr e ↦ done-IsRead (suc n) cc len buf h (ground (arith, e)) l s
      ]

  -- The output of a length above 0 and of 65536 at most is read back by the input. For an `ebuf` of bytes, a target with room for
  -- them and an `sscanf` that reads numbers printed with the width of the conversion, the file is accepted, what
  -- is reported is the start 0 and that length, the target then has the bytes of `ebuf` below the length, and its
  -- own behind it.
  pub input_intelhex-output_intelhex :
      (junk len : ℕ) (buf target : List ℕ)
      → 0 < len
      → len ≤ 2 ^ 16
      → len ≤ length target
      → IsBytes buf
      → (ebuf : List ℕ) × (input_intelhex scan junk (output_intelhex len buf) target
          ≡ some (some (0, len), ebuf))
        × (length ebuf ≡ length target)
        × ((j : ℕ) → j < len → get_or ebuf j 0 ≡ get_or buf j 0)
        × ((j : ℕ) → len ≤ j → get_or ebuf j 0 ≡ get_or target j 0)
  unfolding input_intelhex output_intelhex
  input_intelhex-output_intelhex junk len buf target p w room bs =
      let h : Hex = record { ebuf = target; hstart = max_buf; hlength = 0; lval = junk } in
      let (h1, e, b, l, s) =
        print_records-IsRead len 0 len buf h (omega arith) (omega arith) w bs refl
          (λ q. absurd (omega arith)) in
      let all : len - 0 ≡ len = omega arith in
      let contents = b ∙ ap (λ (k : ℕ). copied k 0 0 buf target) all in
      (
        h1.ebuf,
        ground (arith, e, l, s p),
        ap (length {A = ℕ}) contents ∙ length-copied len 0 0 buf target,
        λ j q.
            ap (λ (xs : List ℕ). get_or xs j 0) contents
            ∙ copied_inside len 0 j buf target (omega arith) (omega arith) (omega arith),
        λ j q.
            ap (λ (xs : List ℕ). get_or xs j 0) contents
            ∙ copied_outside len 0 j buf target (inr (omega arith)),
      )
