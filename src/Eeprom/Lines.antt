-- ===== src/Eeprom/Lines.antt =====
-- A line of `output_intelhex`, as `input_intelhex` takes it, ingenialink/ecat/net.c.
use ingenialink.Base.{
  leb, ℕ, zero, suc, ◌+◌, ◌*◌, ◌-◌, ◌/◌, ◌^◌, ◌<◌, ◌≤◌, ◌≡◌, refl, sym, ap, ◌∙◌, true, List, [],
  ◌∷◌, ◌++◌, length, length-append, append_assoc, get_or, drop, ltb, arith, bit_and, some,
  replicate, if◌then◌else◌,
}
use mathlib.Core.Path.{subst}
use ingenialink.Eeprom.{max_buf}
use ingenialink.Eeprom.Print.{output_checksum, hex_fixed, hex, print_bytes, sum_bytes, print_record}
use ingenialink.Eeprom.Scan.{
  Scanned, matched, padded, Hex, input_checksum, convert, load, sums, load_record, scan_record,
}
use ingenialink.Eeprom.Text.{hex_lem, length-hex_fixed, Plain, append-Plain, hex_fixed-Plain}
use ingenialink.Eeprom.Records.{Reads, AllBytes, copied, load_lem, convert_lem}

-- The checksum of a record.
abbrev pub record_check : ℕ → ℕ → List ℕ → ℕ
record_check ll cc buf = output_checksum (ll + cc / 2 ^ 8 + bit_and cc 0xff + sum_bytes ll cc buf)

-- The line with all its digits.
abbrev record_line : ℕ → ℕ → List ℕ → List ℕ
record_line ll cc buf =
    b':'
    ∷ (hex_fixed 2 ll
        ++ (hex_fixed 4 cc
            ++ (hex_fixed 2 0 ++ (print_bytes ll cc buf ++ hex_fixed 2 (record_check ll cc buf)))))

print_record_lem :
    (ll cc : ℕ) (buf : List ℕ)
    → ll < 256
    → cc < 2 ^ 16
    → print_record ll cc buf ≡ record_line ll cc buf
unfolding print_record
print_record_lem ll cc buf h k =
    let c = record_check ll cc buf in
    let body = print_bytes ll cc buf in
    ap (λ (ds : List ℕ). b':' ∷ (ds ++ (hex 4 cc ++ (b'0' ∷ b'0' ∷ (body ++ hex 2 c)))))
      (hex_lem 2 ll h)
    ∙ ap (λ (ds : List ℕ). b':' ∷ (hex_fixed 2 ll ++ (ds ++ (b'0' ∷ b'0' ∷ (body ++ hex 2 c)))))
        (hex_lem 4 cc k)
    ∙ ap
        (λ (ds : List ℕ).
          b':' ∷ (hex_fixed 2 ll ++ (hex_fixed 4 cc ++ (b'0' ∷ b'0' ∷ (body ++ ds)))))
        (hex_lem 2 c (omega arith))

module _ (scan : ℕ → List ℕ → Scanned) where
  scan_record-load :
      (sline : List ℕ) (ll cc : ℕ) (r1 r2 r3 : List ℕ) (h : Hex)
      → scan 2 (drop 1 sline) ≡ matched ll r1
      → scan 4 r1 ≡ matched cc r2
      → scan 2 r2 ≡ matched 0 r3
      → cc + ll ≤ max_buf
      → scan_record scan sline h ≡ load_record scan sline ll cc 0 h
  unfolding scan_record
  scan_record-load sline ll cc r1 r2 r3 h e1 e2 e3 k =
      let inside : leb (cc + ll) max_buf ≡ true = ground arith in ground (arith, e1, e2, e3, inside)

  load_record_lem :
      (sline : List ℕ) (ll cc lv total : ℕ) (ebuf : List ℕ) (h : Hex)
      → load scan ll 0 sline cc h.lval (ll + cc / 2 ^ 8 + bit_and cc 0xff + 0) h.ebuf
        ≡ some (lv, total, ebuf)
      → sums scan sline (9 + 2 * ll) total lv ≡ true
      → 9 + 2 * ll < 256
      → load_record scan sline ll cc 0 h
        ≡ some (
          true,
          record {
            ebuf = ebuf;
            hstart = if ltb cc h.hstart then cc else h.hstart;
            hlength =
                (let size = cc + ll - (if ltb cc h.hstart then cc else h.hstart) in
                  if ltb h.hlength size then size else h.hlength);
            lval = convert scan sline (9 + 2 * ll) lv;
          },
        )
  unfolding load_record
  load_record_lem sline ll cc lv total ebuf h e s k = ground (arith, e, s)

  sums_lem :
      (sline : List ℕ) (at total lv ck : ℕ) (rest : List ℕ)
      → scan 2 (drop at sline) ≡ matched ck rest
      → input_checksum total ≡ ck
      → sums scan sline at total lv ≡ true
  sums_lem sline at total lv ck rest e c = ground (arith, e, c)

-- What a record of `ll` bytes from `cc` leaves.
abbrev pub loaded : ℕ → ℕ → List ℕ → Hex → Hex
loaded ll cc buf h =
    let hstart = if ltb cc h.hstart then cc else h.hstart in
    record {
      ebuf = copied ll cc cc buf h.ebuf;
      hstart = hstart;
      hlength = (let size = cc + ll - hstart in if ltb h.hlength size then size else h.hlength);
      lval = record_check ll cc buf;
    }

module _ (scan : ℕ → List ℕ → Scanned) (reads : Reads scan) where
  record_line-read :
      (ll cc : ℕ) (buf pad : List ℕ) (h : Hex)
      → ll ≤ 32
      → cc + ll ≤ 2 ^ 16
      → cc < 2 ^ 16
      → AllBytes ll cc buf
      → scan_record scan (record_line ll cc buf ++ pad) h ≡ some (true, loaded ll cc buf h)
  record_line-read ll cc buf pad h a b k bs =
      let ck = record_check ll cc buf in
      let body = print_bytes ll cc buf in
      let sline = record_line ll cc buf ++ pad in
      let z = (body ++ hex_fixed 2 ck) ++ pad in
      let sum = ll + cc / 2 ^ 8 + bit_and cc 0xff + 0 in
      let (lv, r, t) =
        load_lem scan reads ll 0 cc sline (hex_fixed 2 ck ++ pad) cc h.lval sum buf h.ebuf
          (append_assoc body (hex_fixed 2 ck) pad) (omega arith) bs in
      let behind : 9 + 2 * ll ≡ 9 + 2 * (0 + ll) = omega arith in
      let at_check = ap (λ (m : ℕ). drop m sline) behind ∙ t in
      let here : cc + 0 ≡ cc = omega arith in
      let total : input_checksum (sum + sum_bytes ll cc buf) ≡ ck =
        ap input_checksum (omega arith) in
      scan_record-load scan sline ll cc (hex_fixed 4 cc ++ (hex_fixed 2 0 ++ z))
        (hex_fixed 2 0 ++ z) z h
        (reads 2 ll (hex_fixed 4 cc ++ (hex_fixed 2 0 ++ z)) (omega arith) (omega arith))
        (reads 4 cc (hex_fixed 2 0 ++ z) (omega arith) k) (reads 2 0 z (omega arith) (omega arith))
        (omega arith)
      ∙ load_record_lem scan sline ll cc lv (sum + sum_bytes ll cc buf)
          (copied ll cc (cc + 0) buf h.ebuf) h r
          (sums_lem scan sline (9 + 2 * ll) (sum + sum_bytes ll cc buf) lv ck pad
            (ap (scan 2) at_check ∙ reads 2 ck pad (omega arith) (omega arith)) total)
          (omega arith)
      ∙ ap
          (λ (m : ℕ). some (
            true,
            record (loaded ll cc buf h) {
              ebuf = copied ll cc m buf h.ebuf;
              lval = convert scan sline (9 + 2 * ll) lv;
            },
          ))
          here
      ∙ ap (λ (v : ℕ). some (true, record (loaded ll cc buf h) { lval = v }))
          (convert_lem scan reads sline (9 + 2 * ll) ck lv pad at_check (omega arith))

  -- A printed line is taken as the record that it was printed from.
  pub print_record-read :
      (ll cc : ℕ) (buf : List ℕ) (h : Hex)
      → ll ≤ 32
      → cc + ll ≤ 2 ^ 16
      → cc < 2 ^ 16
      → AllBytes ll cc buf
      → scan_record scan (padded (print_record ll cc buf)) h ≡ some (true, loaded ll cc buf h)
  print_record-read ll cc buf h a b k bs =
      ap (λ (line : List ℕ). scan_record scan (padded line) h)
        (print_record_lem ll cc buf (omega arith) k)
      ∙ record_line-read ll cc buf (replicate (256 - length (record_line ll cc buf)) 0) h a b k bs

-- Plain text of a length.
abbrev Printed : ℕ → List ℕ → Type 0
Printed n xs = Plain xs × (length xs ≡ n)

append-Printed :
    (m n : ℕ) (xs ys : List ℕ) → Printed m xs → Printed n ys → Printed (m + n) (xs ++ ys)
append-Printed m n xs ys p q =
    (append-Plain xs ys p.0 q.0, omega (arith, length-append xs ys, p.1, q.1))

hex-Printed : (w n : ℕ) → n < 16 ^ w → Printed w (hex w n)
hex-Printed w n h =
    subst (Printed w) (sym (hex_lem w n h)) (hex_fixed-Plain w n, length-hex_fixed w n)

print_bytes-Printed :
    (n idx : ℕ) (buf : List ℕ) → AllBytes n idx buf → Printed (n * 2) (print_bytes n idx buf)
unfolding print_bytes
print_bytes-Printed zero idx buf bs = (tt, omega arith)
print_bytes-Printed (suc n) idx buf bs =
    let more : 2 + n * 2 ≡ suc n * 2 = omega arith in
    subst (λ (k : ℕ). Printed k (print_bytes (suc n) idx buf)) more
      (append-Printed 2 (n * 2) (hex 2 (get_or buf idx 0)) (print_bytes n (idx + 1) buf)
        (hex-Printed 2 (get_or buf idx 0) bs.0) (print_bytes-Printed n (idx + 1) buf bs.1))

-- A printed line is one line, of 75 characters at most.
pub print_record-Plain :
    (ll cc : ℕ) (buf : List ℕ)
    → ll ≤ 32
    → cc < 2 ^ 16
    → AllBytes ll cc buf
    → Plain (print_record ll cc buf) × (length (print_record ll cc buf) ≡ 11 + 2 * ll)
unfolding print_record
print_record-Plain ll cc buf a k bs =
    let ck = record_check ll cc buf in
    let last =
      append-Printed (ll * 2) 2 (print_bytes ll cc buf) (hex 2 ck)
        (print_bytes-Printed ll cc buf bs) (hex-Printed 2 ck (omega arith)) in
    let data_ =
      append-Printed 2 (ll * 2 + 2) (b'0' ∷ b'0' ∷ []) (print_bytes ll cc buf ++ hex 2 ck)
        ((omega arith, (omega arith, tt)), refl) last in
    let from =
      append-Printed 4 (2 + (ll * 2 + 2)) (hex 4 cc)
        (b'0' ∷ b'0' ∷ (print_bytes ll cc buf ++ hex 2 ck)) (hex-Printed 4 cc k) data_ in
    let (plain, len) =
      append-Printed 2 (4 + (2 + (ll * 2 + 2))) (hex 2 ll)
        (hex 4 cc ++ (b'0' ∷ b'0' ∷ (print_bytes ll cc buf ++ hex 2 ck)))
        (hex-Printed 2 ll (omega arith)) from in
    ((omega arith, plain), omega (arith, len))
