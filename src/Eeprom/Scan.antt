-- ===== src/Eeprom/Scan.antt =====
-- `input_intelhex` of ingenialink/ecat/net.c: the reading of an Intel HEX file into `ebuf`.
use ingenialink.Base.{
  ℕ, zero, suc, ◌+◌, ◌-◌, ◌*◌, ◌/◌, ◌%◌, ◌^◌, bit_and, not, Bool, true, false, ◌||◌, ◌&&◌, Option,
  none, some, List, [], ◌∷◌, ◌++◌, length, drop, get_or, set, replicate, ◌==◌, ltb, leb,
  if◌then◌else◌,
}
use ingenialink.Eeprom.{max_buf}

-- What a conversion `%2x` or `%4x` of `sscanf` makes of a text up to its NUL: a number and what is behind it,
-- no number (the result 0), or the end of the text (`EOF`).
pub data Scanned : Type 0 where
  matched : ℕ → List ℕ → Scanned
  mismatch at_end : Scanned

-- The lines of a file: 255 characters at most, of which the next one is lost if it is no end of line. What
-- stands behind the last end of line is dropped.
unfoldable pub lines : List ℕ → List ℕ → List (List ℕ)
lines [] line = []
lines (c ∷ cs) line = elim (c == 0x0A || not (ltb (length line) 255)) [
  | true ↦ line ∷ lines cs []
  | false ↦ lines cs (line ++ c ∷ [])
]

-- `sline`, of 256 bytes.
abbrev pub padded : List ℕ → List ℕ
padded line = line ++ replicate (256 - length line) 0

pub record Hex : Type 0 where
  pub ebuf : List ℕ
  pub hstart : ℕ
  pub hlength : ℕ
  pub lval : ℕ

-- `(0x100 - sum) & 0xff` of a sum that is an `int`, of the bytes read.
abbrev pub input_checksum : ℕ → ℕ
input_checksum sum = (2 ^ 32 + 0x100 - sum) % 256

-- `scan` of a width is the conversion, its numbers below `16 ^ w`: a text with a sign is left out.
module _ (scan : ℕ → List ℕ → Scanned) where
  -- A conversion at a place of `sline`: what `lval` then holds.
  abbrev pub convert : List ℕ → ℕ → ℕ → ℕ
  convert sline at lval = elim (scan 2 (drop at sline)) [ matched v rest ↦ v | _ ↦ lval ]

  -- The loop over the bytes of a record: `lval`, the sum and `ebuf`; `none` for a place behind `sline`.
  unfoldable pub load : ℕ → ℕ → List ℕ → ℕ → ℕ → ℕ → List ℕ → Option (ℕ × ℕ × List ℕ)
  load zero i sline ladr lval sum ebuf = some (lval, sum, ebuf)
  load (suc n) i sline ladr lval sum ebuf =
      let v = convert sline (9 + 2 * i) lval in
      let rest = load n (i + 1) sline ladr v (sum + v % 256) (set ebuf (ladr + i) (v % 256)) in
      if ltb (9 + 2 * i) 256 then rest else none

  -- The last conversion and its comparison: false if the checksum is wrong.
  abbrev pub sums : List ℕ → ℕ → ℕ → ℕ → Bool
  sums sline at sum lval = elim (scan 2 (drop at sline)) [
    | matched v rest ↦ input_checksum sum == v
    | mismatch ↦ false
    | at_end ↦ input_checksum sum == lval
  ]

  -- A data record.
  unfoldable pub load_record : List ℕ → ℕ → ℕ → ℕ → Hex → Option (Bool × Hex)
  unfolding load
  load_record sline ll ladr lt h =
      let hstart = if ltb ladr h.hstart then ladr else h.hstart in
      let size = ladr + ll - hstart in
      elim (load ll 0 sline ladr h.lval (ll + ladr / 2 ^ 8 + bit_and ladr 0xff + lt) h.ebuf) [
        | none ↦ none
        | some (lval, sum, ebuf) ↦
            if ltb (9 + 2 * ll) 256
            then some (
              sums sline (9 + 2 * ll) sum lval,
              record {
                ebuf = ebuf;
                hstart = hstart;
                hlength = if ltb h.hlength size then size else h.hlength;
                lval = convert sline (9 + 2 * ll) lval;
              },
            )
            else none
      ]

  -- A line with a header of the form `:%2x%4x%2x`; every other one, and every other type of record, is
  -- passed over.
  unfoldable pub scan_record : List ℕ → Hex → Option (Bool × Hex)
  unfolding load_record
  scan_record sline h = elim (scan 2 (drop 1 sline)) [
    | matched ll r1 ↦ elim (scan 4 r1) [
      | matched ladr r2 ↦ elim (scan 2 r2) [
        | matched lt r3 ↦
            if leb (ladr + ll) max_buf && lt == 0
            then load_record sline ll ladr lt h
            else some (true, h)
        | _ ↦ some (true, h)
      ]
      | _ ↦ some (true, h)
    ]
    | _ ↦ some (true, h)
  ]

  unfoldable pub scan_lines : List (List ℕ) → Hex → Option (Bool × Hex)
  scan_lines [] h = some (true, h)
  scan_lines (line ∷ rest) h =
      if ltb (length line) 11 || not (get_or line 0 0 == b':')
      then some (false, h)
      else elim (scan_record (padded line) h) [
        | none ↦ none
        | some (false, h1) ↦ some (false, h1)
        | some (true, h1) ↦ scan_lines rest h1
      ]

  -- The file that was opened; `junk` is what `lval` holds. The start and the length, if it is accepted, and
  -- `ebuf`.
  unfoldable pub input_intelhex : ℕ → List ℕ → List ℕ → Option (Option (ℕ × ℕ) × List ℕ)
  unfolding lines scan_lines scan_record
  input_intelhex junk text ebuf =
      elim (scan_lines (lines text [])
        (record { ebuf = ebuf; hstart = max_buf; hlength = 0; lval = junk })) [
          | none ↦ none
          | some (false, h) ↦ some (none, h.ebuf)
          | some (true, h) ↦ some (some (h.hstart, h.hlength), h.ebuf)
        ]
