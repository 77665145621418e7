-- ===== src/Eeprom/Records.antt =====
-- The reading of a record that `output_intelhex` printed, ingenialink/ecat/net.c.
use ingenialink.Base.{
  ℕ, zero, suc, ◌+◌, ◌*◌, ◌%◌, ◌^◌, ◌<◌, ◌≤◌, ◌≡◌, refl, sym, ap, ◌∙◌, true, List, [], ◌∷◌, ◌++◌,
  append_assoc, get_or, set, drop, ltb, arith, some,
}
use ingenialink.Eeprom.Print.{hex_fixed, print_bytes, sum_bytes}
use ingenialink.Eeprom.Scan.{Scanned, matched, convert, load}
use ingenialink.Eeprom.Text.{hex_lem}

-- `sscanf` reads a number that is printed with as many digits as the conversion takes.
abbrev pub Reads : (ℕ → List ℕ → Scanned) → Type 0
Reads scan =
    (w n : ℕ) (rest : List ℕ) → 0 < w → n < 16 ^ w → scan w (hex_fixed w n ++ rest) ≡ matched n rest

-- `n` bytes of an array from `idx`.
abbrev pub AllBytes : ℕ → ℕ → List ℕ → Type 0
AllBytes zero idx buf = Unit
AllBytes (suc n) idx buf = (get_or buf idx 0 < 256) × AllBytes n (idx + 1) buf

-- `n` bytes of an array from `idx`, over another array from `at`.
abbrev pub copied : ℕ → ℕ → ℕ → List ℕ → List ℕ → List ℕ
copied zero idx at buf target = target
copied (suc n) idx at buf target =
    copied n (idx + 1) (at + 1) buf (set target at (get_or buf idx 0))

drop_empty : (n : ℕ) → drop {A = ℕ} n [] ≡ []
drop_empty zero = refl
drop_empty (suc n) = refl

drop-add : (m n : ℕ) (xs : List ℕ) → drop (m + n) xs ≡ drop n (drop m xs)
drop-add zero n xs = ap (λ (k : ℕ). drop k xs) (omega arith)
drop-add (suc m) n [] = drop_empty (suc m + n) ∙ sym (drop_empty n)
drop-add (suc m) n (x ∷ xs) = ap (λ (k : ℕ). drop k (x ∷ xs)) (succ m n) ∙ drop-add m n xs
  where
    succ : (a b : ℕ) → suc a + b ≡ suc (a + b)
    succ a b = omega arith

print_bytes-suc :
    (n idx : ℕ) (buf : List ℕ)
    → get_or buf idx 0 < 256
    → print_bytes (suc n) idx buf ≡ hex_fixed 2 (get_or buf idx 0) ++ print_bytes n (idx + 1) buf
unfolding print_bytes
print_bytes-suc n idx buf h =
    ap (λ (ds : List ℕ). ds ++ print_bytes n (idx + 1) buf) (hex_lem 2 (get_or buf idx 0) h)

module _ (scan : ℕ → List ℕ → Scanned) (reads : Reads scan) where
  pub convert_lem :
      (sline : List ℕ) (at v lval : ℕ) (rest : List ℕ)
      → drop at sline ≡ hex_fixed 2 v ++ rest
      → v < 256
      → convert scan sline at lval ≡ v
  convert_lem sline at v lval rest e h =
      let seen = ap (scan 2) e ∙ reads 2 v rest (omega arith) h in ground (arith, seen)

  load_step :
      (n i : ℕ) (sline : List ℕ) (ladr lval sum v : ℕ) (ebuf : List ℕ)
      → convert scan sline (9 + 2 * i) lval ≡ v
      → v < 256
      → 9 + 2 * i < 256
      → load scan (suc n) i sline ladr lval sum ebuf
        ≡ load scan n (i + 1) sline ladr v (sum + v) (set ebuf (ladr + i) v)
  unfolding load
  load_step n i sline ladr lval sum v ebuf e h k =
      let whole : v % 256 ≡ v = omega arith in
      let inside : ltb (9 + 2 * i) 256 ≡ true = ground arith in rw e (rw inside (rw whole refl))

  -- The bytes that were printed are stored, and added to the sum.
  pub load_lem :
      (n i idx : ℕ) (sline tail : List ℕ) (ladr lval sum : ℕ) (buf ebuf : List ℕ)
      → drop (9 + 2 * i) sline ≡ print_bytes n idx buf ++ tail
      → 9 + 2 * (i + n) ≤ 256
      → AllBytes n idx buf
      → (lv : ℕ) × (load scan n i sline ladr lval sum ebuf
          ≡ some (lv, sum + sum_bytes n idx buf, copied n idx (ladr + i) buf ebuf))
        × (drop (9 + 2 * (i + n)) sline ≡ tail)
  unfolding load sum_bytes print_bytes
  load_lem zero i idx sline tail ladr lval sum buf ebuf e k bs =
      (lval, ground arith, ap (λ (k : ℕ). drop (9 + 2 * k) sline) (omega arith) ∙ e)
  load_lem (suc n) i idx sline tail ladr lval sum buf ebuf e k bs =
      let v = get_or buf idx 0 in
      let after = print_bytes n (idx + 1) buf in
      let e1 =
        e
        ∙ ap (λ (ds : List ℕ). ds ++ tail) (print_bytes-suc n idx buf bs.0)
        ∙ append_assoc (hex_fixed 2 v) after tail in
      let twice : 9 + 2 * (i + 1) ≡ 9 + 2 * i + 2 = omega arith in
      let e2 = ap (λ (m : ℕ). drop m sline) twice ∙ drop-add (9 + 2 * i) 2 sline ∙ ap (drop 2) e1 in
      let (lv, r, t) =
        load_lem n (i + 1) (idx + 1) sline tail ladr v (sum + v) buf (set ebuf (ladr + i) v) e2
          (omega arith) bs.1 in
      let total : sum + v + sum_bytes n (idx + 1) buf ≡ sum + (v + sum_bytes n (idx + 1) buf) =
        omega arith in
      let place : ladr + (i + 1) ≡ ladr + i + 1 = omega arith in
      let end_ : 9 + 2 * (i + suc n) ≡ 9 + 2 * (i + 1 + n) = omega arith in
      (
        lv,
        load_step n i sline ladr lval sum v ebuf
              (convert_lem sline (9 + 2 * i) v lval (after ++ tail) e1 bs.0) bs.0 (omega arith)
            ∙ r
            ∙ ap
                (λ (m : ℕ).
                  some (lv, m, copied n (idx + 1) (ladr + (i + 1)) buf (set ebuf (ladr + i) v)))
                total
            ∙ ap
                (λ (m : ℕ). some (
                  lv,
                  sum + (v + sum_bytes n (idx + 1) buf),
                  copied n (idx + 1) m buf (set ebuf (ladr + i) v),
                ))
                place,
        ap (λ (m : ℕ). drop m sline) end_ ∙ t,
      )
