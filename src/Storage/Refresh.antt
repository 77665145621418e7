-- ===== src/Storage/Refresh.antt =====
-- The reading of the stored values, ingenialink/servo.c, against a pass over the entries in place.
use Prim.Native.String.{String}
use text.Mathlib.Text.{◌==◌}
use text.Mathlib.TextPositions.{eq_refl}
use ingenialink.Base.{
  length, length-append, ◌≤◌, ◌<◌, zero, suc, ◌+◌, ◌*◌, ◌/◌, ◌%◌, ◌^◌, ◌⊎◌, Option, Result-cases,
  get_elem?, set, ℕ, Bool, true, false, Option-cases, inl, inr, none, some, Result, ok, err, List,
  [], ◌∷◌, ◌++◌, append_assoc, ◌≡◌, refl, sym, ap, ◌∙◌, arith,
}
use mathlib.Core.Path.{subst}
use ingenialink.Base.Int.{signed}
use ingenialink.Register.{
  Dtype, u8, s8, u16, s16, u32, s32, u64, s64, float, float64, str, Access, read_write, read_only,
  write_only, Reg,
}
use ingenialink.Port.{Net}
use ingenialink.Access.{map_fst, pattern_of}
use ingenialink.Storage.{
  Dict, read_subnodes, dict_storage_read, Entry, find, stored, storage_update, reg_ids_get,
  Progress, read_value, read_one, read_ids,
}

-- The bits of the value of a register; `none` for a type that has no value that is stored.
abbrev pub value_bits : Dtype → Option ℕ
value_bits u8 = some 8
value_bits s8 = some 8
value_bits u16 = some 16
value_bits s16 = some 16
value_bits u32 = some 32
value_bits s32 = some 32
value_bits u64 = some 64
value_bits s64 = some 64
value_bits float = some 32
value_bits float64 = none
value_bits str = some 32

-- What a network reads has the size asked for.
abbrev pub Answers : {W : Type 0} → Net W → Type 0
Answers {W} net =
    (subnode address sz v : ℕ) (w : W) → (net.read subnode address sz w).0 ≡ ok v → v < 256 ^ sz

Access-cases : (a : Access) → (a ≡ read_write) ⊎ ((a ≡ read_only) ⊎ (a ≡ write_only))
Access-cases read_write = inl refl
Access-cases read_only = inr (inl refl)
Access-cases write_only = inr (inr refl)

pattern_8 : (v : ℕ) → v < 2 ^ 8 → pattern_of 8 (signed 8 v) ≡ v
pattern_8 v h = ground arith

pattern_16 : (v : ℕ) → v < 2 ^ 16 → pattern_of 16 (signed 16 v) ≡ v
pattern_16 v h = ground arith

pattern_32 : (v : ℕ) → v < 2 ^ 32 → pattern_of 32 (signed 32 v) ≡ v
pattern_32 v h = ground arith

pattern_64 : (v : ℕ) → v < 2 ^ 64 → pattern_of 64 (signed 64 v) ≡ v
pattern_64 v h = ground arith

module _ {W : Type 0} (net : Net W) (junk j : ℕ) where
  -- A read of `n` bits, behind the rest of the union.
  abbrev put : ℕ → Reg → W → Result ℕ × W
  put n reg w = map_fst (λ v. junk / 2 ^ n * 2 ^ n + v) (net.read reg.subnode reg.address (n / 8) w)

  abbrev value_of : Option ℕ → Reg → W → Option (Result ℕ × W)
  value_of none reg w = none
  value_of (some n) reg w = some (put n reg w)

  read_value_lem :
      (dtype : Dtype) (reg : Reg) (id : String) (w : W)
      → Answers net
      → junk < 2 ^ 64
      → reg.dtype ≡ dtype
      → reg.access ≡ read_write
      → read_value net junk dtype reg id j w ≡ value_of (value_bits dtype) reg w
  unfolding read_value
  read_value_lem u8 reg id w fits small d a = ground (arith, d, a)
  read_value_lem u16 reg id w fits small d a = ground (arith, d, a)
  read_value_lem u32 reg id w fits small d a = ground (arith, d, a)
  read_value_lem float reg id w fits small d a = ground (arith, d, a)
  read_value_lem str reg id w fits small d a = ground (arith, d, a)
  read_value_lem float64 reg id w fits small d a = refl
  read_value_lem u64 reg id w fits small d a =
      elim (Result-cases (net.read reg.subnode reg.address 8 w).0) [
        | inl (v, e) ↦ ground (arith, d, a, e)
        | inr (x, e) ↦ ground (arith, d, a, e)
      ]
  read_value_lem s8 reg id w fits small d a =
      elim (Result-cases (net.read reg.subnode reg.address 1 w).0) [
        | inl (v, e) ↦ ground (arith, d, a, e, pattern_8 v (fits reg.subnode reg.address 1 v w e))
        | inr (x, e) ↦ ground (arith, d, a, e)
      ]
  read_value_lem s16 reg id w fits small d a =
      elim (Result-cases (net.read reg.subnode reg.address 2 w).0) [
        | inl (v, e) ↦ ground (arith, d, a, e, pattern_16 v (fits reg.subnode reg.address 2 v w e))
        | inr (x, e) ↦ ground (arith, d, a, e)
      ]
  read_value_lem s32 reg id w fits small d a =
      elim (Result-cases (net.read reg.subnode reg.address 4 w).0) [
        | inl (v, e) ↦ ground (arith, d, a, e, pattern_32 v (fits reg.subnode reg.address 4 v w e))
        | inr (x, e) ↦ ground (arith, d, a, e)
      ]
  read_value_lem s64 reg id w fits small d a =
      elim (Result-cases (net.read reg.subnode reg.address 8 w).0) [
        | inl (v, e) ↦ ground (arith, d, a, e, pattern_64 v (fits reg.subnode reg.address 8 v w e))
        | inr (x, e) ↦ ground (arith, d, a, e)
      ]

-- No entry has this id.
abbrev pub Absent : String → List Entry → Type 0
Absent id [] = Unit
Absent id (e ∷ es) = ((e.id == id) ≡ false) × Absent id es

-- None of the ids of the second list is in the first.
abbrev pub Apart : List Entry → List Entry → Type 0
Apart before [] = Unit
Apart before (e ∷ es) = Absent e.id before × Apart before es

-- No id of these entries is `id`.
abbrev pub Avoids : String → List Entry → Type 0
Avoids id [] = Unit
Avoids id (e ∷ es) = ((id == e.id) ≡ false) × Avoids id es

-- The ids are distinct, as keys of a hash table are.
abbrev pub Distinct : List Entry → Type 0
Distinct [] = Unit
Distinct (e ∷ es) = Avoids e.id es × Distinct es

find-append :
    (id : String) (before es : List Entry) → Absent id before → find id (before ++ es) ≡ find id es
unfolding find
find-append id [] es h = refl
find-append id (e ∷ before) es (ne, h) = ground (arith, ne, find-append id before es h)

storage_update-append :
    (id : String) (v : ℕ) (before es : List Entry)
    → Absent id before
    → storage_update id v (before ++ es) ≡ before ++ storage_update id v es
unfolding storage_update
storage_update-append id v [] es h = refl
storage_update-append id v (e ∷ before) es (ne, h) =
    ground (arith, ne, storage_update-append id v before es h)

find_first : (e : Entry) (es : List Entry) → find e.id (e ∷ es) ≡ some e.reg
unfolding find
find_first e es = ground (arith, eq_refl e.id)

storage_update_first :
    (e : Entry) (v : ℕ) (es : List Entry)
    → storage_update e.id v (e ∷ es) ≡ record e { reg = stored v e.reg } ∷ es
unfolding storage_update
storage_update_first e v es = ground (arith, eq_refl e.id)

Absent-append :
    (id : String) (before es : List Entry)
    → Absent id before
    → Absent id es
    → Absent id (before ++ es)
Absent-append id [] es h k = k
Absent-append id (e ∷ before) es (ne, h) k = (ne, Absent-append id before es h k)

Apart-cons :
    (before : List Entry) (e : Entry) (es : List Entry)
    → Apart before es
    → Avoids e.id es
    → Apart (before ++ (e ∷ [])) es
Apart-cons before e [] h k = tt
Apart-cons before e (x ∷ es) (a, h) (ne, k) =
    (Absent-append x.id before (e ∷ []) a (ne, tt), Apart-cons before e es h k)

module _ {W : Type 0} (net : Net W) (junk j : ℕ) where
  -- What the loop should do to an entry: a register with read and write access, of a type that is not passed
  -- over, gets the number that the network reads of its address, in the low bits of the union, if the
  -- read succeeds.
  abbrev pub refresh_one : Entry → Result (Unit {0}) → W → Entry × Result (Unit {0}) × W
  refresh_one e r w = elim e.reg.access [
    | read_write ↦ elim (value_bits e.reg.dtype) [
      | none ↦ (e, r, w)
      | some n ↦
          let (answer, w1) = net.read e.reg.subnode e.reg.address (n / 8) w in
          elim answer [
            | err c ↦ (e, err c, w1)
            | ok v ↦ (
              record e {
                reg = record e.reg { storage = junk / 2 ^ n * 2 ^ n + v; storage_valid = true };
              },
              ok tt,
              w1,
            )
          ]
    ]
    | read_only ↦ (e, r, w)
    | write_only ↦ (e, r, w)
  ]

  abbrev pub refresh : List Entry → Result (Unit {0}) → W → Progress W
  refresh [] r w = record { regs = []; r = r; world = w }
  refresh (e ∷ es) r w =
      let (e1, r1, w1) = refresh_one e r w in
      let p = refresh es r1 w1 in record p { regs = e1 ∷ p.regs }

  read_one-refresh :
      (before : List Entry) (e : Entry) (es : List Entry) (r : Result (Unit {0})) (w : W)
      → Answers net
      → junk < 2 ^ 64
      → Absent e.id before
      → let (e1, r1, w1) = refresh_one e r w in
        (read_one net junk j e.id (record { regs = before ++ (e ∷ es); r = r; world = w })
          ≡ some (record { regs = before ++ (e1 ∷ es); r = r1; world = w1 }))
        × (e1.id ≡ e.id)
  unfolding read_one
  read_one-refresh before e es r w fits small h =
      let f = find-append e.id before (e ∷ es) h ∙ find_first e es in
      elim (Access-cases e.reg.access) [
        | inr (inl q) ↦ (ground (arith, f, q), ground (arith, q))
        | inr (inr q) ↦ (ground (arith, f, q), ground (arith, q))
        | inl q ↦
            let value = read_value_lem net junk j e.reg.dtype e.reg e.id w fits small refl q in
            elim (Option-cases (value_bits e.reg.dtype)) [
              | inl n ↦ (ground (arith, f, q, n, value), ground (arith, q, n))
              | inr (k, n) ↦
                  elim (Result-cases (net.read e.reg.subnode e.reg.address (k / 8) w).0) [
                    | inr (c, a) ↦ (ground (arith, f, q, n, a, value), ground (arith, q, n, a))
                    | inl (v, a) ↦
                        let u =
                          storage_update-append e.id (junk / 2 ^ k * 2 ^ k + v) before (e ∷ es) h
                          ∙ ap (◌++◌ before)
                              (storage_update_first e (junk / 2 ^ k * 2 ^ k + v) es) in
                        (ground (arith, f, q, n, a, value, u), ground (arith, q, n, a))
                  ]
            ]
      ]

  read_ids_cons :
      (id : String) (ids : List String) (p p1 : Progress W)
      → read_one net junk j id p ≡ some p1
      → read_ids net junk j (id ∷ ids) p ≡ read_ids net junk j ids p1
  unfolding read_ids
  read_ids_cons id ids p p1 e = ground (arith, e)

  read_ids_nil : (p : Progress W) → read_ids net junk j [] p ≡ some p
  unfolding read_ids
  read_ids_nil p = refl

  read_ids-refresh :
      (before es : List Entry) (r : Result (Unit {0})) (w : W)
      → Answers net
      → junk < 2 ^ 64
      → Apart before es
      → Distinct es
      → let p = refresh es r w in
        read_ids net junk j (reg_ids_get es) (record { regs = before ++ es; r = r; world = w })
        ≡ some (record p { regs = before ++ p.regs })
  read_ids-refresh before [] r w fits small h d =
      read_ids_nil (record { regs = before ++ []; r = r; world = w })
  read_ids-refresh before (e ∷ es) r w fits small (a, h) (v, d) =
      let (e1, r1, w1) = refresh_one e r w in
      let (step, same) = read_one-refresh before e es r w fits small a in
      let start : List Entry → Progress W = λ regs. record { regs = regs; r = r1; world = w1 } in
      let rest = refresh es r1 w1 in
      read_ids_cons e.id (reg_ids_get es) (record { regs = before ++ (e ∷ es); r = r; world = w })
        (start (before ++ (e1 ∷ es))) step
      ∙ ap (λ (regs : List Entry). read_ids net junk j (reg_ids_get es) (start regs))
          (sym (append_assoc before (e1 ∷ []) es))
      ∙ read_ids-refresh (before ++ (e1 ∷ [])) es r1 w1 fits small
          (Apart-cons before e1 es h (subst (λ id. Avoids id es) (sym same) v)) d
      ∙ ap (λ (regs : List Entry). some (record rest { regs = regs }))
          (append_assoc before (e1 ∷ []) rest.regs)

Apart-nil : (es : List Entry) → Apart [] es
Apart-nil [] = tt
Apart-nil (e ∷ es) = (tt, Apart-nil es)

-- The ids of each table are distinct.
abbrev pub AllDistinct : Dict → Type 0
AllDistinct [] = Unit
AllDistinct (t ∷ ts) = Distinct t × AllDistinct ts

module _ {W : Type 0} (net : Net W) (junk : ℕ) where
  -- The first `n` tables, from that of the subnode `j`, one after the other.
  abbrev pub refresh_all : ℕ → ℕ → Dict → Result (Unit {0}) → W → Result (Unit {0}) × Dict × W
  refresh_all zero j ts r w = (r, ts, w)
  refresh_all (suc n) j [] r w = (r, [], w)
  refresh_all (suc n) j (t ∷ ts) r w =
      let p = refresh net junk j t r w in
      let (r1, ts1, w1) = refresh_all n (j + 1) ts p.r p.world in (r1, p.regs ∷ ts1, w1)

  read_subnodes-step :
      (alloc : ℕ → Bool) (n j : ℕ) (dict : Dict) (t : List Entry) (r : Result (Unit {0})) (w : W)
      → Answers net
      → junk < 2 ^ 64
      → alloc j ≡ true
      → j < 256
      → get_elem? dict j ≡ some t
      → Distinct t
      → let p = refresh net junk j t r w in
        read_subnodes net junk alloc (suc n) j dict r w
        ≡ read_subnodes net junk alloc n (j + 1) (set dict j p.regs) p.r p.world
  unfolding read_subnodes
  read_subnodes-step alloc n j dict t r w fits small a lt e d =
      let same : j % 2 ^ 8 ≡ j = omega arith in
      ground (arith, a, e, same, read_ids-refresh net junk j [] t r w fits small (Apart-nil t) d)

  set_at :
      (before : Dict) (t u : List Entry) (ts : Dict) (j : ℕ)
      → j ≡ length before
      → set (before ++ (t ∷ ts)) j u ≡ before ++ (u ∷ ts)
  set_at [] t u ts zero e = refl
  set_at [] t u ts (suc j) e = absurd (omega (arith, e))
  set_at (x ∷ before) t u ts zero e = absurd (omega (arith, e))
  set_at (x ∷ before) t u ts (suc j) e = ap (◌∷◌ x) (set_at before t u ts j (omega (arith, e)))

  get_at :
      (before : Dict) (t : List Entry) (ts : Dict) (j : ℕ)
      → j ≡ length before
      → get_elem? (before ++ (t ∷ ts)) j ≡ some t
  get_at [] t ts zero e = refl
  get_at [] t ts (suc j) e = absurd (omega (arith, e))
  get_at (x ∷ before) t ts zero e = absurd (omega (arith, e))
  get_at (x ∷ before) t ts (suc j) e = get_at before t ts j (omega (arith, e))

  read_subnodes_nil :
      (alloc : ℕ → Bool) (j : ℕ) (dict : Dict) (r : Result (Unit {0})) (w : W)
      → read_subnodes net junk alloc zero j dict r w ≡ some (r, dict, w)
  unfolding read_subnodes
  read_subnodes_nil alloc j dict r w = refl

  read_subnodes-refresh :
      (alloc : ℕ → Bool) (n j : ℕ) (before ts : Dict) (r : Result (Unit {0})) (w : W)
      → Answers net
      → junk < 2 ^ 64
      → ((i : ℕ) → alloc i ≡ true)
      → j + n ≤ 256
      → j ≡ length before
      → n ≤ length ts
      → AllDistinct ts
      → let (r1, ts1, w1) = refresh_all n j ts r w in
        read_subnodes net junk alloc n j (before ++ ts) r w ≡ some (r1, before ++ ts1, w1)
  read_subnodes-refresh alloc zero j before ts r w fits small a lt e le d =
      read_subnodes_nil alloc j (before ++ ts) r w
  read_subnodes-refresh alloc (suc n) j before [] r w fits small a lt e le d = absurd (omega arith)
  read_subnodes-refresh alloc (suc n) j before (t ∷ ts) r w fits small a lt e le (d, ds) =
      let p = refresh net junk j t r w in
      let (r1, ts1, w1) = refresh_all n (j + 1) ts p.r p.world in
      let before1 = before ++ (p.regs ∷ []) in
      read_subnodes-step alloc n j (before ++ (t ∷ ts)) t r w fits small (a j) (omega arith)
        (get_at before t ts j e) d
      ∙ ap (λ (dict : Dict). read_subnodes net junk alloc n (j + 1) dict p.r p.world)
          (set_at before t p.regs ts j e ∙ sym (append_assoc before (p.regs ∷ []) ts))
      ∙ read_subnodes-refresh alloc n (j + 1) before1 ts p.r p.world fits small a (omega arith)
          (omega (arith, e, length-append before (p.regs ∷ []))) (omega (arith, le)) ds
      ∙ ap (λ (dict : Dict). some (r1, dict, w1)) (append_assoc before (p.regs ∷ []) ts1)

  -- With memory for the ids, fewer than 256 axes, tables for the subnode 0 and each axis, distinct ids in each
  -- table, and a network that reads numbers of the size asked for: the reading of the stored values, which
  -- looks each id up and updates its entry, is a pass over the entries in place. A register with read and
  -- write access, of a type other than a float of 64 bits, gets the number that the network reads of its subnode
  -- and address, in the low bits of a union of 64 bits, if the read succeeds; every other stays, and
  -- the result is that of the last read.
  pub dict_storage_read-refresh :
      (alloc : ℕ → Bool) (subnodes : ℕ) (dict : Dict) (w : W)
      → Answers net
      → junk < 2 ^ 64
      → ((i : ℕ) → alloc i ≡ true)
      → subnodes < 256
      → subnodes < length dict
      → AllDistinct dict
      → let (r1, dict1, w1) = refresh_all (subnodes + 1) 0 dict (ok tt) w in
        dict_storage_read net junk alloc subnodes (some dict) w ≡ some (r1, some dict1, w1)
  unfolding dict_storage_read
  dict_storage_read-refresh alloc subnodes dict w fits small a few lt d = ground (
    arith,
    read_subnodes-refresh alloc (subnodes + 1) 0 [] dict (ok tt) w fits small a (omega arith) refl
        (omega arith) d,
  )
