-- ===== src/Storage/Written.antt =====
-- What the writing of the stored values, ingenialink/servo.c, writes to a drive.
use Prim.Native.String.{String}
use text.Mathlib.Text.{◌==◌}
use ingenialink.Base.{
  ◌≢◌, ltb, ◌-◌, ◌<◌, ℕ, ◌%◌, ◌^◌, true, false, ◌⊎◌, Bool-cases, Option-cases, inl, inr, Option,
  none, some, some_eq, Result, List, [], ◌∷◌, ◌≡◌, refl, sym, ap, ◌∙◌, arith,
}
use mathlib.Core.Path.{subst}
use ingenialink.Base.Int.{signed}
use ingenialink.Register.{
  Access, Dtype, u8, s8, u16, s16, u32, s32, u64, s64, float, float64, str, read_write, Reg,
}
use ingenialink.Port.{Net}
use ingenialink.Access.{pattern_of}
use ingenialink.Storage.{Entry, Dict, find, is_rw}
use ingenialink.Storage.Restore.{write_value, write_one}

-- The bytes of the union that a type uses.
abbrev pub size_of : Dtype → ℕ
size_of u8 = 1
size_of s8 = 1
size_of u16 = 2
size_of s16 = 2
size_of u32 = 4
size_of s32 = 4
size_of u64 = 8
size_of s64 = 8
size_of float = 4
size_of float64 = 8
size_of str = 4

pattern_signed : (w v : ℕ) → v < 2 ^ w → pattern_of w (signed w v) ≡ v
pattern_signed w v h = elim (Bool-cases (ltb v (2 ^ (w - 1)))) [
  | inl q ↦ ground (arith, q)
  | inr q ↦ ground (arith, q)
]

-- The low bytes of what is stored.
abbrev pub low_bytes : Reg → ℕ
low_bytes reg = reg.storage % 256 ^ size_of reg.dtype

module _ {W : Type 0} (net : Net W) where
  -- Nothing was written, or these bytes to the register's address, confirmed.
  abbrev Sent : Reg → ℕ → ℕ → W → Option (Result (Unit {0}) × W) → Type 0
  Sent reg d sz w none = Unit
  Sent reg d sz w (some (r, w')) =
      (w' ≡ w) ⊎ (w' ≡ (net.write reg.subnode reg.address d sz true 0 w).1)

  write_value-Sent :
      (dt : Dtype) (reg : Reg) (id : String) (j : ℕ) (w : W)
      → reg.access ≡ read_write
      → Sent reg (reg.storage % 256 ^ size_of dt) (size_of dt) w (write_value net dt reg id j w)
  unfolding write_value
  write_value-Sent u8 reg id j w h = ground (arith, h)
  write_value-Sent s8 reg id j w h =
      let v = reg.storage % 2 ^ 8 in ground (arith, h, pattern_signed 8 v (omega arith))
  write_value-Sent u16 reg id j w h = ground (arith, h)
  write_value-Sent s16 reg id j w h =
      let v = reg.storage % 2 ^ 16 in ground (arith, h, pattern_signed 16 v (omega arith))
  write_value-Sent u32 reg id j w h = ground (arith, h)
  write_value-Sent s32 reg id j w h =
      let v = reg.storage % 2 ^ 32 in ground (arith, h, pattern_signed 32 v (omega arith))
  write_value-Sent u64 reg id j w h = ground (arith, h)
  write_value-Sent s64 reg id j w h =
      let v = reg.storage % 2 ^ 64 in ground (arith, h, pattern_signed 64 v (omega arith))
  write_value-Sent float reg id j w h = ground (arith, h)
  write_value-Sent float64 reg id j w h = tt
  write_value-Sent str reg id j w h = tt

  module _ (P : W → Type 0) where
    -- A write of what is stored of the register, for whatever axis, keeps `P`.
    abbrev pub Kept : Reg → Type 0
    Kept reg =
        (j : ℕ) (w : W)
        → P w
        → P (net.write j reg.address (low_bytes reg) (size_of reg.dtype) true 0 w).1

    -- So do all registers of a table, and of all tables, that can be read and written.
    abbrev pub AllKept : List Entry → Type 0
    AllKept [] = Unit
    AllKept (e ∷ es) = (e.reg.access ≡ read_write → Kept e.reg) × AllKept es

    abbrev pub TablesKept : Dict → Type 0
    TablesKept [] = Unit
    TablesKept (t ∷ ts) = AllKept t × TablesKept ts

    -- The world after an operation, if it has an outcome, satisfies `P`.
    abbrev pub Holds : Option (Result (Unit {0}) × W) → Type 0
    Holds none = Unit
    Holds (some (r, w)) = P w

    find_other :
        (id : String) (e : Entry) (es : List Entry)
        → (e.id == id) ≡ false
        → find id (e ∷ es) ≡ find id es
    unfolding find
    find_other id e es h = ground (arith, h)

    find_this :
        (id : String) (e : Entry) (es : List Entry)
        → (e.id == id) ≡ true
        → find id (e ∷ es) ≡ some e.reg
    unfolding find
    find_this id e es h = ground (arith, h)

    find_none : (id : String) (reg : Reg) → find id [] ≢ some reg
    unfolding find
    find_none id reg e = ground (arith, e)

    find-Kept :
        (id : String) (es : List Entry) (reg : Reg)
        → AllKept es
        → find id es ≡ some reg
        → reg.access ≡ read_write
        → Kept reg
    find-Kept id [] reg k e h = absurd (find_none id reg e)
    find-Kept id (x ∷ es) reg (k, ks) e h = elim (Bool-cases (x.id == id)) [
      | inl q ↦
          let same : x.reg ≡ reg = some_eq (sym (find_this id x es q) ∙ e) in
          subst Kept same (k (ap (λ (r : Reg). r.access) same ∙ h))
      | inr q ↦ find-Kept id es reg ks (sym (find_other id x es q) ∙ e) h
    ]

    Sent-Holds :
        (reg : Reg) (j : ℕ) (w : W) (o : Option (Result (Unit {0}) × W))
        → Kept reg
        → P w
        → Sent (record reg { subnode = j }) (low_bytes reg) (size_of reg.dtype) w o
        → Holds o
    Sent-Holds reg j w none k h s = tt
    Sent-Holds reg j w (some (r, w')) k h (inl e) = subst P (sym e) h
    Sent-Holds reg j w (some (r, w')) k h (inr e) = subst P (sym e) (k j w h)

    or_else :
        Result (Unit {0}) → W → Option (Result (Unit {0}) × W) → Option (Result (Unit {0}) × W)
    or_else r w none = some (r, w)
    or_else r w (some x) = some x

    or_else-Holds :
        (r : Result (Unit {0})) (w : W) (o : Option (Result (Unit {0}) × W))
        → P w
        → Holds o
        → Holds (or_else r w o)
    unfolding or_else
    or_else-Holds r w none h k = h
    or_else-Holds r w (some x) h k = k

    write_one-rw :
        (j : ℕ) (regs : List Entry) (id : String) (r : Result (Unit {0})) (w : W) (reg : Reg)
        → find id regs ≡ some reg
        → is_rw reg.access ≡ true
        → write_one net j regs id r w
          ≡ or_else r w (write_value net reg.dtype (record reg { subnode = j }) id j w)
    unfolding write_one or_else
    write_one-rw j regs id r w reg e q =
        elim (Option-cases (write_value net reg.dtype (record reg { subnode = j }) id j w)) [
          | inl n ↦ ground (arith, e, q, n)
          | inr (x, n) ↦ ground (arith, e, q, n)
        ]

    write_one-passed :
        (j : ℕ) (regs : List Entry) (id : String) (r : Result (Unit {0})) (w : W) (reg : Reg)
        → find id regs ≡ some reg
        → is_rw reg.access ≡ false
        → write_one net j regs id r w ≡ some (r, w)
    unfolding write_one
    write_one-passed j regs id r w reg e q = ground (arith, e, q)

    write_one-none :
        (j : ℕ) (regs : List Entry) (id : String) (r : Result (Unit {0})) (w : W)
        → find id regs ≡ none
        → write_one net j regs id r w ≡ none
    unfolding write_one
    write_one-none j regs id r w e = ground (arith, e)

    is_rw-read_write : (a : Access) → is_rw a ≡ true → a ≡ read_write
    is_rw-read_write Access.read_write h = refl
    is_rw-read_write Access.read_only h = ground (arith, h)
    is_rw-read_write Access.write_only h = ground (arith, h)

    pub write_one-Holds :
        (j : ℕ) (regs : List Entry) (id : String) (r : Result (Unit {0})) (w : W)
        → AllKept regs
        → P w
        → Holds (write_one net j regs id r w)
    write_one-Holds j regs id r w k h = elim (Option-cases (find id regs)) [
      | inl e ↦ subst Holds (sym (write_one-none j regs id r w e)) tt
      | inr (reg, e) ↦ elim (Bool-cases (is_rw reg.access)) [
        | inr q ↦ subst Holds (sym (write_one-passed j regs id r w reg e q)) h
        | inl q ↦
            let rw = is_rw-read_write reg.access q in
            subst Holds (sym (write_one-rw j regs id r w reg e q)) (
              or_else-Holds r w (write_value net reg.dtype (record reg { subnode = j }) id j w) h (
                Sent-Holds reg j w (write_value net reg.dtype (record reg { subnode = j }) id j w)
                  (find-Kept id regs reg k e rw) h
                  (write_value-Sent reg.dtype (record reg { subnode = j }) id j w rw)))
      ]
    ]
