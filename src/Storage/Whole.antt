-- ===== src/Storage/Whole.antt =====
-- The whole of `il_servo_dict_storage_write`, ingenialink/servo.c: it writes nothing but what is stored of
-- registers that can be read and written.
use Prim.Native.String.{String}
use ingenialink.Base.{
  some_eq, ℕ, zero, suc, ◌+◌, ◌%◌, ◌^◌, Bool, true, false, Bool-cases, Option-cases, inl, inr,
  Option, none, some, Result, err, efail, List, [], ◌∷◌, get_elem?, ◌≡◌, refl, sym, arith,
  if◌then◌else◌, ◌==◌,
}
use mathlib.Core.Path.{subst}
use ingenialink.Port.{Net}
use ingenialink.Storage.{Entry, Dict, reg_ids_get}
use ingenialink.Storage.Restore.{
  write_one, write_ids, write_subnodes, dict_storage_write, dict_get_subnode,
}
use ingenialink.Storage.Written.{AllKept, TablesKept, Holds, write_one-Holds}

module _ {W : Type 0} (net : Net W) (P : W → Type 0) where
  -- An operation after another one.
  chain_Holds :
      (o : Option (Result (Unit {0}) × W))
      (f : Result (Unit {0}) → W → Option (Result (Unit {0}) × W))
      → Holds net P o
      → ((r : Result (Unit {0})) (w : W) → P w → Holds net P (f r w))
      → Holds net P (elim o [ none ↦ none | some (r, w) ↦ f r w ])
  chain_Holds none f h k = tt
  chain_Holds (some (r, w)) f h k = k r w h

  write_ids-Holds :
      (j : ℕ) (regs : List Entry) (ids : List String) (r : Result (Unit {0})) (w : W)
      → AllKept net P regs
      → P w
      → Holds net P (write_ids net j regs ids r w)
  unfolding write_ids
  write_ids-Holds j regs [] r w k h = h
  write_ids-Holds j regs (id ∷ ids) r w k h =
      chain_Holds (write_one net j regs id r w) (λ r1 w1. write_ids net j regs ids r1 w1)
        (write_one-Holds net P j regs id r w k h)
        (λ r1 w1 h1. write_ids-Holds j regs ids r1 w1 k h1)

  table_Kept :
      (dict : Dict) (i : ℕ) (t : List Entry)
      → TablesKept net P dict
      → get_elem? dict i ≡ some t
      → AllKept net P t
  table_Kept [] i t k e = absurd (ground (arith, e))
  table_Kept (x ∷ dict) zero t (k, ks) e = subst (AllKept net P) (some_eq e) k
  table_Kept (x ∷ dict) (suc i) t (k, ks) e = table_Kept dict i t ks e

  -- The rest of the loop behind the subnode `j`.
  abbrev rest :
      (ℕ → Bool)
      → (ℕ → Option ℕ)
      → ℕ
      → ℕ
      → Dict
      → Result (Unit {0})
      → W
      → Option (Result (Unit {0}) × W)
  rest alloc src n j dict r w = write_subnodes net alloc src n (j + 1) dict r w

  subnode_skipped :
      (alloc : ℕ → Bool) (src : ℕ → Option ℕ) (n j : ℕ) (dict : Dict) (r : Result (Unit {0}))
      (w : W)
      → src j ≡ none
      → write_subnodes net alloc src (suc n) j dict r w ≡ rest alloc src n j dict r w
  unfolding write_subnodes
  subnode_skipped alloc src n j dict r w e = ground (arith, e)

  subnode_refused :
      (alloc : ℕ → Bool) (src : ℕ → Option ℕ) (n j from : ℕ) (dict : Dict) (r : Result (Unit {0}))
      (w : W)
      → src j ≡ some from
      → alloc from ≡ false
      → write_subnodes net alloc src (suc n) j dict r w ≡ some (err efail, w)
  unfolding write_subnodes
  subnode_refused alloc src n j from dict r w e a = ground (arith, e, a)

  subnode_outside :
      (alloc : ℕ → Bool) (src : ℕ → Option ℕ) (n j from : ℕ) (dict : Dict) (r : Result (Unit {0}))
      (w : W)
      → src j ≡ some from
      → alloc from ≡ true
      → get_elem? dict (from % 2 ^ 8) ≡ none
      → write_subnodes net alloc src (suc n) j dict r w ≡ none
  unfolding write_subnodes
  subnode_outside alloc src n j from dict r w e a g = ground (arith, e, a, g)

  subnode_written :
      (alloc : ℕ → Bool) (src : ℕ → Option ℕ) (n j from : ℕ) (dict : Dict) (r : Result (Unit {0}))
      (w : W) (t : List Entry)
      → src j ≡ some from
      → alloc from ≡ true
      → get_elem? dict (from % 2 ^ 8) ≡ some t
      → write_subnodes net alloc src (suc n) j dict r w
        ≡ elim (write_ids net j t (reg_ids_get t) r w) [
          | none ↦ none
          | some (r1, w1) ↦ rest alloc src n j dict r1 w1
        ]
  unfolding write_subnodes
  subnode_written alloc src n j from dict r w t e a g =
      elim (Option-cases (write_ids net j t (reg_ids_get t) r w)) [
        | inl q ↦ ground (arith, e, a, g, q)
        | inr (x, q) ↦ ground (arith, e, a, g, q)
      ]

  write_subnodes_none :
      (alloc : ℕ → Bool) (src : ℕ → Option ℕ) (j : ℕ) (dict : Dict) (r : Result (Unit {0})) (w : W)
      → write_subnodes net alloc src zero j dict r w ≡ some (r, w)
  unfolding write_subnodes
  write_subnodes_none alloc src j dict r w = refl

  write_subnodes-Holds :
      (alloc : ℕ → Bool) (src : ℕ → Option ℕ) (n j : ℕ) (dict : Dict) (r : Result (Unit {0}))
      (w : W)
      → TablesKept net P dict
      → P w
      → Holds net P (write_subnodes net alloc src n j dict r w)
  write_subnodes-Holds alloc src zero j dict r w k h =
      subst (Holds net P) (sym (write_subnodes_none alloc src j dict r w)) h
  write_subnodes-Holds alloc src (suc n) j dict r w k h = elim (Option-cases (src j)) [
    | inl e ↦
        subst (Holds net P) (sym (subnode_skipped alloc src n j dict r w e))
          (write_subnodes-Holds alloc src n (j + 1) dict r w k h)
    | inr (from, e) ↦ elim (Bool-cases (alloc from)) [
      | inr a ↦ subst (Holds net P) (sym (subnode_refused alloc src n j from dict r w e a)) h
      | inl a ↦ elim (Option-cases (get_elem? dict (from % 2 ^ 8))) [
        | inl g ↦ subst (Holds net P) (sym (subnode_outside alloc src n j from dict r w e a g)) tt
        | inr (t, g) ↦
            subst (Holds net P) (sym (subnode_written alloc src n j from dict r w t e a g)) (
              chain_Holds (write_ids net j t (reg_ids_get t) r w) (rest alloc src n j dict)
                (write_ids-Holds j t (reg_ids_get t) r w (table_Kept dict (from % 2 ^ 8) t k g) h)
                (λ r1 w1 h1. write_subnodes-Holds alloc src n (j + 1) dict r1 w1 k h1))
      ]
    ]
  ]

  dict_storage_write_one :
      (alloc : ℕ → Bool) (subnodes k : ℕ) (dict : Dict) (w : W) (o : Option ℕ)
      → dict_get_subnode subnodes dict k ≡ o
      → dict_storage_write net alloc subnodes (some dict) (some k) w ≡ elim o [
        | none ↦ none
        | some from ↦
            write_subnodes net alloc
              (λ j. if j == k then some from else none)
              (subnodes + 1)
              0
              dict
              (err efail)
              w
      ]
  unfolding dict_storage_write
  dict_storage_write_one alloc subnodes k dict w none e = ground (arith, e)
  dict_storage_write_one alloc subnodes k dict w (some from) e = ground (arith, e)

  -- The writing of the stored values, of one subnode or all, keeps every property of the world that is kept
  -- by writing, to the address of a register of the dictionary that can be read and written, the low bytes of
  -- its stored value, as many as its type has: it writes nothing else, whatever the drive answers.
  pub dict_storage_write-Holds :
      (alloc : ℕ → Bool) (subnodes : ℕ) (dict : Dict) (subnode : Option ℕ) (w : W)
      → TablesKept net P dict
      → P w
      → Holds net P (dict_storage_write net alloc subnodes (some dict) subnode w)
  unfolding dict_storage_write
  dict_storage_write-Holds alloc subnodes dict none w k h =
      write_subnodes-Holds alloc (λ j. some j) (subnodes + 1) 0 dict (err efail) w k h
  dict_storage_write-Holds alloc subnodes dict (some i) w k h =
      elim (Option-cases (dict_get_subnode subnodes dict i)) [
        | inl e ↦
            subst (Holds net P) (sym (dict_storage_write_one alloc subnodes i dict w none e)) tt
        | inr (from, e) ↦
            subst (Holds net P) (sym (dict_storage_write_one alloc subnodes i dict w (some from) e))
              (write_subnodes-Holds alloc (λ j. if j == i then some from else none) (subnodes + 1) 0
                dict (err efail) w k h)
      ]
