-- ===== src/Storage/Tests.antt =====
-- The storage of a small dictionary, read and written, and witnesses.
use mathlib.Core.Path.{subst}
use native.Mathlib.Nat.{pow-succ'}
use ingenialink.Base.{
  zero, suc, ◌^◌, ◌<◌, inl, inr, Bool-cases, sym, ◌%◌, ℕ, ◌+◌, Bool, true, none, some, ok, err,
  efail, enotsup, [], ◌∷◌, ◌≡◌, refl, arith, ◌==◌, if◌then◌else◌,
}
use ingenialink.Register.{Reg, s8, mcb_sts_word, mcb_ctl_word}
use ingenialink.Port.{Net}
use ingenialink.Storage.{Dict, dict_storage_read, stored}
use ingenialink.Storage.Refresh.{Answers, AllDistinct, refresh_all, dict_storage_read-refresh}
use ingenialink.Storage.Restore.{dict_storage_write}
use ingenialink.Storage.Written.{TablesKept, Kept, Holds}
use ingenialink.Storage.Whole.{dict_storage_write-Holds}

abbrev offset : Reg
offset = record mcb_ctl_word {
  address = 0x20;
  dtype = s8;
  range_min = 0x80;
  range_max = 0x7F;
  storage = 0xFE;
  storage_valid = true;
}

-- A table of general registers, and one of an axis: its status cannot be written.
abbrev dict : Dict
dict =
    (record { id = "OFFSET"; reg = offset } ∷ [])
    ∷ (record { id = "STATUS"; reg = mcb_sts_word }
        ∷ record { id = "CONTROL"; reg = mcb_ctl_word }
        ∷ [])
    ∷ []

-- The world counts the writes, those to an address other than 0x20 and 0x10 a hundredfold.
abbrev net : Net ℕ
net = record {
  read = λ subnode address sz w. (
    if address == 0x20 then err efail else if sz == 2 then ok (address % 0x100 + 0x0F00) else ok 0,
    w,
  );
  write = λ subnode address v sz confirmed extended w.
      (ok tt, if address == 0x20 then w + 1 else if address == 0x10 then w + 1 else w + 100);
  wait_write = λ subnode address v sz confirmed extended w. (err enotsup, w);
}

abbrev plenty : ℕ → Bool
plenty i = true

dict-AllDistinct : AllDistinct dict
dict-AllDistinct = ((tt, tt), (((refl, tt), (tt, tt)), tt))

-- The offset cannot be read and stays, the status is passed over.
read_back :
    dict_storage_read net 0 plenty 1 (some dict) 0
    ≡ some (
      ok tt,
      some (
          (record { id = "OFFSET"; reg = offset } ∷ [])
          ∷ (record { id = "STATUS"; reg = mcb_sts_word }
              ∷ record { id = "CONTROL"; reg = stored 0x0F10 mcb_ctl_word }
              ∷ [])
          ∷ []),
      0,
    )
unfolding dict_storage_read
read_back = refl

written : dict_storage_write net plenty 1 (some dict) none 0 ≡ some (ok tt, 2)
unfolding dict_storage_write
written = refl

zero_fits : (sz : ℕ) → 0 < 256 ^ sz
zero_fits zero = omega arith
zero_fits (suc sz) = omega (arith, zero_fits sz, pow-succ' 256 sz)

net-Answers : Answers net
net-Answers subnode address sz v w e = elim (Bool-cases (address == 0x20)) [
  | inl a ↦ absurd (ground (arith, e, a))
  | inr a ↦ elim (Bool-cases (sz == 2)) [
    | inl b ↦
        let two : sz ≡ 2 = ground (arith, b) in
        subst (λ (n : ℕ). v < 256 ^ n) (sym two) (ground (arith, e, a, b))
    | inr b ↦
        let none_read : v ≡ 0 = ground (arith, e, a, b) in
        subst (λ (m : ℕ). m < 256 ^ sz) (sym none_read) (zero_fits sz)
  ]
]

dict_storage_read-refresh_example :
    let (r1, dict1, w1) = refresh_all net 0 2 0 dict (ok tt) 0 in
    dict_storage_read net 0 plenty 1 (some dict) 0 ≡ some (r1, some dict1, w1)
dict_storage_read-refresh_example =
    dict_storage_read-refresh net 0 plenty 1 dict 0 net-Answers (omega arith) (λ i. refl)
      (omega arith) (omega arith) dict-AllDistinct

-- Fewer than a hundred writes, which a write of another register breaks.
abbrev Untouched : ℕ → Type 0
Untouched w = w % 100 ≡ w

abbrev clean_net : Net ℕ
clean_net = record net {
  write = λ subnode address v sz confirmed extended w.
      (ok tt, if address == 0x20 then w else if address == 0x10 then w else 100);
}

offset-Kept : Kept clean_net Untouched offset
offset-Kept j w h = h

control-Kept : Kept clean_net Untouched mcb_ctl_word
control-Kept j w h = h

dict-TablesKept : TablesKept clean_net Untouched dict
dict-TablesKept =
    ((λ _. offset-Kept, tt), ((λ h. absurd (ground (arith, h)), (λ _. control-Kept, tt)), tt))

dict_storage_write-Holds_example :
    Holds clean_net Untouched (dict_storage_write clean_net plenty 1 (some dict) none 0)
dict_storage_write-Holds_example =
    dict_storage_write-Holds clean_net Untouched plenty 1 dict none 0 dict-TablesKept refl
