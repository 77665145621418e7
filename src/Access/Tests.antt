-- ===== src/Access/Tests.antt =====
-- Runs of the register access, and witnesses.
use ingenialink.Base.{ℕ, ◌-◌, ◌^◌, ◌%◌, true, none, some, ok, ◌⊎◌, refl}
use ingenialink.Base.Int.{negsuc, signed, ◌≤ℤ◌}
use ingenialink.Register.{Reg, s32, mcb_ctl_word}
use ingenialink.Port.{Net, Catalog}
use ingenialink.Access.{pattern_of}
use ingenialink.Access.Writes.{raw_write_s32}
use ingenialink.Access.Guard.{Guarded, Remembers, raw_write_s32-Guarded}

-- A network of one register.
abbrev net : Net ℕ
net = record {
  read = λ subnode address sz w. (ok w, w);
  write = λ subnode address val sz confirm extended w. (ok tt, val);
  wait_write = λ subnode address val sz confirm extended w. (ok tt, val);
}

-- A position, between -10 and 10.
abbrev position : Reg
position = record mcb_ctl_word {
  address = 0x30;
  dtype = s32;
  range_min = 2 ^ 32 - 10;
  range_max = 10;
}

-- A mode, between 1 and 3.
abbrev mode : Reg
mode = record mcb_ctl_word { address = 0x14; range_min = 1; range_max = 3 }

-- A dictionary of the mode.
abbrev catalog : Catalog (Unit {0})
catalog = record { reg_get = λ d id subnode. ok mode }

raw_write_s32-Guarded_example :
    Guarded net position s32
      ((signed 32 ((2 ^ 32 - 10) % 2 ^ 32) ≤ℤ negsuc 4) × (negsuc 4 ≤ℤ signed 32 (10 % 2 ^ 32)))
      (¬ (signed 32 ((2 ^ 32 - 10) % 2 ^ 32) ≤ℤ negsuc 4) ⊎ ¬ (negsuc 4 ≤ℤ signed 32 (10 % 2 ^ 32)))
      (pattern_of 32 (negsuc 4))
      4
      true
      0
      0
      (raw_write_s32 net catalog none (some position) "" (negsuc 4) true 0 1 0)
raw_write_s32-Guarded_example =
    raw_write_s32-Guarded net catalog none position "" (negsuc 4) 0 1 true 0

-- The mode 7 is written, though the register admits 1 to 3.
remembers : Remembers net
remembers subnode address val sz extended confirm w h = refl
