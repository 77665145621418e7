-- ===== src/Firmware/Tests.antt =====
-- A simulated slave with a bootloader, and witnesses.
use ingenialink.Base.{
  ℕ, zero, suc, ◌≡◌, ◌==◌, ap, ◌∙◌, inl, inr, Bool-cases, refl, Bool, true, false, not, ◌&&◌, ◌||◌,
  none, some, List, [], ◌∷◌, arith, if◌then◌else◌,
}
use ingenialink.Base.Int.{ℤ, pos}
use ingenialink.Firmware.{
  stopped, written, eeprom_file_error, EcState, init, pre_op, boot, Foe, file_id, update_firmware,
}
use ingenialink.Firmware.Session.{Opened, IsEnded, update_firmware-IsEnded}
use ingenialink.Firmware.Live.{Loader, is_slash, IsName, update_firmware-IsFlashed}

-- Whether SOEM is open, the slave runs its bootloader, has taken the password, is in the state BOOT; its image with its
-- name, and its sync managers.
record Slave : Type 0 where
  up : Bool
  loads : Bool
  forced : Bool
  booted : Bool
  image : List ℕ × List ℕ
  sm0 : ℕ × ℕ
  sm1 : ℕ × ℕ

-- The mailboxes at 0x1000 with 0x0100 bytes.
abbrev has_mailboxes : Slave → Bool
has_mailboxes s = s.sm0.0 == 0x1000 && s.sm0.1 == 0x0100 && s.sm1.0 == 0x1000 && s.sm1.1 == 0x0100

-- A request of BOOT starts the bootloader of a slave that has the password.
abbrev check_state : EcState → Slave → Bool × Slave
check_state init s = (true, s)
check_state pre_op s = (not s.loads, s)
check_state boot s = (
  s.loads && has_mailboxes s,
  record s { loads = s.loads || s.forced; booted = s.loads && has_mailboxes s },
)

abbrev taken : List ℕ → List ℕ → Slave → ℤ × Slave
taken name file s = if s.booted then (pos 1, record s { image = (name, file) }) else (pos 0, s)

abbrev foe : Foe Slave
foe = record {
  ect_sii_bootrxmbx = 0x14;
  ect_sii_boottxmbx = 0x16;
  ect_reg_sm0 = 0x0800;
  ect_reg_sm1 = 0x0808;
  ec_init = λ s. (true, record s { up = true });
  ec_config_init = λ s. (true, s);
  ec_close = λ s. record s { up = false };
  ec_writestate = λ state s. s;
  ec_statecheck = check_state;
  ec_sdo_write = λ index value s. (true, record s { forced = true });
  ec_readeeprom = λ word s. (0x01001000, s);
  ec_fpwr = λ reg start len s.
      if reg == 0x0800 then record s { sm0 = (start, len) } else record s { sm1 = (start, len) };
  ec_eeprom2pdi = λ s. (true, s);
  ec_foe_write = λ name password file s. taken name file s;
}

abbrev application : Slave
application = record {
  up = false;
  loads = false;
  forced = false;
  booted = false;
  image = ([], []);
  sm0 = (0, 0);
  sm1 = (0, 0);
}

-- `fw/coco.lfu`
abbrev name : List ℕ
name = b'f' ∷ b'w' ∷ b'/' ∷ b'c' ∷ b'o' ∷ b'c' ∷ b'o' ∷ b'.' ∷ b'l' ∷ b'f' ∷ b'u' ∷ []

abbrev base : List ℕ
base = b'c' ∷ b'o' ∷ b'c' ∷ b'o' ∷ b'.' ∷ b'l' ∷ b'f' ∷ b'u' ∷ []

name_without_path : file_id name ≡ base
unfolding file_id
name_without_path = refl

-- The file cannot be opened: the session stays open.
no_file : (update_firmware foe name none false application).0 ≡ stopped eeprom_file_error
unfolding update_firmware
no_file = refl

check_state-up : (state : EcState) (s : Slave) → (check_state state s).1.up ≡ s.up
check_state-up init s = refl
check_state-up pre_op s = refl
check_state-up boot s = refl

written_up : (reg start len : ℕ) (s : Slave) → (foe.ec_fpwr reg start len s).up ≡ s.up
written_up reg start len s = elim (Bool-cases (reg == 0x0800)) [
  | inl e ↦ rw e refl
  | inr e ↦ rw e refl
]

written_loads : (reg start len : ℕ) (s : Slave) → (foe.ec_fpwr reg start len s).loads ≡ s.loads
written_loads reg start len s = elim (Bool-cases (reg == 0x0800)) [
  | inl e ↦ rw e refl
  | inr e ↦ rw e refl
]

abbrev opened : Opened foe
opened = record {
  is_open = λ s. s.up;
  opens = λ w h. refl;
  closes = λ w. refl;
  opens_again = λ w. refl;
  config_keeps = λ w. refl;
  state_keeps = λ s w. refl;
  check_keeps = check_state-up;
  sdo_keeps = λ i v w. refl;
  eeprom_keeps = λ k w. refl;
  fpwr_keeps = λ r s l w. written_up r s l w;
  pdi_keeps = λ w. refl;
}

update_firmware-IsEnded_example :
    IsEnded foe opened (update_firmware foe name (some (1 ∷ 2 ∷ 3 ∷ [])) false application)
update_firmware-IsEnded_example =
    update_firmware-IsEnded foe opened name (some (1 ∷ 2 ∷ 3 ∷ [])) false application refl

takes :
    (name file : List ℕ) (s : Slave)
    → s.booted ≡ true
    → (n : ℕ) × ((taken name file s).0 ≡ pos (suc n)) × ((taken name file s).1.image ≡ (name, file))
takes name file s h = (0, rw h refl, rw h refl)

in_init :
    (s : Slave)
    → ((check_state init s).0 ≡ true)
      × ((check_state init s).1.loads ≡ s.loads)
      × ((check_state init s).1.forced ≡ s.forced)
in_init s = (refl, refl, refl)

in_pre_op :
    (s : Slave)
    → ((check_state pre_op s).0 ≡ not s.loads) × ((check_state pre_op s).1.loads ≡ s.loads)
in_pre_op s = (refl, refl)

leaving :
    (s : Slave)
    → s.loads ≡ false
    → s.forced ≡ true
    → (((check_state boot s).0 && true) ≡ false) × ((check_state boot s).1.loads ≡ true)
leaving s h k = (rw h refl, rw h k)

booting :
    (s : Slave)
    → s.loads ≡ true
    → s.sm0 ≡ (0x1000, 0x0100)
    → s.sm1 ≡ (0x1000, 0x0100)
    → ((check_state boot s).0 ≡ true) × ((check_state boot s).1.booted ≡ true)
booting s h e e1 =
    let holds : (ℕ × ℕ) → (ℕ × ℕ) → Bool =
      λ a b. a.0 == 0x1000 && a.1 == 0x0100 && b.0 == 0x1000 && b.1 == 0x0100 in
    let found : has_mailboxes s ≡ true =
      ap (λ (m : ℕ × ℕ). holds m s.sm1) e ∙ ap (λ (m : ℕ × ℕ). holds (0x1000, 0x0100) m) e1 in
    (rw h (rw found refl), rw h (rw found refl))

base-IsName : IsName base
base-IsName i = letters base refl i
  where
    all : List ℕ → Bool
    all [] = true
    all (c ∷ cs) = let rest = all cs in if is_slash c then false else rest

    letters : (cs : List ℕ) → all cs ≡ true → IsName cs
    letters [] h i = refl
    letters (c ∷ cs) h zero = elim (Bool-cases (is_slash c)) [
      | inl q ↦ absurd (ground (arith, h, q))
      | inr q ↦ q
    ]
    letters (c ∷ cs) h (suc j) = elim (Bool-cases (is_slash c)) [
      | inl q ↦ absurd (ground (arith, h, q))
      | inr q ↦ letters cs (ground (arith, h, q)) j
    ]

abbrev loader : Loader foe false
loader = record {
  loads = λ s. s.loads;
  forced = λ s. s.forced;
  booted = λ s. s.booted;
  image = λ s. s.image;
  opens = λ w. (refl, refl);
  finds = λ w. (refl, refl);
  closes = λ w. (refl, refl);
  reaches_init = in_init;
  shows = in_pre_op;
  takes_password = λ w. (refl, refl, refl);
  leaves = leaving;
  boots = booting;
  eeprom_keeps = λ k w. refl;
  rx = 0x01001000;
  tx = 0x01001000;
  sm0 = λ s. s.sm0;
  sm1 = λ s. s.sm1;
  shows_rx = λ w. refl;
  shows_tx = λ w. refl;
  sets_sm0 = λ start len w. refl;
  sets_sm1 = λ start len w. (refl, refl);
  fpwr_keeps = λ reg start len w. written_loads reg start len w;
  gives_eeprom = λ w. (refl, refl);
  takes_file = λ name file w h p. takes name file w h;
  requests_keep = λ w. refl;
}

update_firmware-IsFlashed_example :
    (n : ℕ) × (w1 : Slave) × (update_firmware foe name (some (1 ∷ 2 ∷ 3 ∷ [])) false application
      ≡ (written (pos (suc n)), w1))
    × (w1.image ≡ (base, 1 ∷ 2 ∷ 3 ∷ []))
update_firmware-IsFlashed_example =
    update_firmware-IsFlashed foe false loader base base-IsName name (1 ∷ 2 ∷ 3 ∷ []) application
      (inr (b'f' ∷ b'w' ∷ [], b'/', refl, refl)) (omega arith)
