-- ===== src/Eeprom/Simulated.antt =====
-- A simulated slave with a memory, as SOEM shows it.
use ingenialink.Base.{
  ℕ, zero, suc, ◌+◌, ◌*◌, ◌/◌, ◌%◌, ◌^◌, ◌<◌, ◌≤◌, ◌≡◌, ◌⊎◌, inl, inr, refl, sym, Bool, true,
  Bool-cases, ◌&&◌, List, length, length-replicate, replicate, arith, ◌==◌, if◌then◌else◌,
}
use mathlib.Core.Path.{subst}
use ingenialink.Eeprom.{max_buf}
use ingenialink.Eeprom.Copied.{IsBytes}
use ingenialink.Eeprom.Master.{Soem}
use ingenialink.Eeprom.Memory.{Shows, Memory}
use ingenialink.Eeprom.Session.{Bus, IsBuffer}

-- The numbers from a place of a memory, as bytes.
abbrev pub shown : ℕ → ℕ → (ℕ → ℕ) → ℕ
shown zero i w = 0
shown (suc k) i w = w i % 256 + 2 ^ 8 * shown k (i + 1) w

abbrev pub written : ℕ → ℕ → (ℕ → ℕ) → ℕ → ℕ
written k v w i = if i == 2 * k then v % 256 else if i == 2 * k + 1 then v / 256 else w i

-- The memory, and the last two values of the register that grants it.
abbrev pub World : Type 0
World = (ℕ → ℕ) × ℕ × ℕ

-- The master has the memory behind the values 2 and 0.
abbrev pub is_granted : World → Bool
is_granted w = w.1 == 2 && w.2 == 0

-- A write of a word, taken or refused.
abbrev pub answered : Bool → ℕ → ℕ → World → ℕ × World
answered b k v w = if b then (1, (written k v w.0, w.1, w.2)) else (0, w)

abbrev pub soem : Soem World
soem = record {
  ect_reg_eepcfg = 0x0500;
  ect_reg_eepstat = 0x0502;
  ec_estat_r64 = 0x0040;
  ec_init = λ w. (true, w);
  ec_brd = λ w. (1, w);
  ec_close = λ w. w;
  ec_apwr = λ position reg sz v w. if position == 0 then (w.0, w.2, v) else w;
  ec_aprd = λ position reg sz v w. (0x0040, w);
  ec_readeeprom_ap =
      λ position k w. (if position == 0 && is_granted w then shown 8 (2 * k) w.0 else 0, w);
  ec_writeeeprom_ap = λ position k v w. answered (position == 0 && is_granted w) k v w;
}

pub shown-Shows : (k i : ℕ) (w : ℕ → ℕ) → Shows k (shown k i w) i (λ m. w m % 256)
shown-Shows zero i w = tt
shown-Shows (suc k) i w =
    let rest : shown k (i + 1) w ≡ (w i % 256 + 2 ^ 8 * shown k (i + 1) w) / 2 ^ 8 = omega arith in
    (
      omega arith,
      subst (λ (b : ℕ). Shows k b (i + 1) (λ m. w m % 256)) rest (shown-Shows k (i + 1) w),
    )

pub written_lem :
    (k v : ℕ) (w : ℕ → ℕ)
    → v < 2 ^ 16
    → (written k v w (2 * k) % 256 ≡ v % 256) × (written k v w (2 * k + 1) % 256 ≡ v / 256)
written_lem k v w h = (ground arith, ground arith)

pub written_elsewhere :
    (k v : ℕ) (w : ℕ → ℕ) (i : ℕ)
    → (i < 2 * k) ⊎ (2 * k + 2 ≤ i)
    → written k v w i % 256 ≡ w i % 256
written_elsewhere k v w i (inl h) = ground arith
written_elsewhere k v w i (inr h) = ground arith

pub writes_stay_lem :
    (k v : ℕ) (w : World)
    → is_granted w ≡ true
    → is_granted (soem.ec_writeeeprom_ap 0 k v w).1 ≡ true
writes_stay_lem k v w g = subst (λ (b : Bool). is_granted (answered b k v w).1 ≡ true) (sym g) g

pub writes_lem :
    (k v : ℕ) (w : World)
    → v < 2 ^ 16
    → is_granted w ≡ true
    → (let w1 = (soem.ec_writeeeprom_ap 0 k v w).1 in
        (w1.0 (2 * k) % 256 ≡ v % 256) × (w1.0 (2 * k + 1) % 256 ≡ v / 256))
writes_lem k v w h g =
    subst
      (λ (b : Bool).
        (let w1 = (answered b k v w).1 in
          (w1.0 (2 * k) % 256 ≡ v % 256) × (w1.0 (2 * k + 1) % 256 ≡ v / 256)))
      (sym g) (written_lem k v w.0 h)

pub writes_keep_lem :
    (k v : ℕ) (w : World) (i : ℕ)
    → (i < 2 * k) ⊎ (2 * k + 2 ≤ i)
    → (soem.ec_writeeeprom_ap 0 k v w).1.0 i % 256 ≡ w.0 i % 256
writes_keep_lem k v w i h = elim (Bool-cases (is_granted w)) [
  | inl g ↦
      subst (λ (b : Bool). (answered b k v w).1.0 i % 256 ≡ w.0 i % 256) (sym g)
        (written_elsewhere k v w.0 i h)
  | inr g ↦ subst (λ (b : Bool). (answered b k v w).1.0 i % 256 ≡ w.0 i % 256) (sym g) refl
]

abbrev pub memory : Memory soem 0
memory = record {
  wide = true;
  byte = λ w i. w.0 i % 256;
  granted = is_granted;
  grants = λ w. refl;
  configured = λ v w i. refl;
  status = λ w. refl;
  status_keeps = λ w i. refl;
  status_stays = λ w g. g;
  reads_stay = λ k w g. g;
  reads = λ k w room g.
      subst
        (λ (b : Bool). Shows 8 (if b then shown 8 (2 * k) w.0 else 0) (2 * k) (λ m. w.0 m % 256))
        (sym g) (shown-Shows 8 (2 * k) w.0);
  reads_keep = λ k w i. refl;
  writes_stay = λ k v w g. writes_stay_lem k v w g;
  writes = λ k v w small h g. writes_lem k v w h g;
  writes_keep = λ k v w i small h. writes_keep_lem k v w i h;
}

abbrev pub bus : Bus soem 1
bus = record {
  aiadr = 0;
  place = (omega arith, omega arith, omega arith);
  memory = memory;
  found = 1;
  first = omega arith;
  there = omega arith;
  starts = λ w. refl;
  finds = λ w. refl;
  start_keeps = λ w m. refl;
  find_keeps = λ w m. refl;
  close_keeps = λ w m. refl;
}

replicate-IsBytes : (n : ℕ) → IsBytes (replicate n 0)
replicate-IsBytes zero i = omega arith
replicate-IsBytes (suc n) zero = omega arith
replicate-IsBytes (suc n) (suc i) = replicate-IsBytes n i

-- Zeros.
pub zeros : (n : ℕ) → (e : List ℕ) × (length e ≡ n) × IsBytes e
zeros n = (replicate n 0, length-replicate n 0, replicate-IsBytes n)

pub zeros-IsBuffer : IsBuffer (zeros max_buf).0
zeros-IsBuffer = ((zeros max_buf).1, (zeros max_buf).2)
