-- ===== src/Firmware.antt =====
-- The update of the firmware of an EtherCAT slave over FoE, ingenialink/ecat/net.c: `il_ecat_net_change_state`,
-- `input_bin`, `il_ecat_net_update_firmware`.
pub mod Session
pub mod Live
mod Tests
use ingenialink.Base.{
  ℕ, zero, suc, ◌+◌, ◌-◌, ◌*◌, ◌/◌, ◌%◌, ◌^◌, Bool, true, false, not, ◌&&◌, ◌||◌, Option, none,
  some, List, [], ◌∷◌, length, get_or, drop, ◌==◌, ltb, if◌then◌else◌,
}
use ingenialink.Base.Int.{ℤ, pos, negsuc}

-- The `UP_*` codes that an update returns.
pub data UpError : Type 0 where
  statemachine_error eeprom_pdi_error eeprom_file_error not_found_error no_socket force_boot_error :
      UpError

-- The result: a code of these, or that of the transfer.
pub data Ended : Type 0 where
  stopped : UpError → Ended
  written : ℤ → Ended

-- The states of a slave that are requested.
pub data EcState : Type 0 where
  init pre_op boot : EcState

-- What the code calls of SOEM, for the slave, over the states of the network.
pub record Foe (W : Type 0) : Type 0 where
  pub ect_sii_bootrxmbx : ℕ
  pub ect_sii_boottxmbx : ℕ
  pub ect_reg_sm0 : ℕ
  pub ect_reg_sm1 : ℕ
  pub ec_init : W → Bool × W
  -- Whether slaves were found.
  pub ec_config_init : W → Bool × W
  pub ec_close : W → W
  -- The assignment of `ec_slave[slave].state` and `ec_writestate`.
  pub ec_writestate : EcState → W → W
  -- Whether the state was reached.
  pub ec_statecheck : EcState → W → Bool × W
  -- Index and value; whether it was written.
  pub ec_sdo_write : ℕ → ℕ → W → Bool × W
  pub ec_readeeprom : ℕ → W → ℕ × W
  -- Register, start and length of a mailbox, which `ec_slave` has too.
  pub ec_fpwr : ℕ → ℕ → ℕ → W → W
  -- Whether the PDI has the EEPROM.
  pub ec_eeprom2pdi : W → Bool × W
  -- Name, password and contents.
  pub ec_foe_write : List ℕ → ℕ → List ℕ → W → ℤ × W

-- `FWBUFSIZE`
abbrev pub fwbufsize : ℕ
fwbufsize = 8 * 1024 * 1024

-- `input_bin` from the count `cc`: what `filebuffer` holds up to the length.
unfoldable pub input_bin : ℕ → List ℕ → List ℕ
input_bin cc [] = []
input_bin cc (c ∷ file) =
    let rest = input_bin (cc + 1) file in if ltb cc fwbufsize then c ∷ rest else []

-- The loop over `filename` from `len` down: the last separator.
unfoldable pub separator : ℕ → List ℕ → Option ℕ
separator zero name =
    if get_or name zero 0 == b'/' || get_or name zero 0 == b'\\' then some zero else none
separator (suc len) name =
    let rest = separator len name in
    if get_or name (suc len) 0 == b'/' || get_or name (suc len) 0 == b'\\'
    then some (suc len)
    else rest

-- `file_id`
unfoldable pub file_id : List ℕ → List ℕ
unfolding separator
file_id name = elim (separator (length name) name) [ none ↦ name | some len ↦ drop (len + 1) name ]

-- A call, and what follows if it succeeds; an early return of a code else.
abbrev pub require : {W : Type 0} → UpError → Bool × W → (W → Ended × W) → Ended × W
require e (true, w) k = k w
require e (false, w) k = (stopped e, w)

module _ {W : Type 0} (foe : Foe W) where
  unfoldable pub change_state : EcState → W → Bool × W
  change_state s w = foe.ec_statecheck s (foe.ec_writestate s w)

  -- The password that forces the boot, with one retry.
  unfoldable pub force_boot : W → Bool × W
  force_boot w =
      let (done, w1) = foe.ec_sdo_write 0x5EDE 0x424F4F54 w in
      if done then (true, w1) else foe.ec_sdo_write 0x5EDE 0x424F4F54 w1

  -- The connection is made again; its results are not used.
  abbrev pub reopen : W → W
  reopen w = (foe.ec_config_init (foe.ec_init (foe.ec_close w)).1).1

  -- The way into the bootloader of a slave whose application runs.
  unfoldable pub leave_application : Bool → W → (W → Ended × W) → Ended × W
  unfolding change_state force_boot
  leave_application is_summit w k =
      require force_boot_error (if is_summit then (true, w) else force_boot w) (λ w1.
        require statemachine_error (change_state init w1) (λ w2.
          let (entered, w3) = change_state boot w2 in
          require statemachine_error (not (entered && not is_summit), w3) (λ w4. k (reopen w4))))

  unfoldable pub prepare : Bool → W → (W → Ended × W) → Ended × W
  unfolding change_state leave_application
  prepare is_summit w k =
      let (running, w1) = change_state pre_op w in
      if running then leave_application is_summit w1 k else k w1

  -- The mailboxes of the bootloader, from the EEPROM.
  abbrev pub set_mailboxes : W → W
  set_mailboxes w =
      let (rx, w1) = foe.ec_readeeprom foe.ect_sii_bootrxmbx w in
      let (tx, w2) = foe.ec_readeeprom foe.ect_sii_boottxmbx w1 in
      foe.ec_fpwr foe.ect_reg_sm1 (tx % 2 ^ 16) (tx / 2 ^ 16 % 2 ^ 16)
        (foe.ec_fpwr foe.ect_reg_sm0 (rx % 2 ^ 16) (rx / 2 ^ 16 % 2 ^ 16) w2)

  -- The transfer of the file, if it can be opened, and the end.
  unfoldable pub transfer : List ℕ → Option (List ℕ) → W → Ended × W
  unfolding file_id input_bin
  transfer name none w = (stopped eeprom_file_error, w)
  transfer name (some file) w =
      let (r, w1) = foe.ec_foe_write (file_id name) 0x70636675 (input_bin 0 file) w in
      elim r [
        | pos zero ↦ (written (negsuc 30), foe.ec_close w1)
        | pos (suc n) ↦ (written (pos (suc n)), foe.ec_close (foe.ec_writestate init w1))
        | negsuc n ↦ (written (negsuc n), foe.ec_close w1)
      ]

  unfoldable pub enter_bootloader : List ℕ → Option (List ℕ) → W → Ended × W
  unfolding change_state transfer
  enter_bootloader name file w = require statemachine_error (change_state init w) (λ w1.
      require statemachine_error (change_state boot (set_mailboxes w1))
        (λ w2. require eeprom_pdi_error (foe.ec_eeprom2pdi w2) (λ w3. transfer name file w3)))

  unfoldable pub update_firmware : List ℕ → Option (List ℕ) → Bool → W → Ended × W
  unfolding change_state prepare enter_bootloader
  update_firmware name file is_summit w = require no_socket (foe.ec_init w) (λ w1.
      require not_found_error (foe.ec_config_init w1) (λ w2.
        require statemachine_error (change_state init w2)
          (λ w3. prepare is_summit w3 (λ w4. enter_bootloader name file w4))))
