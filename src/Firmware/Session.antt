-- ===== src/Firmware/Session.antt =====
-- The session of an update of the firmware, ingenialink/ecat/net.c: whether SOEM is closed behind it.
use ingenialink.Base.{
  ℕ, zero, suc, ◌/◌, ◌%◌, ◌^◌, ◌≡◌, refl, sym, ◌∙◌, Bool, true, false, not, ◌&&◌, Option, none,
  some, List, if◌then◌else◌,
}
use ingenialink.Base.Int.{ℤ, pos, negsuc}
use ingenialink.Firmware.{
  UpError, statemachine_error, eeprom_pdi_error, not_found_error, no_socket, force_boot_error,
  Ended, stopped, written, EcState, init, pre_op, boot, Foe, input_bin, file_id, require,
  change_state, force_boot, reopen, leave_application, prepare, set_mailboxes, transfer,
  enter_bootloader, update_firmware,
}

-- Whether SOEM is open: an initialisation that succeeds opens it, an end closes it, and it can be opened again
-- behind an end.
pub record Opened {W : Type 0} (foe : Foe W) : Type 0 where
  pub is_open : W → Bool
  pub opens : (w : W) → is_open w ≡ false → is_open (foe.ec_init w).1 ≡ (foe.ec_init w).0
  pub closes : (w : W) → is_open (foe.ec_close w) ≡ false
  pub opens_again : (w : W) → (foe.ec_init (foe.ec_close w)).0 ≡ true
  pub config_keeps : (w : W) → is_open (foe.ec_config_init w).1 ≡ is_open w
  pub state_keeps : (s : EcState) (w : W) → is_open (foe.ec_writestate s w) ≡ is_open w
  pub check_keeps : (s : EcState) (w : W) → is_open (foe.ec_statecheck s w).1 ≡ is_open w
  pub sdo_keeps : (i v : ℕ) (w : W) → is_open (foe.ec_sdo_write i v w).1 ≡ is_open w
  pub eeprom_keeps : (k : ℕ) (w : W) → is_open (foe.ec_readeeprom k w).1 ≡ is_open w
  pub fpwr_keeps : (r s l : ℕ) (w : W) → is_open (foe.ec_fpwr r s l w) ≡ is_open w
  pub pdi_keeps : (w : W) → is_open (foe.ec_eeprom2pdi w).1 ≡ is_open w

-- Whether a code is returned while SOEM is open.
abbrev pub left_open : UpError → Bool
left_open no_socket = false
left_open e = true

module _ {W : Type 0} (foe : Foe W) (o : Opened foe) where
  -- Behind the transfer, and if it was never opened, SOEM is closed; behind every other code it is left open.
  abbrev pub IsEnded : Ended × W → Type 0
  IsEnded (written r, w) = o.is_open w ≡ false
  IsEnded (stopped e, w) = o.is_open w ≡ left_open e

  -- What follows in an open session.
  abbrev Continues : (W → Ended × W) → Type 0
  Continues k = (w : W) → o.is_open w ≡ true → IsEnded (k w)

  require-IsEnded :
      (e : UpError) (x : Bool × W) (k : W → Ended × W)
      → left_open e ≡ true
      → o.is_open x.1 ≡ true
      → Continues k
      → IsEnded (require e x k)
  require-IsEnded e (true, w) k l h c = c w h
  require-IsEnded e (false, w) k l h c = h ∙ sym l

  change_state_lem : (s : EcState) (w : W) → o.is_open (change_state foe s w).1 ≡ o.is_open w
  unfolding change_state
  change_state_lem s w = o.check_keeps s (foe.ec_writestate s w) ∙ o.state_keeps s w

  force_boot_lem : (w : W) → o.is_open (force_boot foe w).1 ≡ o.is_open w
  unfolding force_boot
  force_boot_lem w =
      retried (foe.ec_sdo_write 0x5EDE 0x424F4F54 w) (o.sdo_keeps 0x5EDE 0x424F4F54 w)
    where
      retried :
          (x : Bool × W)
          → o.is_open x.1 ≡ o.is_open w
          → o.is_open (if x.0 then (true, x.1) else foe.ec_sdo_write 0x5EDE 0x424F4F54 x.1).1
            ≡ o.is_open w
      retried (true, w1) h = h
      retried (false, w1) h = o.sdo_keeps 0x5EDE 0x424F4F54 w1 ∙ h

  reopen_lem : (w : W) → o.is_open (reopen foe w) ≡ true
  reopen_lem w =
      o.config_keeps (foe.ec_init (foe.ec_close w)).1
      ∙ o.opens (foe.ec_close w) (o.closes w)
      ∙ o.opens_again w

  forced_lem :
      (is_summit : Bool) (w : W)
      → o.is_open (if is_summit then (true, w) else force_boot foe w).1 ≡ o.is_open w
  forced_lem true w = refl
  forced_lem false w = force_boot_lem w

  leave_application-IsEnded :
      (is_summit : Bool) (w : W) (k : W → Ended × W)
      → o.is_open w ≡ true
      → Continues k
      → IsEnded (leave_application foe is_summit w k)
  unfolding leave_application
  leave_application-IsEnded is_summit w k h c =
      require-IsEnded force_boot_error (if is_summit then (true, w) else force_boot foe w)
        (λ w1. require statemachine_error (change_state foe init w1) (λ w2.
          let (entered, w3) = change_state foe boot w2 in
          require statemachine_error (not (entered && not is_summit), w3)
            (λ w4. k (reopen foe w4))))
        refl (forced_lem is_summit w ∙ h)
        (λ w1 h1.
          require-IsEnded statemachine_error (change_state foe init w1)
            (λ w2.
              let (entered, w3) = change_state foe boot w2 in
              require statemachine_error (not (entered && not is_summit), w3)
                (λ w4. k (reopen foe w4)))
            refl (change_state_lem init w1 ∙ h1)
            (λ w2 h2.
              require-IsEnded statemachine_error
                (not ((change_state foe boot w2).0 && not is_summit), (change_state foe boot w2).1)
                (λ w4. k (reopen foe w4)) refl (change_state_lem boot w2 ∙ h2)
                (λ w4 h4. c (reopen foe w4) (reopen_lem w4))))

  prepare-IsEnded :
      (is_summit : Bool) (w : W) (k : W → Ended × W)
      → o.is_open w ≡ true
      → Continues k
      → IsEnded (prepare foe is_summit w k)
  unfolding prepare
  prepare-IsEnded is_summit w k h c =
      either (change_state foe pre_op w) (change_state_lem pre_op w ∙ h)
    where
      either :
          (x : Bool × W)
          → o.is_open x.1 ≡ true
          → IsEnded (if x.0 then leave_application foe is_summit x.1 k else k x.1)
      either (true, w1) h1 = leave_application-IsEnded is_summit w1 k h1 c
      either (false, w1) h1 = c w1 h1

  mailboxes_lem : (w : W) → o.is_open (set_mailboxes foe w) ≡ o.is_open w
  mailboxes_lem w =
      let rx = foe.ec_readeeprom foe.ect_sii_bootrxmbx w in
      let tx = foe.ec_readeeprom foe.ect_sii_boottxmbx rx.1 in
      o.fpwr_keeps foe.ect_reg_sm1 (tx.0 % 2 ^ 16) (tx.0 / 2 ^ 16 % 2 ^ 16)
        (foe.ec_fpwr foe.ect_reg_sm0 (rx.0 % 2 ^ 16) (rx.0 / 2 ^ 16 % 2 ^ 16) tx.1)
      ∙ o.fpwr_keeps foe.ect_reg_sm0 (rx.0 % 2 ^ 16) (rx.0 / 2 ^ 16 % 2 ^ 16) tx.1
      ∙ o.eeprom_keeps foe.ect_sii_boottxmbx rx.1
      ∙ o.eeprom_keeps foe.ect_sii_bootrxmbx w

  transfer-IsEnded :
      (name : List ℕ) (file : Option (List ℕ)) → Continues (λ w. transfer foe name file w)
  unfolding transfer
  transfer-IsEnded name none w h = h
  transfer-IsEnded name (some file) w h =
      closed (foe.ec_foe_write (file_id name) 0x70636675 (input_bin 0 file) w)
    where
      closed :
          (x : ℤ × W)
          → IsEnded (elim x.0 [
            | pos zero ↦ (written (negsuc 30), foe.ec_close x.1)
            | pos (suc n) ↦ (written (pos (suc n)), foe.ec_close (foe.ec_writestate init x.1))
            | negsuc n ↦ (written (negsuc n), foe.ec_close x.1)
          ])
      closed (pos zero, w1) = o.closes w1
      closed (pos (suc n), w1) = o.closes (foe.ec_writestate init w1)
      closed (negsuc n, w1) = o.closes w1

  enter_bootloader-IsEnded :
      (name : List ℕ) (file : Option (List ℕ)) → Continues (λ w. enter_bootloader foe name file w)
  unfolding enter_bootloader
  enter_bootloader-IsEnded name file w h =
      require-IsEnded statemachine_error (change_state foe init w)
        (λ w1.
          require statemachine_error (change_state foe boot (set_mailboxes foe w1)) (λ w2.
            require eeprom_pdi_error (foe.ec_eeprom2pdi w2) (λ w3. transfer foe name file w3)))
        refl (change_state_lem init w ∙ h)
        (λ w1 h1.
          require-IsEnded statemachine_error (change_state foe boot (set_mailboxes foe w1))
            (λ w2.
              require eeprom_pdi_error (foe.ec_eeprom2pdi w2) (λ w3. transfer foe name file w3))
            refl (change_state_lem boot (set_mailboxes foe w1) ∙ mailboxes_lem w1 ∙ h1)
            (λ w2 h2.
              require-IsEnded eeprom_pdi_error (foe.ec_eeprom2pdi w2)
                (λ w3. transfer foe name file w3) refl (o.pdi_keeps w2 ∙ h2)
                (transfer-IsEnded name file)))

  -- From a closed SOEM that can be opened again behind each end: an update leaves SOEM closed if it comes to the transfer,
  -- whatever the result of that, and if SOEM could not be opened; with every other code it leaves SOEM open.
  pub update_firmware-IsEnded :
      (name : List ℕ) (file : Option (List ℕ)) (is_summit : Bool) (w : W)
      → o.is_open w ≡ false
      → IsEnded (update_firmware foe name file is_summit w)
  unfolding update_firmware
  update_firmware-IsEnded name file is_summit w h = opened (foe.ec_init w) (o.opens w h)
    where
      opened :
          (x : Bool × W)
          → o.is_open x.1 ≡ x.0
          → IsEnded (
              require no_socket x (λ w1. require not_found_error (foe.ec_config_init w1) (λ w2.
                require statemachine_error
                  (change_state foe init w2)
                  (λ w3. prepare foe is_summit w3 (λ w4. enter_bootloader foe name file w4)))))
      opened (false, w1) h1 = h1
      opened (true, w1) h1 =
          require-IsEnded not_found_error (foe.ec_config_init w1)
            (λ w2.
              require statemachine_error (change_state foe init w2)
                (λ w3. prepare foe is_summit w3 (λ w4. enter_bootloader foe name file w4)))
            refl (o.config_keeps w1 ∙ h1)
            (λ w2 h2.
              require-IsEnded statemachine_error (change_state foe init w2)
                (λ w3. prepare foe is_summit w3 (λ w4. enter_bootloader foe name file w4)) refl
                (change_state_lem init w2 ∙ h2)
                (λ w3 h3.
                  prepare-IsEnded is_summit w3 (λ w4. enter_bootloader foe name file w4) h3
                    (enter_bootloader-IsEnded name file)))
