-- ===== src/Firmware/Live.antt =====
-- The update of the firmware of a slave that follows the protocol of its bootloader, ingenialink/ecat/net.c.
use ingenialink.Base.{
  ◌/◌, ◌%◌, ◌^◌, ℕ, zero, suc, ◌+◌, ◌≤◌, ◌≡◌, ◌⊎◌, inl, inr, refl, sym, ap, ◌∙◌, Bool, true, false,
  not, ◌&&◌, ◌||◌, ◌==◌, none, some, List, [], ◌∷◌, ◌++◌, length, length-append, get_or,
  get_or-append, drop, arith, ltb, if◌then◌else◌,
}
use mathlib.Core.Path.{subst}
use ingenialink.Base.Int.{ℤ, pos, negsuc}
use ingenialink.Firmware.{
  UpError, statemachine_error, eeprom_pdi_error, not_found_error, no_socket, force_boot_error,
  Ended, written, init, pre_op, boot, Foe, fwbufsize, input_bin, separator, file_id, require,
  change_state, force_boot, reopen, leave_application, prepare, set_mailboxes, transfer,
  enter_bootloader, update_firmware,
}

-- A character that ends a folder.
abbrev pub is_slash : ℕ → Bool
is_slash c = c == b'/' || c == b'\\'

-- A name without a path.
abbrev pub IsName : List ℕ → Type 0
IsName name = (i : ℕ) → is_slash (get_or name i 0) ≡ false

separator_skips :
    (n : ℕ) (name : List ℕ)
    → is_slash (get_or name (suc n) 0) ≡ false
    → separator (suc n) name ≡ separator n name
unfolding separator
separator_skips n name h = ground (arith, h)

separator_stops :
    (n : ℕ) (name : List ℕ) → is_slash (get_or name n 0) ≡ true → separator n name ≡ some n
unfolding separator
separator_stops zero name h = ground (arith, h)
separator_stops (suc n) name h = ground (arith, h)

-- From a place behind the path, the last separator is the end of the path.
separator_path :
    (m n : ℕ) (dir base : List ℕ) (c : ℕ)
    → n ≡ length dir + m
    → is_slash c ≡ true
    → IsName base
    → separator n (dir ++ (c ∷ base)) ≡ some (length dir)
separator_path zero n dir base c e s h =
    let at : n ≡ length dir = omega (arith, e) in
    separator_stops n (dir ++ (c ∷ base))
      (ap is_slash (get_or-append dir (c ∷ base) n 0 0 (omega (arith, e))) ∙ s)
    ∙ ap some at
separator_path (suc m) zero dir base c e s h = absurd (omega (arith, e))
separator_path (suc m) (suc n) dir base c e s h =
    separator_skips n (dir ++ (c ∷ base))
      (ap is_slash (get_or-append dir (c ∷ base) (suc n) (suc m) 0 (omega (arith, e))) ∙ h m)
    ∙ separator_path m n dir base c (omega (arith, e)) s h

separator_none : (n : ℕ) (name : List ℕ) → IsName name → separator n name ≡ none
unfolding separator
separator_none zero name h = ground (arith, h 0)
separator_none (suc n) name h = separator_skips n name (h (suc n)) ∙ separator_none n name h

drop_path :
    (n : ℕ) (dir base : List ℕ) (c : ℕ) → n ≡ length dir + 1 → drop n (dir ++ (c ∷ base)) ≡ base
drop_path zero dir base c e = absurd (omega (arith, e))
drop_path (suc zero) [] base c e = refl
drop_path (suc (suc n)) [] base c e = absurd (omega (arith, e))
drop_path (suc n) (d ∷ dir) base c e = drop_path n dir base c (omega (arith, e))

-- A name, with a path before it or not.
abbrev pub Named : List ℕ → List ℕ → Type 0
Named base path =
    (path ≡ base) ⊎ ((dir : List ℕ) × (c : ℕ) × (is_slash c ≡ true) × (path ≡ dir ++ (c ∷ base)))

file_id_lem : (base path : List ℕ) → IsName base → Named base path → file_id path ≡ base
unfolding file_id
file_id_lem base path h (inl e) = ap file_id e ∙ ground (arith, separator_none (length base) base h)
file_id_lem base path h (inr (dir, c, s, e)) =
    ap file_id e
    ∙ ground (
      arith,
      separator_path (length base + 1) (length (dir ++ (c ∷ base))) dir base c
          (omega (arith, length-append dir (c ∷ base))) s h,
      drop_path (length dir + 1) dir base c refl,
    )

-- A slave that is found, and whether it runs its bootloader. The application runs in the state PRE-OP and leaves
-- for the bootloader by the request of the state BOOT (and, of the one family, the password before it), behind
-- which the connection is made again; it does not reach BOOT, or it is of the other family. The bootloader does
-- not reach PRE-OP, reaches BOOT if the first two sync managers hold its mailboxes, `rx` and `tx` of the EEPROM, and
-- takes a file whose name has no path as its `image`, with the name.
pub record Loader {W : Type 0} (foe : Foe W) (is_summit : Bool) : Type 0 where
  pub loads : W → Bool
  pub forced : W → Bool
  pub booted : W → Bool
  pub image : W → List ℕ × List ℕ
  pub rx : ℕ
  pub tx : ℕ
  pub sm0 : W → ℕ × ℕ
  pub sm1 : W → ℕ × ℕ
  pub shows_rx : (w : W) → (foe.ec_readeeprom foe.ect_sii_bootrxmbx w).0 ≡ rx
  pub shows_tx : (w : W) → (foe.ec_readeeprom foe.ect_sii_boottxmbx w).0 ≡ tx
  pub sets_sm0 :
      (start len : ℕ) (w : W) → sm0 (foe.ec_fpwr foe.ect_reg_sm0 start len w) ≡ (start, len)
  pub sets_sm1 :
      (start len : ℕ) (w : W)
      → (sm1 (foe.ec_fpwr foe.ect_reg_sm1 start len w) ≡ (start, len))
        × (sm0 (foe.ec_fpwr foe.ect_reg_sm1 start len w) ≡ sm0 w)
  pub opens : (w : W) → ((foe.ec_init w).0 ≡ true) × (loads (foe.ec_init w).1 ≡ loads w)
  pub finds :
      (w : W) → ((foe.ec_config_init w).0 ≡ true) × (loads (foe.ec_config_init w).1 ≡ loads w)
  pub closes : (w : W) → (loads (foe.ec_close w) ≡ loads w) × (image (foe.ec_close w) ≡ image w)
  pub reaches_init :
      (w : W)
      → ((foe.ec_statecheck init (foe.ec_writestate init w)).0 ≡ true)
        × (loads (foe.ec_statecheck init (foe.ec_writestate init w)).1 ≡ loads w)
        × (forced (foe.ec_statecheck init (foe.ec_writestate init w)).1 ≡ forced w)
  pub shows :
      (w : W)
      → ((foe.ec_statecheck pre_op (foe.ec_writestate pre_op w)).0 ≡ not (loads w))
        × (loads (foe.ec_statecheck pre_op (foe.ec_writestate pre_op w)).1 ≡ loads w)
  pub takes_password :
      (w : W)
      → ((foe.ec_sdo_write 0x5EDE 0x424F4F54 w).0 ≡ true)
        × (forced (foe.ec_sdo_write 0x5EDE 0x424F4F54 w).1 ≡ true)
        × (loads (foe.ec_sdo_write 0x5EDE 0x424F4F54 w).1 ≡ loads w)
  pub leaves :
      (w : W)
      → loads w ≡ false
      → (if is_summit then true else forced w) ≡ true
      → (((foe.ec_statecheck boot (foe.ec_writestate boot w)).0 && not is_summit) ≡ false)
        × (loads
              (foe.ec_config_init
                (foe.ec_init
                  (foe.ec_close (foe.ec_statecheck boot (foe.ec_writestate boot w)).1)).1).1
            ≡ true)
  pub boots :
      (w : W)
      → loads w ≡ true
      → sm0 w ≡ (rx % 2 ^ 16, rx / 2 ^ 16 % 2 ^ 16)
      → sm1 w ≡ (tx % 2 ^ 16, tx / 2 ^ 16 % 2 ^ 16)
      → ((foe.ec_statecheck boot (foe.ec_writestate boot w)).0 ≡ true)
        × (booted (foe.ec_statecheck boot (foe.ec_writestate boot w)).1 ≡ true)
  pub eeprom_keeps : (k : ℕ) (w : W) → loads (foe.ec_readeeprom k w).1 ≡ loads w
  pub fpwr_keeps : (reg start len : ℕ) (w : W) → loads (foe.ec_fpwr reg start len w) ≡ loads w
  pub gives_eeprom :
      (w : W) → ((foe.ec_eeprom2pdi w).0 ≡ true) × (booted (foe.ec_eeprom2pdi w).1 ≡ booted w)
  pub takes_file :
      (name file : List ℕ) (w : W)
      → booted w ≡ true
      → IsName name
      → (n : ℕ) × ((foe.ec_foe_write name 0x70636675 file w).0 ≡ pos (suc n))
        × (image (foe.ec_foe_write name 0x70636675 file w).1 ≡ (name, file))
  pub requests_keep : (w : W) → image (foe.ec_writestate init w) ≡ image w

-- A file that fits the buffer is read whole.
input_bin_lem : (file : List ℕ) (cc : ℕ) → cc + length file ≤ fwbufsize → input_bin cc file ≡ file
unfolding input_bin
input_bin_lem [] cc h = refl
input_bin_lem (c ∷ file) cc h =
    let test : ltb cc fwbufsize ≡ true = ground arith in
    rw test (ap (λ (rest : List ℕ). c ∷ rest) (input_bin_lem file (cc + 1) (omega arith)))

module _ {W : Type 0} (foe : Foe W) (is_summit : Bool) (l : Loader foe is_summit) (base : List ℕ)
    (plain : IsName base) where
  -- The update ends with the file in the slave.
  abbrev IsFlashed : List ℕ → Ended × W → Type 0
  IsFlashed file x =
      (n : ℕ) × (w : W) × (x ≡ (written (pos (suc n)), w)) × (l.image w ≡ (base, file))

  require-IsFlashed :
      (file : List ℕ) (e : UpError) (x : Bool × W) (k : W → Ended × W)
      → x.0 ≡ true
      → IsFlashed file (k x.1)
      → IsFlashed file (require e x k)
  require-IsFlashed file e (true, w) k h f = f
  require-IsFlashed file e (false, w) k h f = absurd (ground (arith, h))

  transfer-IsFlashed :
      (name file : List ℕ) (w : W)
      → Named base name
      → length file ≤ fwbufsize
      → l.booted w ≡ true
      → IsFlashed file (transfer foe name (some file) w)
  unfolding transfer
  transfer-IsFlashed name file w named h b =
      let whole = input_bin_lem file 0 (omega arith) in
      let same = file_id_lem base name plain named in
      let (n, r, i) =
        l.takes_file (file_id name) (input_bin 0 file) w b (subst IsName (sym same) plain) in
      let w1 = (foe.ec_foe_write (file_id name) 0x70636675 (input_bin 0 file) w).1 in
      (
        n,
        foe.ec_close (foe.ec_writestate init w1),
        ap
            (λ (z : ℤ). elim z [
              | pos zero ↦ (written (negsuc 30), foe.ec_close w1)
              | pos (suc n) ↦ (written (pos (suc n)), foe.ec_close (foe.ec_writestate init w1))
              | negsuc n ↦ (written (negsuc n), foe.ec_close w1)
            ])
            r,
        (l.closes (foe.ec_writestate init w1)).1 ∙ l.requests_keep w1 ∙ i ∙ cc (same, whole),
      )

  mailboxes_lem : (w : W) → l.loads (set_mailboxes foe w) ≡ l.loads w
  mailboxes_lem w =
      let rx = foe.ec_readeeprom foe.ect_sii_bootrxmbx w in
      let tx = foe.ec_readeeprom foe.ect_sii_boottxmbx rx.1 in
      l.fpwr_keeps foe.ect_reg_sm1 (tx.0 % 2 ^ 16) (tx.0 / 2 ^ 16 % 2 ^ 16)
        (foe.ec_fpwr foe.ect_reg_sm0 (rx.0 % 2 ^ 16) (rx.0 / 2 ^ 16 % 2 ^ 16) tx.1)
      ∙ l.fpwr_keeps foe.ect_reg_sm0 (rx.0 % 2 ^ 16) (rx.0 / 2 ^ 16 % 2 ^ 16) tx.1
      ∙ l.eeprom_keeps foe.ect_sii_boottxmbx rx.1
      ∙ l.eeprom_keeps foe.ect_sii_bootrxmbx w

  -- The first two sync managers have the mailboxes of the EEPROM.
  sync_managers :
      (w : W)
      → (l.sm0 (set_mailboxes foe w) ≡ (l.rx % 2 ^ 16, l.rx / 2 ^ 16 % 2 ^ 16))
        × (l.sm1 (set_mailboxes foe w) ≡ (l.tx % 2 ^ 16, l.tx / 2 ^ 16 % 2 ^ 16))
  sync_managers w =
      let rx = foe.ec_readeeprom foe.ect_sii_bootrxmbx w in
      let tx = foe.ec_readeeprom foe.ect_sii_boottxmbx rx.1 in
      let w1 = foe.ec_fpwr foe.ect_reg_sm0 (rx.0 % 2 ^ 16) (rx.0 / 2 ^ 16 % 2 ^ 16) tx.1 in
      let pair : ℕ → ℕ × ℕ = λ x. (x % 2 ^ 16, x / 2 ^ 16 % 2 ^ 16) in
      let (second, first) = l.sets_sm1 (tx.0 % 2 ^ 16) (tx.0 / 2 ^ 16 % 2 ^ 16) w1 in
      (
        first ∙ l.sets_sm0 (rx.0 % 2 ^ 16) (rx.0 / 2 ^ 16 % 2 ^ 16) tx.1 ∙ ap pair (l.shows_rx w),
        second ∙ ap pair (l.shows_tx rx.1),
      )

  enter_bootloader-IsFlashed :
      (name file : List ℕ) (w : W)
      → Named base name
      → length file ≤ fwbufsize
      → l.loads w ≡ true
      → IsFlashed file (enter_bootloader foe name (some file) w)
  unfolding change_state enter_bootloader
  enter_bootloader-IsFlashed name file w named h b =
      let w1 = (change_state foe init w).1 in
      let (ready, keeps, same) = l.reaches_init w in
      let (up, booted) =
        l.boots (set_mailboxes foe w1) (mailboxes_lem w1 ∙ keeps ∙ b) (sync_managers w1).0
          (sync_managers w1).1 in
      let w2 = (change_state foe boot (set_mailboxes foe w1)).1 in
      let (given, still) = l.gives_eeprom w2 in
      require-IsFlashed file statemachine_error (change_state foe init w)
        (λ w1. require statemachine_error (change_state foe boot (set_mailboxes foe w1)) (λ w2.
          require eeprom_pdi_error (foe.ec_eeprom2pdi w2) (λ w3. transfer foe name (some file) w3)))
        ready
        (require-IsFlashed file statemachine_error (change_state foe boot (set_mailboxes foe w1))
          (λ w2.
            require eeprom_pdi_error (foe.ec_eeprom2pdi w2)
              (λ w3. transfer foe name (some file) w3))
          up
          (require-IsFlashed file eeprom_pdi_error (foe.ec_eeprom2pdi w2)
            (λ w3. transfer foe name (some file) w3) given
            (transfer-IsFlashed name file (foe.ec_eeprom2pdi w2).1 named h (still ∙ booted))))

  -- The first of the two tries of the password.
  force_boot_lem :
      (w : W)
      → ((force_boot foe w).0 ≡ true)
        × (l.forced (force_boot foe w).1 ≡ true)
        × (l.loads (force_boot foe w).1 ≡ l.loads w)
  unfolding force_boot
  force_boot_lem w = tried (foe.ec_sdo_write 0x5EDE 0x424F4F54 w) (l.takes_password w)
    where
      tried :
          (x : Bool × W)
          → (x.0 ≡ true) × (l.forced x.1 ≡ true) × (l.loads x.1 ≡ l.loads w)
          → ((if x.0 then (true, x.1) else foe.ec_sdo_write 0x5EDE 0x424F4F54 x.1).0 ≡ true)
            × (l.forced (if x.0 then (true, x.1) else foe.ec_sdo_write 0x5EDE 0x424F4F54 x.1).1
                ≡ true)
            × (l.loads (if x.0 then (true, x.1) else foe.ec_sdo_write 0x5EDE 0x424F4F54 x.1).1
                ≡ l.loads w)
      tried (true, w1) h = h
      tried (false, w1) h = absurd (ground (arith, h.0))

  leave_application-IsFlashed :
      (file : List ℕ) (w : W) (k : W → Ended × W)
      → l.loads w ≡ false
      → ((w1 : W) → l.loads w1 ≡ true → IsFlashed file (k w1))
      → IsFlashed file (leave_application foe is_summit w k)
  unfolding change_state leave_application
  leave_application-IsFlashed file w k b f =
      let x = if is_summit then (true, w) else force_boot foe w in
      let (told, marked, still) = password is_summit in
      let (ready, keeps, same) = l.reaches_init x.1 in
      let w2 = (change_state foe init x.1).1 in
      let (outside, loaded) =
        l.leaves w2 (keeps ∙ still ∙ b) (kept is_summit (l.forced w2) (l.forced x.1) same marked) in
      require-IsFlashed file force_boot_error x
        (λ w1. require statemachine_error (change_state foe init w1) (λ w2.
          let (entered, w3) = change_state foe boot w2 in
          require statemachine_error (not (entered && not is_summit), w3)
            (λ w4. k (reopen foe w4))))
        told
        (require-IsFlashed file statemachine_error (change_state foe init x.1)
          (λ w2.
            let (entered, w3) = change_state foe boot w2 in
            require statemachine_error (not (entered && not is_summit), w3)
              (λ w4. k (reopen foe w4)))
          ready
          (require-IsFlashed file statemachine_error
            (not ((change_state foe boot w2).0 && not is_summit), (change_state foe boot w2).1)
            (λ w4. k (reopen foe w4)) (ap not outside)
            (f (reopen foe (change_state foe boot w2).1) loaded)))
    where
      password :
          (s : Bool)
          → ((if s then (true, w) else force_boot foe w).0 ≡ true)
            × ((if s then true else l.forced (if s then (true, w) else force_boot foe w).1) ≡ true)
            × (l.loads (if s then (true, w) else force_boot foe w).1 ≡ l.loads w)
      password true = (refl, refl, refl)
      password false = force_boot_lem w

      kept :
          (s a b : Bool) → a ≡ b → (if s then true else b) ≡ true → (if s then true else a) ≡ true
      kept s a b e h = ap (λ (c : Bool). if s then true else c) e ∙ h

  prepare-IsFlashed :
      (file : List ℕ) (w : W) (k : W → Ended × W)
      → ((w1 : W) → l.loads w1 ≡ true → IsFlashed file (k w1))
      → IsFlashed file (prepare foe is_summit w k)
  unfolding change_state prepare
  prepare-IsFlashed file w k f = either (change_state foe pre_op w) (l.loads w) refl (l.shows w)
    where
      either :
          (x : Bool × W) (b : Bool)
          → l.loads w ≡ b
          → (x.0 ≡ not (l.loads w)) × (l.loads x.1 ≡ l.loads w)
          → IsFlashed file (if x.0 then leave_application foe is_summit x.1 k else k x.1)
      either (true, w1) true e h = absurd (ground (arith, h.0, e))
      either (true, w1) false e h = leave_application-IsFlashed file w1 k (h.1 ∙ e) f
      either (false, w1) true e h = f w1 (h.1 ∙ e)
      either (false, w1) false e h = absurd (ground (arith, h.0, e))

  -- For a slave that is found and follows the protocol of its bootloader, whether it runs its application or its
  -- bootloader at first, and a file of 8 MiB at most whose name stands behind a path or alone: the update returns
  -- the positive result of the transfer, and the slave has the contents of the file under its name without the
  -- path.
  pub update_firmware-IsFlashed :
      (name file : List ℕ) (w : W)
      → Named base name
      → length file ≤ fwbufsize
      → (n : ℕ) × (w1 : W) × (update_firmware foe name (some file) is_summit w
          ≡ (written (pos (suc n)), w1))
        × (l.image w1 ≡ (base, file))
  unfolding change_state update_firmware
  update_firmware-IsFlashed name file w named h =
      let w1 = (foe.ec_init w).1 in
      let w2 = (foe.ec_config_init w1).1 in
      require-IsFlashed file no_socket (foe.ec_init w)
        (λ w1. require not_found_error (foe.ec_config_init w1) (λ w2.
          require statemachine_error (change_state foe init w2)
            (λ w3. prepare foe is_summit w3 (λ w4. enter_bootloader foe name (some file) w4))))
        (l.opens w).0
        (require-IsFlashed file not_found_error (foe.ec_config_init w1)
          (λ w2.
            require statemachine_error (change_state foe init w2)
              (λ w3. prepare foe is_summit w3 (λ w4. enter_bootloader foe name (some file) w4)))
          (l.finds w1).0
          (require-IsFlashed file statemachine_error (change_state foe init w2)
            (λ w3. prepare foe is_summit w3 (λ w4. enter_bootloader foe name (some file) w4))
            (l.reaches_init w2).0
            (prepare-IsFlashed file (change_state foe init w2).1
              (λ w4. enter_bootloader foe name (some file) w4)
              (λ w4 b. enter_bootloader-IsFlashed name file w4 named h b))))
