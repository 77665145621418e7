-- ===== src/Eeprom/Master.antt =====
-- The EEPROM of a slave over SOEM, ingenialink/ecat/net.c: `eeprom_read`, `eeprom_write`, `eeprom_writealias`.
use ingenialink.Base.{
  ℕ, zero, suc, ◌+◌, ◌-◌, ◌*◌, ◌/◌, ◌%◌, ◌^◌, bit_and, Bool, true, false, ◌&&◌, Option, none, some,
  List, get_or, set, ◌==◌, ltb, leb, if◌then◌else◌,
}
use ingenialink.Eeprom.{max_buf}

-- What the code calls of SOEM, over the states of the network. A position is a 16-bit number.
pub record Soem (W : Type 0) : Type 0 where
  pub ect_reg_eepcfg : ℕ
  pub ect_reg_eepstat : ℕ
  pub ec_estat_r64 : ℕ
  pub ec_init : W → Bool × W
  -- The slaves that answer `ec_BRD` for the register of their type; 0 for none and for a failure.
  pub ec_brd : W → ℕ × W
  pub ec_close : W → W
  -- Position, register, size and value; the result is not used.
  pub ec_apwr : ℕ → ℕ → ℕ → ℕ → W → W
  -- Position, register, size, and what the variable holds before; what it holds afterwards.
  pub ec_aprd : ℕ → ℕ → ℕ → ℕ → W → ℕ × W
  -- Position and word of the memory, 16 bits each; 64 bits.
  pub ec_readeeprom_ap : ℕ → ℕ → W → ℕ × W
  -- Position, word and value, 16 bits each; the result, 0 for a failure.
  pub ec_writeeeprom_ap : ℕ → ℕ → ℕ → W → ℕ × W

-- `aiadr = 1 - slave`
abbrev pub slave_position : ℕ → ℕ
slave_position slave = (2 ^ 32 + 1 - slave) % 2 ^ 16

-- The test of the slave's number and of the range; a number below 1 is 0 here.
abbrev pub is_reached : ℕ → ℕ → ℕ → Bool
is_reached slavecount slave end_ = leb slave slavecount && ltb 0 slave && leb end_ max_buf

-- `ebuf[i] = b & 0xFF; ebuf[i+1] = (b >> 8) & 0xFF; ...`
abbrev pub put_bytes : ℕ → ℕ → ℕ → List ℕ → List ℕ
put_bytes zero i b ebuf = ebuf
put_bytes (suc k) i b ebuf = put_bytes k (i + 1) (b / 2 ^ 8) (set ebuf i (b % 256))

-- `*(wbuf + k)`
abbrev pub wbuf_at : List ℕ → ℕ → ℕ
wbuf_at ebuf k = get_or ebuf (2 * k) 0 + 2 ^ 8 * get_or ebuf (2 * k + 1) 0

module _ {W : Type 0} (soem : Soem W) where
  -- The EEPROM is taken from the PDI and given to the master.
  abbrev pub to_master : ℕ → W → W
  to_master aiadr w =
      soem.ec_apwr aiadr soem.ect_reg_eepcfg 1 0 (soem.ec_apwr aiadr soem.ect_reg_eepcfg 1 2 w)

  -- The loop of a read from `i`, by the bytes left at most; `none` for a place behind `ebuf`.
  unfoldable pub read_from : ℕ → ℕ → ℕ → ℕ → ℕ → List ℕ → W → Option (List ℕ × W)
  read_from zero i end_ ainc aiadr ebuf w = some (ebuf, w)
  read_from (suc n) i end_ ainc aiadr ebuf w =
      let (b, w1) = soem.ec_readeeprom_ap aiadr (i / 2 % 2 ^ 16) w in
      let rest = read_from n (i + ainc) end_ ainc aiadr (put_bytes ainc i b ebuf) w1 in
      if ltb i end_ then (if leb (i + ainc) max_buf then rest else none) else some (ebuf, w)

  unfoldable pub eeprom_read : ℕ → ℕ → ℕ → ℕ → List ℕ → W → Option (Bool × List ℕ × W)
  unfolding read_from
  eeprom_read slavecount slave start length_ ebuf w =
      if is_reached slavecount slave (start + length_)
      then (let aiadr = slave_position slave in
          let (estat, w1) = soem.ec_aprd aiadr soem.ect_reg_eepstat 2 0 (to_master aiadr w) in
          let ainc = if bit_and estat soem.ec_estat_r64 == 0 then 4 else 8 in
          elim (read_from length_ start (start + length_) ainc aiadr ebuf w1) [
            | none ↦ none
            | some (ebuf1, w2) ↦ some (true, ebuf1, w2)
          ])
      else some (false, ebuf, w)

  -- The loop of a write from `i`, by the bytes left at most.
  unfoldable pub write_from : ℕ → ℕ → ℕ → ℕ → List ℕ → W → W
  write_from zero i end_ aiadr ebuf w = w
  write_from (suc n) i end_ aiadr ebuf w =
      let rest =
        write_from n (i + 2) end_ aiadr ebuf
          (soem.ec_writeeeprom_ap aiadr (i / 2 % 2 ^ 16) (wbuf_at ebuf (i / 2)) w).1 in
      if ltb i end_ then rest else w

  unfoldable pub eeprom_write : ℕ → ℕ → ℕ → ℕ → List ℕ → W → Bool × W
  unfolding write_from
  eeprom_write slavecount slave start length_ ebuf w =
      if is_reached slavecount slave (start + length_)
      then (let aiadr = slave_position slave in
          (true, write_from length_ start (start + length_) aiadr ebuf (to_master aiadr w)))
      else (false, w)

  -- An alias below 0 passes the test too, and is not among these numbers.
  unfoldable pub eeprom_writealias : ℕ → ℕ → ℕ → ℕ → W → ℕ × W
  eeprom_writealias slavecount slave alias crc w =
      if leb slave slavecount && ltb 0 slave && leb alias 0xffff
      then (let aiadr = slave_position slave in
          let (ret, w1) = soem.ec_writeeeprom_ap aiadr 0x04 alias (to_master aiadr w) in
          if ret == 0 then (ret, w1) else soem.ec_writeeeprom_ap aiadr 0x07 crc w1)
      else (0, w)
