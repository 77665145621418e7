-- ===== src/Eeprom/Tool.antt =====
-- The EEPROM tool of ingenialink/ecat/net.c: `calc_crc`, `SIIcrc`, the binary files, `il_ecat_net_eeprom_tool`.
use ingenialink.Base.{
  ℕ, zero, suc, ◌+◌, ◌-◌, ◌*◌, ◌%◌, bit_and, bit_xor, min, Bool, true, false, not, ◌&&◌, Option,
  none, some, List, [], ◌∷◌, get_or, set, ◌==◌, ltb, leb, if◌then◌else◌,
}
use ingenialink.Base.Int.{ℤ, pos, negsuc}
use ingenialink.Eeprom.{max_buf}
use ingenialink.Eeprom.Print.{output_intelhex}
use ingenialink.Eeprom.Scan.{Scanned, input_intelhex}
use ingenialink.Eeprom.Master.{
  Soem, put_bytes, wbuf_at, eeprom_read, eeprom_write, eeprom_writealias,
}

-- A round of `calc_crc`, and its loop.
abbrev pub sii_round : ℕ → ℕ
sii_round crc = if bit_and crc 0x80 == 0 then crc * 2 % 256 else bit_xor (crc * 2) 0x07 % 256

abbrev pub sii_rounds : ℕ → ℕ → ℕ
sii_rounds zero crc = crc
sii_rounds (suc n) crc = sii_rounds n (sii_round crc)

abbrev pub calc_crc : ℕ → ℕ → ℕ
calc_crc crc b = sii_rounds 8 (bit_xor crc b)

-- The loop of `SIIcrc` over `n` bytes from `i`.
abbrev pub sii_from : ℕ → ℕ → List ℕ → ℕ → ℕ
sii_from zero i buf crc = crc
sii_from (suc n) i buf crc = sii_from n (i + 1) buf (calc_crc crc (get_or buf i 0))

abbrev pub sii_crc : List ℕ → ℕ
sii_crc buf = sii_from 14 0 buf 0xff

-- The bytes of a file, up to the end of `ebuf`: what `ebuf` and the length are.
unfoldable pub input_bin_eeprom : List ℕ → ℕ → List ℕ → List ℕ × ℕ
input_bin_eeprom [] cc ebuf = (ebuf, cc)
input_bin_eeprom (c ∷ file) cc ebuf =
    let rest = input_bin_eeprom file (cc + 1) (set ebuf cc c) in
    if ltb cc max_buf then rest else (ebuf, cc)

-- The file of `length_` bytes from `cc`.
unfoldable pub output_bin : ℕ → ℕ → List ℕ → List ℕ
output_bin zero cc ebuf = []
output_bin (suc length_) cc ebuf = get_or ebuf cc 0 ∷ output_bin length_ (cc + 1) ebuf

-- The modes; every other number is `mode_none`.
pub data Mode : Type 0 where
  mode_none mode_readbin mode_readintel mode_writebin mode_writeintel mode_writealias mode_info :
      Mode

-- `ebuf`, the contents of the file if there is one, and the network.
pub record Tool (W : Type 0) : Type 0 where
  pub ebuf : List ℕ
  pub file : Option (List ℕ)
  pub world : W

module _ {W : Type 0} (soem : Soem W) (slavecount slave : ℕ) where
  -- The first 128 bytes, and the size of the memory that they state.
  unfoldable pub read_head : Tool W → Option (ℕ × Tool W)
  unfolding eeprom_read
  read_head t = elim (eeprom_read soem slavecount slave 0x0000 128 t.ebuf t.world) [
    | none ↦ none
    | some (_, e, w) ↦
        some (min ((wbuf_at e 0x3E + 1) * 128) max_buf, record t { ebuf = e; world = w })
  ]

  -- The rest of the memory.
  unfoldable pub read_reminder : ℕ → Tool W → Option (Tool W)
  unfolding eeprom_read
  read_reminder esize t =
      elim (if ltb 128 esize
        then eeprom_read soem slavecount slave 128 (esize - 128) t.ebuf t.world
        else some (false, t.ebuf, t.world)) [
          | none ↦ none
          | some (_, e, w) ↦ some (record t { ebuf = e; world = w })
        ]

  -- `put` makes the file, if it can be written.
  unfoldable pub read_memory : Bool → (ℕ → List ℕ → List ℕ) → Tool W → Option (Tool W)
  unfolding read_head read_reminder
  read_memory writable put t = elim (read_head t) [
    | none ↦ none
    | some (esize, t1) ↦ elim (read_reminder esize t1) [
      | none ↦ none
      | some t2 ↦ some (record t2 { file = if writable then some (put esize t2.ebuf) else t2.file })
    ]
  ]

  -- What a file holds is written: its start and its length, if it was accepted.
  unfoldable pub write_memory : Option (Option (ℕ × ℕ) × List ℕ) → Tool W → Option (ℤ × Tool W)
  unfolding eeprom_write
  write_memory none t = none
  write_memory (some (none, e)) t = some (negsuc 0, record t { ebuf = e })
  write_memory (some (some (estart, esize), e)) t = some (
    pos 0,
    record t { ebuf = e; world = (eeprom_write soem slavecount slave estart esize e t.world).1 },
  )

  -- The alias, in `ebuf` too, with the checksum of the first 14 bytes.
  unfoldable pub write_alias : ℕ → Tool W → Option (Tool W)
  unfolding eeprom_read eeprom_writealias
  write_alias alias t = elim (eeprom_read soem slavecount slave 0x0000 14 t.ebuf t.world) [
    | none ↦ none
    | some (false, e, w) ↦ some (record t { ebuf = e; world = w })
    | some (true, e, w) ↦
        let e1 = put_bytes 2 8 alias e in
        some (record t {
          ebuf = e1;
          world = (eeprom_writealias soem slavecount slave alias (sii_crc e1) w).1;
        })
  ]

-- The modes read the file with `scan` and, in `lval`, `junk`; `writable` is whether it can be opened to write.
-- `alias` is the global variable.
module _ {W : Type 0} (soem : Soem W) (scan : ℕ → List ℕ → Scanned) where
  -- A file that is opened, or the answer that it is not.
  abbrev pub from_intelhex : ℕ → Tool W → Option (Option (ℕ × ℕ) × List ℕ)
  from_intelhex junk t = elim t.file [
    | none ↦ some (none, t.ebuf)
    | some text ↦ input_intelhex scan junk text t.ebuf
  ]

  abbrev pub from_bin : Tool W → Option (Option (ℕ × ℕ) × List ℕ)
  from_bin t = elim t.file [
    | none ↦ some (none, t.ebuf)
    | some bytes ↦ let (e, n) = input_bin_eeprom bytes 0 t.ebuf in some (some (0, n), e)
  ]

  abbrev pub done : Option (Tool W) → Option (ℤ × Tool W)
  done none = none
  done (some t) = some (pos 0, t)

  -- The modes, on a slave that is there.
  unfoldable pub in_mode : ℕ → ℕ → ℕ → Bool → ℕ → Mode → Tool W → Option (ℤ × Tool W)
  unfolding read_head read_memory write_memory write_alias input_intelhex
  in_mode slavecount slave junk writable alias mode_none t = some (pos 0, t)
  in_mode slavecount slave junk writable alias mode_readbin t =
      done (read_memory soem slavecount slave writable (λ n e. output_bin n 0 e) t)
  in_mode slavecount slave junk writable alias mode_readintel t =
      done (read_memory soem slavecount slave writable output_intelhex t)
  in_mode slavecount slave junk writable alias mode_writebin t =
      write_memory soem slavecount slave (from_bin t) t
  in_mode slavecount slave junk writable alias mode_writeintel t =
      write_memory soem slavecount slave (from_intelhex junk t) t
  in_mode slavecount slave junk writable alias mode_writealias t =
      done (write_alias soem slavecount slave alias t)
  in_mode slavecount slave junk writable alias mode_info t =
      elim (read_head soem slavecount slave t) [ none ↦ none | some (_, t1) ↦ some (pos 0, t1) ]

  unfoldable pub eeprom_tool : ℕ → ℕ → Bool → ℕ → Mode → Tool W → Option (ℤ × Tool W)
  unfolding in_mode
  eeprom_tool slave junk writable alias mode t =
      let (up, w0) = soem.ec_init t.world in
      let (slavecount, w1) = soem.ec_brd w0 in
      let t1 : Tool W = record t { world = w1 } in
      if not up
      then some (pos 0, record t { world = w0 })
      else elim (if slavecount == 0
          then some (negsuc 0, t1)
          else if leb slave slavecount && ltb 0 slave
          then in_mode slavecount slave junk writable alias mode t1
          else some (pos 0, t1)) [
            | none ↦ none
            | some (r, t2) ↦ some (r, record t2 { world = soem.ec_close t2.world })
          ]
