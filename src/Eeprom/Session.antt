-- ===== src/Eeprom/Session.antt =====
-- The tool of ingenialink/ecat/net.c on a slave that is there and answers: what a reading of its memory
-- leaves, and what a writing.
use ingenialink.Base.{
  ℕ, ◌+◌, ◌-◌, ◌*◌, ◌^◌, ◌<◌, ◌≤◌, ◌≡◌, inl, inr, min, refl, ap, ◌∙◌, Bool, true, false, ◌&&◌,
  Option, some, List, length, Bool-cases, arith, get_or, ◌==◌, ltb, leb, if◌then◌else◌,
}
use ingenialink.Base.Int.{ℤ}
use ingenialink.Eeprom.{max_buf}
use ingenialink.Eeprom.Copied.{IsBytes}
use ingenialink.Eeprom.Scan.{Scanned}
use ingenialink.Eeprom.Master.{Soem, wbuf_at, eeprom_read}
use ingenialink.Eeprom.Memory.{IsAt, Memory}
use ingenialink.Eeprom.Reading.{eeprom_read-IsRead}
use ingenialink.Eeprom.Tool.{
  Mode, Tool, read_head, read_reminder, read_memory, in_mode, eeprom_tool,
}

-- A network that comes up and finds the slave, whose memory it leaves as it is.
pub record Bus {W : Type 0} (soem : Soem W) (slave : ℕ) : Type 0 where
  pub aiadr : ℕ
  pub place : IsAt slave aiadr
  pub memory : Memory soem aiadr
  pub found : ℕ
  pub first : 0 < slave
  pub there : slave ≤ found
  pub starts : (w : W) → (soem.ec_init w).0 ≡ true
  pub finds : (w : W) → (soem.ec_brd w).0 ≡ found
  pub start_keeps : (w : W) (m : ℕ) → memory.byte (soem.ec_init w).1 m ≡ memory.byte w m
  pub find_keeps : (w : W) (m : ℕ) → memory.byte (soem.ec_brd w).1 m ≡ memory.byte w m
  pub close_keeps : (w : W) (m : ℕ) → memory.byte (soem.ec_close w) m ≡ memory.byte w m

-- The size that a memory states of itself, in its word 0x3E, as far as `ebuf` goes.
abbrev pub stated : (ℕ → ℕ) → ℕ
stated f = min ((f 0x7C + 2 ^ 8 * f 0x7D + 1) * 128) max_buf

-- `ebuf`: all its bytes, and they are bytes.
abbrev pub IsBuffer : List ℕ → Type 0
IsBuffer e = (length e ≡ max_buf) × IsBytes e

module _ {W : Type 0} (soem : Soem W) (slave : ℕ) (bus : Bus soem slave) where
  -- What a reading leaves: the memory in `ebuf`.
  pub record Held (w : W) (t1 : Tool W) : Type 0 where
    pub buffer : IsBuffer t1.ebuf
    pub holds : (j : ℕ) → j < stated (bus.memory.byte w) → get_or t1.ebuf j 0 ≡ bus.memory.byte w j
    pub keeps : (j : ℕ) → bus.memory.byte t1.world j ≡ bus.memory.byte w j

  read_head_lem :
      (t : Tool W)
      → IsBuffer t.ebuf
      → (t1 : Tool W) × (read_head soem bus.found slave t
          ≡ some (stated (bus.memory.byte t.world), t1))
        × IsBuffer t1.ebuf
        × ((j : ℕ) → j < 128 → get_or t1.ebuf j 0 ≡ bus.memory.byte t.world j)
        × ((j : ℕ) → bus.memory.byte t1.world j ≡ bus.memory.byte t.world j)
        × (t1.file ≡ t.file)
  unfolding read_head
  read_head_lem t b =
      let (e, w, r, taken, keeps) =
        eeprom_read-IsRead soem bus.found slave bus.aiadr bus.place bus.memory 0 128 t.ebuf t.world
          bus.there bus.first refl (omega arith) b.0 in
      let word : min ((wbuf_at e 0x3E + 1) * 128) max_buf ≡ stated (bus.memory.byte t.world) =
        ap (λ (k : ℕ). min ((k + 2 ^ 8 * get_or e 0x7D 0 + 1) * 128) max_buf)
          (taken.inside 0x7C (omega arith) (omega arith))
        ∙ ap (λ (k : ℕ). min ((bus.memory.byte t.world 0x7C + 2 ^ 8 * k + 1) * 128) max_buf)
            (taken.inside 0x7D (omega arith) (omega arith)) in
      (
        record t { ebuf = e; world = w },
        ground (arith, r, word),
        (taken.as_long ∙ b.0, taken.bytes b.1),
        λ j h. taken.inside j (omega arith) h,
        keeps,
        refl,
      )

  reminder_more :
      (n : ℕ) (t : Tool W) (e : List ℕ) (w : W)
      → ltb 128 n ≡ true
      → eeprom_read soem bus.found slave 128 (n - 128) t.ebuf t.world ≡ some (true, e, w)
      → read_reminder soem bus.found slave n t ≡ some (record t { ebuf = e; world = w })
  unfolding read_reminder
  reminder_more n t e w d r = ground (arith, d, r)

  reminder_none :
      (n : ℕ) (t : Tool W) → ltb 128 n ≡ false → read_reminder soem bus.found slave n t ≡ some t
  unfolding read_reminder
  reminder_none n t d = ground (arith, d)

  -- A memory of 128 bytes is read whole by the first read; every other one by two.
  read_reminder_lem :
      (n : ℕ) (f : ℕ → ℕ) (t : Tool W)
      → n ≤ 2 ^ 17
      → IsBuffer t.ebuf
      → ((j : ℕ) → j < 128 → get_or t.ebuf j 0 ≡ f j)
      → ((j : ℕ) → bus.memory.byte t.world j ≡ f j)
      → (t1 : Tool W) × (read_reminder soem bus.found slave n t ≡ some t1)
        × IsBuffer t1.ebuf
        × ((j : ℕ) → j < n → get_or t1.ebuf j 0 ≡ f j)
        × ((j : ℕ) → bus.memory.byte t1.world j ≡ f j)
        × (t1.file ≡ t.file)
  read_reminder_lem n f t room b head keeps = elim (Bool-cases (ltb 128 n)) [
    | inr d ↦ (t, reminder_none n t d, b, λ j p. head j (ground (arith, d)), keeps, refl)
    | inl d ↦
        let more : 128 < n = ground (arith, d) in
        let (e, w, r, taken, k) =
          eeprom_read-IsRead soem bus.found slave bus.aiadr bus.place bus.memory 128 (n - 128)
            t.ebuf t.world bus.there bus.first refl (omega arith) b.0 in
        (
          record t { ebuf = e; world = w },
          reminder_more n t e w d r,
          (taken.as_long ∙ b.0, taken.bytes b.1),
          λ j p. elim (Bool-cases (ltb j 128)) [
            | inl s ↦ let low : j < 128 = ground (arith, s) in taken.below j low ∙ head j low
            | inr s ↦ taken.inside j (ground (arith, s)) (omega arith) ∙ keeps j
          ],
          λ j. k j ∙ keeps j,
          refl,
        )
  ]

  read_memory_of :
      (writable : Bool) (put : ℕ → List ℕ → List ℕ) (n : ℕ) (t t1 t2 : Tool W)
      → read_head soem bus.found slave t ≡ some (n, t1)
      → read_reminder soem bus.found slave n t1 ≡ some t2
      → read_memory soem bus.found slave writable put t
        ≡ some (record t2 { file = if writable then some (put n t2.ebuf) else t2.file })
  unfolding read_memory
  read_memory_of writable put n t t1 t2 h r = ground (arith, h, r)

  -- The session of a reading.
  pub read_memory-Held :
      (writable : Bool) (put : ℕ → List ℕ → List ℕ) (t : Tool W)
      → IsBuffer t.ebuf
      → stated (bus.memory.byte t.world) ≤ 2 ^ 17
      → (t1 : Tool W) × (read_memory soem bus.found slave writable put t ≡ some t1)
        × Held t.world t1
        × (t1.file
            ≡ (if writable then some (put (stated (bus.memory.byte t.world)) t1.ebuf) else t.file))
  read_memory-Held writable put t b small =
      let n = stated (bus.memory.byte t.world) in
      let (t1, h, b1, head, keeps, same) = read_head_lem t b in
      let (t2, r, b2, holds, k, same2) =
        read_reminder_lem n (bus.memory.byte t.world) t1 small b1 head keeps in
      (
        record t2 { file = if writable then some (put n t2.ebuf) else t2.file },
        read_memory_of writable put n t t1 t2 h r,
        record { buffer = b2; holds = holds; keeps = k },
        ap (λ (f : Option (List ℕ)). if writable then some (put n t2.ebuf) else f) (same2 ∙ same),
      )

  -- The start and the end of a session leave the result of its mode.
  pub eeprom_tool_lem :
      (scan : ℕ → List ℕ → Scanned) (junk : ℕ) (writable : Bool) (alias : ℕ) (mode : Mode)
      (t t1 : Tool W) (r : ℤ)
      → in_mode soem scan bus.found slave junk writable alias mode
          (record t { world = (soem.ec_brd (soem.ec_init t.world).1).1 })
        ≡ some (r, t1)
      → eeprom_tool soem scan slave junk writable alias mode t
        ≡ some (r, record t1 { world = soem.ec_close t1.world })
  unfolding eeprom_tool
  eeprom_tool_lem scan junk writable alias mode t t1 r e =
      let count : (bus.found == 0) ≡ false = ground (arith, bus.there, bus.first) in
      let inside : leb slave bus.found && ltb 0 slave ≡ true =
        ground (arith, bus.there, bus.first) in
      rw (bus.starts t.world)
        (rw (bus.finds (soem.ec_init t.world).1) (rw count (rw inside (rw e refl))))
