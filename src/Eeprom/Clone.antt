-- ===== src/Eeprom/Clone.antt =====
-- The tool of ingenialink/ecat/net.c from one slave to another: a file that was read from a memory is written.
use ingenialink.Base.{
  ℕ, ◌+◌, ◌*◌, ◌%◌, ◌^◌, ◌<◌, ◌≤◌, ◌≡◌, inr, min, refl, sym, ap, ◌∙◌, Bool, true, Option, some,
  List, arith, get_or,
}
use mathlib.Core.Path.{subst}
use ingenialink.Base.Int.{ℤ, pos}
use ingenialink.Eeprom.{max_buf}
use ingenialink.Eeprom.Print.{output_intelhex}
use ingenialink.Eeprom.Scan.{Scanned}
use ingenialink.Eeprom.Records.{Reads, copied}
use ingenialink.Eeprom.Copied.{IsBytes, copied_inside, copied_outside}
use ingenialink.Eeprom.Round.{input_intelhex-output_intelhex}
use ingenialink.Eeprom.Master.{Soem}
use ingenialink.Eeprom.Writing.{eeprom_write-Written}
use ingenialink.Eeprom.Tool.{
  Mode, mode_readintel, mode_writeintel, mode_readbin, mode_writebin, Tool, output_bin, read_memory,
  write_memory, in_mode, eeprom_tool,
}
use ingenialink.Eeprom.Files.{from_intelhex_lem, from_bin_lem, joined-IsBytes}
use ingenialink.Eeprom.Session.{Bus, stated, IsBuffer, Held, read_memory-Held, eeprom_tool_lem}

stated_map : (f g : ℕ → ℕ) → ((m : ℕ) → f m ≡ g m) → stated f ≡ stated g
stated_map f g e =
    ap (λ (k : ℕ). min ((k + 2 ^ 8 * f 0x7D + 1) * 128) max_buf) (e 0x7C)
    ∙ ap (λ (k : ℕ). min ((g 0x7C + 2 ^ 8 * k + 1) * 128) max_buf) (e 0x7D)

module _ {W : Type 0} (soem : Soem W) (slave : ℕ) (bus : Bus soem slave) where
  -- Behind the start of a session.
  abbrev started : W → W
  started w = (soem.ec_brd (soem.ec_init w).1).1

  start_lem : (w : W) (m : ℕ) → bus.memory.byte (started w) m ≡ bus.memory.byte w m
  start_lem w m = bus.find_keeps (soem.ec_init w).1 m ∙ bus.start_keeps w m

  Held-session :
      (w : W) (u : Tool W)
      → Held soem slave bus (started w) u
      → Held soem slave bus w (record u { world = soem.ec_close u.world })
  Held-session w u h = record {
    buffer = h.buffer;
    holds = λ j p.
        h.holds j (
          subst (λ (n : ℕ). j < n)
            (sym (stated_map (bus.memory.byte (started w)) (bus.memory.byte w) (start_lem w))) p)
        ∙ start_lem w j;
    keeps = λ j. bus.close_keeps u.world j ∙ h.keeps j ∙ start_lem w j;
  }

  module _ (scan : ℕ → List ℕ → Scanned) (junk : ℕ) (alias : ℕ) where
    -- A session that reads the memory into a file.
    pub reading_lem :
        (mode : Mode) (put : ℕ → List ℕ → List ℕ) (t : Tool W)
        → ((t1 u : Tool W)
            → read_memory soem bus.found slave true put t1 ≡ some u
            → in_mode soem scan bus.found slave junk true alias mode t1 ≡ some (pos 0, u))
        → IsBuffer t.ebuf
        → stated (bus.memory.byte t.world) ≤ 2 ^ 17
        → (u : Tool W) × (eeprom_tool soem scan slave junk true alias mode t ≡ some (pos 0, u))
          × (u.file ≡ some (put (stated (bus.memory.byte t.world)) u.ebuf))
          × Held soem slave bus t.world u
    reading_lem mode put t is_reading b small =
        let t0 : Tool W = record t { world = started t.world } in
        let same =
          stated_map (bus.memory.byte (started t.world)) (bus.memory.byte t.world)
            (start_lem t.world) in
        let (u, r, h, f) =
          read_memory-Held soem slave bus true put t0 b (omega (arith, same, small)) in
        (
          record u { world = soem.ec_close u.world },
          eeprom_tool_lem soem slave bus scan junk true alias mode t u (pos 0) (is_reading t0 u r),
          f ∙ ap (λ (n : ℕ). some (put n u.ebuf)) same,
          Held-session t.world u h,
        )

    -- What a session that writes `n` bytes from the start leaves.
    abbrev pub IsLeft : ℕ → List ℕ → W → Tool W → Type 0
    IsLeft n e w u =
        ((j : ℕ) → j < n → bus.memory.byte u.world j ≡ get_or e j 0)
        × ((j : ℕ) → n + n % 2 ≤ j → bus.memory.byte u.world j ≡ bus.memory.byte w j)

    pub writing_lem :
        (writable : Bool) (mode : Mode) (n : ℕ) (e : List ℕ) (t : Tool W)
        → ((t1 : Tool W)
            → t1.ebuf ≡ t.ebuf
            → t1.file ≡ t.file
            → in_mode soem scan bus.found slave junk writable alias mode t1
              ≡ write_memory soem bus.found slave (some (some (0, n), e)) t1)
        → n ≤ 2 ^ 17
        → IsBytes e
        → (u : Tool W) × (eeprom_tool soem scan slave junk writable alias mode t ≡ some (pos 0, u))
          × IsLeft n e t.world u
    unfolding write_memory
    writing_lem writable mode n e t is_writing room b =
        let t0 : Tool W = record t { world = started t.world } in
        let (w1, r, h) =
          eeprom_write-Written soem bus.found slave bus.aiadr bus.place bus.memory 0 n e t0.world
            bus.there bus.first refl (omega arith) b in
        let u : Tool W = record t { ebuf = e; world = w1 } in
        let stored : Bool × W → Option (ℤ × Tool W) =
          λ p. some (pos 0, record t { ebuf = e; world = p.1 }) in
        (
          record u { world = soem.ec_close w1 },
          eeprom_tool_lem soem slave bus scan junk writable alias mode t u (pos 0)
              (is_writing t0 refl refl ∙ ap stored r),
          (
            λ j p. bus.close_keeps w1 j ∙ h.inside j (omega arith) (omega arith),
            λ j p.
                bus.close_keeps w1 j ∙ h.behind j (omega arith) (omega arith) ∙ start_lem t.world j,
          ),
        )

stated-lt : (f : ℕ → ℕ) → 0 < stated f
stated-lt f = omega arith

stated_even : (f : ℕ → ℕ) → stated f % 2 ≡ 0
stated_even f = omega arith

-- From one slave to another, each on a network of its own.
module _ {W W2 : Type 0} (soem : Soem W) (slave : ℕ) (bus : Bus soem slave) (soem2 : Soem W2)
    (slave2 : ℕ) (bus2 : Bus soem2 slave2) (scan : ℕ → List ℕ → Scanned) (junk alias : ℕ)
    (writable : Bool) where
  -- Both sessions, in the modes `from` and `to`, and what they leave of the memories.
  abbrev pub IsCloned : Mode → Mode → Tool W → Tool W2 → Type 0
  IsCloned from to t t2 =
      (u : Tool W) × (u2 : Tool W2) × (eeprom_tool soem scan slave junk true alias from t
        ≡ some (pos 0, u))
      × (eeprom_tool soem2 scan slave2 junk writable alias to (record t2 { file = u.file })
          ≡ some (pos 0, u2))
      × ((j : ℕ)
          → j < stated (bus.memory.byte t.world)
          → bus2.memory.byte u2.world j ≡ bus.memory.byte t.world j)
      × ((j : ℕ)
          → stated (bus.memory.byte t.world) ≤ j
          → bus2.memory.byte u2.world j ≡ bus2.memory.byte t2.world j)
      × ((j : ℕ) → bus.memory.byte u.world j ≡ bus.memory.byte t.world j)

  -- The second session, for a file that gives back the bytes of the first.
  second-IsCloned :
      (from to : Mode) (t u : Tool W) (t2 : Tool W2) (e : List ℕ)
      → eeprom_tool soem scan slave junk true alias from t ≡ some (pos 0, u)
      → Held soem slave bus t.world u
      → ((t1 : Tool W2)
          → t1.ebuf ≡ t2.ebuf
          → t1.file ≡ u.file
          → in_mode soem2 scan bus2.found slave2 junk writable alias to t1
            ≡ write_memory soem2 bus2.found slave2
                (some (some (0, stated (bus.memory.byte t.world)), e))
                t1)
      → ((j : ℕ) → j < stated (bus.memory.byte t.world) → get_or e j 0 ≡ get_or u.ebuf j 0)
      → IsBytes e
      → stated (bus.memory.byte t.world) ≤ 2 ^ 17
      → IsCloned from to t t2
  second-IsCloned from to t u t2 e r h is_writing same b small =
      let n = stated (bus.memory.byte t.world) in
      let (u2, r2, left) =
        writing_lem soem2 slave2 bus2 scan junk alias writable to n e (record t2 { file = u.file })
          is_writing small b in
      (
        u,
        u2,
        r,
        r2,
        λ j p. left.0 j p ∙ same j p ∙ h.holds j p,
        λ j p. left.1 j (omega (arith, stated_even (bus.memory.byte t.world))),
        h.keeps,
      )

  -- A file of text that is read from a slave of 65536 bytes at most and written to a slave. Both are there and answer once their memory is granted to the master, the
  -- second takes every write then; the file can be made, and the conversions of `sscanf` read what was printed with their
  -- width. Then both sessions succeed, the second slave has the memory of the first as far as its stated size, its own
  -- behind it, and the first slave is as it was.
  pub eeprom_tool_clone :
      (t : Tool W) (t2 : Tool W2)
      → Reads scan
      → IsBuffer t.ebuf
      → IsBuffer t2.ebuf
      → stated (bus.memory.byte t.world) ≤ 2 ^ 16
      → IsCloned mode_readintel mode_writeintel t t2
  unfolding in_mode
  eeprom_tool_clone t t2 reads b b2 small =
      let n = stated (bus.memory.byte t.world) in
      let (u, r, f, h) =
        reading_lem soem slave bus scan junk alias mode_readintel output_intelhex t
          (λ t1 u e. ground (arith, e)) b (omega arith) in
      let (e, back, long, low, high) =
        input_intelhex-output_intelhex scan reads junk n u.ebuf t2.ebuf
          (stated-lt (bus.memory.byte t.world)) small (omega (arith, b2.0)) h.buffer.1 in
      second-IsCloned mode_readintel mode_writeintel t u t2 e r h
        (λ t1 same file.
          ap (λ (o : Option (Option (ℕ × ℕ) × List ℕ)). write_memory soem2 bus2.found slave2 o t1)
            (from_intelhex_lem soem2 scan junk (output_intelhex n u.ebuf) t2.ebuf t1
              (some (some (0, n), e)) (file ∙ f) same back))
        low (joined-IsBytes n e u.ebuf t2.ebuf low high h.buffer.1 b2.1) (omega arith)

  -- The same by a binary file, for a memory of a stated size of 131072 bytes at most.
  pub eeprom_tool_clone_bin :
      (t : Tool W) (t2 : Tool W2)
      → IsBuffer t.ebuf
      → IsBuffer t2.ebuf
      → stated (bus.memory.byte t.world) ≤ 2 ^ 17
      → IsCloned mode_readbin mode_writebin t t2
  unfolding in_mode
  eeprom_tool_clone_bin t t2 b b2 small =
      let n = stated (bus.memory.byte t.world) in
      let (u, r, f, h) =
        reading_lem soem slave bus scan junk alias mode_readbin (λ n e. output_bin n 0 e) t
          (λ t1 u e. ground (arith, e)) b small in
      let e = copied n 0 0 u.ebuf t2.ebuf in
      let low = λ (j : ℕ) (p : j < n).
        copied_inside n 0 j u.ebuf t2.ebuf (omega (arith, b2.0)) (omega arith) (omega arith) in
      let high = λ (j : ℕ) (p : n ≤ j). copied_outside n 0 j u.ebuf t2.ebuf (inr (omega arith)) in
      second-IsCloned mode_readbin mode_writebin t u t2 e r h
        (λ t1 same file.
          ap (λ (o : Option (Option (ℕ × ℕ) × List ℕ)). write_memory soem2 bus2.found slave2 o t1)
            (from_bin_lem soem2 scan n u.ebuf t2.ebuf t1 (file ∙ f) same (omega arith)))
        low (joined-IsBytes n e u.ebuf t2.ebuf low high h.buffer.1 b2.1) small
