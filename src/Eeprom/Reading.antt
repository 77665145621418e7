-- ===== src/Eeprom/Reading.antt =====
-- `eeprom_read` of ingenialink/ecat/net.c on a slave that answers.
use ingenialink.Base.{
  ℕ, zero, suc, ◌+◌, ◌*◌, ◌/◌, ◌%◌, ◌^◌, ◌<◌, ◌≤◌, ◌≡◌, inl, inr, bit_and, refl, ap, ◌∙◌, Bool,
  true, false, not, Option, some, List, length, Bool-cases, arith, get_or, ◌==◌, ltb, leb,
  if◌then◌else◌,
}
use mathlib.Core.Path.{subst}
use ingenialink.Eeprom.{max_buf}
use ingenialink.Eeprom.Copied.{IsBytes}
use ingenialink.Eeprom.Master.{
  Soem, slave_position, is_reached, put_bytes, to_master, read_from, eeprom_read,
}
use ingenialink.Eeprom.Memory.{
  Shows, increment, IsAt, Memory, put_bytes-IsBytes, length-put_bytes, put_bytes_below,
  put_bytes_inside,
}

Shows-map : (k b i : ℕ) (f g : ℕ → ℕ) → ((m : ℕ) → f m ≡ g m) → Shows k b i f → Shows k b i g
Shows-map zero b i f g e s = tt
Shows-map (suc k) b i f g e s = (s.0 ∙ e i, Shows-map k (b / 2 ^ 8) (i + 1) f g e s.1)

-- What an array holds behind a read from `i` up to `end_`.
pub record Taken (i end_ : ℕ) (f : ℕ → ℕ) (ebuf ebuf1 : List ℕ) : Type 0 where
  pub as_long : length ebuf1 ≡ length ebuf
  pub bytes : IsBytes ebuf → IsBytes ebuf1
  pub below : (j : ℕ) → j < i → get_or ebuf1 j 0 ≡ get_or ebuf j 0
  pub inside : (j : ℕ) → i ≤ j → j < end_ → get_or ebuf1 j 0 ≡ f j

abbrev Aligned : Bool → ℕ → Type 0
Aligned wide i = i % increment wide ≡ 0

Aligned-next : (wide : Bool) (i : ℕ) → Aligned wide i → Aligned wide (i + increment wide)
Aligned-next true i h = omega arith
Aligned-next false i h = omega arith

Aligned-room : (wide : Bool) (i : ℕ) → Aligned wide i → i < 2 ^ 17 → i + increment wide ≤ 2 ^ 17
Aligned-room true i h k = omega arith
Aligned-room false i h k = omega arith

Aligned-even : (wide : Bool) (i : ℕ) → Aligned wide i → 2 * (i / 2) ≡ i
Aligned-even true i h = omega arith
Aligned-even false i h = omega arith

increment-lt : (wide : Bool) → 0 < increment wide
increment-lt true = omega arith
increment-lt false = omega arith

module _ {W : Type 0} (soem : Soem W) (aiadr : ℕ) (memory : Memory soem aiadr) where
  -- What a read from `i` returns.
  abbrev IsTaken : ℕ → ℕ → (ℕ → ℕ) → List ℕ → Option (List ℕ × W) → Type 0
  IsTaken i end_ f ebuf o =
      (ebuf1 : List ℕ) × (w1 : W) × (o ≡ some (ebuf1, w1))
      × Taken i end_ f ebuf ebuf1
      × ((m : ℕ) → memory.byte w1 m ≡ f m)

  read_from-stop :
      (n i end_ ainc : ℕ) (ebuf : List ℕ) (w : W)
      → end_ ≤ i
      → read_from soem n i end_ ainc aiadr ebuf w ≡ some (ebuf, w)
  unfolding read_from
  read_from-stop zero i end_ ainc ebuf w h = refl
  read_from-stop (suc n) i end_ ainc ebuf w h =
      let test : ltb i end_ ≡ false = ground arith in rw test refl

  read_from-step :
      (n i end_ ainc : ℕ) (ebuf : List ℕ) (w : W)
      → i < end_
      → i + ainc ≤ max_buf
      → i < 2 ^ 17
      → read_from soem (suc n) i end_ ainc aiadr ebuf w
        ≡ read_from soem n
            (i + ainc)
            end_
            ainc
            aiadr
            (put_bytes ainc i (soem.ec_readeeprom_ap aiadr (i / 2) w).0 ebuf)
            (soem.ec_readeeprom_ap aiadr (i / 2) w).1
  unfolding read_from
  read_from-step n i end_ ainc ebuf w h k small =
      let same : i / 2 % 2 ^ 16 ≡ i / 2 = omega arith in
      let test : ltb i end_ ≡ true = ground arith in
      let inside : leb (i + ainc) max_buf ≡ true = ground arith in
      rw same (rw test (rw inside refl))

  -- Nothing is left to read.
  stop-IsTaken :
      (n i end_ ainc : ℕ) (ebuf : List ℕ) (w : W) (f : ℕ → ℕ)
      → end_ ≤ i
      → ((m : ℕ) → memory.byte w m ≡ f m)
      → IsTaken i end_ f ebuf (read_from soem n i end_ ainc aiadr ebuf w)
  stop-IsTaken n i end_ ainc ebuf w f h e = (
    ebuf,
    w,
    read_from-stop n i end_ ainc ebuf w h,
    record {
      as_long = refl;
      bytes = λ b. b;
      below = λ j p. refl;
      inside = λ j p q. absurd (omega arith);
    },
    e,
  )

  -- A word of the slave, and the rest of the read.
  put-Taken :
      (k i end_ b : ℕ) (f : ℕ → ℕ) (ebuf ebuf1 : List ℕ)
      → Shows k b i f
      → i + k ≤ length ebuf
      → Taken (i + k) end_ f (put_bytes k i b ebuf) ebuf1
      → Taken i end_ f ebuf ebuf1
  put-Taken k i end_ b f ebuf ebuf1 s room t = record {
    as_long = t.as_long ∙ length-put_bytes k i b ebuf;
    bytes = λ h. t.bytes (put_bytes-IsBytes k i b ebuf h);
    below = λ j h. t.below j (omega arith) ∙ put_bytes_below k i b j ebuf h;
    inside = λ j p q. elim (Bool-cases (ltb j (i + k))) [
      | inl e ↦
          let early : j < i + k = ground (arith, e) in
          t.below j early ∙ put_bytes_inside k i b j ebuf f s room p early
      | inr e ↦ t.inside j (ground (arith, e)) q
    ];
  }

  read_from-IsTaken :
      (n i end_ : ℕ) (ebuf : List ℕ) (w : W) (f : ℕ → ℕ)
      → end_ ≤ i + n
      → end_ ≤ 2 ^ 17
      → memory.granted w ≡ true
      → Aligned memory.wide i
      → length ebuf ≡ max_buf
      → ((m : ℕ) → memory.byte w m ≡ f m)
      → IsTaken i end_ f ebuf (read_from soem n i end_ (increment memory.wide) aiadr ebuf w)
  read_from-IsTaken zero i end_ ebuf w f h k g a l e =
      stop-IsTaken zero i end_ (increment memory.wide) ebuf w f (omega arith) e
  read_from-IsTaken (suc n) i end_ ebuf w f h k g a l e =
      let ainc = increment memory.wide in
      let b = (soem.ec_readeeprom_ap aiadr (i / 2) w).0 in
      let w1 = (soem.ec_readeeprom_ap aiadr (i / 2) w).1 in
      let rest =
        read_from-IsTaken n (i + ainc) end_ (put_bytes ainc i b ebuf) w1 f
          (omega (arith, increment-lt memory.wide)) k (memory.reads_stay (i / 2) w g)
          (Aligned-next memory.wide i a) (length-put_bytes ainc i b ebuf ∙ l)
          (λ m. memory.reads_keep (i / 2) w m ∙ e m) in
      elim (Bool-cases (ltb i end_)) [
        | inr d ↦ stop-IsTaken (suc n) i end_ ainc ebuf w f (ground (arith, d)) e
        | inl d ↦
            let more : i < end_ = ground (arith, d) in
            let room = Aligned-room memory.wide i a (omega arith) in
            let shown = Shows-map ainc b i (memory.byte w) f e (
              subst (λ (p : ℕ). Shows ainc b p (memory.byte w)) (Aligned-even memory.wide i a)
                (memory.reads (i / 2) w (omega (arith, room, Aligned-even memory.wide i a)) g)) in
            let (ebuf1, w2, r, t, keeps) = rest in
            (
              ebuf1,
              w2,
              read_from-step n i end_ ainc ebuf w more (omega (arith, room)) (omega arith) ∙ r,
              put-Taken ainc i end_ b f ebuf ebuf1 shown (omega (arith, l, room)) t,
              keeps,
            )
      ]

Aligned-8 : (wide : Bool) (i : ℕ) → i % 8 ≡ 0 → Aligned wide i
Aligned-8 true i h = h
Aligned-8 false i h = omega arith

module _ {W : Type 0} (soem : Soem W) (slavecount slave aiadr : ℕ) (place : IsAt slave aiadr)
    (memory : Memory soem aiadr) where
  abbrev pub IsRead : ℕ → ℕ → List ℕ → W → Option (Bool × List ℕ × W) → Type 0
  IsRead start end_ ebuf w o =
      (ebuf1 : List ℕ) × (w1 : W) × (o ≡ some (true, ebuf1, w1))
      × Taken start end_ (memory.byte w) ebuf ebuf1
      × ((m : ℕ) → memory.byte w1 m ≡ memory.byte w m)

  -- A read of a slave that is there and answers, from a multiple of 8 and within 131072 bytes: it
  -- succeeds, `ebuf` has the bytes of the memory in the range and its own below it, and the memory is as it was.
  pub eeprom_read-IsRead :
      (start length_ : ℕ) (ebuf : List ℕ) (w : W)
      → slave ≤ slavecount
      → 0 < slave
      → start % 8 ≡ 0
      → start + length_ ≤ 2 ^ 17
      → length ebuf ≡ max_buf
      → IsRead start
          (start + length_)
          ebuf
          w
          (eeprom_read soem slavecount slave start length_ ebuf w)
  unfolding eeprom_read
  eeprom_read-IsRead start length_ ebuf w a p s r l =
      let here : slave_position slave ≡ aiadr = omega (arith, place) in
      let given = memory.grants w in
      let stat = soem.ec_aprd aiadr soem.ect_reg_eepstat 2 0 (to_master soem aiadr w) in
      let keeps = λ (m : ℕ).
        memory.status_keeps (to_master soem aiadr w) m
        ∙ memory.configured 0 (soem.ec_apwr aiadr soem.ect_reg_eepcfg 1 2 w) m
        ∙ memory.configured 2 w m in
      let reached : is_reached slavecount slave (start + length_) ≡ true = ground arith in
      let step : (if bit_and stat.0 soem.ec_estat_r64 == 0 then 4 else 8) ≡ increment memory.wide =
        steps memory.wide (bit_and stat.0 soem.ec_estat_r64 == 0)
          (memory.status (to_master soem aiadr w)) in
      let (ebuf1, w1, e, t, k) =
        read_from-IsTaken soem aiadr memory length_ start (start + length_) ebuf stat.1
          (memory.byte w) (omega arith) r (memory.status_stays (to_master soem aiadr w) given)
          (Aligned-8 memory.wide start s) l keeps in
      (ebuf1, w1, rw reached (rw here (rw step (rw e refl))), t, k)
    where
      steps : (wide t : Bool) → t ≡ not wide → (if t then 4 else 8) ≡ increment wide
      steps true t h = ap (λ (b : Bool). if b then 4 else 8) h
      steps false t h = ap (λ (b : Bool). if b then 4 else 8) h
