-- ===== src/Eeprom/Writing.antt =====
-- `eeprom_write` of ingenialink/ecat/net.c on a slave that takes every write.
use ingenialink.Base.{
  ℕ, zero, suc, ◌+◌, ◌*◌, ◌/◌, ◌%◌, ◌^◌, ◌<◌, ◌≤◌, ◌≡◌, ◌≢◌, inl, inr, refl, sym, ap, ◌∙◌, true,
  false, List, Bool-cases, arith, get_or, ◌==◌, ltb,
}
use mathlib.Core.Path.{subst}
use ingenialink.Eeprom.Copied.{IsBytes}
use ingenialink.Eeprom.Master.{
  Soem, slave_position, is_reached, wbuf_at, to_master, write_from, eeprom_write,
}
use ingenialink.Eeprom.Memory.{IsAt, Memory}

module _ {W : Type 0} (soem : Soem W) (aiadr : ℕ) (memory : Memory soem aiadr) where
  -- What the memory is behind a write from `i` up to `end_`: the words of `ebuf` that begin in the range.
  pub record Written (i end_ : ℕ) (ebuf : List ℕ) (w w1 : W) : Type 0 where
    pub below : (j : ℕ) → j < i → memory.byte w1 j ≡ memory.byte w j
    pub inside : (j : ℕ) → i ≤ j → j < end_ → memory.byte w1 j ≡ get_or ebuf j 0
    pub behind : (j : ℕ) → i ≤ j → end_ + end_ % 2 ≤ j → memory.byte w1 j ≡ memory.byte w j

  write_from-stop :
      (n i end_ : ℕ) (ebuf : List ℕ) (w : W) → end_ ≤ i → write_from soem n i end_ aiadr ebuf w ≡ w
  unfolding write_from
  write_from-stop zero i end_ ebuf w h = refl
  write_from-stop (suc n) i end_ ebuf w h =
      let test : ltb i end_ ≡ false = ground arith in rw test refl

  -- The state behind one word.
  abbrev word_written : ℕ → List ℕ → W → W
  word_written i ebuf w = (soem.ec_writeeeprom_ap aiadr (i / 2) (wbuf_at ebuf (i / 2)) w).1

  write_from-step :
      (n i end_ : ℕ) (ebuf : List ℕ) (w : W)
      → i < end_
      → i < 2 ^ 17
      → write_from soem (suc n) i end_ aiadr ebuf w
        ≡ write_from soem n (i + 2) end_ aiadr ebuf (word_written i ebuf w)
  unfolding write_from
  write_from-step n i end_ ebuf w h small =
      let same : i / 2 % 2 ^ 16 ≡ i / 2 = omega arith in
      let test : ltb i end_ ≡ true = ground arith in rw same (rw test refl)

  stop-Written : (i end_ : ℕ) (ebuf : List ℕ) (w : W) → end_ ≤ i → Written i end_ ebuf w w
  stop-Written i end_ ebuf w h = record {
    below = λ j p. refl;
    inside = λ j p q. absurd (omega arith);
    behind = λ j p q. refl;
  }

  -- The two bytes of a word.
  word_written_lem :
      (i j : ℕ) (ebuf : List ℕ) (w : W)
      → i < 2 ^ 17
      → memory.granted w ≡ true
      → i % 2 ≡ 0
      → IsBytes ebuf
      → i ≤ j
      → j < i + 2
      → memory.byte (word_written i ebuf w) j ≡ get_or ebuf j 0
  word_written_lem i j ebuf w small g a b p q =
      let k = i / 2 in
      let lo = b (2 * k) in
      let hi = b (2 * k + 1) in
      let (first, second) =
        memory.writes k (wbuf_at ebuf k) w (omega arith) (omega (arith, lo, hi)) g in
      elim (Bool-cases (i == j)) [
        | inl e ↦
            let here : j ≡ 2 * k = ground (arith, e, a) in
            ap (memory.byte (word_written i ebuf w)) here
            ∙ first
            ∙ omega (arith, lo, hi)
            ∙ ap (λ (m : ℕ). get_or ebuf m 0) (sym here)
        | inr e ↦
            let apart : i ≢ j = λ s. ground (arith, e, s) in
            let here : j ≡ 2 * k + 1 = omega (arith, a, apart) in
            ap (memory.byte (word_written i ebuf w)) here
            ∙ second
            ∙ omega (arith, lo, hi)
            ∙ ap (λ (m : ℕ). get_or ebuf m 0) (sym here)
      ]

  word-Written :
      (i end_ : ℕ) (ebuf : List ℕ) (w w1 : W)
      → i < 2 ^ 17
      → memory.granted w ≡ true
      → i % 2 ≡ 0
      → i < end_
      → IsBytes ebuf
      → Written (i + 2) end_ ebuf (word_written i ebuf w) w1
      → Written i end_ ebuf w w1
  word-Written i end_ ebuf w w1 small g a h b t = record {
    below = λ j p.
        t.below j (omega arith)
        ∙ memory.writes_keep (i / 2) (wbuf_at ebuf (i / 2)) w j (omega arith) (inl (omega arith));
    inside = λ j p q. elim (Bool-cases (ltb j (i + 2))) [
      | inl e ↦
          let early : j < i + 2 = ground (arith, e) in
          t.below j early ∙ word_written_lem i j ebuf w small g a b p early
      | inr e ↦ t.inside j (ground (arith, e)) q
    ];
    behind = λ j p q.
        t.behind j (omega arith) q
        ∙ memory.writes_keep (i / 2) (wbuf_at ebuf (i / 2)) w j (omega arith) (inr (omega arith));
  }

  write_from-Written :
      (n i end_ : ℕ) (ebuf : List ℕ) (w : W)
      → end_ ≤ i + n
      → end_ ≤ 2 ^ 17
      → memory.granted w ≡ true
      → i % 2 ≡ 0
      → IsBytes ebuf
      → Written i end_ ebuf w (write_from soem n i end_ aiadr ebuf w)
  write_from-Written zero i end_ ebuf w h k g a b =
      subst (Written i end_ ebuf w) (sym (write_from-stop zero i end_ ebuf w (omega arith)))
        (stop-Written i end_ ebuf w (omega arith))
  write_from-Written (suc n) i end_ ebuf w h k g a b = elim (Bool-cases (ltb i end_)) [
    | inl e ↦
        let more : i < end_ = ground (arith, e) in
        subst (Written i end_ ebuf w) (sym (write_from-step n i end_ ebuf w more (omega arith))) (
          word-Written i end_ ebuf w
            (write_from soem n (i + 2) end_ aiadr ebuf (word_written i ebuf w)) (omega arith) g a
            more b
            (write_from-Written n (i + 2) end_ ebuf (word_written i ebuf w) (omega arith) k
              (memory.writes_stay (i / 2) (wbuf_at ebuf (i / 2)) w g) (omega arith) b))
    | inr e ↦
        let none_left : end_ ≤ i = ground (arith, e) in
        subst (Written i end_ ebuf w) (sym (write_from-stop (suc n) i end_ ebuf w none_left))
          (stop-Written i end_ ebuf w none_left)
  ]

module _ {W : Type 0} (soem : Soem W) (slavecount slave aiadr : ℕ) (place : IsAt slave aiadr)
    (memory : Memory soem aiadr) where
  -- A write of bytes to a slave that is there and takes every write once its memory is granted to the master, from an even place and within 131072
  -- bytes: it succeeds, and the memory has the bytes of `ebuf` in the range; it is as it was below the range and
  -- behind its last word.
  pub eeprom_write-Written :
      (start length_ : ℕ) (ebuf : List ℕ) (w : W)
      → slave ≤ slavecount
      → 0 < slave
      → start % 2 ≡ 0
      → start + length_ ≤ 2 ^ 17
      → IsBytes ebuf
      → (w1 : W) × (eeprom_write soem slavecount slave start length_ ebuf w ≡ (true, w1))
        × Written soem aiadr memory start (start + length_) ebuf w w1
  unfolding eeprom_write
  eeprom_write-Written start length_ ebuf w a p s r b =
      let here : slave_position slave ≡ aiadr = omega (arith, place) in
      let reached : is_reached slavecount slave (start + length_) ≡ true = ground arith in
      let ready = to_master soem aiadr w in
      let keeps = λ (m : ℕ).
        memory.configured 0 (soem.ec_apwr aiadr soem.ect_reg_eepcfg 1 2 w) m
        ∙ memory.configured 2 w m in
      let t =
        write_from-Written soem aiadr memory length_ start (start + length_) ebuf ready
          (omega arith) r (memory.grants w) s b in
      (
        write_from soem length_ start (start + length_) aiadr ebuf ready,
        rw reached (rw here refl),
        record {
          below = λ j h. t.below j h ∙ keeps j;
          inside = t.inside;
          behind = λ j h k. t.behind j h k ∙ keeps j;
        },
      )
