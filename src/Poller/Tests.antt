-- ===== src/Poller/Tests.antt =====
-- Runs of the poller, and witnesses.
use ingenialink.Base.{
  ℕ, zero, suc, ◌+◌, ◌/◌, ◌%◌, ◌≤◌, true, false, Option, none, some, Result, ok, err, efail, List,
  [], ◌∷◌, length, replicate, length-replicate, ◌≡◌, refl, arith, if◌then◌else◌, ◌==◌,
}
use ingenialink.Base.Int.{pos}
use ingenialink.Register.{Reg, mcb_sts_word, mcb_ctl_word}
use ingenialink.Poller.{Acq, Poller, acq, put_acq, tick, data_get}
use ingenialink.Poller.Config.{Heap, configure}
use ingenialink.Poller.Room.{IsSized, HasRoom, Rows, Ticked, tick-Ticked}
use ingenialink.Poller.Handed.{ticks, data_get-handed}
use ingenialink.Poller.Sizes.{Configured, configure-Configured}

-- The world counts the reads; a register shows its address and the count, and every third read fails.
abbrev time : ℕ → ℕ × ℕ
time w = (1000 + w, w)

abbrev read : Reg → ℕ → Result ℕ × ℕ
read reg w = (if w % 3 == 2 then err efail else ok (reg.address + w), w + 1)

abbrev filled : ℕ → Acq ℕ
filled sz = record {
  t = replicate sz 0;
  d = replicate sz 0 ∷ replicate sz 0 ∷ [];
  cnt = 0;
  lost = false;
}

abbrev poller : ℕ → Poller ℕ
poller sz = record {
  n_ch = 2;
  mappings = mcb_sts_word ∷ mcb_ctl_word ∷ [];
  mappings_valid = true ∷ true ∷ [];
  acq_0 = filled sz;
  acq_1 = filled sz;
  acq_curr = false;
  t_s = pos 1;
  sz = sz;
  running = false;
  stop = false;
}

filled-HasRoom : (sz : ℕ) → HasRoom 2 sz (filled sz)
filled-HasRoom sz = (length-replicate sz 0, refl, rows)
  where
    rows : Rows sz (filled sz).d
    rows zero row e = ground (arith, e, length-replicate {A = ℕ} sz 0)
    rows (suc zero) row e = ground (arith, e, length-replicate {A = ℕ} sz 0)
    rows (suc (suc c)) row e = absurd (ground (arith, e))

poller-IsSized : (sz : ℕ) → IsSized (poller sz)
poller-IsSized sz = (refl, refl, filled-HasRoom sz, filled-HasRoom sz)

-- The second and the third round fail to read one channel: they are not counted.
three_rounds :
    ticks time read 3 (poller 2) 0
    ≡ some (
      record (poller 2) {
        acq_0 = record {
          t = 1000 ∷ 1004 ∷ [];
          d = (17 ∷ 21 ∷ []) ∷ (17 ∷ 19 ∷ []) ∷ [];
          cnt = 1;
          lost = false;
        };
      },
      6,
    )
unfolding ticks
three_rounds = refl

tick-Ticked_example :
    (a' : Acq ℕ) × (w' : ℕ) × (tick time read (poller 2) 0 ≡ some (put_acq false a' (poller 2), w'))
    × Ticked time read (poller 2) 0 (filled 2) a'
    × HasRoom 2 2 a'
tick-Ticked_example = tick-Ticked time read (poller 2) 0 (poller-IsSized 2)

data_get-handed_example :
    (p' : Poller ℕ) × (w' : ℕ) × (ticks time read 5 (data_get (poller 2)).1 0 ≡ some (p', w'))
    × IsSized p'
    × (false ≡ false)
    × (acq false p' ≡ filled 2)
    × (p'.acq_curr ≡ true)
    × ((acq true p').cnt ≤ 5)
    × ((acq true p').cnt ≤ 2)
unfolding data_get
data_get-handed_example = data_get-handed time read (poller 2) 5 0 (poller-IsSized 2)

-- A memory that has `h` more arrays to give.
abbrev grant : List ℕ → ℕ → ℕ → Option (List ℕ) × ℕ
grant xs n zero = (none, 0)
grant xs n (suc h) = (some (replicate (n / 8) 0), h)

grant_sized : (xs ys : List ℕ) (n h : ℕ) → (grant xs n h).0 ≡ some ys → length ys ≡ n / 8
grant_sized xs ys n zero e = ground (arith, e)
grant_sized xs ys n (suc h) e = ground (arith, e, length-replicate {A = ℕ} (n / 8) 0)

abbrev heap : Heap ℕ ℕ
heap = record { realloc = grant; sized = grant_sized }

configure-Configured_example : Configured 5 3 (poller 2) (configure heap 5 3 (poller 2) 6)
configure-Configured_example =
    configure-Configured heap 5 3 (poller 2) 6 (omega arith) (omega arith) (poller-IsSized 2)

-- After a configuration to fewer places that ends for want of memory, the second round writes behind the
-- buffer: the recorded size is the old one.
overrun : ticks time read 2 (configure heap 5 1 (poller 2) 4).1 0 ≡ none
unfolding configure ticks
overrun = refl
