-- ===== src/Poller/Config.antt =====
-- ingenialink/poller.c: the start and the stop of a poller, the sizes of its buffers and its channels.
use ingenialink.Base.{
  ℕ, zero, suc, ◌+◌, ◌*◌, ◌/◌, ◌%◌, ◌^◌, Bool, true, false, not, Option, none, some, Result, ok,
  err, efail, einval, ealready, enomem, estate, List, [], ◌∷◌, length, set, leb, if◌then◌else◌, ◌≡◌,
}
use ingenialink.Base.Int.{signed}
use Prim.Native.String.{String}
use ingenialink.Register.{Reg}
use ingenialink.Port.{Catalog}
use ingenialink.Poller.{Acq, Poller, acq, put_acq}

-- `realloc` over the states `H` of the memory: an array of the bytes asked for, 8 for each place, or none.
pub record Heap (H A : Type 0) : Type 0 where
  pub realloc : List A → ℕ → H → Option (List A) × H
  pub sized : (xs ys : List A) (n : ℕ) (h : H) → (realloc xs n h).0 ≡ some ys → length ys ≡ n / 8

-- `sz * sizeof(double)`, of a `size_t`.
abbrev pub bytes_for : ℕ → ℕ
bytes_for sz = sz * 8 % 2 ^ 64

-- The register given, or the one that the dictionary of the servo has under the id.
unfoldable pub obtain : {D : Type 0} → Catalog D → Option D → Option Reg → String → Result Reg
obtain catalog dict (some reg) id = ok reg
obtain catalog none none id = err efail
obtain catalog (some d) none id = catalog.reg_get d id 0

module _ {A : Type 0} where
  -- `timer`, `perf` and `td` are whether the calls of the operating system succeed.
  unfoldable pub start : Bool → Bool → Bool → Poller A → Result (Unit {0}) × Poller A
  start timer perf td p =
      let a = acq p.acq_curr p in
      let p1 = record (put_acq p.acq_curr (record a { cnt = 0; lost = false }) p) {
        stop = false;
      } in
      if p.running
      then (err ealready, p)
      else if not timer
      then (err efail, p)
      else if not perf
      then (err efail, p)
      else if not td
      then (err efail, p1)
      else (ok tt, record p1 { running = true })

  unfoldable pub stop_ : Poller A → Poller A
  stop_ p = if p.running then record p { stop = true; running = false } else p

  module _ {H : Type 0} (heap : Heap H A) where
    -- The rows of an acquisition, resized one after the other; a row that finds no memory is lost, and
    -- those behind it stay. Whether all succeeded.
    unfoldable pub resize_rows : ℕ → List (List A) → H → Bool × List (List A) × H
    resize_rows sz [] h = (true, [], h)
    resize_rows sz (row ∷ d) h =
        let (o, h1) = heap.realloc row (bytes_for sz) h in
        let (r, d1, h2) = resize_rows sz d h1 in
        elim o [ none ↦ (false, [] ∷ d, h1) | some row1 ↦ (r, row1 ∷ d1, h2) ]

    unfoldable pub resize_acq : ℕ → Acq A → H → Bool × Acq A × H
    unfolding resize_rows
    resize_acq sz a h =
        let (o, h1) = heap.realloc a.t (bytes_for sz) h in
        let (r, d, h2) = resize_rows sz a.d h1 in
        elim o [
          | none ↦ (false, record a { t = [] }, h1)
          | some t ↦ (r, record a { t = t; d = d }, h2)
        ]

    -- The unsigned period is stored as an `int`.
    unfoldable pub configure : ℕ → ℕ → Poller A → H → Result (Unit {0}) × Poller A × H
    unfolding resize_acq
    configure t_s sz p h =
        let (r0, a0, h0) = resize_acq sz p.acq_0 h in
        let (r1, a1, h1) = resize_acq sz p.acq_1 h0 in
        let p0 = record p { acq_0 = a0 } in
        if p.running
        then (err estate, p, h)
        else if not r0
        then (err enomem, p0, h0)
        else if not r1
        then (err enomem, record p0 { acq_1 = a1 }, h1)
        else (ok tt, record p0 { acq_1 = a1; t_s = signed 32 t_s; sz = sz }, h1)

  unfoldable pub ch_configure :
      {D : Type 0}
      → Catalog D
      → Option D
      → ℕ
      → Option Reg
      → String
      → Poller A
      → Result (Unit {0}) × Poller A
  unfolding obtain
  ch_configure catalog dict ch reg id p =
      if p.running
      then (err estate, p)
      else if leb p.n_ch ch
      then (err einval, p)
      else elim (obtain catalog dict reg id) [
        | err e ↦ (err e, p)
        | ok reg_ ↦ (
          ok tt,
          record p {
            mappings = set p.mappings ch reg_;
            mappings_valid = set p.mappings_valid ch true;
          },
        )
      ]

  unfoldable pub ch_disable : ℕ → Poller A → Result (Unit {0}) × Poller A
  ch_disable ch p =
      if p.running
      then (err estate, p)
      else if leb p.n_ch ch
      then (err einval, p)
      else (ok tt, record p { mappings_valid = set p.mappings_valid ch false })

  -- The loop over `n` channels from `ch`.
  unfoldable pub disable_from : ℕ → ℕ → Poller A → Result (Unit {0}) × Poller A
  unfolding ch_disable
  disable_from zero ch p = (ok tt, p)
  disable_from (suc n) ch p =
      let (r, p1) = ch_disable ch p in
      let rest = disable_from n (ch + 1) p1 in elim r [ ok u ↦ rest | err e ↦ (err e, p1) ]

  unfoldable pub ch_disable_all : Poller A → Result (Unit {0}) × Poller A
  unfolding disable_from
  ch_disable_all p = disable_from p.n_ch 0 p
