-- ===== src/Pds/Decode.antt =====
-- `il_eth_servo__state_decode` against the states of the CiA 402 statusword.
use ingenialink.Base.{
  ℕ, ◌+◌, ◌*◌, ◌/◌, ◌%◌, ◌≡◌, ◌≢◌, ◌↔◌, sym, ◌⊎◌, inl, inr, ap, ◌∙◌, refl, if◌then◌else◌, ◌==◌,
  bit_and, arith,
}
use ingenialink.Base.Bits.{bit_and_step, and_mask}
use ingenialink.Pds.{
  State, nrdy, disabled, rdy, on, enabled, qstop, faultr, fault, mask, mask_qs, state_decode,
}

-- The bits of the statusword that name a state: 3 to 0 as a number, 5 (quick stop) and 6 (switch on
-- disabled).
abbrev low_bits : ℕ → ℕ
low_bits sw = sw % 16

abbrev quick_stop : ℕ → ℕ
quick_stop sw = sw / 32 % 2

abbrev switch_on_disabled : ℕ → ℕ
switch_on_disabled sw = sw / 64 % 2

-- The statusword shows the state, by the bit patterns of CiA 402.
abbrev pub Shows : State → ℕ → Type 0
Shows nrdy sw = (low_bits sw ≡ 0) × (switch_on_disabled sw ≡ 0)
Shows disabled sw = (low_bits sw ≡ 0) × (switch_on_disabled sw ≡ 1)
Shows rdy sw = (low_bits sw ≡ 1) × (switch_on_disabled sw ≡ 0) × (quick_stop sw ≡ 1)
Shows on sw = (low_bits sw ≡ 3) × (switch_on_disabled sw ≡ 0) × (quick_stop sw ≡ 1)
Shows enabled sw = (low_bits sw ≡ 7) × (switch_on_disabled sw ≡ 0) × (quick_stop sw ≡ 1)
Shows qstop sw = (low_bits sw ≡ 7) × (switch_on_disabled sw ≡ 0) × (quick_stop sw ≡ 0)
Shows faultr sw = (low_bits sw ≡ 15) × (switch_on_disabled sw ≡ 0)
Shows fault sw = (low_bits sw ≡ 8) × (switch_on_disabled sw ≡ 0)

-- Masks as sums of the bits that they keep, one bit after the other.
and_04 : (a : ℕ) → bit_and a 0x04 ≡ 4 * (a / 4 % 2)
and_04 a = omega (arith, bit_and_step a 4, bit_and_step (a / 2) 2, and_mask 1 (a / 2 / 2))

and_09 : (a : ℕ) → bit_and a 0x9 ≡ a % 2 + 8 * (a / 8 % 2)
and_09 a = omega (arith, bit_and_step a 0x9, and_04 (a / 2))

and_13 : (a : ℕ) → bit_and a 0x13 ≡ a % 4 + 16 * (a / 16 % 2)
and_13 a = omega (arith, bit_and_step a 0x13, and_09 (a / 2))

and_27 : (a : ℕ) → bit_and a 0x27 ≡ a % 8 + 32 * (a / 32 % 2)
and_27 a = omega (arith, bit_and_step a 0x27, and_13 (a / 2))

and_mask_lem : (a : ℕ) → bit_and a mask ≡ a % 16 + 64 * (a / 64 % 2)
and_mask_lem a = omega (arith, bit_and_step a 0x4f, and_27 (a / 2))

and_06 : (a : ℕ) → bit_and a 0x06 ≡ 2 * (a / 2 % 2) + 4 * (a / 4 % 2)
and_06 a = omega (arith, bit_and_step a 6, and_mask 2 (a / 2))

and_0d : (a : ℕ) → bit_and a 0xd ≡ a % 2 + 4 * (a / 4 % 2) + 8 * (a / 8 % 2)
and_0d a = omega (arith, bit_and_step a 0xd, and_06 (a / 2))

and_1b : (a : ℕ) → bit_and a 0x1b ≡ a % 4 + 8 * (a / 8 % 2) + 16 * (a / 16 % 2)
and_1b a = omega (arith, bit_and_step a 0x1b, and_0d (a / 2))

and_37 : (a : ℕ) → bit_and a 0x37 ≡ a % 8 + 16 * (a / 16 % 2) + 32 * (a / 32 % 2)
and_37 a = omega (arith, bit_and_step a 0x37, and_1b (a / 2))

and_mask_qs_lem : (a : ℕ) → bit_and a mask_qs ≡ a % 16 + 32 * (a / 32 % 2) + 64 * (a / 64 % 2)
and_mask_qs_lem a = omega (arith, bit_and_step a 0x6f, and_37 (a / 2))

-- The chain of tests on the two masked words.
abbrev decode_masked : ℕ → ℕ → State
decode_masked x y =
    if x == 0x00
    then nrdy
    else if x == 0x40
    then disabled
    else if y == 0x21
    then rdy
    else if y == 0x23
    then on
    else if y == 0x27
    then enabled
    else if y == 0x07
    then qstop
    else if x == 0x0f
    then faultr
    else if x == 0x08
    then fault
    else nrdy

state_decode_lem : (sw : ℕ) → state_decode sw ≡ decode_masked (bit_and sw mask) (bit_and sw mask_qs)
unfolding state_decode
state_decode_lem sw = refl

-- The masked words of a statusword that shows a state.
abbrev Masked : State → ℕ → ℕ → Type 0
Masked nrdy x y = x ≡ 0x00
Masked disabled x y = x ≡ 0x40
Masked rdy x y = (x ≡ 0x01) × (y ≡ 0x21)
Masked on x y = (x ≡ 0x03) × (y ≡ 0x23)
Masked enabled x y = (x ≡ 0x07) × (y ≡ 0x27)
Masked qstop x y = (x ≡ 0x07) × (y ≡ 0x07)
Masked faultr x y = (x ≡ 0x0f) × ((y ≡ 0x0f) ⊎ (y ≡ 0x2f))
Masked fault x y = (x ≡ 0x08) × ((y ≡ 0x08) ⊎ (y ≡ 0x28))

decode_both : (x y a b : ℕ) → x ≡ a → y ≡ b → decode_masked x y ≡ decode_masked a b
decode_both x y a b e f = ap (λ (z : ℕ). decode_masked z y) e ∙ ap (λ (z : ℕ). decode_masked a z) f

decode_masked-Masked : (st : State) (x y : ℕ) → Masked st x y → decode_masked x y ≡ st
decode_masked-Masked nrdy x y h = ap (λ (z : ℕ). decode_masked z y) h
decode_masked-Masked disabled x y h = ap (λ (z : ℕ). decode_masked z y) h
decode_masked-Masked rdy x y (h, k) = decode_both x y 0x01 0x21 h k
decode_masked-Masked on x y (h, k) = decode_both x y 0x03 0x23 h k
decode_masked-Masked enabled x y (h, k) = decode_both x y 0x07 0x27 h k
decode_masked-Masked qstop x y (h, k) = decode_both x y 0x07 0x07 h k
decode_masked-Masked faultr x y (h, inl k) = decode_both x y 0x0f 0x0f h k
decode_masked-Masked faultr x y (h, inr k) = decode_both x y 0x0f 0x2f h k
decode_masked-Masked fault x y (h, inl k) = decode_both x y 0x08 0x08 h k
decode_masked-Masked fault x y (h, inr k) = decode_both x y 0x08 0x28 h k

bit : (a : ℕ) → (a % 2 ≡ 0) ⊎ (a % 2 ≡ 1)
bit a = ground arith

Masked-Shows :
    (st : State) (sw : ℕ) → Shows st sw → Masked st (bit_and sw mask) (bit_and sw mask_qs)
Masked-Shows nrdy sw h = omega (arith, and_mask_lem sw, h.0, h.1)
Masked-Shows disabled sw h = omega (arith, and_mask_lem sw, h.0, h.1)
Masked-Shows rdy sw h =
    (omega (arith, and_mask_lem sw, h.0, h.1), omega (arith, and_mask_qs_lem sw, h.0, h.1, h.2))
Masked-Shows on sw h =
    (omega (arith, and_mask_lem sw, h.0, h.1), omega (arith, and_mask_qs_lem sw, h.0, h.1, h.2))
Masked-Shows enabled sw h =
    (omega (arith, and_mask_lem sw, h.0, h.1), omega (arith, and_mask_qs_lem sw, h.0, h.1, h.2))
Masked-Shows qstop sw h =
    (omega (arith, and_mask_lem sw, h.0, h.1), omega (arith, and_mask_qs_lem sw, h.0, h.1, h.2))
Masked-Shows faultr sw h = (
  omega (arith, and_mask_lem sw, h.0, h.1),
  elim (bit (sw / 32)) [
    | inl k ↦ inl (omega (arith, and_mask_qs_lem sw, h.0, h.1, k))
    | inr k ↦ inr (omega (arith, and_mask_qs_lem sw, h.0, h.1, k))
  ],
)
Masked-Shows fault sw h = (
  omega (arith, and_mask_lem sw, h.0, h.1),
  elim (bit (sw / 32)) [
    | inl k ↦ inl (omega (arith, and_mask_qs_lem sw, h.0, h.1, k))
    | inr k ↦ inr (omega (arith, and_mask_qs_lem sw, h.0, h.1, k))
  ],
)

-- A statusword that shows a state by the bit patterns of CiA 402, `nrdy` included, is decoded to that
-- state, whatever the reserved and the other bits hold.
pub state_decode-Shows : (st : State) (sw : ℕ) → Shows st sw → state_decode sw ≡ st
state_decode-Shows st sw h =
    state_decode_lem sw
    ∙ decode_masked-Masked st (bit_and sw mask) (bit_and sw mask_qs) (Masked-Shows st sw h)

-- The masked word that the test of a state compares.
abbrev Tested : State → ℕ → ℕ → Type 0
Tested nrdy x y = Unit
Tested disabled x y = x ≡ 0x40
Tested rdy x y = y ≡ 0x21
Tested on x y = y ≡ 0x23
Tested enabled x y = y ≡ 0x27
Tested qstop x y = y ≡ 0x07
Tested faultr x y = x ≡ 0x0f
Tested fault x y = x ≡ 0x08

decode_masked-Tested : (st : State) (x y : ℕ) → decode_masked x y ≡ st → Tested st x y
decode_masked-Tested nrdy x y e = tt
decode_masked-Tested st x y e = ground arith

Tested-Shows :
    (st : State) (sw : ℕ)
    → st ≢ nrdy
    → Tested st (bit_and sw mask) (bit_and sw mask_qs)
    → Shows st sw
Tested-Shows nrdy sw ne h = absurd (ne refl)
Tested-Shows disabled sw ne h =
    (omega (arith, and_mask_lem sw, h), omega (arith, and_mask_lem sw, h))
Tested-Shows faultr sw ne h = (omega (arith, and_mask_lem sw, h), omega (arith, and_mask_lem sw, h))
Tested-Shows fault sw ne h = (omega (arith, and_mask_lem sw, h), omega (arith, and_mask_lem sw, h))
Tested-Shows rdy sw ne h =
    let e = and_mask_qs_lem sw in (omega (arith, e, h), omega (arith, e, h), omega (arith, e, h))
Tested-Shows on sw ne h =
    let e = and_mask_qs_lem sw in (omega (arith, e, h), omega (arith, e, h), omega (arith, e, h))
Tested-Shows enabled sw ne h =
    let e = and_mask_qs_lem sw in (omega (arith, e, h), omega (arith, e, h), omega (arith, e, h))
Tested-Shows qstop sw ne h =
    let e = and_mask_qs_lem sw in (omega (arith, e, h), omega (arith, e, h), omega (arith, e, h))

-- A state other than `nrdy` is decoded exactly from the statuswords that show it by the bit patterns of
-- CiA 402, whatever the reserved and the other bits hold.
pub state_decode_iff : (st : State) (sw : ℕ) → st ≢ nrdy → (state_decode sw ≡ st) ↔ Shows st sw
state_decode_iff st sw ne = (
  (λ e. Tested-Shows st sw ne (
      decode_masked-Tested st (bit_and sw mask) (bit_and sw mask_qs)
        (sym (state_decode_lem sw) ∙ e))),
  state_decode-Shows st sw,
)
