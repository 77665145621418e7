-- ===== src/Link/Packing.antt =====
-- The bytes of a block of samples in ingenialink/eth/net.c, packed and unpacked.
use ingenialink.Base.{
  ℕ, zero, suc, ◌/◌, ◌^◌, ◌<◌, ◌≡◌, ◌⊎◌, refl, inl, inr, some, List, [], ◌∷◌, ◌++◌, length,
  get_elem?, append_assoc, get_elem?-set_self, set, drop, arith, ap, ◌∙◌, sym, Option-cases,
}
use mathlib.Core.Path.{subst}
use ingenialink.Register.{Dtype, u8, s8, u16, s16, u32, s32, u64, s64, float, float64, str}
use ingenialink.Link.{Channel, le_bytes}
use ingenialink.Link.Layout.{le_value-le_bytes}
use ingenialink.Link.Samples.{pack_bytes, recv_bytes, process_bytes, pack_channels, unpack_channels}

-- The bytes of the C type of a sample; 0 for a type that has no samples.
abbrev pub width : Dtype → ℕ
width u8 = 0
width s8 = 0
width u16 = 2
width s16 = 2
width u32 = 4
width s32 = 4
width u64 = 0
width s64 = 0
width float = 4
width float64 = 0
width str = 0

pack_bytes-width : (type_ : Dtype) → pack_bytes type_ ≡ width type_
pack_bytes-width u8 = refl
pack_bytes-width s8 = refl
pack_bytes-width u16 = refl
pack_bytes-width s16 = refl
pack_bytes-width u32 = refl
pack_bytes-width s32 = refl
pack_bytes-width u64 = refl
pack_bytes-width s64 = refl
pack_bytes-width float = refl
pack_bytes-width float64 = refl
pack_bytes-width str = refl

recv_bytes-width : (type_ : Dtype) → recv_bytes type_ ≡ width type_
recv_bytes-width u8 = refl
recv_bytes-width s8 = refl
recv_bytes-width u16 = refl
recv_bytes-width s16 = refl
recv_bytes-width u32 = refl
recv_bytes-width s32 = refl
recv_bytes-width u64 = refl
recv_bytes-width s64 = refl
recv_bytes-width float = refl
recv_bytes-width float64 = refl
recv_bytes-width str = refl

process_bytes-width : (type_ : Dtype) → process_bytes type_ ≡ width type_
process_bytes-width u8 = refl
process_bytes-width s8 = refl
process_bytes-width u16 = refl
process_bytes-width s16 = refl
process_bytes-width u32 = refl
process_bytes-width s32 = refl
process_bytes-width u64 = refl
process_bytes-width s64 = refl
process_bytes-width float = refl
process_bytes-width float64 = refl
process_bytes-width str = refl

-- Two lists of channels of the same types: the samples of the first at `position` fit their types, and
-- the second has room for a sample `i`.
abbrev pub Paired : ℕ → ℕ → List Channel → List Channel → Type 0
Paired position i [] [] = Unit
Paired position i (c ∷ cs) (d ∷ ds) =
    (d.type_ ≡ c.type_)
    × (i < length d.samples)
    × ((v : ℕ) → get_elem? c.samples position ≡ some v → v < 256 ^ width c.type_)
    × Paired position i cs ds
Paired position i _ _ = ⊥

-- Each channel of the second list holds as sample `i` what the first has at `position`, but for the
-- types that have no samples.
abbrev pub Copied : ℕ → ℕ → List Channel → List Channel → Type 0
Copied position i [] [] = Unit
Copied position i (c ∷ cs) (d ∷ ds) =
    ((width c.type_ ≡ 0) ⊎ (get_elem? d.samples i ≡ get_elem? c.samples position))
    × Copied position i cs ds
Copied position i _ _ = ⊥

drop-le_bytes : (n v : ℕ) (xs : List ℕ) → drop n (le_bytes n v ++ xs) ≡ xs
drop-le_bytes zero v xs = refl
drop-le_bytes (suc n) v xs = drop-le_bytes n (v / 256) xs

zero-cases : (n : ℕ) → (n ≡ 0) ⊎ ((k : ℕ) × (n ≡ suc k))
zero-cases zero = inl refl
zero-cases (suc k) = inr (k, refl)

-- The channel at the head of the list: its sample lies before the others' bytes.
pack_head :
    (position k : ℕ) (c : Channel) (cs : List Channel) (bs : List ℕ)
    → pack_bytes c.type_ ≡ suc k
    → pack_channels position (c ∷ cs) ≡ some bs
    → (v : ℕ) × (bs' : List ℕ) × (get_elem? c.samples position ≡ some v)
      × (pack_channels position cs ≡ some bs')
      × (bs ≡ le_bytes (suc k) v ++ bs')
unfolding pack_channels
pack_head position k c cs bs n e = elim (Option-cases (get_elem? c.samples position)) [
  | inl e1 ↦ absurd (ground (arith, n, e, e1))
  | inr (v, e1) ↦ elim (Option-cases (pack_channels position cs)) [
    | inl e2 ↦ absurd (ground (arith, n, e, e1, e2))
    | inr (bs', e2) ↦ (v, bs', e1, e2, ground (arith, n, e, e1, e2))
  ]
]

pack_skip :
    (position : ℕ) (c : Channel) (cs : List Channel)
    → pack_bytes c.type_ ≡ 0
    → pack_channels position (c ∷ cs) ≡ pack_channels position cs
unfolding pack_channels
pack_skip position c cs z = ground (arith, z)

unpack_head :
    (bytes_of : Dtype → ℕ) (i k v : ℕ) (d : Channel) (ds ds' : List Channel) (bytes : List ℕ)
    → bytes_of d.type_ ≡ suc k
    → i < length d.samples
    → v < 256 ^ suc k
    → unpack_channels bytes_of i bytes ds ≡ some ds'
    → unpack_channels bytes_of i (le_bytes (suc k) v ++ bytes) (d ∷ ds)
      ≡ some (record d { samples = set d.samples i v } ∷ ds')
unfolding unpack_channels
unpack_head bytes_of i k v d ds ds' bytes n room fits e = ground (
  arith,
  n,
  e,
  drop-le_bytes (suc k) v bytes,
  le_value-le_bytes (suc k) (suc k) v bytes (omega arith) fits,
)

unpack_skip :
    (bytes_of : Dtype → ℕ) (i : ℕ) (d : Channel) (ds ds' : List Channel) (bytes : List ℕ)
    → bytes_of d.type_ ≡ 0
    → unpack_channels bytes_of i bytes ds ≡ some ds'
    → unpack_channels bytes_of i bytes (d ∷ ds) ≡ some (d ∷ ds')
unfolding unpack_channels
unpack_skip bytes_of i d ds ds' bytes z e = ground (arith, z, e)

unpacked :
    (bytes_of : Dtype → ℕ) (agrees : (type_ : Dtype) → bytes_of type_ ≡ width type_)
    (position i : ℕ) (cs ds : List Channel) (bs rest : List ℕ)
    → Paired position i cs ds
    → pack_channels position cs ≡ some bs
    → (ds' : List Channel) × (unpack_channels bytes_of i (bs ++ rest) ds ≡ some ds')
      × Copied position i cs ds'
unfolding pack_channels unpack_channels
unpacked bytes_of agrees position i [] [] bs rest h e = ([], refl, tt)
unpacked bytes_of agrees position i (c ∷ cs) (d ∷ ds) bs rest h e =
    let own : bytes_of d.type_ ≡ width c.type_ = agrees d.type_ ∙ ap width h.0 in
    elim (zero-cases (width c.type_)) [
      | inl z ↦
          let skip = pack_skip position c cs (pack_bytes-width c.type_ ∙ z) in
          let (ds', e', copied) =
            unpacked bytes_of agrees position i cs ds bs rest h.3 (sym skip ∙ e) in
          (d ∷ ds', unpack_skip bytes_of i d ds ds' (bs ++ rest) (own ∙ z) e', (inl z, copied))
      | inr (k, n) ↦
          let (v, bs', e1, e2, split) =
            pack_head position k c cs bs (pack_bytes-width c.type_ ∙ n) e in
          let (ds', e', copied) = unpacked bytes_of agrees position i cs ds bs' rest h.3 e2 in
          let fits = subst (λ (m : ℕ). v < 256 ^ m) n (h.2 v e1) in
          (
            record d { samples = set d.samples i v } ∷ ds',
            ap (λ (bytes : List ℕ). unpack_channels bytes_of i (bytes ++ rest) (d ∷ ds)) split
                ∙ ap (λ bytes. unpack_channels bytes_of i bytes (d ∷ ds))
                    (append_assoc (le_bytes (suc k) v) bs' rest)
                ∙ unpack_head bytes_of i k v d ds ds' (bs' ++ rest) (own ∙ n) h.1 fits e',
            (inr (get_elem?-set_self d.samples i v h.1 ∙ sym e1), copied),
          )
    ]
unpacked bytes_of agrees position i [] (d ∷ ds) bs rest h e = elim h [ ]
unpacked bytes_of agrees position i (c ∷ cs) [] bs rest h e = elim h [ ]

-- What `net_send` lays out of the disturbance, `net_recv` and `process_monitoring_data` take apart: a block
-- packed at a sample position where each sample fits its type, whatever follows it, is unpacked by either into
-- channels of the same types with room for the sample, none of the arrays is left, and each channel that
-- has samples then holds the sample packed.
pub unpack-pack :
    (position i : ℕ) (cs ds : List Channel) (bs rest : List ℕ)
    → Paired position i cs ds
    → pack_channels position cs ≡ some bs
    → ((ds' : List Channel) × (unpack_channels recv_bytes i (bs ++ rest) ds ≡ some ds')
        × Copied position i cs ds')
      × ((ds' : List Channel) × (unpack_channels process_bytes i (bs ++ rest) ds ≡ some ds')
          × Copied position i cs ds')
unpack-pack position i cs ds bs rest h e = (
  unpacked recv_bytes recv_bytes-width position i cs ds bs rest h e,
  unpacked process_bytes process_bytes-width position i cs ds bs rest h e,
)
