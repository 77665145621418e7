-- ===== src/Link/Samples.antt =====
-- Samples of the channels in a block of bytes: the packing of the disturbance in `net_send`, and the
-- unpacking of the monitoring in `net_recv` and `process_monitoring_data`, ingenialink/eth/net.c.
-- `none` stands for an access outside an array, or for a loop that does not end.
use ingenialink.Base.{
  ℕ, zero, suc, ◌+◌, ◌/◌, true, false, Option, none, some, List, [], ◌∷◌, ◌++◌, length, get_elem?,
  set, take, drop, ltb, if◌then◌else◌, ◌==◌,
}
use ingenialink.Register.{Dtype, u16, s16, u32, s32, float}
use ingenialink.Link.{Channel, EthNet, le_bytes, le_value}

-- The bytes of a sample that the switch of `net_send` stores; it passes over the other types.
abbrev pub pack_bytes : Dtype → ℕ
pack_bytes u16 = 2
pack_bytes s16 = 2
pack_bytes u32 = 4
pack_bytes s32 = 4
pack_bytes float = 4
pack_bytes _ = 0

-- Those that the switch of `net_recv` loads.
abbrev pub recv_bytes : Dtype → ℕ
recv_bytes u16 = 2
recv_bytes s16 = 2
recv_bytes u32 = 4
recv_bytes s32 = 4
recv_bytes float = 4
recv_bytes _ = 0

-- Those that the switch of `process_monitoring_data` loads.
abbrev pub process_bytes : Dtype → ℕ
process_bytes u16 = 2
process_bytes s16 = 2
process_bytes u32 = 4
process_bytes s32 = 4
process_bytes float = 4
process_bytes _ = 0

-- One round of the loop over the channels, at a sample position.
unfoldable pub pack_channels : ℕ → List Channel → Option (List ℕ)
pack_channels position [] = some []
pack_channels position (c ∷ cs) =
    let rest = pack_channels position cs in
    elim (pack_bytes c.type_) [
      | zero ↦ rest
      | suc n ↦ elim (get_elem? c.samples position) [
        | none ↦ none
        | some v ↦ elim rest [ none ↦ none | some bs ↦ some (le_bytes (suc n) v ++ bs) ]
      ]
    ]

-- `while (n_bytes_sum < net->disturbance_data_size)`, by the rounds left, from `sum` bytes on.
unfoldable pub pack_from : ℕ → ℕ → ℕ → ℕ → List Channel → Option (List ℕ)
unfolding pack_channels
pack_from zero size sum position cs = if ltb sum size then none else some []
pack_from (suc n) size sum position cs = elim (ltb sum size) [
  | false ↦ some []
  | true ↦ elim (pack_channels position cs) [
    | none ↦ none
    | some bs ↦ elim (pack_from n size (sum + length bs) (position + 1) cs) [
      | none ↦ none
      | some rest ↦ some (bs ++ rest)
    ]
  ]
]

-- The loop over the mapped registers for the sample `i`, on the block's bytes from the offset on; `bytes_of` is
-- its switch.
unfoldable pub unpack_channels : (Dtype → ℕ) → ℕ → List ℕ → List Channel → Option (List Channel)
unpack_channels bytes_of i bytes [] = some []
unpack_channels bytes_of i bytes (c ∷ cs) =
    let n = bytes_of c.type_ in
    let rest = unpack_channels bytes_of i (drop n bytes) cs in
    elim n [
      | zero ↦ elim rest [ none ↦ none | some cs' ↦ some (c ∷ cs') ]
      | suc k ↦
          if ltb i (length c.samples)
          then elim rest [
            | none ↦ none
            | some cs' ↦
                some (record c { samples = set c.samples i (le_value (take (suc k) bytes)) } ∷ cs')
          ]
          else none
    ]

-- The loop over the blocks from the sample `i` on, by the blocks left.
unfoldable pub unpack_from : (Dtype → ℕ) → ℕ → ℕ → ℕ → List ℕ → List Channel → Option (List Channel)
unfolding unpack_channels
unpack_from bytes_of zero i block bytes cs = some cs
unpack_from bytes_of (suc n) i block bytes cs = elim (unpack_channels bytes_of i bytes cs) [
  | none ↦ none
  | some cs' ↦ unpack_from bytes_of n (i + 1) block (drop block bytes) cs'
]

-- The blocks of the raw data, taken apart with a switch.
unfoldable pub unpack : {S : Type 0} → (Dtype → ℕ) → EthNet S → Option (EthNet S)
unfolding unpack_from
unpack bytes_of e =
    let block = e.monitoring_bytes_per_block in
    if block == 0
    then none
    else elim (unpack_from bytes_of (e.monitoring_data_size / block) 0 block e.monitoring_raw_data
        e.monitoring_channels) [
          | none ↦ none
          | some cs ↦ some (record e { monitoring_channels = cs })
        ]

-- `process_monitoring_data`.
unfoldable pub process_monitoring_data : {S : Type 0} → EthNet S → Option (EthNet S)
unfolding unpack
process_monitoring_data e = unpack process_bytes e
