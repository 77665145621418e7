-- ===== src/Mapping/Bounds.antt =====
-- How far the mapping of ingenialink/eth/net.c stays inside the array of the mapping registers.
use ingenialink.Base.{
  ℕ, ◌+◌, ◌<◌, ◌≤◌, Option, none, some, List, [], ◌∷◌, Result, length, get_elem?, length-set,
  get_elem?-lt, ◌⊎◌, ◌≡◌, refl, sym, arith, Option-cases, inl, inr,
}
use mathlib.Core.Path.{subst}
use ingenialink.Register.{Dtype}
use ingenialink.Port.{Net}
use ingenialink.Mapping.{Mapped, set_mapped_register_v2, il_net_monitoring_mapping_registers}

-- What a caller maps: a channel, and the register's address, subnode, type and size.
pub record Request : Type 0 where
  pub channel : ℕ
  pub address : ℕ
  pub subnode : ℕ
  pub dtype : Dtype
  pub size : ℕ

-- The requests one after the other, whatever each returns.
unfoldable pub map_registers : {W : Type 0} → Net W → List Request → Mapped W → Option (Mapped W)
unfolding set_mapped_register_v2
map_registers net [] m = some m
map_registers net (q ∷ qs) m =
    elim (set_mapped_register_v2 net q.channel q.address q.subnode q.dtype q.size m) [
      | none ↦ none
      | some (_, m') ↦ map_registers net qs m'
    ]

abbrev pub Channels : List Request → ℕ → Type 0
Channels [] n = Unit
Channels (q ∷ qs) n = (q.channel < n) × Channels qs n

≤-cases : (a b : ℕ) → (a < b) ⊎ (b ≤ a)
≤-cases a b = ground arith

register_at :
    (i : ℕ)
    → i < 16
    → (register : ℕ) × (get_elem? il_net_monitoring_mapping_registers i ≡ some register)
register_at i h = get_elem?-lt il_net_monitoring_mapping_registers i h

module _ {W : Type 0} (net : Net W) where
  map_one :
      (q : Request) (m : Mapped W)
      → q.channel < length m.monitoring_types
      → m.monitoring_number_mapped_registers < 16
      → (r : Result (Unit {0})) × (m' : Mapped W) × (set_mapped_register_v2 net q.channel q.address
            q.subnode q.dtype q.size m
          ≡ some (r, m'))
        × (m'.monitoring_number_mapped_registers ≡ m.monitoring_number_mapped_registers + 1)
        × (length m'.monitoring_types ≡ length m.monitoring_types)
  unfolding set_mapped_register_v2
  map_one q m hc hn =
      let (register, e) = register_at m.monitoring_number_mapped_registers hn in
      let types = length-set m.monitoring_types q.channel q.dtype in
      elim (Option-cases
        (set_mapped_register_v2 net q.channel q.address q.subnode q.dtype q.size m)) [
          | inl e0 ↦ absurd (ground (arith, e, e0))
          | inr ((r, m'), e1) ↦ (r, m', e1, ground (arith, e, e1), ground (arith, e, e1, types))
        ]

  map_full :
      (q : Request) (m : Mapped W)
      → m.monitoring_number_mapped_registers ≡ 16
      → set_mapped_register_v2 net q.channel q.address q.subnode q.dtype q.size m ≡ none
  unfolding set_mapped_register_v2
  map_full q m hn = ground (arith, hn)

  -- Whatever the network answers to each step: requests for channels that exist, as many as there is
  -- room for among the 16 mapping registers, are all mapped inside the arrays, and counted; more
  -- requests than there is room for leave the array of the mapping registers.
  pub map_registers-room :
      (qs : List Request) (m : Mapped W)
      → Channels qs (length m.monitoring_types)
      → m.monitoring_number_mapped_registers ≤ 16
      → ((m.monitoring_number_mapped_registers + length qs ≤ 16)
          × ((m' : Mapped W) × (map_registers net qs m ≡ some m')
              × (m'.monitoring_number_mapped_registers
                  ≡ m.monitoring_number_mapped_registers + length qs)))
        ⊎ ((16 < m.monitoring_number_mapped_registers + length qs)
            × (map_registers net qs m ≡ none))
  unfolding map_registers
  map_registers-room [] m hc hn = inl (omega arith, (m, refl, omega arith))
  map_registers-room (q ∷ qs) m hc hn = elim (≤-cases m.monitoring_number_mapped_registers 16) [
    | inl lt ↦
        let (r, m', e, count, types) = map_one q m hc.0 lt in
        elim (map_registers-room qs m' (subst (Channels qs) (sym types) hc.1)
          (omega (arith, count))) [
            | inl (room, (m2, e2, c2)) ↦
                inl (omega (arith, count), (m2, ground (arith, e, e2), omega (arith, count, c2)))
            | inr (full, e2) ↦ inr (omega (arith, count), ground (arith, e, e2))
          ]
    | inr ge ↦ inr (omega arith, ground (arith, map_full q m (omega arith)))
  ]
