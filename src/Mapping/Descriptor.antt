-- ===== src/Mapping/Descriptor.antt =====
-- The descriptor that the second version of the mapping writes, ingenialink/eth/net.c.
use ingenialink.Base.{ℕ, ◌/◌, ◌%◌, ◌^◌, ◌<◌, ◌≡◌, arith}
use ingenialink.Base.Bits.{or_fields}
use ingenialink.Register.{Dtype}
use ingenialink.Mapping.{entire_frame, dtype_code}

dtype_code-lt : (d : Dtype) → dtype_code d < 2 ^ 8
dtype_code-lt d = ground arith

-- The descriptor holds the size, the type, the address and the subnode in fields that do not overlap,
-- if they fit the fields' 8, 12 and 4 bits.
pub entire_frame-fields :
    (dtype : Dtype) (size subnode address : ℕ)
    → size < 2 ^ 8
    → subnode < 2 ^ 4
    → address < 2 ^ 12
    → (entire_frame dtype size subnode address % 2 ^ 8 ≡ size)
      × (entire_frame dtype size subnode address / 2 ^ 8 % 2 ^ 8 ≡ dtype_code dtype)
      × (entire_frame dtype size subnode address / 2 ^ 16 % 2 ^ 12 ≡ address)
      × (entire_frame dtype size subnode address / 2 ^ 28 ≡ subnode)
unfolding entire_frame
entire_frame-fields dtype size subnode address hs hn ha = ground (
  arith,
  dtype_code-lt dtype,
  or_fields 8 (dtype_code dtype) size hs,
  or_fields 12 subnode address ha,
)
