-- ===== src/Port.antt =====
-- The interfaces between the servo and what it stands on: the network operations of
-- ingenialink/net.c (`il_net__read`, `il_net__write`, `il_net__wait_write`), which the protocols fill,
-- the register lookup of the dictionary, and the clock of the operating system layer.
use ingenialink.Base.{ℕ, Bool, Result}
use ingenialink.Register.{Reg}
use Prim.Native.String.{String}

-- Over the states `W` of the network and of what is behind it. A buffer of `sz` bytes is the
-- little-endian number that it holds; a failed read leaves the caller's buffer alone.
pub record Net (W : Type 0) : Type 0 where
  -- subnode, address, size
  pub read : ℕ → ℕ → ℕ → W → Result ℕ × W
  -- subnode, address, value, size, confirmed, extended
  pub write : ℕ → ℕ → ℕ → ℕ → Bool → ℕ → W → Result (Unit {0}) × W
  pub wait_write : ℕ → ℕ → ℕ → ℕ → Bool → ℕ → W → Result (Unit {0}) × W

-- `il_dict_reg_get` of a loaded dictionary: id, subnode.
pub record Catalog (D : Type 0) : Type 0 where
  pub reg_get : D → String → ℕ → Result Reg

-- `osal_clock_gettime`: whether it succeeded, and the seconds that its structure holds afterwards.
pub record Clock (W : Type 0) : Type 0 where
  pub gettime : W → (Bool × ℕ) × W
