-- ===== src/Base/Bits.antt =====
-- Laws of `bit_xor` and of `bit_and` with a mask, at every width, from the recursion on binary
-- digits that the native operations stand for.
mod Digits
mod Xor
mod And
pub use Digits.{bit_xor_step, bit_and_step, bit_or_step}
pub use Xor.*
pub use And.*
