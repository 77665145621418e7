-- ===== src/Pds/Liveness.antt =====
-- Liveness of the loops of ingenialink/eth/servo.c on a drive that follows CiA 402.
pub mod Disable
pub mod SwitchOn
pub mod Enable
