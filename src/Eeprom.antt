-- ===== src/Eeprom.antt =====
-- The EEPROM of an EtherCAT slave and its files, ingenialink/ecat/net.c.
pub mod Print
pub mod Scan
pub mod Text
pub mod Records
pub mod Lines
pub mod Copied
pub mod Round
pub mod Master
pub mod Memory
pub mod Reading
pub mod Writing
pub mod Tool
pub mod Session
pub mod Sii
pub mod Files
pub mod Clone
mod Simulated
mod Tests
use ingenialink.Base.{ℕ}

-- `MAXBUF`, the size of `ebuf`.
abbrev pub max_buf : ℕ
max_buf = 524288
