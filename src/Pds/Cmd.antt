-- ===== src/Pds/Cmd.antt =====
-- The commands `IL_MC_PDS_CMD_*` of the controlword, ingenialink/mc.h: shutdown, switch on, switch on
-- and enable, disable voltage, disable operation, enable operation, fault reset.
use ingenialink.Base.{ℕ}

abbrev pub sd : ℕ
sd = 0x06

abbrev pub so : ℕ
so = 0x07

abbrev pub soeo : ℕ
soeo = 0x0f

abbrev pub dv : ℕ
dv = 0x00

abbrev pub do_ : ℕ
do_ = 0x07

abbrev pub eo : ℕ
eo = 0x0f

abbrev pub fr : ℕ
fr = 0x80
