-- ===== src/Pds/Liveness/Enable.antt =====
-- `il_eth_servo_enable` on a drive that follows CiA 402.
use ingenialink.Pds.Cmd
use ingenialink.Pds.Drive.{Drive}
