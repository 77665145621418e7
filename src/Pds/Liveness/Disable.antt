-- ===== src/Pds/Liveness/Disable.antt =====
-- `il_eth_servo_disable` on a drive that follows CiA 402.
use ingenialink.Pds.Cmd
use ingenialink.Pds.Drive.{Drive}
