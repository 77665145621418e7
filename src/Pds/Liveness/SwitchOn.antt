-- ===== src/Pds/Liveness/SwitchOn.antt =====
-- `il_eth_servo_switch_on` on a drive that follows CiA 402.
use ingenialink.Pds.Drive.{Drive}
