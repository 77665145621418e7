-- ===== src/Lib.antt =====
-- ingenialink: a library that drives servo drives of Ingenia over Ethernet and EtherCAT.
--
-- A program opens a network (`il_net_t`, ingenialink/net.c) and creates servos on it (`il_servo_t`,
-- ingenialink/servo.c). Both dispatch to a protocol: ingenialink/eth or ingenialink/ecat, on top of
-- the code that the protocols share, ingenialink/base. A servo reads and writes registers of its
-- drive; a register access checks the register and calls the network's read or write, which exchanges
-- a frame over a socket. The loops that enable, switch on, disable and reset a drive read its
-- statusword and write its controlword through these accesses. Monitoring and disturbance map
-- registers to channels and carry blocks of samples behind a frame.
--
-- What models what:
--   Base: numbers as C compares them, arrays as lists, the return codes of
--     include/public/ingenialink/err.h, signed integers, the laws of the bitwise operators.
--   Err: `ilerr__eth` and `ilerr__ecat` of ingenialink/err.c.
--   Register: `il_reg_t` of include/public/ingenialink/registers.h and the predefined registers of
--     ingenialink/base/registers.c.
--   Port: what a servo stands on, as interfaces: the network's operations, the dictionary's lookup,
--     the clock. They are parameters of the models.
--   Access, Access.Reads, Access.Writes: the register accesses of ingenialink/base/servo.c, from
--     `get_reg` and `raw_read` to `il_servo_base__write`.
--   Crc: the checksum of ingenialink/eth/net.c, its static table an explicit state; Crc.Serial is the
--     bit-serial CRC that it is compared with.
--   Link: the frames of ingenialink/eth/net.c (`net_send`, `net_recv`, `il_eth_net__read`,
--     `il_eth_net__write`, `process_monitoring_data`); Link.Monitor has the reading of the
--     monitoring (`il_eth_net_recv_monitoring`, `il_eth_net__read_monitoring`) and
--     `il_eth_net__wait_write`. The socket is a parameter.
--     Link.Served: the exchange as a peer behind the socket sees it.
--   Ethernet: the reads and writes of Link as the network that a servo stands on (`il_eth_net_ops`);
--     Ethernet.Drive: a servo of Pds over it, whose drive is behind the socket.
--   Eeprom: the EEPROM tool of ingenialink/ecat/net.c. Eeprom.Print is `output_intelhex`, Eeprom.Scan
--     `input_intelhex`, its lines read ahead of their records; a conversion of `sscanf` is a parameter,
--     whose numbers have no sign. Eeprom.Master is `eeprom_read`, `eeprom_write` and
--     `eeprom_writealias` over SOEM, a parameter; Eeprom.Memory states what is assumed of a slave,
--     whose memory must be granted to the master first.
--     Eeprom.Tool has `SIIcrc`, the binary files and `il_ecat_net_eeprom_tool`.
--   Firmware: `il_ecat_net_update_firmware` of ingenialink/ecat/net.c over SOEM, a parameter;
--     Firmware.Session states when SOEM is open, Firmware.Live what is assumed of a slave,
--     its mailboxes included.
--   Mapping: the mapping of registers to channels, ingenialink/eth/net.c from
--     `il_eth_net_remove_all_mapped_registers` to `il_eth_net_disable_monitoring`.
--   Subs: the tables of subscribers; Subs.Nets those of ingenialink/base/net.c, Subs.Servos those of
--     ingenialink/base/servo.c, with the calls that a notification makes. `Alloc` is `realloc`.
--   Emcy: the queue of emergencies of ingenialink/base/servo.c (`on_emcy`, the loop of
--     `emcy_subs_monitor`); Emcy.Runs has its arrivals and rounds in every order, and the abstract queue.
--   Watch: `state_subs_monitor` of ingenialink/base/servo.c.
--   Poller: ingenialink/poller.c; the thread's round is `tick`, Poller.Config has the rest. `Heap` is
--     `realloc` over the states of the memory.
--   Refcnt: ingenialink/utils.c, with the uses of a count in any order.
--   Storage: the registers of ingenialink/dict.c by id, and `il_servo_dict_storage_read` of
--     ingenialink/servo.c; Storage.Restore is `il_servo_dict_storage_write`. Both stand on Access.
--   Life: what the initialisation and the end of a network (Life.Nets, ingenialink/base/net.c), a servo
--     (Life.Servos, ingenialink/base/servo.c) and a poller (Life.Pollers, ingenialink/poller.c) take and
--     give back, as the list of what is held, with the reference counts of Refcnt.
--   Pds: `il_eth_servo__state_decode` and the loops `disable`, `switch_on`, `enable` and `fault_reset`
--     of ingenialink/eth/servo.c; Pds.Wait has `sw_wait_value` and
--     `il_eth_servo_store_all`; Pds.Drive states what is assumed of a drive, the bits of its statusword, the
--     commands and the automatic transitions of CiA 402 as relations, and Pds.Simulated is one. ingenialink/ecat/servo.c repeats this code.
--
-- State is passed explicitly: a servo operation takes the stored statusword and the world behind the
-- network, and returns both with its result. An uninitialised variable is a parameter `junk`. In Link,
-- Mapping and Eeprom, `none` is an access outside an array. In Pds, `none` is fuel that ran out: the loops
-- take the rounds of the loop and the polls of a wait as fuel. A fault reset has at most 20 retries, so
-- 21 rounds are enough for it; the loops of Eeprom count the bytes that are left; the liveness entries below say how many rounds the other loops need.
-- Integers are natural numbers with the wrap-around of their width written out; the host is
-- little-endian. Where a loop of the source would not end, or an `int` overflow, behind a bound, the entries
-- below state the bound: 2^15 words of a checksum, 2^30 slots of a table, 131072 bytes of an EEPROM.
--
-- Threads are modelled where they share data: the arrivals of emergencies and the rounds of their
-- monitor interleave, each under its lock. The other operations run alone. A drain of the queue has fuel:
-- four rounds are enough, one more than the queue holds. The loop over the blocks of the monitoring has
-- fuel too; the drive decides how often it runs. A lock is modelled where an operation leaves it
-- in another state than it found it (Subs).
--
-- Not modelled: sleeps and timeouts of condition variables, the text of the last error, the values
-- that an initialisation sets, the creation of networks and servos by protocol, sockets and their reconnection, the dictionary's XML,
-- EtherCAT but for the EEPROM tool and the firmware, with the vendored lwIP, the operating system layer.
pub mod Base
pub mod Crc
pub mod Register
pub mod Subs
pub mod Emcy
pub mod Poller
pub mod Refcnt
pub mod Port
pub mod Access
pub mod Pds
pub mod Watch
pub mod Storage
pub mod Mapping
pub mod Err
pub mod Eeprom
pub mod Ethernet
pub mod Firmware
pub mod Life
pub mod Link
