-- ===== src/Ethernet.antt =====
-- A servo over Ethernet: the operations `il_eth_net__read`, `il_eth_net__write` and `il_eth_net__wait_write`
-- of ingenialink/eth/net.c as the network that the register accesses of ingenialink/base/servo.c and the
-- loops of ingenialink/eth/servo.c stand on (`il_eth_net_ops`).
pub mod Drive
mod Tests
use ingenialink.Base.{Option, none, some, Result, ok, err, efail, List, ℕ}
use ingenialink.Port.{Net}
use ingenialink.Crc.Fill.{IsValid}
use ingenialink.Link.{Socket, EthNet, le_value}
use ingenialink.Link.Recv.{read, write}
use ingenialink.Link.Monitor.{wait_write}
use ingenialink.Link.Tables.{Sound, read-Sound, write-Sound, wait_write-Sound}

-- The state of a network, its table of the checksum filled or still to be filled.
pub record Live (S : Type 0) : Type 0 where
  pub net : EthNet S
  pub valid : IsValid net.table

-- The result for the caller, whose buffer is the number that its bytes hold. An access outside an array,
-- behind which nothing is known, is a failure here.
abbrev pub settled :
    {S A B : Type 0}
    → (A → B)
    → Live S
    → (o : Option (Result A × EthNet S)) → Sound o
    → Result B × Live S
settled f l none v = (err efail, l)
settled f l (some (ok a, e)) v = (ok (f a), record { net = e; valid = v })
settled f l (some (err c, e)) v = (err c, record { net = e; valid = v })

module _ {S : Type 0} (sock : Socket S) where
  abbrev pub eth_net : Net (Live S)
  eth_net = record {
    read = λ subnode address sz l.
        settled le_value l (read sock subnode address sz l.net)
          (read-Sound sock subnode address sz l.net l.valid);
    write = λ subnode address d sz confirm extended l.
        settled (λ bytes. tt) l (write sock subnode address d sz extended l.net)
          (write-Sound sock subnode address d sz extended l.net l.valid);
    wait_write = λ subnode address d sz confirm extended l.
        settled (λ bytes. tt) l (wait_write sock subnode address d sz extended l.net)
          (wait_write-Sound sock subnode address d sz extended l.net l.valid);
  }
