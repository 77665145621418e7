-- ===== src/Ethernet/Drive.antt =====
-- A servo over Ethernet whose drive follows CiA 402: from `il_eth_servo_enable` down to the frames on the
-- socket.
use ingenialink.Base.{
  ℕ, ◌^◌, ◌<◌, ◌≡◌, true, Option, some, Result, ok, List, arith, ◌∙◌, ap, sym, refl,
}
use mathlib.Core.Path.{subst}
use ingenialink.Port.{Clock}
use ingenialink.Link.{Socket, EthNet, le_value, cmd_read, cmd_write}
use ingenialink.Link.Recv.{read, write}
use ingenialink.Link.Tables.{Sound, read-Sound, write-Sound}
use ingenialink.Link.Served.{Peer, read-served, write-served}
use ingenialink.Pds.{State}
use ingenialink.Pds.Drive.{Moves, Settles, stays}
use ingenialink.Pds.Decode.{Shows}
use ingenialink.Pds.Drive
use ingenialink.Ethernet.{Live, settled, eth_net}

-- The registers of such a drive, at the axis `subnode`.
pub record Cia402 {D : Type 0} (serve : ℕ → ℕ → ℕ → ℕ → D → ℕ × D) (subnode : ℕ) : Type 0 where
  pub state : D → State
  pub word : D → ℕ
  pub control : D → ℕ
  pub shown : (d : D) → Shows (state d) (word d)
  pub fits : (d : D) → word d < 2 ^ 16
  pub reads : (d : D) → (serve subnode 0x11 cmd_read 0 d).0 ≡ word d
  pub settles : (d : D) → Settles (state d) (state (serve subnode 0x11 cmd_read 0 d).1)
  pub takes :
      (cmd : ℕ) (d : D) → cmd < 2 ^ 16 → control (serve subnode 0x10 cmd_write cmd d).1 ≡ cmd
  pub moves :
      (cmd : ℕ) (st : State) (d : D)
      → cmd < 2 ^ 16
      → Moves (control d) (state d) cmd st
      → state (serve subnode 0x10 cmd_write cmd d).1 ≡ st

-- What a call returns and leaves, if it is known.
settled_ok :
    {S A B : Type 0} (f : A → B) (l : Live S) (o : Option (Result A × EthNet S)) (v : Sound o)
    (a : A) (e : EthNet S)
    → o ≡ some (ok a, e)
    → ((settled f l o v).0 ≡ ok (f a)) × ((settled f l o v).1.net ≡ e)
settled_ok {S} {A} {B} f l o v a e h =
    subst
      (λ (o : Option (Result A × EthNet S)).
        (v : Sound o) → ((settled f l o v).0 ≡ ok (f a)) × ((settled f l o v).1.net ≡ e))
      (sym h) (λ v. (refl, refl)) v

module _ {S D : Type 0} (sock : Socket S) (serve : ℕ → ℕ → ℕ → ℕ → D → ℕ × D) (view : S → D)
    (peer : Peer sock serve view) (subnode : ℕ) (cia : Cia402 serve subnode)
    (clock : Clock (Live S)) (ticks : (l : Live S) → (clock.gettime l).0.0 ≡ true)
    (axis : subnode < 2 ^ 4) (tick_keeps : (l : Live S) → (clock.gettime l).1 ≡ l) where
  abbrev pub state_of : Live S → State
  state_of l = cia.state (view l.net.socket)

  abbrev pub control_of : Live S → ℕ
  control_of l = cia.control (view l.net.socket)

  abbrev pub word_of : Live S → ℕ
  word_of l = cia.word (view l.net.socket)

  -- A read of the statusword over the socket.
  pub statusword_lem :
      (l : Live S)
      → (((eth_net sock).read subnode 0x11 2 l).0 ≡ ok (word_of l))
        × Settles (state_of l) (state_of ((eth_net sock).read subnode 0x11 2 l).1)
  statusword_lem l =
      let d = view l.net.socket in
      let (bytes, e, r, value, next) =
        read-served sock serve view peer subnode 0x11 2 l.net l.valid axis (omega arith)
          (omega arith) (omega (arith, cia.reads d, cia.fits d)) in
      let (res, left) =
        settled_ok le_value l (read sock subnode 0x11 2 l.net)
          (read-Sound sock subnode 0x11 2 l.net l.valid) bytes e r in
      (
        res ∙ ap ok (value ∙ cia.reads d),
        subst (Settles (state_of l))
            (sym (ap (λ (x : EthNet S). cia.state (view x.socket)) left ∙ ap cia.state next))
            (cia.settles d),
      )

  -- A write of the controlword over the socket.
  pub controlword_lem :
      (cmd : ℕ) (l : Live S)
      → cmd < 2 ^ 16
      → (((eth_net sock).write subnode 0x10 cmd 2 true 0 l).0 ≡ ok tt)
        × (state_of ((eth_net sock).write subnode 0x10 cmd 2 true 0 l).1
            ≡ cia.state (serve subnode 0x10 cmd_write cmd (view l.net.socket)).1)
        × (control_of ((eth_net sock).write subnode 0x10 cmd 2 true 0 l).1
            ≡ cia.control (serve subnode 0x10 cmd_write cmd (view l.net.socket)).1)
  controlword_lem cmd l lt =
      let (bytes, e, r, next) =
        write-served sock serve view peer subnode 0x10 cmd 2 l.net l.valid axis (omega arith)
          (omega arith) (omega arith) in
      let (res, left) =
        settled_ok (λ (bytes : List ℕ). tt) l (write sock subnode 0x10 cmd 2 0 l.net)
          (write-Sound sock subnode 0x10 cmd 2 0 l.net l.valid) bytes e r in
      (
        res,
        ap (λ (x : EthNet S). cia.state (view x.socket)) left ∙ ap cia.state next,
        ap (λ (x : EthNet S). cia.control (view x.socket)) left ∙ ap cia.control next,
      )

  -- The network over the socket is one that the loops of a servo succeed on.
  abbrev pub drive : Drive.Drive (eth_net sock) clock subnode
  drive = record {
    state = state_of;
    control = control_of;
    word = word_of;
    shown = λ l. cia.shown (view l.net.socket);
    answers = λ l. (statusword_lem l).0;
    read_settles = λ l. (statusword_lem l).1;
    ticks = ticks;
    tick_settles = λ l. subst (Settles (state_of l)) (sym (ap state_of (tick_keeps l))) stays;
    accepts = λ cmd l lt. (controlword_lem cmd l lt).0;
    takes = λ cmd l lt. (controlword_lem cmd l lt).2 ∙ cia.takes cmd (view l.net.socket) lt;
    moves =
        λ cmd st l lt m. (controlword_lem cmd l lt).1 ∙ cia.moves cmd st (view l.net.socket) lt m;
  }
