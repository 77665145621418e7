-- ===== src/Ethernet/Tests.antt =====
-- A simulated drive behind a socket, and witnesses.
use ingenialink.Base.{
  ℕ, ◌+◌, ◌-◌, ◌*◌, ◌/◌, ◌%◌, ◌≡◌, ◌∙◌, ◌&&◌, true, some, ok, err, efail, List, [], ◌++◌, take,
  drop, get_or, replicate, refl, ap, ◌==◌, if◌then◌else◌, arith,
}
use ingenialink.Port.{Catalog, Clock}
use ingenialink.Crc.{initial_table}
use ingenialink.Crc.Fill.{initial_table-IsValid}
use ingenialink.Link.{Socket, readable, EthNet, le_value, cmd_read, cmd_write, cmd_ack}
use ingenialink.Link.Recv.{read}
use ingenialink.Link.Served.{framed, Encodable, Peer, framed-data, read-served}
use ingenialink.Pds.{State, on}
use ingenialink.Pds.Control.{Servo}
use ingenialink.Pds.Simulated.{
  word, word-lt, word-Shows, moved, moved-Moves, settled, settled-Settles,
}
use ingenialink.Ethernet.{Live}
use ingenialink.Ethernet.Drive.{Cia402}

-- A drive at the axis 1, with its state and its last controlword; the other registers show 0.
abbrev Machine : Type 0
Machine = State × ℕ

abbrev serve : ℕ → ℕ → ℕ → ℕ → Machine → ℕ × Machine
serve subnode address cmd d m =
    if subnode == 1 && address == 0x11 && cmd == cmd_read
    then (word m.0, (settled m.0, m.1))
    else if subnode == 1 && address == 0x10 && cmd == cmd_write
    then (0, (moved m.1 m.0 d, d))
    else (0, m)

-- The machine behind a frame, and the frame of its answer.
abbrev served : ℕ → ℕ → ℕ → ℕ → Machine → Machine × List ℕ
served subnode address cmd d m =
    let (value, m') = serve subnode address cmd d m in (m', framed subnode address cmd_ack value)

-- The fields of a frame, by its bytes.
abbrev on_frame : List ℕ → Machine → Machine × List ℕ
on_frame frame m =
    served (get_or frame 0 0 - 160) (get_or frame 2 0 / 16 + get_or frame 3 0 * 16)
      (get_or frame 2 0 % 16 / 2) (le_value (take 8 (drop 4 frame))) m

abbrev sock : Socket (Machine × List ℕ)
sock = record {
  select = λ s. (readable, s);
  recv = λ s. (s.1 ++ replicate 10 0, s);
  send = λ frame s. (true, on_frame frame s.0);
  close = λ s. s;
}

abbrev view : Machine × List ℕ → Machine
view s = s.0

on_frame-framed :
    (subnode address cmd d : ℕ) (m : Machine)
    → Encodable subnode address cmd d
    → on_frame (framed subnode address cmd d) m ≡ served subnode address cmd d m
on_frame-framed subnode address cmd d m fit =
    let low = address % 16 * 16 + cmd * 2 in
    let same_subnode : 160 + subnode - 160 ≡ subnode = omega arith in
    let same_address : low / 16 + address / 16 * 16 ≡ address = omega (arith, fit.2) in
    let same_cmd : low % 16 / 2 ≡ cmd = omega (arith, fit.2) in
    ap (λ (x : ℕ). served (160 + subnode - 160) (low / 16 + address / 16 * 16) (low % 16 / 2) x m)
      (framed-data subnode address cmd d 8 [] fit.0 fit.1 fit.2 (omega arith) fit.3)
    ∙ ap (λ (x : ℕ). served x (low / 16 + address / 16 * 16) (low % 16 / 2) d m) same_subnode
    ∙ ap (λ (x : ℕ). served subnode x (low % 16 / 2) d m) same_address
    ∙ ap (λ (x : ℕ). served subnode address x d m) same_cmd

peer : Peer sock serve view
peer = record {
  rest = λ s. replicate 10 0;
  sends = λ subnode address cmd d s fit. refl;
  ready = λ subnode address cmd d s fit. refl;
  answers = λ subnode address cmd d s fit.
      ap (λ (x : Machine × List ℕ). x.1 ++ replicate 10 0)
        (on_frame-framed subnode address cmd d s.0 fit);
  moves = λ subnode address cmd d s fit. ap view (on_frame-framed subnode address cmd d s.0 fit);
}

abbrev cia : Cia402 serve 1
cia = record {
  state = λ m. m.0;
  word = λ m. word m.0;
  control = λ m. m.1;
  shown = λ m. word-Shows m.0;
  fits = λ m. word-lt m.0;
  reads = λ m. refl;
  settles = λ m. settled-Settles m.0;
  takes = λ cmd m h. refl;
  moves = λ cmd st m h k. moved-Moves m.1 cmd m.0 st k;
}

abbrev clock : Clock (Live (Machine × List ℕ))
clock = record { gettime = λ l. ((true, 0), l) }

abbrev catalog : Catalog (Unit {0})
catalog = record { reg_get = λ d id subnode. err efail }

abbrev fresh : Machine → EthNet (Machine × List ℕ)
fresh m = record {
  table = initial_table;
  socket = (m, []);
  extended_buff = replicate 128 0;
  monitoring_raw_data = replicate 64 0;
  monitoring_data_size = 0;
  monitoring_bytes_per_block = 0;
  monitoring_channels = [];
  disturbance_channels = [];
  disturbance_data_size = 0;
}

abbrev start : Machine → Servo (Live (Machine × List ℕ))
start m = record { sw = 0; world = record { net = fresh m; valid = initial_table-IsValid } }

read-served_example :
    (bytes : List ℕ) × (e' : EthNet (Machine × List ℕ)) × (read sock 1 0x11 2 (fresh (on, 0x07))
      ≡ some (ok bytes, e'))
    × (le_value bytes ≡ 0x0233)
    × (view e'.socket ≡ (on, 0x07))
read-served_example =
    read-served sock serve view peer 1 0x11 2 (fresh (on, 0x07)) initial_table-IsValid (omega arith)
      (omega arith) (omega arith) (omega arith)
