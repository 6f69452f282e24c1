-- ===== src/Net/Device/Tests.antt =====
-- A device of kernel/src/net with one bound port, and the laws of its receive path there.
use elise.Base.{ℕ, ◌≡◌, refl, arith, some, List, [], ◌∷◌, ◌++◌, length}
use elise.Cursor.{returns}
use elise.Net.Bytes.{be16, be32}
use elise.Net.Packet.{Packet, raw, parse_u16, parse_mac}
use elise.Net.Arp.{parse_arp, is_valid_reply}
use elise.Net.Eth.{frame, parse_eth}
use elise.Net.Builder.Udp.{send_udp}
use elise.Net.Builder.Tests.{mac_a, mac_b, some_addr, some_addr-IsAddress, hello, page, size}
use elise.Net.Device.{Device, release, discard, recv_udp, arp}
use elise.Net.Device.Quiet.{discard-IsReleased}
use elise.Net.Device.Receive.{take_datagram, send_udp-recv_udp}
use elise.Net.Ports.{next_free, bind_udp_port}
use elise.Net.Device.Steps.{Reachable, Reachable-IsIdle, IsIdle}
use elise.Net.Device.Steps
use elise.Net.Builder.Udp.Carries.{Carries}
use elise.Net.Device.Address.{resolve, address, resolve-Carries}
use elise.Net.Device.Resolve.{Keeps, first_reply, reply_in}
use elise.Net.Device.Resolve.Rounds.{first_round, arp-first_round}

-- A queue's capacity, as of a `VecDeque` that doubles.
abbrev capacity : List Packet → ℕ
capacity [] = 0
capacity (_ ∷ _) = 4

abbrev empty : Packet
empty = record { memory = page; len = 0 }

abbrev device : Device
device = record {
  mac = mac_b;
  client_ip = some 0x0A000002;
  ports = record { next_free_port = 49152; udp_binds = (53, []) ∷ [] };
  sent = [];
  released = [];
}

abbrev whole : List ℕ → Packet
whole bytes = record { memory = bytes; len = length bytes }

send_udp-recv_udp_example :
    (pk : Packet) × (send_udp some_addr hello empty ≡ returns (some (0, 2), pk))
    × (recv_udp capacity empty take_datagram 53 (some pk) device
        ≡ returns (some (some_addr, hello), release pk device))
send_udp-recv_udp_example =
    send_udp-recv_udp capacity empty some_addr hello page device some_addr-IsAddress size
      (omega arith) refl

-- A reply of `mac_a`, which has the address 10.0.0.1.
abbrev reply_bytes : List ℕ
reply_bytes = frame mac_b mac_a 0x0806 (
    be16 1
    ++ (be16 0x0800
        ++ (6 ∷ 4 ∷ (be16 2 ++ (mac_a ++ (be32 0x0A000001 ++ (mac_b ++ be32 0x0A000002)))))))

raw-reply_bytes : raw (whole reply_bytes) ≡ returns reply_bytes
unfolding raw
raw-reply_bytes = refl

raw-hello : raw (whole hello) ≡ returns hello
unfolding raw
raw-hello = refl

arp-first_round_example :
    (d' : Device) × (arp capacity empty 0x0A000001
        ((whole hello ∷ []) ∷ (whole reply_bytes ∷ []) ∷ [])
        device
      ≡ returns
          (first_round 0x0A000001 0x0A000002 mac_b ((hello ∷ []) ∷ (reply_bytes ∷ []) ∷ []), d'))
    × Keeps device d'
arp-first_round_example =
    arp-first_round capacity page refl size 0x0A000001 0x0A000002
      ((whole hello ∷ []) ∷ (whole reply_bytes ∷ []) ∷ []) ((hello ∷ []) ∷ (reply_bytes ∷ []) ∷ [])
      device ((raw-hello, tt), ((raw-reply_bytes, tt), tt)) (refl, tt) refl refl

-- That reply is found.
first_round_found :
    first_round 0x0A000001 0x0A000002 mac_b ((hello ∷ []) ∷ (reply_bytes ∷ []) ∷ []) ≡ some mac_a
unfolding first_round first_reply reply_in parse_arp parse_eth parse_u16 parse_mac is_valid_reply
first_round_found = refl

abbrev bound_device : Device
bound_device = record device {
  ports = record { next_free_port = 49153; udp_binds = (49152, []) ∷ [] };
}

-- The device after it has taken and bound its first port.
bound_device-Reachable : Reachable capacity empty take_datagram bound_device
unfolding next_free bind_udp_port
bound_device-Reachable =
    let new = record device { ports = record { next_free_port = 49152; udp_binds = [] } } in
    let took = record device { ports = record { next_free_port = 49153; udp_binds = [] } } in
    Steps.steps took bound_device
      (Steps.steps new took (Steps.starts new refl) (Steps.takes_port new)) (Steps.binds 49152 took)

-- That device once it has dropped a packet.
dropped : (d' : Device) × (discard capacity empty (whole hello) bound_device ≡ returns d')
dropped =
    let r =
      discard-IsReleased capacity page refl size (whole hello) bound_device hello (refl, tt) refl
        raw-hello in
    (r.0, r.1)

Reachable-IsIdle_example : IsIdle (dropped.0).ports
Reachable-IsIdle_example = Reachable-IsIdle capacity empty take_datagram (dropped.0) (
    Steps.steps bound_device (dropped.0) bound_device-Reachable
      (Steps.discards (whole hello) bound_device (dropped.0) dropped.1))

resolve-Carries_example :
    let addr = address 4000 53 0x0A000001 0x0A000002 mac_b mac_a in
    (d' : Device) × (p : Packet) × (resolve capacity empty 4000 53 0x0A000001
        ((whole hello ∷ []) ∷ (whole reply_bytes ∷ []) ∷ [])
        device
      ≡ returns (some addr, d'))
    × (send_udp addr hello empty ≡ returns (some (0, 2), p))
    × Carries addr hello p
resolve-Carries_example =
    resolve-Carries capacity page refl size 4000 53 0x0A000001 0x0A000002 mac_a hello
      ((whole hello ∷ []) ∷ (whole reply_bytes ∷ []) ∷ []) ((hello ∷ []) ∷ (reply_bytes ∷ []) ∷ [])
      device (omega arith, omega arith) (omega arith, omega arith) (omega arith)
      ((raw-hello, tt), ((raw-reply_bytes, tt), tt)) (refl, tt) refl refl first_round_found
