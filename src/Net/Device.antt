-- ===== src/Net/Device.antt =====
-- A network device: `recv_udp` and `discard_udp` of kernel/src/net/protocols/udp.rs, `arp` and
-- `discard_arp` of kernel/src/net/protocols/arp.rs, and `discard` of kernel/src/net/net.rs. The driver
-- is the packets that it receives and allocates; what it is given back is kept in order.
pub mod Quiet
pub mod Resolve
pub mod Receive
mod Unbound
pub mod Steps
pub mod Address
pub mod Timeout
pub mod Lease
mod Tests
use elise.Base.{
  ℕ, ◌+◌, Bool, true, false, ◌&&◌, Option, none, some, List, [], ◌∷◌, ◌++◌, length, ltb, ◌==◌,
  if◌then◌else◌, replicate,
}
use elise.Cursor.{Run, returns, panics}
use elise.Net.Packet.{Packet, parsed, refused, raw}
use elise.Net.Udp
use elise.Net.Udp.{parse_udp}
use elise.Net.Arp
use elise.Net.Arp.{
  request, reply, opcode_code, hw_type_eth, eth_type_ipv4, is_valid_reply, parse_arp,
  build_arp_packet,
}
use elise.Net.Ports.{Ports, Queues}

-- `client_ip` is that of the lease. `sent` and `released` are what the driver got.
pub record Device : Type 0 where
  pub mac : List ℕ
  pub client_ip : Option ℕ
  pub ports : Ports
  pub sent : List Packet
  pub released : List Packet

abbrev pub release : Packet → Device → Device
release pk d = record d { released = d.released ++ (pk ∷ []) }

abbrev pub send : Packet → Device → Device
send pk d = record d { sent = d.sent ++ (pk ∷ []) }

-- `binds.get_mut(&port)`, and the map once the queue is another
abbrev pub queue_at : ℕ → Queues → Option (List Packet)
queue_at port [] = none
queue_at port ((p, q) ∷ queues) =
    let rest = queue_at port queues in if p == port then some q else rest

abbrev pub set_queue : ℕ → List Packet → Queues → Queues
set_queue port new [] = []
set_queue port new ((p, q) ∷ queues) =
    let rest = set_queue port new queues in (p, if p == port then new else q) ∷ rest

abbrev pub set_binds : Queues → Device → Device
set_binds queues d = record d { ports = record d.ports { udp_binds = queues } }

infixl 5 ◌>>=◌
abbrev pub ◌>>=◌ : {A B : Type 0} → Run A → (A → Run B) → Run B
panics >>= f = panics
returns a >>= f = f a

-- A request for this address.
abbrev pub asks_for : ℕ → Arp.Parsed → Bool
asks_for ip arp =
    arp.opcode == opcode_code request
    && arp.hw_type == hw_type_eth
    && arp.proto_type == eth_type_ipv4
    && arp.hw_size == 6
    && arp.proto_size == 4
    && arp.target_ip == ip

-- `capacity` is that of a `VecDeque`, `allocated` what `allocate_packet` gives.
module _ (capacity : List Packet → ℕ) (allocated : Packet) where
  -- The packet is handed back where it is not ARP; otherwise its lease ends here.
  unfoldable pub discard_arp : Packet → Device → Run (Option Packet × Device)
  discard_arp pk d = do
    bytes ← raw pk
    elim (parse_arp bytes) [
      | refused _ ↦ returns (some pk, d)
      | parsed arp ↦ elim d.client_ip [
        | none ↦ returns (none, release pk d)
        | some ip ↦
            if asks_for ip arp
            then (do
              (_, answer) ← build_arp_packet allocated reply d.mac ip arp.sender_mac arp.sender_ip
              returns (none, release pk (send answer d)))
            else returns (none, release pk d)
      ]
    ]

  -- The option was emptied before: its second `take` gives `None`, and the `unwrap` panics.
  unfoldable pub discard_udp : Packet → Device → Run (Option Packet × Device)
  discard_udp pk d = do
    bytes ← raw pk
    elim (parse_udp bytes) [
      | refused _ ↦ returns (some pk, d)
      | parsed udp ↦ elim (queue_at udp.dst_port d.ports.udp_binds) [
        | none ↦ returns (none, release pk d)
        | some bind ↦
            if ltb (length bind) (capacity bind) then panics else returns (none, release pk d)
      ]
    ]

  -- The two in turn; a lease that neither takes ends with the call.
  unfoldable pub discard : Packet → Device → Run Device
  discard pk d = do
    (left, d) ← discard_arp pk d
    elim left [
      | none ↦ returns d
      | some pk ↦ (do
        (left, d) ← discard_udp pk d
        elim left [ none ↦ returns d | some pk ↦ returns (release pk d) ])
    ]

  module _ {T : Type 0} (func : Packet → Udp.Parsed → Option T) where
    -- The part of `recv_udp` behind the queue: `incoming` is what the driver has received.
    unfoldable pub recv_new : ℕ → Option Packet → Device → Run (Option T × Device)
    recv_new port none d = returns (none, d)
    recv_new port (some pk) d = do
      bytes ← raw pk
      elim (parse_udp bytes) [
        | refused _ ↦ (do d ← discard pk d; returns (none, d))
        | parsed udp ↦
            if udp.dst_port == port
            then returns (func pk udp, release pk d)
            else (do d ← discard pk d; returns (none, d))
      ]

    unfoldable pub recv_udp : ℕ → Option Packet → Device → Run (Option T × Device)
    recv_udp port incoming d = elim (queue_at port d.ports.udp_binds) [
      | none ↦ returns (none, d)
      | some [] ↦ recv_new port incoming d
      | some (pk ∷ queue) ↦ (do
        bytes ← raw pk
        elim (parse_udp bytes) [
          | refused _ ↦ panics
          | parsed udp ↦
              let d' = set_binds (set_queue port queue d.ports.udp_binds) d in
              returns (func pk udp, release pk d')
        ])
    ]

  -- The loop of one retry over the packets that arrive before its timeout.
  unfoldable pub await_reply : ℕ → ℕ → List Packet → Device → Run (Option (List ℕ) × Device)
  await_reply ip this_ip [] d = returns (none, d)
  await_reply ip this_ip (pk ∷ later) d = do
    bytes ← raw pk
    let next = (discard pk d >>= await_reply ip this_ip later)
    elim (parse_arp bytes) [
      | refused _ ↦ next
      | parsed arp ↦
          if is_valid_reply arp ip this_ip d.mac
          then returns (some arp.sender_mac, release pk d)
          else next
    ]

  -- The retries: one list of packets for each.
  unfoldable pub arp_rounds : ℕ → ℕ → List (List Packet) → Device → Run (Option (List ℕ) × Device)
  arp_rounds ip this_ip [] d = returns (none, d)
  arp_rounds ip this_ip (arrivals ∷ rounds) d =
      let rest = arp_rounds ip this_ip rounds in
      build_arp_packet allocated request d.mac this_ip (replicate 6 0) ip >>= λ (built, packet).
      elim built [
        | none ↦ returns (none, d)
        | some _ ↦ await_reply ip this_ip arrivals (send packet d) >>= λ (found, d). elim found [
          | none ↦ rest d
          | some mac ↦ returns (some mac, d)
        ]
      ]

  unfoldable pub arp : ℕ → List (List Packet) → Device → Run (Option (List ℕ) × Device)
  arp ip rounds d = elim d.client_ip [
    | none ↦ panics
    | some this_ip ↦ arp_rounds ip this_ip rounds d
  ]
