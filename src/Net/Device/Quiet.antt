-- ===== src/Net/Device/Quiet.antt =====
-- What a device of kernel/src/net does with the packets it does not want.
use elise.Base.{
  ℕ, ◌≡◌, refl, ◌⊎◌, inl, inr, arith, Bool-cases, Option-cases, none, some, List, [], ◌∷◌, ◌++◌,
  length,
}
use elise.Cursor.{returns}
use elise.Net.Packet.{Packet, Parse, parsed, refused, raw, ParseError}
use elise.Net.Udp.{parse_udp}
use elise.Net.Udp
use elise.Net.Arp
use elise.Net.Arp.{reply, parse_arp, build_arp_packet}
use elise.Net.Arp.Built.{build_arp_packet_unreadable}
use elise.Net.Ports.{Queues}
use elise.Net.Device.{Device, queue_at, release, asks_for, discard_arp, discard_udp, discard, send}

-- Nothing waits at any port.
abbrev pub AreEmpty : Queues → Type 0
AreEmpty [] = Unit {0}
AreEmpty ((p, q) ∷ queues) = (q ≡ []) × AreEmpty queues

pub queue_at-AreEmpty :
    (port : ℕ) (queues : Queues)
    → AreEmpty queues
    → (queue_at port queues ≡ none) ⊎ (queue_at port queues ≡ some [])
queue_at-AreEmpty port [] h = inl refl
queue_at-AreEmpty port ((p, q) ∷ queues) (e, h) = ground (arith, queue_at-AreEmpty port queues h)

pub parse_arp-sender :
    (bytes : List ℕ) (p : Arp.Parsed) → parse_arp bytes ≡ parsed p → length p.sender_mac ≡ 6
unfolding parse_arp
parse_arp-sender bytes p e = ground arith

pub Parse-cases :
    {A : Type 0} (m : Parse A) → ((a : A) × (m ≡ parsed a)) ⊎ ((e : ParseError) × (m ≡ refused e))
Parse-cases (parsed a) = inl (a, refl)
Parse-cases (refused e) = inr (e, refl)

-- The packet goes back to the driver, and the device sends at most one packet.
pub record IsReleased (pk : Packet) (d d' : Device) : Type 0 where
  pub given_back : d'.released ≡ d.released ++ (pk ∷ [])
  pub same_ports : d'.ports ≡ d.ports
  pub same_mac : d'.mac ≡ d.mac
  pub same_lease : d'.client_ip ≡ d.client_ip
  pub answers : (d'.sent ≡ d.sent) ⊎ ((answer : Packet) × (d'.sent ≡ d.sent ++ (answer ∷ [])))

pub release-IsReleased : (pk : Packet) (d : Device) → IsReleased pk d (release pk d)
release-IsReleased pk d = record {
  given_back = refl;
  same_ports = refl;
  same_mac = refl;
  same_lease = refl;
  answers = inl refl;
}

module _ (capacity : List Packet → ℕ) (memory : List ℕ) (none_yet : capacity [] ≡ 0)
    (size : length memory ≡ 4096) where
  abbrev allocated : Packet
  allocated = record { memory = memory; len = 0 }

  pub discard_udp-release :
      (pk : Packet) (d : Device) (bytes : List ℕ) (p : Udp.Parsed)
      → AreEmpty d.ports.udp_binds
      → raw pk ≡ returns bytes
      → parse_udp bytes ≡ parsed p
      → discard_udp capacity allocated pk d ≡ returns (none, release pk d)
  unfolding discard_udp
  discard_udp-release pk d bytes p quiet e u =
      elim (queue_at-AreEmpty p.dst_port d.ports.udp_binds quiet) [
        | inl q ↦ ground arith
        | inr q ↦ ground arith
      ]

  pub discard_udp_back :
      (pk : Packet) (d : Device) (bytes : List ℕ) {e : ParseError}
      → raw pk ≡ returns bytes
      → parse_udp bytes ≡ refused e
      → discard_udp capacity allocated pk d ≡ returns (some pk, d)
  unfolding discard_udp
  discard_udp_back pk d bytes e u = ground arith

  pub discard_arp_back :
      (pk : Packet) (d : Device) (bytes : List ℕ) {e : ParseError}
      → raw pk ≡ returns bytes
      → parse_arp bytes ≡ refused e
      → discard_arp capacity allocated pk d ≡ returns (some pk, d)
  unfolding discard_arp
  discard_arp_back pk d bytes e a = ground arith

  discard_arp-IsReleased :
      (pk : Packet) (d : Device) (bytes : List ℕ) (p : Arp.Parsed)
      → length d.mac ≡ 6
      → raw pk ≡ returns bytes
      → parse_arp bytes ≡ parsed p
      → (d' : Device) × (discard_arp capacity allocated pk d ≡ returns (none, d'))
        × IsReleased pk d d'
  unfolding discard_arp
  discard_arp-IsReleased pk d bytes p six e a = elim (Option-cases d.client_ip) [
    | inl no_lease ↦ (release pk d, ground arith, release-IsReleased pk d)
    | inr (ip, lease) ↦ elim (Bool-cases (asks_for ip p)) [
      | inl asked ↦
          let (answer, built, _, _, _) =
            build_arp_packet_unreadable reply d.mac ip p.sender_mac p.sender_ip six
              (parse_arp-sender bytes p a) memory size in
          (
            release pk (send answer d),
            ground arith,
            record {
              given_back = refl;
              same_ports = refl;
              same_mac = refl;
              same_lease = refl;
              answers = inr (answer, refl);
            },
          )
      | inr other ↦ (release pk d, ground arith, release-IsReleased pk d)
    ]
  ]

  -- `discard` returns, with the packet given back to the driver and at most one answer sent, where nothing
  -- waits at any port, the packet's length is within its memory, the hardware address has six bytes, and
  -- the driver allocates empty packets with 4096 bytes of memory; a new queue has no capacity.
  pub discard-IsReleased :
      (pk : Packet) (d : Device) (bytes : List ℕ)
      → AreEmpty d.ports.udp_binds
      → length d.mac ≡ 6
      → raw pk ≡ returns bytes
      → (d' : Device) × (discard capacity allocated pk d ≡ returns d') × IsReleased pk d d'
  unfolding discard
  discard-IsReleased pk d bytes quiet six e = elim (Parse-cases (parse_arp bytes)) [
    | inl (p, a) ↦
        let (d', done, r) = discard_arp-IsReleased pk d bytes p six e a in
        (d', rw (discard, done), r)
    | inr (_, a) ↦ elim (Parse-cases (parse_udp bytes)) [
      | inl (p, u) ↦ (
        release pk d,
        rw (discard, discard_arp_back pk d bytes e a, discard_udp-release pk d bytes p quiet e u),
        release-IsReleased pk d,
      )
      | inr (_, u) ↦ (
        release pk d,
        rw (discard, discard_arp_back pk d bytes e a, discard_udp_back pk d bytes e u),
        release-IsReleased pk d,
      )
    ]
  ]
