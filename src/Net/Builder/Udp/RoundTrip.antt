-- ===== src/Net/Builder/Udp/RoundTrip.antt =====
-- The packets that the builder of kernel/src/net/protocols/udp.rs makes, given to its parser.
use elise.Base.{
  ℕ, ◌+◌, ◌^◌, ◌≤◌, ◌<◌, ◌≡◌, refl, arith, some, List, [], ◌++◌, length, length-append, length-drop,
  drop, append-nil, replicate,
}
use elise.Cursor.{returns}
use elise.Net.Bytes.{be16}
use elise.Net.Packet.{Packet, max_packet_len}
use elise.Net.Ip.{eth_type_ipv4, eth_type_ipv6}
use elise.Net.Ip.RoundTrip.{Unread, header_v4, header_v6}
use elise.Net.Udp.{datagram, parse_udp-datagram}
use elise.Net.Udp.V6.{parse_udp-datagram_v6}
use elise.Net.Builder.V4.Written.{sealed}
use elise.Net.Builder.Ip.{IpAddr, v4, v6}
use elise.Net.Builder.Ip.Written.{frame_header, marked_builder_v4, marked_builder_v6}
use elise.Net.Builder.Udp.{NetAddress, send_udp, udp_checksum}
use elise.Net.Builder.Udp.Written.{ports, addr_v4, addr_v6, create_udp-v4, create_udp-v6}
use elise.Net.Builder.Udp.Carries.{AreAddresses, IsAddress, Carries, Carries-sent, headers}
use elise.Net.Builder.Udp.Sent.{sent, write_payload-ready, drop_builder-v4, drop_builder-v6}

module _ (dst_mac src_mac memory payload : List ℕ) (src_port dst_port : ℕ) (n : length dst_mac ≡ 6)
    (m : length src_mac ≡ 6) (size : length memory ≡ 4096) (p : src_port < 2 ^ 16)
    (q : dst_port < 2 ^ 16) where
  abbrev empty : Packet
  empty = record { memory = memory; len = 0 }

  pub send_udp-v4 :
      (src dst : ℕ)
      → 42 + length payload ≤ 1514
      → src < 2 ^ 32
      → dst < 2 ^ 32
      → let len = 28 + length payload in
        send_udp (addr_v4 src_mac src src_port dst_mac dst dst_port) payload empty
        ≡ returns (
          some (0, length payload),
          sent
              (frame_header dst_mac src_mac eth_type_ipv4)
              src_port
              dst_port
              42
              (drop 42 memory)
              (header_v4 (sealed len 0x11 src dst) len 0x11 src dst)
              payload
              0,
        )
  unfolding send_udp
  send_udp-v4 src dst fits hs hd = rw (
    send_udp,
    create_udp-v4 dst_mac src_mac memory src_port dst_port n m size src dst,
    write_payload-ready (frame_header dst_mac src_mac eth_type_ipv4) src_port dst_port 42
        (drop 42 memory) (marked_builder_v4 0x11 src dst) payload
        (omega (arith, length-drop 42 memory)),
    drop_builder-v4 (frame_header dst_mac src_mac eth_type_ipv4) src_port dst_port 42
        (drop 42 memory) src dst payload (omega (arith, length-drop 42 memory)) (omega arith),
  )

  pub send_udp-v6 :
      (src dst : List ℕ)
      → 62 + length payload ≤ 1514
      → length src ≡ 16
      → length dst ≡ 16
      → let len = 8 + length payload in
        send_udp (addr_v6 src_mac src src_port dst_mac dst dst_port) payload empty
        ≡ returns (
          some (0, length payload),
          sent
              (frame_header dst_mac src_mac eth_type_ipv6)
              src_port
              dst_port
              62
              (drop 62 memory)
              (header_v6 0 0 0 len 0x11 64 src dst)
              payload
              (udp_checksum src dst
                (ports src_port dst_port ++ (be16 len ++ replicate 2 0))
                payload),
        )
  unfolding send_udp
  send_udp-v6 src dst fits hs hd = rw (
    send_udp,
    create_udp-v6 dst_mac src_mac memory src_port dst_port n m size src dst hs hd,
    write_payload-ready (frame_header dst_mac src_mac eth_type_ipv6) src_port dst_port 62
        (drop 62 memory) (marked_builder_v6 0x11 src dst) payload
        (omega (arith, length-drop 62 memory)),
    drop_builder-v6 (frame_header dst_mac src_mac eth_type_ipv6) src_port dst_port 62
        (drop 62 memory) src dst payload hs hd (omega (arith, length-drop 62 memory)) (omega arith),
  )

  pub Carries-v4 :
      (src dst : ℕ) (u : Unread) (crc : ℕ) (rest : List ℕ)
      → 42 + length payload ≤ 1514
      → src < 2 ^ 32
      → dst < 2 ^ 32
      → Carries (addr_v4 src_mac src src_port dst_mac dst dst_port) payload (record {
        memory =
            frame_header dst_mac src_mac eth_type_ipv4
            ++ (header_v4 u (28 + length payload) 0x11 src dst
                ++ (datagram src_port dst_port crc payload ++ rest));
        len = 42 + length payload;
      })
  Carries-v4 src dst u crc rest fits hs hd =
      let len : 20 + length (datagram src_port dst_port crc payload) ≡ 28 + length payload =
        omega arith in
      Carries-sent (addr_v4 src_mac src src_port dst_mac dst dst_port) payload
        (header_v4 u (28 + length payload) 0x11 src dst) (datagram src_port dst_port crc payload)
        rest eth_type_ipv4 _ m n (omega arith)
        (rw (append-nil payload, append-nil payload, len) at
          (parse_udp-datagram dst_mac src_mac u src dst src_port dst_port crc payload [] [] n m hs
            hd p q (omega arith)))
        refl refl

  pub Carries-v6 :
      (src dst : List ℕ) (crc : ℕ) (rest : List ℕ)
      → 62 + length payload ≤ 1514
      → length src ≡ 16
      → length dst ≡ 16
      → Carries (addr_v6 src_mac src src_port dst_mac dst dst_port) payload (record {
        memory =
            frame_header dst_mac src_mac eth_type_ipv6
            ++ (header_v6 0 0 0 (8 + length payload) 0x11 64 src dst
                ++ (datagram src_port dst_port crc payload ++ rest));
        len = 62 + length payload;
      })
  Carries-v6 src dst crc rest fits hs hd =
      let len : length (datagram src_port dst_port crc payload) ≡ 8 + length payload =
        omega arith in
      Carries-sent (addr_v6 src_mac src src_port dst_mac dst dst_port) payload
        (header_v6 0 0 0 (8 + length payload) 0x11 64 src dst)
        (datagram src_port dst_port crc payload) rest eth_type_ipv6 _ m n
        (omega (arith, length-append src dst))
        (rw (append-nil payload, len) at
          (parse_udp-datagram_v6 0 0 0 64 dst_mac src_mac src dst src_port dst_port crc payload [] n
            m hs hd p q (omega arith)))
        refl refl

-- A packet that is created for an address of fields in their types, is given a payload that fits
-- `max_packet_len` bytes with its headers, and is dropped, starts out empty with 4096 bytes of memory:
-- then its write succeeds, its length counts the headers and the payload, and `parse_udp` reads from its
-- bytes the hardware addresses, the IP addresses, the ports and the payload, over IPv4 and over IPv6.
pub send_udp-Carries :
    (addr : NetAddress) (payload memory : List ℕ)
    → IsAddress addr
    → length memory ≡ 4096
    → headers addr.src_ip + length payload ≤ max_packet_len
    → (p : Packet) × (send_udp addr payload (record { memory = memory; len = 0 })
        ≡ returns (some (0, length payload), p))
      × Carries addr payload p
send_udp-Carries addr payload memory h size fits = by_version addr.src_ip addr.dst_ip h.ips fits
  where
    with_ips : IpAddr → IpAddr → NetAddress
    with_ips src dst = record addr { src_ip = src; dst_ip = dst }

    by_version :
        (src dst : IpAddr)
        → AreAddresses src dst
        → headers src + length payload ≤ max_packet_len
        → (p : Packet) × (send_udp (with_ips src dst) payload (record { memory = memory; len = 0 })
            ≡ returns (some (0, length payload), p))
          × Carries (with_ips src dst) payload p
    by_version (v4 src) (v4 dst) (hs, hd) k = (
      _,
      send_udp-v4 addr.dst_mac addr.src_mac memory payload addr.src_port addr.dst_port h.macs.1
          h.macs.0 size h.ports_fit.0 h.ports_fit.1 src dst k hs hd,
      Carries-v4 addr.dst_mac addr.src_mac memory payload addr.src_port addr.dst_port h.macs.1
          h.macs.0 size h.ports_fit.0 h.ports_fit.1 src dst
          (sealed (28 + length payload) 0x11 src dst) 0 (drop (length payload) (drop 42 memory)) k
          hs hd,
    )
    by_version (v6 src) (v6 dst) (hs, hd) k = (
      _,
      send_udp-v6 addr.dst_mac addr.src_mac memory payload addr.src_port addr.dst_port h.macs.1
          h.macs.0 size h.ports_fit.0 h.ports_fit.1 src dst k hs hd,
      Carries-v6 addr.dst_mac addr.src_mac memory payload addr.src_port addr.dst_port h.macs.1
          h.macs.0 size h.ports_fit.0 h.ports_fit.1 src dst
          (udp_checksum src dst
            (ports addr.src_port addr.dst_port ++ (be16 (8 + length payload) ++ replicate 2 0))
            payload)
          (drop (length payload) (drop 62 memory)) k hs hd,
    )
    by_version (v4 _) (v6 _) h k = absurd h
    by_version (v6 _) (v4 _) h k = absurd h
