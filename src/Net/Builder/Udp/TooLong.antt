-- ===== src/Net/Builder/Udp/TooLong.antt =====
-- A payload that does not fit the packet: kernel/src/net/protocols/udp.rs.
use elise.Base.{
  ℕ, ◌+◌, ◌^◌, ◌<◌, ◌≡◌, arith, none, List, [], ◌++◌, length, length-drop, drop, replicate,
}
use elise.Net.Bytes.{be16}
use elise.Cursor.{returns}
use elise.Cursor.Write.{write_over_limit}
use elise.Net.Packet.{Packet, max_packet_len, write}
use elise.Net.Ip.{eth_type_ipv4, eth_type_ipv6}
use elise.Net.Builder.Ip
use elise.Net.Builder.Ip.{IpAddr, v4, v6}
use elise.Net.Builder.Region.{region, HasRoom, region-IsValid}
use elise.Net.Builder.V4.Written.{sealed}
use elise.Net.Builder.Ip.Written.{frame_header, marked_builder_v4, marked_builder_v6}
use elise.Net.Builder.Udp.{NetAddress, send_udp, write_payload, udp_checksum}
use elise.Net.Builder.Udp.Written.{ready, ports, addr_v4, addr_v6, create_udp-v4, create_udp-v6}
use elise.Net.Builder.Udp.Sent.{drop_builder-v4, drop_builder-v6}
use elise.Net.Builder.Udp.Carries.{AreAddresses, IsAddress, Carries, headers}
use elise.Net.Builder.Udp.RoundTrip.{Carries-v4, Carries-v6}

write_payload-over :
    (frame : List ℕ) (ip : Ip.Builder) (src_port dst_port base : ℕ) (memory buf : List ℕ)
    → HasRoom base 0 memory
    → max_packet_len < base + length buf
    → length buf < 2 ^ 63
    → write_payload buf (ready frame ip src_port dst_port base [] memory)
      ≡ returns (none, ready frame ip src_port dst_port base [] memory)
unfolding write_payload write
write_payload-over frame ip src_port dst_port base memory buf h over short = rw (
  write,
  write_over_limit buf (region base [] memory).inner (region-IsValid base [] memory h) short
      (omega arith),
)

module _ (dst_mac src_mac memory payload : List ℕ) (src_port dst_port : ℕ) (n : length dst_mac ≡ 6)
    (m : length src_mac ≡ 6) (size : length memory ≡ 4096) (p : src_port < 2 ^ 16)
    (q : dst_port < 2 ^ 16) (short : length payload < 2 ^ 63) where
  send_udp_over_v4 :
      (src dst : ℕ)
      → max_packet_len < 42 + length payload
      → src < 2 ^ 32
      → dst < 2 ^ 32
      → let addr = addr_v4 src_mac src src_port dst_mac dst dst_port in
        (sent : Packet) × (send_udp addr payload (record { memory = memory; len = 0 })
          ≡ returns (none, sent))
        × Carries addr [] sent
  unfolding send_udp
  send_udp_over_v4 src dst over hs hd = (
    _,
    rw (
      send_udp,
      create_udp-v4 dst_mac src_mac memory src_port dst_port n m size src dst,
      write_payload-over (frame_header dst_mac src_mac eth_type_ipv4)
          (marked_builder_v4 0x11 src dst) src_port dst_port 42 (drop 42 memory) payload
          (omega (arith, length-drop 42 memory)) over short,
      drop_builder-v4 (frame_header dst_mac src_mac eth_type_ipv4) src_port dst_port 42
          (drop 42 memory) src dst [] (omega arith) (omega arith),
    ),
    Carries-v4 dst_mac src_mac memory [] src_port dst_port n m size p q src dst
        (sealed 28 0x11 src dst) 0 (drop 42 memory) (omega arith) hs hd,
  )

  send_udp_over_v6 :
      (src dst : List ℕ)
      → max_packet_len < 62 + length payload
      → length src ≡ 16
      → length dst ≡ 16
      → let addr = addr_v6 src_mac src src_port dst_mac dst dst_port in
        (sent : Packet) × (send_udp addr payload (record { memory = memory; len = 0 })
          ≡ returns (none, sent))
        × Carries addr [] sent
  unfolding send_udp
  send_udp_over_v6 src dst over hs hd = (
    _,
    rw (
      send_udp,
      create_udp-v6 dst_mac src_mac memory src_port dst_port n m size src dst hs hd,
      write_payload-over (frame_header dst_mac src_mac eth_type_ipv6)
          (marked_builder_v6 0x11 src dst) src_port dst_port 62 (drop 62 memory) payload
          (omega (arith, length-drop 62 memory)) over short,
      drop_builder-v6 (frame_header dst_mac src_mac eth_type_ipv6) src_port dst_port 62
          (drop 62 memory) src dst [] hs hd (omega arith) (omega arith),
    ),
    Carries-v6 dst_mac src_mac memory [] src_port dst_port n m size p q src dst
        (udp_checksum src dst (ports src_port dst_port ++ (be16 8 ++ replicate 2 0)) [])
        (drop 62 memory) (omega arith) hs hd,
  )

-- A payload that does not fit `max_packet_len` bytes with its headers, given to a builder over an empty
-- packet with 4096 bytes of memory, is refused, and the packet carries an empty datagram once the builder
-- is dropped; the address has fields in their types, and the payload fits the address space.
pub send_udp-Carries_empty :
    (addr : NetAddress) (payload memory : List ℕ)
    → IsAddress addr
    → length memory ≡ 4096
    → max_packet_len < headers addr.src_ip + length payload
    → length payload < 2 ^ 63
    → (sent : Packet) × (send_udp addr payload (record { memory = memory; len = 0 })
        ≡ returns (none, sent))
      × Carries addr [] sent
send_udp-Carries_empty addr payload memory h size over short =
    by_version addr.src_ip addr.dst_ip h.ips over
  where
    with_ips : IpAddr → IpAddr → NetAddress
    with_ips src dst = record addr { src_ip = src; dst_ip = dst }

    by_version :
        (src dst : IpAddr)
        → AreAddresses src dst
        → max_packet_len < headers src + length payload
        → (sent : Packet) × (send_udp
              (with_ips src dst)
              payload
              (record { memory = memory; len = 0 })
            ≡ returns (none, sent))
          × Carries (with_ips src dst) [] sent
    by_version (v4 src) (v4 dst) (hs, hd) k =
        send_udp_over_v4 addr.dst_mac addr.src_mac memory payload addr.src_port addr.dst_port
          h.macs.1 h.macs.0 size h.ports_fit.0 h.ports_fit.1 short src dst k hs hd
    by_version (v6 src) (v6 dst) (hs, hd) k =
        send_udp_over_v6 addr.dst_mac addr.src_mac memory payload addr.src_port addr.dst_port
          h.macs.1 h.macs.0 size h.ports_fit.0 h.ports_fit.1 short src dst k hs hd
    by_version (v4 _) (v6 _) h k = absurd h
    by_version (v6 _) (v4 _) h k = absurd h
