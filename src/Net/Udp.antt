-- ===== src/Net/Udp.antt =====
-- `parse_udp` of kernel/src/net/protocols/udp.rs.
pub mod V6
use elise.Base.{
  ℕ, ◌+◌, ◌-◌, ◌/◌, ◌%◌, ◌^◌, ◌<◌, ◌≡◌, arith, ◌&&◌, List, ◌∷◌, ◌++◌, length, leb, ◌==◌, take, drop,
  take-append, length-append,
}
use elise.Net.Bytes.{get_range}
use elise.Net.Packet.{
  truncated_packet, invalid_ip_protocol, invalid_length, Parse, parsed, ◌>>=◌, ◌>>◌, ok_or,
  parse_u16,
}
use elise.Net.Ip
use elise.Net.Ip.{
  check, parse_ip, protocol_of, payload_of, parse_ipv4, parse_ipv4_header, v4, eth_type_ipv4,
}
use elise.Net.Ip.RoundTrip.{Unread, header_v4, packet_v4, parse_ipv4-packet}

abbrev pub ip_prot_udp : ℕ
ip_prot_udp = 0x11

pub record Parsed : Type 0 where
  pub ip : Ip.Parsed
  pub src_port : ℕ
  pub dst_port : ℕ
  pub payload : List ℕ

-- The part of `parse_udp` behind the protocol test.
unfoldable pub parse_udp_datagram : Ip.Parsed → Parse Parsed
unfolding parse_u16
parse_udp_datagram ip = do
  header ← ok_or (get_range 0 8 (payload_of ip)) truncated_packet
  src_port ← parse_u16 (get_range 0 2 header)
  dst_port ← parse_u16 (get_range 2 4 header)
  len ← parse_u16 (get_range 4 6 header)
  check (leb (length header) len && leb len (length (payload_of ip))) invalid_length
  parsed (record {
    ip = ip;
    src_port = src_port;
    dst_port = dst_port;
    payload = take (len - 8) (drop 8 (payload_of ip));
  })

unfoldable pub parse_udp : List ℕ → Parse Parsed
unfolding parse_udp_datagram
parse_udp raw = do
  ip ← parse_ip raw
  check (protocol_of ip == ip_prot_udp) invalid_ip_protocol
  parse_udp_datagram ip

-- A datagram: the ports, its length in all, a checksum, which the parser does not read, and the payload.
abbrev pub datagram : ℕ → ℕ → ℕ → List ℕ → List ℕ
datagram src_port dst_port crc payload =
    src_port / 2 ^ 8 % 2 ^ 8
    ∷ src_port % 2 ^ 8
    ∷ dst_port / 2 ^ 8 % 2 ^ 8
    ∷ dst_port % 2 ^ 8
    ∷ (8 + length payload) / 2 ^ 8 % 2 ^ 8
    ∷ (8 + length payload) % 2 ^ 8
    ∷ crc / 2 ^ 8 % 2 ^ 8
    ∷ crc % 2 ^ 8
    ∷ payload

parse_ip-v4 :
    (raw : List ℕ) {p : Ip.ParsedV4} → parse_ipv4 raw ≡ parsed p → parse_ip raw ≡ parsed (v4 p)
unfolding parse_ip
parse_ip-v4 raw h = rw (parse_ip, h)

-- `parse_udp` reads the ports and the payload of every datagram in an IPv4 packet of less than 2^16
-- bytes, with addresses and ports that fit their fields, and cuts off what follows the datagram in the
-- IPv4 packet and the padding of the frame.
pub parse_udp-datagram :
    (dst_mac src_mac : List ℕ) (u : Unread) (src dst src_port dst_port crc : ℕ)
    (payload trailing padding : List ℕ)
    → length dst_mac ≡ 6
    → length src_mac ≡ 6
    → src < 2 ^ 32
    → dst < 2 ^ 32
    → src_port < 2 ^ 16
    → dst_port < 2 ^ 16
    → 28 + length payload + length trailing < 2 ^ 16
    → let body = datagram src_port dst_port crc payload ++ trailing in
      parse_udp (packet_v4 dst_mac src_mac u ip_prot_udp src dst body padding)
      ≡ parsed (record {
        ip = v4 (record {
          eth = record {
            dst_mac = dst_mac;
            src_mac = src_mac;
            eth_type = eth_type_ipv4;
            payload = header_v4 u (20 + length body) ip_prot_udp src dst ++ (body ++ padding);
          };
          src_ip = src;
          dst_ip = dst;
          protocol = ip_prot_udp;
          payload = body;
        });
        src_port = src_port;
        dst_port = dst_port;
        payload = payload;
      })
unfolding parse_udp
parse_udp-datagram dst_mac src_mac u src dst src_port dst_port crc payload trailing padding n m hs
      hd p q fits =
    rw
      (
        parse_udp,
        parse_ip-v4 _ (
            parse_ipv4-packet dst_mac src_mac u ip_prot_udp src dst
              (datagram src_port dst_port crc payload ++ trailing) padding n m hs hd
              (omega (arith, length-append payload trailing))),
      )
      (ground (
        arith,
        take-append payload trailing (length payload) (omega arith),
        length-append payload trailing,
      ))
