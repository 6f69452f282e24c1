-- ===== src/Net/Udp/V6.antt =====
-- `parse_udp` of kernel/src/net/protocols/udp.rs over IPv6.
use elise.Base.{ℕ, ◌+◌, ◌^◌, ◌<◌, ◌≡◌, refl, arith, List, [], length, append-nil, take, take-append}
use elise.Net.Packet.{unsupported_version, parsed, refused}
use elise.Net.Eth.{frame, parse_eth-frame}
use elise.Net.Ip
use elise.Net.Ip.{v6, parse_ip, parse_ipv4, parse_ipv6, payload_of, eth_type_ipv6}
use elise.Net.Ip.RoundTrip.{body_v6, parse_ipv6-packet}
use elise.Net.Udp.{ip_prot_udp, datagram, parse_udp_datagram, parse_udp}

-- A frame of another type is not IPv4.
parse_ipv4_of_v6 :
    (dst_mac src_mac payload : List ℕ)
    → length dst_mac ≡ 6
    → length src_mac ≡ 6
    → parse_ipv4 (frame dst_mac src_mac eth_type_ipv6 payload) ≡ refused unsupported_version
unfolding parse_ipv4
parse_ipv4_of_v6 dst_mac src_mac payload n m =
    rw (parse_ipv4, parse_eth-frame dst_mac src_mac eth_type_ipv6 payload n m (omega arith))

pub parse_udp_datagram-datagram :
    (ip : Ip.Parsed) (src_port dst_port crc : ℕ) (payload : List ℕ)
    → payload_of ip ≡ datagram src_port dst_port crc payload
    → src_port < 2 ^ 16
    → dst_port < 2 ^ 16
    → 8 + length payload < 2 ^ 16
    → parse_udp_datagram ip
      ≡ parsed (record { ip = ip; src_port = src_port; dst_port = dst_port; payload = payload })
unfolding parse_udp_datagram
parse_udp_datagram-datagram ip src_port dst_port crc payload e p q fits = rw e (ground (arith, all))
  where
    all : take (length payload) payload ≡ payload
    all = rw (append-nil payload) at (take-append payload [] (length payload) refl)

-- `parse_udp` reads the ports and the payload of every datagram that is the payload of an IPv6 packet.
pub parse_udp-datagram_v6 :
    (class flow_high flow_low hops : ℕ) (dst_mac src_mac src dst : List ℕ)
    (src_port dst_port crc : ℕ) (payload padding : List ℕ)
    → length dst_mac ≡ 6
    → length src_mac ≡ 6
    → length src ≡ 16
    → length dst ≡ 16
    → src_port < 2 ^ 16
    → dst_port < 2 ^ 16
    → 8 + length payload < 2 ^ 16
    → let body = datagram src_port dst_port crc payload in
      let bytes = body_v6 class flow_high flow_low hops ip_prot_udp src dst body padding in
      parse_udp (frame dst_mac src_mac eth_type_ipv6 bytes)
      ≡ parsed (record {
        ip = v6 (record {
          eth = record {
            dst_mac = dst_mac;
            src_mac = src_mac;
            eth_type = eth_type_ipv6;
            payload = bytes;
          };
          src_ip = src;
          dst_ip = dst;
          next_header = ip_prot_udp;
          payload = body;
        });
        src_port = src_port;
        dst_port = dst_port;
        payload = payload;
      })
unfolding parse_udp parse_ip
parse_udp-datagram_v6 class flow_high flow_low hops dst_mac src_mac src dst src_port dst_port crc
      payload padding n m hs hd p q fits =
    let body = datagram src_port dst_port crc payload in
    rw
      (
        parse_udp,
        parse_ip,
        parse_ipv4_of_v6 dst_mac src_mac
            (body_v6 class flow_high flow_low hops ip_prot_udp src dst body padding) n m,
        parse_ipv6-packet class flow_high flow_low hops dst_mac src_mac ip_prot_udp src dst body
            padding n m hs hd (omega arith),
      )
      (parse_udp_datagram-datagram _ src_port dst_port crc payload refl p q fits)
