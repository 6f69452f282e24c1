-- ===== src/Net/Ip/RoundTrip.antt =====
-- The parsers of kernel/src/net/protocols/ip against the layout of the headers.
use elise.Base.{
  ℕ, ◌+◌, ◌-◌, ◌/◌, ◌%◌, ◌^◌, ◌<◌, ◌≡◌, arith, Bool, List, [], ◌∷◌, ◌++◌, length, take, drop,
  take-append, drop-append, append-nil, length-append, le→leb, if◌then◌else◌,
}
use elise.Net.Bytes.{be32}
use elise.Net.Packet.{parsed}
use elise.Net.Eth.{frame, parse_eth-frame}
use elise.Net.Ip.{eth_type_ipv4, eth_type_ipv6, parse_ipv4, parse_ipv6}

-- The fields of an IPv4 header without options that the parser does not read.
pub record Unread : Type 0 where
  pub service : ℕ
  pub identification : ℕ
  pub dont_fragment : Bool
  pub ttl : ℕ
  pub crc : ℕ

-- The header of an unfragmented IPv4 packet of `len` bytes in all.
abbrev pub header_v4 : Unread → ℕ → ℕ → ℕ → ℕ → List ℕ
header_v4 u len protocol src dst =
    0x45
    ∷ u.service
    ∷ len / 2 ^ 8 % 2 ^ 8
    ∷ len % 2 ^ 8
    ∷ u.identification / 2 ^ 8 % 2 ^ 8
    ∷ u.identification % 2 ^ 8
    ∷ (if u.dont_fragment then 0x40 else 0)
    ∷ 0
    ∷ u.ttl
    ∷ protocol
    ∷ u.crc / 2 ^ 8 % 2 ^ 8
    ∷ u.crc % 2 ^ 8
    ∷ (be32 src ++ be32 dst)

-- An IPv4 packet in an Ethernet frame, which may be padded.
abbrev pub packet_v4 : List ℕ → List ℕ → Unread → ℕ → ℕ → ℕ → List ℕ → List ℕ → List ℕ
packet_v4 dst_mac src_mac u protocol src dst payload padding =
    frame dst_mac src_mac eth_type_ipv4
      (header_v4 u (20 + length payload) protocol src dst ++ (payload ++ padding))

-- `parse_ipv4` reads back every unfragmented packet without options, with addresses of six and four
-- bytes and less than 2^16 bytes long, and cuts the padding of the frame off.
pub parse_ipv4-packet :
    (dst_mac src_mac : List ℕ) (u : Unread) (protocol src dst : ℕ) (payload padding : List ℕ)
    → length dst_mac ≡ 6
    → length src_mac ≡ 6
    → src < 2 ^ 32
    → dst < 2 ^ 32
    → 20 + length payload < 2 ^ 16
    → parse_ipv4 (packet_v4 dst_mac src_mac u protocol src dst payload padding)
      ≡ parsed (record {
        eth = record {
          dst_mac = dst_mac;
          src_mac = src_mac;
          eth_type = eth_type_ipv4;
          payload = header_v4 u (20 + length payload) protocol src dst ++ (payload ++ padding);
        };
        src_ip = src;
        dst_ip = dst;
        protocol = protocol;
        payload = payload;
      })
unfolding parse_ipv4
parse_ipv4-packet dst_mac src_mac u protocol src dst payload padding n m hs hd fits =
    rw
      (
        parse_ipv4,
        parse_eth-frame dst_mac src_mac eth_type_ipv4
            (header_v4 u (20 + length payload) protocol src dst ++ (payload ++ padding)) n m
            (omega arith),
      )
      (ground (
        arith,
        take-append payload padding (20 + length payload - 20) (omega arith),
        length-append payload padding,
      ))

-- The header of an IPv6 packet, with its traffic class, flow label and hop limit free.
abbrev pub header_v6 : ℕ → ℕ → ℕ → ℕ → ℕ → ℕ → List ℕ → List ℕ → List ℕ
header_v6 class flow_high flow_low len next_header hops src dst =
    0x60
    ∷ class
    ∷ flow_high
    ∷ flow_low
    ∷ len / 2 ^ 8 % 2 ^ 8
    ∷ len % 2 ^ 8
    ∷ next_header
    ∷ hops
    ∷ (src ++ dst)

module _ (class flow_high flow_low hops : ℕ) where
  abbrev pub body_v6 : ℕ → List ℕ → List ℕ → List ℕ → List ℕ → List ℕ
  body_v6 next_header src dst payload padding =
      header_v6 class flow_high flow_low (length payload) next_header hops src dst
      ++ (payload ++ padding)

  -- `parse_ipv6` reads back every IPv6 packet, with addresses of six and sixteen bytes and a payload
  -- of less than 2^16 bytes, and cuts the padding of the frame off.
  pub parse_ipv6-packet :
      (dst_mac src_mac : List ℕ) (next_header : ℕ) (src dst payload padding : List ℕ)
      → length dst_mac ≡ 6
      → length src_mac ≡ 6
      → length src ≡ 16
      → length dst ≡ 16
      → length payload < 2 ^ 16
      → parse_ipv6
          (frame dst_mac src_mac eth_type_ipv6 (body_v6 next_header src dst payload padding))
        ≡ parsed (record {
          eth = record {
            dst_mac = dst_mac;
            src_mac = src_mac;
            eth_type = eth_type_ipv6;
            payload = body_v6 next_header src dst payload padding;
          };
          src_ip = src;
          dst_ip = dst;
          next_header = next_header;
          payload = payload;
        })
  unfolding parse_ipv6
  parse_ipv6-packet dst_mac src_mac next_header src dst payload padding n m hs hd fits =
      rw
        (
          parse_ipv6,
          parse_eth-frame dst_mac src_mac eth_type_ipv6
              (body_v6 next_header src dst payload padding) n m (omega arith),
          le→leb 40 (length (body_v6 next_header src dst payload padding)) (omega (arith, whole)),
          take-append (src ++ dst) (payload ++ padding) 32 both,
          drop-append src dst 16 hs,
          take-append src dst 16 hs,
          all_of_dst,
        )
        (ground
          (arith, both, whole, rest, take-append payload padding (length payload) (omega arith)))
    where
      both : length (src ++ dst) ≡ 32
      both = omega (arith, length-append src dst)

      whole : length ((src ++ dst) ++ (payload ++ padding)) ≡ 32 + length payload + length padding
      whole = omega (
        arith,
        both,
        length-append (src ++ dst) (payload ++ padding),
        length-append payload padding,
      )

      rest : drop 32 ((src ++ dst) ++ (payload ++ padding)) ≡ payload ++ padding
      rest = drop-append (src ++ dst) (payload ++ padding) 32 both

      all_of_dst : take 16 dst ≡ dst
      all_of_dst = rw (append-nil dst) at (take-append dst [] 16 hd)
