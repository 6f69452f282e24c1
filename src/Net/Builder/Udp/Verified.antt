-- ===== src/Net/Builder/Udp/Verified.antt =====
-- The checksum in the packets that kernel/src/net/protocols/udp.rs sends over IPv6.
use elise.Base.{
  ℕ, ◌+◌, ◌^◌, ◌≤◌, ◌<◌, ◌≡◌, arith, some, List, [], ◌∷◌, ◌++◌, length, length-append, drop,
  drop-append, append_assoc, replicate,
}
use elise.Cursor.{returns}
use elise.Net.Bytes.{AreBytes, be16, be32}
use elise.Net.Packet.{Packet, raw}
use elise.Net.Checksum.{ones_sum}
use elise.Net.Ip.{eth_type_ipv6}
use elise.Net.Ip.RoundTrip.{header_v6}
use elise.Net.Udp.{datagram}
use elise.Net.Builder.Ip.Written.{frame_header}
use elise.Net.Builder.Udp.{send_udp, udp_checksum}
use elise.Net.Builder.Udp.Written.{addr_v6, ports}
use elise.Net.Builder.Udp.Carries.{raw_prefix}
use elise.Net.Builder.Udp.RoundTrip.{send_udp-v6}
use elise.Net.Builder.Udp.Crc.{udp_checksum-ones_sum}

-- The pseudo-header of RFC 8200: the addresses, the length of the datagram, and the protocol 17.
abbrev pub rfc_header : List ℕ → List ℕ → ℕ → List ℕ
rfc_header src dst n = src ++ (dst ++ (be32 n ++ (0 ∷ 0 ∷ 0 ∷ 17 ∷ [])))

-- The datagram in the bytes of a packet over IPv6 verifies: its words and those of the pseudo-header
-- add up to all ones.
abbrev pub Verifies : List ℕ → List ℕ → List ℕ → Type 0
Verifies src dst bytes =
    let body = drop 54 bytes in ones_sum 0 (rfc_header src dst (length body) ++ body) ≡ 0xFFFF

module _ (dst_mac src_mac memory payload src dst : List ℕ) (src_port dst_port : ℕ)
    (n : length dst_mac ≡ 6) (m : length src_mac ≡ 6) (size : length memory ≡ 4096)
    (p : src_port < 2 ^ 16) (q : dst_port < 2 ^ 16) (hs : length src ≡ 16) (hd : length dst ≡ 16)
    (fits : 62 + length payload ≤ 1514) where
  len : ℕ
  len = 8 + length payload

  crc : ℕ
  crc = udp_checksum src dst (ports src_port dst_port ++ (be16 len ++ replicate 2 0)) payload

  before : List ℕ
  before = frame_header dst_mac src_mac eth_type_ipv6 ++ header_v6 0 0 0 len 0x11 64 src dst

  length-before : length before ≡ 54
  unfolding before
  length-before = omega (
    arith,
    length-append (frame_header dst_mac src_mac eth_type_ipv6)
        (header_v6 0 0 0 len 0x11 64 src dst),
    length-append (dst_mac ++ src_mac) (be16 eth_type_ipv6),
    length-append dst_mac src_mac,
    length-append src dst,
    n,
    m,
    hs,
    hd,
  )

  -- `create_udp`, one write that fits and `drop` put a checksum that verifies into the packet, for
  -- IPv6 addresses and a payload of bytes; the packet starts out empty with 4096 bytes of memory.
  pub send_udp-Verifies :
      AreBytes src
      → AreBytes dst
      → AreBytes payload
      → (sent : Packet) × (send_udp
            (addr_v6 src_mac src src_port dst_mac dst dst_port)
            payload
            (record { memory = memory; len = 0 })
          ≡ returns (some (0, length payload), sent))
        × (bytes : List ℕ) × (raw sent ≡ returns bytes)
        × Verifies src dst bytes
  unfolding before len crc
  send_udp-Verifies a b c = (
    _,
    send_udp-v6 dst_mac src_mac memory payload src_port dst_port n m size p q src dst fits hs hd,
    before ++ body,
    rw
        (
          ← append_assoc (header_v6 0 0 0 len 0x11 64 src dst) body
              (drop (length payload) (drop 62 memory)),
          ← append_assoc (frame_header dst_mac src_mac eth_type_ipv6)
              (header_v6 0 0 0 len 0x11 64 src dst ++ body)
              (drop (length payload) (drop 62 memory)),
          ← append_assoc (frame_header dst_mac src_mac eth_type_ipv6)
              (header_v6 0 0 0 len 0x11 64 src dst) body,
        )
        (raw_prefix (before ++ body) (drop (length payload) (drop 62 memory)) (62 + length payload)
          (omega (arith, length-before, length-append before body))),
    rw (drop-append before body 54 length-before, whole)
        (udp_checksum-ones_sum src dst payload src_port dst_port hs hd a b c (omega arith)),
  )
    where
      body : List ℕ
      body = datagram src_port dst_port crc payload

      whole : length body ≡ 8 + length payload
      whole = omega arith
