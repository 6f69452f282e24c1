-- ===== src/Net/Builder/Ip/Written.antt =====
-- What the Ethernet and IP builders of kernel/src/net/protocols write into the memory of a packet.
use elise.Base.{
  ℕ, ◌+◌, ◌^◌, ◌≤◌, ◌<◌, ◌≡◌, refl, arith, some, none, List, [], ◌++◌, length, length-append,
  length-drop, drop, drop-drop,
}
use elise.Cursor
use elise.Cursor.{returns}
use elise.Net.Bytes.{be16}
use elise.Net.Packet.{packet_cursor, write_u16}
use elise.Net.Ip.{eth_type_ipv4, eth_type_ipv6}
use elise.Net.Ip.RoundTrip.{header_v4, header_v6}
use elise.Net.Builder.Region.{region, HasRoom, write-region, split-region_at}
use elise.Net.Builder.V4.Written.{
  built_v4, blank_v4, marked_v4, new-region_v4, set_protocol-marked_v4, sealed, finalize-marked_v4,
}
use elise.Net.Builder.V6.Written.{
  built_v6, marked_v6, new-region_v6, set_protocol-marked_v6, finalize-marked_v6,
}
use elise.Net.Builder.Ip.{
  Builder, TransportProtocol, protocol_code, set_protocol, finalize, v4, v6, eth_builder, ipv4,
  ipv6, ip,
}

pub packet_cursor-region :
    (memory : List ℕ)
    → packet_cursor (record { memory = memory; len = 0 }) ≡ returns (region 0 [] memory)
unfolding packet_cursor Cursor.set_position Cursor.new_with_limit
packet_cursor-region memory = refl

abbrev pub frame_header : List ℕ → List ℕ → ℕ → List ℕ
frame_header dst_mac src_mac eth_type = (dst_mac ++ src_mac) ++ be16 eth_type

-- The builders behind their cursors, set to a protocol.
abbrev pub marked_builder_v4 : ℕ → ℕ → ℕ → Builder
marked_builder_v4 prot src dst = v4 (built_v4 src dst (marked_v4 prot src dst) none)

abbrev pub marked_builder_v6 : ℕ → List ℕ → List ℕ → Builder
marked_builder_v6 prot src dst = v6 (built_v6 src dst (marked_v6 prot src dst) none)

module _ (prot : TransportProtocol) where
  pub set_protocol-marked_builder_v4 :
      (src dst : ℕ)
      → set_protocol prot (marked_builder_v4 (protocol_code prot) src dst)
        ≡ returns (marked_builder_v4 (protocol_code prot) src dst)
  unfolding set_protocol
  set_protocol-marked_builder_v4 src dst =
      rw (set_protocol-marked_v4 (protocol_code prot) src dst none)

  pub set_protocol-marked_builder_v6 :
      (src dst : List ℕ)
      → length src ≡ 16
      → length dst ≡ 16
      → set_protocol prot (marked_builder_v6 (protocol_code prot) src dst)
        ≡ returns (marked_builder_v6 (protocol_code prot) src dst)
  unfolding set_protocol
  set_protocol-marked_builder_v6 src dst hs hd =
      rw (set_protocol-marked_v6 src dst hs hd (protocol_code prot) (protocol_code prot) none)

module _ (dst_mac src_mac memory : List ℕ) (n : length dst_mac ≡ 6) (m : length src_mac ≡ 6)
    (size : length memory ≡ 4096) where
  twelve : length (dst_mac ++ src_mac) ≡ 12
  twelve = omega (arith, length-append dst_mac src_mac)

  length-frame_header : (eth_type : ℕ) → length (frame_header dst_mac src_mac eth_type) ≡ 14
  length-frame_header eth_type =
      omega (arith, twelve, length-append (dst_mac ++ src_mac) (be16 eth_type))

  whole : (k : ℕ) → k ≤ 1514 → HasRoom 0 k memory
  whole k h = omega arith

  pub eth_builder-region :
      eth_builder (region 0 [] memory) src_mac dst_mac
      ≡ returns (some (region 0 (dst_mac ++ src_mac) memory))
  unfolding eth_builder
  eth_builder-region = rw (
    eth_builder,
    write-region 0 [] memory dst_mac (whole (0 + length dst_mac) (omega arith)),
    write-region 0 dst_mac memory src_mac (whole (length dst_mac + length src_mac) (omega arith)),
  )

  write-eth_type :
      (eth_type : ℕ)
      → write_u16 eth_type (region 0 (dst_mac ++ src_mac) memory)
        ≡ returns (
          some (length (dst_mac ++ src_mac), length (dst_mac ++ src_mac) + 2),
          region 0 (frame_header dst_mac src_mac eth_type) memory,
        )
  unfolding write_u16
  write-eth_type eth_type =
      write-region 0 (dst_mac ++ src_mac) memory (be16 eth_type) (whole _ (omega (arith, twelve)))

  behind_frame : HasRoom 14 1000 (drop 14 memory)
  behind_frame = omega (arith, length-drop 14 memory)

  pub ip-region_v4 :
      (src dst : ℕ)
      → ip (region 0 (dst_mac ++ src_mac) memory) (v4 src) (v4 dst)
        ≡ returns (
            some (
              frame_header dst_mac src_mac eth_type_ipv4,
              Builder.v4
                  (built_v4 src dst (blank_v4 src dst) (some (region 34 [] (drop 34 memory)))),
            ))
  unfolding ip ipv4
  ip-region_v4 src dst = rw (
    ip,
    write-eth_type eth_type_ipv4,
    split-region_at 14 0 (frame_header dst_mac src_mac eth_type_ipv4) memory
        (length-frame_header eth_type_ipv4) (whole 14 (omega arith)),
    new-region_v4 14 src dst (drop 14 memory) (omega (arith, behind_frame)),
    drop-drop 20 14 memory,
  )

  pub ip-region_v6 :
      (src dst : List ℕ)
      → length src ≡ 16
      → length dst ≡ 16
      → ip (region 0 (dst_mac ++ src_mac) memory) (v6 src) (v6 dst)
        ≡ returns (
            some (
              frame_header dst_mac src_mac eth_type_ipv6,
              Builder.v6
                  (built_v6 src dst (marked_v6 0 src dst) (some (region 54 [] (drop 54 memory)))),
            ))
  unfolding ip ipv6
  ip-region_v6 src dst hs hd = rw (
    ip,
    write-eth_type eth_type_ipv6,
    split-region_at 14 0 (frame_header dst_mac src_mac eth_type_ipv6) memory
        (length-frame_header eth_type_ipv6) (whole 14 (omega arith)),
    new-region_v6 src dst hs hd 14 (drop 14 memory) (omega (arith, behind_frame)),
    drop-drop 40 14 memory,
  )

pub finalize-marked_builder_v4 :
    (payload_len prot src dst : ℕ)
    → 20 + payload_len < 2 ^ 16
    → let len = 20 + payload_len in
      finalize payload_len (marked_builder_v4 prot src dst)
      ≡ returns (v4 (built_v4 src dst (header_v4 (sealed len prot src dst) len prot src dst) none))
unfolding finalize
finalize-marked_builder_v4 payload_len prot src dst fits =
    rw (finalize-marked_v4 payload_len prot src dst none fits)

pub finalize-marked_builder_v6 :
    (payload_len prot : ℕ) (src dst : List ℕ)
    → length src ≡ 16
    → length dst ≡ 16
    → finalize payload_len (marked_builder_v6 prot src dst)
      ≡ returns (v6 (built_v6 src dst (header_v6 0 0 0 payload_len prot 64 src dst) none))
unfolding finalize
finalize-marked_builder_v6 payload_len prot src dst hs hd =
    rw (finalize-marked_v6 src dst hs hd payload_len prot none)
