-- ===== src/Net/Builder/Udp/Written.antt =====
-- What the UDP builder of kernel/src/net/protocols/udp.rs writes into the memory of an empty packet.
use elise.Base.{
  ℕ, ◌+◌, ◌≤◌, ◌≡◌, refl, arith, some, List, [], ◌++◌, length, length-drop, drop, drop-drop,
  replicate,
}
use elise.Cursor.{returns}
use elise.Net.Bytes.{be16}
use elise.Net.Packet.{write, write_u16}
use elise.Net.Ip.{eth_type_ipv4, eth_type_ipv6}
use elise.Net.Builder.Region.{region, HasRoom, write-region, split-region_at}
use elise.Net.Builder.V4.Written.{built_v4, blank_v4, marked_v4, set_protocol-blank_v4}
use elise.Net.Builder.V6.Written.{built_v6, marked_v6, set_protocol-marked_v6}
use elise.Net.Builder.Ip
use elise.Net.Builder.Ip.{v4, v6, set_protocol, take_cursor}
use elise.Net.Builder.Ip.Written.{
  marked_builder_v4, marked_builder_v6, set_protocol-marked_builder_v4,
  set_protocol-marked_builder_v6, packet_cursor-region, frame_header, eth_builder-region,
  ip-region_v4, ip-region_v6,
}
use elise.Net.Builder.Udp.{Builder, NetAddress, new, udp, from_packet, create_udp}

abbrev pub ports : ℕ → ℕ → List ℕ
ports src dst = be16 src ++ be16 dst

abbrev pub addr_v4 : List ℕ → ℕ → ℕ → List ℕ → ℕ → ℕ → NetAddress
addr_v4 src_mac src src_port dst_mac dst dst_port = record {
  src_mac = src_mac;
  src_ip = v4 src;
  src_port = src_port;
  dst_mac = dst_mac;
  dst_ip = v4 dst;
  dst_port = dst_port;
}

abbrev pub addr_v6 : List ℕ → List ℕ → ℕ → List ℕ → List ℕ → ℕ → NetAddress
addr_v6 src_mac src src_port dst_mac dst dst_port = record {
  src_mac = src_mac;
  src_ip = v6 src;
  src_port = src_port;
  dst_mac = dst_mac;
  dst_ip = v6 dst;
  dst_port = dst_port;
}

-- The builder over `base` bytes of headers, with `bytes` in its payload.
abbrev pub ready : List ℕ → Ip.Builder → ℕ → ℕ → ℕ → List ℕ → List ℕ → Builder
ready frame ip src_port dst_port base bytes memory = record {
  frame = frame;
  ip = ip;
  hdr = ports src_port dst_port ++ replicate 4 0;
  payload = region base bytes memory;
  to_fill = record { len = 4; crc = 6 };
}

new-region :
    (frame : List ℕ) (ip ip' : Ip.Builder) (src_port dst_port base : ℕ) (memory : List ℕ)
    → HasRoom base 8 memory
    → set_protocol Ip.udp ip ≡ returns ip'
    → new frame ip (region base [] memory) src_port dst_port
      ≡ returns (some (ready frame ip' src_port dst_port (base + 8) [] (drop 8 memory)))
unfolding new write_u16
new-region frame ip ip' src_port dst_port base memory h e = rw (
  new,
  e,
  step [] (be16 src_port) (omega arith),
  step (be16 src_port) (be16 dst_port) (omega arith),
  step (ports src_port dst_port) (replicate 2 0) (omega arith),
  step (ports src_port dst_port ++ replicate 2 0) (replicate 2 0) (omega arith),
  split-region_at 8 base (ports src_port dst_port ++ replicate 4 0) memory refl h,
)
  where
    step :
        (bytes buf : List ℕ)
        → length bytes + length buf ≤ 8
        → write buf (region base bytes memory)
          ≡ returns
              (some (length bytes, length bytes + length buf), region base (bytes ++ buf) memory)
    step bytes buf k =
        write-region base bytes memory buf
          (record { fits = omega (arith, h.fits); room = omega (arith, h.room); small = h.small })

udp-region :
    (frame : List ℕ) (b b₁ b₂ : Ip.Builder) (src_port dst_port base : ℕ) (memory : List ℕ)
    → HasRoom base 8 memory
    → set_protocol Ip.udp b ≡ returns b₁
    → take_cursor b₁ ≡ (some (region base [] memory), b₂)
    → set_protocol Ip.udp b₂ ≡ returns b₂
    → udp frame b src_port dst_port
      ≡ returns (some (ready frame b₂ src_port dst_port (base + 8) [] (drop 8 memory)))
unfolding udp
udp-region frame b b₁ b₂ src_port dst_port base memory h first taken second =
    rw (udp, first, taken, new-region frame b₂ b₂ src_port dst_port base memory h second)

module _ (dst_mac src_mac memory : List ℕ) (src_port dst_port : ℕ) (n : length dst_mac ≡ 6)
    (m : length src_mac ≡ 6) (size : length memory ≡ 4096) where
  pub create_udp-v4 :
      (src dst : ℕ)
      → create_udp
          (record { memory = memory; len = 0 })
          (addr_v4 src_mac src src_port dst_mac dst dst_port)
        ≡ returns (
            ready
              (frame_header dst_mac src_mac eth_type_ipv4)
              (marked_builder_v4 0x11 src dst)
              src_port
              dst_port
              42
              []
              (drop 42 memory))
  unfolding create_udp from_packet set_protocol take_cursor
  create_udp-v4 src dst = rw (
    create_udp,
    packet_cursor-region memory,
    from_packet,
    eth_builder-region dst_mac src_mac memory n m size,
    ip-region_v4 dst_mac src_mac memory n m size src dst,
    udp-region (frame_header dst_mac src_mac eth_type_ipv4)
        (v4 (built_v4 src dst (blank_v4 src dst) (some (region 34 [] (drop 34 memory)))))
        (v4 (built_v4 src dst (marked_v4 0x11 src dst) (some (region 34 [] (drop 34 memory)))))
        (marked_builder_v4 0x11 src dst) src_port dst_port 34 (drop 34 memory)
        (omega (arith, length-drop 34 memory))
        (rw (set_protocol-blank_v4 0x11 src dst (some (region 34 [] (drop 34 memory))))) refl
        (set_protocol-marked_builder_v4 Ip.udp src dst),
    drop-drop 8 34 memory,
  )

  pub create_udp-v6 :
      (src dst : List ℕ)
      → length src ≡ 16
      → length dst ≡ 16
      → create_udp
          (record { memory = memory; len = 0 })
          (addr_v6 src_mac src src_port dst_mac dst dst_port)
        ≡ returns (
            ready
              (frame_header dst_mac src_mac eth_type_ipv6)
              (marked_builder_v6 0x11 src dst)
              src_port
              dst_port
              62
              []
              (drop 62 memory))
  unfolding create_udp from_packet set_protocol take_cursor
  create_udp-v6 src dst hs hd = rw (
    create_udp,
    packet_cursor-region memory,
    from_packet,
    eth_builder-region dst_mac src_mac memory n m size,
    ip-region_v6 dst_mac src_mac memory n m size src dst hs hd,
    udp-region (frame_header dst_mac src_mac eth_type_ipv6)
        (v6 (built_v6 src dst (marked_v6 0 src dst) (some (region 54 [] (drop 54 memory)))))
        (v6 (built_v6 src dst (marked_v6 0x11 src dst) (some (region 54 [] (drop 54 memory)))))
        (marked_builder_v6 0x11 src dst) src_port dst_port 54 (drop 54 memory)
        (omega (arith, length-drop 54 memory))
        (rw (set_protocol-marked_v6 src dst hs hd 0 0x11 (some (region 54 [] (drop 54 memory)))))
        refl (set_protocol-marked_builder_v6 Ip.udp src dst hs hd),
    drop-drop 8 54 memory,
  )
