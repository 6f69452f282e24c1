-- ===== src/Net/Builder/Udp/Sent.antt =====
-- The packet that a builder of kernel/src/net/protocols/udp.rs leaves when it is dropped.
use elise.Base.{
  ℕ, ◌+◌, ◌%◌, ◌^◌, ◌≤◌, ◌<◌, ◌≡◌, arith, some, List, [], ◌++◌, length, drop, replicate,
}
use elise.Cursor.{returns}
use elise.Net.Bytes.{be16}
use elise.Net.Packet.{Packet}
use elise.Net.Ip.RoundTrip.{header_v4, header_v6}
use elise.Net.Udp.{datagram}
use elise.Net.Builder.Region.{HasRoom, write-region, get-region}
use elise.Net.Builder.V4.Written.{sealed}
use elise.Net.Builder.Ip
use elise.Net.Builder.Ip.{v4, v6}
use elise.Net.Builder.Ip.Written.{
  marked_builder_v4, marked_builder_v6, finalize-marked_builder_v4, finalize-marked_builder_v6,
}
use elise.Net.Builder.Udp.{
  Builder, write_len, write_crc, finalize, drop_builder, write_payload, udp_checksum,
}
use elise.Net.Builder.Udp.Written.{ready, ports}

module _ (frame : List ℕ) (src_port dst_port base : ℕ) (memory : List ℕ) where
  pub write_payload-more :
      (ip : Ip.Builder) (bytes buf : List ℕ)
      → HasRoom base (length bytes + length buf) memory
      → write_payload buf (ready frame ip src_port dst_port base bytes memory)
        ≡ returns (
          some (length bytes, length bytes + length buf),
          ready frame ip src_port dst_port base (bytes ++ buf) memory,
        )
  unfolding write_payload
  write_payload-more ip bytes buf h = rw (write-region base bytes memory buf h)

  pub write_payload-ready :
      (ip : Ip.Builder) (buf : List ℕ)
      → HasRoom base (length buf) memory
      → write_payload buf (ready frame ip src_port dst_port base [] memory)
        ≡ returns (some (0, length buf), ready frame ip src_port dst_port base buf memory)
  write_payload-ready ip buf h =
      let e : 0 + length buf ≡ length buf = omega arith in
      rw (write_payload-more ip [] buf (omega (arith, h.fits, h.room, h.small)), e)

  -- The builder with its length filled in.
  abbrev sized : Ip.Builder → List ℕ → Builder
  sized ip buf = record (ready frame ip src_port dst_port base buf memory) {
    hdr = ports src_port dst_port ++ (be16 (8 + length buf) ++ replicate 2 0);
  }

  write_len-ready :
      (ip : Ip.Builder) (buf : List ℕ)
      → length buf ≤ length memory
      → 8 + length buf < 2 ^ 16
      → write_len (ready frame ip src_port dst_port base buf memory)
        ≡ returns (8 + length buf, sized ip buf)
  unfolding write_len
  write_len-ready ip buf h k = rw (write_len, get-region base buf memory h, small)
    where
      small : (8 + length buf) % 2 ^ 16 ≡ 8 + length buf
      small = omega arith

  abbrev pub sent : List ℕ → List ℕ → ℕ → Packet
  sent ip_hdr buf crc = record {
    memory = frame ++ (ip_hdr ++ (datagram src_port dst_port crc buf ++ drop (length buf) memory));
    len = base + length buf;
  }

  pub drop_builder-v4 :
      (src dst : ℕ) (buf : List ℕ)
      → length buf ≤ length memory
      → 28 + length buf < 2 ^ 16
      → let len = 28 + length buf in
        drop_builder
          (ready frame (marked_builder_v4 0x11 src dst) src_port dst_port base buf memory)
        ≡ returns (sent (header_v4 (sealed len 0x11 src dst) len 0x11 src dst) buf 0)
  unfolding drop_builder finalize write_crc
  drop_builder-v4 src dst buf h k =
      let total : 20 + (8 + length buf) ≡ 28 + length buf = omega arith in
      rw (
        drop_builder,
        finalize,
        write_len-ready (marked_builder_v4 0x11 src dst) buf h (omega arith),
        finalize-marked_builder_v4 (8 + length buf) 0x11 src dst (omega arith),
        total,
      )

  pub drop_builder-v6 :
      (src dst : List ℕ) (buf : List ℕ)
      → length src ≡ 16
      → length dst ≡ 16
      → length buf ≤ length memory
      → 8 + length buf < 2 ^ 16
      → let len = 8 + length buf in
        drop_builder
          (ready frame (marked_builder_v6 0x11 src dst) src_port dst_port base buf memory)
        ≡ returns (
            sent
              (header_v6 0 0 0 len 0x11 64 src dst)
              buf
              (udp_checksum src dst (ports src_port dst_port ++ (be16 len ++ replicate 2 0)) buf))
  unfolding drop_builder finalize write_crc
  drop_builder-v6 src dst buf hs hd h k = rw (
    drop_builder,
    finalize,
    write_len-ready (marked_builder_v6 0x11 src dst) buf h (omega arith),
    finalize-marked_builder_v6 (8 + length buf) 0x11 src dst hs hd,
    write_crc,
    get-region base buf memory h,
  )
