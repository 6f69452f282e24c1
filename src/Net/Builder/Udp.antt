-- ===== src/Net/Builder/Udp.antt =====
-- The UDP builder of kernel/src/net/protocols/udp.rs. Each use of a builder ends with its drop, which
-- finalizes it.
pub mod Written
pub mod Sent
pub mod Carries
pub mod RoundTrip
pub mod Crc
pub mod Verified
pub mod TooLong
use elise.Base.{
  ℕ, ◌+◌, ◌-◌, ◌/◌, ◌%◌, ◌^◌, Option, none, some, List, [], ◌∷◌, ◌++◌, length, ◌==◌, if◌then◌else◌,
  replicate,
}
use elise.Cursor.{Run, returns, panics, copy_to, expect}
use elise.Cursor
use elise.Net.Bytes.{be16, be32}
use elise.Net.Packet.{
  Packet, PacketCursor, packet_cursor, write, write_u16, split_at_current, checksum,
}
use elise.Net.Udp.{ip_prot_udp}
use elise.Net.Builder.{◌>>=◌, always, put}
use elise.Net.Builder.Ip
use elise.Net.Builder.Ip.{IpAddr, v4, v6, set_protocol, take_cursor, map_run, hdr_of, eth_builder}
use elise.Net.Builder.V6.{BuilderV6}

pub record ToFill : Type 0 where
  pub len : ℕ
  pub crc : ℕ

-- `frame` is the part of the packet before the slices of the builder.
pub record Builder : Type 0 where
  pub frame : List ℕ
  pub ip : Ip.Builder
  pub hdr : List ℕ
  pub payload : PacketCursor
  pub to_fill : ToFill

unfoldable pub new : List ℕ → Ip.Builder → PacketCursor → ℕ → ℕ → Run (Option Builder)
new frame ip c src dst = do
  ip ← always (set_protocol Ip.udp ip)
  (_, c) ← put (write_u16 src c)
  (_, c) ← put (write_u16 dst c)
  ((len, _), c) ← put (write_u16 0 c)
  ((crc, _), c) ← put (write_u16 0 c)
  (hdr, payload) ← always (split_at_current c)
  returns (
      some (record {
        frame = frame;
        ip = ip;
        hdr = hdr;
        payload = payload;
        to_fill = record { len = len; crc = crc };
      }))

-- `ip::Builder::udp`
unfoldable pub udp : List ℕ → Ip.Builder → ℕ → ℕ → Run (Option Builder)
udp frame ip src dst = do
  ip ← always (set_protocol Ip.udp ip)
  c ← always (expect (take_cursor ip).0)
  new frame (take_cursor ip).1 c src dst

pub record NetAddress : Type 0 where
  pub src_mac : List ℕ
  pub src_ip : IpAddr
  pub src_port : ℕ
  pub dst_mac : List ℕ
  pub dst_ip : IpAddr
  pub dst_port : ℕ

unfoldable pub from_packet : PacketCursor → NetAddress → Run (Option Builder)
from_packet c addr = do
  c ← eth_builder c addr.src_mac addr.dst_mac
  (frame, b) ← Ip.ip c addr.src_ip addr.dst_ip
  udp frame b addr.src_port addr.dst_port

-- `Packet::create_udp`
unfoldable pub create_udp : Packet → NetAddress → Run Builder
create_udp p addr = elim (packet_cursor p) [
  | panics ↦ panics
  | returns c ↦ elim (from_packet c addr) [ panics ↦ panics | returns b ↦ expect b ]
]

-- `Builder::write`
unfoldable pub write_payload : List ℕ → Builder → Run (Option (ℕ × ℕ) × Builder)
write_payload buf b = map_run (λ (r, c). (r, record b { payload = c })) (write buf b.payload)

abbrev set_hdr : Builder → List ℕ → Builder
set_hdr b hdr = record b { hdr = hdr }

unfoldable pub write_len : Builder → Run (ℕ × Builder)
write_len b = elim (Cursor.get b.payload.inner) [
  | panics ↦ panics
  | returns payload ↦
      let size = (length b.hdr + length payload) % 2 ^ 16 in
      map_run (λ hdr. (size, set_hdr b hdr))
        (copy_to b.to_fill.len (b.to_fill.len + 2) (be16 size) b.hdr)
]

-- The pseudo-header: the two addresses, the length, three zeroes and the protocol.
abbrev pub pseudo_header : List ℕ → List ℕ → ℕ → List ℕ
pseudo_header src dst udp_len = src ++ (dst ++ (be32 udp_len ++ (0 ∷ 0 ∷ 0 ∷ ip_prot_udp ∷ [])))

-- The folds of `write_crc`, the complement, and 0xFFFF in place of zero.
abbrev pub complement : ℕ → ℕ
complement acc =
    let sum = acc % 2 ^ 16 + acc / 2 ^ 16 in
    let final_sum = sum % 2 ^ 16 + sum / 2 ^ 16 in
    let crc = 65535 - final_sum % 2 ^ 16 in if crc == 0 then 0xFFFF else crc

unfoldable pub udp_checksum : List ℕ → List ℕ → List ℕ → List ℕ → ℕ
udp_checksum src dst hdr payload = complement (
    ((checksum (pseudo_header src dst ((length hdr + length payload) % 2 ^ 32)) + checksum hdr)
        % 2 ^ 32
      + checksum payload)
    % 2 ^ 32)

unfoldable pub write_crc : Builder → Run Builder
write_crc b = elim b.ip [
  | v4 _ ↦ returns b
  | v6 ip ↦ elim (Cursor.get b.payload.inner) [
    | panics ↦ panics
    | returns payload ↦
        let crc = udp_checksum ip.src ip.dst b.hdr payload in
        map_run (set_hdr b) (copy_to b.to_fill.crc (b.to_fill.crc + 2) (be16 crc) b.hdr)
  ]
]

unfoldable pub finalize : Builder → Run Builder
finalize b = elim (write_len b) [
  | panics ↦ panics
  | returns (udp_len, b) ↦ elim (Ip.finalize udp_len b.ip) [
    | panics ↦ panics
    | returns ip ↦ write_crc (record b { ip = ip })
  ]
]

-- The packet once its builder is gone.
abbrev pub packet_of : Builder → Packet
packet_of b = record {
  memory = b.frame ++ (hdr_of b.ip ++ (b.hdr ++ b.payload.inner.inner));
  len = b.payload.packet_len;
}

-- `drop`, which finalizes the builder
unfoldable pub drop_builder : Builder → Run Packet
drop_builder b = map_run packet_of (finalize b)

-- A packet made as the callers of `create_udp` do: one write, and the builder is dropped.
unfoldable pub send_udp : NetAddress → List ℕ → Packet → Run (Option (ℕ × ℕ) × Packet)
send_udp addr buf p = elim (create_udp p addr) [
  | panics ↦ panics
  | returns b ↦ elim (write_payload buf b) [
    | panics ↦ panics
    | returns (result, b) ↦ map_run (λ q. (result, q)) (drop_builder b)
  ]
]
