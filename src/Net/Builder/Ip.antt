-- ===== src/Net/Builder/Ip.antt =====
-- The Ethernet builder of kernel/src/net/protocols/eth.rs, and the builders over both versions of
-- kernel/src/net/protocols/ip/ip.rs. A builder's frame header is returned beside it: the source drops
-- the slice, and the packet keeps it.
pub mod Written
use elise.Base.{ℕ, Option, none, some, List, ◌∷◌, []}
use elise.Cursor.{Run, returns, panics}
use elise.Net.Packet.{PacketCursor, write, write_u16, split_at_current}
use elise.Net.Ip.{Parsed, eth_type_ipv4, eth_type_ipv6}
use elise.Net.Builder.{◌>>=◌, always, put}
use elise.Net.Builder.V4
use elise.Net.Builder.V4.{BuilderV4}
use elise.Net.Builder.V6
use elise.Net.Builder.V6.{BuilderV6}

-- `eth::Builder` is its cursor.
unfoldable pub eth_builder : PacketCursor → List ℕ → List ℕ → Run (Option PacketCursor)
eth_builder c src dst = do (_, c) ← put (write dst c); (_, c) ← put (write src c); returns (some c)

-- `ipv4` and `ipv6` do not look at the result of their write.
abbrev pub unchecked : Run (Option (ℕ × ℕ) × PacketCursor) → Run (Option PacketCursor)
unchecked panics = panics
unchecked (returns (_, c)) = returns (some c)

unfoldable pub ipv4 : PacketCursor → ℕ → ℕ → Run (Option (List ℕ × BuilderV4))
ipv4 c src dst = do
  c ← unchecked (write_u16 eth_type_ipv4 c)
  (frame, c) ← always (split_at_current c)
  b ← V4.new c src dst
  returns (some (frame, b))

unfoldable pub ipv6 : PacketCursor → List ℕ → List ℕ → Run (Option (List ℕ × BuilderV6))
ipv6 c src dst = do
  c ← unchecked (write_u16 eth_type_ipv6 c)
  (frame, c) ← always (split_at_current c)
  b ← V6.new c src dst
  returns (some (frame, b))

pub data TransportProtocol : Type 0 where
  icmp tcp udp : TransportProtocol

abbrev pub protocol_code : TransportProtocol → ℕ
protocol_code icmp = 0x01
protocol_code tcp = 0x06
protocol_code udp = 0x11

pub data IpAddr : Type 0 where
  v4 : ℕ → IpAddr
  v6 : List ℕ → IpAddr

-- The views of `ip::Parsed` that give an address.
abbrev pub src_ip_of : Parsed → IpAddr
src_ip_of (Parsed.v4 p) = IpAddr.v4 p.src_ip
src_ip_of (Parsed.v6 p) = IpAddr.v6 p.src_ip

abbrev pub dst_ip_of : Parsed → IpAddr
dst_ip_of (Parsed.v4 p) = IpAddr.v4 p.dst_ip
dst_ip_of (Parsed.v6 p) = IpAddr.v6 p.dst_ip

pub data Builder : Type 0 where
  v4 : BuilderV4 → Builder
  v6 : BuilderV6 → Builder

abbrev pub map_run : {A B : Type 0} → (A → B) → Run A → Run B
map_run f panics = panics
map_run f (returns a) = returns (f a)

unfoldable pub set_protocol : TransportProtocol → Builder → Run Builder
set_protocol protocol (v4 b) = map_run Builder.v4 (V4.set_protocol (protocol_code protocol) b)
set_protocol protocol (v6 b) = map_run Builder.v6 (V6.set_protocol (protocol_code protocol) b)

unfoldable pub take_cursor : Builder → Option PacketCursor × Builder
take_cursor (v4 b) = let (c, b') = V4.take_cursor b in (c, v4 b')
take_cursor (v6 b) = let (c, b') = V6.take_cursor b in (c, v6 b')

unfoldable pub finalize : ℕ → Builder → Run Builder
finalize payload_len (v4 b) = map_run Builder.v4 (V4.finalize payload_len b)
finalize payload_len (v6 b) = map_run Builder.v6 (V6.finalize payload_len b)

abbrev pub hdr_of : Builder → List ℕ
hdr_of (v4 b) = b.hdr
hdr_of (v6 b) = b.hdr

-- Addresses of two versions give no builder.
unfoldable pub ip : PacketCursor → IpAddr → IpAddr → Run (Option (List ℕ × Builder))
ip c (v4 src) (v4 dst) = do (frame, b) ← ipv4 c src dst; returns (some (frame, Builder.v4 b))
ip c (v6 src) (v6 dst) = do (frame, b) ← ipv6 c src dst; returns (some (frame, Builder.v6 b))
ip c _ _ = returns none
