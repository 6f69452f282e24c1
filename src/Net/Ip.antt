-- ===== src/Net/Ip.antt =====
-- kernel/src/net/protocols/ip: the parsers of v4.rs and v6.rs, and the views of ip.rs over both.
pub mod RoundTrip
use elise.Base.{
  ℕ, zero, suc, ◌+◌, ◌-◌, ◌*◌, ◌/◌, ◌%◌, ◌^◌, ◌≤◌, ◌<◌, ◌≡◌, refl, arith, Option, none, some, List,
  [], ◌∷◌, ◌++◌, bit_and, length, leb, ltb, ◌==◌, if◌then◌else◌, ◌&&◌, Bool, true, false, take,
  drop, take-append, length-append, le→leb,
}
use elise.Net.Bytes.{get_range, get_from, be16, be32, from_be16, from_be32}
use elise.Net.Packet.{
  ParseError, truncated_packet, unsupported_version, invalid_ip_header, ip_options_unsupported,
  fragmentation_unsupported, invalid_length, Parse, parsed, refused, ◌>>=◌, ◌>>◌, ok_or, parse_u16,
  parse_u32,
}
use elise.Net.Eth
use elise.Net.Eth.{parse_eth, parse_eth-frame, frame}

abbrev pub eth_type_ipv4 : ℕ
eth_type_ipv4 = 0x0800

abbrev pub eth_type_ipv6 : ℕ
eth_type_ipv6 = 0x86DD

pub record ParsedV4 : Type 0 where
  pub eth : Eth.Parsed
  pub src_ip : ℕ
  pub dst_ip : ℕ
  pub protocol : ℕ
  pub payload : List ℕ

-- An IPv6 address is its sixteen bytes.
pub record ParsedV6 : Type 0 where
  pub eth : Eth.Parsed
  pub src_ip : List ℕ
  pub dst_ip : List ℕ
  pub next_header : ℕ
  pub payload : List ℕ

-- An early return.
abbrev pub check : Bool → ParseError → Parse (Unit {0})
check true e = parsed tt
check false e = refused e

-- `header[i]`: the header has more than `i` bytes wherever it is read.
abbrev pub byte_at : List ℕ → ℕ → ℕ
byte_at [] i = 0
byte_at (b ∷ bs) zero = b
byte_at (b ∷ bs) (suc i) = byte_at bs i

-- The part of `parse_ipv4` behind `header`.
unfoldable pub parse_ipv4_header : Eth.Parsed → List ℕ → Parse ParsedV4
unfolding parse_u16 parse_u32
parse_ipv4_header eth header = do
  check (byte_at header 0 / 2 ^ 4 == 4) unsupported_version
  check (byte_at header 0 % 2 ^ 4 == 5) ip_options_unsupported
  total_length ← parse_u16 (get_range 2 4 header)
  let flags = byte_at header 6 / 2 ^ 5 % 2 ^ 3
  check (bit_and flags 0b101 == 0) fragmentation_unsupported
  frag_offset ← parse_u16 (get_range 6 8 header)
  check (frag_offset % 2 ^ 13 == 0) fragmentation_unsupported
  src_ip ← parse_u32 (get_range 12 16 header)
  dst_ip ← parse_u32 (get_range 16 20 header)
  check (leb (length header) total_length && leb total_length (length eth.payload)) invalid_length
  parsed (record {
    eth = eth;
    src_ip = src_ip;
    dst_ip = dst_ip;
    protocol = byte_at header 9;
    payload = take (total_length - 20) (drop 20 eth.payload);
  })

unfoldable pub parse_ipv4 : List ℕ → Parse ParsedV4
unfolding parse_eth parse_ipv4_header
parse_ipv4 raw = do
  eth ← parse_eth raw
  check (eth.eth_type == eth_type_ipv4) unsupported_version
  header ← ok_or (get_range 0 20 eth.payload) invalid_ip_header
  parse_ipv4_header eth header

unfoldable pub parse_ipv6_header : Eth.Parsed → List ℕ → Parse ParsedV6
unfolding parse_u16
parse_ipv6_header eth header = do
  check (byte_at header 0 / 2 ^ 4 == 6) unsupported_version
  payload_len ← parse_u16 (get_range 4 6 header)
  check (leb (payload_len + length header) (length eth.payload)) invalid_length
  parsed (record {
    eth = eth;
    src_ip = take 16 (drop 8 header);
    dst_ip = take 16 (drop 24 header);
    next_header = byte_at header 6;
    payload = take payload_len (drop 40 eth.payload);
  })

unfoldable pub parse_ipv6 : List ℕ → Parse ParsedV6
unfolding parse_eth parse_ipv6_header
parse_ipv6 raw = do
  eth ← parse_eth raw
  check (eth.eth_type == eth_type_ipv6) unsupported_version
  header ← ok_or (get_range 0 40 eth.payload) invalid_ip_header
  parse_ipv6_header eth header

-- `ip::Parsed` and its views
pub data Parsed : Type 0 where
  v4 : ParsedV4 → Parsed
  v6 : ParsedV6 → Parsed

abbrev pub eth_of : Parsed → Eth.Parsed
eth_of (v4 p) = p.eth
eth_of (v6 p) = p.eth

abbrev pub protocol_of : Parsed → ℕ
protocol_of (v4 p) = p.protocol
protocol_of (v6 p) = p.next_header

abbrev pub payload_of : Parsed → List ℕ
payload_of (v4 p) = p.payload
payload_of (v6 p) = p.payload

-- `self.parse_ipv4().map(V4).or_else(|_| self.parse_ipv6().map(V6))`
unfoldable pub parse_ip : List ℕ → Parse Parsed
parse_ip raw = elim (parse_ipv4 raw) [
  | parsed p ↦ parsed (v4 p)
  | refused _ ↦ (do p ← parse_ipv6 raw; parsed (v6 p))
]
