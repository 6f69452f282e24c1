-- ===== src/Net/Builder/Udp/Carries.antt =====
-- What it says of a packet that it carries a datagram: kernel/src/net/protocols/udp.rs.
use elise.Base.{
  ℕ, ◌+◌, ◌^◌, ◌<◌, ◌≡◌, arith, List, ◌++◌, length, length-append, take-append, append_assoc,
  le→leb,
}
use elise.Cursor.{returns}
use elise.Net.Bytes.{be16}
use elise.Net.Packet.{Packet, raw, parsed}
use elise.Net.Eth.{frame}
use elise.Net.Ip.{eth_of}
use elise.Net.Udp
use elise.Net.Udp.{datagram, ip_prot_udp, parse_udp, parse_udp-datagram}
use elise.Net.Builder.Ip.{IpAddr, v4, v6, src_ip_of, dst_ip_of}
use elise.Net.Builder.Ip.Written.{frame_header}
use elise.Net.Builder.Udp.{NetAddress}

-- Two addresses of the same version.
abbrev pub AreAddresses : IpAddr → IpAddr → Type 0
AreAddresses (v4 src) (v4 dst) = (src < 2 ^ 32) × (dst < 2 ^ 32)
AreAddresses (v6 src) (v6 dst) = (length src ≡ 16) × (length dst ≡ 16)
AreAddresses _ _ = ⊥

-- The types of the fields.
pub record IsAddress (addr : NetAddress) : Type 0 where
  pub macs : (length addr.src_mac ≡ 6) × (length addr.dst_mac ≡ 6)
  pub ports_fit : (addr.src_port < 2 ^ 16) × (addr.dst_port < 2 ^ 16)
  pub ips : AreAddresses addr.src_ip addr.dst_ip

-- The bytes of the headers.
abbrev pub headers : IpAddr → ℕ
headers (v4 _) = 42
headers (v6 _) = 62

-- The address that a parsed datagram carries.
abbrev pub address_of : Udp.Parsed → NetAddress
address_of p = record {
  src_mac = (eth_of p.ip).src_mac;
  src_ip = src_ip_of p.ip;
  src_port = p.src_port;
  dst_mac = (eth_of p.ip).dst_mac;
  dst_ip = dst_ip_of p.ip;
  dst_port = p.dst_port;
}

-- A packet whose bytes parse as a datagram from and to `addr` with that payload.
pub record Carries (addr : NetAddress) (payload : List ℕ) (p : Packet) : Type 0 where
  pub bytes : List ℕ
  pub read : Udp.Parsed
  pub raw_bytes : raw p ≡ returns bytes
  pub whole : length bytes ≡ headers addr.src_ip + length payload
  pub parses : parse_udp bytes ≡ parsed read
  pub same_address : address_of read ≡ addr
  pub same_payload : read.payload ≡ payload

-- The bytes of a packet: those of its memory up to its length.
pub raw_prefix :
    (bytes rest : List ℕ) (n : ℕ)
    → length bytes ≡ n
    → raw (record { memory = bytes ++ rest; len = n }) ≡ returns bytes
unfolding raw
raw_prefix bytes rest n h = rw (
  raw,
  le→leb n (length (bytes ++ rest)) (omega (arith, length-append bytes rest)),
  take-append bytes rest n h,
)

-- A packet made of a frame header, an IP header and a datagram, with memory behind it.
pub Carries-sent :
    (addr : NetAddress) (payload head body rest : List ℕ) (eth_type : ℕ) (read : Udp.Parsed)
    → length addr.src_mac ≡ 6
    → length addr.dst_mac ≡ 6
    → 14 + length head + length body ≡ headers addr.src_ip + length payload
    → parse_udp (frame addr.dst_mac addr.src_mac eth_type (head ++ body)) ≡ parsed read
    → address_of read ≡ addr
    → read.payload ≡ payload
    → Carries addr payload (record {
      memory = frame_header addr.dst_mac addr.src_mac eth_type ++ (head ++ (body ++ rest));
      len = headers addr.src_ip + length payload;
    })
Carries-sent addr payload head body rest eth_type read m n count parses same_address same_payload =
    record {
      bytes = bytes;
      read = read;
      raw_bytes =
          rw
            (
              ← append_assoc head body rest,
              ← append_assoc (frame_header addr.dst_mac addr.src_mac eth_type) (head ++ body) rest,
            )
            (raw_prefix bytes rest (headers addr.src_ip + length payload) whole);
      whole = whole;
      parses =
          rw
            (
              append_assoc (addr.dst_mac ++ addr.src_mac) (be16 eth_type) (head ++ body),
              append_assoc addr.dst_mac addr.src_mac (be16 eth_type ++ (head ++ body)),
            )
            parses;
      same_address = same_address;
      same_payload = same_payload;
    }
  where
    bytes : List ℕ
    bytes = frame_header addr.dst_mac addr.src_mac eth_type ++ (head ++ body)

    whole : length bytes ≡ headers addr.src_ip + length payload
    whole = omega (
      arith,
      length-append (frame_header addr.dst_mac addr.src_mac eth_type) (head ++ body),
      length-append head body,
      length-append (addr.dst_mac ++ addr.src_mac) (be16 eth_type),
      length-append addr.dst_mac addr.src_mac,
      count,
      m,
      n,
    )
