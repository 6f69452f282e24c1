-- ===== src/Net/Lease/Request.antt =====
-- `create_dhcp_request` of kernel/src/net/protocols/dhcp.rs.
pub mod Written
use elise.Base.{ℕ, ◌+◌, ◌-◌, ◌^◌, none, some, List, [], ◌∷◌, replicate}
use elise.Cursor.{Run, returns, panics, copy_to}
use elise.Net.Bytes.{be32}
use elise.Net.Packet.{Packet}
use elise.Net.Arp.{broadcast}
use elise.Net.Lease.{cookie, header_size}
use elise.Net.Builder.{set_byte}
use elise.Net.Builder.Ip.{v4, map_run}
use elise.Net.Builder.Udp.{Builder, NetAddress, create_udp, write_payload, drop_builder}

abbrev pub client_port : ℕ
client_port = 68

abbrev pub server_port : ℕ
server_port = 67

infixl 5 ◌>>=◌
abbrev ◌>>=◌ : {A B : Type 0} → Run A → (A → Run B) → Run B
panics >>= f = panics
returns a >>= f = f a

-- The fields that are set through the cast of the payload to the header: `op`, `htype`, `hlen`, `xid`,
-- `chaddr` and `cookie`, at their offsets in the packed structure.
unfoldable pub fill_header : ℕ → List ℕ → List ℕ → Run (List ℕ)
fill_header xid mac payload = do
  payload ← set_byte 0 1 payload
  payload ← set_byte 1 1 payload
  payload ← set_byte 2 6 payload
  payload ← copy_to 4 8 (be32 xid) payload
  payload ← copy_to 28 34 mac payload
  copy_to 236 240 (be32 cookie) payload

-- From no address to all, between the ports of DHCP.
abbrev pub request_addr : List ℕ → NetAddress
request_addr mac = record {
  src_mac = mac;
  src_ip = v4 0;
  src_port = client_port;
  dst_mac = broadcast;
  dst_ip = v4 (2 ^ 32 - 1);
  dst_port = server_port;
}

abbrev pub set_inner : Builder → List ℕ → Builder
set_inner b inner = record b {
  payload = record b.payload { inner = record b.payload.inner { inner = inner } };
}

-- The results of the two writes are not looked at.
unfoldable pub create_dhcp_request : ℕ → List ℕ → List ℕ → Packet → Run Packet
create_dhcp_request xid mac options p = do
  b ← create_udp p (request_addr mac)
  (_, b) ← write_payload (replicate header_size 0) b
  inner ← fill_header xid mac b.payload.inner.inner
  (_, b) ← write_payload options (set_inner b inner)
  drop_builder b
