-- ===== src/Net/Lease/Tests.antt =====
-- The lease exchange of kernel/src/net/protocols/dhcp.rs with one server, and its laws at that exchange.
use elise.Base.{ℕ, List, [], ◌∷◌, ◌++◌, replicate}
use elise.Net.Ip.{v4}
use elise.Net.Udp
use elise.Net.Dhcp.{DhcpOption, build, offer, ack, server_ip, message_type, subnet_mask}
use elise.Net.Lease.Replies.{reply_header}

abbrev pub mac : List ℕ
mac = 2 ∷ 0 ∷ 0 ∷ 0 ∷ 0 ∷ 1 ∷ []

abbrev pub xid : ℕ
xid = 0x1234

abbrev pub server_datagram : List ℕ → Udp.Parsed
server_datagram payload = record {
  ip = v4 (record {
    eth = record { dst_mac = mac; src_mac = replicate 6 9; eth_type = 0x0800; payload = [] };
    src_ip = 1;
    dst_ip = 7;
    protocol = 17;
    payload = [];
  });
  src_port = 67;
  dst_port = 68;
  payload = payload;
}

abbrev pub offered : List DhcpOption
offered = message_type offer ∷ server_ip 1 ∷ []

abbrev pub granted : List DhcpOption
granted = message_type ack ∷ subnet_mask 0xFFFFFF00 ∷ []

abbrev pub payload_with : List DhcpOption → List ℕ
payload_with os = reply_header 0 xid (replicate 8 0) 7 (replicate 216 0) ++ build os

abbrev pub reply_with : List DhcpOption → Udp.Parsed
reply_with os = server_datagram (payload_with os)
