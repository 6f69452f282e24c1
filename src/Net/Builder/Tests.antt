-- ===== src/Net/Builder/Tests.antt =====
-- The packet builders of kernel/src/net/protocols on small packets, and their laws at such packets.
use elise.Base.{
  ℕ, ◌≡◌, refl, arith, some, List, [], ◌∷◌, ◌++◌, length, drop, replicate, length-replicate,
}
use elise.Cursor.{returns}
use elise.Net.Packet.{Packet, raw}
use elise.Net.Dhcp.{DhcpOption, discover, message_type, end_option, all_options, build}
use elise.Net.Builder.Ip.{v4}
use elise.Net.Builder.Udp.{NetAddress, send_udp}
use elise.Net.Builder.Udp.Written.{addr_v6}
use elise.Net.Builder.Udp.Carries.{IsAddress, Carries}
use elise.Net.Builder.Udp.RoundTrip.{send_udp-Carries}
use elise.Net.Builder.Udp.Verified.{Verifies, send_udp-Verifies}
use elise.Net.Lease.Request.{request_addr, create_dhcp_request}
use elise.Net.Lease.Request.Written.{request_header, create_dhcp_request-Carries}

abbrev pub mac_a : List ℕ
mac_a = 2 ∷ 0 ∷ 0 ∷ 0 ∷ 0 ∷ 1 ∷ []

abbrev pub mac_b : List ℕ
mac_b = 2 ∷ 0 ∷ 0 ∷ 0 ∷ 0 ∷ 2 ∷ []

abbrev pub some_addr : NetAddress
some_addr = record {
  src_mac = mac_a;
  src_ip = v4 0x0A000001;
  src_port = 4000;
  dst_mac = mac_b;
  dst_ip = v4 0x0A000002;
  dst_port = 53;
}

pub some_addr-IsAddress : IsAddress some_addr
some_addr-IsAddress = record {
  macs = (refl, refl);
  ports_fit = (omega arith, omega arith);
  ips = (omega arith, omega arith);
}

abbrev pub hello : List ℕ
hello = 104 ∷ 105 ∷ []

abbrev pub page : List ℕ
page = replicate 4096 0

abbrev empty : Packet
empty = record { memory = page; len = 0 }

pub size : length page ≡ 4096
size = length-replicate {A = ℕ} 4096 0

abbrev ip_a : List ℕ
ip_a = 0xFE ∷ 0x80 ∷ (replicate 13 0 ++ (1 ∷ []))

abbrev ip_b : List ℕ
ip_b = 0xFE ∷ 0x80 ∷ (replicate 13 0 ++ (2 ∷ []))

send_udp-Carries_example :
    (p : Packet) × (send_udp some_addr hello empty ≡ returns (some (0, 2), p))
    × Carries some_addr hello p
send_udp-Carries_example =
    send_udp-Carries some_addr hello page some_addr-IsAddress size (omega arith)

send_udp-Verifies_example :
    (sent : Packet) × (send_udp (addr_v6 mac_a ip_a 4000 mac_b ip_b 53) hello empty
      ≡ returns (some (0, 2), sent))
    × (bytes : List ℕ) × (raw sent ≡ returns bytes)
    × Verifies ip_a ip_b bytes
send_udp-Verifies_example =
    send_udp-Verifies mac_b mac_a page hello ip_a ip_b 4000 53 refl refl size (omega arith)
      (omega arith) refl refl (omega arith) (omega arith) (omega arith) (omega arith)

abbrev discovery : List DhcpOption
discovery = message_type discover ∷ []

create_dhcp_request-Carries_example :
    let payload = request_header 0x1234 mac_a ++ build discovery in
    (sent : Packet) × (create_dhcp_request 0x1234 mac_a (build discovery) empty ≡ returns sent)
    × Carries (request_addr mac_a) payload sent
    × (all_options (drop 240 payload) ≡ discovery ++ (end_option ∷ []))
unfolding build
create_dhcp_request-Carries_example =
    create_dhcp_request-Carries 0x1234 mac_a page refl size discovery (λ e. cc, tt) (omega arith)
