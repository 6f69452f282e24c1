-- ===== src/Net/Device/Lease/Tests.antt =====
-- A machine that hears an offer and an acknowledgement of a DHCP server of kernel/src/net/protocols/dhcp.rs.
use elise.Base.{ℕ, ◌≡◌, refl, some, none, List, [], ◌∷◌, length, false}
use elise.Cursor.{returns}
use elise.Net.Packet.{Packet, raw}
use elise.Net.Dhcp.{DhcpOption, build, all_options}
use elise.Net.Ip.{parse_ip, parse_ipv4}
use elise.Net.Ip.RoundTrip.{packet_v4}
use elise.Net.Udp.{datagram, parse_udp}
use elise.Net.Lease
use elise.Net.Lease.{reply_of, parse_dhcp_reply, is_reply, is_word, word_at}
use elise.Net.Lease.Tests.{mac, xid, reply_with, offered, granted}
use elise.Net.Lease.Request.{client_port}
use elise.Net.Builder.Tests.{mac_a, page, size}
use elise.Net.Device.{Device}
use elise.Net.Device.Timeout.{datagrams}
use elise.Net.Device.Lease.{get_lease}
use elise.Net.Device.Lease.Sent.{HasSent}
use elise.Net.Device.Lease.Refine.{get_lease-HasSent}

-- A queue's capacity, as of a `VecDeque` that doubles.
abbrev capacity : List Packet → ℕ
capacity [] = 0
capacity (_ ∷ _) = 4

-- The packet of a reply with these options.
abbrev reply_bytes : List DhcpOption → List ℕ
reply_bytes os =
    packet_v4 mac mac_a
      (record { service = 0; identification = 0; dont_fragment = false; ttl = 64; crc = 0 }) 17 1 7
      (datagram 67 68 0 (reply_with os).payload) []

abbrev whole : List ℕ → Packet
whole bytes = record { memory = bytes; len = length bytes }

raw-offer : raw (whole (reply_bytes offered)) ≡ returns (reply_bytes offered)
unfolding raw build
raw-offer = refl

raw-ack : raw (whole (reply_bytes granted)) ≡ returns (reply_bytes granted)
unfolding raw build
raw-ack = refl

abbrev lease_device : Device
lease_device = record {
  mac = mac;
  client_ip = none;
  ports = record { next_free_port = 49152; udp_binds = [] };
  sent = [];
  released = [];
}

get_lease-HasSent_example :
    let (requests, lease) =
      Lease.get_lease xid mac
        (datagrams client_port (reply_bytes offered ∷ []))
        (datagrams client_port (reply_bytes granted ∷ [])) in
    (d' : Device) × (get_lease capacity
        (record { memory = page; len = 0 })
        xid
        (none ∷ some (whole (reply_bytes offered)) ∷ [])
        (some (whole (reply_bytes granted)) ∷ [])
        lease_device
      ≡ returns (lease, d'))
    × HasSent xid requests lease_device d'
get_lease-HasSent_example =
    get_lease-HasSent capacity page refl size xid (none ∷ some (whole (reply_bytes offered)) ∷ [])
      (some (whole (reply_bytes granted)) ∷ []) (reply_bytes offered ∷ [])
      (reply_bytes granted ∷ []) lease_device (raw-offer, tt) (raw-ack, tt) refl tt refl refl

-- The datagrams grant the address.
granted_lease :
    (Lease.get_lease xid mac
      (datagrams client_port (reply_bytes offered ∷ []))
      (datagrams client_port (reply_bytes granted ∷ []))).1
    ≡ some (record { client_ip = 7; server = 1; broadcast_addr = none; mask = some 0xFFFFFF00 })
unfolding Lease.get_lease build datagrams parse_udp parse_ip parse_ipv4 reply_of parse_dhcp_reply
    is_reply is_word word_at all_options
granted_lease = refl
