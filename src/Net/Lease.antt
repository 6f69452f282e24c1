-- ===== src/Net/Lease.antt =====
-- The replies of a DHCP server in kernel/src/net/protocols/dhcp.rs: the test of the header, and what
-- `get_lease` takes from an offer and from an acknowledgement.
pub mod Options
pub mod Replies
pub mod Heard
pub mod Granted
pub mod Request
pub mod Tests
use elise.Base.{
  ℕ, ◌-◌, ◌*◌, ◌+◌, ◌^◌, Bool, true, false, ◌&&◌, ◌||◌, Option, none, some, List, [], ◌∷◌, ◌++◌,
  length, leb, ◌==◌, if◌then◌else◌, take, drop,
}
use elise.Net.Bytes.{from_be32, be32}
use elise.Net.Arp.{broadcast, same_bytes}
use elise.Net.Ip
use elise.Net.Ip.{byte_at, eth_of}
use elise.Net.Udp
use elise.Net.Dhcp.{
  MessageType, offer, ack, discover, request, message_code, DhcpOption, server_ip, broadcast_ip,
  subnet_mask, message_type, parameter_request_list, requested_ip, OptionId, id_code,
  message_type_id, server_ip_id, broadcast_ip_id, subnet_mask_id, all_options, build,
}

abbrev pub cookie : ℕ
cookie = 0x63825363

abbrev pub header_size : ℕ
header_size = 240

-- `u32::from_be` of the field at `i`; the header has 240 bytes wherever a field is read.
unfoldable pub word_at : ℕ → List ℕ → Option ℕ
word_at i header = from_be32 (take 4 (drop i header))

unfoldable pub is_word : ℕ → Option ℕ → Bool
is_word n none = false
is_word n (some m) = m == n

-- `op`, `htype`, `hlen`, `xid` and `cookie` of a reply to the transaction
unfoldable pub is_reply : ℕ → List ℕ → Bool
is_reply xid header =
    is_word xid (word_at 4 header)
    && byte_at header 0 == 2
    && byte_at header 1 == 1
    && byte_at header 2 == 6
    && is_word cookie (word_at 236 header)

unfoldable pub parse_dhcp_reply : ℕ → List ℕ → Option (List ℕ × List DhcpOption)
parse_dhcp_reply xid payload =
    if leb header_size (length payload) && is_reply xid (take header_size payload)
    then some (take header_size payload, all_options (drop header_size payload))
    else none

-- `options.iter().find(|&x| *x == DhcpOption::MessageType(m))`
abbrev pub has_message : MessageType → List DhcpOption → Bool
has_message m [] = false
has_message m (message_type n ∷ os) = message_code n == message_code m || has_message m os
has_message m (o ∷ os) = has_message m os

-- The three searches by `find_map`
abbrev pub find_server_ip : List DhcpOption → Option ℕ
find_server_ip [] = none
find_server_ip (server_ip ip ∷ os) = some ip
find_server_ip (o ∷ os) = find_server_ip os

abbrev pub find_broadcast_ip : List DhcpOption → Option ℕ
find_broadcast_ip [] = none
find_broadcast_ip (broadcast_ip ip ∷ os) = some ip
find_broadcast_ip (o ∷ os) = find_broadcast_ip os

abbrev pub find_subnet_mask : List DhcpOption → Option ℕ
find_subnet_mask [] = none
find_subnet_mask (subnet_mask ip ∷ os) = some ip
find_subnet_mask (o ∷ os) = find_subnet_mask os

abbrev pub is_for : List ℕ → Udp.Parsed → Bool
is_for mac udp =
    let dst_mac = (eth_of udp.ip).dst_mac in same_bytes dst_mac mac || same_bytes dst_mac broadcast

-- A reply of the given kind, for this machine.
unfoldable pub reply_of : MessageType → ℕ → List ℕ → Udp.Parsed → Option (List ℕ × List DhcpOption)
reply_of m xid mac udp =
    if is_for mac udp
    then elim (parse_dhcp_reply xid udp.payload) [
      | none ↦ none
      | some (header, options) ↦ if has_message m options then some (header, options) else none
    ]
    else none

-- `recv_timeout`: the first of the datagrams that arrive in time which the closure takes
abbrev pub receive : {A : Type 0} → (Udp.Parsed → Option A) → List Udp.Parsed → Option A
receive take_it [] = none
receive take_it (udp ∷ later) =
    let rest = receive take_it later in elim (take_it udp) [ none ↦ rest | some a ↦ some a ]

pub record Lease : Type 0 where
  pub client_ip : ℕ
  pub server : ℕ
  pub broadcast_addr : Option ℕ
  pub mask : Option ℕ

-- The options of a request: the kind of message, the options asked for, and those of the phase.
abbrev pub request_options : MessageType → List DhcpOption → List DhcpOption
request_options m extra =
    message_type m
    ∷ parameter_request_list (
        id_code message_type_id
        ∷ id_code server_ip_id
        ∷ id_code broadcast_ip_id
        ∷ id_code subnet_mask_id
        ∷ [])
    ∷ extra

-- `get_lease`, given the datagrams that arrive in each of its two phases: what it sends, and the lease.
unfoldable pub get_lease :
    ℕ → List ℕ → List Udp.Parsed → List Udp.Parsed → List (List ℕ) × Option Lease
get_lease xid mac offers acks =
    let discovery = build (request_options discover []) in
    elim (receive (reply_of offer xid mac) offers) [
      | none ↦ (discovery ∷ [], none)
      | some (header, options) ↦ elim (word_at 16 header) [
        | none ↦ (discovery ∷ [], none)
        | some offered_ip ↦ elim (find_server_ip options) [
          | none ↦ (discovery ∷ [], none)
          | some server ↦
              let asked =
                build (request_options request (requested_ip offered_ip ∷ server_ip server ∷ [])) in
              elim (receive (reply_of ack xid mac) acks) [
                | none ↦ (discovery ∷ asked ∷ [], none)
                | some (_, answer) ↦ (
                  discovery ∷ asked ∷ [],
                  some (record {
                    client_ip = offered_ip;
                    server = server;
                    broadcast_addr = find_broadcast_ip answer;
                    mask = find_subnet_mask answer;
                  }),
                )
              ]
        ]
      ]
    ]
