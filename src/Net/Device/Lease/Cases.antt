-- ===== src/Net/Device/Lease/Cases.antt =====
-- The cases of `get_lease` of kernel/src/net/protocols/dhcp.rs on datagrams.
use elise.Base.{ℕ, ◌≡◌, arith, none, some, List, [], ◌∷◌}
use elise.Net.Udp
use elise.Net.Dhcp.{offer, ack, discover, request, DhcpOption, server_ip, requested_ip, build}
use elise.Net.Lease
use elise.Net.Lease.{
  Lease, receive, reply_of, word_at, find_server_ip, find_broadcast_ip, find_subnet_mask,
  request_options,
}

abbrev pub discovery : List ℕ
discovery = build (request_options discover [])

abbrev pub asked_options : ℕ → ℕ → List ℕ
asked_options ip server = build (request_options request (requested_ip ip ∷ server_ip server ∷ []))

-- The cases of `get_lease` on datagrams.
module _ (xid : ℕ) (mac : List ℕ) (offers acks : List Udp.Parsed) (header : List ℕ)
    (options : List DhcpOption) (offered_ip server : ℕ) where
  pub get_lease_unoffered :
      receive (reply_of offer xid mac) offers ≡ none
      → Lease.get_lease xid mac offers acks ≡ (discovery ∷ [], none)
  unfolding Lease.get_lease
  get_lease_unoffered e = ground arith

  pub get_lease_without_address :
      receive (reply_of offer xid mac) offers ≡ some (header, options)
      → word_at 16 header ≡ none
      → Lease.get_lease xid mac offers acks ≡ (discovery ∷ [], none)
  unfolding Lease.get_lease
  get_lease_without_address e w = ground arith

  pub get_lease_without_server :
      receive (reply_of offer xid mac) offers ≡ some (header, options)
      → word_at 16 header ≡ some offered_ip
      → find_server_ip options ≡ none
      → Lease.get_lease xid mac offers acks ≡ (discovery ∷ [], none)
  unfolding Lease.get_lease
  get_lease_without_server e w f = ground arith

  module _ (first : receive (reply_of offer xid mac) offers ≡ some (header, options))
      (address : word_at 16 header ≡ some offered_ip)
      (found : find_server_ip options ≡ some server) where
    pub get_lease_ungranted :
        receive (reply_of ack xid mac) acks ≡ none
        → Lease.get_lease xid mac offers acks
          ≡ (discovery ∷ asked_options offered_ip server ∷ [], none)
    unfolding Lease.get_lease
    get_lease_ungranted e = ground arith

    pub get_lease_granted :
        (header' : List ℕ) (answer : List DhcpOption)
        → receive (reply_of ack xid mac) acks ≡ some (header', answer)
        → Lease.get_lease xid mac offers acks ≡ (
          discovery ∷ asked_options offered_ip server ∷ [],
          some (record {
            client_ip = offered_ip;
            server = server;
            broadcast_addr = find_broadcast_ip answer;
            mask = find_subnet_mask answer;
          }),
        )
    unfolding Lease.get_lease
    get_lease_granted header' answer e = ground arith
