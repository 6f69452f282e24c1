-- ===== src/Net/Device/Lease/Sent.antt =====
-- What `get_lease` of kernel/src/net/protocols/dhcp.rs sends on a device, and the lease that it returns.
use elise.Base.{
  ℕ, ◌+◌, ◌≤◌, ◌≡◌, refl, sym, ap, subst, ◌∙◌, arith, Option, none, some, List, [], ◌∷◌, ◌++◌,
  length, append_assoc,
}
use elise.Cursor.{Run, returns}
use elise.Net.Packet.{Packet}
use elise.Net.Dhcp.{
  MessageType, offer, ack, discover, request, DhcpOption, server_ip, requested_ip, build, serialize,
}
use elise.Net.Lease.{
  Lease, receive, reply_of, word_at, find_server_ip, find_broadcast_ip, find_subnet_mask,
  request_options,
}
use elise.Net.Lease.Request.{client_port, request_addr}
use elise.Net.Lease.Request.Written.{request_header, create_dhcp_request-bytes}
use elise.Net.Builder.Udp.Carries.{Carries}
use elise.Net.Device.{Device, queue_at, send}
use elise.Net.Device.Quiet.{AreEmpty}
use elise.Net.Device.Timeout.{ArePolled, datagrams, recv_timeout-receive}
use elise.Net.Device.Lease.{send_dhcp_request, phase, phases}

-- A device without a lease that is bound to the port of a DHCP client, and where nothing waits.
pub record IsClient (d : Device) : Type 0 where
  pub unleased : d.client_ip ≡ none
  pub quiet : AreEmpty d.ports.udp_binds
  pub bound : queue_at client_port d.ports.udp_binds ≡ some []
  pub six : length d.mac ≡ 6

-- The packets are broadcasts of requests with these options.
abbrev pub AreRequests : ℕ → List ℕ → List (List ℕ) → List Packet → Type 0
AreRequests xid mac [] [] = Unit {0}
AreRequests xid mac (options ∷ rest) (pk ∷ pks) =
    Carries (request_addr mac) (request_header xid mac ++ options) pk × AreRequests xid mac rest pks
AreRequests _ _ _ _ = ⊥

-- What a phase or both leave behind: the packets are sent, and nothing else has changed but what the driver
-- was given back.
pub record HasSent (xid : ℕ) (requests : List (List ℕ)) (d d' : Device) : Type 0 where
  pub packets : List Packet
  pub carried : AreRequests xid d.mac requests packets
  pub all_sent : d'.sent ≡ d.sent ++ packets
  pub same_mac : d'.mac ≡ d.mac
  pub same_lease : d'.client_ip ≡ d.client_ip
  pub same_ports : d'.ports ≡ d.ports

pub HasSent-IsClient :
    (xid : ℕ) (requests : List (List ℕ)) (d d' : Device)
    → HasSent xid requests d d'
    → IsClient d
    → IsClient d'
HasSent-IsClient xid requests d d' h c = record {
  unleased = h.same_lease ∙ c.unleased;
  quiet = subst (λ p. AreEmpty p.udp_binds) (sym h.same_ports) c.quiet;
  bound = ap (λ p. queue_at client_port p.udp_binds) h.same_ports ∙ c.bound;
  six = ap length h.same_mac ∙ c.six;
}

AreRequests-append :
    (xid : ℕ) (mac : List ℕ) (xs ys : List (List ℕ)) (ps qs : List Packet)
    → AreRequests xid mac xs ps
    → AreRequests xid mac ys qs
    → AreRequests xid mac (xs ++ ys) (ps ++ qs)
AreRequests-append xid mac [] ys [] qs h k = k
AreRequests-append xid mac (x ∷ xs) ys (p ∷ ps) qs (c, h) k =
    (c, AreRequests-append xid mac xs ys ps qs h k)
AreRequests-append xid mac [] ys (_ ∷ _) qs h k = absurd h
AreRequests-append xid mac (_ ∷ _) ys [] qs h k = absurd h

pub HasSent-trans :
    (xid : ℕ) (xs ys : List (List ℕ)) (d d₁ d₂ : Device)
    → HasSent xid xs d d₁
    → HasSent xid ys d₁ d₂
    → HasSent xid (xs ++ ys) d d₂
HasSent-trans xid xs ys d d₁ d₂ h k = record {
  packets = h.packets ++ k.packets;
  carried =
      AreRequests-append xid d.mac xs ys h.packets k.packets h.carried
        (subst (λ mac. AreRequests xid mac ys k.packets) h.same_mac k.carried);
  all_sent =
      k.all_sent
      ∙ ap (λ sent. sent ++ k.packets) h.all_sent
      ∙ append_assoc d.sent h.packets k.packets;
  same_mac = k.same_mac ∙ h.same_mac;
  same_lease = k.same_lease ∙ h.same_lease;
  same_ports = k.same_ports ∙ h.same_ports;
}

-- What a run returns, sends and leaves behind: the requests, and the lease.
pub record IsAsked (xid : ℕ) (d : Device) (run : Run (Option Lease × Device))
    (asked : List (List ℕ) × Option Lease) : Type 0 where
  pub after : Device
  pub result : run ≡ returns (asked.1, after)
  pub sent : HasSent xid (asked.0) d after

pub IsAsked-of :
    {xid : ℕ} {d : Device} {run : Run (Option Lease × Device)}
    {asked : List (List ℕ) × Option Lease} {requests : List (List ℕ)} {lease : Option Lease}
    (d' : Device)
    → asked ≡ (requests, lease)
    → run ≡ returns (lease, d')
    → HasSent xid requests d d'
    → IsAsked xid d run asked
IsAsked-of {xid} {d} {run} d' same result sent =
    subst (IsAsked xid d run) (sym same) (record { after = d'; result = result; sent = sent })

pub length-request_options :
    (m : MessageType) (ip server : ℕ)
    → (282 + length (build (request_options m [])) ≤ 1514)
      × (282 + length (build (request_options m (requested_ip ip ∷ server_ip server ∷ []))) ≤ 1514)
unfolding build serialize
length-request_options m ip server = (omega arith, omega arith)

module _ (capacity : List Packet → ℕ) (memory : List ℕ) (none_yet : capacity [] ≡ 0)
    (size : length memory ≡ 4096) (xid : ℕ) where
  abbrev allocated : Packet
  allocated = record { memory = memory; len = 0 }

  pub phase-HasSent :
      (m kind : MessageType) (extra : List DhcpOption) (polls : List (Option Packet))
      (raws : List (List ℕ)) (d : Device)
      → 282 + length (build (request_options m extra)) ≤ 1514
      → ArePolled polls raws
      → IsClient d
      → (d' : Device) × (phase capacity allocated xid m extra kind polls d
          ≡ returns (receive (reply_of kind xid d.mac) (datagrams client_port raws), d'))
        × HasSent xid (build (request_options m extra) ∷ []) d d'
  unfolding phase send_dhcp_request
  phase-HasSent m kind extra polls raws d fits polled c =
      let (packet, made, carried) =
        create_dhcp_request-bytes xid d.mac memory c.six size (build (request_options m extra))
          fits in
      let (d', result, kept) =
        recv_timeout-receive capacity memory none_yet size (reply_of kind xid d.mac) client_port
          polls raws (send packet d) polled c.unleased c.quiet c.bound in
      (
        d',
        rw (phase, send_dhcp_request, made) result,
        record {
          packets = packet ∷ [];
          carried = (carried, tt);
          all_sent = kept.same_sent;
          same_mac = kept.same_mac;
          same_lease = kept.same_lease;
          same_ports = kept.same_ports;
        },
      )

  module _ (offers acks : List (Option Packet)) (d d₁ : Device) (header : List ℕ)
      (options : List DhcpOption) (offered_ip server : ℕ) where
    pub phases_unoffered :
        phase capacity allocated xid discover [] offer offers d ≡ returns (none, d₁)
        → phases capacity allocated xid offers acks d ≡ returns (none, d₁)
    unfolding phases
    phases_unoffered e = rw (phases, e) refl

    pub phases_without_address :
        phase capacity allocated xid discover [] offer offers d
          ≡ returns (some (header, options), d₁)
        → word_at 16 header ≡ none
        → phases capacity allocated xid offers acks d ≡ returns (none, d₁)
    unfolding phases
    phases_without_address e w = ground arith

    pub phases_without_server :
        phase capacity allocated xid discover [] offer offers d
          ≡ returns (some (header, options), d₁)
        → word_at 16 header ≡ some offered_ip
        → find_server_ip options ≡ none
        → phases capacity allocated xid offers acks d ≡ returns (none, d₁)
    unfolding phases
    phases_without_server e w f = ground arith

    module _ (d₂ : Device)
        (first : phase capacity allocated xid discover [] offer offers d
          ≡ returns (some (header, options), d₁))
        (address : word_at 16 header ≡ some offered_ip)
        (found : find_server_ip options ≡ some server) where
      pub phases_ungranted :
          phase capacity allocated xid request
              (requested_ip offered_ip ∷ server_ip server ∷ [])
              ack
              acks
              d₁
            ≡ returns (none, d₂)
          → phases capacity allocated xid offers acks d ≡ returns (none, d₂)
      unfolding phases
      phases_ungranted e = ground arith

      pub phases_granted :
          (header' : List ℕ) (answer : List DhcpOption)
          → phase capacity allocated xid request
              (requested_ip offered_ip ∷ server_ip server ∷ [])
              ack
              acks
              d₁
            ≡ returns (some (header', answer), d₂)
          → phases capacity allocated xid offers acks d
            ≡ returns (
              some (record {
                client_ip = offered_ip;
                server = server;
                broadcast_addr = find_broadcast_ip answer;
                mask = find_subnet_mask answer;
              }),
              d₂,
            )
      unfolding phases
      phases_granted header' answer e = ground arith
