-- ===== src/Net/Device/Lease/Refine.antt =====
-- `get_lease` of kernel/src/net/protocols/dhcp.rs on a device does what it does on datagrams.
use elise.Base.{
  ℕ, ◌≡◌, refl, ap, ◌∙◌, inl, inr, arith, false, Option, none, some, Option-cases, List, [], ◌∷◌,
  length,
}
use elise.Cursor.{returns}
use elise.Net.Packet.{Packet}
use elise.Net.Ports.{Ports, Queues, contains_key, remove_key, bind_udp_port, unbind_udp}
use elise.Net.Udp
use elise.Net.Dhcp.{offer, ack, discover, request, DhcpOption, server_ip, requested_ip}
use elise.Net.Lease
use elise.Net.Lease.{
  Lease, receive, reply_of, word_at, find_server_ip, find_broadcast_ip, find_subnet_mask,
  request_options,
}
use elise.Net.Lease.Request.{client_port}
use elise.Net.Device.{Device}
use elise.Net.Device.Quiet.{AreEmpty}
use elise.Net.Device.Timeout.{ArePolled, datagrams}
use elise.Net.Device.Steps.{with_ports}
use elise.Net.Device.Lease.{phase, phases, get_lease}
use elise.Net.Device.Lease.Sent.{
  IsClient, HasSent, HasSent-trans, HasSent-IsClient, length-request_options, phase-HasSent,
  IsAsked, IsAsked-of, phases_unoffered, phases_without_address, phases_without_server,
  phases_ungranted, phases_granted,
}
use elise.Net.Device.Lease.Cases.{
  discovery, asked_options, get_lease_unoffered, get_lease_without_address,
  get_lease_without_server, get_lease_ungranted, get_lease_granted,
}

module _ (capacity : List Packet → ℕ) (memory : List ℕ) (none_yet : capacity [] ≡ 0)
    (size : length memory ≡ 4096) (xid : ℕ) where
  abbrev allocated : Packet
  allocated = record { memory = memory; len = 0 }

  -- The second phase, once the first has found an address and a server.
  second-IsAsked :
      (offers acks : List (Option Packet)) (offered : List Udp.Parsed) (raws' : List (List ℕ))
      (d d₁ : Device) (header : List ℕ) (options : List DhcpOption) (ip server : ℕ)
      → ArePolled acks raws'
      → IsClient d
      → HasSent xid (discovery ∷ []) d d₁
      → receive (reply_of offer xid d.mac) offered ≡ some (header, options)
      → phase capacity allocated xid discover [] offer offers d
        ≡ returns (some (header, options), d₁)
      → word_at 16 header ≡ some ip
      → find_server_ip options ≡ some server
      → IsAsked xid d
          (phases capacity allocated xid offers acks d)
          (Lease.get_lease xid d.mac offered (datagrams client_port raws'))
  second-IsAsked offers acks offered raws' d d₁ header options ip server polled' c sent₁ r first w
        f =
      let granted = datagrams client_port raws' in
      let (d₂, two, sent₂) =
        phase-HasSent capacity memory none_yet size xid request ack
          (requested_ip ip ∷ server_ip server ∷ []) acks raws' d₁
          (length-request_options request ip server).1 polled'
          (HasSent-IsClient xid (discovery ∷ []) d d₁ sent₁ c) in
      let both =
        HasSent-trans xid (discovery ∷ []) (asked_options ip server ∷ []) d d₁ d₂ sent₁ sent₂ in
      let again =
        two ∙ ap (λ mac. returns (receive (reply_of ack xid mac) granted, d₂)) sent₁.same_mac in
      elim (Option-cases (receive (reply_of ack xid d.mac) granted)) [
        | inl g ↦
            IsAsked-of d₂
              (get_lease_ungranted xid d.mac offered granted header options ip server r w f g)
              (phases_ungranted capacity memory none_yet size xid offers acks d d₁ header options ip
                server d₂ first w f (again ∙ ap (λ v. returns (v, d₂)) g))
              both
        | inr ((header', answer), g) ↦
            IsAsked-of d₂
              (get_lease_granted xid d.mac offered granted header options ip server r w f header'
                answer g)
              (phases_granted capacity memory none_yet size xid offers acks d d₁ header options ip
                server d₂ first w f header' answer (again ∙ ap (λ v. returns (v, d₂)) g))
              both
      ]

  -- The phases behind the bind.
  phases-IsAsked :
      (offers acks : List (Option Packet)) (raws raws' : List (List ℕ)) (d : Device)
      → ArePolled offers raws
      → ArePolled acks raws'
      → IsClient d
      → IsAsked xid d
          (phases capacity allocated xid offers acks d)
          (Lease.get_lease xid d.mac (datagrams client_port raws) (datagrams client_port raws'))
  phases-IsAsked offers acks raws raws' d polled polled' c =
      let offered = datagrams client_port raws in
      let granted = datagrams client_port raws' in
      let (d₁, one, sent₁) =
        phase-HasSent capacity memory none_yet size xid discover offer [] offers raws d
          (length-request_options discover 0 0).0 polled c in
      elim (Option-cases (receive (reply_of offer xid d.mac) offered)) [
        | inl r ↦
            IsAsked-of d₁ (get_lease_unoffered xid d.mac offered granted [] [] 0 0 r)
              (phases_unoffered capacity memory none_yet size xid offers acks d d₁ [] [] 0 0
                (one ∙ ap (λ v. returns (v, d₁)) r))
              sent₁
        | inr ((header, options), r) ↦
            let first = one ∙ ap (λ v. returns (v, d₁)) r in
            elim (Option-cases (word_at 16 header)) [
              | inl w ↦
                  IsAsked-of d₁
                    (get_lease_without_address xid d.mac offered granted header options 0 0 r w)
                    (phases_without_address capacity memory none_yet size xid offers acks d d₁
                      header options 0 0 first w)
                    sent₁
              | inr (ip, w) ↦ elim (Option-cases (find_server_ip options)) [
                | inl f ↦
                    IsAsked-of d₁
                      (get_lease_without_server xid d.mac offered granted header options ip 0 r w f)
                      (phases_without_server capacity memory none_yet size xid offers acks d d₁
                        header options ip 0 first w f)
                      sent₁
                | inr (server, f) ↦
                    second-IsAsked offers acks offered raws' d d₁ header options ip server polled' c
                      sent₁ r first w f
              ]
            ]
      ]

-- The device once the port of the client is bound, and once it is free again.
abbrev bound_ports : Ports → Ports
bound_ports s = record s { udp_binds = (client_port, []) ∷ s.udp_binds }

remove_key-absent :
    (port : ℕ) (queues : Queues)
    → contains_key port queues ≡ false
    → remove_key port queues ≡ queues
remove_key-absent port [] h = refl
remove_key-absent port ((p, q) ∷ queues) h = ground (arith, remove_key-absent port queues)

unbind-bound_ports :
    (s : Ports)
    → contains_key client_port s.udp_binds ≡ false
    → unbind_udp client_port (bound_ports s) ≡ s
unfolding unbind_udp
unbind-bound_ports s h =
    ap (λ queues. record s { udp_binds = queues }) (remove_key-absent client_port s.udp_binds h)

bind-bound_ports :
    (s : Ports)
    → contains_key client_port s.udp_binds ≡ false
    → bind_udp_port client_port s ≡ (some client_port, bound_ports s)
unfolding bind_udp_port
bind-bound_ports s h = rw h refl

module _ (capacity : List Packet → ℕ) (allocated : Packet) (xid : ℕ) where
  get_lease-phases :
      (offers acks : List (Option Packet)) (d d₁ : Device) (lease : Option Lease)
      → contains_key client_port d.ports.udp_binds ≡ false
      → phases capacity allocated xid offers acks (with_ports (bound_ports d.ports) d)
        ≡ returns (lease, d₁)
      → get_lease capacity allocated xid offers acks d
        ≡ returns (lease, with_ports (unbind_udp client_port d₁.ports) d₁)
  unfolding get_lease
  get_lease-phases offers acks d d₁ lease free e =
      let bind = ap (λ b. b.0) (bind-bound_ports d.ports free) in
      let ports = ap (λ b. b.1) (bind-bound_ports d.ports free) in
      rw (get_lease, bind, ports, e) refl

module _ (capacity : List Packet → ℕ) (memory : List ℕ) (none_yet : capacity [] ≡ 0)
    (size : length memory ≡ 4096) (xid : ℕ) where
  -- On a device without a lease, where nothing waits and the port of the client is free, `get_lease` returns
  -- the lease that it is given by the datagrams for the port that the polls of its phases bring; it sends its
  -- requests as broadcasts that carry their options, and nothing else, and frees the port again. The packets'
  -- lengths are within their memory, a new queue has no capacity, the hardware address has six bytes, and the
  -- driver allocates empty packets with 4096 bytes of memory.
  pub get_lease-HasSent :
      (offers acks : List (Option Packet)) (raws raws' : List (List ℕ)) (d : Device)
      → ArePolled offers raws
      → ArePolled acks raws'
      → d.client_ip ≡ none
      → AreEmpty d.ports.udp_binds
      → contains_key client_port d.ports.udp_binds ≡ false
      → length d.mac ≡ 6
      → let (requests, lease) =
          Lease.get_lease xid d.mac (datagrams client_port raws) (datagrams client_port raws') in
        (d' : Device) × (get_lease capacity (record { memory = memory; len = 0 }) xid offers acks d
          ≡ returns (lease, d'))
        × HasSent xid requests d d'
  get_lease-HasSent offers acks raws raws' d polled polled' unleased quiet free six =
      let inside = with_ports (bound_ports d.ports) d in
      let client : IsClient inside = record {
        unleased = unleased;
        quiet = (refl, quiet);
        bound = refl;
        six = six;
      } in
      let run =
        phases-IsAsked capacity memory none_yet size xid offers acks raws raws' inside polled
          polled' client in
      let sent = run.sent in
      (
        with_ports (unbind_udp client_port run.after.ports) run.after,
        get_lease-phases capacity (record { memory = memory; len = 0 }) xid offers acks d run.after
            _ free run.result,
        record {
          packets = sent.packets;
          carried = sent.carried;
          all_sent = sent.all_sent;
          same_mac = sent.same_mac;
          same_lease = sent.same_lease;
          same_ports =
              ap (unbind_udp client_port) sent.same_ports ∙ unbind-bound_ports d.ports free;
        },
      )
