-- ===== src/Net/Device/Lease.antt =====
-- `get_lease` of kernel/src/net/protocols/dhcp.rs on a device: its bind, its packets and its two phases.
pub mod Sent
pub mod Cases
pub mod Refine
mod Tests
use elise.Base.{
  ℕ, ◌+◌, ◌≤◌, ◌≡◌, refl, sym, ap, subst, ◌∙◌, inl, inr, arith, Bool, false, Option, none, some,
  Option-cases, List, [], ◌∷◌, ◌++◌, length, append_assoc, append-nil, if◌then◌else◌, ◌==◌,
  Bool-cases,
}
use elise.Cursor.{Run, returns, panics}
use elise.Net.Packet.{Packet, raw}
use elise.Net.Ports.{Ports, Queues, contains_key, remove_key, bind_udp_port, unbind_udp}
use elise.Net.Dhcp.{
  MessageType, offer, ack, discover, request, DhcpOption, server_ip, requested_ip, build,
}
use elise.Net.Lease
use elise.Net.Lease.{
  Lease, receive, reply_of, word_at, find_server_ip, find_broadcast_ip, find_subnet_mask,
  request_options,
}
use elise.Net.Lease.Request.{client_port, request_addr, create_dhcp_request}
use elise.Net.Lease.Request.Written.{request_header, create_dhcp_request-bytes}
use elise.Net.Builder.Udp.Carries.{Carries}
use elise.Net.Device.{Device, queue_at, send, ◌>>=◌}
use elise.Net.Device.Steps.{with_ports}
use elise.Net.Device.Quiet.{AreEmpty}
use elise.Net.Device.Timeout.{recv_timeout, ArePolled, datagrams, IsUnsent, recv_timeout-receive}

abbrev pub Reply : Type 0
Reply = List ℕ × List DhcpOption

module _ (capacity : List Packet → ℕ) (allocated : Packet) (xid : ℕ) where
  unfoldable pub send_dhcp_request : MessageType → List DhcpOption → Device → Run Device
  send_dhcp_request m extra d =
      create_dhcp_request xid d.mac (build (request_options m extra)) allocated >>= λ packet.
      returns (send packet d)

  -- A phase: a request, and the first reply of a kind before the timeout.
  unfoldable pub phase :
      MessageType
      → List DhcpOption
      → MessageType
      → List (Option Packet)
      → Device
      → Run (Option Reply × Device)
  phase m extra kind polls d = send_dhcp_request m extra d >>= λ d₁.
      recv_timeout capacity allocated (λ _ udp. reply_of kind xid d.mac udp) client_port polls d₁

  -- Behind the bind; `offers` and `acks` are the polls of the two phases.
  unfoldable pub phases :
      List (Option Packet) → List (Option Packet) → Device → Run (Option Lease × Device)
  phases offers acks d = phase discover [] offer offers d >>= λ (offered, d₁). elim offered [
    | none ↦ returns (none, d₁)
    | some (header, options) ↦ elim (word_at 16 header) [
      | none ↦ returns (none, d₁)
      | some offered_ip ↦ elim (find_server_ip options) [
        | none ↦ returns (none, d₁)
        | some server ↦
            phase request (requested_ip offered_ip ∷ server_ip server ∷ []) ack acks d₁
            >>= λ (granted, d₂). elim granted [
              | none ↦ returns (none, d₂)
              | some (_, answer) ↦ returns (
                some (record {
                  client_ip = offered_ip;
                  server = server;
                  broadcast_addr = find_broadcast_ip answer;
                  mask = find_subnet_mask answer;
                }),
                d₂,
              )
            ]
      ]
    ]
  ]

  -- The bind is dropped on every return.
  unfoldable pub get_lease :
      List (Option Packet) → List (Option Packet) → Device → Run (Option Lease × Device)
  get_lease offers acks d =
      let (bind, ports) = bind_udp_port client_port d.ports in
      let rest =
        (phases offers acks (with_ports ports d) >>= λ (lease, d').
        returns (lease, with_ports (unbind_udp client_port d'.ports) d')) in
      elim bind [ none ↦ returns (none, with_ports ports d) | some _ ↦ rest ]
