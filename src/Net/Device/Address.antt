-- ===== src/Net/Device/Address.antt =====
-- `NetAddress::resolve` of kernel/src/net/net.rs, and a datagram to the address that it finds.
use elise.Base.{
  ℕ, ◌+◌, ◌≤◌, ◌<◌, ◌^◌, ◌≡◌, ap, ◌∙◌, inl, inr, arith, Option-cases, Option, none, some, List, [],
  ◌∷◌, length,
}
use elise.Cursor.{Run, returns}
use elise.Net.Packet.{Packet, max_packet_len}
use elise.Net.Arp.{parse_arp}
use elise.Net.Builder.Ip.{v4}
use elise.Net.Builder.Udp.{NetAddress, send_udp}
use elise.Net.Builder.Udp.Carries.{IsAddress, Carries}
use elise.Net.Builder.Udp.RoundTrip.{send_udp-Carries}
use elise.Net.Device.{Device, arp, ◌>>=◌}
use elise.Net.Device.Quiet.{AreEmpty, Parse-cases, parse_arp-sender}
use elise.Net.Device.Resolve.{first_reply, reply_in}
use elise.Net.Device.Resolve.Rounds.{AreRounds, first_round, arp-first_round}

unfoldable pub resolve :
    (List Packet → ℕ)
    → Packet
    → ℕ
    → ℕ
    → ℕ
    → List (List Packet)
    → Device
    → Run (Option NetAddress × Device)
resolve capacity allocated src_port dst_port dst_ip rounds d = do
  (found, d') ← arp capacity allocated dst_ip rounds d
  elim found [
    | none ↦ returns (none, d')
    | some dst_mac ↦ elim d'.client_ip [
      | none ↦ returns (none, d')
      | some client_ip ↦ returns (
        some (record {
          src_mac = d.mac;
          src_ip = v4 client_ip;
          src_port = src_port;
          dst_mac = dst_mac;
          dst_ip = v4 dst_ip;
          dst_port = dst_port;
        }),
        d',
      )
    ]
  ]

module _ (ip this_ip : ℕ) (mac : List ℕ) where
  reply_in-length :
      (bytes found : List ℕ) → reply_in ip this_ip mac bytes ≡ some found → length found ≡ 6
  unfolding reply_in
  reply_in-length bytes found r = elim (Parse-cases (parse_arp bytes)) [
    | inl (p, e) ↦ let six = parse_arp-sender bytes p e in ground arith
    | inr (_, e) ↦ ground arith
  ]

  first_reply-length :
      (raws : List (List ℕ)) (found : List ℕ)
      → first_reply ip this_ip mac raws ≡ some found
      → length found ≡ 6
  unfolding first_reply
  first_reply-length [] found r = ground arith
  first_reply-length (bytes ∷ raws) found r = elim (Option-cases (reply_in ip this_ip mac bytes)) [
    | inl e ↦ let later = first_reply-length raws found in ground arith
    | inr (mac', e) ↦ let six = reply_in-length bytes mac' e in ground arith
  ]

  first_round-length :
      (rounds : List (List (List ℕ))) (found : List ℕ)
      → first_round ip this_ip mac rounds ≡ some found
      → length found ≡ 6
  unfolding first_round
  first_round-length [] found r = ground arith
  first_round-length (raws ∷ rounds) found r =
      elim (Option-cases (first_reply ip this_ip mac raws)) [
        | inl e ↦ let later = first_round-length rounds found in ground arith
        | inr (mac', e) ↦ let six = first_reply-length raws mac' e in ground arith
      ]

-- The fields of a resolved address.
abbrev pub address : ℕ → ℕ → ℕ → ℕ → List ℕ → List ℕ → NetAddress
address src_port dst_port ip this_ip mac dst_mac = record {
  src_mac = mac;
  src_ip = v4 this_ip;
  src_port = src_port;
  dst_mac = dst_mac;
  dst_ip = v4 ip;
  dst_port = dst_port;
}

resolve-found :
    (capacity : List Packet → ℕ) (allocated : Packet) (src_port dst_port ip this_ip : ℕ)
    (dst_mac : List ℕ) (rounds : List (List Packet)) (d d' : Device)
    → arp capacity allocated ip rounds d ≡ returns (some dst_mac, d')
    → d'.client_ip ≡ some this_ip
    → resolve capacity allocated src_port dst_port ip rounds d
      ≡ returns (some (address src_port dst_port ip this_ip d.mac dst_mac), d')
unfolding resolve
resolve-found capacity allocated src_port dst_port ip this_ip dst_mac rounds d d' e lease =
    ground arith

module _ (capacity : List Packet → ℕ) (memory : List ℕ) (none_yet : capacity [] ≡ 0)
    (size : length memory ≡ 4096) where
  abbrev allocated : Packet
  allocated = record { memory = memory; len = 0 }

  -- With a lease, where the first valid reply in the retries comes from `dst_mac`, `resolve` returns the
  -- address from this device and its lease to `dst_mac` and the IP address asked for; then a payload that
  -- fits `max_packet_len` bytes with 42 bytes of headers is sent to it in an empty packet, which the parser
  -- reads back with that address and payload. The ports and the IP addresses fit their fields, and the rest
  -- is as for `arp`: the packets' lengths are within their memory, nothing waits at any port, a new queue
  -- has no capacity, the hardware address has six bytes, and the driver allocates empty packets with 4096
  -- bytes of memory.
  pub resolve-Carries :
      (src_port dst_port ip this_ip : ℕ) (dst_mac payload : List ℕ) (rounds : List (List Packet))
      (raws : List (List (List ℕ))) (d : Device)
      → (src_port < 2 ^ 16) × (dst_port < 2 ^ 16)
      → (this_ip < 2 ^ 32) × (ip < 2 ^ 32)
      → 42 + length payload ≤ max_packet_len
      → AreRounds rounds raws
      → AreEmpty d.ports.udp_binds
      → length d.mac ≡ 6
      → d.client_ip ≡ some this_ip
      → first_round ip this_ip d.mac raws ≡ some dst_mac
      → let addr = address src_port dst_port ip this_ip d.mac dst_mac in
        (d' : Device) × (p : Packet) × (resolve capacity allocated src_port dst_port ip rounds d
          ≡ returns (some addr, d'))
        × (send_udp addr payload allocated ≡ returns (some (0, length payload), p))
        × Carries addr payload p
  resolve-Carries src_port dst_port ip this_ip dst_mac payload rounds raws d ports_fit ips fits h
        quiet six lease found =
      let (d', result, keeps) =
        arp-first_round capacity memory none_yet size ip this_ip rounds raws d h quiet six lease in
      let addr = address src_port dst_port ip this_ip d.mac dst_mac in
      let is_address : IsAddress addr = record {
        macs = (six, first_round-length ip this_ip d.mac raws dst_mac found);
        ports_fit = ports_fit;
        ips = ips;
      } in
      let (p, sent, carries) = send_udp-Carries addr payload memory is_address size fits in
      (
        d',
        p,
        resolve-found capacity allocated src_port dst_port ip this_ip dst_mac rounds d d'
            (result ∙ ap (λ f. returns (f, d')) found) (keeps.same_lease ∙ lease),
        sent,
        carries,
      )
