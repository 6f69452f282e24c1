-- ===== src/Net/Device/Timeout.antt =====
-- `UdpBind::recv_timeout` of kernel/src/net/protocols/udp.rs on a device that has no lease yet.
use elise.Base.{
  ℕ, ◌≡◌, refl, sym, ap, ◌∙◌, inl, inr, arith, Option, none, some, Option-cases, List, [], ◌∷◌,
  length, ◌==◌, if◌then◌else◌,
}
use elise.Cursor.{Run, returns}
use elise.Net.Packet.{Packet, parsed, refused, raw}
use elise.Net.Udp
use elise.Net.Udp.{parse_udp}
use elise.Net.Arp
use elise.Net.Arp.{parse_arp}
use elise.Net.Lease.{receive}
use elise.Net.Device.{Device, queue_at, release, discard_arp, discard, recv_new, recv_udp, ◌>>=◌}
use elise.Net.Device.Quiet.{
  AreEmpty, Parse-cases, discard_udp-release, discard_arp_back, discard_udp_back,
}
use elise.Net.Device.Unbound.{recv_udp-new}

-- One poll of the driver for each round of the loop before the timeout.
unfoldable pub recv_timeout :
    (List Packet → ℕ)
    → Packet
    → {T : Type 0} → (Packet → Udp.Parsed → Option T)
    → ℕ
    → List (Option Packet)
    → Device
    → Run (Option T × Device)
recv_timeout capacity allocated func port [] d = returns (none, d)
recv_timeout capacity allocated func port (incoming ∷ later) d =
    let rest = recv_timeout capacity allocated func port later in
    recv_udp capacity allocated func port incoming d >>= λ (val, d'). elim val [
      | none ↦ rest d'
      | some a ↦ returns (some a, d')
    ]

-- The bytes of the packets that the polls bring.
abbrev pub ArePolled : List (Option Packet) → List (List ℕ) → Type 0
ArePolled [] [] = Unit {0}
ArePolled (none ∷ polls) raws = ArePolled polls raws
ArePolled (some pk ∷ polls) (bytes ∷ raws) = (raw pk ≡ returns bytes) × ArePolled polls raws
ArePolled _ _ = ⊥

-- The datagrams for a port among them.
unfoldable pub datagrams : ℕ → List (List ℕ) → List Udp.Parsed
datagrams port [] = []
datagrams port (bytes ∷ raws) =
    let later = datagrams port raws in
    elim (parse_udp bytes) [
      | refused _ ↦ later
      | parsed udp ↦ if udp.dst_port == port then udp ∷ later else later
    ]

-- Only the packets that went back to the driver tell the devices apart.
pub record IsUnsent (d d' : Device) : Type 0 where
  pub same_mac : d'.mac ≡ d.mac
  pub same_lease : d'.client_ip ≡ d.client_ip
  pub same_ports : d'.ports ≡ d.ports
  pub same_sent : d'.sent ≡ d.sent

release-IsUnsent : (pk : Packet) (d d' : Device) → IsUnsent (release pk d) d' → IsUnsent d d'
release-IsUnsent pk d d' u = record {
  same_mac = u.same_mac;
  same_lease = u.same_lease;
  same_ports = u.same_ports;
  same_sent = u.same_sent;
}

module _ (capacity : List Packet → ℕ) (memory : List ℕ) (none_yet : capacity [] ≡ 0)
    (size : length memory ≡ 4096) where
  abbrev allocated : Packet
  allocated = record { memory = memory; len = 0 }

  discard_arp-unleased :
      (pk : Packet) (d : Device) (bytes : List ℕ) (p : Arp.Parsed)
      → d.client_ip ≡ none
      → raw pk ≡ returns bytes
      → parse_arp bytes ≡ parsed p
      → discard_arp capacity allocated pk d ≡ returns (none, release pk d)
  unfolding discard_arp
  discard_arp-unleased pk d bytes p no_lease e a = ground arith

  -- Without a lease, no packet is answered.
  discard-unleased :
      (pk : Packet) (d : Device) (bytes : List ℕ)
      → d.client_ip ≡ none
      → AreEmpty d.ports.udp_binds
      → raw pk ≡ returns bytes
      → discard capacity allocated pk d ≡ returns (release pk d)
  unfolding discard
  discard-unleased pk d bytes no_lease quiet e = elim (Parse-cases (parse_arp bytes)) [
    | inl (p, a) ↦ rw (discard, discard_arp-unleased pk d bytes p no_lease e a) refl
    | inr (_, a) ↦
        let arp_back = discard_arp_back capacity memory none_yet size pk d bytes e a in
        elim (Parse-cases (parse_udp bytes)) [
          | inl (p, u) ↦
              rw
                (
                  discard,
                  arp_back,
                  discard_udp-release capacity memory none_yet size pk d bytes p quiet e u,
                )
                refl
          | inr (_, u) ↦
              rw (discard, arp_back, discard_udp_back capacity memory none_yet size pk d bytes e u)
                refl
        ]
  ]

  module _ {T : Type 0} (f : Udp.Parsed → Option T) (port : ℕ) where
    abbrev take_it : Packet → Udp.Parsed → Option T
    take_it pk udp = f udp

    -- What a poll that brings a packet takes.
    unfoldable taken : List ℕ → Option T
    taken bytes = elim (parse_udp bytes) [
      | refused _ ↦ none
      | parsed udp ↦ if udp.dst_port == port then f udp else none
    ]

    recv_udp-taken :
        (pk : Packet) (d : Device) (bytes : List ℕ)
        → d.client_ip ≡ none
        → AreEmpty d.ports.udp_binds
        → queue_at port d.ports.udp_binds ≡ some []
        → raw pk ≡ returns bytes
        → recv_udp capacity allocated take_it port (some pk) d ≡ returns (taken bytes, release pk d)
    unfolding recv_new taken
    recv_udp-taken pk d bytes no_lease quiet bound e =
        let dropped = discard-unleased pk d bytes no_lease quiet e in
        recv_udp-new capacity allocated take_it port (some pk) d bound ∙ ground arith

    recv_udp-none :
        (d : Device)
        → queue_at port d.ports.udp_binds ≡ some []
        → recv_udp capacity allocated take_it port none d ≡ returns (none, d)
    unfolding recv_new
    recv_udp-none d bound = recv_udp-new capacity allocated take_it port none d bound

    receive-taken :
        (bytes : List ℕ) (raws : List (List ℕ))
        → taken bytes ≡ none
        → receive f (datagrams port (bytes ∷ raws)) ≡ receive f (datagrams port raws)
    unfolding taken datagrams
    receive-taken bytes raws e = elim (Parse-cases (parse_udp bytes)) [
      | inl (p, u) ↦ ground arith
      | inr (_, u) ↦ ground arith
    ]

    receive-some :
        (bytes : List ℕ) (raws : List (List ℕ)) (a : T)
        → taken bytes ≡ some a
        → receive f (datagrams port (bytes ∷ raws)) ≡ some a
    unfolding taken datagrams
    receive-some bytes raws a e = elim (Parse-cases (parse_udp bytes)) [
      | inl (p, u) ↦ ground arith
      | inr (_, u) ↦ ground arith
    ]

    recv_timeout-next :
        (incoming : Option Packet) (later : List (Option Packet)) (d d₁ : Device)
        → recv_udp capacity allocated take_it port incoming d ≡ returns (none, d₁)
        → recv_timeout capacity allocated take_it port (incoming ∷ later) d
          ≡ recv_timeout capacity allocated take_it port later d₁
    unfolding recv_timeout
    recv_timeout-next incoming later d d₁ e = rw (recv_timeout, e) refl

    recv_timeout-some :
        (incoming : Option Packet) (later : List (Option Packet)) (d d₁ : Device) (a : T)
        → recv_udp capacity allocated take_it port incoming d ≡ returns (some a, d₁)
        → recv_timeout capacity allocated take_it port (incoming ∷ later) d ≡ returns (some a, d₁)
    unfolding recv_timeout
    recv_timeout-some incoming later d d₁ a e = rw (recv_timeout, e) refl

    -- On a device without a lease, where nothing waits at any port and the port is bound, `recv_timeout`
    -- returns what its closure makes of the first datagram for the port that it takes, and sends nothing.
    pub recv_timeout-receive :
        (polls : List (Option Packet)) (raws : List (List ℕ)) (d : Device)
        → ArePolled polls raws
        → d.client_ip ≡ none
        → AreEmpty d.ports.udp_binds
        → queue_at port d.ports.udp_binds ≡ some []
        → (d' : Device) × (recv_timeout capacity allocated take_it port polls d
            ≡ returns (receive f (datagrams port raws), d'))
          × IsUnsent d d'
    unfolding recv_timeout datagrams
    recv_timeout-receive [] [] d h no_lease quiet bound = (
      d,
      refl,
      record { same_mac = refl; same_lease = refl; same_ports = refl; same_sent = refl },
    )
    recv_timeout-receive [] (_ ∷ _) d h no_lease quiet bound = absurd h
    recv_timeout-receive (none ∷ polls) raws d h no_lease quiet bound =
        let (d', result, kept) = recv_timeout-receive polls raws d h no_lease quiet bound in
        (d', recv_timeout-next none polls d d (recv_udp-none d bound) ∙ result, kept)
    recv_timeout-receive (some pk ∷ polls) [] d h no_lease quiet bound = absurd h
    recv_timeout-receive (some pk ∷ polls) (bytes ∷ raws) d (e, h) no_lease quiet bound =
        let one = recv_udp-taken pk d bytes no_lease quiet bound e in
        elim (Option-cases (taken bytes)) [
          | inl nothing ↦
              let (d', result, kept) =
                recv_timeout-receive polls raws (release pk d) h no_lease quiet bound in
              (
                d',
                recv_timeout-next (some pk) polls d (release pk d)
                      (one ∙ ap (λ v. returns (v, release pk d)) nothing)
                    ∙ result
                    ∙ ap (λ v. returns (v, d')) (sym (receive-taken bytes raws nothing)),
                release-IsUnsent pk d d' kept,
              )
          | inr (a, found) ↦ (
            release pk d,
            recv_timeout-some (some pk) polls d (release pk d) a
                  (one ∙ ap (λ v. returns (v, release pk d)) found)
                ∙ ap (λ v. returns (v, release pk d)) (sym (receive-some bytes raws a found)),
            record { same_mac = refl; same_lease = refl; same_ports = refl; same_sent = refl },
          )
        ]
