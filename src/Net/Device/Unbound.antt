-- ===== src/Net/Device/Unbound.antt =====
-- The calls on a device of kernel/src/net that leave its binds as they are.
use elise.Base.{
  ℕ, ◌≡◌, refl, sym, ◌∙◌, arith, Option, none, some, List, [], ◌∷◌, ◌⊎◌, inl, inr, Option-cases,
  replicate,
}
use elise.Cursor.{Run, returns, panics}
use elise.Net.Packet.{Packet}
use elise.Net.Udp
use elise.Net.Arp.{request, build_arp_packet}
use elise.Net.Device.{
  Device, queue_at, send, discard_arp, discard_udp, discard, recv_new, recv_udp, await_reply,
  arp_rounds, arp,
}
use elise.Net.Device.Quiet.{AreEmpty, queue_at-AreEmpty}

-- The outcome of a call: it panics, or it returns a state.
Run-cases : {A : Type 0} (m : Run A) → (m ≡ panics) ⊎ ((a : A) × (m ≡ returns a))
Run-cases panics = inl refl
Run-cases (returns a) = inr (a, refl)

module _ (capacity : List Packet → ℕ) (allocated : Packet) where
  discard_arp-ports :
      (pk : Packet) (d d' : Device) (left : Option Packet)
      → discard_arp capacity allocated pk d ≡ returns (left, d')
      → d'.ports ≡ d.ports
  unfolding discard_arp
  discard_arp-ports pk d d' left e = ground arith

  discard_udp-ports :
      (pk : Packet) (d d' : Device) (left : Option Packet)
      → discard_udp capacity allocated pk d ≡ returns (left, d')
      → d'.ports ≡ d.ports
  unfolding discard_udp
  discard_udp-ports pk d d' left e = ground arith

  pub discard-ports :
      (pk : Packet) (d d' : Device)
      → discard capacity allocated pk d ≡ returns d'
      → d'.ports ≡ d.ports
  unfolding discard
  discard-ports pk d d' e = elim (Run-cases (discard_arp capacity allocated pk d)) [
    | inl stop ↦ ground arith
    | inr ((none, d₁), first) ↦ let one = discard_arp-ports pk d d₁ none first in ground arith
    | inr ((some pk', d₁), first) ↦
        let one = discard_arp-ports pk d d₁ (some pk') first in
        elim (Run-cases (discard_udp capacity allocated pk' d₁)) [
          | inl stop ↦ ground arith
          | inr ((none, d₂), second) ↦
              let two = discard_udp-ports pk' d₁ d₂ none second in ground arith
          | inr ((some pk'', d₂), second) ↦
              let two = discard_udp-ports pk' d₁ d₂ (some pk'') second in ground arith
        ]
  ]

  module _ {T : Type 0} (func : Packet → Udp.Parsed → Option T) where
    recv_new-ports :
        (port : ℕ) (incoming : Option Packet) (d d' : Device) (answer : Option T)
        → recv_new capacity allocated func port incoming d ≡ returns (answer, d')
        → d'.ports ≡ d.ports
    unfolding recv_new
    recv_new-ports port none d d' answer e = ground arith
    recv_new-ports port (some pk) d d' answer e =
        elim (Run-cases (discard capacity allocated pk d)) [
          | inl stop ↦ ground arith
          | inr (d₁, done) ↦ let kept = discard-ports pk d d₁ done in ground arith
        ]

    pub recv_udp-new :
        (port : ℕ) (incoming : Option Packet) (d : Device)
        → queue_at port d.ports.udp_binds ≡ some []
        → recv_udp capacity allocated func port incoming d
          ≡ recv_new capacity allocated func port incoming d
    unfolding recv_udp
    recv_udp-new port incoming d bound = ground arith

    -- Where nothing waits at any port, `recv_udp` does not touch the queues.
    pub recv_udp-ports :
        (port : ℕ) (incoming : Option Packet) (d d' : Device) (answer : Option T)
        → AreEmpty d.ports.udp_binds
        → recv_udp capacity allocated func port incoming d ≡ returns (answer, d')
        → d'.ports ≡ d.ports
    unfolding recv_udp
    recv_udp-ports port incoming d d' answer quiet e =
        elim (queue_at-AreEmpty port d.ports.udp_binds quiet) [
          | inl unbound ↦ ground arith
          | inr bound ↦
              recv_new-ports port incoming d d' answer
                (sym (recv_udp-new port incoming d bound) ∙ e)
        ]

  await_reply-ports :
      (ip this_ip : ℕ) (pks : List Packet) (d d' : Device) (found : Option (List ℕ))
      → await_reply capacity allocated ip this_ip pks d ≡ returns (found, d')
      → d'.ports ≡ d.ports
  unfolding await_reply
  await_reply-ports ip this_ip [] d d' found e = ground arith
  await_reply-ports ip this_ip (pk ∷ later) d d' found e =
      elim (Run-cases (discard capacity allocated pk d)) [
        | inl stop ↦ ground arith
        | inr (d₁, done) ↦
            let kept = discard-ports pk d d₁ done in
            let next = await_reply-ports ip this_ip later d₁ d' found in ground arith
      ]

  arp_rounds-ports :
      (ip this_ip : ℕ) (rounds : List (List Packet)) (d d' : Device) (found : Option (List ℕ))
      → arp_rounds capacity allocated ip this_ip rounds d ≡ returns (found, d')
      → d'.ports ≡ d.ports
  unfolding arp_rounds
  arp_rounds-ports ip this_ip [] d d' found e = ground arith
  arp_rounds-ports ip this_ip (arrivals ∷ rounds) d d' found e =
      elim (Run-cases (build_arp_packet allocated request d.mac this_ip (replicate 6 0) ip)) [
        | inl stop ↦ ground arith
        | inr ((none, packet), built) ↦ ground arith
        | inr ((some x, packet), built) ↦
            elim (Run-cases (await_reply capacity allocated ip this_ip arrivals (send packet d))) [
              | inl stop ↦ ground arith
              | inr ((none, d₁), waited) ↦
                  let kept = await_reply-ports ip this_ip arrivals (send packet d) d₁ none waited in
                  let next = arp_rounds-ports ip this_ip rounds d₁ d' found in ground arith
              | inr ((some mac, d₁), waited) ↦
                  let kept =
                    await_reply-ports ip this_ip arrivals (send packet d) d₁ (some mac) waited in
                  ground arith
            ]
      ]

  pub arp-ports :
      (ip : ℕ) (rounds : List (List Packet)) (d d' : Device) (found : Option (List ℕ))
      → arp capacity allocated ip rounds d ≡ returns (found, d')
      → d'.ports ≡ d.ports
  unfolding arp
  arp-ports ip rounds d d' found e = elim (Option-cases d.client_ip) [
    | inl no_lease ↦ ground arith
    | inr (this_ip, lease) ↦
        let kept = arp_rounds-ports ip this_ip rounds d d' found in ground arith
  ]
