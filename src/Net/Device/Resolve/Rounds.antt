-- ===== src/Net/Device/Resolve/Rounds.antt =====
-- `arp` of kernel/src/net/protocols/arp.rs, over its retries.
use elise.Base.{
  ℕ, Option-cases, ◌≡◌, refl, sym, ap, ◌∙◌, inl, inr, arith, Option, none, some, List, [], ◌∷◌,
  length, replicate,
}
use elise.Cursor.{returns}
use elise.Net.Packet.{Packet}
use elise.Net.Arp.{request, build_arp_packet}
use elise.Net.Arp.Built.{build_arp_packet_unreadable}
use elise.Net.Device.{Device, send, await_reply, arp_rounds, arp}
use elise.Net.Device.Quiet.{AreEmpty}
use elise.Net.Device.Resolve.{AreRaw, first_reply, Keeps, Keeps-trans, IsFound, IsFound-await_reply}

abbrev pub AreRounds : List (List Packet) → List (List (List ℕ)) → Type 0
AreRounds [] [] = Unit {0}
AreRounds (pks ∷ rounds) (bytes ∷ rest) = AreRaw pks bytes × AreRounds rounds rest
AreRounds _ _ = ⊥

unfoldable pub first_round : ℕ → ℕ → List ℕ → List (List (List ℕ)) → Option (List ℕ)
first_round ip this_ip mac [] = none
first_round ip this_ip mac (bytes ∷ rest) =
    let later = first_round ip this_ip mac rest in
    elim (first_reply ip this_ip mac bytes) [ none ↦ later | some found ↦ some found ]

kept_by_send : (packet : Packet) {d d' : Device} → Keeps (send packet d) d' → Keeps d d'
kept_by_send packet k = record {
  same_ports = k.same_ports;
  same_mac = k.same_mac;
  same_lease = k.same_lease;
}

module _ (capacity : List Packet → ℕ) (memory : List ℕ) (none_yet : capacity [] ≡ 0)
    (size : length memory ≡ 4096) (ip this_ip : ℕ) where
  abbrev allocated : Packet
  allocated = record { memory = memory; len = 0 }

  first_round-none :
      (mac : List ℕ) (raws : List (List ℕ)) (rounds : List (List (List ℕ)))
      → first_reply ip this_ip mac raws ≡ none
      → first_round ip this_ip mac (raws ∷ rounds) ≡ first_round ip this_ip mac rounds
  unfolding first_round
  first_round-none mac raws rounds r = ground arith

  first_round-some :
      (mac found : List ℕ) (raws : List (List ℕ)) (rounds : List (List (List ℕ)))
      → first_reply ip this_ip mac raws ≡ some found
      → first_round ip this_ip mac (raws ∷ rounds) ≡ some found
  unfolding first_round
  first_round-some mac found raws rounds r = ground arith

  arp_rounds-next :
      (pks : List Packet) (rounds : List (List Packet)) (d d' : Device) (packet : Packet)
      → build_arp_packet allocated request d.mac this_ip (replicate 6 0) ip
        ≡ returns (some tt, packet)
      → await_reply capacity allocated ip this_ip pks (send packet d) ≡ returns (none, d')
      → arp_rounds capacity allocated ip this_ip (pks ∷ rounds) d
        ≡ arp_rounds capacity allocated ip this_ip rounds d'
  unfolding arp_rounds
  arp_rounds-next pks rounds d d' packet built awaited = ground arith

  arp_rounds-found :
      (pks : List Packet) (rounds : List (List Packet)) (d d' : Device) (packet : Packet)
      (found : List ℕ)
      → build_arp_packet allocated request d.mac this_ip (replicate 6 0) ip
        ≡ returns (some tt, packet)
      → await_reply capacity allocated ip this_ip pks (send packet d) ≡ returns (some found, d')
      → arp_rounds capacity allocated ip this_ip (pks ∷ rounds) d ≡ returns (some found, d')
  unfolding arp_rounds
  arp_rounds-found pks rounds d d' packet found built awaited = ground arith

  IsFound-arp_rounds :
      (rounds : List (List Packet)) (raws : List (List (List ℕ))) (d : Device)
      → AreRounds rounds raws
      → AreEmpty d.ports.udp_binds
      → length d.mac ≡ 6
      → IsFound capacity memory none_yet size ip this_ip d
          (arp_rounds capacity allocated ip this_ip rounds d)
          (first_round ip this_ip d.mac raws)
  unfolding arp_rounds first_round
  IsFound-arp_rounds [] [] d h quiet six = record {
    after = d;
    result = refl;
    keeps = record { same_ports = refl; same_mac = refl; same_lease = refl };
  }
  IsFound-arp_rounds (pks ∷ rounds) (bytes ∷ raws) d (e, h) quiet six =
      let (packet, built, _, _, _) =
        build_arp_packet_unreadable request d.mac this_ip (replicate 6 0) ip six refl memory size in
      let one =
        IsFound-await_reply capacity memory none_yet size ip this_ip pks bytes (send packet d) e
          quiet six in
      elim (Option-cases (first_reply ip this_ip d.mac bytes)) [
        | inr (found, r) ↦ record {
          after = one.after;
          result =
              arp_rounds-found pks rounds d one.after packet found built
                (one.result ∙ ap (λ f. returns (f, one.after)) r)
              ∙ ap (λ f. returns (f, one.after)) (sym (first_round-some d.mac found bytes raws r));
          keeps = kept_by_send packet one.keeps;
        }
        | inl r ↦
            let rest =
              IsFound-arp_rounds rounds raws one.after h (rw one.keeps.same_ports quiet)
                (rw one.keeps.same_mac six) in
            record {
              after = rest.after;
              result =
                  arp_rounds-next pks rounds d one.after packet built
                    (one.result ∙ ap (λ f. returns (f, one.after)) r)
                  ∙ rest.result
                  ∙ ap (λ found. returns (found, rest.after))
                      (ap (λ mac. first_round ip this_ip mac raws) one.keeps.same_mac
                        ∙ sym (first_round-none d.mac bytes raws r));
              keeps = Keeps-trans rest.keeps (kept_by_send packet one.keeps);
            }
      ]
  IsFound-arp_rounds [] (_ ∷ _) d h quiet six = absurd h
  IsFound-arp_rounds (_ ∷ _) [] d h quiet six = absurd h

  arp-lease :
      (rounds : List (List Packet)) (d : Device)
      → d.client_ip ≡ some this_ip
      → arp capacity allocated ip rounds d ≡ arp_rounds capacity allocated ip this_ip rounds d
  unfolding arp
  arp-lease rounds d lease = ground arith

  -- With a lease, `arp` returns: it finds the hardware address in the first packet that is a valid reply,
  -- and `None` where none is, whatever else arrives in its retries; it keeps the binds, the hardware
  -- address and the lease. The packets' lengths are within their memory, nothing waits at any port, a new
  -- queue has no capacity, the hardware address has six bytes, and the driver allocates empty packets with
  -- 4096 bytes of memory.
  pub arp-first_round :
      (rounds : List (List Packet)) (raws : List (List (List ℕ))) (d : Device)
      → AreRounds rounds raws
      → AreEmpty d.ports.udp_binds
      → length d.mac ≡ 6
      → d.client_ip ≡ some this_ip
      → (d' : Device) × (arp capacity allocated ip rounds d
          ≡ returns (first_round ip this_ip d.mac raws, d'))
        × Keeps d d'
  arp-first_round rounds raws d h quiet six lease =
      let f = IsFound-arp_rounds rounds raws d h quiet six in
      (f.after, arp-lease rounds d lease ∙ f.result, f.keeps)
