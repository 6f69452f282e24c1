-- ===== src/Net/Device/Resolve.antt =====
-- The inner loop of `arp` in kernel/src/net/protocols/arp.rs: it finds the first valid reply.
pub mod Rounds
use elise.Base.{
  ℕ, Option-cases, ◌+◌, ◌≤◌, ◌<◌, ◌≡◌, refl, sym, ap, ◌∙◌, ◌⊎◌, inl, inr, arith, Bool, Bool-cases,
  true, false, Option, none, some, ◌==◌, ◌&&◌, List, [], ◌∷◌, ◌++◌, length, replicate,
  if◌then◌else◌,
}
use elise.Cursor.{Run, returns, panics}
use elise.Net.Packet.{Packet, parsed, refused, raw, ParseError}
use elise.Net.Arp
use elise.Net.Arp.{request, is_valid_reply, same_bytes, parse_arp, build_arp_packet}
use elise.Net.Arp.Built.{build_arp_packet_unreadable}
use elise.Net.Packet.Writes.{concat}
use elise.Net.Ports.{Ports}
use elise.Net.Device.{Device, release, send, discard, await_reply, arp_rounds, arp}
use elise.Net.Device.Quiet.{AreEmpty, IsReleased, discard-IsReleased}

-- A reply of the protocol for Ethernet and IPv4, from the one address to the other.
abbrev pub is_answer : Arp.Parsed → ℕ → ℕ → List ℕ → Bool
is_answer p ip this_ip mac =
    p.hw_type == 1
    && p.proto_type == 0x0800
    && p.hw_size == 6
    && p.proto_size == 4
    && p.opcode == 2
    && p.sender_ip == ip
    && p.target_ip == this_ip
    && same_bytes p.target_mac mac

-- The hardware address in such a reply.
unfoldable pub reply_in : ℕ → ℕ → List ℕ → List ℕ → Option (List ℕ)
reply_in ip this_ip mac bytes = elim (parse_arp bytes) [
  | refused _ ↦ none
  | parsed p ↦ if is_answer p ip this_ip mac then some p.sender_mac else none
]

-- The bytes of packets, one after the other.
abbrev pub AreRaw : List Packet → List (List ℕ) → Type 0
AreRaw [] [] = Unit {0}
AreRaw (pk ∷ pks) (bytes ∷ rest) = (raw pk ≡ returns bytes) × AreRaw pks rest
AreRaw _ _ = ⊥

unfoldable pub first_reply : ℕ → ℕ → List ℕ → List (List ℕ) → Option (List ℕ)
first_reply ip this_ip mac [] = none
first_reply ip this_ip mac (bytes ∷ rest) =
    let later = first_reply ip this_ip mac rest in
    elim (reply_in ip this_ip mac bytes) [ none ↦ later | some found ↦ some found ]

-- What no packet changes.
pub record Keeps (d d' : Device) : Type 0 where
  pub same_ports : d'.ports ≡ d.ports
  pub same_mac : d'.mac ≡ d.mac
  pub same_lease : d'.client_ip ≡ d.client_ip

pub Keeps-trans : {d d₁ d₂ : Device} → Keeps d₁ d₂ → Keeps d d₁ → Keeps d d₂
Keeps-trans k j = record {
  same_ports = k.same_ports ∙ j.same_ports;
  same_mac = k.same_mac ∙ j.same_mac;
  same_lease = k.same_lease ∙ j.same_lease;
}

first_reply-none :
    (ip this_ip : ℕ) (mac bytes : List ℕ) (raws : List (List ℕ))
    → reply_in ip this_ip mac bytes ≡ none
    → first_reply ip this_ip mac (bytes ∷ raws) ≡ first_reply ip this_ip mac raws
unfolding first_reply
first_reply-none ip this_ip mac bytes raws r = ground arith

first_reply-some :
    (ip this_ip : ℕ) (mac bytes found : List ℕ) (raws : List (List ℕ))
    → reply_in ip this_ip mac bytes ≡ some found
    → first_reply ip this_ip mac (bytes ∷ raws) ≡ some found
unfolding first_reply
first_reply-some ip this_ip mac bytes found raws r = ground arith

module _ (capacity : List Packet → ℕ) (memory : List ℕ) (none_yet : capacity [] ≡ 0)
    (size : length memory ≡ 4096) (ip this_ip : ℕ) where
  abbrev allocated : Packet
  allocated = record { memory = memory; len = 0 }

  await_reply-next :
      (pk : Packet) (later : List Packet) (d d' : Device) (bytes : List ℕ)
      → raw pk ≡ returns bytes
      → reply_in ip this_ip d.mac bytes ≡ none
      → discard capacity allocated pk d ≡ returns d'
      → await_reply capacity allocated ip this_ip (pk ∷ later) d
        ≡ await_reply capacity allocated ip this_ip later d'
  unfolding await_reply reply_in is_valid_reply
  await_reply-next pk later d d' bytes e n done = ground arith

  await_reply-found :
      (pk : Packet) (later : List Packet) (d : Device) (bytes found : List ℕ)
      → raw pk ≡ returns bytes
      → reply_in ip this_ip d.mac bytes ≡ some found
      → await_reply capacity allocated ip this_ip (pk ∷ later) d
        ≡ returns (some found, release pk d)
  unfolding await_reply reply_in is_valid_reply
  await_reply-found pk later d bytes found e n = ground arith

  -- What a step leaves a device with whose queues are empty.
  pub record IsFound (d : Device) (run : Run (Option (List ℕ) × Device)) (found : Option (List ℕ))
      : Type 0 where
    pub after : Device
    pub result : run ≡ returns (found, after)
    pub keeps : Keeps d after

  pub IsFound-await_reply :
      (pks : List Packet) (raws : List (List ℕ)) (d : Device)
      → AreRaw pks raws
      → AreEmpty d.ports.udp_binds
      → length d.mac ≡ 6
      → IsFound d
          (await_reply capacity allocated ip this_ip pks d)
          (first_reply ip this_ip d.mac raws)
  unfolding await_reply first_reply
  IsFound-await_reply [] [] d h quiet six = record {
    after = d;
    result = refl;
    keeps = record { same_ports = refl; same_mac = refl; same_lease = refl };
  }
  IsFound-await_reply (pk ∷ pks) (bytes ∷ raws) d (e, h) quiet six =
      elim (Option-cases (reply_in ip this_ip d.mac bytes)) [
        | inr (found, r) ↦ record {
          after = release pk d;
          result =
              await_reply-found pk pks d bytes found e r
              ∙ ap (λ f. returns (f, release pk d))
                  (sym (first_reply-some ip this_ip d.mac bytes found raws r));
          keeps = record { same_ports = refl; same_mac = refl; same_lease = refl };
        }
        | inl r ↦
            let (d₁, done, kept) =
              discard-IsReleased capacity memory none_yet size pk d bytes quiet six e in
            let rest =
              IsFound-await_reply pks raws d₁ h (rw kept.same_ports quiet) (rw kept.same_mac six) in
            record {
              after = rest.after;
              result =
                  await_reply-next pk pks d d₁ bytes e r done
                  ∙ rest.result
                  ∙ ap (λ found. returns (found, rest.after))
                      (ap (λ mac. first_reply ip this_ip mac raws) kept.same_mac
                        ∙ sym (first_reply-none ip this_ip d.mac bytes raws r));
              keeps = Keeps-trans rest.keeps (record {
                same_ports = kept.same_ports;
                same_mac = kept.same_mac;
                same_lease = kept.same_lease;
              });
            }
      ]
  IsFound-await_reply [] (_ ∷ _) d h quiet six = absurd h
  IsFound-await_reply (_ ∷ _) [] d h quiet six = absurd h
