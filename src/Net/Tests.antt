-- ===== src/Net/Tests.antt =====
-- The parsers and builders of kernel/src/net on small packets, and their laws at such packets.
use elise.Base.{
  ℕ, ◌≡◌, ◌≢◌, refl, arith, true, some, none, List, [], ◌∷◌, replicate, length-replicate,
}
use elise.Cursor.{returns}
use elise.Net.Packet.{Packet, refused, invalid_length, raw, checksum, checksum_words}
use elise.Net.Checksum.{ones_sum, checksum-ones_sum}
use elise.Net.Ip.RoundTrip.{Unread}
use elise.Net.Arp
use elise.Net.Arp.{build_arp_packet, parse_arp}
use elise.Net.Arp.Built.{build_arp_packet_unreadable}
use elise.Net.Dhcp.{
  discover, unsupported, DhcpOption, message_type, parameter_request_list, requested_ip, unknown,
  id_from,
}
use elise.Net.Dhcp.RoundTrip.{AreWellFormed}

abbrev mac_a : List ℕ
mac_a = 2 ∷ 0 ∷ 0 ∷ 0 ∷ 0 ∷ 1 ∷ []

abbrev mac_b : List ℕ
mac_b = 2 ∷ 0 ∷ 0 ∷ 0 ∷ 0 ∷ 2 ∷ []

abbrev words : List ℕ
words = 0xFF ∷ 0xFF ∷ 0x12 ∷ 0x34 ∷ 0x56 ∷ []

checksum-words : checksum words ≡ 0x6834
unfolding checksum checksum_words
checksum-words = refl

checksum-ones_sum_example : checksum words ≡ ones_sum 0 words
checksum-ones_sum_example = checksum-ones_sum words (omega arith) (omega arith)

abbrev fields : Unread
fields = record { service = 0; identification = 77; dont_fragment = true; ttl = 64; crc = 0 }

abbrev body : List ℕ
body = 1 ∷ 2 ∷ 3 ∷ []

abbrev ip_a : List ℕ
ip_a = replicate 16 1

abbrev ip_b : List ℕ
ip_b = replicate 16 2

build_arp_packet_unreadable_example :
    (p : Packet) × (build_arp_packet
        (record { memory = replicate 4096 0; len = 0 })
        Arp.request
        mac_a
        5
        mac_b
        6
      ≡ returns (some tt, p))
    × (sent : List ℕ) × (raw p ≡ returns sent)
    × (parse_arp sent ≡ refused invalid_length)
build_arp_packet_unreadable_example =
    build_arp_packet_unreadable Arp.request mac_a 5 mac_b 6 refl refl (replicate 4096 0)
      (length-replicate {A = ℕ} 4096 0)

is_discover : discover ≢ unsupported
is_discover e = cc

unknown_code : id_from 12 ≡ none
unfolding id_from
unknown_code = refl

abbrev options : List DhcpOption
options =
    message_type discover
    ∷ parameter_request_list (53 ∷ 54 ∷ [])
    ∷ unknown 12 (1 ∷ [])
    ∷ requested_ip 5
    ∷ []

options-AreWellFormed : AreWellFormed options
options-AreWellFormed =
    (is_discover, (omega arith, ((unknown_code, omega arith), (omega arith, tt))))
