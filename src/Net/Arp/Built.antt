-- ===== src/Net/Arp/Built.antt =====
-- The packets that kernel/src/net/protocols/arp.rs builds, given to its parser.
use elise.Base.{
  ℕ, ◌≡◌, refl, ap, arith, some, List, [], ◌∷◌, ◌++◌, length, drop, length-append, take-append,
  le→leb,
}
use elise.Cursor
use elise.Cursor.{Run, returns, panics}
use elise.Net.Bytes.{be16, be32}
use elise.Net.Packet.{Packet, packet_cursor, raw, refused, invalid_length}
use elise.Net.Packet.Writes.{behind, write_all-behind, concat}
use elise.Net.Eth.{parse_eth-frame}
use elise.Net.Arp.{
  Opcode, opcode_code, broadcast, hw_type_eth, eth_type_arp, parse_arp, arp_fields,
  build_arp_packet,
}

-- The cursor of an empty packet.
pub packet_cursor-empty :
    (memory : List ℕ)
    → packet_cursor (record { memory = memory; len = 0 }) ≡ returns (behind [] memory)
unfolding packet_cursor Cursor.set_position Cursor.new_with_limit
packet_cursor-empty memory = refl

module _ (opcode : Opcode) (sender_mac : List ℕ) (sender_ip : ℕ) (target_mac : List ℕ)
    (target_ip : ℕ) (sender_six : length sender_mac ≡ 6) (target_six : length target_mac ≡ 6) where
  abbrev bytes : List ℕ
  bytes = concat (arp_fields opcode sender_mac sender_ip target_mac target_ip)

  length-bytes : length bytes ≡ 40
  length-bytes = omega (
    arith,
    length-append sender_mac (
        be16 hw_type_eth
        ++ (be16 eth_type_arp
            ++ (6
                ∷ 4
                ∷ (be16 (opcode_code opcode)
                    ++ (sender_mac
                        ++ (be32 sender_ip ++ (target_mac ++ (be32 target_ip ++ [])))))))),
    length-append sender_mac (be32 sender_ip ++ (target_mac ++ (be32 target_ip ++ []))),
    length-append target_mac (be32 target_ip ++ []),
  )

  parse_arp-bytes : parse_arp bytes ≡ refused invalid_length
  unfolding parse_arp
  parse_arp-bytes = rw (
    parse_arp,
    parse_eth-frame broadcast sender_mac hw_type_eth
        (be16 eth_type_arp
          ++ (6
              ∷ 4
              ∷ (be16 (opcode_code opcode)
                  ++ (sender_mac ++ (be32 sender_ip ++ (target_mac ++ (be32 target_ip ++ [])))))))
        refl sender_six (omega arith),
  )

  -- An ARP packet for two hardware addresses of six bytes, which `build_arp_packet` writes into an
  -- empty packet of 4096 bytes of memory, is written whole, and `parse_arp` refuses it.
  pub build_arp_packet_unreadable :
      (memory : List ℕ)
      → length memory ≡ 4096
      → (p : Packet) × (build_arp_packet
            (record { memory = memory; len = 0 })
            opcode
            sender_mac
            sender_ip
            target_mac
            target_ip
          ≡ returns (some tt, p))
        × (sent : List ℕ) × (raw p ≡ returns sent)
        × (parse_arp sent ≡ refused invalid_length)
  unfolding build_arp_packet raw
  build_arp_packet_unreadable memory size = (
    record { memory = bytes ++ drop 40 memory; len = 40 },
    rw
        (
          build_arp_packet,
          packet_cursor-empty memory,
          write_all-behind (arp_fields opcode sender_mac sender_ip target_mac target_ip) [] memory
              (omega (arith, length-bytes)) (omega (arith, length-bytes)) (omega arith),
        )
        (ap (λ n. returns (some tt, record { memory = bytes ++ drop n memory; len = n }))
          length-bytes),
    bytes,
    rw (
      raw,
      le→leb 40 (length (bytes ++ drop 40 memory))
          (omega (arith, length-append bytes (drop 40 memory), length-bytes)),
      take-append bytes (drop 40 memory) 40 length-bytes,
    ),
    parse_arp-bytes,
  )
