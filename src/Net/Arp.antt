-- ===== src/Net/Arp.antt =====
-- kernel/src/net/protocols/arp.rs: the packet that `build_arp_packet` writes, its parser, and the test
-- for a reply.
pub mod Built
use elise.Base.{
  ℕ, ◌+◌, ◌-◌, ◌*◌, ◌/◌, ◌%◌, ◌^◌, ◌≤◌, ◌<◌, ◌≡◌, refl, arith, Bool, ◌&&◌, Option, none, some, List,
  [], ◌∷◌, ◌++◌, length, leb, ltb, ◌==◌, if◌then◌else◌, take, drop, replicate,
}
use elise.Cursor.{Run, returns, panics}
use elise.Net.Bytes.{be16, be32, from_be16, from_be32, get_range}
use elise.Net.Packet.{
  ParseError, truncated_packet, invalid_length, invalid_word, invalid_dword, invalid_mac_address,
  Parse, parsed, refused, ok_or, Packet, PacketCursor, packet_cursor, write_all,
}
use elise.Net.Packet
use elise.Net.Eth
use elise.Net.Eth.{parse_eth}
use elise.Net.Ip.{byte_at, check}

abbrev pub eth_type_arp : ℕ
eth_type_arp = 0x0806

abbrev pub eth_type_ipv4 : ℕ
eth_type_ipv4 = 0x0800

abbrev pub hw_type_eth : ℕ
hw_type_eth = 1

abbrev pub broadcast : List ℕ
broadcast = replicate 6 0xFF

pub data Opcode : Type 0 where
  request reply : Opcode

abbrev pub opcode_code : Opcode → ℕ
opcode_code request = 1
opcode_code reply = 2

pub record Parsed : Type 0 where
  pub eth : Eth.Parsed
  pub hw_type : ℕ
  pub proto_type : ℕ
  pub hw_size : ℕ
  pub proto_size : ℕ
  pub opcode : ℕ
  pub sender_mac : List ℕ
  pub sender_ip : ℕ
  pub target_mac : List ℕ
  pub target_ip : ℕ

-- Equality of two addresses of bytes.
abbrev pub same_bytes : List ℕ → List ℕ → Bool
same_bytes [] [] = Bool.true
same_bytes (a ∷ as') (b ∷ bs) = a == b && same_bytes as' bs
same_bytes _ _ = Bool.false

unfoldable pub is_valid_reply : Parsed → ℕ → ℕ → List ℕ → Bool
is_valid_reply self sender_ip target_ip target_mac =
    self.hw_type == hw_type_eth
    && self.proto_type == eth_type_ipv4
    && self.hw_size == 6
    && self.proto_size == 4
    && self.opcode == opcode_code reply
    && self.sender_ip == sender_ip
    && self.target_ip == target_ip
    && same_bytes self.target_mac target_mac

-- `pl[lo..hi].try_into()`: the slice has the length of the array wherever it is taken.
abbrev pub part : ℕ → ℕ → List ℕ → List ℕ
part lo hi pl = take (hi - lo) (drop lo pl)

unfoldable pub parse_arp : List ℕ → Parse Parsed
unfolding parse_eth
parse_arp raw = Packet.◌>>=◌ (parse_eth raw) λ eth.
    Packet.◌>>=◌ (check (eth.eth_type == eth_type_arp) invalid_length) λ _.
      let pl = eth.payload in
      if ltb (length pl) 28
      then refused truncated_packet
      else Packet.◌>>=◌ (ok_or (from_be16 (part 0 2 pl)) invalid_word) λ hw_type.
        Packet.◌>>=◌ (ok_or (from_be16 (part 2 4 pl)) invalid_word) λ proto_type.
          Packet.◌>>=◌ (ok_or (from_be16 (part 6 8 pl)) invalid_word) λ opcode.
            Packet.◌>>=◌ (ok_or (from_be32 (part 14 18 pl)) invalid_dword) λ sender_ip.
              Packet.◌>>=◌ (ok_or (from_be32 (part 24 28 pl)) invalid_dword) λ target_ip.
                parsed (record {
                  eth = eth;
                  hw_type = hw_type;
                  proto_type = proto_type;
                  hw_size = byte_at pl 4;
                  proto_size = byte_at pl 5;
                  opcode = opcode;
                  sender_mac = part 8 14 pl;
                  sender_ip = sender_ip;
                  target_mac = part 18 24 pl;
                  target_ip = target_ip;
                })

-- The packet once its cursor is gone.
abbrev pub finished : Run (Option (Unit {0}) × PacketCursor) → Run (Option (Unit {0}) × Packet)
finished panics = panics
finished (returns (result, c)) =
    returns (result, record { memory = c.inner.inner; len = c.packet_len })

-- The fields in the order in which `build_arp_packet` writes them, behind `eth::Builder::new`, which
-- writes the two addresses.
abbrev pub arp_fields : Opcode → List ℕ → ℕ → List ℕ → ℕ → List (List ℕ)
arp_fields opcode sender_mac sender_ip target_mac target_ip =
    broadcast
    ∷ sender_mac
    ∷ be16 hw_type_eth
    ∷ be16 eth_type_arp
    ∷ (6 ∷ [])
    ∷ (4 ∷ [])
    ∷ be16 (opcode_code opcode)
    ∷ sender_mac
    ∷ be32 sender_ip
    ∷ target_mac
    ∷ be32 target_ip
    ∷ []

unfoldable pub build_arp_packet :
    Packet → Opcode → List ℕ → ℕ → List ℕ → ℕ → Run (Option (Unit {0}) × Packet)
build_arp_packet packet opcode sender_mac sender_ip target_mac target_ip =
    elim (packet_cursor packet) [
      | panics ↦ panics
      | returns c ↦
          finished (write_all (arp_fields opcode sender_mac sender_ip target_mac target_ip) c)
    ]
