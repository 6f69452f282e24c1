-- ===== src/Net/Builder/V4/Written.antt =====
-- What the IPv4 builder of kernel/src/net/protocols/ip/v4.rs writes.
use elise.Base.{
  ℕ, ◌+◌, ◌-◌, ◌*◌, ◌/◌, ◌%◌, ◌^◌, ◌≤◌, ◌<◌, ◌≡◌, refl, arith, Option, some, List, [], ◌∷◌, ◌++◌,
  length, drop, take, replicate, false, le→leb,
}
use elise.Cursor.{returns}
use elise.Net.Bytes.{be32}
use elise.Net.Packet.{PacketCursor, write, write_u8, write_u16, write_u32, checksum}
use elise.Net.Builder.Region.{region, HasRoom, write-region, split-region_at}
use elise.Net.Ip.RoundTrip.{Unread, header_v4}
use elise.Net.Builder.V4.{BuilderV4, new, set_protocol, finalize, write_len, write_crc}

-- The header with the addresses and nothing else filled in.
abbrev fixed_v4 : List ℕ
fixed_v4 = 0x45 ∷ 0 ∷ 0 ∷ 0 ∷ 0 ∷ 0 ∷ 0 ∷ 0 ∷ 64 ∷ 0 ∷ 0 ∷ 0 ∷ []

abbrev pub blank_v4 : ℕ → ℕ → List ℕ
blank_v4 src dst = fixed_v4 ++ (be32 src ++ be32 dst)

-- The builder with that header, once set to a protocol.
abbrev pub marked_v4 : ℕ → ℕ → ℕ → List ℕ
marked_v4 prot src dst = take 9 fixed_v4 ++ prot ∷ 0 ∷ 0 ∷ (be32 src ++ be32 dst)

abbrev pub built_v4 : ℕ → ℕ → List ℕ → Option PacketCursor → BuilderV4
built_v4 src dst hdr cursor = record {
  hdr = hdr;
  src = src;
  dst = dst;
  to_fill = record { len = 2; prot = 9; crc = 10 };
  cursor = cursor;
}

pub new-region_v4 :
    (base src dst : ℕ) (memory : List ℕ)
    → HasRoom base 20 memory
    → new (region base [] memory) src dst
      ≡ returns (
          some
            (built_v4 src dst (blank_v4 src dst) (some (region (base + 20) [] (drop 20 memory)))))
unfolding new write_u8 write_u16 write_u32
new-region_v4 base src dst memory h = rw (
  new,
  step (take 0 fixed_v4) (0x45 ∷ []) (omega arith),
  step (take 1 fixed_v4) (replicate 1 0) (omega arith),
  step (take 2 fixed_v4) (replicate 2 0) (omega arith),
  step (take 4 fixed_v4) (replicate 4 0) (omega arith),
  step (take 8 fixed_v4) (64 ∷ []) (omega arith),
  step (take 9 fixed_v4) (replicate 1 0) (omega arith),
  step (take 10 fixed_v4) (replicate 2 0) (omega arith),
  step fixed_v4 (be32 src) (omega arith),
  step (fixed_v4 ++ be32 src) (be32 dst) (omega arith),
  split-region_at 20 base (blank_v4 src dst) memory refl h,
)
  where
    step :
        (bytes buf : List ℕ)
        → length bytes + length buf ≤ 20
        → write buf (region base bytes memory)
          ≡ returns
              (some (length bytes, length bytes + length buf), region base (bytes ++ buf) memory)
    step bytes buf k =
        write-region base bytes memory buf
          (record { fits = omega (arith, h.fits); room = omega (arith, h.room); small = h.small })

pub set_protocol-blank_v4 :
    (prot src dst : ℕ) (cursor : Option PacketCursor)
    → set_protocol prot (built_v4 src dst (blank_v4 src dst) cursor)
      ≡ returns (built_v4 src dst (marked_v4 prot src dst) cursor)
unfolding set_protocol
set_protocol-blank_v4 prot src dst cursor = refl

-- A second call changes nothing.
pub set_protocol-marked_v4 :
    (prot src dst : ℕ) (cursor : Option PacketCursor)
    → set_protocol prot (built_v4 src dst (marked_v4 prot src dst) cursor)
      ≡ returns (built_v4 src dst (marked_v4 prot src dst) cursor)
unfolding set_protocol
set_protocol-marked_v4 prot src dst cursor = refl

abbrev pub swap16 : ℕ → ℕ
swap16 n = n % 2 ^ 8 * 2 ^ 8 + n / 2 ^ 8

high_of_swap : (n : ℕ) → n < 2 ^ 16 → swap16 n / 2 ^ 8 % 2 ^ 8 ≡ n % 2 ^ 8
high_of_swap n h = omega arith

low_of_swap : (n : ℕ) → n < 2 ^ 16 → swap16 n % 2 ^ 8 ≡ n / 2 ^ 8
low_of_swap n h = omega arith

-- The fields that the parser does not read, as the builder leaves them: the checksum has its bytes
-- swapped.
abbrev pub unsealed : Unread
unsealed = record { service = 0; identification = 0; dont_fragment = false; ttl = 64; crc = 0 }

abbrev pub sealed : ℕ → ℕ → ℕ → ℕ → Unread
sealed len prot src dst = record unsealed {
  crc = swap16 (65535 - checksum (header_v4 unsealed len prot src dst));
}

pub finalize-marked_v4 :
    (payload_len prot src dst : ℕ) (cursor : Option PacketCursor)
    → 20 + payload_len < 2 ^ 16
    → let len = 20 + payload_len in
      finalize payload_len (built_v4 src dst (marked_v4 prot src dst) cursor)
      ≡ returns (built_v4 src dst (header_v4 (sealed len prot src dst) len prot src dst) cursor)
unfolding finalize write_len write_crc
finalize-marked_v4 payload_len prot src dst cursor fits =
    let crc = 65535 - checksum (header_v4 unsealed (20 + payload_len) prot src dst) in
    let small : crc < 2 ^ 16 = omega arith in
    rw (
      finalize,
      write_len,
      le→leb (20 + payload_len) 65535 (omega arith),
      high_of_swap crc small,
      low_of_swap crc small,
    )
