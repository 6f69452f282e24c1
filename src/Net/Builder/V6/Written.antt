-- ===== src/Net/Builder/V6/Written.antt =====
-- What the IPv6 builder of kernel/src/net/protocols/ip/v6.rs writes.
use elise.Base.{
  ℕ, ◌+◌, ◌≤◌, ◌≡◌, arith, Option, some, List, [], ◌∷◌, ◌++◌, length, length-append, drop, take,
  replicate, le→leb,
}
use elise.Cursor.{returns}
use elise.Net.Packet.{PacketCursor, write, write_u8, write_u16}
use elise.Net.Ip.RoundTrip.{header_v6}
use elise.Net.Builder.Region.{region, HasRoom, write-region, split-region_at}
use elise.Net.Builder.V6.{BuilderV6, new, set_protocol, finalize, write_len}

abbrev fixed_v6 : List ℕ
fixed_v6 = 0x60 ∷ 0 ∷ 0 ∷ 0 ∷ 0 ∷ 0 ∷ 0 ∷ 64 ∷ []

-- The header with the protocol, the addresses and no length.
abbrev pub marked_v6 : ℕ → List ℕ → List ℕ → List ℕ
marked_v6 prot src dst = header_v6 0 0 0 0 prot 64 src dst

abbrev pub built_v6 : List ℕ → List ℕ → List ℕ → Option PacketCursor → BuilderV6
built_v6 src dst hdr cursor = record {
  hdr = hdr;
  src = src;
  dst = dst;
  to_fill = record { len = 4; prot = 6 };
  cursor = cursor;
}

module _ (src dst : List ℕ) (hs : length src ≡ 16) (hd : length dst ≡ 16) where
  length-header_v6 : (prot len : ℕ) → length (header_v6 0 0 0 len prot 64 src dst) ≡ 40
  length-header_v6 prot len = omega (arith, length-append src dst)

  pub new-region_v6 :
      (base : ℕ) (memory : List ℕ)
      → HasRoom base 40 memory
      → new (region base [] memory) src dst
        ≡ returns (
            some (
              built_v6 src dst
                (marked_v6 0 src dst)
                (some (region (base + 40) [] (drop 40 memory)))))
  unfolding new write_u8 write_u16
  new-region_v6 base memory h = rw (
    new,
    step (take 0 fixed_v6) (0x60 ∷ []) (omega arith),
    step (take 1 fixed_v6) (0 ∷ []) (omega arith),
    step (take 2 fixed_v6) (replicate 2 0) (omega arith),
    step (take 4 fixed_v6) (replicate 2 0) (omega arith),
    step (take 6 fixed_v6) (0 ∷ []) (omega arith),
    step (take 7 fixed_v6) (64 ∷ []) (omega arith),
    step fixed_v6 src (omega arith),
    step (fixed_v6 ++ src) dst (omega arith),
    split-region_at 40 base (marked_v6 0 src dst) memory (length-header_v6 0 0) h,
  )
    where
      step :
          (bytes buf : List ℕ)
          → length bytes + length buf ≤ 40
          → write buf (region base bytes memory)
            ≡ returns
                (some (length bytes, length bytes + length buf), region base (bytes ++ buf) memory)
      step bytes buf k =
          write-region base bytes memory buf
            (record { fits = omega (arith, h.fits); room = omega (arith, h.room); small = h.small })

  pub set_protocol-marked_v6 :
      (old prot : ℕ) (cursor : Option PacketCursor)
      → set_protocol prot (built_v6 src dst (marked_v6 old src dst) cursor)
        ≡ returns (built_v6 src dst (marked_v6 prot src dst) cursor)
  unfolding set_protocol
  set_protocol-marked_v6 old prot cursor = rw (
    set_protocol,
    le→leb 7 (length (marked_v6 old src dst)) (omega (arith, length-header_v6 old 0)),
  )

  pub finalize-marked_v6 :
      (payload_len prot : ℕ) (cursor : Option PacketCursor)
      → finalize payload_len (built_v6 src dst (marked_v6 prot src dst) cursor)
        ≡ returns (built_v6 src dst (header_v6 0 0 0 payload_len prot 64 src dst) cursor)
  unfolding finalize write_len
  finalize-marked_v6 payload_len prot cursor = rw (
    finalize,
    write_len,
    le→leb 6 (length (marked_v6 prot src dst)) (omega (arith, length-header_v6 prot 0)),
  )
