-- ===== src/Net/Builder/Udp/Crc.antt =====
-- The checksum of kernel/src/net/protocols/udp.rs over IPv6, as a receiver verifies it.
use elise.Base.{
  ℕ, ◌+◌, ◌%◌, ◌^◌, ◌<◌, ◌≡◌, arith, List, [], ◌∷◌, ◌++◌, length, length-append, replicate,
}
use elise.Net.Bytes.{AreBytes, be16, be32}
use elise.Net.Udp.{datagram}
use elise.Net.Checksum.{ones_sum, folded}
use elise.Net.Checksum.Parts.{
  word_sum, ones_sum-folded, checksum-folded, folded-lt, folded_add, word_sum-append,
}
use elise.Net.Builder.Udp.{pseudo_header, complement, udp_checksum}
use elise.Net.Builder.Udp.Written.{ports}

AreBytes-append : (xs ys : List ℕ) → AreBytes xs → AreBytes ys → AreBytes (xs ++ ys)
AreBytes-append [] ys h k = k
AreBytes-append (x ∷ xs) ys (h, hs) k = (h, AreBytes-append xs ys hs k)

-- The sum with its complement added to it is all ones.
complement-folded : (acc : ℕ) → acc < 2 ^ 32 → folded (acc + complement acc) ≡ 0xFFFF
unfolding folded
complement-folded acc h = ground arith

complement-word : (acc : ℕ) → complement acc < 2 ^ 16
complement-word acc = ground arith

no_wrap :
    (a b c : ℕ) → a < 2 ^ 16 → b < 2 ^ 16 → c < 2 ^ 16 → ((a + b) % 2 ^ 32 + c) % 2 ^ 32 ≡ a + b + c
no_wrap a b c h k l = omega arith

module _ (src dst payload : List ℕ) (src_port dst_port : ℕ) (hs : length src ≡ 16)
    (hd : length dst ≡ 16) (src_bytes : AreBytes src) (dst_bytes : AreBytes dst)
    (payload_bytes : AreBytes payload) (short : 8 + length payload < 2 ^ 16) where
  len : ℕ
  len = 8 + length payload

  -- The header whose checksum is zero.
  hdr : List ℕ
  hdr = ports src_port dst_port ++ (be16 len ++ replicate 2 0)

  pseudo : List ℕ
  pseudo = pseudo_header src dst len

  length-pseudo : length pseudo ≡ 40
  unfolding pseudo
  length-pseudo = omega (
    arith,
    length-append src (dst ++ (be32 len ++ (0 ∷ 0 ∷ 0 ∷ 0x11 ∷ []))),
    length-append dst (be32 len ++ (0 ∷ 0 ∷ 0 ∷ 0x11 ∷ [])),
  )

  pseudo-AreBytes : AreBytes pseudo
  unfolding pseudo len
  pseudo-AreBytes = AreBytes-append src _ src_bytes (AreBytes-append dst _ dst_bytes (omega arith))

  udp_checksum-folded :
      udp_checksum src dst hdr payload
      ≡ complement (folded (word_sum pseudo) + folded (word_sum hdr) + folded (word_sum payload))
  unfolding udp_checksum pseudo hdr len
  udp_checksum-folded =
      let whole : (8 + length payload) % 2 ^ 32 ≡ 8 + length payload = omega arith in
      rw (
        udp_checksum,
        whole,
        checksum-folded pseudo pseudo-AreBytes (omega (arith, length-pseudo)),
        checksum-folded hdr (omega arith) (omega arith),
        checksum-folded payload payload_bytes (omega arith),
        no_wrap (folded (word_sum pseudo)) (folded (word_sum hdr)) (folded (word_sum payload))
            (folded-lt _) (folded-lt _) (folded-lt _),
      )

  total_sum :
      (crc : ℕ)
      → crc < 2 ^ 16
      → word_sum (pseudo ++ datagram src_port dst_port crc payload)
        ≡ word_sum pseudo + word_sum hdr + word_sum payload + crc
  unfolding word_sum hdr len
  total_sum crc h =
      omega
        (arith, word_sum-append 20 pseudo (datagram src_port dst_port crc payload) length-pseudo)

  -- A receiver that sums the pseudo-header and the datagram that `finalize` leaves over IPv6 gets all
  -- ones, for addresses of sixteen bytes and a datagram of less than 2^16 bytes.
  pub udp_checksum-ones_sum :
      let crc =
        udp_checksum src dst
          (ports src_port dst_port ++ (be16 (8 + length payload) ++ replicate 2 0))
          payload in
      ones_sum 0
        (pseudo_header src dst (8 + length payload) ++ datagram src_port dst_port crc payload)
      ≡ 0xFFFF
  unfolding hdr len pseudo
  udp_checksum-ones_sum =
      rw
        (
          udp_checksum-folded,
          ones_sum-folded (pseudo ++ datagram src_port dst_port crc payload) (
              AreBytes-append pseudo (datagram src_port dst_port crc payload) pseudo-AreBytes (
                AreBytes-append (ports src_port dst_port ++ (be16 (8 + length payload) ++ be16 crc))
                  payload (omega arith) payload_bytes)),
          total_sum crc (complement-word acc),
          ← folded_add (word_sum pseudo) (word_sum hdr) (word_sum payload) crc,
        )
        (complement-folded acc (
          omega (
            arith,
            folded-lt (word_sum pseudo),
            folded-lt (word_sum hdr),
            folded-lt (word_sum payload),
          )))
    where
      acc : ℕ
      acc = folded (word_sum pseudo) + folded (word_sum hdr) + folded (word_sum payload)

      crc : ℕ
      crc = complement acc
