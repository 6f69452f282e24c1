-- ===== src/Net/Eth.antt =====
-- The Ethernet header of kernel/src/net/protocols/eth.rs.
use elise.Base.{
  ℕ, ◌^◌, ◌<◌, ◌≡◌, refl, arith, List, [], ◌∷◌, ◌++◌, length, length-take, length-drop, drop,
}
use elise.Net.Bytes.{get_range, get_from, be16}
use elise.Net.Packet.{truncated_packet, Parse, parsed, refused, ◌>>=◌, ok_or, parse_mac, parse_u16}

pub record Parsed : Type 0 where
  pub dst_mac : List ℕ
  pub src_mac : List ℕ
  pub eth_type : ℕ
  pub payload : List ℕ

unfoldable pub parse_eth : List ℕ → Parse Parsed
unfolding parse_mac parse_u16
parse_eth raw = do
  dst_mac ← parse_mac (get_range 0x0 0x6 raw)
  src_mac ← parse_mac (get_range 0x6 0xC raw)
  eth_type ← parse_u16 (get_range 0xC 0xE raw)
  payload ← ok_or (get_from 0xE raw) truncated_packet
  parsed (record { dst_mac = dst_mac; src_mac = src_mac; eth_type = eth_type; payload = payload })

-- A frame on the wire: two addresses of six bytes, the type, and the payload.
abbrev pub frame : List ℕ → List ℕ → ℕ → List ℕ → List ℕ
frame dst src eth_type payload = dst ++ (src ++ (be16 eth_type ++ payload))

six_bytes :
    (xs : List ℕ)
    → length xs ≡ 6
    → (a : ℕ) × (b : ℕ) × (c : ℕ) × (d : ℕ) × (e : ℕ) × (f : ℕ) × (xs ≡ a ∷ b ∷ c ∷ d ∷ e ∷ f ∷ [])
six_bytes (a ∷ b ∷ c ∷ d ∷ e ∷ f ∷ []) h = (a, b, c, d, e, f, refl)
six_bytes [] h = absurd (omega arith)
six_bytes (a ∷ []) h = absurd (omega arith)
six_bytes (a ∷ b ∷ []) h = absurd (omega arith)
six_bytes (a ∷ b ∷ c ∷ []) h = absurd (omega arith)
six_bytes (a ∷ b ∷ c ∷ d ∷ []) h = absurd (omega arith)
six_bytes (a ∷ b ∷ c ∷ d ∷ e ∷ []) h = absurd (omega arith)
six_bytes (a ∷ b ∷ c ∷ d ∷ e ∷ f ∷ g ∷ xs) h = absurd (omega arith)

frame_bytes :
    (d1 d2 d3 d4 d5 d6 s1 s2 s3 s4 s5 s6 eth_type : ℕ) (payload : List ℕ)
    → eth_type < 2 ^ 16
    → let dst = d1 ∷ d2 ∷ d3 ∷ d4 ∷ d5 ∷ d6 ∷ [] in
      let src = s1 ∷ s2 ∷ s3 ∷ s4 ∷ s5 ∷ s6 ∷ [] in
      parse_eth (frame dst src eth_type payload)
      ≡ parsed (record { dst_mac = dst; src_mac = src; eth_type = eth_type; payload = payload })
unfolding parse_eth
frame_bytes d1 d2 d3 d4 d5 d6 s1 s2 s3 s4 s5 s6 eth_type payload h = ground arith

-- `parse_eth` reads back every frame with addresses of six bytes and a type of 16 bits.
pub parse_eth-frame :
    (dst src : List ℕ) (eth_type : ℕ) (payload : List ℕ)
    → length dst ≡ 6
    → length src ≡ 6
    → eth_type < 2 ^ 16
    → parse_eth (frame dst src eth_type payload)
      ≡ parsed (record { dst_mac = dst; src_mac = src; eth_type = eth_type; payload = payload })
parse_eth-frame dst src eth_type payload n m h =
    let (d1, d2, d3, d4, d5, d6, dst_bytes) = six_bytes dst n in
    let (s1, s2, s3, s4, s5, s6, src_bytes) = six_bytes src m in
    rw (dst_bytes, src_bytes) (frame_bytes d1 d2 d3 d4 d5 d6 s1 s2 s3 s4 s5 s6 eth_type payload h)

-- A frame shorter than its header is refused as truncated.
pub parse_eth_short : (raw : List ℕ) → length raw < 14 → parse_eth raw ≡ refused truncated_packet
unfolding parse_eth
parse_eth_short raw h =
    ground (arith, length-take 6 raw, length-take 6 (drop 6 raw), length-drop 6 raw)
