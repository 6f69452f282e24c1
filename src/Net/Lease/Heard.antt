-- ===== src/Net/Lease/Heard.antt =====
-- The datagrams that the closures of `get_lease` in kernel/src/net/protocols/dhcp.rs take, and those they pass over.
use elise.Base.{
  ℕ, ◌^◌, ◌<◌, ◌≡◌, ◌≢◌, refl, ap, ◌∙◌, arith, true, false, Bool, Bool-cases, Option, none, some,
  List, [], ◌∷◌, ◌++◌, ◌⊎◌, inl, inr, length, take, drop, length-append, take-append, drop-append,
  ◌==◌, ◌&&◌,
}
use elise.Net.Bytes.{be32, from_be32, from_be32-be32}
use elise.Net.Arp.{broadcast, same_bytes}
use elise.Net.Ip.{eth_of, byte_at}
use elise.Net.Udp
use elise.Net.Dhcp.{MessageType, DhcpOption, build}
use elise.Net.Dhcp.RoundTrip.{AreWellFormed}
use elise.Net.Lease.{cookie, is_for, is_word, is_reply, parse_dhcp_reply, word_at, reply_of}
use elise.Net.Lease.Options.{
  with_end, HasKind, LacksKind, has_message-HasKind, has_message-LacksKind,
}
use elise.Net.Lease.Replies.{reply_header, parse_dhcp_reply-build, word_at-reply_header}

abbrev pub dst_of : Udp.Parsed → List ℕ
dst_of udp = (eth_of udp.ip).dst_mac

-- A reply to a transaction, with an address and options.
pub record IsMessage (xid your_ip : ℕ) (os : List DhcpOption) (payload : List ℕ) : Type 0 where
  pub hops : ℕ
  pub times : List ℕ
  pub names : List ℕ
  pub eight : length times ≡ 8
  pub many : length names ≡ 216
  pub xid_fits : xid < 2 ^ 32
  pub ip_fits : your_ip < 2 ^ 32
  pub carries : payload ≡ reply_header hops xid times your_ip names ++ build os
  pub options : AreWellFormed os

-- A datagram for this machine that holds a reply of kind `m`.
pub record IsReply (m : MessageType) (xid : ℕ) (mac : List ℕ) (your_ip : ℕ) (os : List DhcpOption)
    (udp : Udp.Parsed) : Type 0 where
  pub for_us : (dst_of udp ≡ mac) ⊎ (dst_of udp ≡ broadcast)
  pub message : IsMessage xid your_ip os udp.payload
  pub kind : HasKind m os

-- A datagram for another machine, or without a reply of kind `m` to the transaction.
pub data IsOther (m : MessageType) (xid : ℕ) (mac : List ℕ) (udp : Udp.Parsed) : Type 0 where
  elsewhere : dst_of udp ≢ mac → dst_of udp ≢ broadcast → IsOther m xid mac udp
  too_short : length udp.payload < 240 → IsOther m xid mac udp
  no_reply :
      (op htype hlen : ℕ) (rest : List ℕ)
      → udp.payload ≡ op ∷ htype ∷ hlen ∷ rest
      → (op ≢ 2) ⊎ ((htype ≢ 1) ⊎ (hlen ≢ 6))
      → IsOther m xid mac udp
  other_transaction :
      (a b c d x : ℕ) (rest : List ℕ)
      → udp.payload ≡ a ∷ b ∷ c ∷ d ∷ (be32 x ++ rest)
      → x < 2 ^ 32
      → x ≢ xid
      → IsOther m xid mac udp
  other_cookie :
      (front : List ℕ) (x : ℕ) (rest : List ℕ)
      → length front ≡ 236
      → udp.payload ≡ (front ++ be32 x) ++ rest
      → x < 2 ^ 32
      → x ≢ 0x63825363
      → IsOther m xid mac udp
  other_kind :
      (your_ip : ℕ) (os : List DhcpOption)
      → IsMessage xid your_ip os udp.payload
      → LacksKind m os
      → IsOther m xid mac udp

same_bytes_refl : (as' : List ℕ) → same_bytes as' as' ≡ true
same_bytes_refl [] = refl
same_bytes_refl (a ∷ as') = ground (arith, same_bytes_refl as')

same_bytes_eq : (as' bs : List ℕ) → same_bytes as' bs ≡ true → as' ≡ bs
same_bytes_eq [] [] h = refl
same_bytes_eq [] (b ∷ bs) h = absurd (ground arith)
same_bytes_eq (a ∷ as') [] h = absurd (ground arith)
same_bytes_eq (a ∷ as') (b ∷ bs) h =
    let rest : same_bytes as' bs ≡ true = ground arith in
    let first : a ≡ b = ground arith in
    ap (λ x. x ∷ as') first ∙ ap (λ l. b ∷ l) (same_bytes_eq as' bs rest)

same_bytes_differ : (as' bs : List ℕ) → as' ≢ bs → same_bytes as' bs ≡ false
same_bytes_differ as' bs h = elim (Bool-cases (same_bytes as' bs)) [
  | inl same ↦ absurd (h (same_bytes_eq as' bs same))
  | inr differ ↦ differ
]

parse_dhcp_reply-IsMessage :
    (xid your_ip : ℕ) (os : List DhcpOption) (payload : List ℕ)
    (r : IsMessage xid your_ip os payload)
    → parse_dhcp_reply xid payload
      ≡ some (reply_header r.hops xid r.times your_ip r.names, with_end os)
parse_dhcp_reply-IsMessage xid your_ip os payload r = rw r.carries (
    parse_dhcp_reply-build r.hops xid your_ip r.times r.names r.xid_fits r.ip_fits r.eight r.many os
      r.options)

is_for-for_us :
    (mac : List ℕ) (udp : Udp.Parsed)
    → (dst_of udp ≡ mac) ⊎ (dst_of udp ≡ broadcast)
    → is_for mac udp ≡ true
is_for-for_us mac udp (inl e) =
    let same : same_bytes (dst_of udp) mac ≡ true = rw e (same_bytes_refl mac) in ground arith
is_for-for_us mac udp (inr e) =
    let same : same_bytes (dst_of udp) broadcast ≡ true = rw e (same_bytes_refl broadcast) in
    ground arith

module _ {m : MessageType} {xid : ℕ} {mac : List ℕ} {your_ip : ℕ} {os : List DhcpOption}
    {udp : Udp.Parsed} where
  pub reply_of-IsReply :
      (r : IsReply m xid mac your_ip os udp)
      → reply_of m xid mac udp
        ≡ some (
          reply_header (r.message).hops xid (r.message).times your_ip (r.message).names,
          with_end os,
        )
  unfolding reply_of
  reply_of-IsReply r = rw (
    reply_of,
    is_for-for_us mac udp r.for_us,
    parse_dhcp_reply-IsMessage xid your_ip os udp.payload r.message,
    has_message-HasKind m os r.kind,
  )

  pub word_at-IsReply :
      (r : IsReply m xid mac your_ip os udp)
      → word_at 16 (reply_header (r.message).hops xid (r.message).times your_ip (r.message).names)
        ≡ some your_ip
  word_at-IsReply r =
      let t = r.message in
      word_at-reply_header t.hops xid your_ip t.times t.names t.xid_fits t.ip_fits t.eight t.many

is_word_differ : (n x : ℕ) (o : Option ℕ) → o ≡ some x → x ≢ n → is_word n o ≡ false
unfolding is_word
is_word_differ n x o e h = rw e (ground arith)

and_last : (a b c d e : Bool) → e ≡ false → (a && b && c && d && e) ≡ false
and_last a b c d e h = ground arith

module _ (xid : ℕ) where
  no_parse :
      (payload : List ℕ)
      → is_reply xid (take 240 payload) ≡ false
      → parse_dhcp_reply xid payload ≡ none
  unfolding parse_dhcp_reply
  no_parse payload h = ground arith

  is_reply-no_reply :
      (op htype hlen : ℕ) (rest : List ℕ)
      → (op ≢ 2) ⊎ ((htype ≢ 1) ⊎ (hlen ≢ 6))
      → is_reply xid (take 240 (op ∷ htype ∷ hlen ∷ rest)) ≡ false
  unfolding is_reply
  is_reply-no_reply op htype hlen rest h = ground arith

  is_reply-other_transaction :
      (a b c d x : ℕ) (rest : List ℕ)
      → x < 2 ^ 32
      → x ≢ xid
      → is_reply xid (take 240 (a ∷ b ∷ c ∷ d ∷ (be32 x ++ rest))) ≡ false
  unfolding is_reply word_at
  is_reply-other_transaction a b c d x rest fits h =
      rw (is_word_differ xid x (from_be32 (be32 x)) (from_be32-be32 x fits) h)

  is_reply-other_cookie :
      (front : List ℕ) (x : ℕ) (rest : List ℕ)
      → length front ≡ 236
      → x < 2 ^ 32
      → x ≢ 0x63825363
      → is_reply xid (take 240 ((front ++ be32 x) ++ rest)) ≡ false
  unfolding is_reply word_at
  is_reply-other_cookie front x rest e fits h =
      let whole : length (front ++ be32 x) ≡ 240 = omega (arith, length-append front (be32 x)) in
      let word : from_be32 (take 4 (drop 236 (front ++ be32 x))) ≡ some x =
        rw (drop-append front (be32 x) 236 e) (from_be32-be32 x fits) in
      let header = front ++ be32 x in
      rw (take-append header rest 240 whole) (
        and_last (is_word xid (from_be32 (take 4 (drop 4 header)))) (byte_at header 0 == 2)
          (byte_at header 1 == 1) (byte_at header 2 == 6)
          (is_word cookie (from_be32 (take 4 (drop 236 header))))
          (is_word_differ cookie x (from_be32 (take 4 (drop 236 header))) word h))

  parse_dhcp_reply-short :
      (payload : List ℕ) → length payload < 240 → parse_dhcp_reply xid payload ≡ none
  unfolding parse_dhcp_reply
  parse_dhcp_reply-short payload h = ground arith

  reply_of-unparsed :
      (m : MessageType) (mac : List ℕ) (udp : Udp.Parsed)
      → parse_dhcp_reply xid udp.payload ≡ none
      → reply_of m xid mac udp ≡ none
  unfolding reply_of
  reply_of-unparsed m mac udp h = ground arith

  -- What the closure of a phase passes over.
  pub reply_of-IsOther :
      (m : MessageType) (mac : List ℕ) (udp : Udp.Parsed)
      → IsOther m xid mac udp
      → reply_of m xid mac udp ≡ none
  unfolding reply_of
  reply_of-IsOther m mac udp (elsewhere h h') =
      rw (
        reply_of,
        same_bytes_differ (dst_of udp) mac h,
        same_bytes_differ (dst_of udp) broadcast h',
      )
  reply_of-IsOther m mac udp (too_short h) =
      reply_of-unparsed m mac udp (parse_dhcp_reply-short udp.payload h)
  reply_of-IsOther m mac udp (no_reply op htype hlen rest e h) =
      reply_of-unparsed m mac udp
        (no_parse udp.payload (rw e (is_reply-no_reply op htype hlen rest h)))
  reply_of-IsOther m mac udp (other_transaction a b c d x rest e fits h) =
      reply_of-unparsed m mac udp
        (no_parse udp.payload (rw e (is_reply-other_transaction a b c d x rest fits h)))
  reply_of-IsOther m mac udp (other_cookie front x rest l e fits h) =
      reply_of-unparsed m mac udp
        (no_parse udp.payload (rw e (is_reply-other_cookie front x rest l fits h)))
  reply_of-IsOther m mac udp (other_kind your_ip os r h) =
      let parsed_it = parse_dhcp_reply-IsMessage xid your_ip os udp.payload r in
      let lacks = has_message-LacksKind m os h in
      elim (Bool-cases (is_for mac udp)) [
        | inl for_us ↦ rw (reply_of, for_us, parsed_it, lacks)
        | inr not_for_us ↦ rw (reply_of, not_for_us)
      ]
