-- ===== src/Net/Dhcp/RoundTrip.antt =====
-- What the parser of kernel/src/net/protocols/dhcp.rs reads from what its serializer writes.
use elise.Base.{
  ℕ, zero, suc, ◌%◌, ◌^◌, ◌≤◌, ◌<◌, ◌≡◌, ◌≢◌, refl, ap, ◌∙◌, arith, Option, none, some, List, [],
  ◌∷◌, ◌++◌, length, length-append, take-append, drop-append,
}
use elise.Net.Bytes.{be32, from_be32-be32}
use elise.Net.Dhcp.{
  MessageType, discover, offer, request, ack, unsupported, message_code, message_from, DhcpOption,
  pad, subnet_mask, broadcast_ip, requested_ip, lease_time, message_type, server_ip,
  parameter_request_list, renewal_time, unknown, end_option, OptionId, subnet_mask_id,
  broadcast_ip_id, requested_ip_id, lease_time_id, message_type_id, server_ip_id,
  parameter_request_list_id, renewal_time_id, id_from, of_word, decode, parse_sized, parse,
  serialize, build, parse_options, all_options,
}

-- What the format can carry: words of 32 bits, payloads of less than 256 bytes, an unknown option under a
-- code of its own, and a message type that has a code.
abbrev pub IsWellFormed : DhcpOption → Type 0
IsWellFormed pad = Unit {0}
IsWellFormed end_option = Unit {0}
IsWellFormed (subnet_mask ip) = ip < 2 ^ 32
IsWellFormed (broadcast_ip ip) = ip < 2 ^ 32
IsWellFormed (requested_ip ip) = ip < 2 ^ 32
IsWellFormed (lease_time t) = t < 2 ^ 32
IsWellFormed (message_type m) = m ≢ unsupported
IsWellFormed (server_ip ip) = ip < 2 ^ 32
IsWellFormed (parameter_request_list bytes) = length bytes < 2 ^ 8
IsWellFormed (renewal_time t) = t < 2 ^ 32
IsWellFormed (unknown code bytes) = (id_from code ≡ none) × (length bytes < 2 ^ 8)

abbrev pub AreWellFormed : List DhcpOption → Type 0
AreWellFormed [] = Unit {0}
AreWellFormed (o ∷ os) = IsWellFormed o × AreWellFormed os

message_from-message_code : (m : MessageType) → m ≢ unsupported → message_from (message_code m) ≡ m
unfolding message_from
message_from-message_code discover h = refl
message_from-message_code offer h = refl
message_from-message_code request h = refl
message_from-message_code ack h = refl
message_from-message_code unsupported h = absurd (h refl)

-- A payload behind its length byte.
parse_sized-payload :
    (code : ℕ) (id : Option OptionId) (bytes rest : List ℕ) (o : DhcpOption)
    → length bytes < 2 ^ 8
    → id_from code ≡ id
    → decode code id bytes ≡ some o
    → parse_sized code (length bytes % 2 ^ 8 ∷ bytes ++ rest) ≡ some (o, rest)
unfolding parse_sized
parse_sized-payload code id bytes rest o h e d =
    let n : length bytes ≡ length bytes % 2 ^ 8 = omega arith in
    rw
      (
        parse_sized,
        e,
        take-append bytes rest (length bytes % 2 ^ 8) n,
        d,
        drop-append bytes rest (length bytes % 2 ^ 8) n,
      )
      (ground (arith, length-append bytes rest))

-- An option of four bytes, under a code that decodes to a word.
parse_sized-word :
    (code n : ℕ) (id : OptionId) (make : ℕ → DhcpOption) (rest : List ℕ)
    → n < 2 ^ 32
    → id_from code ≡ some id
    → ((payload : List ℕ) → decode code (some id) payload ≡ of_word make payload)
    → parse_sized code (4 ∷ be32 n ++ rest) ≡ some (make n, rest)
parse_sized-word code n id make rest h e d =
    parse_sized-payload code (some id) (be32 n) rest (make n) (omega arith) e (
      d (be32 n)
      ∙ ap (λ w. elim w as (λ _. Option DhcpOption) [ none ↦ none | some k ↦ some (make k) ])
          (from_be32-be32 n h))

-- The parser reads every well-formed option back from what the serializer writes, and leaves what
-- follows it.
pub parse-serialize :
    (o : DhcpOption) (rest : List ℕ) → IsWellFormed o → parse (serialize o ++ rest) ≡ some (o, rest)
unfolding parse serialize id_from
parse-serialize pad rest h = refl
parse-serialize end_option rest h = refl
parse-serialize (subnet_mask n) rest h =
    parse_sized-word 1 n subnet_mask_id subnet_mask rest h refl (λ _. refl)
parse-serialize (broadcast_ip n) rest h =
    parse_sized-word 28 n broadcast_ip_id broadcast_ip rest h refl (λ _. refl)
parse-serialize (requested_ip n) rest h =
    parse_sized-word 50 n requested_ip_id requested_ip rest h refl (λ _. refl)
parse-serialize (lease_time n) rest h =
    parse_sized-word 51 n lease_time_id lease_time rest h refl (λ _. refl)
parse-serialize (server_ip n) rest h =
    parse_sized-word 54 n server_ip_id server_ip rest h refl (λ _. refl)
parse-serialize (renewal_time n) rest h =
    parse_sized-word 58 n renewal_time_id renewal_time rest h refl (λ _. refl)
parse-serialize (message_type m) rest h =
    parse_sized-payload 53 (some message_type_id) (message_code m ∷ []) rest (message_type m)
      (omega arith) refl (rw (message_from-message_code m h))
parse-serialize (parameter_request_list bytes) rest h =
    parse_sized-payload 55 (some parameter_request_list_id) bytes rest
      (parameter_request_list bytes) h refl refl
parse-serialize (unknown code bytes) rest (e, h) =
    rw (parse, e) (parse_sized-payload code none bytes rest (unknown code bytes) h e refl)

length-serialize : (o : DhcpOption) → 0 < length (serialize o)
unfolding serialize
length-serialize o = ground arith

-- The loop with enough fuel reads the options of a message, then the end option.
parse_options-build :
    (os : List DhcpOption) (fuel : ℕ)
    → AreWellFormed os
    → length (build os) ≤ fuel
    → parse_options fuel (build os) ≡ os ++ (end_option ∷ [])
unfolding build parse_options
parse_options-build [] zero h n = absurd (omega arith)
parse_options-build (o ∷ os) zero h n =
    absurd (omega (arith, length-append (serialize o) (build os), length-serialize o))
parse_options-build [] (suc zero) h n = refl
parse_options-build [] (suc (suc fuel)) h n = refl
parse_options-build (o ∷ os) (suc fuel) (h, hs) n =
    rw (parse_options, parse-serialize o (build os) h)
      (ap (λ l. o ∷ l)
        (parse_options-build os fuel hs
          (omega (arith, length-append (serialize o) (build os), length-serialize o))))

-- The receive loop, run on the bytes that the options builder writes, finds each of its well-formed
-- options in order and then the end option.
pub all_options-build :
    (os : List DhcpOption) → AreWellFormed os → all_options (build os) ≡ os ++ (end_option ∷ [])
unfolding all_options
all_options-build os h = parse_options-build os (length (build os)) h (omega arith)
