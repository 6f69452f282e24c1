-- ===== src/Net/Dhcp.antt =====
-- The options of kernel/src/net/protocols/dhcp.rs: their parser, their serializer, and the loop over the
-- options of a reply.
pub mod RoundTrip
use elise.Base.{
  ℕ, zero, suc, ◌+◌, ◌-◌, ◌*◌, ◌/◌, ◌%◌, ◌^◌, ◌≤◌, ◌<◌, Bool, true, false, ◌&&◌, Option, none, some,
  List, [], ◌∷◌, ◌++◌, length, leb, ◌==◌, if◌then◌else◌, take, drop,
}
use elise.Net.Bytes.{get_range, be32, from_be32}

-- An IPv4 address is its `u32`.
pub data MessageType : Type 0 where
  discover offer request ack unsupported : MessageType

-- The discriminants: `Unsupported` follows `Ack = 5`.
abbrev pub message_code : MessageType → ℕ
message_code discover = 1
message_code offer = 2
message_code request = 3
message_code ack = 5
message_code unsupported = 6

unfoldable pub message_from : ℕ → MessageType
message_from n =
    if n == 1
    then discover
    else if n == 2
    then offer
    else if n == 3
    then request
    else if n == 5
    then ack
    else unsupported

pub data DhcpOption : Type 0 where
  pad : DhcpOption
  subnet_mask : ℕ → DhcpOption
  broadcast_ip : ℕ → DhcpOption
  requested_ip : ℕ → DhcpOption
  lease_time : ℕ → DhcpOption
  message_type : MessageType → DhcpOption
  server_ip : ℕ → DhcpOption
  parameter_request_list : List ℕ → DhcpOption
  renewal_time : ℕ → DhcpOption
  unknown : ℕ → List ℕ → DhcpOption
  end_option : DhcpOption

pub data OptionId : Type 0 where
  pad_id subnet_mask_id broadcast_ip_id requested_ip_id lease_time_id message_type_id : OptionId
  server_ip_id parameter_request_list_id renewal_time_id end_id : OptionId

abbrev pub id_code : OptionId → ℕ
id_code pad_id = 0
id_code subnet_mask_id = 1
id_code broadcast_ip_id = 28
id_code requested_ip_id = 50
id_code lease_time_id = 51
id_code message_type_id = 53
id_code server_ip_id = 54
id_code parameter_request_list_id = 55
id_code renewal_time_id = 58
id_code end_id = 255

unfoldable pub id_from : ℕ → Option OptionId
id_from n =
    if n == 0
    then some pad_id
    else if n == 1
    then some subnet_mask_id
    else if n == 28
    then some broadcast_ip_id
    else if n == 50
    then some requested_ip_id
    else if n == 51
    then some lease_time_id
    else if n == 53
    then some message_type_id
    else if n == 54
    then some server_ip_id
    else if n == 55
    then some parameter_request_list_id
    else if n == 58
    then some renewal_time_id
    else if n == 255
    then some end_id
    else none

-- An option of four bytes.
abbrev pub of_word : (ℕ → DhcpOption) → List ℕ → Option DhcpOption
of_word make payload = elim (from_be32 payload) [ none ↦ none | some n ↦ some (make n) ]

abbrev pub of_message : List ℕ → Option DhcpOption
of_message [] = none
of_message (b ∷ bs) = some (message_type (message_from b))

-- The payload of an option with a length byte; the source never meets the two single-byte options here.
abbrev pub decode : ℕ → Option OptionId → List ℕ → Option DhcpOption
decode code (some subnet_mask_id) payload = of_word subnet_mask payload
decode code (some broadcast_ip_id) payload = of_word broadcast_ip payload
decode code (some requested_ip_id) payload = of_word requested_ip payload
decode code (some lease_time_id) payload = of_word lease_time payload
decode code (some message_type_id) payload = of_message payload
decode code (some server_ip_id) payload = of_word server_ip payload
decode code (some parameter_request_list_id) payload = some (parameter_request_list payload)
decode code (some renewal_time_id) payload = of_word renewal_time payload
decode code (some pad_id) payload = none
decode code (some end_id) payload = none
decode code none payload = some (unknown code payload)

-- The option and the rest of the message, which the source leaves in its pointer. It moves the pointer
-- only when it returns an option.
unfoldable pub parse_sized : ℕ → List ℕ → Option (DhcpOption × List ℕ)
unfolding id_from message_from
parse_sized code [] = none
parse_sized code (len ∷ rest) =
    if leb len (length rest)
    then elim (decode code (id_from code) (take len rest)) [
      | none ↦ none
      | some option ↦ some (option, drop len rest)
    ]
    else none

unfoldable pub parse : List ℕ → Option (DhcpOption × List ℕ)
unfolding id_from parse_sized
parse [] = none
parse (code ∷ rest) = elim (id_from code) [
  | some pad_id ↦ some (pad, rest)
  | some end_id ↦ some (end_option, rest)
  | _ ↦ parse_sized code rest
]

abbrev pub word_option : OptionId → ℕ → List ℕ
word_option id n = id_code id ∷ 4 ∷ be32 n

-- The bytes that `serialize` appends to its buffer; a length is cut to a `u8`.
unfoldable pub serialize : DhcpOption → List ℕ
serialize pad = id_code pad_id ∷ []
serialize end_option = id_code end_id ∷ []
serialize (subnet_mask ip) = word_option subnet_mask_id ip
serialize (broadcast_ip ip) = word_option broadcast_ip_id ip
serialize (requested_ip ip) = word_option requested_ip_id ip
serialize (server_ip ip) = word_option server_ip_id ip
serialize (lease_time t) = word_option lease_time_id t
serialize (renewal_time t) = word_option renewal_time_id t
serialize (message_type m) = id_code message_type_id ∷ 1 ∷ message_code m ∷ []
serialize (parameter_request_list bytes) =
    id_code parameter_request_list_id ∷ length bytes % 2 ^ 8 ∷ bytes
serialize (unknown code bytes) = code ∷ length bytes % 2 ^ 8 ∷ bytes

-- `DhcpOptionsBuilder`: `add` for each option, then `end`.
unfoldable pub build : List DhcpOption → List ℕ
unfolding serialize
build [] = serialize end_option
build (o ∷ os) = serialize o ++ build os

-- The loop of `parse_dhcp_reply`: it stops at the end of the message or at an option that does not
-- parse. Every round shortens the message, so its length is fuel enough.
unfoldable pub parse_options : ℕ → List ℕ → List DhcpOption
unfolding parse
parse_options zero raw = []
parse_options (suc fuel) raw = elim (parse raw) [
  | none ↦ []
  | some (option, rest) ↦ option ∷ parse_options fuel rest
]

unfoldable pub all_options : List ℕ → List DhcpOption
unfolding parse_options
all_options raw = parse_options (length raw) raw
