-- ===== src/Net/Lease/Request/Written.antt =====
-- The request that kernel/src/net/protocols/dhcp.rs writes, given to the parsers.
use elise.Base.{
  ℕ, sym, ap, ◌-◌, ◌+◌, ◌^◌, ◌≤◌, ◌≡◌, refl, arith, List, [], ◌∷◌, ◌++◌, length, length-append,
  length-drop, replicate, drop, take-append, drop-append, le→leb, append_assoc,
}
use elise.Cursor.{returns, copy_to}
use elise.Net.Bytes.{be32}
use elise.Net.Packet.{Packet}
use elise.Net.Ip.{eth_type_ipv4}
use elise.Net.Dhcp.{DhcpOption, end_option, all_options, build}
use elise.Net.Dhcp.RoundTrip.{AreWellFormed, all_options-build}
use elise.Net.Builder.V4.Written.{sealed}
use elise.Net.Builder.Ip.Written.{frame_header, marked_builder_v4}
use elise.Net.Builder.Udp.{Builder}
use elise.Net.Builder.Udp.Written.{ready, create_udp-v4}
use elise.Net.Builder.Udp.Sent.{write_payload-ready, write_payload-more, drop_builder-v4}
use elise.Net.Builder.Udp.Carries.{Carries}
use elise.Net.Builder.Udp.RoundTrip.{Carries-v4}
use elise.Net.Arp.{broadcast}
use elise.Net.Lease.{cookie}
use elise.Net.Lease.Request.{fill_header, request_addr, create_dhcp_request, set_inner}

-- The header of a request: what is not set is zero.
abbrev pub request_header : ℕ → List ℕ → List ℕ
request_header xid mac =
    1 ∷ 1 ∷ 6 ∷ 0 ∷ (be32 xid ++ (replicate 20 0 ++ (mac ++ (replicate 202 0 ++ be32 cookie))))

copy_to-parts :
    (from to : ℕ) (before old after buf : List ℕ)
    → length before ≡ from
    → from + length old ≡ to
    → copy_to from to buf (before ++ (old ++ after)) ≡ returns (before ++ (buf ++ after))
copy_to-parts from to before old after buf h k = rw (
  le→leb to (length (before ++ (old ++ after)))
      (omega (arith, length-append before (old ++ after), length-append old after)),
  take-append before (old ++ after) from h,
  ← append_assoc before old after,
  drop-append (before ++ old) after to (omega (arith, length-append before old)),
)

pub fill_header-zeroes :
    (xid : ℕ) (mac rest : List ℕ)
    → length mac ≡ 6
    → fill_header xid mac (replicate 240 0 ++ rest) ≡ returns (request_header xid mac ++ rest)
unfolding fill_header
fill_header-zeroes xid mac rest h =
    rw
      (
        fill_header,
        copy_to-parts 0 1 [] (0 ∷ []) (replicate 239 0 ++ rest) (1 ∷ []) refl refl,
        copy_to-parts 1 2 (1 ∷ []) (0 ∷ []) (replicate 238 0 ++ rest) (1 ∷ []) refl refl,
        copy_to-parts 2 3 (1 ∷ 1 ∷ []) (0 ∷ []) (replicate 237 0 ++ rest) (6 ∷ []) refl refl,
        copy_to-parts 4 8 (1 ∷ 1 ∷ 6 ∷ 0 ∷ []) (replicate 4 0) (replicate 232 0 ++ rest) (be32 xid)
            refl refl,
        copy_to-parts 28 34 head (replicate 6 0) (replicate 206 0 ++ rest) mac refl refl,
        append_assoc mac (replicate 202 0 ++ be32 cookie) rest,
      )
      (rw
        (
          append_assoc mac (replicate 202 0) (replicate 4 0 ++ rest),
          append_assoc mac (replicate 202 0) (be32 cookie ++ rest),
        )
        at
        (copy_to-parts 236 240 (head ++ (mac ++ replicate 202 0)) (replicate 4 0) rest (be32 cookie)
          (omega (arith, length-append mac (replicate 202 0))) refl))
  where
    head : List ℕ
    head = 1 ∷ 1 ∷ 6 ∷ 0 ∷ (be32 xid ++ replicate 20 0)

module _ (xid : ℕ) (mac memory : List ℕ) (six : length mac ≡ 6) (size : length memory ≡ 4096) where
  abbrev all_ones : ℕ
  all_ones = 2 ^ 32 - 1

  -- The builder with `bytes` in its payload.
  abbrev with_payload : List ℕ → Builder
  with_payload bytes =
      ready (frame_header broadcast mac eth_type_ipv4) (marked_builder_v4 0x11 0 all_ones) 68 67 42
        bytes (drop 42 memory)

  length-request_header : length (request_header xid mac) ≡ 240
  length-request_header = omega (arith, length-append mac (replicate 202 0 ++ be32 cookie))

  set_inner-request_header :
      set_inner
        (with_payload (replicate 240 0))
        (request_header xid mac ++ drop 240 (drop 42 memory))
      ≡ with_payload (request_header xid mac)
  set_inner-request_header =
      ap
        (λ n.
          set_inner
            (record (with_payload []) {
              payload = record (with_payload []).payload {
                inner = record (with_payload []).payload.inner { pos = n; total_pos = 42 + n };
                packet_len = 42 + n;
              };
            })
            (request_header xid mac ++ drop n (drop 42 memory)))
        (sym length-request_header)

  -- What `create_dhcp_request` writes for any bytes in the place of the options.
  pub create_dhcp_request-bytes :
      (options : List ℕ)
      → 282 + length options ≤ 1514
      → let payload = request_header xid mac ++ options in
        (sent : Packet) × (create_dhcp_request xid mac options (record { memory = memory; len = 0 })
          ≡ returns sent)
        × Carries (request_addr mac) payload sent
  unfolding create_dhcp_request
  create_dhcp_request-bytes options fits = (
    _,
    rw (
      create_dhcp_request,
      create_udp-v4 broadcast mac memory 68 67 refl six size 0 all_ones,
      write_payload-ready (frame_header broadcast mac eth_type_ipv4) 68 67 42 (drop 42 memory)
          (marked_builder_v4 0x11 0 all_ones) (replicate 240 0)
          (omega (arith, length-drop 42 memory)),
      fill_header-zeroes xid mac (drop 240 (drop 42 memory)) six,
      set_inner-request_header,
      write_payload-more (frame_header broadcast mac eth_type_ipv4) 68 67 42 (drop 42 memory)
          (marked_builder_v4 0x11 0 all_ones) (request_header xid mac) options
          (omega (arith, length-drop 42 memory, length-request_header)),
      drop_builder-v4 (frame_header broadcast mac eth_type_ipv4) 68 67 42 (drop 42 memory) 0
          all_ones (request_header xid mac ++ options)
          (omega (
            arith,
            length-drop 42 memory,
            length-request_header,
            length-append (request_header xid mac) options,
          ))
          (omega (arith, length-request_header, length-append (request_header xid mac) options)),
    ),
    Carries-v4 broadcast mac memory payload 68 67 refl six size (omega arith) (omega arith) 0
        all_ones (sealed (28 + length payload) 0x11 0 all_ones) 0
        (drop (length payload) (drop 42 memory))
        (omega (arith, length-request_header, length-append (request_header xid mac) options))
        (omega arith) (omega arith),
  )
    where
      payload : List ℕ
      payload = request_header xid mac ++ options

  -- A request with options that fit the packet, for a hardware address of six bytes, written into an
  -- empty packet with 4096 bytes of memory: `parse_udp` reads back the broadcast from no address between
  -- the ports of DHCP, the header with the transaction, the hardware address and the cookie, and the
  -- bytes of the options; the parser of options reads those back where they are well-formed.
  pub create_dhcp_request-Carries :
      (os : List DhcpOption)
      → AreWellFormed os
      → 282 + length (build os) ≤ 1514
      → let payload = request_header xid mac ++ build os in
        (sent : Packet) × (create_dhcp_request xid mac
            (build os)
            (record { memory = memory; len = 0 })
          ≡ returns sent)
        × Carries (request_addr mac) payload sent
        × (all_options (drop 240 payload) ≡ os ++ (end_option ∷ []))
  create_dhcp_request-Carries os h fits =
      let (sent, done, carried) = create_dhcp_request-bytes (build os) fits in
      (
        sent,
        done,
        carried,
        rw (drop-append (request_header xid mac) (build os) 240 length-request_header)
            (all_options-build os h),
      )
