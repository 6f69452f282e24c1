-- ===== src/Net/Lease/Replies.antt =====
-- What kernel/src/net/protocols/dhcp.rs takes from the replies of a DHCP server.
use elise.Base.{
  ℕ, ◌^◌, ◌<◌, ◌≡◌, arith, true, Option, some, List, [], ◌∷◌, ◌++◌, length, length-append,
  take-append, drop-append, drop-drop,
}
use elise.Net.Bytes.{be32, from_be32-be32}
use elise.Net.Dhcp.{DhcpOption, end_option, build}
use elise.Net.Dhcp.RoundTrip.{AreWellFormed, all_options-build}
use elise.Net.Lease.{cookie, word_at, is_word, is_reply, parse_dhcp_reply}

-- A reply's header: the fields that are not read are free, of the size they have.
abbrev pub reply_header : ℕ → ℕ → List ℕ → ℕ → List ℕ → List ℕ
reply_header hops xid times your_ip names =
    2 ∷ 1 ∷ 6 ∷ hops ∷ (be32 xid ++ (times ++ (be32 your_ip ++ (names ++ be32 cookie))))

is_word-some : (n : ℕ) (o : Option ℕ) → o ≡ some n → is_word n o ≡ true
unfolding is_word
is_word-some n o e = rw e (ground arith)

module _ (hops xid your_ip : ℕ) (times names : List ℕ) (xid_fits : xid < 2 ^ 32)
    (ip_fits : your_ip < 2 ^ 32) (eight : length times ≡ 8) (many : length names ≡ 216) where
  length-reply_header : length (reply_header hops xid times your_ip names) ≡ 240
  length-reply_header = omega (
    arith,
    length-append times (be32 your_ip ++ (names ++ be32 cookie)),
    length-append names (be32 cookie),
  )

  at_cookie : word_at 236 (reply_header hops xid times your_ip names) ≡ some cookie
  unfolding word_at
  at_cookie = rw (
    ← drop-drop 220 8 (times ++ (be32 your_ip ++ (names ++ be32 cookie))),
    drop-append times (be32 your_ip ++ (names ++ be32 cookie)) 8 eight,
    drop-append names (be32 cookie) 216 many,
  )

  pub word_at-reply_header : word_at 16 (reply_header hops xid times your_ip names) ≡ some your_ip
  unfolding word_at
  word_at-reply_header =
      rw (drop-append times (be32 your_ip ++ (names ++ be32 cookie)) 8 eight)
        (from_be32-be32 your_ip ip_fits)

  at_xid : word_at 4 (reply_header hops xid times your_ip names) ≡ some xid
  unfolding word_at
  at_xid = from_be32-be32 xid xid_fits

  is_reply-reply_header : is_reply xid (reply_header hops xid times your_ip names) ≡ true
  unfolding is_reply
  is_reply-reply_header = rw (is_reply, is_word-some xid _ at_xid, is_word-some cookie _ at_cookie)

  -- A reply to the transaction, with fields of the size they have and the bytes that the options builder
  -- writes for well-formed options, is taken, and its header and its options are handed out.
  pub parse_dhcp_reply-build :
      (os : List DhcpOption)
      → AreWellFormed os
      → parse_dhcp_reply xid (reply_header hops xid times your_ip names ++ build os)
        ≡ some (reply_header hops xid times your_ip names, os ++ (end_option ∷ []))
  unfolding parse_dhcp_reply
  parse_dhcp_reply-build os h =
      let header = reply_header hops xid times your_ip names in
      rw
        (
          parse_dhcp_reply,
          take-append header (build os) 240 length-reply_header,
          drop-append header (build os) 240 length-reply_header,
          is_reply-reply_header,
          all_options-build os h,
        )
        (ground (arith, length-append header (build os), length-reply_header))
