-- ===== src/Net/Builder/V4.antt =====
-- The IPv4 builder of kernel/src/net/protocols/ip/v4.rs.

pub mod Written
use elise.Base.{
  ℕ, ◌+◌, ◌-◌, ◌*◌, ◌/◌, ◌%◌, ◌^◌, ◌≤◌, ◌<◌, ◌≡◌, Option, none, some, List, [], ◌∷◌, ◌++◌, length,
  leb, if◌then◌else◌,
}
use elise.Cursor.{Run, returns, panics, copy_to, expect}
use elise.Net.Bytes.{be16, be32}
use elise.Net.Packet.{PacketCursor, write_u8, write_u16, write_u32, split_at_current, checksum}
use elise.Net.Builder.{◌>>=◌, always, put, set_byte}

-- The indexes of the fields that are filled in at the end.
pub record ToFill : Type 0 where
  pub len : ℕ
  pub prot : ℕ
  pub crc : ℕ

pub record BuilderV4 : Type 0 where
  pub hdr : List ℕ
  pub src : ℕ
  pub dst : ℕ
  pub to_fill : ToFill
  pub cursor : Option PacketCursor

unfoldable pub new : PacketCursor → ℕ → ℕ → Run (Option BuilderV4)
new c src dst = do
  (_, c) ← put (write_u8 (4 * 2 ^ 4 + 5) c)
  (_, c) ← put (write_u8 0 c)
  ((len, _), c) ← put (write_u16 0 c)
  (_, c) ← put (write_u32 0 c)
  (_, c) ← put (write_u8 64 c)
  ((prot, _), c) ← put (write_u8 0 c)
  ((crc, _), c) ← put (write_u16 0 c)
  (_, c) ← put (write_u32 src c)
  (_, c) ← put (write_u32 dst c)
  (hdr, c) ← always (split_at_current c)
  returns (
      some (record {
        hdr = hdr;
        src = src;
        dst = dst;
        to_fill = record { len = len; prot = prot; crc = crc };
        cursor = some c;
      }))

-- `write_len` panics where the total is over `u16`.
unfoldable pub write_len : ℕ → BuilderV4 → Run BuilderV4
write_len len b =
    let size = length b.hdr % 2 ^ 16 + len in
    if leb size 65535
    then elim (copy_to b.to_fill.len (b.to_fill.len + 2) (be16 size) b.hdr) [
      | panics ↦ panics
      | returns hdr ↦ returns (record b { hdr = hdr })
    ]
    else panics

-- `write_crc` writes the low byte first: `to_ne_bytes` on the x86 that the kernel runs on.
unfoldable pub write_crc : BuilderV4 → Run BuilderV4
write_crc b =
    let crc = 65535 - checksum b.hdr in
    elim (copy_to b.to_fill.crc (b.to_fill.crc + 2) (crc % 2 ^ 8 ∷ crc / 2 ^ 8 ∷ []) b.hdr) [
      | panics ↦ panics
      | returns hdr ↦ returns (record b { hdr = hdr })
    ]

unfoldable pub set_protocol : ℕ → BuilderV4 → Run BuilderV4
set_protocol prot b = elim (set_byte b.to_fill.prot prot b.hdr) [
  | panics ↦ panics
  | returns hdr ↦ returns (record b { hdr = hdr })
]

-- `self.cursor.take()`
abbrev pub take_cursor : BuilderV4 → Option PacketCursor × BuilderV4
take_cursor b = (b.cursor, record b { cursor = none })

unfoldable pub finalize : ℕ → BuilderV4 → Run BuilderV4
unfolding write_crc
finalize payload_len b = elim (write_len payload_len b) [
  | panics ↦ panics
  | returns b' ↦ write_crc b'
]
