-- ===== src/Net/Builder/V6.antt =====
-- The IPv6 builder of kernel/src/net/protocols/ip/v6.rs.
pub mod Written
use elise.Base.{ℕ, ◌+◌, ◌*◌, ◌^◌, Option, none, some, List}
use elise.Cursor.{Run, returns, panics, copy_to}
use elise.Net.Bytes.{be16}
use elise.Net.Packet.{PacketCursor, write, write_u8, write_u16, split_at_current}
use elise.Net.Builder.{◌>>=◌, always, put, set_byte}

-- The indexes of the fields that are filled in at the end.
pub record ToFillV6 : Type 0 where
  pub len : ℕ
  pub prot : ℕ

-- An IPv6 address is its sixteen bytes.
pub record BuilderV6 : Type 0 where
  pub hdr : List ℕ
  pub src : List ℕ
  pub dst : List ℕ
  pub to_fill : ToFillV6
  pub cursor : Option PacketCursor

unfoldable pub new : PacketCursor → List ℕ → List ℕ → Run (Option BuilderV6)
new c src dst = do
  (_, c) ← put (write_u8 (6 * 2 ^ 4) c)
  (_, c) ← put (write_u8 0 c)
  (_, c) ← put (write_u16 0 c)
  ((len, _), c) ← put (write_u16 0 c)
  ((prot, _), c) ← put (write_u8 0 c)
  (_, c) ← put (write_u8 64 c)
  (_, c) ← put (write src c)
  (_, c) ← put (write dst c)
  (hdr, c) ← always (split_at_current c)
  returns (
      some (record {
        hdr = hdr;
        src = src;
        dst = dst;
        to_fill = record { len = len; prot = prot };
        cursor = some c;
      }))

unfoldable pub write_len : ℕ → BuilderV6 → Run BuilderV6
write_len len b = elim (copy_to b.to_fill.len (b.to_fill.len + 2) (be16 len) b.hdr) [
  | panics ↦ panics
  | returns hdr ↦ returns (record b { hdr = hdr })
]

unfoldable pub set_protocol : ℕ → BuilderV6 → Run BuilderV6
set_protocol prot b = elim (set_byte b.to_fill.prot prot b.hdr) [
  | panics ↦ panics
  | returns hdr ↦ returns (record b { hdr = hdr })
]

-- `self.cursor.take()`
abbrev pub take_cursor : BuilderV6 → Option PacketCursor × BuilderV6
take_cursor b = (b.cursor, record b { cursor = none })

unfoldable pub finalize : ℕ → BuilderV6 → Run BuilderV6
unfolding write_len
finalize payload_len b = write_len payload_len b
