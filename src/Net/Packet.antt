-- ===== src/Net/Packet.antt =====
-- kernel/src/net/packet.rs: the packet buffer, the helpers of its parsers, and `PacketCursor`. A packet's
-- buffer is a list of bytes; what a split of the cursor hands out is a list of its own.
pub mod Writes
use elise.Base.{
  ℕ, zero, suc, ◌+◌, ◌-◌, ◌*◌, ◌/◌, ◌%◌, ◌^◌, Option, ◌++◌, none, some, List, [], ◌∷◌, leb, ◌==◌,
  if◌then◌else◌, length, take, replicate,
}
use elise.Cursor
use elise.Cursor.{Cursor, Run, returns, panics}
use elise.Net.Bytes.{from_be16, from_be32, be16, be32}

pub data ParseError : Type 0 where
  truncated_packet invalid_mac_address invalid_word invalid_dword unsupported_version : ParseError
  invalid_ip_header ip_options_unsupported invalid_ip_protocol : ParseError
  fragmentation_unsupported invalid_length : ParseError

pub data Parse {ℓ} (A : Type ℓ) : Type ℓ where
  parsed : A → Parse A
  refused : ParseError → Parse A

infixl 5 ◌>>=◌ ◌>>◌
abbrev pub ◌>>=◌ {ℓ κ} : {A : Type ℓ} {B : Type κ} → Parse A → (A → Parse B) → Parse B
parsed a >>= f = f a
refused e >>= f = refused e

abbrev pub ◌>>◌ {ℓ} : {B : Type ℓ} → Parse (Unit {0}) → Parse B → Parse B
m >> k = m >>= λ _. k

-- `opt.ok_or(e)`
abbrev pub ok_or {ℓ} : {A : Type ℓ} → Option A → ParseError → Parse A
ok_or none e = refused e
ok_or (some a) e = parsed a

-- `raw` is the page of memory, `len` the packet's length.
pub record Packet : Type 0 where
  pub memory : List ℕ
  pub len : ℕ

abbrev pub max_packet_len : ℕ
max_packet_len = 1514

abbrev pub new_packet : Packet
new_packet = record { memory = replicate 4096 0; len = 0 }

-- `&self.raw[..self.length]`
unfoldable pub raw : Packet → Run (List ℕ)
raw p = if leb p.len (length p.memory) then returns (take p.len p.memory) else panics

abbrev pub set_len : ℕ → Packet → Packet
set_len n p = record p { len = n }

abbrev pub clear : Packet → Packet
clear p = set_len 0 p

unfoldable pub parse_mac : Option (List ℕ) → Parse (List ℕ)
parse_mac bytes = do
  slice ← ok_or bytes truncated_packet
  (if length slice == 6 then parsed slice else refused invalid_mac_address)

unfoldable pub parse_u16 : Option (List ℕ) → Parse ℕ
parse_u16 bytes = do slice ← ok_or bytes truncated_packet; ok_or (from_be16 slice) invalid_word

unfoldable pub parse_u32 : Option (List ℕ) → Parse ℕ
parse_u32 bytes = do slice ← ok_or bytes truncated_packet; ok_or (from_be32 slice) invalid_dword

-- The sum of the words of `checksum`, in a `u32`; an odd last byte is the high byte of a word.
unfoldable pub checksum_words : ℕ → List ℕ → ℕ
checksum_words sum [] = sum
checksum_words sum (last ∷ []) = (sum + last * 2 ^ 8) % 2 ^ 32
checksum_words sum (a ∷ b ∷ bytes) = checksum_words ((sum + (a * 2 ^ 8 + b)) % 2 ^ 32) bytes

-- `(checksum & 0xFFFF).wrapping_add(checksum >> 16)`
abbrev pub fold_carry : ℕ → ℕ
fold_carry sum = (sum % 2 ^ 16 + sum / 2 ^ 16) % 2 ^ 32

unfoldable pub checksum : List ℕ → ℕ
unfolding checksum_words
checksum bytes = fold_carry (fold_carry (checksum_words 0 bytes)) % 2 ^ 16

-- The packet's length is a field of its cursor while the cursor lives.
pub record PacketCursor : Type 0 where
  pub inner : Cursor ℕ
  pub packet_len : ℕ

unfoldable pub packet_cursor : Packet → Run PacketCursor
packet_cursor p = elim (Cursor.set_position p.len (Cursor.new_with_limit p.memory max_packet_len)) [
  | panics ↦ panics
  | returns c ↦ returns (record { inner = c; packet_len = p.len })
]

abbrev pub update_len : PacketCursor → PacketCursor
update_len c = record c { packet_len = c.inner.total_pos }

-- A failed write leaves the packet's length.
unfoldable pub write : List ℕ → PacketCursor → Run (Option (ℕ × ℕ) × PacketCursor)
write buf c = elim (Cursor.write buf c.inner) [
  | panics ↦ panics
  | returns (none, inner) ↦ returns (none, record c { inner = inner })
  | returns (some positions, inner) ↦
      returns (some positions, update_len (record c { inner = inner }))
]

unfoldable pub write_u8 : ℕ → PacketCursor → Run (Option (ℕ × ℕ) × PacketCursor)
write_u8 n = write (n ∷ [])

unfoldable pub write_u16 : ℕ → PacketCursor → Run (Option (ℕ × ℕ) × PacketCursor)
write_u16 n = write (be16 n)

unfoldable pub write_u32 : ℕ → PacketCursor → Run (Option (ℕ × ℕ) × PacketCursor)
write_u32 n = write (be32 n)

unfoldable pub split_at_checked : ℕ → PacketCursor → Option (List ℕ × PacketCursor)
split_at_checked idx c = elim (Cursor.split_at_checked idx c.inner) [
  | none ↦ none
  | some (left, right) ↦ some (left, update_len (record c { inner = right }))
]

-- `split_at_current` does not set the packet's length.
unfoldable pub split_at_current : PacketCursor → Run (List ℕ × PacketCursor)
split_at_current c = elim (Cursor.split_at_current c.inner) [
  | panics ↦ panics
  | returns (left, right) ↦ returns (left, record c { inner = right })
]

-- A builder's steps, joined by `?`: `none` is the early return of `None`.
abbrev pub Build : Type 0 → Type 0
Build A = PacketCursor → Run (Option A × PacketCursor)

abbrev pub and_then :
    {A B : Type 0} → Run (Option A × PacketCursor) → (A → Build B) → Run (Option B × PacketCursor)
and_then panics f = panics
and_then (returns (none, c)) f = returns (none, c)
and_then (returns (some a, c)) f = f a c

-- Writes in a row whose positions are not used: `cursor.write(b)?` for each of the buffers.
unfoldable pub write_all : List (List ℕ) → Build (Unit {0})
write_all [] c = returns (some tt, c)
write_all (buf ∷ bufs) c = and_then (write buf c) (λ _. write_all bufs)
