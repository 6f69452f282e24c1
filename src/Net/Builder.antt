-- ===== src/Net/Builder.antt =====
-- The packet builders of kernel/src/net/protocols: what they share. A builder holds the slices that the
-- splits of its cursor hand out; nothing else can reach them, so each is a list of its own.
pub mod Tests
pub mod Region
pub mod V4
pub mod V6
pub mod Ip
pub mod Udp
use elise.Base.{ℕ, suc, zero, ◌+◌, Option, none, some, List, [], ◌∷◌, length}
use elise.Cursor.{Run, returns, panics, copy_to}
use elise.Net.Packet.{Packet, PacketCursor}

-- An early return of `None` gives the builder up; the packet's only builders that run on after one are
-- those that panic on it.
infixl 5 ◌>>=◌
abbrev pub ◌>>=◌ : {A B : Type 0} → Run (Option A) → (A → Run (Option B)) → Run (Option B)
panics >>= f = panics
returns none >>= f = returns none
returns (some a) >>= f = f a

-- `cursor.write(...)?`: the positions around the bytes, and the cursor behind them.
abbrev pub put : Run (Option (ℕ × ℕ) × PacketCursor) → Run (Option ((ℕ × ℕ) × PacketCursor))
put panics = panics
put (returns (none, c)) = returns none
put (returns (some positions, c)) = returns (some (positions, c))

-- A call that may panic and has no early return.
abbrev pub always : {A : Type 0} → Run A → Run (Option A)
always panics = panics
always (returns a) = returns (some a)

-- `hdr[i] = b`
abbrev pub set_byte : ℕ → ℕ → List ℕ → Run (List ℕ)
set_byte i b hdr = copy_to i (i + 1) (b ∷ []) hdr
