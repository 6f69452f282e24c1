-- ===== src/Net/Packet/Writes.antt =====
-- What the writes of kernel/src/net/packet.rs leave in a packet.
use elise.Base.{
  ℕ, ◌+◌, ◌^◌, ◌≤◌, ◌<◌, ◌≡◌, arith, some, List, [], ◌∷◌, ◌++◌, length, drop, length-append,
  length-drop, take_prefix, drop-drop, append_assoc, suc, append-nil,
}
use elise.Cursor.{returns}
use elise.Cursor.Position.{IsValid}
use elise.Cursor.Write.{write-appends}
use elise.Net.Packet.{PacketCursor, write, write_all, max_packet_len}

-- The cursor behind the bytes `left`, with `rest` of the packet's memory before it.
abbrev pub behind : List ℕ → List ℕ → PacketCursor
behind left rest = record {
  inner = record {
    inner = left ++ rest;
    limit = max_packet_len;
    pos = length left;
    total_pos = length left;
  };
  packet_len = length left;
}

behind-IsValid :
    (left rest : List ℕ)
    → length left ≤ max_packet_len
    → length rest < 2 ^ 62
    → IsValid (behind left rest).inner
behind-IsValid left rest h k = omega (arith, length-append left rest)

drop-drop-prefix :
    (left buf rest : List ℕ)
    → drop (length left + length buf) (left ++ rest) ≡ drop (length buf) rest
drop-drop-prefix [] buf rest = let e : 0 + length buf ≡ length buf = omega arith in rw e
drop-drop-prefix (x ∷ left) buf rest =
    let e : suc (length left) + length buf ≡ suc (length left + length buf) = omega arith in
    rw e (drop-drop-prefix left buf rest)

pub write-behind :
    (buf left rest : List ℕ)
    → length left + length buf ≤ max_packet_len
    → length buf ≤ length rest
    → length rest < 2 ^ 62
    → write buf (behind left rest)
      ≡ returns (
        some (length left, length left + length buf),
        behind (left ++ buf) (drop (length buf) rest),
      )
unfolding write
write-behind buf left rest fits room small =
    let v = behind-IsValid left rest (omega arith) small in
    rw (
      write,
      (write-appends buf (behind left rest).inner v fits
          (omega (arith, length-append left rest))).0,
      take_prefix left rest,
      drop-drop-prefix left buf rest,
      ← append_assoc left buf (drop (length buf) rest),
      ← length-append left buf,
    )

abbrev pub concat : List (List ℕ) → List ℕ
concat [] = []
concat (b ∷ bs) = b ++ concat bs

-- A row of writes that fit puts their bytes one after the other.
pub write_all-behind :
    (bufs : List (List ℕ)) (left rest : List ℕ)
    → length left + length (concat bufs) ≤ max_packet_len
    → length (concat bufs) ≤ length rest
    → length rest < 2 ^ 62
    → write_all bufs (behind left rest)
      ≡ returns (some tt, behind (left ++ concat bufs) (drop (length (concat bufs)) rest))
unfolding write_all
write_all-behind [] left rest fits room small = rw (append-nil left)
write_all-behind (b ∷ bs) left rest fits room small = rw (
  write_all,
  write-behind b left rest (omega (arith, both)) (omega (arith, both)) small,
  write_all-behind bs (left ++ b) (drop (length b) rest) (omega (arith, both, length-append left b))
      (omega (arith, both, length-drop (length b) rest))
      (omega (arith, length-drop (length b) rest)),
  append_assoc left b (concat bs),
  drop-drop (length (concat bs)) (length b) rest,
  ← both,
)
  where
    both : length (b ++ concat bs) ≡ length b + length (concat bs)
    both = length-append b (concat bs)
