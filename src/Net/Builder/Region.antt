-- ===== src/Net/Builder/Region.antt =====
-- The cursor of kernel/src/net/packet.rs in a region of the packet's memory: behind the bytes written
-- since the last split.
use elise.Base.{
  ℕ, ◌+◌, ◌-◌, ◌^◌, ◌≤◌, ◌<◌, ◌≡◌, refl, arith, some, List, [], ◌++◌, length, drop, length-append,
  length-drop, take_prefix, append_assoc, le→leb, drop-drop, drop-append, subst,
}
use elise.Cursor.{returns}
use elise.Cursor
use elise.Cursor.Position.{IsValid}
use elise.Cursor.Write.{write-appends}
use elise.Cursor.Split.{split_at_checked-partitions}
use elise.Net.Packet.{PacketCursor, write, split_at_current, max_packet_len}

-- `base` bytes of the packet lie before the region, and `bytes` are written into it.
abbrev pub region : ℕ → List ℕ → List ℕ → PacketCursor
region base bytes memory = record {
  inner = record {
    inner = bytes ++ drop (length bytes) memory;
    limit = max_packet_len;
    pos = length bytes;
    total_pos = base + length bytes;
  };
  packet_len = base + length bytes;
}

-- There is room for `n` bytes in all in the region.
pub record HasRoom (base n : ℕ) (memory : List ℕ) : Type 0 where
  pub fits : base + n ≤ max_packet_len
  pub room : n ≤ length memory
  pub small : base + length memory < 2 ^ 62

pub length-region :
    (bytes memory : List ℕ)
    → length bytes ≤ length memory
    → length (bytes ++ drop (length bytes) memory) ≡ length memory
length-region bytes memory h =
    omega
      (arith, length-append bytes (drop (length bytes) memory), length-drop (length bytes) memory)

pub region-IsValid :
    (base : ℕ) (bytes memory : List ℕ)
    → HasRoom base (length bytes) memory
    → IsValid (region base bytes memory).inner
region-IsValid base bytes memory h =
    omega (arith, length-region bytes memory h.room, h.fits, h.room, h.small)

-- A write into the region appends its bytes.
pub write-region :
    (base : ℕ) (bytes memory buf : List ℕ)
    → HasRoom base (length bytes + length buf) memory
    → write buf (region base bytes memory)
      ≡ returns (some (length bytes, length bytes + length buf), region base (bytes ++ buf) memory)
unfolding write
write-region base bytes memory buf h = rw (
  write,
  (write-appends buf (region base bytes memory).inner valid (omega (arith, h.fits))
      (omega (arith, length-region bytes memory (omega (arith, h.room)), h.room))).0,
  take_prefix bytes (drop (length bytes) memory),
  beyond,
  length-append bytes buf,
  ← append_assoc bytes buf (drop (length bytes + length buf) memory),
  ← total,
)
  where
    valid : IsValid (region base bytes memory).inner
    valid =
        region-IsValid base bytes memory
          (record { fits = omega (arith, h.fits); room = omega (arith, h.room); small = h.small })

    total : base + length bytes + length buf ≡ base + (length bytes + length buf)
    total = omega arith

    beyond :
        drop (length bytes + length buf) (bytes ++ drop (length bytes) memory)
        ≡ drop (length bytes + length buf) memory
    beyond = rw (
      ← drop-drop (length buf) (length bytes) (bytes ++ drop (length bytes) memory),
      drop-append bytes (drop (length bytes) memory) (length bytes) refl,
      drop-drop (length buf) (length bytes) memory,
    )

-- The split hands out the bytes of the region; the rest of the memory is a region of its own.
split-region :
    (base : ℕ) (bytes memory : List ℕ)
    → HasRoom base (length bytes) memory
    → split_at_current (region base bytes memory)
      ≡ returns (bytes, region (base + length bytes) [] (drop (length bytes) memory))
unfolding split_at_current Cursor.split_at_current Cursor.split_at
split-region base bytes memory h = rw (
  split_at_current,
  (split_at_checked-partitions (length bytes) (region base bytes memory).inner
      (region-IsValid base bytes memory h)
      (omega (arith, length-append bytes (drop (length bytes) memory))) (omega (arith, h.fits))).0,
  take_prefix bytes (drop (length bytes) memory),
  drop-append bytes (drop (length bytes) memory) (length bytes) refl,
  start,
  total,
)
  where
    start : length bytes - length bytes ≡ 0
    start = omega arith

    total : base + length bytes + 0 ≡ base + length bytes
    total = omega arith

pub split-region_at :
    (n base : ℕ) (bytes memory : List ℕ)
    → length bytes ≡ n
    → HasRoom base n memory
    → split_at_current (region base bytes memory)
      ≡ returns (bytes, region (base + n) [] (drop n memory))
split-region_at n base bytes memory e h =
    subst
      (λ k.
        HasRoom base k memory
        → split_at_current (region base bytes memory)
          ≡ returns (bytes, region (base + k) [] (drop k memory)))
      e (split-region base bytes memory) h

-- What is written into the region.
pub get-region :
    (base : ℕ) (bytes memory : List ℕ)
    → length bytes ≤ length memory
    → Cursor.get (region base bytes memory).inner ≡ returns bytes
unfolding Cursor.get
get-region base bytes memory h = rw (
  le→leb (length bytes) (length (bytes ++ drop (length bytes) memory))
      (omega (arith, length-region bytes memory h)),
  take_prefix bytes (drop (length bytes) memory),
)
