-- ===== src/Net/Bytes.antt =====
-- Byte slices and big-endian words, as kernel/src/net uses them.
use elise.Base.{
  ℕ, ◌+◌, ◌-◌, ◌*◌, ◌/◌, ◌%◌, ◌^◌, ◌<◌, ◌≡◌, arith, ◌&&◌, Option, none, some, List, [], ◌∷◌, leb,
  if◌then◌else◌, length, take, drop,
}

-- `slice.get(lo..hi)` and `slice.get(lo..)`
abbrev pub get_range : ℕ → ℕ → List ℕ → Option (List ℕ)
get_range lo hi xs =
    if leb lo hi && leb hi (length xs) then some (take (hi - lo) (drop lo xs)) else none

abbrev pub get_from : ℕ → List ℕ → Option (List ℕ)
get_from lo xs = if leb lo (length xs) then some (drop lo xs) else none

-- `u16::to_be_bytes` and `u32::to_be_bytes`
abbrev pub be16 : ℕ → List ℕ
be16 n = n / 2 ^ 8 % 2 ^ 8 ∷ n % 2 ^ 8 ∷ []

abbrev pub be32 : ℕ → List ℕ
be32 n = n / 2 ^ 24 % 2 ^ 8 ∷ n / 2 ^ 16 % 2 ^ 8 ∷ n / 2 ^ 8 % 2 ^ 8 ∷ n % 2 ^ 8 ∷ []

-- `u16::from_be_bytes` and `u32::from_be_bytes` of a slice, `none` where its length is another
abbrev pub from_be16 : List ℕ → Option ℕ
from_be16 (a ∷ b ∷ []) = some (a * 2 ^ 8 + b)
from_be16 _ = none

abbrev pub from_be32 : List ℕ → Option ℕ
from_be32 (a ∷ b ∷ c ∷ d ∷ []) = some (a * 2 ^ 24 + b * 2 ^ 16 + c * 2 ^ 8 + d)
from_be32 _ = none

-- Every element is a `u8`.
abbrev pub AreBytes : List ℕ → Type 0
AreBytes [] = Unit {0}
AreBytes (b ∷ bs) = (b < 2 ^ 8) × AreBytes bs

pub from_be16-be16 : (n : ℕ) → n < 2 ^ 16 → from_be16 (be16 n) ≡ some n
from_be16-be16 n h = ground arith

pub from_be32-be32 : (n : ℕ) → n < 2 ^ 32 → from_be32 (be32 n) ≡ some n
from_be32-be32 n h = ground arith
