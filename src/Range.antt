-- ===== src/Range.antt =====
-- `Range` and `Error` of shared/rangeset/src/lib.rs.
use elise.Base.{ℕ, min, max, Bool, ◌&&◌, Option, none, some, leb, if◌then◌else◌, u64_max, ◌+◌}

-- An inclusive range of `u64`; the struct itself does not say that `start ≤ end`.
pub record Range : Type 0 where
  pub start : ℕ
  pub end : ℕ

pub data Error : Type 0 where
  invalid_range : Range → Error
  index_out_of_bounds : ℕ → Error
  range_set_overflow : Error
  zero_sized_allocation : Error
  wrong_alignment : ℕ → Error

pub data Result {ℓ} (A : Type ℓ) : Type ℓ where
  ok : A → Result A
  err : Error → Result A

-- `Range::new`
abbrev pub new : ℕ → ℕ → Result Range
new start end =
    if leb start end
    then ok (record { start = start; end = end })
    else err (invalid_range (record { start = start; end = end }))

abbrev pub contains : Range → Range → Bool
contains self other = leb self.start other.start && leb other.end self.end

abbrev pub overlaps : Range → Range → Option Range
overlaps self other =
    if leb self.start other.end && leb other.start self.end
    then some (record { start = max self.start other.start; end = min self.end other.end })
    else none

-- `u64::checked_add`, `saturating_add` and `saturating_sub`
abbrev pub checked_add : ℕ → ℕ → Option ℕ
checked_add a b = if leb (a + b) u64_max then some (a + b) else none

abbrev pub saturating_add : ℕ → ℕ → ℕ
saturating_add a b = min (a + b) u64_max
