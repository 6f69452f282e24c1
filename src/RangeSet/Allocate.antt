-- ===== src/RangeSet/Allocate.antt =====
-- `allocate_prefer` and `allocate` of shared/rangeset/src/lib.rs, for a target with 64-bit `usize`.
use elise.Base.{
  ℕ, ◌+◌, ◌-◌, ◌%◌, ◌^◌, bit_and, Bool, true, ◌&&◌, ◌||◌, Option, none, some, List, [], ◌∷◌, ltb,
  leb, ◌==◌, if◌then◌else◌, u64_max, count_ones_on, not,
}
use elise.Range.{Range, zero_sized_allocation, wrong_alignment, overlaps, checked_add}
use elise.RangeSet.{RangeSet, Outcome, done, fail, panic, out_of_fuel, M, entries, remove}

abbrev pub count_ones : ℕ → ℕ
count_ones = count_ones_on 64

-- The triple of the source: the inclusive bounds of what is taken from the set, and the pointer.
pub record Allocation : Type 0 where
  pub start : ℕ
  pub end : ℕ
  pub ptr : ℕ

-- How the search goes on after an entry: `return Ok(None)`, `break 'search`, or the next entry.
pub data Step : Type 0 where
  give_up : Step
  take_it : Allocation → Step
  next_entry : Option Allocation → Step

module _ (size align : ℕ) where
  abbrev pub align_mask : ℕ
  align_mask = align - 1

  -- `(overlap.start.wrapping_add(align_mask)) & !align_mask`
  unfoldable pub aligned_up : ℕ → ℕ
  aligned_up start = bit_and ((start + align_mask) % 2 ^ 64) (u64_max - align_mask)

  -- `(align - (entry.start & align_mask)) & align_mask`
  unfoldable pub padding : ℕ → ℕ
  padding start = bit_and (align - bit_and start align_mask) align_mask

  -- The place that a preferred region offers within an entry. The comparison with the largest address
  -- is that of the source: on this target it never fails.
  unfoldable pub place_in : Range → Option Allocation
  place_in overlap =
      let aligned = aligned_up overlap.start in
      if leb overlap.start aligned
        && leb aligned overlap.end
        && leb (size - 1) (overlap.end - aligned)
      then some (record { start = aligned; end = aligned + (size - 1); ptr = aligned })
      else none

  -- The loop over the regions, at one entry. `none` says that no region offers a place; the source's
  -- `continue 'search` at an address beyond `usize::MAX` is `some none`.
  unfoldable pub prefer : Range → List Range → Option (Option Allocation)
  prefer entry [] = none
  prefer entry (region ∷ regions) =
      let rest = prefer entry regions in
      elim (overlaps entry region) [
        | none ↦ rest
        | some overlap ↦ elim (place_in overlap) [
          | none ↦ rest
          | some a ↦ if ltb u64_max a.start || ltb u64_max a.end then some none else some (some a)
        ]
      ]

  -- `allocation.is_none() || prev_size.unwrap() > end - start`
  abbrev pub is_better : Option Allocation → ℕ → Bool
  is_better none room = true
  is_better (some a) room = ltb room (a.end - a.start)

  -- The inclusive end of an allocation at the start of an entry.
  abbrev pub end_of : ℕ → Option ℕ
  end_of start = elim (checked_add start (size - 1)) [
    | none ↦ none
    | some e ↦ checked_add e (padding start)
  ]

  -- The rest of the loop's body once `end` is known.
  unfoldable pub consider : List Range → Range → Option Allocation → ℕ → Step
  consider regions entry best end =
      if ltb entry.end end then next_entry best else elim (prefer entry regions) [
        | some (some a) ↦ take_it a
        | some none ↦ next_entry best
        | none ↦ next_entry (
            if is_better best (end - entry.start)
            then some
                (record { start = entry.start; end = end; ptr = entry.start + padding entry.start })
            else best)
      ]

  unfoldable pub visit : List Range → Range → Option Allocation → Step
  visit regions entry best = elim (end_of entry.start) [
    | none ↦ give_up
    | some end ↦ consider regions entry best end
  ]

  -- The loop `'search` over the entries.
  unfoldable pub search_entries : List Range → List Range → Option Allocation → Option Allocation
  search_entries regions [] best = best
  search_entries regions (entry ∷ rest) best = elim (visit regions entry best) [
    | give_up ↦ none
    | take_it a ↦ some a
    | next_entry best' ↦ search_entries regions rest best'
  ]

-- `self.remove(Range { start, end }).unwrap()`
abbrev pub unwrap_remove : ℕ → Outcome Bool → Outcome (Option ℕ)
unwrap_remove ptr (done _ s) = done (some ptr) s
unwrap_remove ptr (fail _ s) = panic
unwrap_remove ptr panic = panic
unwrap_remove ptr out_of_fuel = out_of_fuel

-- The entries of the preferred regions; `None` is a set of no regions, over which the loop does nothing.
abbrev pub region_list : Option RangeSet → List Range
region_list none = []
region_list (some regions) = entries regions

unfoldable pub allocate_prefer : ℕ → ℕ → Option RangeSet → M (Option ℕ)
allocate_prefer size align regions s =
    if size == 0
    then fail zero_sized_allocation s
    else if not (count_ones align == 1)
    then fail (wrong_alignment align) s
    else elim (search_entries size align (region_list regions) (entries s) none) [
      | none ↦ done none s
      | some a ↦ unwrap_remove a.ptr (remove (record { start = a.start; end = a.end }) s)
    ]

unfoldable pub allocate : ℕ → ℕ → M (Option ℕ)
unfolding allocate_prefer
allocate size align s = allocate_prefer size align none s
