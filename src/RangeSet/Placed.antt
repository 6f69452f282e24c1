-- ===== src/RangeSet/Placed.antt =====
-- Where the search of `allocate_prefer` in shared/rangeset/src/lib.rs places an allocation.
use elise.Base.{
  ℕ, ◌+◌, ◌-◌, ◌*◌, ◌/◌, ◌%◌, ◌^◌, ◌≤◌, ◌<◌, ◌≡◌, Option, some, List, [], ◌∷◌, arith, ◌⊎◌,
  bit_and_low, bit_and_high64, min, max,
}
use native.Mathlib.Nat.{mul-mod_left, div-add-mod', mod-lt, one-le-pow, add-mod-mod}
use elise.Range.{Range}
use elise.RangeSet.Allocate.{
  Allocation, take_it, next_entry, aligned_up, padding, place_in, prefer, consider,
}

-- The allocation lies in the entry, holds `size` bytes from its pointer on, and is aligned.
abbrev pub PlacedIn : ℕ → ℕ → Range → Allocation → Type 0
PlacedIn size align e a =
    (e.start ≤ a.start)
    × (a.end ≤ e.end)
    × (a.start ≤ a.ptr)
    × (a.ptr + (size - 1) ≤ a.end)
    × (a.ptr % align ≡ 0)

module _ (size align k : ℕ) (power : align ≡ 2 ^ k) (below : k < 64) where
  align-pos : 0 < align
  align-pos = rw power (one-le-pow k 2 (omega arith))

  -- Rounding up gives a multiple of the alignment.
  aligned_up_lem : (start : ℕ) → aligned_up size align start % align ≡ 0
  unfolding aligned_up
  aligned_up_lem start =
      rw (power, bit_and_high64 k ((start + (2 ^ k - 1)) % 2 ^ 64) (omega arith) (omega arith))
        (mul-mod_left ((start + (2 ^ k - 1)) % 2 ^ 64 / 2 ^ k) (2 ^ k))

  padding_lem : (start : ℕ) → (start + padding size align start) % align ≡ 0
  unfolding padding
  padding_lem start =
      rw
        (
          power,
          bit_and_low k start,
          bit_and_low k (2 ^ k - start % 2 ^ k),
          add-mod-mod start (2 ^ k - start % 2 ^ k) (2 ^ k),
          whole,
        )
        (mul-mod_left (start / 2 ^ k + 1) (2 ^ k))
    where
      whole : start + (2 ^ k - start % 2 ^ k) ≡ (start / 2 ^ k + 1) * 2 ^ k
      whole = omega (
        arith,
        div-add-mod' start (2 ^ k),
        mod-lt start {m = 2 ^ k} (one-le-pow k 2 (omega arith)),
      )

  place_in-PlacedIn :
      (e o : Range) {a : Allocation}
      → e.start ≤ o.start
      → o.end ≤ e.end
      → place_in size align o ≡ some a
      → PlacedIn size align e a
  unfolding place_in
  place_in-PlacedIn e o lo hi h = ground (arith, aligned_up_lem o.start)

  prefer-PlacedIn :
      (e : Range) (regions : List Range) {a : Allocation}
      → prefer size align e regions ≡ some (some a)
      → PlacedIn size align e a
  unfolding prefer
  prefer-PlacedIn e [] h = cc
  prefer-PlacedIn e (region ∷ regions) {a} h =
      let o : Range = record { start = max e.start region.start; end = min e.end region.end } in
      ground (
        arith,
        prefer-PlacedIn e regions {a = a},
        place_in-PlacedIn e o {a = a} (omega arith) (omega arith),
      )

  pub consider-PlacedIn :
      (regions : List Range) (e : Range) (best : Option Allocation) (end : ℕ) {a : Allocation}
      → e.start + (size - 1) + padding size align e.start ≡ end
      → ((consider size align regions e best end ≡ take_it a) → PlacedIn size align e a)
        × ((consider size align regions e best end ≡ next_entry (some a))
            → (best ≡ some a) ⊎ PlacedIn size align e a)
  unfolding consider
  consider-PlacedIn regions e best end {a} q = (
    λ h. ground (arith, prefer-PlacedIn e regions {a = a}),
    λ h. ground (arith, prefer-PlacedIn e regions {a = a}, padding_lem e.start),
  )
