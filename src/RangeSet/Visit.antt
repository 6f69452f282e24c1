-- ===== src/RangeSet/Visit.antt =====
-- A round of the search of `allocate_prefer` in shared/rangeset/src/lib.rs.
use elise.Base.{
  ℕ, suc, ◌+◌, ◌-◌, ◌/◌, ◌%◌, ◌^◌, ◌≤◌, ◌<◌, ◌≡◌, refl, Bool-cases, false, Option, none, some, List,
  [], ◌∷◌, arith, u64_max, ◌⊎◌, inl, inr, ◌∙◌, Option-cases, bit_and_low, ltb, ◌||◌, if◌then◌else◌,
  dec_le, dec_lt,
}
use native.Mathlib.Nat.{
  div-add-mod', mod-lt, one-le-pow, mul-le-mul_right, suc-mul, mod_self, mod-eq_of_lt,
}
use elise.Range.{Range, overlaps}
use elise.RangeSet.Allocate.{
  Allocation, Step, is_better, take_it, next_entry, padding, place_in, prefer, end_of, consider,
  visit,
}

-- Padding reaches the first multiple from the start on.
next_multiple :
    (m start ptr : ℕ) → 0 < m → start ≤ ptr → ptr % m ≡ 0 → start + (m - start % m) % m ≤ ptr
next_multiple m start ptr pos h aligned = elim (dec_lt 0 (start % m)) [
  | no zero_rest ↦
      let whole : m - start % m ≡ m = omega (arith, zero_rest) in
      rw (whole, mod_self m) (omega (arith, h))
  | yes rest ↦
      let low = mod-lt start {m = m} pos in
      let short : (m - start % m) % m ≡ m - start % m = mod-eq_of_lt (omega (arith, rest, low)) in
      rw short (elim (dec_le (suc (start / m)) (ptr / m)) [
        | yes p ↦ omega (
          arith,
          mul-le-mul_right m p,
          suc-mul (start / m) m,
          div-add-mod' start m,
          div-add-mod' ptr m,
          aligned,
          low,
        )
        | no p ↦
            let less : ptr / m ≤ start / m = omega (arith, p) in
            absurd (
              omega (
                arith,
                mul-le-mul_right m less,
                div-add-mod' start m,
                div-add-mod' ptr m,
                aligned,
                rest,
                h,
              ))
      ])
]

-- A round of the search on an entry: it ends with a place, goes on with a place, or the entry is too small.
pub data Visited (size align : ℕ) (e : Range) (best : Option Allocation) (s : Step) : Type 0 where
  takes : (a : Allocation) → s ≡ take_it a → Visited size align e best s
  improves : (a : Allocation) → s ≡ next_entry (some a) → Visited size align e best s
  skips :
      s ≡ next_entry best
      → e.end < e.start + (size - 1) + padding size align e.start
      → Visited size align e best s

-- No sum of an entry's start with the size and the alignment leaves `u64`.
abbrev pub StartLow : ℕ → ℕ → List Range → Type 0
StartLow size align [] = Unit {0}
StartLow size align (e ∷ es) =
    (e.start + (size - 1) + (align - 1) ≤ u64_max) × StartLow size align es

module _ (size align k : ℕ) (power : align ≡ 2 ^ k) (below : k < 64) where
  padding-mod : (start : ℕ) → padding size align start ≡ (align - start % align) % align
  unfolding padding
  padding-mod start = rw (power, bit_and_low k start, bit_and_low k (2 ^ k - start % 2 ^ k)) refl

  pub padding-least :
      (start ptr : ℕ) → start ≤ ptr → ptr % align ≡ 0 → start + padding size align start ≤ ptr
  padding-least start ptr h aligned =
      rw (padding-mod start)
        (next_multiple align start ptr (rw power (one-le-pow k 2 (omega arith))) h aligned)

  padding-lt : (start : ℕ) → padding size align start < align
  padding-lt start =
      rw (padding-mod start)
        (mod-lt (align - start % align) {m = align} (rw power (one-le-pow k 2 (omega arith))))

  -- The addition of no start and the sizes wraps.
  end_of-some :
      (start : ℕ)
      → start + (size - 1) + (align - 1) ≤ u64_max
      → end_of size align start ≡ some (start + (size - 1) + padding size align start)
  end_of-some start h = ground (arith, padding-lt start)

  place_in-le :
      (o : Range) {a : Allocation}
      → o.end ≤ u64_max
      → place_in size align o ≡ some a
      → (ltb u64_max a.start || ltb u64_max a.end) ≡ false
  unfolding place_in
  place_in-le o h e = ground arith

  module _ (e region : Range) (regions : List Range) where
    prefer_apart :
        overlaps e region ≡ none
        → prefer size align e (region ∷ regions) ≡ prefer size align e regions
    unfolding prefer
    prefer_apart h = ground arith

    prefer_no_place :
        (o : Range)
        → overlaps e region ≡ some o
        → place_in size align o ≡ none
        → prefer size align e (region ∷ regions) ≡ prefer size align e regions
    unfolding prefer
    prefer_no_place o h place = ground arith

    prefer_place :
        (o : Range) (a : Allocation)
        → overlaps e region ≡ some o
        → place_in size align o ≡ some a
        → (ltb u64_max a.start || ltb u64_max a.end) ≡ false
        → prefer size align e (region ∷ regions) ≡ some (some a)
    unfolding prefer
    prefer_place o a h place low = ground arith

  -- No preferred region sends the search on to the next entry.
  prefer-cases :
      (e : Range) (regions : List Range)
      → e.end ≤ u64_max
      → (prefer size align e regions ≡ none)
        ⊎ ((a : Allocation) × (prefer size align e regions ≡ some (some a)))
  unfolding prefer
  prefer-cases e [] h = inl refl
  prefer-cases e (region ∷ regions) h =
      let rest = prefer-cases e regions h in
      elim (Option-cases (overlaps e region)) [
        | inl apart ↦ rw (prefer_apart e region regions apart) rest
        | inr (o, shared) ↦ elim (Option-cases (place_in size align o)) [
          | inl no_place ↦ rw (prefer_no_place e region regions o shared no_place) rest
          | inr (a, place) ↦
              let top : o.end ≤ u64_max = ground (arith, shared) in
              inr (a, prefer_place e region regions o a shared place (place_in-le o top place))
        ]
      ]

  better-some :
      (best : Option Allocation) (room : ℕ) (a : Allocation)
      → (a' : Allocation) × ((if is_better size align best room then some a else best) ≡ some a')
  better-some none room a = (a, refl)
  better-some (some b) room a = elim (Bool-cases (is_better size align (some b) room)) [
    | inl e ↦ (a, rw e refl)
    | inr e ↦ (b, rw e refl)
  ]

  module _ (regions : List Range) (e : Range) (best : Option Allocation) (end : ℕ) where
    consider_small : e.end < end → consider size align regions e best end ≡ next_entry best
    unfolding consider
    consider_small h = ground arith

    consider_taken :
        (a : Allocation)
        → end ≤ e.end
        → prefer size align e regions ≡ some (some a)
        → consider size align regions e best end ≡ take_it a
    unfolding consider
    consider_taken a h p = ground arith

    consider_best :
        end ≤ e.end
        → prefer size align e regions ≡ none
        → (a : Allocation) × (consider size align regions e best end ≡ next_entry (some a))
    unfolding consider
    consider_best h p =
        let place : Allocation = record {
          start = e.start;
          end = end;
          ptr = e.start + padding size align e.start;
        } in
        let (a, better) = better-some best (end - e.start) place in (a, ground (arith, p, better))

  visit-end :
      (regions : List Range) (e : Range) (best : Option Allocation)
      → e.start + (size - 1) + (align - 1) ≤ u64_max
      → visit size align regions e best
        ≡ consider size align regions e best (e.start + (size - 1) + padding size align e.start)
  unfolding visit
  visit-end regions e best h = rw (visit, end_of-some e.start h) refl

  pub visit-Visited :
      (regions : List Range) (e : Range) (best : Option Allocation)
      → e.end ≤ u64_max
      → e.start + (size - 1) + (align - 1) ≤ u64_max
      → Visited size align e best (visit size align regions e best)
  visit-Visited regions e best top h =
      let end = e.start + (size - 1) + padding size align e.start in
      let whole = visit-end regions e best h in
      elim (dec_lt e.end end) [
        | yes small ↦ skips (whole ∙ consider_small regions e best end small) small
        | no large ↦ elim (prefer-cases e regions top) [
          | inr (a, p) ↦
              takes a (whole ∙ consider_taken regions e best end a (omega (arith, large)) p)
          | inl p ↦
              let (a, q) = consider_best regions e best end (omega (arith, large)) p in
              improves a (whole ∙ q)
        ]
      ]
