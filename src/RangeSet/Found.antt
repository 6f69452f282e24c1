-- ===== src/RangeSet/Found.antt =====
-- What `allocate_prefer` of shared/rangeset/src/lib.rs finds, and where it stops looking.
use elise.Base.{
  ℕ, ◌+◌, ◌-◌, ◌^◌, ◌<◌, ◌≡◌, refl, Option, none, some, List, [], ◌∷◌, arith, u64_max, ◌⊎◌, inl,
  inr, ◌∙◌, count_ones-one,
}
use elise.Range.{Range}
use elise.RangeSet.{RangeSet, done, entries}
use elise.RangeSet.Entries.{Sorted}
use elise.RangeSet.Valid.{IsValid}
use elise.RangeSet.Allocate.{
  Allocation, give_up, take_it, next_entry, prefer, end_of, consider, visit, search_entries,
  count_ones, region_list, allocate_prefer,
}
use elise.RangeSet.Allocated.{
  HeldBy, IsAllocated, Step-cases, allocate_prefer-eq, search-IsAllocated,
}
use elise.RangeSet.Visit.{takes, improves, skips, StartLow, visit-Visited, padding-least}

module _ (size align k : ℕ) (power : align ≡ 2 ^ k) (below : k < 64) where
  search_step :
      (regions es : List Range) (e : Range) (best best' : Option Allocation)
      → visit size align regions e best ≡ next_entry best'
      → search_entries size align regions (e ∷ es) best ≡ search_entries size align regions es best'
  unfolding search_entries
  search_step regions es e best best' h = rw (search_entries, h) refl

  search_taken :
      (regions es : List Range) (e : Range) (best : Option Allocation) (a : Allocation)
      → visit size align regions e best ≡ take_it a
      → search_entries size align regions (e ∷ es) best ≡ some a
  unfolding search_entries
  search_taken regions es e best a h = rw (search_entries, h) refl

  -- What is found is not lost.
  search-kept :
      (regions es : List Range) (b : ℕ) (best : Allocation)
      → Sorted b es
      → StartLow size align es
      → (a : Allocation) × (search_entries size align regions es (some best) ≡ some a)
  unfolding search_entries
  search-kept regions [] b best s low = (best, refl)
  search-kept regions (e ∷ es) b best s (low, lows) =
      elim (visit-Visited size align k power below regions e (some best) s.2 low) [
        | takes a q ↦ (a, search_taken regions es e (some best) a q)
        | improves a q ↦
            let (a', r) = search-kept regions es (e.end + 1) a s.3 lows in
            (a', search_step regions es e (some best) (some a) q ∙ r)
        | skips q _ ↦
            let (a', r) = search-kept regions es (e.end + 1) best s.3 lows in
            (a', search_step regions es e (some best) (some best) q ∙ r)
      ]

  search-found :
      (regions es : List Range) (b : ℕ) (best : Option Allocation) (place : Allocation)
      → Sorted b es
      → StartLow size align es
      → HeldBy size align es place
      → (a : Allocation) × (search_entries size align regions es best ≡ some a)
  search-found regions [] b best place s low held = absurd held
  search-found regions (e ∷ es) b best place s (low, lows) held =
      elim (visit-Visited size align k power below regions e best s.2 low) [
        | takes a q ↦ (a, search_taken regions es e best a q)
        | improves a q ↦
            let (a', r) = search-kept regions es (e.end + 1) a s.3 lows in
            (a', search_step regions es e best (some a) q ∙ r)
        | skips q small ↦ elim held [
          | inl (lo, hi, p, fits, aligned) ↦ absurd (
              omega (
                arith,
                small,
                fits,
                hi,
                padding-least size align k power below e.start place.ptr (omega (arith, lo, p))
                    aligned,
              ))
          | inr later ↦
              let (a', r) = search-found regions es (e.end + 1) best place s.3 lows later in
              (a', search_step regions es e best best q ∙ r)
        ]
      ]

-- An entry starts so high that the size leads beyond the last address.
abbrev pub HighIn : ℕ → List Range → Type 0
HighIn size [] = ⊥
HighIn size (e ∷ es) = (u64_max < e.start + (size - 1)) ⊎ HighIn size es

module _ (size align : ℕ) where
  visit_high :
      (e : Range) (best : Option Allocation)
      → u64_max < e.start + (size - 1)
      → visit size align [] e best ≡ give_up
  unfolding visit
  visit_high e best h =
      let over : end_of size align e.start ≡ none = ground arith in rw (visit, over) refl

  never_taken :
      (e : Range) (best : Option Allocation) (a : Allocation)
      → visit size align [] e best ≡ take_it a
      → ⊥
  unfolding visit consider prefer
  never_taken e best a q = ground arith

  -- Without preferred regions, a round ends the search only where it gives up.
  visit_on :
      (e : Range) (best : Option Allocation)
      → (visit size align [] e best ≡ give_up)
        ⊎ ((best' : Option Allocation) × (visit size align [] e best ≡ next_entry best'))
  visit_on e best = elim (Step-cases (visit size align [] e best)) [
    | inl q ↦ inl q
    | inr (inl (a, q)) ↦ absurd (never_taken e best a q)
    | inr (inr (b, q)) ↦ inr (b, q)
  ]

  search_gives_up :
      (es : List Range) (best : Option Allocation)
      → HighIn size es
      → search_entries size align [] es best ≡ none
  unfolding search_entries
  search_gives_up [] best h = absurd h
  search_gives_up (e ∷ es) best h = elim (visit_on e best) [
    | inl q ↦ rw (search_entries, q) refl
    | inr (best', q) ↦ elim h [
      | inl high ↦ rw (search_entries, visit_high e best high) refl
      | inr later ↦ rw (search_entries, q) (search_gives_up es best' later)
    ]
  ]

-- Where an entry starts so high that the size leads beyond the last address, a request for at least a byte,
-- aligned to a power of two and without preferred regions, finds nothing, whatever the other entries hold.
pub allocate_prefer_high :
    (size align : ℕ) (s : RangeSet)
    → 0 < size
    → count_ones align ≡ 1
    → HighIn size (entries s)
    → allocate_prefer size align none s ≡ done none s
allocate_prefer_high size align s pos one high =
    rw (
      allocate_prefer-eq size align none s pos one,
      search_gives_up size align (entries s) none high,
    )

-- Where no sum of an entry's start with the size and the alignment leaves `u64`, and an entry of a valid set
-- with a free slot holds a place of that size at a multiple of the alignment, a request for at least a byte,
-- aligned to a power of two, is granted, with or without preferred regions.
pub allocate_prefer_granted :
    (size align : ℕ) (regions : Option RangeSet) (s : RangeSet) (place : Allocation)
    → 0 < size
    → align < 2 ^ 64
    → count_ones align ≡ 1
    → IsValid s
    → s.in_use < 256
    → StartLow size align (entries s)
    → HeldBy size align (entries s) place
    → (ptr : ℕ) × (s' : RangeSet) × (allocate_prefer size align regions s ≡ done (some ptr) s')
      × IsAllocated size align ptr s s'
allocate_prefer_granted size align regions s place pos small one v room low held =
    let (k, below, power) = count_ones-one 64 align small one in
    let (a, found) =
      search-found size align k power below (region_list regions) (entries s) 0 none place v.sorted
        low held in
    let (s', returns, allocated) =
      search-IsAllocated size align regions s a pos small one v room found in
    (a.ptr, s', returns, allocated)
