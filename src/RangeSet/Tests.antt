-- ===== src/RangeSet/Tests.antt =====
-- The methods of shared/rangeset/src/lib.rs on small sets, and their laws at such sets.
use elise.Base.{
  ℕ, ◌⊎◌, inr, Bool, false, ◌-◌, none, ◌+◌, ◌≡◌, refl, true, ◌||◌, ◌&&◌, not, some, List, [], ◌∷◌,
  arith, inl, replicate, u64_max,
}
use elise.Range.{Range, range_set_overflow}
use elise.RangeSet.{
  RangeSet, new_set, done, fail, panic, insert, insert_loop, insert_at, remove, remove_loop, delete,
  read_at, write_at, copy_within, split_entry, split_in_two, entries, len,
}
use elise.RangeSet.Allocate.{
  allocate, allocate_prefer, search_entries, visit, consider, prefer, padding, place_in, aligned_up,
}
use elise.RangeSet.Allocated.{IsAllocated, allocate_prefer-IsAllocated, allocate_prefer_panics}
use elise.RangeSet.Layout.{holding}
use elise.RangeSet.Entries.{within, covers}
use elise.RangeSet.Valid.{IsValid}
use elise.RangeSet.Inserted.{insert-covers, insert-loses}
use elise.RangeSet.Removed.{remove-covers}
use elise.RangeSet.Refine.{Op, inserts, removes, run, addresses, AreAnswers, run-addresses}
use elise.RangeSet.Length.{count, len-count}
use elise.RangeSet.Found.{allocate_prefer_granted, allocate_prefer_high}

abbrev range : ℕ → ℕ → Range
range a b = record { start = a; end = b }

abbrev zeros : ℕ → List Range
zeros n = replicate n (range 0 0)

abbrev two_ranges : RangeSet
two_ranges = holding (range 10 20 ∷ range 30 40 ∷ []) (zeros 254)

two_ranges-IsValid : IsValid two_ranges
two_ranges-IsValid = record { size = refl; used = omega arith; sorted = omega arith }

insert_merges :
    insert (range 21 35) two_ranges ≡ done tt (holding (range 10 40 ∷ []) (range 10 20 ∷ zeros 254))
unfolding insert insert_loop insert_at delete read_at write_at copy_within
insert_merges = refl

-- A range that ends right before an entry is not merged with it.
insert_touching :
    insert (range 5 9) two_ranges
    ≡ done tt (holding (range 5 9 ∷ range 10 20 ∷ range 30 40 ∷ []) (zeros 253))
unfolding insert insert_loop insert_at delete read_at write_at copy_within
insert_touching = refl

remove_splits :
    remove (range 15 16) two_ranges
    ≡ done true (holding (range 10 14 ∷ range 17 20 ∷ range 30 40 ∷ []) (zeros 253))
unfolding remove remove_loop split_entry split_in_two delete read_at write_at copy_within
remove_splits = refl

len-two_ranges : len two_ranges ≡ some 22
unfolding len
len-two_ranges = refl

insert-covers_example :
    (s' : RangeSet) × (insert (range 21 35) two_ranges ≡ done tt s')
    × IsValid s'
    × ((x : ℕ) → covers (entries s') x ≡ within (range 21 35) x || covers (entries two_ranges) x)
insert-covers_example =
    insert-covers (range 21 35) two_ranges two_ranges-IsValid (omega arith) (omega arith)
      (omega arith) (inl (omega arith))

remove-covers_example :
    (s' : RangeSet) × (remove (range 15 16) two_ranges ≡ done true s')
    × IsValid s'
    × ((x : ℕ)
        → covers (entries s') x ≡ covers (entries two_ranges) x && not (within (range 15 16) x))
remove-covers_example =
    remove-covers (range 15 16) two_ranges two_ranges-IsValid (omega arith) (inl (omega arith))

len-count_example : len two_ranges ≡ some (count (u64_max + 1) (covers (entries two_ranges)))
len-count_example = len-count two_ranges 25 two_ranges-IsValid (omega arith) refl

abbrev some_calls : List Op
some_calls =
    inserts (range 10 19)
    ∷ inserts (range 15 30)
    ∷ removes (range 18 20)
    ∷ removes (range 40 50)
    ∷ []

run-addresses_example :
    (answers : List Bool) × (s : RangeSet) × (run some_calls new_set ≡ done answers s)
    × IsValid s
    × ((x : ℕ) → covers (entries s) x ≡ addresses some_calls (λ x. false) x)
    × AreAnswers some_calls (λ x. false) answers
run-addresses_example = run-addresses some_calls (omega arith) (omega arith)

-- 256 ranges of five addresses, ten addresses apart.
abbrev spread : ℕ → ℕ → List Range
spread n a =
    elim n as (λ _. ℕ → List Range) [
      | ℕ.zero ↦ λ _. []
      | ℕ.suc (_ → rest) ↦ λ b. range b (b + 4) ∷ rest (b + 10)
    ]
      a

abbrev full_set : RangeSet
full_set = holding (spread 256 0) []

full_set-IsValid : IsValid full_set
full_set-IsValid = record { size = refl; used = omega arith; sorted = omega arith }

insert-loses_example :
    insert (range 5 8) (holding (range 0 4 ∷ range 100 u64_max ∷ []) (zeros 254))
    ≡ fail range_set_overflow (holding (range 100 u64_max ∷ []) (range 0 4 ∷ zeros 254))
insert-loses_example =
    insert-loses (range 5 8) (range 0 4) (range 100 u64_max) (zeros 254) (omega arith) (omega arith)
      (omega arith) refl

-- The best entry for 4 bytes at a multiple of 8 is the second: it needs two bytes of padding.
allocate_best_fit :
    allocate 4 8 two_ranges ≡ done (some 32) (holding (range 10 20 ∷ range 36 40 ∷ []) (zeros 254))
unfolding allocate search_entries visit consider prefer padding remove remove_loop write_at read_at
allocate_best_fit = refl

allocate_prefer-IsAllocated_example :
    (allocate_prefer 4 8 none two_ranges ≡ done none two_ranges)
    ⊎ ((ptr : ℕ) × (s' : RangeSet) × (allocate_prefer 4 8 none two_ranges ≡ done (some ptr) s')
        × IsAllocated 4 8 ptr two_ranges s')
allocate_prefer-IsAllocated_example =
    allocate_prefer-IsAllocated 4 8 none two_ranges (omega arith) (omega arith) refl
      two_ranges-IsValid (omega arith)

allocate_prefer_granted_example :
    (ptr : ℕ) × (s' : RangeSet) × (allocate_prefer 4 8 none two_ranges ≡ done (some ptr) s')
    × IsAllocated 4 8 ptr two_ranges s'
allocate_prefer_granted_example =
    allocate_prefer_granted 4 8 none two_ranges (record { start = 32; end = 35; ptr = 32 })
      (omega arith) (omega arith) refl two_ranges-IsValid (omega arith) (omega arith)
      (inr (inl (omega arith, omega arith, omega arith, omega arith, refl)))

-- A free page, and the last sixteen addresses.
abbrev page_and_top : RangeSet
page_and_top = holding (range 4096 8191 ∷ range (u64_max - 15) u64_max ∷ []) (zeros 254)

allocate_prefer_high_example : allocate_prefer 4096 4096 none page_and_top ≡ done none page_and_top
allocate_prefer_high_example =
    allocate_prefer_high 4096 4096 page_and_top (omega arith) refl (inr (inl (omega arith)))

abbrev region_set : RangeSet
region_set = holding (range 12 12 ∷ []) (zeros 255)

found_inside :
    search_entries 1 1 (entries region_set) (entries full_set) none
    ≡ some (record { start = 12; end = 12; ptr = 12 })
unfolding search_entries visit consider prefer padding place_in aligned_up
found_inside = refl

allocate_prefer_panics_example : allocate_prefer 1 1 (some region_set) full_set ≡ panic
allocate_prefer_panics_example =
    allocate_prefer_panics 1 1 (some region_set) full_set
      (record { start = 12; end = 12; ptr = 12 }) (omega arith) refl full_set-IsValid refl
      found_inside (omega arith) (omega arith)
