-- ===== src/RangeSet/Allocated.antt =====
-- The contract of `allocate_prefer` and `allocate` of shared/rangeset/src/lib.rs.
use elise.Base.{
  ℕ, ◌+◌, ◌-◌, ◌%◌, ◌^◌, ◌≤◌, ◌<◌, ◌≡◌, ◌≢◌, refl, Bool, true, false, Option, none, some, List, [],
  ◌∷◌, arith, u64_max, ◌⊎◌, inl, inr, ◌∙◌, Option-cases, ap, count_ones-one, ==_iff, ◌==◌,
}
use elise.Range.{Range, zero_sized_allocation, wrong_alignment}
use elise.RangeSet.{RangeSet, done, fail, panic, entries, remove}
use elise.RangeSet.Entries.{within, covers, Sorted}
use elise.RangeSet.Valid.{IsValid}
use elise.RangeSet.Removed.{remove-covers, remove_full}
use elise.RangeSet.Pieces.{splits}
use elise.RangeSet.Allocate.{
  Allocation, Step, give_up, take_it, next_entry, padding, end_of, visit, search_entries,
  count_ones, region_list, unwrap_remove, allocate_prefer,
}
use elise.RangeSet.Placed.{PlacedIn, consider-PlacedIn}

pub Step-cases :
    (s : Step)
    → (s ≡ give_up)
      ⊎ ((a : Allocation) × (s ≡ take_it a))
      ⊎ ((b : Option Allocation) × (s ≡ next_entry b))
Step-cases give_up = inl refl
Step-cases (take_it a) = inr (inl (a, refl))
Step-cases (next_entry b) = inr (inr (b, refl))

-- One of the entries holds the allocation.
abbrev pub HeldBy : ℕ → ℕ → List Range → Allocation → Type 0
HeldBy size align [] a = ⊥
HeldBy size align (e ∷ es) a = PlacedIn size align e a ⊎ HeldBy size align es a

module _ (size align k : ℕ) (power : align ≡ 2 ^ k) (below : k < 64) where
  pub end_of-eq :
      (start : ℕ) {end : ℕ}
      → end_of size align start ≡ some end
      → start + (size - 1) + padding size align start ≡ end
  end_of-eq start h = ground arith

  visit-PlacedIn :
      (regions : List Range) (e : Range) (best : Option Allocation) {a : Allocation}
      → ((visit size align regions e best ≡ take_it a) → PlacedIn size align e a)
        × ((visit size align regions e best ≡ next_entry (some a))
            → (best ≡ some a) ⊎ PlacedIn size align e a)
  unfolding visit
  visit-PlacedIn regions e best {a} = elim (Option-cases (end_of size align e.start)) [
    | inl none_left ↦ rw (visit, none_left) ((λ h. cc), (λ h. cc))
    | inr (end, fits) ↦
        rw (visit, fits)
          (consider-PlacedIn size align k power below regions e best end (end_of-eq e.start fits))
  ]

  search-HeldBy :
      (regions es : List Range) (best : Option Allocation) {a : Allocation}
      → search_entries size align regions es best ≡ some a
      → (best ≡ some a) ⊎ HeldBy size align es a
  unfolding search_entries
  search-HeldBy regions [] best h = inl h
  search-HeldBy regions (e ∷ es) best {a} h = elim (Step-cases (visit size align regions e best)) [
    | inl q ↦ cc (rw (search_entries, q) at h)
    | inr (inl (b, q)) ↦
        let found : some b ≡ some a = rw (search_entries, q) at h in
        inr (inl ((visit-PlacedIn regions e best).0 (cc)))
    | inr (inr (b, q)) ↦
        let rest : search_entries size align regions es b ≡ some a = rw (search_entries, q) at h in
        elim (search-HeldBy regions es b rest) [
          | inl old ↦ elim ((visit-PlacedIn regions e best).1 (q ∙ ap next_entry old)) [
            | inl first ↦ inl first
            | inr placed ↦ inr (inl placed)
          ]
          | inr later ↦ inr (inr later)
        ]
  ]

-- What a held allocation says of the addresses.
HeldBy-covers :
    (size align : ℕ) (es : List Range) (b : ℕ) {a : Allocation}
    → Sorted b es
    → HeldBy size align es a
    → (a.ptr % align ≡ 0)
      × (a.start ≤ a.ptr)
      × (a.ptr + (size - 1) ≤ a.end)
      × (a.end ≤ u64_max)
      × ((x : ℕ) → within (record { start = a.start; end = a.end }) x ≡ true → covers es x ≡ true)
HeldBy-covers size align [] b s h = absurd h
HeldBy-covers size align (e ∷ es) b {a} s (inl p) =
    (p.4, p.2, p.3, omega arith, λ x w. ground arith)
HeldBy-covers size align (e ∷ es) b {a} s (inr later) =
    let ih = HeldBy-covers size align es (e.end + 1) s.3 later in
    (ih.0, ih.1, ih.2, ih.3, λ x w. ground (arith, ih.4 x))

-- A successful allocation: the pointer is aligned, the bytes from it on were in the set and are not
-- any more, and nothing was added to the set.
pub record IsAllocated (size align ptr : ℕ) (s s' : RangeSet) : Type 0 where
  pub aligned : ptr % align ≡ 0
  pub valid : IsValid s'
  pub was_free : (x : ℕ) → ptr ≤ x → x ≤ ptr + (size - 1) → covers (entries s) x ≡ true
  pub is_taken : (x : ℕ) → ptr ≤ x → x ≤ ptr + (size - 1) → covers (entries s') x ≡ false
  pub shrinks : (x : ℕ) → covers (entries s') x ≡ true → covers (entries s) x ≡ true

Bool-false : (b : Bool) → ((b ≡ true) → ⊥) → b ≡ false
Bool-false true h = absurd (h refl)
Bool-false false h = refl

HeldBy-of_none :
    (size align : ℕ) (es : List Range) (a : Allocation)
    → (none ≡ some a) ⊎ HeldBy size align es a
    → HeldBy size align es a
HeldBy-of_none size align es a (inl e) = cc
HeldBy-of_none size align es a (inr h) = h

-- `allocate_prefer` past its two checks.
pub allocate_prefer-eq :
    (size align : ℕ) (regions : Option RangeSet) (s : RangeSet)
    → 0 < size
    → count_ones align ≡ 1
    → allocate_prefer size align regions s
      ≡ elim (search_entries size align (region_list regions) (entries s) none) [
        | none ↦ done none s
        | some a ↦ unwrap_remove a.ptr (remove (record { start = a.start; end = a.end }) s)
      ]
unfolding allocate_prefer
allocate_prefer-eq size align regions s pos one =
    rw (allocate_prefer, Bool-false (size == 0) (λ e. absurd (ground arith)), one)

-- What the search has found is removed from the set.
pub search-IsAllocated :
    (size align : ℕ) (regions : Option RangeSet) (s : RangeSet) (a : Allocation)
    → 0 < size
    → align < 2 ^ 64
    → count_ones align ≡ 1
    → IsValid s
    → s.in_use < 256
    → search_entries size align (region_list regions) (entries s) none ≡ some a
    → (s' : RangeSet) × (allocate_prefer size align regions s ≡ done (some a.ptr) s')
      × IsAllocated size align a.ptr s s'
search-IsAllocated size align regions s a pos small one v room found =
    let (k, below, power) = count_ones-one 64 align small one in
    let held =
      HeldBy-of_none size align (entries s) a
        (search-HeldBy size align k power below (region_list regions) (entries s) none found) in
    let facts = HeldBy-covers size align (entries s) 0 v.sorted held in
    let whole : Range = record { start = a.start; end = a.end } in
    let (s', returns, valid, exact) = remove-covers whole s v (omega arith) (inl room) in
    (
      s',
      rw (allocate_prefer-eq size align regions s pos one, found, returns),
      record {
        aligned = facts.0;
        valid = valid;
        was_free = λ x p q. facts.4 x (ground arith);
        is_taken = λ x p q. ground (arith, exact x);
        shrinks = λ x h. ground (arith, exact x);
      },
    )

-- A request for at least a byte, aligned to a power of two, on a valid set with a free slot is not an
-- error, with or without preferred regions. It either finds nothing and leaves the set alone, or returns
-- an aligned pointer: all its bytes were in the set and no longer are, the set stays valid, and it gains
-- no address.
pub allocate_prefer-IsAllocated :
    (size align : ℕ) (regions : Option RangeSet) (s : RangeSet)
    → 0 < size
    → align < 2 ^ 64
    → count_ones align ≡ 1
    → IsValid s
    → s.in_use < 256
    → (allocate_prefer size align regions s ≡ done none s)
      ⊎ ((ptr : ℕ) × (s' : RangeSet) × (allocate_prefer size align regions s ≡ done (some ptr) s')
          × IsAllocated size align ptr s s')
allocate_prefer-IsAllocated size align regions s pos small one v room =
    elim (Option-cases (search_entries size align (region_list regions) (entries s) none)) [
      | inl nothing ↦ inl (rw (allocate_prefer-eq size align regions s pos one, nothing))
      | inr (a, found) ↦
          let (s', returns, allocated) =
            search-IsAllocated size align regions s a pos small one v room found in
          inr (a.ptr, s', returns, allocated)
    ]

-- A request for no bytes, or with an alignment that is not a power of two, is refused with the error
-- that says so, and the set stays as it was.
pub allocate_prefer_refused :
    (size align : ℕ) (regions : Option RangeSet) (s : RangeSet)
    → (size ≡ 0 → allocate_prefer size align regions s ≡ fail zero_sized_allocation s)
      × (0 < size
          → count_ones align ≢ 1
          → allocate_prefer size align regions s ≡ fail (wrong_alignment align) s)
unfolding allocate_prefer
allocate_prefer_refused size align regions s = (
  λ none_wanted. rw (allocate_prefer, (==_iff size 0).1 none_wanted),
  λ pos many. rw (
    allocate_prefer,
    Bool-false (size == 0) (λ e. absurd (ground arith)),
    Bool-false (count_ones align == 1) (λ e. many ((==_iff (count_ones align) 1).0 e)),
  ),
)

-- Where all slots of a valid set are in use, and the search for a well-formed request ends strictly inside
-- an entry, the `unwrap` in `allocate_prefer` panics.
pub allocate_prefer_panics :
    (size align : ℕ) (regions : Option RangeSet) (s : RangeSet) (a : Allocation)
    → 0 < size
    → count_ones align ≡ 1
    → IsValid s
    → s.in_use ≡ 256
    → search_entries size align (region_list regions) (entries s) none ≡ some a
    → a.start ≤ a.end
    → 0 < splits (record { start = a.start; end = a.end }) (entries s)
    → allocate_prefer size align regions s ≡ panic
allocate_prefer_panics size align regions s a pos one v full found ordered inside = rw (
  allocate_prefer-eq size align regions s pos one,
  found,
  remove_full (record { start = a.start; end = a.end }) s v ordered full inside,
)
