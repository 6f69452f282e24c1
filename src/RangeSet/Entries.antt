-- ===== src/RangeSet/Entries.antt =====
-- What `insert` and `remove` of shared/rangeset/src/lib.rs do to the entries, as functions on a list.
use elise.Base.{
  ℕ, ◌+◌, ◌-◌, ◌≤◌, ◌<◌, ◌≡◌, refl, Bool, true, false, ◌&&◌, ◌||◌, List, [], ◌∷◌, ◌++◌, arith, ltb,
  leb, if◌then◌else◌, u64_max, lt→ltb, ge→ltb, dec_lt,
}
use elise.Range.{Range, contains, overlaps, saturating_add}
use elise.RangeSet.{merged, is_none}

-- The addresses of a range, and of the entries of a set.
abbrev pub within : Range → ℕ → Bool
within r x = leb r.start x && leb x r.end

abbrev pub covers : List Range → ℕ → Bool
covers [] x = false
covers (e ∷ es) x = within e x || covers es x

-- The entries are valid ranges of `u64`, in ascending order, and share no address; none starts below
-- the bound.
abbrev pub Sorted : ℕ → List Range → Type 0
Sorted bound [] = Unit {0}
Sorted bound (e ∷ es) =
    (bound ≤ e.start) × (e.start ≤ e.end) × (e.end ≤ u64_max) × Sorted (e.end + 1) es

-- No entry ends at the last address.
abbrev pub EndsBelow : List Range → Type 0
EndsBelow [] = Unit {0}
EndsBelow (e ∷ es) = (e.end < u64_max) × EndsBelow es

unfoldable pub insert_list : Range → List Range → List Range
insert_list r [] = r ∷ []
insert_list r (e ∷ es) = elim (ltb (e.end + 1) r.start) [
  | true ↦ e ∷ insert_list r es
  | false ↦ elim (ltb r.end e.start) [ true ↦ r ∷ e ∷ es | false ↦ insert_list (merged e r) es ]
]

-- What is left of an entry.
unfoldable pub pieces : Range → Range → List Range
pieces r e =
    if is_none (overlaps e r)
    then e ∷ []
    else if contains r e
    then []
    else if leb r.start e.start
    then record { start = saturating_add r.end 1; end = e.end } ∷ []
    else if leb e.end r.end
    then record { start = e.start; end = r.start - 1 } ∷ []
    else record { start = e.start; end = r.start - 1 }
      ∷ record { start = r.end + 1; end = e.end }
      ∷ []

unfoldable pub remove_list : Range → List Range → List Range
remove_list r [] = []
remove_list r (e ∷ es) = pieces r e ++ remove_list r es

-- One equation for each way that the entry and the range can lie.
module _ (r e : Range) (es : List Range) where
  pub insert_list_skip : e.end + 1 < r.start → insert_list r (e ∷ es) ≡ e ∷ insert_list r es
  unfolding insert_list
  insert_list_skip h = rw (insert_list, lt→ltb _ _ h)

  pub insert_list_stop : r.start ≤ e.end + 1 → r.end < e.start → insert_list r (e ∷ es) ≡ r ∷ e ∷ es
  unfolding insert_list
  insert_list_stop h k = rw (insert_list, ge→ltb _ _ h, lt→ltb _ _ k)

  pub insert_list_merge :
      r.start ≤ e.end + 1 → e.start ≤ r.end → insert_list r (e ∷ es) ≡ insert_list (merged e r) es
  unfolding insert_list
  insert_list_merge h k = rw (insert_list, ge→ltb _ _ h, ge→ltb _ _ k)

pub Sorted-weaken : {a b : ℕ} (es : List Range) → a ≤ b → Sorted b es → Sorted a es
Sorted-weaken [] h s = tt
Sorted-weaken (e ∷ es) h s = (omega arith, s.1, s.2, s.3)

or_swap : (a b c : Bool) → (a || (b || c)) ≡ (b || (a || c))
or_swap a b c = ground arith

or_regroup : (a b c : Bool) → ((a || b) || c) ≡ (b || (a || c))
or_regroup a b c = ground arith

pub insert_list-Sorted :
    (r : Range) (es : List Range) (b : ℕ)
    → r.start ≤ r.end
    → r.end ≤ u64_max
    → b ≤ r.start
    → Sorted b es
    → Sorted b (insert_list r es)
unfolding insert_list
insert_list-Sorted r [] b v top lo s = (lo, v, top, tt)
insert_list-Sorted r (e ∷ es) b v top lo s = elim (dec_lt (e.end + 1) r.start) [
  | yes p ↦
      rw (insert_list_skip r e es p)
        (s.0, s.1, s.2, insert_list-Sorted r es (e.end + 1) v top (omega arith) s.3)
  | no p ↦ elim (dec_lt r.end e.start) [
    | yes q ↦
        rw (insert_list_stop r e es (omega arith) q) (lo, v, top, (omega arith, s.1, s.2, s.3))
    | no q ↦ rw (insert_list_merge r e es (omega arith) (omega arith)) (
        insert_list-Sorted (merged e r) es b (omega arith) (omega arith) (omega arith)
          (Sorted-weaken es (omega arith) s.3))
  ]
]

within-merged :
    (e r : Range) (x : ℕ)
    → e.start ≤ e.end
    → r.start ≤ r.end
    → r.start ≤ e.end + 1
    → e.start ≤ r.end
    → within (merged e r) x ≡ within e x || within r x
within-merged e r x v w h k = ground arith

pub covers-insert_list :
    (r : Range) (es : List Range) (b x : ℕ)
    → Sorted b es
    → r.start ≤ r.end
    → covers (insert_list r es) x ≡ within r x || covers es x
unfolding insert_list
covers-insert_list r [] b x s v = refl
covers-insert_list r (e ∷ es) b x s v = elim (dec_lt (e.end + 1) r.start) [
  | yes p ↦
      rw (insert_list_skip r e es p, covers, covers-insert_list r es (e.end + 1) x s.3 v)
        (or_swap (within e x) (within r x) (covers es x))
  | no p ↦ elim (dec_lt r.end e.start) [
    | yes q ↦ rw (insert_list_stop r e es (omega arith) q)
    | no q ↦
        rw
          (
            insert_list_merge r e es (omega arith) (omega arith),
            covers-insert_list (merged e r) es (e.end + 1) x s.3 (omega arith),
            within-merged e r x s.1 v (omega arith) (omega arith),
          )
          (or_regroup (within e x) (within r x) (covers es x))
  ]
]
