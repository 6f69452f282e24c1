-- ===== src/RangeSet/Pieces.antt =====
-- What `remove` of shared/rangeset/src/lib.rs leaves of the entries, and how many it splits.
use elise.Base.{
  ℕ, ◌+◌, ◌-◌, ◌≤◌, ◌<◌, ◌≡◌, refl, Bool, true, false, ◌&&◌, ◌||◌, not, List, [], ◌∷◌, ◌++◌, arith,
  ltb, if◌then◌else◌, u64_max, ◌⊎◌, inl, inr, dec_lt, dec_le,
}
use elise.Range.{Range, contains, overlaps, saturating_add}
use elise.RangeSet.{is_none}
use elise.RangeSet.Entries.{within, covers, Sorted, Sorted-weaken, pieces, remove_list}

-- How a range can meet an entry, with what is left of the entry.
pub data Cut (r e : Range) (ps : List Range) : Type 0 where
  missed :
      is_none (overlaps e r) ≡ true
      → (r.end < e.start) ⊎ (e.end < r.start)
      → ps ≡ e ∷ []
      → Cut r e ps
  swallowed :
      is_none (overlaps e r) ≡ false
      → contains r e ≡ true
      → r.start ≤ e.start
      → e.end ≤ r.end
      → ps ≡ []
      → Cut r e ps
  cut_front :
      is_none (overlaps e r) ≡ false
      → contains r e ≡ false
      → r.start ≤ e.start
      → e.start ≤ r.end
      → r.end < e.end
      → saturating_add r.end 1 ≡ r.end + 1
      → ps ≡ record { start = r.end + 1; end = e.end } ∷ []
      → Cut r e ps
  cut_back :
      is_none (overlaps e r) ≡ false
      → contains r e ≡ false
      → e.start < r.start
      → r.start ≤ e.end
      → e.end ≤ r.end
      → ps ≡ record { start = e.start; end = r.start - 1 } ∷ []
      → Cut r e ps
  cut_middle :
      is_none (overlaps e r) ≡ false
      → contains r e ≡ false
      → e.start < r.start
      → r.end < e.end
      → ps
        ≡ record { start = e.start; end = r.start - 1 }
          ∷ record { start = r.end + 1; end = e.end }
          ∷ []
      → Cut r e ps

pub pieces-Cut :
    (r e : Range) → r.start ≤ r.end → e.start ≤ e.end → e.end ≤ u64_max → Cut r e (pieces r e)
unfolding pieces
pieces-Cut r e v w top = elim (dec_lt r.end e.start) [
  | yes p ↦ missed (ground arith) (inl p) (ground arith)
  | no p ↦ elim (dec_lt e.end r.start) [
    | yes q ↦ missed (ground arith) (inr q) (ground arith)
    | no q ↦ elim (dec_le r.start e.start) [
      | yes l ↦ elim (dec_le e.end r.end) [
        | yes m ↦ swallowed (ground arith) (ground arith) l m (ground arith)
        | no m ↦
            cut_front (ground arith) (ground arith) l (omega arith) (omega arith) (omega arith)
              (ground arith)
      ]
      | no l ↦ elim (dec_le e.end r.end) [
        | yes m ↦
            cut_back (ground arith) (ground arith) (omega arith) (omega arith) m (ground arith)
        | no m ↦ cut_middle (ground arith) (ground arith) (omega arith) (omega arith) (ground arith)
      ]
    ]
  ]
]

covers-append : (xs ys : List Range) (x : ℕ) → covers (xs ++ ys) x ≡ covers xs x || covers ys x
covers-append [] ys x = refl
covers-append (e ∷ xs) ys x = ground (arith, covers-append xs ys x)

covers-pieces :
    (r e : Range) (x : ℕ)
    → r.start ≤ r.end
    → e.start ≤ e.end
    → e.end ≤ u64_max
    → covers (pieces r e) x ≡ within e x && not (within r x)
unfolding pieces
covers-pieces r e x v w top = elim (pieces-Cut r e v w top) [
  | missed _ m p ↦ rw p (ground arith)
  | swallowed _ _ a b p ↦ rw p (ground arith)
  | cut_front _ _ a b c _ p ↦ rw p (ground arith)
  | cut_back _ _ a b c p ↦ rw p (ground arith)
  | cut_middle _ _ a b p ↦ rw p (ground arith)
]

-- The entries cover what they did, without the range.
pub covers-remove_list :
    (r : Range) (es : List Range) (b x : ℕ)
    → Sorted b es
    → r.start ≤ r.end
    → covers (remove_list r es) x ≡ covers es x && not (within r x)
unfolding remove_list
covers-remove_list r [] b x s v = refl
covers-remove_list r (e ∷ es) b x s v =
    rw
      (
        remove_list,
        covers-append (pieces r e) (remove_list r es) x,
        covers-pieces r e x v s.1 s.2,
        covers-remove_list r es (e.end + 1) x s.3 v,
      )
      (distribute (within e x) (covers es x) (not (within r x)))
  where
    distribute : (a b c : Bool) → ((a && c) || (b && c)) ≡ ((a || b) && c)
    distribute a b c = ground arith

pub remove_list-Sorted :
    (r : Range) (es : List Range) (b : ℕ)
    → r.start ≤ r.end
    → Sorted b es
    → Sorted b (remove_list r es)
unfolding remove_list
remove_list-Sorted r [] b v s = tt
remove_list-Sorted r (e ∷ es) b v s =
    let rest : Sorted (e.end + 1) (remove_list r es) = remove_list-Sorted r es (e.end + 1) v s.3 in
    elim (pieces-Cut r e v s.1 s.2) [
      | missed _ m p ↦ rw (remove_list, p) (s.0, s.1, s.2, rest)
      | swallowed _ _ l h p ↦ rw (remove_list, p) (Sorted-weaken _ (omega arith) rest)
      | cut_front _ _ l m h _ p ↦ rw (remove_list, p) (omega arith, omega arith, s.2, rest)
      | cut_back _ _ l m h p ↦
          rw (remove_list, p) (s.0, omega arith, omega arith, Sorted-weaken _ (omega arith) rest)
      | cut_middle _ _ l h p ↦
          rw (remove_list, p) (s.0, omega arith, omega arith, (omega arith, omega arith, s.2, rest))
    ]

-- Whether `remove` touches an entry, and how many entries it splits.
abbrev pub touches : Range → List Range → Bool
touches r [] = false
touches r (e ∷ es) = not (is_none (overlaps e r)) || touches r es

abbrev pub splits : Range → List Range → ℕ
splits r [] = 0
splits r (e ∷ es) = (if ltb e.start r.start && ltb r.end e.end then 1 else 0) + splits r es

-- Entries behind the range are not split.
splits-behind :
    (r : Range) (es : List Range) (b : ℕ)
    → r.start ≤ r.end
    → r.end < b
    → Sorted b es
    → splits r es ≡ 0
splits-behind r [] b v h s = refl
splits-behind r (e ∷ es) b v h s =
    ground (arith, splits-behind r es (e.end + 1) v (omega arith) s.3)

-- A range that splits one of the entries starts behind their bound.
pub splits-start :
    (r : Range) (es : List Range) (b : ℕ)
    → r.start ≤ r.end
    → Sorted b es
    → 0 < splits r es
    → b < r.start
splits-start r [] b v s h = absurd (omega arith)
splits-start r (e ∷ es) b v s h = ground (arith, splits-start r es (e.end + 1) v s.3)

-- Entries that share no address are split at most once.
pub splits-le :
    (r : Range) (es : List Range) (b : ℕ) → r.start ≤ r.end → Sorted b es → splits r es ≤ 1
splits-le r [] b v s = omega arith
splits-le r (e ∷ es) b v s =
    ground (arith, splits-le r es (e.end + 1) v s.3, splits-behind r es (e.end + 1) v)
