-- ===== src/RangeSet/Removed.antt =====
-- The contract of `RangeSet::remove` of shared/rangeset/src/lib.rs.
use elise.Base.{
  ℕ, zero, suc, ◌+◌, ◌≤◌, ◌<◌, ◌≡◌, refl, Bool, true, false, ◌||◌, ◌&&◌, not, List, [], ◌∷◌, ◌++◌,
  arith, ◌⊎◌, inl, inr, ge→ltb, lt→ltb, dec_lt, append_assoc, append-nil, length, length-append,
  ◌∙◌, ap,
}
use elise.Range.{Range, range_set_overflow}
use elise.RangeSet.{RangeSet, Outcome, done, fail, remove_loop, remove, entries}
use elise.RangeSet.Layout.{holding, snoc_lem}
use elise.RangeSet.Entries.{within, covers, Sorted, pieces, remove_list}
use elise.RangeSet.Pieces.{
  missed, swallowed, cut_front, cut_back, cut_middle, pieces-Cut, touches, splits, splits-start,
  splits-le, covers-remove_list, remove_list-Sorted,
}
use elise.RangeSet.Remove.{
  split_entry_full, round_missed, round_swallowed, round_front, round_back, round_middle,
  round_split,
}
use elise.RangeSet.Valid.{
  IsValid, spare, full-holding, length-entries, length-spare, holding-entries, entries-holding,
  holding-IsValid,
}

-- What the loop returns and leaves behind, if there is a free slot for the entry that it splits.
pub record Removes (out : Outcome Bool) (pre post : List Range) (r : Range) (any : Bool)
    (free : List Range) : Type 0 where
  pub slots : List Range
  pub returns : out ≡ done (any || touches r post) (holding (pre ++ remove_list r post) slots)
  pub count : length (remove_list r post) + length slots ≡ length post + length free

-- One round: `ps` is left of the entry, and the loop goes on behind it.
Removes-round :
    {out out' : Outcome Bool} (pre ps : List Range) (e : Range) (es : List Range) (r : Range)
    (any any' : Bool) (free free' : List Range)
    → out ≡ out'
    → pieces r e ≡ ps
    → any' || touches r es ≡ any || touches r (e ∷ es)
    → length ps + length free' ≡ suc (length free)
    → Removes out' (pre ++ ps) es r any' free'
    → Removes out pre (e ∷ es) r any free
Removes-round pre ps e es r any any' free free' step left flag n ih = record {
  slots = ih.slots;
  returns = step ∙ ih.returns ∙ rw (flag, append_assoc pre ps (remove_list r es), ← whole);
  count = rw whole (omega (arith, length-append ps (remove_list r es), ih.count, n));
}
  where
    whole : remove_list r (e ∷ es) ≡ ps ++ remove_list r es
    whole = unfold remove_list in rw (remove_list, left)

or_true : (a : Bool) → (a || true) ≡ true
or_true a = ground arith

or_false : (a : Bool) → (a || false) ≡ a
or_false a = ground arith

uncons : (xs : List Range) → 0 < length xs → (z : Range) × (rest : List Range) × (xs ≡ z ∷ rest)
uncons [] h = absurd (omega arith)
uncons (z ∷ rest) h = (z, rest, refl)

remove_loop-Removes :
    (f : ℕ) (pre post : List Range) (r : Range) (any : Bool) (free : List Range) (b : ℕ)
    → r.start ≤ r.end
    → Sorted b post
    → splits r post ≤ length free
    → length post < f
    → Removes (remove_loop f (length pre) r any (holding (pre ++ post) free)) pre post r any free
remove_loop-Removes zero pre post r any free b v s room h = absurd (omega arith)
remove_loop-Removes (suc f) pre [] r any free b v s room h = record {
  slots = free;
  returns =
      unfold remove_loop remove_list in
      rw
        (remove_loop, append-nil pre, ge→ltb (length pre) (length pre) (omega arith), or_false any);
  count = unfold remove_list in refl;
}
remove_loop-Removes (suc f) pre (e ∷ es) r any free b v s room h = elim (pieces-Cut r e v s.1 s.2) [
  | missed apart _ p ↦
      Removes-round pre (e ∷ []) e es r any any free free (round_missed pre e es r f any free apart)
        p (rw apart) (omega arith)
        (remove_loop-Removes f (pre ++ (e ∷ [])) es r any free (e.end + 1) v s.3 (omega arith)
          (omega arith))
  | swallowed meets inside _ _ p ↦
      Removes-round pre [] e es r any true free (e ∷ free)
        (round_swallowed pre e es r f any free meets inside) p (rw (meets, or_true any))
        (omega arith)
        (rw (append-nil pre) (
          remove_loop-Removes f pre es r true (e ∷ free) (e.end + 1) v s.3 (omega arith)
            (omega arith)))
  | cut_front meets outside front _ _ plain p ↦
      Removes-round pre _ e es r any true free free
        (round_front pre e es r f any free meets outside front plain) p (rw (meets, or_true any))
        (omega arith)
        (remove_loop-Removes f (pre ++ _) es r true free (e.end + 1) v s.3 (omega arith)
          (omega arith))
  | cut_back meets outside front _ back p ↦
      Removes-round pre _ e es r any true free free
        (round_back pre e es r f any free meets outside front back) p (rw (meets, or_true any))
        (omega arith)
        (remove_loop-Removes f (pre ++ _) es r true free (e.end + 1) v s.3 (omega arith)
          (omega arith))
  | cut_middle meets outside front back p ↦
      let split : 1 + splits r es ≤ length free =
        rw (lt→ltb e.start r.start front, lt→ltb r.end e.end back) at room in
      let (z, rest, shape) = uncons free (omega arith) in
      let left : length free ≡ suc (length rest) = ap length shape in
      Removes-round pre _ e es r any true free rest
        (rw shape (round_split pre e es r f any z rest meets outside front back s.2)) p
        (rw (meets, or_true any)) (omega arith)
        (remove_loop-Removes f (pre ++ _) es r true rest (e.end + 1) v s.3 (omega arith)
          (omega arith))
]

-- Where all slots are in use and the range lies strictly inside an entry, the loop fails at that entry.
remove_loop_full :
    (f : ℕ) (pre post : List Range) (r : Range) (any : Bool) (b : ℕ)
    → r.start ≤ r.end
    → Sorted b post
    → 0 < splits r post
    → length post < f
    → remove_loop f (length pre) r any (holding (pre ++ post) [])
      ≡ fail range_set_overflow (holding (pre ++ post) [])
remove_loop_full zero pre post r any b v s h k = absurd (omega arith)
remove_loop_full (suc f) pre [] r any b v s h k = absurd (omega arith)
remove_loop_full (suc f) pre (e ∷ es) r any b v s h k = elim (dec_lt e.end r.start) [
  | yes p ↦
      round_missed pre e es r f any [] (ground arith)
      ∙ remove_loop_full f (pre ++ (e ∷ [])) es r any (e.end + 1) v s.3 (ground arith) (omega arith)
      ∙ rw (snoc_lem pre e es)
  | no p ↦
      let inside : (e.start < r.start) × (r.end < e.end) =
        ground (arith, splits-start r es (e.end + 1) v s.3) in
      rw (
        round_middle pre e es r f any [] (ground arith) (ground arith) inside.0 inside.1,
        split_entry_full pre e es r,
      )
]

pub remove-holding :
    (r : Range) (es free : List Range)
    → r.start ≤ r.end
    → Sorted 0 es
    → splits r es ≤ length free
    → Removes (remove r (holding es free)) [] es r false free
unfolding remove
remove-holding r es free v s room =
    remove_loop-Removes (length es + 1) [] es r false free 0 v s room (omega arith)

remove-holding_full :
    (r : Range) (es : List Range)
    → r.start ≤ r.end
    → Sorted 0 es
    → 0 < splits r es
    → remove r (holding es []) ≡ fail range_set_overflow (holding es [])
unfolding remove
remove-holding_full r es v s inside =
    remove_loop_full (length es + 1) [] es r false 0 v s inside (omega arith)

-- If a slot of a valid set is free, or the range does not lie strictly inside an entry, `remove`
-- returns whether the range overlaps an entry, leaves a valid set, and the addresses that this set
-- covers are those that the set covered and the range does not hold.
pub remove-covers :
    (r : Range) (s : RangeSet)
    → IsValid s
    → r.start ≤ r.end
    → (s.in_use < 256) ⊎ (splits r (entries s) ≡ 0)
    → (s' : RangeSet) × (remove r s ≡ done (touches r (entries s)) s')
      × IsValid s'
      × ((x : ℕ) → covers (entries s') x ≡ covers (entries s) x && not (within r x))
remove-covers r s v ordered room = (
  holding (remove_list r (entries s)) out.slots,
  rw (← holding-entries v) at out.returns,
  holding-IsValid (remove_list r (entries s)) out.slots
      (omega (arith, out.count, length-entries v, length-spare v, v.used))
      (remove_list-Sorted r (entries s) 0 ordered v.sorted),
  λ x.
      rw (entries-holding (remove_list r (entries s)) out.slots)
        (covers-remove_list r (entries s) 0 x v.sorted ordered),
)
  where
    enough : (s.in_use < 256) ⊎ (splits r (entries s) ≡ 0) → splits r (entries s) ≤ length (spare s)
    enough (inl free) = omega (arith, splits-le r (entries s) 0 ordered v.sorted, length-spare v)
    enough (inr none_split) = omega arith

    out : Removes (remove r (holding (entries s) (spare s))) [] (entries s) r false (spare s)
    out = remove-holding r (entries s) (spare s) ordered v.sorted (enough room)

-- Where all slots of a valid set are in use and the range lies strictly inside an entry, `remove`
-- fails and leaves the set as it was.
pub remove_full :
    (r : Range) (s : RangeSet)
    → IsValid s
    → r.start ≤ r.end
    → s.in_use ≡ 256
    → 0 < splits r (entries s)
    → remove r s ≡ fail range_set_overflow s
remove_full r s v ordered full inside =
    rw (← full-holding v full) at (remove-holding_full r (entries s) ordered v.sorted inside)
