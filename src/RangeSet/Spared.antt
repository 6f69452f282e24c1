-- ===== src/RangeSet/Spared.antt =====
-- The slots that `RangeSet::remove` of shared/rangeset/src/lib.rs uses.
use elise.Base.{
  ℕ, suc, ◌+◌, ◌≤◌, ◌<◌, ◌≡◌, ◌&&◌, not, List, [], ◌∷◌, arith, inl, length, length-append, ap,
}
use elise.Range.{Range}
use elise.RangeSet.{RangeSet, done, remove, entries}
use elise.RangeSet.Entries.{within, covers, Sorted, pieces, remove_list}
use elise.RangeSet.Pieces.{
  missed, swallowed, cut_front, cut_back, cut_middle, pieces-Cut, touches, splits, splits-le,
}
use elise.RangeSet.Valid.{IsValid, spare, length-entries, length-spare, holding-entries}
use elise.RangeSet.Removed.{remove-holding, remove-covers}

length-remove_list-le :
    (r : Range) (es : List Range) (b : ℕ)
    → r.start ≤ r.end
    → Sorted b es
    → length (remove_list r es) ≤ length es + splits r es
unfolding remove_list
length-remove_list-le r [] b v s = omega arith
length-remove_list-le r (e ∷ es) b v s =
    let rest = length-remove_list-le r es (e.end + 1) v s.3 in
    let sum = length-append (pieces r e) (remove_list r es) in
    elim (pieces-Cut r e v s.1 s.2) [
      | missed _ _ p ↦ ground (arith, ap length p, rest, sum)
      | swallowed _ _ _ _ p ↦ ground (arith, ap length p, rest, sum)
      | cut_front _ _ _ _ _ _ p ↦ ground (arith, ap length p, rest, sum)
      | cut_back _ _ _ _ _ p ↦ ground (arith, ap length p, rest, sum)
      | cut_middle _ _ front back p ↦ ground (arith, ap length p, rest, sum)
    ]

-- `remove` on a valid set with a free slot uses one slot more at most.
pub remove-covers_few :
    (r : Range) (s : RangeSet)
    → IsValid s
    → r.start ≤ r.end
    → s.in_use < 256
    → (s' : RangeSet) × (remove r s ≡ done (touches r (entries s)) s')
      × IsValid s'
      × (s'.in_use ≤ suc s.in_use)
      × ((x : ℕ) → covers (entries s') x ≡ covers (entries s) x && not (within r x))
remove-covers_few r s v ordered free =
    let (s', returns, valid, same) = remove-covers r s v ordered (inl free) in
    let few = splits-le r (entries s) 0 ordered v.sorted in
    let out =
      remove-holding r (entries s) (spare s) ordered v.sorted
        (omega (arith, few, length-spare v)) in
    let again = rw (← holding-entries v) at out.returns in
    let size = length-remove_list-le r (entries s) 0 ordered v.sorted in
    let used : s'.in_use ≡ length (remove_list r (entries s)) = ground (arith, returns, again) in
    (s', returns, valid, omega (arith, used, size, few, length-entries v), same)
