-- ===== src/RangeSet/Gathered.antt =====
-- Ranges that are inserted one after the other, as kernel/src/acpi/srat.rs does with a set of
-- shared/rangeset/src/lib.rs.
use elise.Base.{ℕ, suc, ◌+◌, ◌≤◌, ◌<◌, ◌≡◌, ◌||◌, List, [], ◌∷◌, arith, u64_max, dec_lt}
use elise.Range.{Range}
use elise.RangeSet.{RangeSet, done, merged, insert, entries, new_set}
use elise.RangeSet.Layout.{holding}
use elise.RangeSet.Entries.{
  within, covers, EndsBelow, insert_list, insert_list_skip, insert_list_stop, insert_list_merge,
  insert_list-Sorted, covers-insert_list,
}
use elise.RangeSet.Valid.{
  IsValid, spare, length-entries, length-spare, holding-entries, entries-holding, holding-IsValid,
  new_set-IsValid,
}
use elise.RangeSet.Inserted.{length-insert_list-le, insert-holding}

-- A valid set of at most `n` ranges, none of which ends at the last address.
pub record IsOpen (n : ℕ) (s : RangeSet) : Type 0 where
  pub valid : IsValid s
  pub below : EndsBelow (entries s)
  pub few : s.in_use ≤ n

pub new_set-IsOpen : IsOpen 0 new_set
unfolding new_set
new_set-IsOpen = record { valid = new_set-IsValid; below = tt; few = omega arith }

insert_list-EndsBelow :
    (r : Range) (es : List Range) → r.end < u64_max → EndsBelow es → EndsBelow (insert_list r es)
unfolding insert_list
insert_list-EndsBelow r [] h b = (h, tt)
insert_list-EndsBelow r (e ∷ es) h (k, b) = elim (dec_lt (e.end + 1) r.start) [
  | yes p ↦ rw (insert_list_skip r e es p) (k, insert_list-EndsBelow r es h b)
  | no p ↦ elim (dec_lt r.end e.start) [
    | yes q ↦ rw (insert_list_stop r e es (omega arith) q) (h, (k, b))
    | no q ↦
        rw (insert_list_merge r e es (omega arith) (omega arith))
          (insert_list-EndsBelow (merged e r) es (ground arith) b)
  ]
]

-- A range that ends below the last address is inserted into an open set of less than 256 ranges, which
-- stays open.
pub insert-IsOpen :
    (n : ℕ) (r : Range) (s : RangeSet)
    → IsOpen n s
    → n < 256
    → r.start ≤ r.end
    → r.end < u64_max
    → (s' : RangeSet) × (insert r s ≡ done tt s')
      × IsOpen (suc n) s'
      × ((x : ℕ) → covers (entries s') x ≡ within r x || covers (entries s) x)
insert-IsOpen n r s o room ordered top =
    let v = o.valid in
    let es = entries s in
    let size = length-insert_list-le r es in
    let (rest, returns, count) =
      insert-holding r es (spare s) o.below
        (omega (arith, size, length-entries v, length-spare v, o.few)) in
    (
      holding (insert_list r es) rest,
      rw (← holding-entries v) at returns,
      record {
        valid =
            holding-IsValid (insert_list r es) rest
              (omega (arith, count, length-entries v, length-spare v, v.used))
              (insert_list-Sorted r es 0 ordered (omega arith) (omega arith) v.sorted);
        below =
            rw (entries-holding (insert_list r es) rest) (insert_list-EndsBelow r es top o.below);
        few = omega (arith, size, length-entries v, o.few);
      },
      λ x.
          rw (entries-holding (insert_list r es) rest)
            (covers-insert_list r es 0 x v.sorted ordered),
    )
