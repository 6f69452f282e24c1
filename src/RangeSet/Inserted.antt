-- ===== src/RangeSet/Inserted.antt =====
-- The contract of `RangeSet::insert` of shared/rangeset/src/lib.rs.
use elise.Base.{
  ℕ, suc, ◌+◌, ◌≤◌, ◌<◌, ◌≡◌, refl, Bool, true, false, ◌||◌, List, [], ◌∷◌, ◌++◌, arith, leb,
  u64_max, ◌⊎◌, inl, inr, dec_lt, length, length-append, ap, ◌&&◌,
}
use elise.Range.{Range, range_set_overflow}
use elise.RangeSet.{RangeSet, done, fail, merged, insert_loop, insert, entries}
use elise.RangeSet.Layout.{holding}
use elise.RangeSet.Shift.{insert_at_lem, insert_at_full}
use elise.RangeSet.Entries.{
  within, covers, Sorted, EndsBelow, insert_list, insert_list_skip, insert_list_stop,
  insert_list_merge, insert_list-Sorted, covers-insert_list,
}
use elise.RangeSet.Insert.{Stops, insert_loop-Stops, loop_merge, loop_overflow}
use elise.RangeSet.Valid.{
  IsValid, spare, full-holding, eq_nil, length-entries, length-spare, holding-entries,
  entries-holding, holding-IsValid,
}

-- Whether the range overlaps an entry or starts right behind one.
abbrev pub joins : Range → List Range → Bool
joins r [] = false
joins r (e ∷ es) = leb r.start (e.end + 1) && leb e.start r.end || joins r es

pub length-insert_list-le :
    (r : Range) (es : List Range) → length (insert_list r es) ≤ suc (length es)
unfolding insert_list
length-insert_list-le r [] = omega arith
length-insert_list-le r (e ∷ es) = elim (dec_lt (e.end + 1) r.start) [
  | yes p ↦ rw (insert_list_skip r e es p) (omega (arith, length-insert_list-le r es))
  | no p ↦ elim (dec_lt r.end e.start) [
    | yes q ↦ rw (insert_list_stop r e es (omega arith) q) (omega arith)
    | no q ↦
        rw (insert_list_merge r e es (omega arith) (omega arith))
          (omega (arith, length-insert_list-le (merged e r) es))
  ]
]

-- A range that lies before all entries joins none.
joins_before : (r : Range) (es : List Range) (b : ℕ) → r.end < b → Sorted b es → joins r es ≡ false
joins_before r [] b h s = refl
joins_before r (e ∷ es) b h s = ground (arith, joins_before r es (e.end + 1))

length-insert_list-joins :
    (r : Range) (es : List Range) (b : ℕ)
    → Sorted b es
    → joins r es ≡ true
    → length (insert_list r es) ≤ length es
unfolding insert_list
length-insert_list-joins r [] b s j = cc
length-insert_list-joins r (e ∷ es) b s j = elim (dec_lt (e.end + 1) r.start) [
  | yes p ↦
      rw (insert_list_skip r e es p) (ground (arith, length-insert_list-joins r es (e.end + 1) s.3))
  | no p ↦ elim (dec_lt r.end e.start) [
    | yes q ↦ absurd (ground (arith, joins_before r es (e.end + 1)))
    | no q ↦
        rw (insert_list_merge r e es (omega arith) (omega arith))
          (length-insert_list-le (merged e r) es)
  ]
]

length-insert_list_alone :
    (r : Range) (es : List Range) → joins r es ≡ false → length (insert_list r es) ≡ suc (length es)
unfolding insert_list
length-insert_list_alone r [] j = refl
length-insert_list_alone r (e ∷ es) j = elim (dec_lt (e.end + 1) r.start) [
  | yes p ↦ rw (insert_list_skip r e es p) (ap suc (length-insert_list_alone r es (ground arith)))
  | no p ↦ elim (dec_lt r.end e.start) [
    | yes q ↦ rw (insert_list_stop r e es (omega arith) q)
    | no q ↦ absurd (ground arith)
  ]
]

-- `insert` on the entries and the slots behind them: it inserts into the list if a slot is left.
pub insert-holding :
    (r : Range) (es slots : List Range)
    → EndsBelow es
    → length (insert_list r es) ≤ length es + length slots
    → (rest : List Range) × (insert r (holding es slots)
        ≡ done tt (holding (insert_list r es) rest))
      × (length (insert_list r es) + length rest ≡ length es + length slots)
unfolding insert
insert-holding r es slots below room = go st.slots refl
  where
    st : Stops (insert_loop (length es + 1) 0 r (holding es slots)) [] es r slots
    st = insert_loop-Stops (length es + 1) [] es r slots below (omega arith)

    size : length (insert_list r es) ≡ suc (length (st.before ++ st.after))
    size = omega (
      arith,
      ap length st.result,
      length-append st.before (st.range ∷ st.after),
      length-append st.before st.after,
    )

    go :
        (free : List Range)
        → st.slots ≡ free
        → (rest : List Range) × (insert r (holding es slots)
            ≡ done tt (holding (insert_list r es) rest))
          × (length (insert_list r es) + length rest ≡ length es + length slots)
    go [] e = absurd (omega (arith, st.count, ap length e, size))
    go (z ∷ rest) e = (
      rest,
      rw (insert, st.returns, e, insert_at_lem st.before st.after st.range z rest, st.result),
      omega (arith, st.count, ap length e, size),
    )

-- A range of `u64` can be inserted into a valid set none of whose entries ends at the last address, if
-- a slot is free or the range overlaps an entry or starts right behind one. The set then is valid
-- and covers exactly the addresses that it covered and those of the range.
pub insert-covers :
    (r : Range) (s : RangeSet)
    → IsValid s
    → EndsBelow (entries s)
    → r.start ≤ r.end
    → r.end ≤ u64_max
    → (s.in_use < 256) ⊎ (joins r (entries s) ≡ true)
    → (s' : RangeSet) × (insert r s ≡ done tt s')
      × IsValid s'
      × ((x : ℕ) → covers (entries s') x ≡ within r x || covers (entries s) x)
insert-covers r s v below ordered top room =
    let es = entries s in
    let (rest, returns, count) = insert-holding r es (spare s) below (fits room) in
    (
      holding (insert_list r es) rest,
      rw (← holding-entries v) at returns,
      holding-IsValid (insert_list r es) rest
          (omega (arith, count, length-entries v, length-spare v, v.used))
          (insert_list-Sorted r es 0 ordered top (omega arith) v.sorted),
      λ x.
          rw (entries-holding (insert_list r es) rest)
            (covers-insert_list r es 0 x v.sorted ordered),
    )
  where
    fits :
        (s.in_use < 256) ⊎ (joins r (entries s) ≡ true)
        → length (insert_list r (entries s)) ≤ length (entries s) + length (spare s)
    fits (inl free) =
        omega (arith, length-insert_list-le r (entries s), length-entries v, length-spare v)
    fits (inr joined) = omega (arith, length-insert_list-joins r (entries s) 0 v.sorted joined)

insert-holding_full :
    (r : Range) (es : List Range)
    → EndsBelow es
    → joins r es ≡ false
    → insert r (holding es []) ≡ fail range_set_overflow (holding es [])
unfolding insert
insert-holding_full r es below alone =
    rw
      (
        insert,
        st.returns,
        st.kept (omega (arith, size)),
        eq_nil st.slots (omega (arith, st.count, size)),
      )
      (insert_at_full (length st.before) st.range es)
  where
    st : Stops (insert_loop (length es + 1) 0 r (holding es [])) [] es r []
    st = insert_loop-Stops (length es + 1) [] es r [] below (omega arith)

    size : length es ≡ length (st.before ++ st.after)
    size = omega (
      arith,
      ap length st.result,
      length-append st.before (st.range ∷ st.after),
      length-append st.before st.after,
      length-insert_list_alone r es alone,
    )

-- Where all slots of a valid set are in use, none of its entries ends at the last address, and the
-- range neither overlaps an entry nor starts right behind one, `insert` fails and leaves the set as it was.
pub insert_full :
    (r : Range) (s : RangeSet)
    → IsValid s
    → EndsBelow (entries s)
    → s.in_use ≡ 256
    → joins r (entries s) ≡ false
    → insert r s ≡ fail range_set_overflow s
insert_full r s v below full alone =
    rw (← full-holding v full) at (insert-holding_full r (entries s) below alone)

-- Of two entries, the second ends at the last address and the first does not; the range overlaps the
-- first or starts right behind it. Then `insert` fails and leaves the second entry alone in the set.
pub insert-loses :
    (r e last : Range) (slots : List Range)
    → e.end < u64_max
    → r.start ≤ e.end + 1
    → e.start ≤ r.end
    → last.end ≡ u64_max
    → insert r (holding (e ∷ last ∷ []) slots)
      ≡ fail range_set_overflow (holding (last ∷ []) (e ∷ slots))
unfolding insert
insert-loses r e last slots below start end top = rw (
  insert,
  loop_merge 2 [] e (last ∷ []) r slots below start end,
  loop_overflow 1 [] last [] (merged e r) (e ∷ slots) (omega arith),
)
