-- ===== src/RangeSet/Shift.antt =====
-- The writes of shared/rangeset/src/lib.rs that make room for one more entry.
use elise.Base.{
  ℕ, ◌+◌, ◌-◌, ◌≤◌, ◌<◌, ◌≡◌, List, [], ◌∷◌, ◌++◌, append_assoc, append-nil, arith, min, length,
  length-append, lt→ltb, ge→ltb, le→leb, gt→leb, true, u64_max,
}
use elise.Range.{Range, range_set_overflow}
use elise.RangeSet.{done, fail, copy_within, insert_at, split_in_two}
use elise.RangeSet.Layout.{
  of, holding, write_at_prefix, write_at_next, copy_within_lem, length-snoc, snoc_lem,
}

-- The array has room: its length exceeds the entries in use.
length-holding-lt :
    (es : List Range) (z : Range) (spare : List Range) → length es < length (es ++ (z ∷ spare))
length-holding-lt es z spare = omega (arith, length-append es (z ∷ spare))

pub insert_at_lem :
    (pre post : List Range) (r z : Range) (spare : List Range)
    → insert_at (length pre) r (holding (pre ++ post) (z ∷ spare))
      ≡ done tt (holding (pre ++ (r ∷ post)) spare)
unfolding insert_at
insert_at_lem pre [] r z spare = rw (
  gt→leb _ _ (length-holding-lt (pre ++ []) z spare),
  append-nil pre,
  ge→ltb (length pre) (length pre) (omega arith),
  write_at_prefix pre z r spare (length pre),
  ← snoc_lem pre r spare,
  length-snoc pre r,
)
insert_at_lem pre (m ∷ mid) r z spare = rw (
  gt→leb _ _ (length-holding-lt (pre ++ (m ∷ mid)) z spare),
  lt→ltb (length pre) (length (pre ++ (m ∷ mid))) (omega (arith, length-append pre (m ∷ mid))),
  append_assoc pre (m ∷ mid) (z ∷ spare),
  copy_within_lem pre m mid z spare (length (pre ++ (m ∷ mid))),
  write_at_prefix pre m r (m ∷ (mid ++ spare)) (length (pre ++ (m ∷ mid))),
  more,
  ← append_assoc pre (r ∷ m ∷ mid) spare,
)
  where
    more : length (pre ++ (m ∷ mid)) + 1 ≡ length (pre ++ (r ∷ m ∷ mid))
    more = omega (arith, length-append pre (m ∷ mid), length-append pre (r ∷ m ∷ mid))

pub insert_at_full :
    (idx : ℕ) (r : Range) (es : List Range)
    → insert_at idx r (holding es []) ≡ fail range_set_overflow (holding es [])
unfolding insert_at
insert_at_full idx r es = rw (append-nil es, le→leb (length es) (length es) (omega arith))

-- `entry` is cut in two around `range`, which lies strictly inside it.
pub split_in_two_lem :
    (pre : List Range) (e range : Range) (post : List Range) (z : Range) (spare : List Range)
    → e.start < range.start
    → range.end < e.end
    → e.end ≤ u64_max
    → split_in_two (length pre) range e (holding (pre ++ (e ∷ post)) (z ∷ spare))
      ≡ done true (
          holding
            (pre
              ++ (record { start = e.start; end = range.start - 1 }
                  ∷ record { start = range.end + 1; end = e.end }
                  ∷ post))
            spare)
unfolding split_in_two
split_in_two_lem pre e range [] z spare lo hi top = rw (
  append_assoc pre (e ∷ []) (z ∷ spare),
  lt→ltb _ _ lo,
  write_at_prefix pre e first (z ∷ spare) (length (pre ++ (e ∷ []))),
  ge→ltb (length pre + 1) (length (pre ++ (e ∷ []))) (omega (arith, length-snoc pre e)),
  fits,
  le→leb (range.end + 1) e.end hi',
  write_at_next pre first z second spare (length (pre ++ (e ∷ []))),
  more,
  ← append_assoc pre (first ∷ second ∷ []) spare,
)
  where
    first : Range
    first = record { start = e.start; end = range.start - 1 }

    second : Range
    second = record { start = range.end + 1; end = e.end }

    hi' : range.end + 1 ≤ e.end
    hi' = omega arith

    fits : min (range.end + 1) u64_max ≡ range.end + 1
    fits = omega arith

    more : length (pre ++ (e ∷ [])) + 1 ≡ length (pre ++ (first ∷ second ∷ []))
    more = omega (arith, length-append pre (e ∷ []), length-append pre (first ∷ second ∷ []))
split_in_two_lem pre e range (m ∷ mid) z spare lo hi top = rw (
  append_assoc pre (e ∷ m ∷ mid) (z ∷ spare),
  lt→ltb _ _ lo,
  write_at_prefix pre e first (m ∷ (mid ++ (z ∷ spare))) (length (pre ++ (e ∷ m ∷ mid))),
  lt→ltb (length pre + 1) (length (pre ++ (e ∷ m ∷ mid)))
      (omega (arith, length-append pre (e ∷ m ∷ mid))),
  shifted,
  fits,
  le→leb (range.end + 1) e.end hi',
  write_at_next pre first m second (m ∷ (mid ++ spare)) (length (pre ++ (e ∷ m ∷ mid))),
  more,
  ← append_assoc pre (first ∷ second ∷ m ∷ mid) spare,
)
  where
    first : Range
    first = record { start = e.start; end = range.start - 1 }

    second : Range
    second = record { start = range.end + 1; end = e.end }

    hi' : range.end + 1 ≤ e.end
    hi' = omega arith

    fits : min (range.end + 1) u64_max ≡ range.end + 1
    fits = omega arith

    more : length (pre ++ (e ∷ m ∷ mid)) + 1 ≡ length (pre ++ (first ∷ second ∷ m ∷ mid))
    more =
        omega (arith, length-append pre (e ∷ m ∷ mid), length-append pre (first ∷ second ∷ m ∷ mid))

    longer : length ((pre ++ (first ∷ [])) ++ (m ∷ mid)) ≡ length (pre ++ (e ∷ m ∷ mid))
    longer = omega (
      arith,
      length-append (pre ++ (first ∷ [])) (m ∷ mid),
      length-snoc pre first,
      length-append pre (e ∷ m ∷ mid),
    )

    next : length pre + 1 + 1 ≡ length pre + 2
    next = omega arith

    shifted :
        copy_within
          (length pre + 1)
          (length (pre ++ (e ∷ m ∷ mid)))
          (length pre + 2)
          (of (pre ++ (first ∷ m ∷ (mid ++ (z ∷ spare)))) (length (pre ++ (e ∷ m ∷ mid))))
        ≡ done tt (of (pre ++ (first ∷ m ∷ m ∷ (mid ++ spare))) (length (pre ++ (e ∷ m ∷ mid))))
    shifted =
        rw
          (
            ← longer,
            ← next,
            ← length-snoc pre first,
            ← snoc_lem pre first (m ∷ (mid ++ (z ∷ spare))),
            ← snoc_lem pre first (m ∷ m ∷ (mid ++ spare)),
          )
          (copy_within_lem (pre ++ (first ∷ [])) m mid z spare
            (length ((pre ++ (first ∷ [])) ++ (m ∷ mid))))
