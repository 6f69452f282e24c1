-- ===== src/RangeSet/Remove.antt =====
-- The loop of `RangeSet::remove` in shared/rangeset/src/lib.rs against the removal from a list.
use elise.Base.{
  ℕ, suc, ◌+◌, ◌-◌, ◌≤◌, ◌<◌, ◌≡◌, Bool, true, false, List, [], ◌∷◌, ◌++◌, arith, u64_max, lt→ltb,
  le→leb, gt→leb, append_assoc, append-nil, length, length-append, if◌then◌else◌,
}
use elise.Range.{Range, range_set_overflow, contains, overlaps, saturating_add}
use elise.RangeSet.{done, fail, and_then, is_none, split_entry, remove_loop}
use elise.RangeSet.Layout.{
  holding, read_at_prefix, write_at_prefix, delete_lem, snoc_lem, length-snoc,
}
use elise.RangeSet.Shift.{split_in_two_lem}

module _ (pre : List Range) (e : Range) (es : List Range) (r : Range) where
  in_range : (tail : List Range) → length pre < length (pre ++ (e ∷ tail))
  in_range tail = omega (arith, length-append pre (e ∷ tail))

  -- `split_entry` at an entry that holds the range strictly inside.
  split_entry_lem :
      (z : Range) (spare : List Range)
      → e.start < r.start
      → r.end < e.end
      → e.end ≤ u64_max
      → split_entry (length pre) r (holding (pre ++ (e ∷ es)) (z ∷ spare))
        ≡ done true (
            holding
              (pre
                ++ (record { start = e.start; end = r.start - 1 }
                    ∷ record { start = r.end + 1; end = e.end }
                    ∷ es))
              spare)
  unfolding split_entry
  split_entry_lem z spare lo hi top =
      rw
        (
          split_entry,
          gt→leb _ _ (in_range es),
          gt→leb (length ((pre ++ (e ∷ es)) ++ (z ∷ spare))) (length (pre ++ (e ∷ es)))
              (omega (arith, length-append (pre ++ (e ∷ es)) (z ∷ spare))),
          append_assoc pre (e ∷ es) (z ∷ spare),
          read_at_prefix pre e (es ++ (z ∷ spare)) (length (pre ++ (e ∷ es))),
          le→leb e.start r.start (omega arith),
          le→leb r.end e.end (omega arith),
          ← append_assoc pre (e ∷ es) (z ∷ spare),
        )
        (split_in_two_lem pre e r es z spare lo hi top)

  pub split_entry_full :
      split_entry (length pre) r (holding (pre ++ (e ∷ es)) [])
      ≡ fail range_set_overflow (holding (pre ++ (e ∷ es)) [])
  unfolding split_entry
  split_entry_full = rw (
    split_entry,
    append-nil (pre ++ (e ∷ es)),
    gt→leb _ _ (in_range es),
    le→leb (length (pre ++ (e ∷ es))) (length (pre ++ (e ∷ es))) (omega arith),
  )

  -- One round of the loop, for each way that the range can meet the entry.
  module _ (f : ℕ) (any : Bool) (spare : List Range) where
    pub round_missed :
        is_none (overlaps e r) ≡ true
        → remove_loop (suc f) (length pre) r any (holding (pre ++ (e ∷ es)) spare)
          ≡ remove_loop f (length (pre ++ (e ∷ []))) r any (holding ((pre ++ (e ∷ [])) ++ es) spare)
    unfolding remove_loop
    round_missed apart = rw (
      lt→ltb _ _ (in_range es),
      append_assoc pre (e ∷ es) spare,
      read_at_prefix pre e (es ++ spare) (length (pre ++ (e ∷ es))),
      apart,
      length-snoc pre e,
      snoc_lem pre e es,
      append_assoc pre (e ∷ es) spare,
    )

    pub round_swallowed :
        is_none (overlaps e r) ≡ false
        → contains r e ≡ true
        → remove_loop (suc f) (length pre) r any (holding (pre ++ (e ∷ es)) spare)
          ≡ remove_loop f (length pre) r true (holding (pre ++ es) (e ∷ spare))
    unfolding remove_loop
    round_swallowed meets inside = rw (
      lt→ltb _ _ (in_range es),
      append_assoc pre (e ∷ es) spare,
      read_at_prefix pre e (es ++ spare) (length (pre ++ (e ∷ es))),
      meets,
      inside,
      ← append_assoc pre (e ∷ es) spare,
      delete_lem pre e es spare,
    )

    same_length : (v : Range) → length (pre ++ (e ∷ es)) ≡ length ((pre ++ (v ∷ [])) ++ es)
    same_length v =
        rw (snoc_lem pre v es)
          (omega (arith, length-append pre (e ∷ es), length-append pre (v ∷ es)))

    pub round_front :
        is_none (overlaps e r) ≡ false
        → contains r e ≡ false
        → r.start ≤ e.start
        → saturating_add r.end 1 ≡ r.end + 1
        → let v : Range = record { start = r.end + 1; end = e.end } in
          remove_loop (suc f) (length pre) r any (holding (pre ++ (e ∷ es)) spare)
          ≡ remove_loop f
              (length (pre ++ (v ∷ [])))
              r
              true
              (holding ((pre ++ (v ∷ [])) ++ es) spare)
    unfolding remove_loop
    round_front meets outside front plain =
        let v : Range = record { start = r.end + 1; end = e.end } in
        rw (
          lt→ltb _ _ (in_range es),
          append_assoc pre (e ∷ es) spare,
          read_at_prefix pre e (es ++ spare) (length (pre ++ (e ∷ es))),
          meets,
          outside,
          le→leb r.start e.start front,
          plain,
          write_at_prefix pre e v (es ++ spare) (length (pre ++ (e ∷ es))),
          same_length v,
          length-snoc pre v,
          append_assoc (pre ++ (v ∷ [])) es spare,
          snoc_lem pre v (es ++ spare),
        )

    pub round_back :
        is_none (overlaps e r) ≡ false
        → contains r e ≡ false
        → e.start < r.start
        → e.end ≤ r.end
        → let v : Range = record { start = e.start; end = r.start - 1 } in
          remove_loop (suc f) (length pre) r any (holding (pre ++ (e ∷ es)) spare)
          ≡ remove_loop f
              (length (pre ++ (v ∷ [])))
              r
              true
              (holding ((pre ++ (v ∷ [])) ++ es) spare)
    unfolding remove_loop
    round_back meets outside front back =
        let v : Range = record { start = e.start; end = r.start - 1 } in
        rw (
          lt→ltb _ _ (in_range es),
          append_assoc pre (e ∷ es) spare,
          read_at_prefix pre e (es ++ spare) (length (pre ++ (e ∷ es))),
          meets,
          outside,
          gt→leb r.start e.start front,
          le→leb e.end r.end back,
          write_at_prefix pre e v (es ++ spare) (length (pre ++ (e ∷ es))),
          same_length v,
          length-snoc pre v,
          append_assoc (pre ++ (v ∷ [])) es spare,
          snoc_lem pre v (es ++ spare),
        )

    -- The round that splits the entry, as far as `split_entry`.
    pub round_middle :
        is_none (overlaps e r) ≡ false
        → contains r e ≡ false
        → e.start < r.start
        → r.end < e.end
        → remove_loop (suc f) (length pre) r any (holding (pre ++ (e ∷ es)) spare)
          ≡ and_then
              (split_entry (length pre) r (holding (pre ++ (e ∷ es)) spare))
              (λ split. remove_loop f ((if split then length pre + 1 else length pre) + 1) r true)
    unfolding remove_loop
    round_middle meets outside front back = rw (
      lt→ltb _ _ (in_range es),
      append_assoc pre (e ∷ es) spare,
      read_at_prefix pre e (es ++ spare) (length (pre ++ (e ∷ es))),
      meets,
      outside,
      gt→leb r.start e.start front,
      gt→leb e.end r.end back,
    )

  pub round_split :
      (f : ℕ) (any : Bool) (z : Range) (spare : List Range)
      → is_none (overlaps e r) ≡ false
      → contains r e ≡ false
      → e.start < r.start
      → r.end < e.end
      → e.end ≤ u64_max
      → let a : Range = record { start = e.start; end = r.start - 1 } in
        let b : Range = record { start = r.end + 1; end = e.end } in
        remove_loop (suc f) (length pre) r any (holding (pre ++ (e ∷ es)) (z ∷ spare))
        ≡ remove_loop f
            (length (pre ++ (a ∷ b ∷ [])))
            r
            true
            (holding ((pre ++ (a ∷ b ∷ [])) ++ es) spare)
  round_split f any z spare meets outside front back top =
      let a : Range = record { start = e.start; end = r.start - 1 } in
      let b : Range = record { start = r.end + 1; end = e.end } in
      let two : length (pre ++ (a ∷ b ∷ [])) ≡ length pre + 1 + 1 =
        omega (arith, length-append pre (a ∷ b ∷ [])) in
      rw (
        round_middle f any (z ∷ spare) meets outside front back,
        split_entry_lem z spare front back top,
        two,
        append_assoc pre (a ∷ b ∷ []) es,
      )
