-- ===== src/RangeSet/Insert.antt =====
-- `RangeSet::insert` of shared/rangeset/src/lib.rs against the insertion into a list.
use elise.Base.{
  ℕ, zero, suc, ◌+◌, ◌≤◌, ◌<◌, ◌≡◌, refl, List, [], ◌∷◌, ◌++◌, arith, u64_max, lt→ltb, ge→ltb,
  le→leb, gt→leb, dec_lt, append_assoc, append-nil, length, length-append, ◌∙◌,
}
use elise.Range.{Range, range_set_overflow}
use elise.RangeSet.{RangeSet, Outcome, done, fail, merged, insert_loop}
use elise.RangeSet.Layout.{holding, read_at_prefix, delete_lem, snoc_lem, length-snoc}
use elise.RangeSet.Entries.{
  EndsBelow, insert_list, insert_list_skip, insert_list_stop, insert_list_merge,
}

-- One round of the loop at an entry that does not end at the last address.
module _ (f : ℕ) (pre : List Range) (e : Range) (es : List Range) (r : Range)
    (spare : List Range) where
  abbrev start_state : RangeSet
  start_state = holding (pre ++ (e ∷ es)) spare

  in_range : length pre < length (pre ++ (e ∷ es))
  in_range = omega (arith, length-append pre (e ∷ es))

  pub loop_skip :
      e.end < u64_max
      → e.end + 1 < r.start
      → insert_loop (suc f) (length pre) r (holding (pre ++ (e ∷ es)) spare)
        ≡ insert_loop f (length (pre ++ (e ∷ []))) r (holding ((pre ++ (e ∷ [])) ++ es) spare)
  unfolding insert_loop
  loop_skip top h = rw (
    lt→ltb _ _ in_range,
    append_assoc pre (e ∷ es) spare,
    read_at_prefix pre e (es ++ spare) (length (pre ++ (e ∷ es))),
    le→leb (e.end + 1) u64_max (omega arith),
    lt→ltb (e.end + 1) r.start h,
    length-snoc pre e,
    snoc_lem pre e es,
    append_assoc pre (e ∷ es) spare,
  )

  loop_stop :
      e.end < u64_max
      → r.start ≤ e.end + 1
      → r.end < e.start
      → insert_loop (suc f) (length pre) r (holding (pre ++ (e ∷ es)) spare)
        ≡ done (length pre, r) (holding (pre ++ (e ∷ es)) spare)
  unfolding insert_loop
  loop_stop top h k = rw (
    lt→ltb _ _ in_range,
    append_assoc pre (e ∷ es) spare,
    read_at_prefix pre e (es ++ spare) (length (pre ++ (e ∷ es))),
    le→leb (e.end + 1) u64_max (omega arith),
    ge→ltb (e.end + 1) r.start h,
    lt→ltb r.end e.start k,
  )

  pub loop_merge :
      e.end < u64_max
      → r.start ≤ e.end + 1
      → e.start ≤ r.end
      → insert_loop (suc f) (length pre) r (holding (pre ++ (e ∷ es)) spare)
        ≡ insert_loop f (length pre) (merged e r) (holding (pre ++ es) (e ∷ spare))
  unfolding insert_loop
  loop_merge top h k = rw (
    lt→ltb _ _ in_range,
    append_assoc pre (e ∷ es) spare,
    read_at_prefix pre e (es ++ spare) (length (pre ++ (e ∷ es))),
    le→leb (e.end + 1) u64_max (omega arith),
    ge→ltb (e.end + 1) r.start h,
    ge→ltb r.end e.start k,
    ← append_assoc pre (e ∷ es) spare,
    delete_lem pre e es spare,
  )

  -- The entry that ends at the last address makes `insert` fail.
  pub loop_overflow :
      u64_max ≤ e.end
      → insert_loop (suc f) (length pre) r (holding (pre ++ (e ∷ es)) spare)
        ≡ fail range_set_overflow (holding (pre ++ (e ∷ es)) spare)
  unfolding insert_loop
  loop_overflow top = rw (
    lt→ltb _ _ in_range,
    append_assoc pre (e ∷ es) spare,
    read_at_prefix pre e (es ++ spare) (length (pre ++ (e ∷ es))),
    gt→leb (e.end + 1) u64_max (omega arith),
  )

-- Where the loop stops: the entries before and after the place of the merged range.
pub record Stops (out : Outcome (ℕ × Range)) (pre post : List Range) (r : Range)
    (spare : List Range) : Type 0 where
  pub before : List Range
  pub after : List Range
  pub range : Range
  pub slots : List Range
  pub returns : out ≡ done (length before, range) (holding (before ++ after) slots)
  pub result : before ++ (range ∷ after) ≡ pre ++ insert_list r post
  pub count : length (before ++ after) + length slots ≡ length (pre ++ post) + length spare
  pub fewer : length (before ++ after) ≤ length (pre ++ post)
  pub kept : length (pre ++ post) ≤ length (before ++ after) → before ++ after ≡ pre ++ post

shorter :
    (pre : List Range) (e : Range) (es : List Range)
    → length (pre ++ (e ∷ es)) ≡ suc (length (pre ++ es))
shorter pre e es = omega (arith, length-append pre es, length-append pre (e ∷ es))

pub insert_loop-Stops :
    (f : ℕ) (pre post : List Range) (r : Range) (spare : List Range)
    → EndsBelow post
    → length post < f
    → Stops (insert_loop f (length pre) r (holding (pre ++ post) spare)) pre post r spare
insert_loop-Stops zero pre post r spare below h = absurd (omega arith)
insert_loop-Stops (suc f) pre [] r spare below h = record {
  before = pre;
  after = [];
  range = r;
  slots = spare;
  returns =
      unfold insert_loop in
      rw (insert_loop, append-nil pre, ge→ltb (length pre) (length pre) (omega arith));
  result = unfold insert_list in refl;
  count = refl;
  fewer = omega arith;
  kept = λ _. refl;
}
insert_loop-Stops (suc f) pre (e ∷ es) r spare below h = elim (dec_lt (e.end + 1) r.start) [
  | yes p ↦
      let ih = insert_loop-Stops f (pre ++ (e ∷ [])) es r spare below.1 (omega arith) in
      record {
        before = ih.before;
        after = ih.after;
        range = ih.range;
        slots = ih.slots;
        returns = loop_skip f pre e es r spare below.0 p ∙ ih.returns;
        result = ih.result ∙ rw (insert_list_skip r e es p, snoc_lem pre e (insert_list r es));
        count = ih.count ∙ rw (snoc_lem pre e es);
        fewer = rw (← snoc_lem pre e es) ih.fewer;
        kept = λ h. rw (← snoc_lem pre e es) (ih.kept (rw (snoc_lem pre e es) h));
      }
  | no p ↦ elim (dec_lt r.end e.start) [
    | yes q ↦ record {
      before = pre;
      after = e ∷ es;
      range = r;
      slots = spare;
      returns = loop_stop f pre e es r spare below.0 (omega arith) q;
      result = rw (insert_list_stop r e es (omega arith) q);
      count = refl;
      fewer = omega arith;
      kept = λ _. refl;
    }
    | no q ↦
        let ih = insert_loop-Stops f pre es (merged e r) (e ∷ spare) below.1 (omega arith) in
        record {
          before = ih.before;
          after = ih.after;
          range = ih.range;
          slots = ih.slots;
          returns = loop_merge f pre e es r spare below.0 (omega arith) (omega arith) ∙ ih.returns;
          result = ih.result ∙ rw (insert_list_merge r e es (omega arith) (omega arith));
          count = omega (arith, ih.count, shorter pre e es);
          fewer = omega (arith, ih.fewer, shorter pre e es);
          kept = λ h. absurd (omega (arith, ih.fewer, shorter pre e es));
        }
  ]
]
