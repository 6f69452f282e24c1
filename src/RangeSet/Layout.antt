-- ===== src/RangeSet/Layout.antt =====
-- The steps of the methods of shared/rangeset/src/lib.rs, at the position behind a prefix of the array.
use elise.Base.{
  ℕ, suc, ◌+◌, ◌-◌, ◌≤◌, ◌<◌, ◌≡◌, refl, List, [], ◌∷◌, ◌++◌, append_assoc, arith, length, take,
  drop, get_elem?_prefix, set_prefix, take_prefix, drop_prefix, length-append, lt→ltb, le→leb,
  gt→leb,
}
use elise.Range.{Range, index_out_of_bounds}
use elise.RangeSet.{RangeSet, done, fail, read_at, write_at, swap, copy_within, delete_loop, delete}

abbrev pub of : List Range → ℕ → RangeSet
of rs n = record { ranges = rs; in_use = n }

-- The set whose entries are `es`, with `spare` behind them in the array.
abbrev pub holding : List Range → List Range → RangeSet
holding es spare = of (es ++ spare) (length es)

pub read_at_prefix :
    (pre : List Range) (x : Range) (rest : List Range) (n : ℕ)
    → read_at (length pre) (of (pre ++ (x ∷ rest)) n) ≡ done x (of (pre ++ (x ∷ rest)) n)
unfolding read_at
read_at_prefix pre x rest n = rw (read_at, get_elem?_prefix pre x rest)

pub length-lt_prefix :
    (pre : List Range) (x : Range) (rest : List Range) → length pre < length (pre ++ (x ∷ rest))
length-lt_prefix pre x rest = omega (arith, length-append pre (x ∷ rest))

pub write_at_prefix :
    (pre : List Range) (x v : Range) (rest : List Range) (n : ℕ)
    → write_at (length pre) v (of (pre ++ (x ∷ rest)) n) ≡ done tt (of (pre ++ (v ∷ rest)) n)
unfolding write_at
write_at_prefix pre x v rest n =
    rw (lt→ltb _ _ (length-lt_prefix pre x rest), set_prefix pre x v rest)

-- The prefix grows by one entry.
pub snoc_lem :
    (pre : List Range) (x : Range) (rest : List Range)
    → (pre ++ (x ∷ [])) ++ rest ≡ pre ++ (x ∷ rest)
snoc_lem pre x rest = append_assoc pre (x ∷ []) rest

pub length-snoc : (pre : List Range) (x : Range) → length (pre ++ (x ∷ [])) ≡ length pre + 1
length-snoc pre x = omega (arith, length-append pre (x ∷ []))

pub read_at_next :
    (pre : List Range) (y x : Range) (rest : List Range) (n : ℕ)
    → read_at (length pre + 1) (of (pre ++ (y ∷ x ∷ rest)) n)
      ≡ done x (of (pre ++ (y ∷ x ∷ rest)) n)
read_at_next pre y x rest n =
    rw (← length-snoc pre y, ← snoc_lem pre y (x ∷ rest))
      (read_at_prefix (pre ++ (y ∷ [])) x rest n)

pub write_at_next :
    (pre : List Range) (y x v : Range) (rest : List Range) (n : ℕ)
    → write_at (length pre + 1) v (of (pre ++ (y ∷ x ∷ rest)) n)
      ≡ done tt (of (pre ++ (y ∷ v ∷ rest)) n)
write_at_next pre y x v rest n =
    rw (← length-snoc pre y, ← snoc_lem pre y (x ∷ rest), ← snoc_lem pre y (v ∷ rest))
      (write_at_prefix (pre ++ (y ∷ [])) x v rest n)

swap_prefix :
    (pre : List Range) (x y : Range) (rest : List Range) (n : ℕ)
    → swap (length pre) (length pre + 1) (of (pre ++ (x ∷ y ∷ rest)) n)
      ≡ done tt (of (pre ++ (y ∷ x ∷ rest)) n)
unfolding swap
swap_prefix pre x y rest n = rw (
  read_at_prefix pre x (y ∷ rest) n,
  read_at_next pre x y rest n,
  write_at_prefix pre x y (y ∷ rest) n,
  write_at_next pre y y x rest n,
)

-- The loop of `delete` moves the entry at `idx` behind the next ones.
delete_loop_lem :
    (pre : List Range) (x : Range) (mid rest : List Range) (n : ℕ)
    → delete_loop (length mid) (length pre) (of (pre ++ (x ∷ (mid ++ rest))) n)
      ≡ done tt (of (pre ++ (mid ++ (x ∷ rest))) n)
unfolding delete_loop
delete_loop_lem pre x [] rest n = refl
delete_loop_lem pre x (y ∷ mid) rest n = rw (
  swap_prefix pre x y (mid ++ rest) n,
  ← snoc_lem pre y (x ∷ (mid ++ rest)),
  ← length-snoc pre y,
  delete_loop_lem (pre ++ (y ∷ [])) x mid rest n,
  snoc_lem pre y (mid ++ (x ∷ rest)),
)

-- `delete` removes the entry at its index and keeps the order of the others.
pub delete_lem :
    (pre : List Range) (x : Range) (post spare : List Range)
    → delete (length pre) (holding (pre ++ (x ∷ post)) spare)
      ≡ done tt (holding (pre ++ post) (x ∷ spare))
unfolding delete
delete_lem pre x post spare = rw (
  delete,
  gt→leb (length (pre ++ (x ∷ post))) (length pre) (length-lt_prefix pre x post),
  rounds,
  append_assoc pre (x ∷ post) spare,
  delete_loop_lem pre x post spare,
  fewer,
  ← append_assoc pre post (x ∷ spare),
)
  where
    rounds : length (pre ++ (x ∷ post)) - 1 - length pre ≡ length post
    rounds = omega (arith, length-append pre (x ∷ post))

    fewer : length (pre ++ (x ∷ post)) - 1 ≡ length (pre ++ post)
    fewer = omega (arith, length-append pre (x ∷ post), length-append pre post)

-- An index at or beyond `in_use` is refused, and the set stays.
pub delete_out_of_bounds :
    (idx : ℕ) (s : RangeSet) → s.in_use ≤ idx → delete idx s ≡ fail (index_out_of_bounds idx) s
unfolding delete
delete_out_of_bounds idx s h = rw (le→leb _ _ h)

-- `copy_within` by one place to the right, over the first spare slot.
pub copy_within_lem :
    (pre : List Range) (m : Range) (mid : List Range) (z : Range) (spare : List Range) (n : ℕ)
    → copy_within
        (length pre)
        (length (pre ++ (m ∷ mid)))
        (length pre + 1)
        (of (pre ++ (m ∷ (mid ++ (z ∷ spare)))) n)
      ≡ done tt (of (pre ++ (m ∷ (m ∷ (mid ++ spare)))) n)
unfolding copy_within
copy_within_lem pre m mid z spare n = rw (
  copy_within,
  le→leb (length pre) (length (pre ++ (m ∷ mid))) (omega (arith, size)),
  le→leb (length (pre ++ (m ∷ mid))) (length whole) (omega (arith, size, size_whole)),
  le→leb (length pre + 1 + (length (pre ++ (m ∷ mid)) - length pre)) (length whole)
      (omega (arith, size, size_whole)),
  count,
  drop_prefix pre (m ∷ (mid ++ (z ∷ spare))),
  take_prefix mid (z ∷ spare),
  left,
  right,
  snoc_lem pre m (m ∷ (mid ++ spare)),
)
  where
    whole : List Range
    whole = pre ++ (m ∷ (mid ++ (z ∷ spare)))

    size : length (pre ++ (m ∷ mid)) ≡ length pre + suc (length mid)
    size = length-append pre (m ∷ mid)

    size_whole : length whole ≡ length pre + suc (length mid + suc (length spare))
    size_whole =
        omega (arith, length-append pre (m ∷ (mid ++ (z ∷ spare))), length-append mid (z ∷ spare))

    count : length (pre ++ (m ∷ mid)) - length pre ≡ suc (length mid)
    count = omega (arith, size)

    left : take (length pre + 1) whole ≡ pre ++ (m ∷ [])
    left =
        rw (← length-snoc pre m, ← snoc_lem pre m (mid ++ (z ∷ spare)))
          (take_prefix (pre ++ (m ∷ [])) (mid ++ (z ∷ spare)))

    parts : whole ≡ (pre ++ (m ∷ (mid ++ (z ∷ [])))) ++ spare
    parts = rw (append_assoc pre (m ∷ (mid ++ (z ∷ []))) spare, append_assoc mid (z ∷ []) spare)

    right : drop (length pre + 1 + suc (length mid)) whole ≡ spare
    right =
        let n' : length pre + 1 + suc (length mid) ≡ length (pre ++ (m ∷ (mid ++ (z ∷ [])))) =
          omega (arith, length-append pre (m ∷ (mid ++ (z ∷ []))), length-append mid (z ∷ [])) in
        rw (parts, n') (drop_prefix (pre ++ (m ∷ (mid ++ (z ∷ [])))) spare)
