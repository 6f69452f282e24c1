-- ===== src/Cursor/Split.antt =====
-- The splits of `Cursor` in shared/cursor/src/lib.rs.
use elise.Base.{
  ◌⊎◌, inl, inr, ℕ, ◌+◌, ◌-◌, ◌≤◌, ◌<◌, ◌≡◌, arith, none, some, ◌++◌, length, take, drop,
  length-take, length-drop, take-append-drop,
}
use elise.Cursor.{Cursor, split_at_checked}
use elise.Cursor.Position.{IsValid}

module _ {A : Type 0} (idx : ℕ) (c : Cursor A) (v : IsValid c) where
  -- The right part: its position is relative to the split, and its total counts the bytes up to the
  -- split as written.
  abbrev pub right_of : Cursor A
  right_of = record c {
    inner = drop idx c.inner;
    pos = c.pos - idx;
    total_pos = c.total_pos + (idx - c.pos);
  }

  -- A split inside the buffer whose total stays within the limit hands out the first `idx` elements; the
  -- two parts make up the buffer, and the right one is valid.
  pub split_at_checked-partitions :
      idx ≤ length c.inner
      → c.total_pos + (idx - c.pos) ≤ c.limit
      → (split_at_checked idx c ≡ some (take idx c.inner, right_of))
        × IsValid right_of
        × (length (take idx c.inner) ≡ idx)
        × (take idx c.inner ++ right_of.inner ≡ c.inner)
  unfolding split_at_checked
  split_at_checked-partitions inside fits = (
    ground (arith, v.in_buffer, v.counted, v.in_limit, v.addressable, v.whole),
    record {
      in_buffer = omega (arith, length-drop idx c.inner, v.in_buffer);
      counted = omega (arith, v.counted);
      in_limit = fits;
      addressable = v.addressable;
      whole = omega (arith, v.whole, v.in_buffer, length-drop idx c.inner);
    },
    omega (arith, length-take idx c.inner),
    take-append-drop idx c.inner,
  )

  -- A split of a valid cursor past the end of the buffer, or one whose total would go over the limit, is
  -- refused.
  pub split_at_checked_refused :
      (length c.inner < idx) ⊎ (c.limit < c.total_pos + (idx - c.pos))
      → split_at_checked idx c ≡ none
  unfolding split_at_checked
  split_at_checked_refused (inl outside) = ground arith
  split_at_checked_refused (inr over) =
      ground (arith, v.in_buffer, v.counted, v.in_limit, v.addressable, v.whole)
