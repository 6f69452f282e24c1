-- ===== src/Cursor/Position.antt =====
-- The invariant of `Cursor` in shared/cursor/src/lib.rs, and the methods that move it.
use elise.Base.{ℕ, ◌+◌, ◌-◌, ◌^◌, ◌≤◌, ◌<◌, ◌≡◌, arith, none, some, List, length}
use elise.Cursor.{Cursor, try_set_position, try_set_limit, new_with_limit}

-- The position is in the buffer, and the total within the limit. A slice is shorter than `isize::MAX`:
-- that holds of the original buffer, which is the part behind the position and what the total counts.
pub record IsValid {ℓ} {A : Type ℓ} (c : Cursor A) : Type 0 where
  pub in_buffer : c.pos ≤ length c.inner
  pub counted : c.pos ≤ c.total_pos
  pub in_limit : c.total_pos ≤ c.limit
  pub addressable : c.limit < 2 ^ 64
  pub whole : c.total_pos + (length c.inner - c.pos) < 2 ^ 63

module _ {ℓ} {A : Type ℓ} where
  pub new_with_limit-IsValid :
      (inner : List A) (limit : ℕ)
      → length inner < 2 ^ 63
      → limit < 2 ^ 64
      → IsValid (new_with_limit inner limit)
  unfolding new_with_limit
  new_with_limit-IsValid inner limit h k = omega arith

  -- A position in the buffer is set exactly if the total stays within the limit; then the cursor is
  -- valid, and its total has moved with its position. Otherwise the cursor is left as it was.
  pub try_set_position-IsValid :
      (pos : ℕ) (c : Cursor A)
      → IsValid c
      → pos ≤ length c.inner
      → let (result, c') = try_set_position pos c in
        IsValid c'
        × (c'.inner ≡ c.inner)
        × (c.total_pos + pos ≤ c.limit + c.pos
            → (result ≡ some c'.total_pos)
              × (c'.pos ≡ pos)
              × (c'.total_pos + c.pos ≡ c.total_pos + pos))
        × (c.limit + c.pos < c.total_pos + pos → (result ≡ none) × (c' ≡ c))
  unfolding try_set_position
  try_set_position-IsValid pos c v h = (
    record {
      in_buffer = ground arith;
      counted = ground arith;
      in_limit = ground arith;
      addressable = ground arith;
      whole = ground arith;
    },
    ground arith,
    λ fits. (ground arith, ground arith, ground arith),
    λ over. (ground arith, ground arith),
  )

  -- `try_set_limit` never changes the limit, whatever it answers.
  pub limit-try_set_limit : (limit : ℕ) (c : Cursor A) → (try_set_limit limit c).1 ≡ c
  unfolding try_set_limit
  limit-try_set_limit limit c = ground arith
