-- ===== src/Cursor.antt =====
-- `Cursor` of shared/cursor/src/lib.rs. The slice that a cursor borrows is a list; a split hands out its
-- left part, which nothing else can reach. A method that changes the cursor returns the new one.
pub mod Position
pub mod Write
pub mod Split
mod Tests
use elise.Base.{
  ℕ, ◌+◌, ◌-◌, ◌%◌, ◌^◌, Option, none, some, List, ◌++◌, ltb, leb, ◌==◌, if◌then◌else◌, length,
  take, drop, u64_max,
}
use elise.Range.{checked_add}

pub record Cursor {ℓ} (A : Type ℓ) : Type ℓ where
  pub inner : List A
  pub limit : ℕ
  pub pos : ℕ
  pub total_pos : ℕ

-- A call returns or panics.
pub data Run {ℓ} (A : Type ℓ) : Type ℓ where
  returns : A → Run A
  panics : Run A

-- `a + b` of two `usize`, which wraps in a release build
abbrev pub add_usize : ℕ → ℕ → ℕ
add_usize a b = (a + b) % 2 ^ 64

abbrev pub expect {ℓ} : {A : Type ℓ} → Option A → Run A
expect none = panics
expect (some a) = returns a

module _ {ℓ} {A : Type ℓ} where
  unfoldable pub new_with_limit : List A → ℕ → Cursor A
  new_with_limit inner limit = record { inner = inner; limit = limit; pos = 0; total_pos = 0 }

  unfoldable pub new : List A → Cursor A
  unfolding new_with_limit
  new inner = new_with_limit inner u64_max

  abbrev pub into_inner : Cursor A → List A
  into_inner c = c.inner

  -- `&self.inner[..self.pos]`
  unfoldable pub get : Cursor A → Run (List A)
  get c = if leb c.pos (length c.inner) then returns (take c.pos c.inner) else panics

  abbrev pub current_position : Cursor A → ℕ
  current_position c = c.pos

  abbrev pub overall_position : Cursor A → ℕ
  overall_position c = c.total_pos

  unfoldable pub try_set_position : ℕ → Cursor A → Option ℕ × Cursor A
  try_set_position pos c =
      if pos == c.pos
      then (some c.total_pos, c)
      else if ltb c.pos pos
      then (let total = add_usize c.total_pos (pos - c.pos) in
          if ltb c.limit total
          then (none, c)
          else (some total, record c { total_pos = total; pos = pos }))
      else (let delta = c.pos - pos in
          (some (c.total_pos - delta), record c { total_pos = c.total_pos - delta; pos = pos }))

  unfoldable pub set_position : ℕ → Cursor A → Run (Cursor A)
  unfolding try_set_position
  set_position pos c =
      let (result, c') = try_set_position pos c in
      elim result [ none ↦ panics | some _ ↦ returns c' ]

  unfoldable pub set_limit : ℕ → Cursor A → Cursor A
  set_limit limit c = record c { limit = limit }

  -- The source only tests the new limit.
  unfoldable pub try_set_limit : ℕ → Cursor A → Option (Unit {0}) × Cursor A
  try_set_limit limit c = if ltb limit c.pos then (none, c) else (some tt, c)

  -- `self.inner[from..to].copy_from_slice(buf)`, for a `buf` of that length
  abbrev pub copy_to : ℕ → ℕ → List A → List A → Run (List A)
  copy_to from to buf inner =
      if leb to (length inner) then returns (take from inner ++ (buf ++ drop to inner)) else panics

  -- The part of `write` behind `try_set_position`, which has set the position already.
  abbrev pub write_copy : ℕ → ℕ → List A → Option ℕ × Cursor A → Run (Option (ℕ × ℕ) × Cursor A)
  write_copy from to buf (none, c) = returns (none, c)
  write_copy from to buf (some _, c) = elim (copy_to from to buf c.inner) [
    | panics ↦ panics
    | returns inner ↦ returns (some (from, to), record c { inner = inner })
  ]

  unfoldable pub write : List A → Cursor A → Run (Option (ℕ × ℕ) × Cursor A)
  write buf c = elim (checked_add c.pos (length buf)) [
    | none ↦ returns (none, c)
    | some new_pos ↦ write_copy c.pos new_pos buf (try_set_position new_pos c)
  ]

  -- The new total and the new position of `split_at_checked`.
  abbrev pub split_positions : ℕ → Cursor A → Option (ℕ × ℕ)
  split_positions raw_idx c =
      if ltb c.pos raw_idx
      then elim (checked_add c.total_pos (raw_idx - c.pos)) [ none ↦ none | some t ↦ some (t, 0) ]
      else some (c.total_pos, c.pos - raw_idx)

  unfoldable pub split_at_checked : ℕ → Cursor A → Option (List A × Cursor A)
  split_at_checked raw_idx c =
      if ltb (length c.inner) raw_idx then none else elim (split_positions raw_idx c) [
        | none ↦ none
        | some (new_total, new_cur) ↦
            if ltb c.limit new_total
            then none
            else some (
              take raw_idx c.inner,
              record c { inner = drop raw_idx c.inner; total_pos = new_total; pos = new_cur },
            )
      ]

  unfoldable pub split_at : ℕ → Cursor A → Run (List A × Cursor A)
  unfolding split_at_checked
  split_at raw_idx c = expect (split_at_checked raw_idx c)

  unfoldable pub split_at_current : Cursor A → Run (List A × Cursor A)
  unfolding split_at
  split_at_current c = split_at c.pos c
