-- ===== src/RangeSet.antt =====
-- `RangeSet` of shared/rangeset/src/lib.rs: its array of 256 ranges and the methods that change it.
-- A method takes the set and returns an `Outcome`, which carries the set that the method leaves
-- behind, also on an error: the source changes the set in place before it returns `Err`.
mod Layout
mod Shift
pub mod Entries
mod Pieces
mod Insert
pub mod Valid
pub mod Inserted
pub mod Gathered
pub mod Refine
pub mod Length
mod Remove
pub mod Removed
pub mod Spared
pub mod Allocate
mod Placed
mod Allocated
mod Visit
pub mod Found
mod Tests
use elise.Base.{
  ℕ, zero, suc, ◌+◌, ◌-◌, ◌%◌, ◌^◌, min, max, Bool, true, false, ◌&&◌, Option, none, some, List, [],
  ◌∷◌, ◌++◌, ltb, leb, ◌==◌, if◌then◌else◌, length, get_elem?, set, take, drop, replicate,
}
use elise.Range.{
  Range, Error, index_out_of_bounds, range_set_overflow, Result, ok, err, new, contains, overlaps,
  checked_add, saturating_add,
}

-- `ranges: [Range; 256]` and `in_use: u32`
pub record RangeSet : Type 0 where
  pub ranges : List Range
  pub in_use : ℕ

-- `panic` is an array access out of bounds; `out_of_fuel` says that a loop was given too little fuel.
pub data Outcome {ℓ} (A : Type ℓ) : Type ℓ where
  done : A → RangeSet → Outcome A
  fail : Error → RangeSet → Outcome A
  panic : Outcome A
  out_of_fuel : Outcome A

abbrev pub M : Type 0 → Type 0
M A = RangeSet → Outcome A

-- What follows a step: `?` returns early on an error.
abbrev pub and_then : {A B : Type 0} → Outcome A → (A → M B) → Outcome B
and_then (done a s) f = f a s
and_then (fail e s) f = fail e s
and_then panic f = panic
and_then out_of_fuel f = out_of_fuel

infixl 5 ◌>>=◌ ◌>>◌
abbrev pub ◌>>=◌ : {A B : Type 0} → M A → (A → M B) → M B
◌>>=◌ m f s = and_then (m s) f

abbrev pub ◌>>◌ : {B : Type 0} → M (Unit {0}) → M B → M B
◌>>◌ m k = m >>= λ _. k

abbrev pub return : {A : Type 0} → A → M A
return a s = done a s

-- `opt.ok_or(e)?` and `result?`
abbrev pub ok_or : {A : Type 0} → Option A → Error → M A
ok_or none e s = fail e s
ok_or (some a) e s = done a s

abbrev pub try : {A : Type 0} → Result A → M A
try (ok a) s = done a s
try (err e) s = fail e s

-- `self.ranges[i]`, read and written
unfoldable pub read_at : ℕ → M Range
read_at i s = elim (get_elem? s.ranges i) [ none ↦ panic | some e ↦ done e s ]

unfoldable pub write_at : ℕ → Range → M (Unit {0})
write_at i r s =
    if ltb i (length s.ranges) then done tt (record s { ranges = set s.ranges i r }) else panic

unfoldable pub swap : ℕ → ℕ → M (Unit {0})
unfolding read_at write_at
swap i j = do a ← read_at i; b ← read_at j; write_at i b; write_at j a

-- `self.ranges.copy_within(from..to, dest)`, a `memmove` that panics out of bounds
unfoldable pub copy_within : ℕ → ℕ → ℕ → M (Unit {0})
copy_within from to dest s =
    let n = to - from in
    if leb from to && leb to (length s.ranges) && leb (dest + n) (length s.ranges)
    then done tt (record s {
      ranges = take dest s.ranges ++ (take n (drop from s.ranges) ++ drop (dest + n) s.ranges);
    })
    else panic

abbrev pub set_in_use : ℕ → M (Unit {0})
set_in_use n s = done tt (record s { in_use = n })

-- `RangeSet::new`
unfoldable pub new_set : RangeSet
new_set = record { ranges = replicate 256 (record { start = 0; end = 0 }); in_use = 0 }

abbrev pub entries : RangeSet → List Range
entries s = take s.in_use s.ranges

unfoldable pub is_empty : RangeSet → Bool
is_empty s = s.in_use == 0

-- `len`: `checked_add(1)?` fails on the range of all addresses; the sum itself may wrap.
unfoldable pub len_from : ℕ → List Range → Option ℕ
len_from acc [] = some acc
len_from acc (x ∷ xs) = elim (checked_add (x.end - x.start) 1) [
  | none ↦ none
  | some n ↦ len_from ((acc + n) % 2 ^ 64) xs
]

unfoldable pub len : RangeSet → Option ℕ
unfolding len_from
len s = len_from 0 (entries s)

-- `for i in idx..in_use - 1 { swap(i, i + 1) }`, with the number of rounds left
unfoldable pub delete_loop : ℕ → ℕ → M (Unit {0})
unfolding swap
delete_loop zero i = return tt
delete_loop (suc n) i = swap i (i + 1) >> delete_loop n (i + 1)

unfoldable pub delete : ℕ → M (Unit {0})
unfolding delete_loop
delete idx s =
    if leb s.in_use idx
    then fail (index_out_of_bounds idx) s
    else (delete_loop (s.in_use - 1 - idx) idx >> set_in_use (s.in_use - 1)) s

abbrev pub merged : Range → Range → Range
merged entry range = record { start = min entry.start range.start; end = max entry.end range.end }

-- The `while` loop of `insert`: where it stops, and the range merged so far. `in_use - idx` falls
-- in each round.
unfoldable pub insert_loop : ℕ → ℕ → Range → M (ℕ × Range)
insert_loop zero idx range s = out_of_fuel
insert_loop (suc fuel) idx range s =
    if ltb idx s.in_use
    then (do
      entry ← read_at idx
      eend ← ok_or (checked_add entry.end 1) range_set_overflow
      (if ltb eend range.start
          then insert_loop fuel (idx + 1) range
          else if ltb range.end entry.start
          then return (idx, range)
          else (delete idx >> insert_loop fuel idx (merged entry range))))
        s
    else done (idx, range) s

-- The end of `insert`: make room at `idx` and write the range there.
unfoldable pub insert_at : ℕ → Range → M (Unit {0})
insert_at idx range s =
    if leb (length s.ranges) s.in_use
    then fail range_set_overflow s
    else (do
      (if ltb idx s.in_use then copy_within idx s.in_use (idx + 1) else return tt)
      write_at idx range
      set_in_use (s.in_use + 1))
        s

unfoldable pub insert : Range → M (Unit {0})
insert range s =
    (do (idx, merged_range) ← insert_loop (s.in_use + 1) 0 range; insert_at idx merged_range) s

-- The second half of `split_entry`, from `entry` on.
unfoldable pub split_in_two : ℕ → Range → Range → M Bool
split_in_two idx range entry s =
    (do
      write_at idx (record entry {
        end = if ltb entry.start range.start then range.start - 1 else entry.start;
      })
      (if ltb (idx + 1) s.in_use then copy_within (idx + 1) s.in_use (idx + 2) else return tt)
      second ← try (new (saturating_add range.end 1) entry.end)
      write_at (idx + 1) second
      set_in_use (s.in_use + 1)
      return true)
      s

unfoldable pub split_entry : ℕ → Range → M Bool
split_entry idx range s =
    if leb s.in_use idx
    then fail (index_out_of_bounds idx) s
    else if leb (length s.ranges) s.in_use
    then fail range_set_overflow s
    else (do
      entry ← read_at idx
      (if contains entry range then split_in_two idx range entry else return false))
        s

abbrev pub is_none : {A : Type 0} → Option A → Bool
is_none none = true
is_none (some a) = false

-- The `while` loop of `remove`, with `any_removed`. `in_use - idx` falls in each round.
unfoldable pub remove_loop : ℕ → ℕ → Range → Bool → M Bool
remove_loop zero idx range any s = out_of_fuel
remove_loop (suc fuel) idx range any s =
    if ltb idx s.in_use
    then (do
      entry ← read_at idx
      (if is_none (overlaps entry range)
          then remove_loop fuel (idx + 1) range any
          else if contains range entry
          then (delete idx >> remove_loop fuel idx range true)
          else if leb range.start entry.start
          then (write_at idx (record entry { start = saturating_add range.end 1 })
              >> remove_loop fuel (idx + 1) range true)
          else if leb entry.end range.end
          then (write_at idx (record entry { end = range.start - 1 })
              >> remove_loop fuel (idx + 1) range true)
          else (do
            split ← split_entry idx range
            remove_loop fuel ((if split then idx + 1 else idx) + 1) range true)))
        s
    else done any s

unfoldable pub remove : Range → M Bool
remove range s = remove_loop (s.in_use + 1) 0 range false s
