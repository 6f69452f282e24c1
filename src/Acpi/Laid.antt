-- ===== src/Acpi/Laid.antt =====
-- `parse_table_entries` of kernel/src/acpi/acpi.rs on entries of known lengths.
use elise.Base.{ℕ, zero, suc, ◌+◌, ◌-◌, ◌≤◌, ◌<◌, ◌≡◌, arith, true, false, List, [], ◌∷◌, ltb}
use elise.Acpi.{
  Memory, Table, from_sig, signature_of, length_of, sdt_header_size, ok, TableEntry, entries_loop,
  parse_table_entries,
}

-- Entries of these lengths lie from `ptr` to `end`.
abbrev pub HasLengths : Memory → ℕ → ℕ → List ℕ → Type 0
HasLengths mem ptr end [] = ptr ≡ end
HasLengths mem ptr end (len ∷ lens) =
    (mem (ptr + 1) ≡ len) × (2 ≤ len) × HasLengths mem (ptr + len) end lens

unfoldable pub entries_of : Memory → ℕ → List ℕ → List TableEntry
entries_of mem ptr [] = []
entries_of mem ptr (len ∷ lens) =
    record { typ = mem ptr; len = len; ptr = ptr } ∷ entries_of mem (ptr + len) lens

HasLengths-le :
    (mem : Memory) (ptr end : ℕ) (lens : List ℕ) → HasLengths mem ptr end lens → ptr ≤ end
HasLengths-le mem ptr end [] h = omega (arith, h)
HasLengths-le mem ptr end (len ∷ lens) h = omega (arith, HasLengths-le mem (ptr + len) end lens h.2)

entries_loop-HasLengths :
    (fuel : ℕ) (mem : Memory) (table : Table) (ptr end : ℕ) (lens : List ℕ)
    → end - ptr < fuel
    → HasLengths mem ptr end lens
    → entries_loop fuel mem table ptr end ≡ ok (entries_of mem ptr lens)
unfolding entries_loop entries_of
entries_loop-HasLengths zero mem table ptr end lens f h = absurd (omega arith)
entries_loop-HasLengths (suc fuel) mem table ptr end [] f h =
    let outside : ltb ptr end ≡ false = ground arith in rw (entries_loop, outside)
entries_loop-HasLengths (suc fuel) mem table ptr end (len ∷ lens) f h =
    let reach = HasLengths-le mem (ptr + len) end lens h.2 in
    let inside : ltb ptr end ≡ true =
      let small : ptr < end = omega (arith, reach, h.1) in ground arith in
    let long : ltb len 2 ≡ false = ground arith in
    let rest =
      entries_loop-HasLengths fuel mem table (ptr + len) end lens (omega (arith, reach, h.1)) h.2 in
    rw (entries_loop, inside, h.0, long, rest)

pub parse_table_entries-HasLengths :
    (mem : Memory) (offset : ℕ) (lens : List ℕ)
    → HasLengths mem (sdt_header_size + offset) (length_of mem) lens
    → parse_table_entries mem offset ≡ ok (entries_of mem (sdt_header_size + offset) lens)
unfolding parse_table_entries
parse_table_entries-HasLengths mem offset lens h =
    entries_loop-HasLengths (suc (length_of mem)) mem (from_sig (signature_of mem))
      (sdt_header_size + offset) (length_of mem) lens (omega arith) h
