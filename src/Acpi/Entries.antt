-- ===== src/Acpi/Entries.antt =====
-- `parse_table_entries` of kernel/src/acpi/acpi.rs ends.
use elise.Base.{
  ℕ, zero, suc, ◌+◌, ◌-◌, ◌≤◌, ◌<◌, ◌≡◌, refl, sym, subst, arith, List, [], ◌∷◌, ltb, inl, inr,
  Bool-cases,
}
use elise.Acpi.{
  Memory, Table, from_sig, signature_of, length_of, sdt_header_size, size_mismatch, Result, ok, err,
  out_of_fuel, TableEntry, entries_loop, parse_table_entries, push_entry,
}

-- Entries of two bytes at least that start before `end`, one behind the other from `ptr` to `at`.
abbrev pub AreEntries : Memory → ℕ → ℕ → ℕ → List TableEntry → Type 0
AreEntries mem ptr end at [] = ptr ≡ at
AreEntries mem ptr end at (entry ∷ entries) =
    (ptr < end)
    × (entry.ptr ≡ ptr)
    × (entry.typ ≡ mem ptr)
    × (entry.len ≡ mem (ptr + 1))
    × (2 ≤ entry.len)
    × AreEntries mem (ptr + entry.len) end at entries

-- All entries of the table, or the error for the first that is shorter than its own header.
abbrev pub IsEnd : Memory → Table → ℕ → ℕ → Result (List TableEntry) → Type 0
IsEnd mem table ptr end (ok entries) = (at : ℕ) × AreEntries mem ptr end at entries × (end ≤ at)
IsEnd mem table ptr end (err e) =
    (e ≡ size_mismatch table)
    × ((at : ℕ) × (before : List TableEntry) × AreEntries mem ptr end at before
        × (at < end)
        × (mem (at + 1) < 2))
IsEnd mem table ptr end out_of_fuel = ⊥

push_entry-IsEnd :
    (mem : Memory) (table : Table) (ptr end : ℕ) (r : Result (List TableEntry))
    → ptr < end
    → 2 ≤ mem (ptr + 1)
    → IsEnd mem table (ptr + mem (ptr + 1)) end r
    → IsEnd mem table ptr end
        (push_entry (record { typ = mem ptr; len = mem (ptr + 1); ptr = ptr }) r)
push_entry-IsEnd mem table ptr end (ok entries) h l (at, t, past) =
    (at, (h, refl, refl, refl, l, t), past)
push_entry-IsEnd mem table ptr end (err e) h l (named, (at, before, t, within, short)) = (
  named,
  (
    at,
    record { typ = mem ptr; len = mem (ptr + 1); ptr = ptr } ∷ before,
    (h, refl, refl, refl, l, t),
    within,
    short,
  ),
)
push_entry-IsEnd mem table ptr end out_of_fuel h l t = t

entries_loop-IsEnd :
    (fuel : ℕ) (mem : Memory) (table : Table) (ptr end : ℕ)
    → end - ptr < fuel
    → IsEnd mem table ptr end (entries_loop fuel mem table ptr end)
unfolding entries_loop
entries_loop-IsEnd zero mem table ptr end h = absurd (omega arith)
entries_loop-IsEnd (suc fuel) mem table ptr end h = elim (Bool-cases (ltb ptr end)) [
  | inl inside ↦ elim (Bool-cases (ltb (mem (ptr + 1)) 2)) [
    | inl short ↦
        let within : ptr < end = ground arith in
        let small : mem (ptr + 1) < 2 = ground arith in
        become (err (size_mismatch table)) (rw (entries_loop, inside, short))
          (refl, (ptr, [], refl, within, small))
    | inr long ↦
        let within : ptr < end = ground arith in
        let large : 2 ≤ mem (ptr + 1) = ground arith in
        become
          (push_entry (record { typ = mem ptr; len = mem (ptr + 1); ptr = ptr })
            (entries_loop fuel mem table (ptr + mem (ptr + 1)) end))
          (rw (entries_loop, inside, long))
          (push_entry-IsEnd mem table ptr end
            (entries_loop fuel mem table (ptr + mem (ptr + 1)) end) within large
            (entries_loop-IsEnd fuel mem table (ptr + mem (ptr + 1)) end (omega arith)))
  ]
  | inr outside ↦
      let past : end ≤ ptr = ground arith in
      become (ok []) (rw (entries_loop, outside)) (ptr, refl, past)
]
  where
    become :
        (r : Result (List TableEntry))
        → entries_loop (suc fuel) mem table ptr end ≡ r
        → IsEnd mem table ptr end r
        → IsEnd mem table ptr end (entries_loop (suc fuel) mem table ptr end)
    become r e t = subst (IsEnd mem table ptr end) (sym e) t

-- For any memory and any offset: `parse_table_entries` ends with the fuel it has. It returns entries that lie one
-- behind the other from the offset behind the header on, each of two bytes at least, starting before the
-- end of the table and with the type and the length that stand there, the last of which reaches the end or passes it;
-- or the error that names the table, where such entries lead to an offset before the end at which a length below
-- two stands.
pub parse_table_entries-IsEnd :
    (mem : Memory) (offset : ℕ)
    → IsEnd mem
        (from_sig (signature_of mem))
        (sdt_header_size + offset)
        (length_of mem)
        (parse_table_entries mem offset)
unfolding parse_table_entries
parse_table_entries-IsEnd mem offset =
    entries_loop-IsEnd (suc (length_of mem)) mem (from_sig (signature_of mem))
      (sdt_header_size + offset) (length_of mem) (omega arith)
