-- ===== src/Acpi/Srat.antt =====
-- `Srat::parse` of kernel/src/acpi/srat.rs. A map is the list of its keys with their values.
pub mod Maps
pub mod Gathered
pub mod Saved
pub mod Parsed
mod Tests
use elise.Base.{
  ℕ, zero, suc, ◌+◌, ◌-◌, ◌*◌, ◌%◌, ◌^◌, Bool, true, false, ◌&&◌, Option, none, some, List, [], ◌∷◌,
  ltb, ◌==◌, if◌then◌else◌,
}
use elise.Range
use elise.Range.{checked_add}
use elise.RangeSet.{RangeSet, done, fail, new_set}
use elise.RangeSet
use elise.Acpi.{
  Memory, read_unaligned, Table, srat, Error, size_mismatch, memory_affinity_overflow, TableEntry,
  parse_table_entries, ok, err,
}
use elise.Acpi

-- `BTreeMap::insert` and `get`
abbrev pub map_insert : {A : Type 0} → ℕ → A → List (ℕ × A) → List (ℕ × A)
map_insert k a [] = (k, a) ∷ []
map_insert k a ((k', b) ∷ m) =
    let rest = map_insert k a m in if k' == k then (k, a) ∷ m else (k', b) ∷ rest

abbrev pub map_get : {A : Type 0} → ℕ → List (ℕ × A) → Option A
map_get k [] = none
map_get k ((k', a) ∷ m) = let rest = map_get k m in if k' == k then some a else rest

pub record Srat : Type 0 where
  pub apic_to_domain : List (ℕ × ℕ)
  pub domain_to_ranges : List (ℕ × RangeSet)

pub data Outcome : Type 0 where
  got : Srat → Outcome
  failed : Error → Outcome
  panicked out_of_fuel : Outcome

abbrev pub is_enabled : ℕ → Bool
is_enabled flags = flags % 2 == 1

abbrev pub save_domain : ℕ → ℕ → ℕ → Srat → Srat
save_domain flags id domain s =
    if is_enabled flags
    then record s { apic_to_domain = map_insert id domain s.apic_to_domain }
    else s

-- `entry(domain).or_insert(RangeSet::new())`
abbrev pub or_new : Option RangeSet → RangeSet
or_new none = new_set
or_new (some r) = r

abbrev pub ranges_of : ℕ → Srat → RangeSet
ranges_of domain s = or_new (map_get domain s.domain_to_ranges)

-- The insertion of an affinity; the length is not zero, so that `checked_sub(1)` succeeds.
unfoldable pub save_range : ℕ → ℕ → ℕ → Srat → Outcome
save_range domain start length s = elim (checked_add start (length - 1)) [
  | none ↦ failed memory_affinity_overflow
  | some end ↦ elim (Range.new start end) [
    | Range.err _ ↦ panicked
    | Range.ok range ↦ elim (RangeSet.insert range (ranges_of domain s)) [
      | done _ r ↦ got (record s { domain_to_ranges = map_insert domain r s.domain_to_ranges })
      | fail _ _ ↦ failed memory_affinity_overflow
      | RangeSet.panic ↦ panicked
      | RangeSet.out_of_fuel ↦ out_of_fuel
    ]
  ]
]

abbrev pub apic_domain : Memory → ℕ → ℕ
apic_domain mem ptr =
    mem (ptr + 2) + 2 ^ 8 * mem (ptr + 9) + 2 ^ 16 * mem (ptr + 10) + 2 ^ 24 * mem (ptr + 11)

abbrev pub save_memory : ℕ → ℕ → ℕ → ℕ → Srat → Outcome
save_memory flags domain start length s =
    let saved = save_range domain start length s in
    if ltb 0 length && is_enabled flags then saved else got s

-- A round of the loop. The last case is `unimplemented!`.
unfoldable pub affinity : Memory → TableEntry → Srat → Outcome
affinity mem entry s =
    let ptr = entry.ptr in
    if entry.typ == 0
    then if entry.len == 16
      then got
          (save_domain (read_unaligned 4 mem (ptr + 4)) (mem (ptr + 3)) (apic_domain mem ptr) s)
      else failed (size_mismatch srat)
    else if entry.typ == 1
    then if entry.len == 40
      then save_memory (read_unaligned 4 mem (ptr + 28)) (read_unaligned 4 mem (ptr + 2))
          (read_unaligned 8 mem (ptr + 8)) (read_unaligned 8 mem (ptr + 16)) s
      else failed (size_mismatch srat)
    else if entry.typ == 2
    then if entry.len == 24
      then got (
          save_domain (read_unaligned 4 mem (ptr + 12)) (read_unaligned 4 mem (ptr + 8))
            (read_unaligned 4 mem (ptr + 4)) s)
      else failed (size_mismatch srat)
    else panicked

-- The loop; `?` and `return` leave it.
unfoldable pub affinities : Memory → List TableEntry → Srat → Outcome
affinities mem [] s = got s
affinities mem (entry ∷ entries) s = elim (affinity mem entry s) [
  | got s' ↦ affinities mem entries s'
  | failed e ↦ failed e
  | panicked ↦ panicked
  | out_of_fuel ↦ out_of_fuel
]

abbrev pub no_affinities : Srat
no_affinities = record { apic_to_domain = []; domain_to_ranges = [] }

-- `Srat::parse`
unfoldable pub parse_srat : Memory → Outcome
parse_srat mem = elim (parse_table_entries mem 12) [
  | ok entries ↦ affinities mem entries no_affinities
  | err e ↦ failed e
  | Acpi.out_of_fuel ↦ out_of_fuel
]
