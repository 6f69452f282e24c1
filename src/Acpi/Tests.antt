-- ===== src/Acpi/Tests.antt =====
-- A small table for kernel/src/acpi.
use elise.Base.{ℕ, Bool, true, false, ◌≡◌, refl, arith, List, [], ◌∷◌, none, some, get_elem?}
use elise.Acpi.{
  Memory, madt, from_sig, signature_of, length_of, ok, parse_madt, parse_table_entries,
}
use elise.Acpi.Entries.{IsEnd, parse_table_entries-IsEnd}
use elise.Acpi.Apics.{AreLaid, Flags, Controller, local_apic, x2apic, other, parse_madt-usable_ids}

abbrev pub table_byte : List ℕ → Memory
table_byte bytes = λ offset. elim (get_elem? bytes offset) [ none ↦ 0 | some b ↦ b ]

-- A header, local APICs that are on, off and online capable, an x2APIC, and an entry of another type.
abbrev small_madt : Memory
small_madt = table_byte (
    65 ∷ 80 ∷ 73 ∷ 67 ∷ 88 ∷ 0 ∷ 0 ∷ 0 ∷ 1 ∷ 0 ∷ 0 ∷ 0 ∷ 0 ∷ 0 ∷ 0 ∷ 0 ∷ 0 ∷ 0 ∷ 0 ∷ 0 ∷ 0 ∷ 0 ∷ 0
    ∷ 0 ∷ 0 ∷ 0 ∷ 0 ∷ 0 ∷ 0 ∷ 0 ∷ 0 ∷ 0 ∷ 0 ∷ 0 ∷ 0 ∷ 0 ∷ 0 ∷ 0 ∷ 0 ∷ 0 ∷ 0 ∷ 0 ∷ 0 ∷ 0 ∷ 0 ∷ 8 ∷ 0
    ∷ 3 ∷ 1 ∷ 0 ∷ 0 ∷ 0 ∷ 0 ∷ 8 ∷ 1 ∷ 4 ∷ 0 ∷ 0 ∷ 0 ∷ 0 ∷ 0 ∷ 8 ∷ 1 ∷ 5 ∷ 2 ∷ 0 ∷ 0 ∷ 0 ∷ 9 ∷ 16 ∷ 0
    ∷ 0 ∷ 6 ∷ 0 ∷ 0 ∷ 0 ∷ 3 ∷ 0 ∷ 0 ∷ 0 ∷ 0 ∷ 0 ∷ 0 ∷ 0 ∷ 5 ∷ 4 ∷ 0 ∷ 0 ∷ [])

abbrev flags : Bool → Bool → Flags
flags enabled online_capable = record {
  enabled = enabled;
  online_capable = online_capable;
  reserved = 0;
}

abbrev controllers : List Controller
controllers =
    local_apic 3 (flags true false)
    ∷ local_apic 4 (flags false false)
    ∷ local_apic 5 (flags false true)
    ∷ x2apic 6 (flags true true)
    ∷ other 5 4
    ∷ []

laid_last : AreLaid small_madt 84 88 (other 5 4 ∷ [])
laid_last = (refl, omega arith, (refl, omega arith, omega arith), refl)

laid_apics :
    AreLaid small_madt 60 88
      (local_apic 5 (flags false true) ∷ x2apic 6 (flags true true) ∷ other 5 4 ∷ [])
laid_apics =
    (refl, omega arith, (refl, refl, refl), (refl, omega arith, (refl, refl, refl), laid_last))

small_madt-AreLaid : AreLaid small_madt 44 (length_of small_madt) controllers
small_madt-AreLaid =
    (refl, omega arith, (refl, refl, refl), (refl, omega arith, (refl, refl, refl), laid_apics))

parse_madt-usable_ids_example : parse_madt small_madt ≡ ok (3 ∷ 5 ∷ 6 ∷ [])
parse_madt-usable_ids_example = parse_madt-usable_ids small_madt controllers small_madt-AreLaid

parse_table_entries-IsEnd_example :
    IsEnd small_madt
      (from_sig (signature_of small_madt))
      44
      (length_of small_madt)
      (parse_table_entries small_madt 8)
parse_table_entries-IsEnd_example = parse_table_entries-IsEnd small_madt 8

small_madt_named : from_sig (signature_of small_madt) ≡ madt
small_madt_named = refl
