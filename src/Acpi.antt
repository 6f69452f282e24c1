-- ===== src/Acpi.antt =====
-- kernel/src/acpi: the entries of a system description table, and the MADT. The memory from the table's header on is a
-- function from offsets to bytes.
mod Entries
mod Apics
mod Laid
mod Srat
mod Tests
use elise.Base.{
  ℕ, zero, suc, ◌+◌, ◌-◌, ◌*◌, ◌/◌, ◌%◌, ◌^◌, Bool, true, false, ◌&&◌, ◌||◌, not, List, [], ◌∷◌,
  ◌++◌, Option, none, some, ◌==◌, ltb, if◌then◌else◌,
}

abbrev pub Memory : Type 0
Memory = ℕ → ℕ

-- `read_unaligned` of a little-endian word of `n` bytes
abbrev pub read_unaligned : ℕ → Memory → ℕ → ℕ
read_unaligned zero mem offset = 0
read_unaligned (suc n) mem offset = mem offset + 256 * read_unaligned n mem (suc offset)

pub data Table : Type 0 where
  madt srat : Table
  unknown : ℕ → Table

-- `b"APIC"` and `b"SRAT"` as little-endian words
abbrev pub from_sig : ℕ → Table
from_sig signature =
    if signature == 1128878145
    then madt
    else if signature == 1413567059
    then srat
    else unknown signature

pub data Error : Type 0 where
  acpi20_not_found : Error
  signature_mismatch size_mismatch checksum_mismatch : Table → Error
  unhandled_flags memory_affinity_overflow : Error

pub data Result (A : Type 0) : Type 0 where
  ok : A → Result A
  err : Error → Result A
  out_of_fuel : Result A

-- `size_of::<SdtHeader>()`
abbrev pub sdt_header_size : ℕ
sdt_header_size = 36

-- The fields of the header.
abbrev pub signature_of : Memory → ℕ
signature_of mem = read_unaligned 4 mem 0

abbrev pub length_of : Memory → ℕ
length_of mem = read_unaligned 4 mem 4

abbrev byte_sum : Memory → ℕ → ℕ → ℕ
byte_sum mem offset zero = 0
byte_sum mem offset (suc n) = mem offset + byte_sum mem (suc offset) n

unfoldable pub checksum_valid : Memory → Bool
checksum_valid mem = byte_sum mem 0 (length_of mem) % 256 == 0

pub record TableEntry : Type 0 where
  pub typ : ℕ
  pub len : ℕ
  pub ptr : ℕ

abbrev pub push_entry : TableEntry → Result (List TableEntry) → Result (List TableEntry)
push_entry entry (ok entries) = ok (entry ∷ entries)
push_entry entry rest = rest

-- The loop of `parse_table_entries`, with the entries that are still to come.
unfoldable pub entries_loop : ℕ → Memory → Table → ℕ → ℕ → Result (List TableEntry)
entries_loop zero mem table ptr end = out_of_fuel
entries_loop (suc fuel) mem table ptr end =
    let len = mem (ptr + 1) in
    let rest = entries_loop fuel mem table (ptr + len) end in
    if ltb ptr end
    then if ltb len 2
      then err (size_mismatch table)
      else push_entry (record { typ = mem ptr; len = len; ptr = ptr }) rest
    else ok []

-- A round takes an entry of two bytes at least, or ends the loop.
unfoldable pub parse_table_entries : Memory → ℕ → Result (List TableEntry)
unfolding entries_loop
parse_table_entries mem offset =
    entries_loop (suc (length_of mem)) mem (from_sig (signature_of mem)) (sdt_header_size + offset)
      (length_of mem)

-- `(flags & ENABLED) != 0 || (flags & ONLINE_CAPABLE) != 0`
abbrev pub is_usable : ℕ → Bool
is_usable flags = flags % 2 == 1 || flags / 2 % 2 == 1

-- The ID is kept if the CPU can be used.
abbrev pub with_id : Bool → ℕ → Result (List ℕ) → Result (List ℕ)
with_id true id (ok ids) = ok (id ∷ ids)
with_id _ id rest = rest

-- The rounds of `Madt::parse`, with the APIC IDs of the entries that are left.
abbrev pub apic_ids : Memory → List TableEntry → Result (List ℕ)
apic_ids mem [] = ok []
apic_ids mem (entry ∷ entries) =
    let rest = apic_ids mem entries in
    if entry.typ == 0
    then if entry.len == 8
      then with_id (is_usable (read_unaligned 4 mem (entry.ptr + 4))) (mem (entry.ptr + 3)) rest
      else err (size_mismatch madt)
    else if entry.typ == 9
    then if entry.len == 16
      then with_id (is_usable (read_unaligned 4 mem (entry.ptr + 8)))
          (read_unaligned 4 mem (entry.ptr + 4)) rest
      else err (size_mismatch madt)
    else rest

-- `Madt::parse`
unfoldable pub parse_madt : Memory → Result (List ℕ)
unfolding parse_table_entries
parse_madt mem = elim (parse_table_entries mem 8) [
  | ok entries ↦ apic_ids mem entries
  | err e ↦ err e
  | out_of_fuel ↦ out_of_fuel
]
