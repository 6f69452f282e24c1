-- ===== src/Bootloader/Tables.antt =====
-- The search for the ACPI tables in bootloader/src/efi/acpi/acpi.rs. The memory is a function from addresses
-- to bytes; the configuration tables of the firmware are a list.
pub mod Checked
mod Tests
use elise.Base.{
  ℕ, zero, suc, ◌+◌, ◌-◌, ◌*◌, ◌/◌, ◌%◌, ◌≤◌, ◌<◌, ◌≡◌, refl, sym, subst, ◌∙◌, ◌⊎◌, inl, inr, arith,
  Bool, Bool-cases, ◌&&◌, not, false, Option, none, some, List, [], ◌∷◌, ◌==◌, ltb, if◌then◌else◌,
}
use elise.Acpi.{Memory, read_unaligned}
use elise.Net.Arp.{same_bytes}

pub record Guid : Type 0 where
  pub d1 : ℕ
  pub d2 : ℕ
  pub d3 : ℕ
  pub d4 : List ℕ

abbrev pub same_guid : Guid → Guid → Bool
same_guid a b = a.d1 == b.d1 && a.d2 == b.d2 && a.d3 == b.d3 && same_bytes a.d4 b.d4

abbrev pub acpi_20_table_guid : Guid
acpi_20_table_guid = record {
  d1 = 0x8868e871;
  d2 = 0xe4f1;
  d3 = 0x11d3;
  d4 = 0xbc ∷ 0x22 ∷ 0x00 ∷ 0x80 ∷ 0xc7 ∷ 0x3c ∷ 0x88 ∷ 0x81 ∷ [];
}

pub data Table : Type 0 where
  rsdp xsdt : Table
  unknown : List ℕ → Table

pub data Error : Type 0 where
  acpi_20_not_found : Error
  signature_mismatch size_mismatch checksum_mismatch : Table → Error

pub record SdtTable : Type 0 where
  pub n_entries : ℕ
  pub base : ℕ

pub data Outcome (A : Type 0) : Type 0 where
  ok : A → Outcome A
  err : Error → Outcome A
  panicked : Outcome A

-- `find_map` over the configuration tables
unfoldable pub find_rsdp : List (Guid × ℕ) → Option ℕ
find_rsdp [] = none
find_rsdp ((guid, table) ∷ tables) =
    let rest = find_rsdp tables in if same_guid guid acpi_20_table_guid then some table else rest

-- The fold of `wrapping_add` over the bytes of a table.
unfoldable pub sum_bytes : Memory → ℕ → ℕ → ℕ → ℕ
sum_bytes mem ptr zero sum = sum
sum_bytes mem ptr (suc n) sum = sum_bytes mem (suc ptr) n ((sum + mem ptr) % 256)

-- `b"RSD PTR "` and `b"XSDT"` as little-endian words, and the sizes of the structs
abbrev pub rsdp_signature : ℕ
rsdp_signature = 0x2052545020445352

abbrev pub xsdt_signature : ℕ
xsdt_signature = 0x54445358

abbrev pub rsdp_size : ℕ
rsdp_size = 33

abbrev pub sdt_header_size : ℕ
sdt_header_size = 36

unfoldable pub from_system_table : Memory → List (Guid × ℕ) → Outcome ℕ
from_system_table mem tables = elim (find_rsdp tables) [
  | none ↦ err acpi_20_not_found
  | some ptr ↦
      let len = read_unaligned 4 mem (ptr + 20) in
      if ltb len rsdp_size
      then err (size_mismatch rsdp)
      else if not (read_unaligned 8 mem ptr == rsdp_signature)
      then err (signature_mismatch rsdp)
      else if not (sum_bytes mem ptr len 0 == 0)
      then err (checksum_mismatch rsdp)
      else ok ptr
]

-- The part of `get_sdt_table` behind the RSDP; `checked_sub` panics on a length below the header's.
unfoldable pub xsdt_table : Memory → ℕ → Outcome SdtTable
xsdt_table mem ptr =
    let len = read_unaligned 4 mem (ptr + 4) in
    if not (read_unaligned 4 mem ptr == xsdt_signature)
    then err (signature_mismatch xsdt)
    else if not (sum_bytes mem ptr len 0 == 0)
    then err (checksum_mismatch xsdt)
    else if ltb len sdt_header_size
    then panicked
    else ok (record { n_entries = (len - sdt_header_size) / 8; base = ptr + sdt_header_size })

unfoldable pub get_sdt_table : Memory → List (Guid × ℕ) → Outcome SdtTable
get_sdt_table mem tables = elim (from_system_table mem tables) [
  | err e ↦ err e
  | panicked ↦ panicked
  | ok ptr ↦ xsdt_table mem (read_unaligned 8 mem (ptr + 24))
]
