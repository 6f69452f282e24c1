-- ===== src/Bootloader/Tables/Tests.antt =====
-- An RSDP and an XSDT of one entry for bootloader/src/efi/acpi/acpi.rs.
use elise.Base.{ℕ, zero, suc, ◌≡◌, refl, List, [], ◌∷◌, ◌++◌, replicate, ◌+◌}
use elise.Acpi.{Memory, read_unaligned}
use elise.Bootloader.Tables.{
  Guid, SdtTable, acpi_20_table_guid, ok, find_rsdp, sum_bytes, from_system_table, xsdt_table,
  get_sdt_table,
}
use elise.Bootloader.Tables.Checked.{IsFirst, AreTables, get_sdt_table-AreTables}

abbrev firmware_byte : List ℕ → Memory
firmware_byte [] i = 0
firmware_byte (b ∷ bytes) zero = b
firmware_byte (b ∷ bytes) (suc i) = firmware_byte bytes i

-- The RSDP at 0, and the XSDT behind it at 36.
abbrev firmware : Memory
firmware = firmware_byte (
    82
    ∷ 83
    ∷ 68
    ∷ 32
    ∷ 80
    ∷ 84
    ∷ 82
    ∷ 32
    ∷ 151
    ∷ 0
    ∷ 0
    ∷ 0
    ∷ 0
    ∷ 0
    ∷ 0
    ∷ 2
    ∷ 0
    ∷ 0
    ∷ 0
    ∷ 0
    ∷ 36
    ∷ 0
    ∷ 0
    ∷ 0
    ∷ 36
    ∷ (replicate 11 0 ++ (88 ∷ 83 ∷ 68 ∷ 84 ∷ 44 ∷ 0 ∷ 0 ∷ 0 ∷ 0 ∷ 145 ∷ [])))

abbrev config : List (Guid × ℕ)
config = (record { d1 = 1; d2 = 2; d3 = 3; d4 = [] }, 7) ∷ (acpi_20_table_guid, 0) ∷ []

abbrev one_entry : SdtTable
one_entry = record { n_entries = 1; base = 72 }

get_sdt_table-config : get_sdt_table firmware config ≡ ok one_entry
unfolding get_sdt_table from_system_table find_rsdp sum_bytes xsdt_table
get_sdt_table-config = refl

get_sdt_table-AreTables_example :
    (ptr : ℕ) × IsFirst ptr config
    × AreTables firmware ptr (read_unaligned 8 firmware (ptr + 24)) one_entry
get_sdt_table-AreTables_example =
    get_sdt_table-AreTables firmware config one_entry get_sdt_table-config
