-- ===== src/Bootloader/Tests.antt =====
-- A small memory map of the firmware, and what bootloader/src/efi/memory.rs frees of it.
use elise.Base.{some, ℕ, ◌≡◌, arith, true, ◌&&◌, not, List, [], ◌∷◌, leb, ltb, ◌^◌}
use elise.RangeSet.{RangeSet, entries}
use elise.RangeSet.Entries.{covers}
use elise.RangeSet.Valid.{IsValid}
use elise.Bootloader.{
  MemoryDescriptor, conventional_memory, loader_code, boot_services_data, memory_map_exit, ok,
}
use elise.Bootloader.Free.{in_free_region, memory_map_exit-covers}

-- Conventional memory below 1 MiB, the bootloader's code, and data of the boot services.
abbrev small_map : List MemoryDescriptor
small_map =
    record { mem_type = conventional_memory; phys_addr = 0; n_pages = 256 }
    ∷ record { mem_type = loader_code; phys_addr = 0x100000; n_pages = 16 }
    ∷ record { mem_type = boot_services_data; phys_addr = 0x110000; n_pages = 16 }
    ∷ []

memory_map_exit-covers_example :
    (s : RangeSet) × (memory_map_exit
        (record { size = 144; memory_map = some small_map; exits = true })
      ≡ ok s)
    × IsValid s
    × ((x : ℕ)
        → covers (entries s) x
          ≡ in_free_region x small_map
            && not (ltb x (2 ^ 16))
            && not (leb 0xA0000 x && leb x 0xFFFFF))
memory_map_exit-covers_example =
    memory_map_exit-covers 144 small_map
      (
        λ _. (omega arith, omega arith),
        (λ e. ground (arith, e), (λ _. (omega arith, omega arith), tt)),
      )
      (omega arith)
