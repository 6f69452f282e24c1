-- ===== src/Bootloader.antt =====
-- The memory map of the firmware in bootloader/src/efi/memory.rs, from which `memory_map_exit` makes the
-- set of free memory. What the firmware's two services return is a parameter.
pub mod Free
pub mod Tables
mod Tests
use elise.Base.{
  ℕ, ◌+◌, ◌*◌, ◌%◌, ◌^◌, Bool, true, false, Option, none, some, List, [], ◌∷◌, ltb, if◌then◌else◌,
  u64_max,
}
use elise.Range
use elise.Range.{Range, checked_add}
use elise.RangeSet.{RangeSet, done, fail, new_set, insert, remove}
use elise.RangeSet
use elise.Elf.{checked_mul}

-- `as u64` and `usize` are the same width.
pub data MemoryType : Type 0 where
  reserved loader_code loader_data boot_services_code boot_services_data : MemoryType
  runtime_services_code runtime_services_data conventional_memory unusable_memory : MemoryType
  acpi_reclaim_memory acpi_memory_nvs memory_mapped_io memory_mapped_io_port_space : MemoryType
  pal_code persistent_memory unsupported : MemoryType

abbrev pub available_post_boot_svc_exit : MemoryType → Bool
available_post_boot_svc_exit boot_services_code = true
available_post_boot_svc_exit boot_services_data = true
available_post_boot_svc_exit persistent_memory = true
available_post_boot_svc_exit conventional_memory = true
available_post_boot_svc_exit _ = false

-- The fields that the code reads.
pub record MemoryDescriptor : Type 0 where
  pub mem_type : MemoryType
  pub phys_addr : ℕ
  pub n_pages : ℕ

pub data Error : Type 0 where
  wrong_memory_map_size : ℕ → Error
  exit_boot_svc_failed memory_map_overflow : Error

pub data Outcome : Type 0 where
  ok : RangeSet → Outcome
  err : Error → Outcome
  panicked out_of_fuel : Outcome

abbrev pub then_set : Outcome → (RangeSet → Outcome) → Outcome
then_set (ok s) f = f s
then_set (err e) f = err e
then_set panicked f = panicked
then_set out_of_fuel f = out_of_fuel

-- `unwrap` of what a call on the set returns
abbrev pub unwrap_set : {A : Type 0} → RangeSet.Outcome A → Outcome
unwrap_set (done _ s) = ok s
unwrap_set (fail _ _) = panicked
unwrap_set RangeSet.panic = panicked
unwrap_set RangeSet.out_of_fuel = out_of_fuel

abbrev pub insert_new : Range.Result Range → RangeSet → Outcome
insert_new (Range.err _) s = panicked
insert_new (Range.ok range) s = unwrap_set (insert range s)

-- `offset - 1` wraps at 0 in a release build.
unfoldable pub free_region : MemoryDescriptor → RangeSet → Outcome
free_region desc s = elim (checked_mul desc.n_pages 4096) [
  | none ↦ err memory_map_overflow
  | some offset ↦ elim (checked_add desc.phys_addr ((offset + u64_max) % 2 ^ 64)) [
    | none ↦ err memory_map_overflow
    | some end ↦ insert_new (Range.new desc.phys_addr end) s
  ]
]

-- The loop over the descriptors
unfoldable pub free_regions : List MemoryDescriptor → RangeSet → Outcome
free_regions [] s = ok s
free_regions (desc ∷ descs) s =
    let round = free_region desc s in
    then_set (if available_post_boot_svc_exit desc.mem_type then round else ok s)
      (free_regions descs)

abbrev pub remove_range : ℕ → ℕ → RangeSet → Outcome
remove_range start end s = unwrap_set (remove (record { start = start; end = end }) s)

-- What the services return: the map or the size that it needs, and whether the exit succeeds.
pub record Firmware : Type 0 where
  pub size : ℕ
  pub memory_map : Option (List MemoryDescriptor)
  pub exits : Bool

unfoldable pub memory_map_exit : Firmware → Outcome
memory_map_exit fw = elim fw.memory_map [
  | none ↦ err (wrong_memory_map_size fw.size)
  | some descs ↦
      let free =
        then_set (then_set (free_regions descs new_set) (remove_range 0 0xFFFF))
          (remove_range 0xA0000 0xFFFFF) in
      if fw.exits then free else err exit_boot_svc_failed
]
