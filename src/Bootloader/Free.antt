-- ===== src/Bootloader/Free.antt =====
-- The addresses that `memory_map_exit` of bootloader/src/efi/memory.rs frees.
use elise.Base.{
  ℕ, suc, ◌+◌, ◌*◌, ◌%◌, ◌^◌, ◌≤◌, ◌<◌, ◌≡◌, refl, ◌∙◌, arith, Bool, true, false, ◌&&◌, ◌||◌, not,
  inl, inr, Bool-cases, some, List, [], ◌∷◌, ltb, leb, u64_max, if◌then◌else◌,
}
use elise.Range.{Range}
use elise.RangeSet.{RangeSet, new_set, insert, remove, entries, done}
use elise.RangeSet.Entries.{within, covers}
use elise.RangeSet.Valid.{IsValid}
use elise.RangeSet.Gathered.{IsOpen, new_set-IsOpen, insert-IsOpen}
use elise.RangeSet.Spared.{remove-covers_few}
use elise.Bootloader.{
  MemoryType, reserved, loader_code, loader_data, boot_services_code, boot_services_data,
  runtime_services_code, runtime_services_data, conventional_memory, unusable_memory,
  acpi_reclaim_memory, acpi_memory_nvs, memory_mapped_io, memory_mapped_io_port_space, pal_code,
  persistent_memory, unsupported, MemoryDescriptor, available_post_boot_svc_exit, ok, free_region,
  free_regions, remove_range, memory_map_exit,
}

-- Memory that nobody holds on to once the boot services have ended: ordinary memory, volatile or not, and that of the services.
abbrev pub is_unused : MemoryType → Bool
is_unused reserved = false
is_unused loader_code = false
is_unused loader_data = false
is_unused boot_services_code = true
is_unused boot_services_data = true
is_unused runtime_services_code = false
is_unused runtime_services_data = false
is_unused conventional_memory = true
is_unused unusable_memory = false
is_unused acpi_reclaim_memory = false
is_unused acpi_memory_nvs = false
is_unused memory_mapped_io = false
is_unused memory_mapped_io_port_space = false
is_unused pal_code = false
is_unused persistent_memory = true
is_unused unsupported = false

available-is_unused : (t : MemoryType) → available_post_boot_svc_exit t ≡ is_unused t
available-is_unused reserved = refl
available-is_unused loader_code = refl
available-is_unused loader_data = refl
available-is_unused boot_services_code = refl
available-is_unused boot_services_data = refl
available-is_unused runtime_services_code = refl
available-is_unused runtime_services_data = refl
available-is_unused conventional_memory = refl
available-is_unused unusable_memory = refl
available-is_unused acpi_reclaim_memory = refl
available-is_unused acpi_memory_nvs = refl
available-is_unused memory_mapped_io = refl
available-is_unused memory_mapped_io_port_space = refl
available-is_unused pal_code = refl
available-is_unused persistent_memory = refl
available-is_unused unsupported = refl

abbrev pub in_region : ℕ → MemoryDescriptor → Bool
in_region x desc = leb desc.phys_addr x && ltb x (desc.phys_addr + desc.n_pages * 4096)

-- An address of a region that is free once the boot services have ended.
abbrev pub in_free_region : ℕ → List MemoryDescriptor → Bool
in_free_region x [] = false
in_free_region x (desc ∷ descs) =
    (is_unused desc.mem_type && in_region x desc) || in_free_region x descs

-- The free regions have pages, and end below the last address.
abbrev pub AreRegions : List MemoryDescriptor → Type 0
AreRegions [] = Unit {0}
AreRegions (desc ∷ descs) =
    (is_unused desc.mem_type ≡ true
      → (0 < desc.n_pages) × (desc.phys_addr + desc.n_pages * 4096 ≤ u64_max))
    × AreRegions descs

abbrev pub count_free : List MemoryDescriptor → ℕ
count_free [] = 0
count_free (desc ∷ descs) =
    let rest = count_free descs in if is_unused desc.mem_type then suc rest else rest

abbrev region : MemoryDescriptor → Range
region desc = record {
  start = desc.phys_addr;
  end = desc.phys_addr + (desc.n_pages * 4096 + u64_max) % 2 ^ 64;
}

free_region-insert :
    (desc : MemoryDescriptor) (s s' : RangeSet)
    → 0 < desc.n_pages
    → desc.phys_addr + desc.n_pages * 4096 ≤ u64_max
    → insert (region desc) s ≡ done tt s'
    → free_region desc s ≡ ok s'
unfolding free_region
free_region-insert desc s s' some_pages top e = ground arith

within-region :
    (desc : MemoryDescriptor) (x : ℕ)
    → 0 < desc.n_pages
    → desc.phys_addr + desc.n_pages * 4096 ≤ u64_max
    → within (region desc) x ≡ in_region x desc
within-region desc x some_pages top = ground arith

free_regions-round :
    (desc : MemoryDescriptor) (descs : List MemoryDescriptor) (s s' : RangeSet)
    → is_unused desc.mem_type ≡ true
    → free_region desc s ≡ ok s'
    → free_regions (desc ∷ descs) s ≡ free_regions descs s'
unfolding free_regions
free_regions-round desc descs s s' kept e = rw (available-is_unused desc.mem_type, kept, e) refl

-- The loop: the set stays open, and the addresses of the free regions join it.
record IsFreed (descs : List MemoryDescriptor) (n : ℕ) (s : RangeSet) : Type 0 where
  after : RangeSet
  returns : free_regions descs s ≡ ok after
  open_set : IsOpen (n + count_free descs) after
  more : (x : ℕ) → covers (entries after) x ≡ in_free_region x descs || covers (entries s) x

free_regions-IsFreed :
    (descs : List MemoryDescriptor) (n : ℕ) (s : RangeSet)
    → AreRegions descs
    → IsOpen n s
    → n + count_free descs ≤ 256
    → IsFreed descs n s
unfolding free_regions
free_regions-IsFreed [] n s h o room = record {
  after = s;
  returns = refl;
  open_set = record { valid = o.valid; below = o.below; few = omega (arith, o.few) };
  more = λ x. refl;
}
free_regions-IsFreed (desc ∷ descs) n s (h, hs) o room =
    elim (Bool-cases (is_unused desc.mem_type)) [
      | inr skipped ↦
          let rest = free_regions-IsFreed descs n s hs o (rw skipped at room) in
          let open_set = rest.open_set in
          record {
            after = rest.after;
            returns = rw (available-is_unused desc.mem_type, skipped) rest.returns;
            open_set = rw skipped rest.open_set;
            more = λ x. rw skipped (rest.more x);
          }
      | inl kept ↦
          let (some_pages, top) = h kept in
          let room' : suc (n + count_free descs) ≤ 256 = ground (arith, kept, room) in
          let (s', returns, o', more) =
            insert-IsOpen n (region desc) s o (omega (arith, room')) (omega arith)
              (omega (arith, some_pages, top)) in
          let rest = free_regions-IsFreed descs (suc n) s' hs o' (omega (arith, room')) in
          record {
            after = rest.after;
            returns =
                free_regions-round desc descs s s' kept
                  (free_region-insert desc s s' some_pages top returns)
                ∙ rest.returns;
            open_set = record {
              valid = rest.open_set.valid;
              below = rest.open_set.below;
              few = ground (arith, kept, rest.open_set.few);
            };
            more = λ x.
                rw kept (ground (arith, rest.more x, more x, within-region desc x some_pages top));
          }
    ]

remove_range-done :
    (start end : ℕ) (any : Bool) (s s' : RangeSet)
    → remove (record { start = start; end = end }) s ≡ done any s'
    → remove_range start end s ≡ ok s'
remove_range-done start end any s s' e = rw e refl

-- Where the firmware gives a map and lets the boot services end, the free regions have pages and end below
-- the last address, and there are at most 254 of them, `memory_map_exit` returns a valid set, which covers
-- the addresses of the free regions but those below 2^16 and those from 0xA0000 to 0xFFFFF.
pub memory_map_exit-covers :
    (size : ℕ) (descs : List MemoryDescriptor)
    → AreRegions descs
    → count_free descs ≤ 254
    → (s : RangeSet) × (memory_map_exit
          (record { size = size; memory_map = some descs; exits = true })
        ≡ ok s)
      × IsValid s
      × ((x : ℕ)
          → covers (entries s) x
            ≡ in_free_region x descs
              && not (ltb x (2 ^ 16))
              && not (leb 0xA0000 x && leb x 0xFFFFF))
unfolding memory_map_exit new_set
memory_map_exit-covers size descs h room =
    let freed = free_regions-IsFreed descs 0 new_set h new_set-IsOpen (omega (arith, room)) in
    let (s₁, one, v₁, few₁, same₁) =
      remove-covers_few (record { start = 0; end = 0xFFFF }) freed.after freed.open_set.valid
        (omega arith) (omega (arith, freed.open_set.few, room)) in
    let (s₂, two, v₂, _, same₂) =
      remove-covers_few (record { start = 0xA0000; end = 0xFFFFF }) s₁ v₁ (omega arith)
        (omega (arith, few₁, freed.open_set.few, room)) in
    (s₂, rw (freed.returns, one, two) refl, v₂, λ x. ground (arith, same₂ x, same₁ x, freed.more x))
