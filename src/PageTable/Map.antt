-- ===== src/PageTable/Map.antt =====
-- `map_raw` and `map_init` of shared/page_table/src/lib.rs.
use elise.Base.{
  ℕ, zero, suc, ◌+◌, ◌-◌, ◌*◌, ◌/◌, ◌%◌, ◌^◌, ◌&&◌, ◌||◌, not, Option, none, some, List, [], ◌∷◌,
  ◌==◌, if◌then◌else◌, bit_or,
}
use elise.Range.{checked_add}
use elise.PageTable.{
  invalid_page, mapped_already, smaller_pages_present, PageType, page_4k, page_2m, page_1g, is_4k,
  size_of, size_bit, Mapping, MapRequest, get_indices, is_present, is_large, is_some, bits,
}
use elise.PageTable.Walk.{PhysMem, Outcome, done, fail, panics, components}

-- The number of entries on the way to a page.
abbrev pub depth_of : PageType → ℕ
depth_of page_4k = 4
depth_of page_2m = 3
depth_of page_1g = 2

-- `entries[1..depth]`, each with its index, and `entries.get(depth)`
abbrev pub entries_to : PageType → Mapping → List ℕ → List (Option ℕ × ℕ)
entries_to page_4k m (_ ∷ i ∷ j ∷ k ∷ _) = (m.pdpe, i) ∷ (m.pde, j) ∷ (m.pte, k) ∷ []
entries_to page_2m m (_ ∷ i ∷ j ∷ _) = (m.pdpe, i) ∷ (m.pde, j) ∷ []
entries_to page_1g m (_ ∷ i ∷ _) = (m.pdpe, i) ∷ []
entries_to _ m _ = []

abbrev pub entry_below : PageType → Mapping → Option ℕ
entry_below page_4k m = none
entry_below page_2m m = m.pte
entry_below page_1g m = m.pde

-- The entry with the number of entries in use, bits 52 to 61, raised by one.
abbrev pub counted : ℕ → ℕ
counted ent =
    bit_or (ent / 2 ^ 62 * 2 ^ 62 + ent % 2 ^ 52) ((ent / 2 ^ 52 % 2 ^ 10 + 1) * 2 ^ 52 % 2 ^ 64)

-- `table.0 | PAGE_USER | PAGE_WRITE | PAGE_PRESENT`
abbrev pub table_entry : ℕ → ℕ
table_entry table = bit_or (bit_or (bit_or table 4) 2) 1

module _ (m : PhysMem) where
  open m use {State, translates, read, write, write_bytes, alloc_phys}

  -- The default `alloc_phys_zeroed` of the trait.
  unfoldable pub alloc_phys_zeroed : ℕ → ℕ → State → Option (ℕ × State)
  alloc_phys_zeroed size align s = elim (alloc_phys size align s) [
    | none ↦ none
    | some (p, s') ↦ if translates p size then some (p, write_bytes p size s') else none
  ]

  -- `PageTable::new`
  unfoldable pub new_table : State → Option (ℕ × State)
  unfolding alloc_phys_zeroed
  new_table = alloc_phys_zeroed (2 ^ 12) (2 ^ 12)

  -- The update of the count in the entry above a table; there is none above the first.
  unfoldable pub count_in : Option ℕ → State → Outcome State (Unit {0})
  count_in none s = done tt s
  count_in (some above) s =
      if translates above 8 then done tt (write above (counted (read above s)) s) else panics

  -- The round of the loop that creates a table: its entry is `ptr`, and the count is in `above`.
  unfoldable pub create_table : Option ℕ → ℕ → State → Outcome State ℕ
  unfolding alloc_phys_zeroed count_in
  create_table above ptr s = elim (alloc_phys_zeroed (2 ^ 12) (2 ^ 12) s) [
    | none ↦ panics
    | some (table, s₁) ↦
        if translates ptr 8
        then elim (count_in above s₁) [
          | done _ s₂ ↦ done table (write ptr (table_entry table) s₂)
          | fail e s₂ ↦ fail e s₂
          | panics ↦ panics
        ]
        else panics
  ]

  -- The loop over `1..depth`, given `entries[idx - 2]` and `entries[idx - 1]`: it returns the last two
  -- entries.
  unfoldable pub create_tables :
      List (Option ℕ × ℕ) → Option ℕ → ℕ → State → Outcome State (Option ℕ × ℕ)
  unfolding create_table
  create_tables [] above ptr s = done (above, ptr) s
  create_tables ((some entry, _) ∷ rest) above ptr s = create_tables rest (some ptr) entry s
  create_tables ((none, index) ∷ rest) above ptr s = elim (create_table above ptr s) [
    | done table s' ↦ create_tables rest (some ptr) (table + index * 8) s'
    | fail e s' ↦ fail e s'
    | panics ↦ panics
  ]

  -- The end of `map_raw`: the count and the entry of the page.
  unfoldable pub write_page : ℕ → Option ℕ × ℕ → State → Outcome State (Unit {0})
  unfolding count_in
  write_page raw (none, ptr) s = panics
  write_page raw (some above, ptr) s = elim (count_in (some above) s) [
    | done _ s' ↦ if translates ptr 8 then done tt (write ptr raw s') else panics
    | fail e s' ↦ fail e s'
    | panics ↦ panics
  ]

  -- `map_raw` behind the tests on the mapping that is there.
  unfoldable pub write_mapping : ℕ → PageType → ℕ → Mapping → State → Outcome State (Unit {0})
  unfolding create_tables write_page
  write_mapping vaddr page_type raw mapping s = elim (mapping.pml4e) [
    | none ↦ panics
    | some pml4e ↦
        elim (create_tables (entries_to page_type mapping (get_indices vaddr)) none pml4e s) [
          | done last s' ↦ write_page raw last s'
          | fail e s' ↦ fail e s'
          | panics ↦ panics
        ]
  ]

  unfoldable pub map_raw : ℕ → ℕ → PageType → ℕ → State → Outcome State (Unit {0})
  unfolding components write_mapping
  map_raw table vaddr page_type raw s =
      if not (is_present raw) || (not (is_4k page_type) && not (is_large raw))
      then fail invalid_page s
      else elim (components m table vaddr s) [
        | panics ↦ panics
        | fail e s' ↦ fail e s'
        | done mapping s' ↦
            if is_some mapping.page
            then fail mapped_already s'
            else if is_some (entry_below page_type mapping)
            then fail smaller_pages_present s'
            else write_mapping vaddr page_type raw mapping s'
      ]

  -- The entry that `map_init` builds for a page.
  abbrev pub entry_for : MapRequest → ℕ → ℕ
  entry_for request page =
      bit_or (bit_or (bit_or page 1) (bits request.permissions)) (size_bit request.page_type)

  -- One round of `map_init` at `vaddr`, without an `init`: `none` is an early return of `None`.
  unfoldable pub map_page : ℕ → MapRequest → ℕ → State → Outcome State (Option (Unit {0}))
  unfolding map_raw
  map_page table request vaddr s =
      elim (alloc_phys (size_of request.page_type) (size_of request.page_type) s) [
        | none ↦ done none s
        | some (page, s') ↦
            elim (map_raw table vaddr request.page_type (entry_for request page) s') [
              | done _ s'' ↦ done (some tt) s''
              | fail e s'' ↦ done none s''
              | panics ↦ panics
            ]
      ]

  -- The loop over `(vaddr..=end_vaddr).step_by(page_size)`, with the number of rounds left.
  unfoldable pub map_pages : ℕ → ℕ → MapRequest → ℕ → State → Outcome State (Option (Unit {0}))
  unfolding map_page
  map_pages zero table request vaddr s = done (some tt) s
  map_pages (suc rounds) table request vaddr s = elim (map_page table request vaddr s) [
    | done (some _) s' ↦ map_pages rounds table request (vaddr + size_of request.page_type) s'
    | done none s' ↦ done none s'
    | fail e s' ↦ fail e s'
    | panics ↦ panics
  ]

  -- `map`, which is `map_init` without an `init`
  unfoldable pub map : ℕ → MapRequest → State → Outcome State (Option (Unit {0}))
  unfolding map_pages
  map table request s =
      if request.size == 0 || not (request.vaddr % size_of request.page_type == 0)
      then done none s
      else elim (checked_add request.vaddr (request.size - 1)) [
        | none ↦ done none s
        | some _ ↦
            map_pages ((request.size - 1) / size_of request.page_type + 1) table request
              request.vaddr s
      ]
