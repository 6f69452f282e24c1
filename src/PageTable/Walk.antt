-- ===== src/PageTable/Walk.antt =====
-- The walk of shared/page_table/src/lib.rs over memory that `PhysMem` gives access to.
use elise.Base.{
  ℕ, zero, suc, ◌+◌, ◌-◌, ◌*◌, ◌/◌, ◌%◌, ◌^◌, Bool, ◌||◌, Option, some, List, [], ◌∷◌, ◌==◌,
  if◌then◌else◌,
}
use elise.PageTable.{
  Error, address_not_canonical, Mapping, no_mapping, canonicalize_address, get_indices, is_present,
  is_large,
}

-- The trait `PhysMem`, which the kernel and the bootloader implement: a translation together with the read
-- or the write of the `u64` behind it, and the two allocators. `translates` says that the translation
-- of an address and a size is not `None`.
pub record PhysMem : Type 1 where
  pub State : Type 0
  pub translates : ℕ → ℕ → Bool
  pub read : ℕ → State → ℕ
  pub write : ℕ → ℕ → State → State
  pub write_bytes : ℕ → ℕ → State → State
  pub alloc_phys : ℕ → ℕ → State → Option (ℕ × State)

-- `panics` is an `unwrap` of `None` or a failed `assert!`.
pub data Outcome (S : Type 0) (A : Type 0) : Type 0 where
  done : A → S → Outcome S A
  fail : Error → S → Outcome S A
  panics : Outcome S A

-- The entry's field in `Mapping`, by the depth of the walk.
abbrev pub with_entry : ℕ → ℕ → Mapping → Mapping
with_entry zero ptp ret = record ret { pml4e = some ptp }
with_entry (suc zero) ptp ret = record ret { pdpe = some ptp }
with_entry (suc (suc zero)) ptp ret = record ret { pde = some ptp }
with_entry (suc (suc (suc _))) ptp ret = record ret { pte = some ptp }

-- `ent & 0xffffffffff000`
abbrev pub table_of : ℕ → ℕ
table_of ent = ent / 2 ^ 12 % 2 ^ 40 * 2 ^ 12

-- The binary logarithm of the size of a page whose entry lies at a depth.
abbrev pub shift_at : ℕ → ℕ
shift_at depth = 39 - 9 * depth

-- What the walk returns at an entry that is present and ends it.
abbrev pub with_page : ℕ → ℕ → ℕ → Mapping → Mapping
with_page depth vaddr ent ret = if depth == 0 then ret else record ret {
  page =
      some
        (table_of ent / 2 ^ shift_at depth * 2 ^ shift_at depth, vaddr % 2 ^ shift_at depth, ent);
}

module _ (m : PhysMem) where
  open m use {State, translates, read}

  -- The loop of `components_inner` from a depth on, over the indices that are left.
  unfoldable pub walk : List ℕ → ℕ → ℕ → ℕ → Mapping → State → Outcome State Mapping
  walk [] depth vaddr table ret s = done ret s
  walk (index ∷ indices) depth vaddr table ret s =
      let ptp = table + index * 8 in
      let ret' = with_entry depth ptp ret in
      let ent = read ptp s in
      let rest = walk indices (depth + 1) vaddr (table_of ent) ret' s in
      if translates ptp 8
      then if is_present ent
        then if depth == 3 || is_large ent then done (with_page depth vaddr ent ret') s else rest
        else done ret' s
      else panics

  unfoldable pub components : ℕ → ℕ → State → Outcome State Mapping
  unfolding walk
  components table vaddr s =
      if canonicalize_address 16 vaddr == vaddr
      then walk (get_indices vaddr) 0 vaddr table no_mapping s
      else fail address_not_canonical s
