-- ===== src/PageTable/VirtBase.antt =====
-- The virtual addresses of the pages that a walk of shared/page_table/src/lib.rs finds.
use elise.Base.{
  ℕ, ◌+◌, ◌-◌, ◌*◌, ◌/◌, ◌%◌, ◌^◌, ◌≡◌, refl, sym, ap, subst, arith, Bool, true, false, [], ◌∷◌,
  ◌==◌, ==_iff, if◌then◌else◌, Option, none, some, Bool-cases, inl, inr,
}
use elise.PageTable.{
  is_present, is_large, canonicalize_address, Mapping, no_mapping, virt_base, page_type, PageType,
  page_4k, page_2m, page_1g, size_of, get_indices, address_not_canonical,
}
use elise.PageTable.Walk.{PhysMem, Outcome, done, fail, table_of, walk, components}
use elise.PageTable.Canonical.{entry_index, based}

-- What the walk returns at a page, by its size.
record IsBased (vaddr : ℕ) (mapping : Mapping) (offset : ℕ) : Type 0 where
  pub size : PageType
  pub sized : page_type mapping ≡ some size
  pub offset_of : offset ≡ vaddr % size_of size
  pub base : virt_base mapping ≡ some (vaddr - offset)

-- A page that a walk has found is based; nothing is said of a walk that finds none.
abbrev AreBased : {S : Type 0} → ℕ → Outcome S Mapping → Type 0
AreBased vaddr (done mapping s) = elim (mapping.page) [
  | none ↦ Unit {0}
  | some (base, offset, entry) ↦ IsBased vaddr mapping offset
]
AreBased vaddr _ = Unit {0}

if-AreBased :
    {S : Type 0} (vaddr : ℕ) (b : Bool) (o o' : Outcome S Mapping)
    → AreBased vaddr o
    → AreBased vaddr o'
    → AreBased vaddr (if b then o else o')
if-AreBased vaddr true o o' h h' = h
if-AreBased vaddr false o o' h h' = h'

module _ (m : PhysMem) (vaddr : ℕ) (canonical : canonicalize_address 16 vaddr ≡ vaddr) where
  abbrev i0 : ℕ
  i0 = vaddr / 2 ^ 39 % 2 ^ 9

  abbrev i1 : ℕ
  i1 = vaddr / 2 ^ 30 % 2 ^ 9

  abbrev i2 : ℕ
  i2 = vaddr / 2 ^ 21 % 2 ^ 9

  abbrev i3 : ℕ
  i3 = vaddr / 2 ^ 12 % 2 ^ 9

  walk_pte-AreBased :
      (table e0 e1 e2 : ℕ) (s : m.State)
      → table % 2 ^ 12 ≡ 0
      → e0 % 2 ^ 12 / 8 ≡ i0
      → e1 % 2 ^ 12 / 8 ≡ i1
      → e2 % 2 ^ 12 / 8 ≡ i2
      → AreBased vaddr (
          walk m
            (i3 ∷ [])
            3
            vaddr
            table
            (record { pml4e = some e0; pdpe = some e1; pde = some e2; pte = none; page = none })
            s)
  unfolding walk virt_base page_type
  walk_pte-AreBased table e0 e1 e2 s aligned h0 h1 h2 =
      let h3 = entry_index table i3 aligned (omega arith) in
      if-AreBased vaddr (m.translates (table + i3 * 8) 8) _ _
        (if-AreBased vaddr (is_present (m.read (table + i3 * 8) s)) _ _
          (record {
            size = page_4k;
            sized = refl;
            offset_of = refl;
            base = ap some (
                rw (h0, h1, h2, h3)
                  (based vaddr i0 i1 i2 i3 (vaddr % 2 ^ 12) canonical refl (omega arith)
                    (omega arith) (omega arith) (omega arith) (omega arith)));
          })
          tt)
        tt

  walk_pde-AreBased :
      (table e0 e1 : ℕ) (s : m.State)
      → table % 2 ^ 12 ≡ 0
      → e0 % 2 ^ 12 / 8 ≡ i0
      → e1 % 2 ^ 12 / 8 ≡ i1
      → AreBased vaddr (
          walk m
            (i2 ∷ i3 ∷ [])
            2
            vaddr
            table
            (record { pml4e = some e0; pdpe = some e1; pde = none; pte = none; page = none })
            s)
  unfolding walk virt_base page_type
  walk_pde-AreBased table e0 e1 s aligned h0 h1 =
      let h2 = entry_index table i2 aligned (omega arith) in
      if-AreBased vaddr (m.translates (table + i2 * 8) 8) _ _
        (if-AreBased vaddr (is_present (m.read (table + i2 * 8) s)) _ _
          (if-AreBased vaddr (is_large (m.read (table + i2 * 8) s)) _ _
            (record {
              size = page_2m;
              sized = refl;
              offset_of = refl;
              base = ap some (
                  rw (h0, h1, h2)
                    (based vaddr i0 i1 i2 0 (vaddr % 2 ^ 21) canonical refl (omega arith)
                      (omega arith) (omega arith) (omega arith) (omega arith)));
            })
            (walk_pte-AreBased (table_of (m.read (table + i2 * 8) s)) e0 e1 (table + i2 * 8) s
              (omega arith) h0 h1 h2))
          tt)
        tt

  walk_pdpe-AreBased :
      (table e0 : ℕ) (s : m.State)
      → table % 2 ^ 12 ≡ 0
      → e0 % 2 ^ 12 / 8 ≡ i0
      → AreBased vaddr (
          walk m
            (i1 ∷ i2 ∷ i3 ∷ [])
            1
            vaddr
            table
            (record { pml4e = some e0; pdpe = none; pde = none; pte = none; page = none })
            s)
  unfolding walk virt_base page_type
  walk_pdpe-AreBased table e0 s aligned h0 =
      let h1 = entry_index table i1 aligned (omega arith) in
      if-AreBased vaddr (m.translates (table + i1 * 8) 8) _ _
        (if-AreBased vaddr (is_present (m.read (table + i1 * 8) s)) _ _
          (if-AreBased vaddr (is_large (m.read (table + i1 * 8) s)) _ _
            (record {
              size = page_1g;
              sized = refl;
              offset_of = refl;
              base = ap some (
                  rw (h0, h1)
                    (based vaddr i0 i1 0 0 (vaddr % 2 ^ 30) canonical refl (omega arith)
                      (omega arith) (omega arith) (omega arith) (omega arith)));
            })
            (walk_pde-AreBased (table_of (m.read (table + i1 * 8) s)) e0 (table + i1 * 8) s
              (omega arith) h0 h1))
          tt)
        tt

  walk-AreBased :
      (root : ℕ) (s : m.State)
      → root % 2 ^ 12 ≡ 0
      → AreBased vaddr (walk m (get_indices vaddr) 0 vaddr root no_mapping s)
  unfolding walk
  walk-AreBased root s aligned =
      if-AreBased vaddr (m.translates (root + i0 * 8) 8) _ _
        (if-AreBased vaddr (is_present (m.read (root + i0 * 8) s)) _ _
          (if-AreBased vaddr (is_large (m.read (root + i0 * 8) s)) _ _ tt (
            walk_pdpe-AreBased (table_of (m.read (root + i0 * 8) s)) (root + i0 * 8) s (omega arith)
              (entry_index root i0 aligned (omega arith))))
          tt)
        tt

components-AreBased :
    (m : PhysMem) (root vaddr : ℕ) (s : m.State)
    → root % 2 ^ 12 ≡ 0
    → AreBased vaddr (components m root vaddr s)
unfolding components
components-AreBased m root vaddr s aligned =
    elim (Bool-cases (canonicalize_address 16 vaddr == vaddr)) [
      | inl c ↦
          let same : components m root vaddr s
              ≡ walk m (get_indices vaddr) 0 vaddr root no_mapping s =
            rw (components, c) in
          subst (AreBased vaddr) (sym same) (
            walk-AreBased m vaddr ((==_iff (canonicalize_address 16 vaddr) vaddr).0 c) root s
              aligned)
      | inr c ↦
          let same : components m root vaddr s ≡ fail address_not_canonical s =
            rw (components, c) in
          subst (AreBased vaddr) (sym same) tt
    ]

-- For a root table at a page boundary: where a walk finds a page, the mapping has a page type, the offset is that of the
-- address in a page of this type, and `virt_base` is the address without the offset.
pub virt_base-components :
    (m : PhysMem) (root vaddr : ℕ) (s s' : m.State) (mapping : Mapping) (base offset entry : ℕ)
    → root % 2 ^ 12 ≡ 0
    → components m root vaddr s ≡ done mapping s'
    → mapping.page ≡ some (base, offset, entry)
    → (size : PageType) × (page_type mapping ≡ some size)
      × (offset ≡ vaddr % size_of size)
      × (virt_base mapping ≡ some (vaddr - offset))
virt_base-components m root vaddr s s' mapping base offset entry aligned found page =
    let b : IsBased vaddr mapping offset =
      subst
        (λ (o : Option (ℕ × ℕ × ℕ)). elim o [
          | none ↦ Unit {0}
          | some (base, offset, entry) ↦ IsBased vaddr mapping offset
        ])
        page (subst (AreBased vaddr) found (components-AreBased m root vaddr s aligned)) in
    (b.size, b.sized, b.offset_of, b.base)
