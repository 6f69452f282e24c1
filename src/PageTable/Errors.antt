-- ===== src/PageTable/Errors.antt =====
-- The errors of `map_raw` of shared/page_table/src/lib.rs.
use elise.Base.{
  ℕ, ◌+◌, ◌*◌, ◌^◌, ◌≡◌, ◌≢◌, refl, sym, ap, ◌∙◌, subst, true, false, Bool, ◌&&◌, ◌||◌, not, List,
  [], ◌∷◌, ◌==◌, ==_iff, if◌then◌else◌, Option, none, some, Bool-cases, ◌⊎◌, inl, inr,
}
use elise.PageTable.{
  Error, invalid_page, mapped_already, smaller_pages_present, address_not_canonical,
  address_unaligned, PageType, is_4k, Mapping, no_mapping, is_some, is_present, is_large,
  get_indices, canonicalize_address,
}
use elise.PageTable.Walk.{
  PhysMem, Outcome, done, fail, panics, table_of, with_entry, walk, components,
}
use elise.PageTable.Map.{
  entries_to, entry_below, table_entry, alloc_phys_zeroed, count_in, create_table, create_tables,
  write_page, write_mapping, map_raw,
}

-- The code returns no error.
abbrev IsSure : {S A : Type 0} → Outcome S A → Type 0
IsSure (fail _ _) = ⊥
IsSure _ = Unit {0}

-- It returns no error, and the state stays.
abbrev IsPure : {S A : Type 0} → S → Outcome S A → Type 0
IsPure s (fail _ _) = ⊥
IsPure s (done _ s') = s' ≡ s
IsPure s panics = Unit {0}

IsSure-fail : {S A : Type 0} (o : Outcome S A) (e : Error) (s : S) → IsSure o → o ≡ fail e s → ⊥
IsSure-fail (fail e' s') e s h p = h
IsSure-fail (done a s') e s h p = cc
IsSure-fail panics e s h p = cc

module _ (m : PhysMem) where
  count_in-IsSure : (o : Option ℕ) (s : m.State) → IsSure (count_in m o s)
  unfolding count_in
  count_in-IsSure none s = tt
  count_in-IsSure (some above) s = elim (Bool-cases (m.translates above 8)) [
    | inl e ↦ rw e tt
    | inr e ↦ rw e tt
  ]

  and_then-IsSure :
      {A B : Type 0} (o : Outcome m.State A) (f : A → m.State → Outcome m.State B)
      → IsSure o
      → ((a : A) (s : m.State) → IsSure (f a s))
      → IsSure (elim o [ done a s ↦ f a s | fail e s ↦ fail e s | panics ↦ panics ])
  and_then-IsSure (done a s) f h g = g a s
  and_then-IsSure (fail e s) f h g = h
  and_then-IsSure panics f h g = tt

  if-IsSure :
      {A : Type 0} (b : Bool) (o : Outcome m.State A) → IsSure o → IsSure (if b then o else panics)
  if-IsSure true o h = h
  if-IsSure false o h = tt

  match-IsSure :
      {A B : Type 0} (o : Option A) (f : A → Outcome m.State B)
      → ((a : A) → IsSure (f a))
      → IsSure (elim o [ none ↦ panics | some a ↦ f a ])
  match-IsSure none f h = tt
  match-IsSure (some a) f h = h a

  create_table-IsSure :
      (above : Option ℕ) (ptr : ℕ) (s : m.State) → IsSure (create_table m above ptr s)
  unfolding create_table
  create_table-IsSure above ptr s = match-IsSure (alloc_phys_zeroed m (2 ^ 12) (2 ^ 12) s) _ (λ new.
      if-IsSure (m.translates ptr 8) _ (
        and_then-IsSure (count_in m above new.1)
          (λ _ s'. done new.0 (m.write ptr (table_entry new.0) s')) (count_in-IsSure above new.1)
          (λ _ _. tt)))

  create_tables-IsSure :
      (rest : List (Option ℕ × ℕ)) (above : Option ℕ) (ptr : ℕ) (s : m.State)
      → IsSure (create_tables m rest above ptr s)
  unfolding create_tables
  create_tables-IsSure [] above ptr s = tt
  create_tables-IsSure ((some entry, i) ∷ rest) above ptr s =
      create_tables-IsSure rest (some ptr) entry s
  create_tables-IsSure ((none, i) ∷ rest) above ptr s =
      and_then-IsSure (create_table m above ptr s)
        (λ table s'. create_tables m rest (some ptr) (table + i * 8) s')
        (create_table-IsSure above ptr s)
        (λ table s'. create_tables-IsSure rest (some ptr) (table + i * 8) s')

  write_page-IsSure :
      (raw : ℕ) (last : Option ℕ × ℕ) (s : m.State) → IsSure (write_page m raw last s)
  unfolding write_page
  write_page-IsSure raw (none, ptr) s = tt
  write_page-IsSure raw (some above, ptr) s =
      and_then-IsSure (count_in m (some above) s)
        (λ _ s'. if m.translates ptr 8 then done tt (m.write ptr raw s') else panics)
        (count_in-IsSure (some above) s) (λ _ s'. if-IsSure (m.translates ptr 8) _ tt)

  write_mapping-IsSure :
      (vaddr : ℕ) (t : PageType) (raw : ℕ) (mapping : Mapping) (s : m.State)
      → IsSure (write_mapping m vaddr t raw mapping s)
  unfolding write_mapping
  write_mapping-IsSure vaddr t raw mapping s = match-IsSure mapping.pml4e _ (λ pml4e.
      and_then-IsSure (create_tables m (entries_to t mapping (get_indices vaddr)) none pml4e s)
        (λ last s'. write_page m raw last s')
        (create_tables-IsSure (entries_to t mapping (get_indices vaddr)) none pml4e s)
        (λ last s'. write_page-IsSure raw last s'))

  walk-IsPure :
      (is : List ℕ) (depth vaddr table : ℕ) (ret : Mapping) (s : m.State)
      → IsPure s (walk m is depth vaddr table ret s)
  unfolding walk
  walk-IsPure [] depth vaddr table ret s = refl
  walk-IsPure (i ∷ is) depth vaddr table ret s =
      if-IsPure s (m.translates (table + i * 8) 8) _ _
        (if-IsPure s (is_present (m.read (table + i * 8) s)) _ _
          (if-IsPure s (depth == 3 || is_large (m.read (table + i * 8) s)) _ _ refl (
            walk-IsPure is (depth + 1) vaddr (table_of (m.read (table + i * 8) s))
              (with_entry depth (table + i * 8) ret) s))
          refl)
        tt
    where
      if-IsPure :
          {A : Type 0} (s : m.State) (b : Bool) (o o' : Outcome m.State A)
          → IsPure s o
          → IsPure s o'
          → IsPure s (if b then o else o')
      if-IsPure s true o o' h h' = h
      if-IsPure s false o o' h h' = h'

  -- Why `map_raw` returns an error.
  abbrev pub IsReason : Error → m.State → ℕ → ℕ → PageType → ℕ → Type 0
  IsReason invalid_page s root vaddr t raw =
      (is_present raw ≡ false) ⊎ ((is_4k t || is_large raw) ≡ false)
  IsReason address_not_canonical s root vaddr t raw = canonicalize_address 16 vaddr ≢ vaddr
  IsReason mapped_already s root vaddr t raw =
      (mapping : Mapping) × (components m root vaddr s ≡ done mapping s)
      × (is_some mapping.page ≡ true)
  IsReason smaller_pages_present s root vaddr t raw =
      (mapping : Mapping) × (components m root vaddr s ≡ done mapping s)
      × (is_some mapping.page ≡ false)
      × (is_some (entry_below t mapping) ≡ true)
  IsReason address_unaligned s root vaddr t raw = ⊥

  -- An error is returned for its reason, from the state of the call.
  abbrev Says : m.State → ℕ → ℕ → PageType → ℕ → Outcome m.State (Unit {0}) → Type 0
  Says s root vaddr t raw (fail e s') = (s' ≡ s) × IsReason e s root vaddr t raw
  Says s root vaddr t raw _ = Unit {0}

  IsSure-Says :
      (s : m.State) (root vaddr : ℕ) (t : PageType) (raw : ℕ) (o : Outcome m.State (Unit {0}))
      → IsSure o
      → Says s root vaddr t raw o
  IsSure-Says s root vaddr t raw (done _ _) h = tt
  IsSure-Says s root vaddr t raw (fail _ _) h = absurd h
  IsSure-Says s root vaddr t raw panics h = tt

  mapped-Says :
      (s : m.State) (root vaddr : ℕ) (t : PageType) (raw : ℕ) (mapping : Mapping)
      → (not (is_present raw) || (not (is_4k t) && not (is_large raw))) ≡ false
      → components m root vaddr s ≡ done mapping s
      → Says s root vaddr t raw (map_raw m root vaddr t raw s)
  unfolding map_raw
  mapped-Says s root vaddr t raw mapping valid c = elim (Bool-cases (is_some mapping.page)) [
    | inl p ↦
        let eq : map_raw m root vaddr t raw s ≡ fail mapped_already s = rw (map_raw, valid, c, p) in
        subst (Says s root vaddr t raw) (sym eq) (refl, (mapping, c, p))
    | inr p ↦ elim (Bool-cases (is_some (entry_below t mapping))) [
      | inl q ↦
          let eq : map_raw m root vaddr t raw s ≡ fail smaller_pages_present s =
            rw (map_raw, valid, c, p, q) in
          subst (Says s root vaddr t raw) (sym eq) (refl, (mapping, c, p, q))
      | inr q ↦
          let eq : map_raw m root vaddr t raw s ≡ write_mapping m vaddr t raw mapping s =
            rw (map_raw, valid, c, p, q) in
          subst (Says s root vaddr t raw) (sym eq)
            (IsSure-Says s root vaddr t raw _ (write_mapping-IsSure vaddr t raw mapping s))
    ]
  ]

  walked-Says :
      (s : m.State) (root vaddr : ℕ) (t : PageType) (raw : ℕ) (o : Outcome m.State Mapping)
      → (not (is_present raw) || (not (is_4k t) && not (is_large raw))) ≡ false
      → components m root vaddr s ≡ o
      → IsPure s o
      → Says s root vaddr t raw (map_raw m root vaddr t raw s)
  unfolding map_raw
  walked-Says s root vaddr t raw (done mapping s') valid c h =
      mapped-Says s root vaddr t raw mapping valid (c ∙ ap (done mapping) h)
  walked-Says s root vaddr t raw (fail _ _) valid c h = absurd h
  walked-Says s root vaddr t raw panics valid c h =
      let eq : map_raw m root vaddr t raw s ≡ panics = rw (map_raw, valid, c) in
      subst (Says s root vaddr t raw) (sym eq) tt

  invalid-cases :
      (t : PageType) (raw : ℕ)
      → (not (is_present raw) || (not (is_4k t) && not (is_large raw))) ≡ true
      → (is_present raw ≡ false) ⊎ ((is_4k t || is_large raw) ≡ false)
  invalid-cases t raw h = go (is_present raw) (is_4k t) (is_large raw) h
    where
      go : (a b c : Bool) → (not a || (not b && not c)) ≡ true → (a ≡ false) ⊎ ((b || c) ≡ false)
      go false b c h = inl refl
      go true false false h = inr refl
      go true false true h = absurd (cc)
      go true true c h = absurd (cc)

  map_raw-Says :
      (s : m.State) (root vaddr : ℕ) (t : PageType) (raw : ℕ)
      → Says s root vaddr t raw (map_raw m root vaddr t raw s)
  unfolding map_raw components
  map_raw-Says s root vaddr t raw =
      elim (Bool-cases (not (is_present raw) || (not (is_4k t) && not (is_large raw)))) [
        | inl e ↦
            let eq : map_raw m root vaddr t raw s ≡ fail invalid_page s = rw (map_raw, e) in
            subst (Says s root vaddr t raw) (sym eq) (refl, invalid-cases t raw e)
        | inr valid ↦ elim (Bool-cases (canonicalize_address 16 vaddr == vaddr)) [
          | inl c ↦
              walked-Says s root vaddr t raw (walk m (get_indices vaddr) 0 vaddr root no_mapping s)
                valid (rw (components, c))
                (walk-IsPure (get_indices vaddr) 0 vaddr root no_mapping s)
          | inr c ↦
              let eq : map_raw m root vaddr t raw s ≡ fail address_not_canonical s =
                rw (map_raw, components, valid, c) in
              subst (Says s root vaddr t raw) (sym eq)
                (refl, λ same. cc ((==_iff (canonicalize_address 16 vaddr) vaddr).1 same, c))
        ]
      ]

  -- Whenever `map_raw` returns an error, the memory is as before the call, and the error has its reason: an invalid page is
  -- not present or lacks the large bit, a non-canonical address is none, an address mapped already has a
  -- page in its walk, and for smaller pages the walk has no page and an entry behind the page's own.
  pub map_raw-IsReason :
      (s s' : m.State) (root vaddr : ℕ) (t : PageType) (raw : ℕ) (e : Error)
      → map_raw m root vaddr t raw s ≡ fail e s'
      → (s' ≡ s) × IsReason e s root vaddr t raw
  map_raw-IsReason s s' root vaddr t raw e h =
      subst (Says s root vaddr t raw) h (map_raw-Says s root vaddr t raw)
