-- ===== src/PageTable/Frame.antt =====
-- The walks of shared/page_table/src/lib.rs that a mapping elsewhere does not change.
use elise.Base.{
  ℕ, zero, suc, ◌+◌, ◌*◌, ◌≤◌, ◌≡◌, ◌≢◌, refl, sym, ap, ◌∙◌, subst, true, false, Bool, ◌||◌, List,
  [], ◌∷◌, ◌==◌, Option, none, some, Bool-cases, inl, inr,
}
use elise.PageTable.{
  PageType, is_4k, canonicalize_address, Mapping, no_mapping, is_present, is_large, get_indices,
  Error, address_not_canonical,
}
use elise.PageTable.Walk.{PhysMem, done, fail, table_of, with_entry, with_page, walk, components}
use elise.PageTable.Laws.{IsLawful}
use elise.PageTable.Entries.{is_present-low, is_large-low, table_of-low}
use elise.PageTable.Map.{map_raw}
use elise.PageTable.Finds.{IsUnmapped}
use elise.PageTable.Mapped.{way_to, map_raw-IsMapped}
use elise.PageTable.Path.{IsAt, IsOpen, Keeps}

-- The base of the page and the offset into it.
abbrev pub place_of : Mapping → Option (ℕ × ℕ)
place_of m = elim (m.page) [ none ↦ none | some (base, off, _) ↦ some (base, off) ]

module _ (m : PhysMem) (law : IsLawful m) where
  -- The entries that a walk reads lie in pages that are in use.
  abbrev pub IsInUse : m.State → ℕ → List ℕ → Type 0
  IsInUse s table [] = Unit {0}
  IsInUse s table (i ∷ is) =
      IsAt m law s (table + i * 8)
      × (is_present (m.read (table + i * 8) s) ≡ true
          → is_large (m.read (table + i * 8) s) ≡ false
          → IsInUse s (table_of (m.read (table + i * 8) s)) is)

  -- A walk in the state `s` that finds a page finds it at the same place in the state `s'`.
  pub record Stays (s s' : m.State) (is : List ℕ) (depth vaddr table : ℕ) (ret : Mapping)
      (place : ℕ × ℕ) : Type 0 where
    pub mapping : Mapping
    pub walked : walk m is depth vaddr table ret s' ≡ done mapping s'
    pub same : place_of mapping ≡ some place

  done-same : {A : Type 0} (a b : A) (s : m.State) → done a s ≡ done b s → a ≡ b
  done-same a b s h = cc

  place_of-with_entry :
      (depth e : ℕ) (ret : Mapping) → place_of (with_entry depth e ret) ≡ place_of ret
  place_of-with_entry zero e ret = refl
  place_of-with_entry (suc zero) e ret = refl
  place_of-with_entry (suc (suc zero)) e ret = refl
  place_of-with_entry (suc (suc (suc d))) e ret = refl

  place_of-with_page :
      (depth vaddr ent ent' : ℕ) (ret : Mapping)
      → table_of ent ≡ table_of ent'
      → place_of (with_page depth vaddr ent ret) ≡ place_of (with_page depth vaddr ent' ret)
  place_of-with_page depth vaddr ent ent' ret h = elim (Bool-cases (depth == 0)) [
    | inl e ↦ rw e
    | inr e ↦ rw (e, h)
  ]

  none_apart : {A : Type 0} (o o' : Option A) (a : A) → o ≡ none → o' ≡ some a → o' ≡ o → ⊥
  none_apart o o' a p q r = cc

  -- The entry has the same low bits in both states.
  record Entry (s s' : m.State) (e : ℕ) : Type 0 where
    pub here : m.translates e 8 ≡ true
    pub present : is_present (m.read e s') ≡ true
    pub large : is_large (m.read e s') ≡ is_large (m.read e s)
    pub next : table_of (m.read e s') ≡ table_of (m.read e s)

  present-Entry :
      (s s' : m.State) (hole e : ℕ)
      → Keeps m law s s' hole
      → IsOpen m law s hole
      → IsAt m law s e
      → is_present (m.read e s) ≡ true
      → Entry s s' e
  present-Entry s s' hole e k o at p =
      let other : e ≢ hole =
        λ same. true_apart (sym p ∙ ap (λ x. is_present (m.read x s)) same ∙ o) in
      let low = k.lows e at other in
      record {
        here = law.used_translates e s at.used;
        present = is_present-low _ _ low ∙ p;
        large = is_large-low _ _ low;
        next = table_of-low _ _ low;
      }
    where
      true_apart : true ≡ false → ⊥
      true_apart h = cc

  walk_on :
      (s s' : m.State) (hole i : ℕ) (is : List ℕ) (depth vaddr table : ℕ) (ret mapping : Mapping)
      (place : ℕ × ℕ)
      → Keeps m law s s' hole
      → IsOpen m law s hole
      → IsInUse s table (i ∷ is)
      → place_of ret ≡ none
      → is_present (m.read (table + i * 8) s) ≡ true
      → walk m (i ∷ is) depth vaddr table ret s ≡ done mapping s
      → place_of mapping ≡ some place
      → (is_large (m.read (table + i * 8) s) ≡ false
          → walk m is
              (depth + 1)
              vaddr
              (table_of (m.read (table + i * 8) s))
              (with_entry depth (table + i * 8) ret)
              s
            ≡ done mapping s
          → Stays s s' is
              (depth + 1)
              vaddr
              (table_of (m.read (table + i * 8) s))
              (with_entry depth (table + i * 8) ret)
              place)
      → (o : Bool) → (depth == 3 || is_large (m.read (table + i * 8) s)) ≡ o
      → Stays s s' (i ∷ is) depth vaddr table ret place
  unfolding walk
  walk_on s s' hole i is depth vaddr table ret mapping place k o u clear p h found rest true e =
      let n = present-Entry s s' hole (table + i * 8) k o u.0 p in
      let ret' = with_entry depth (table + i * 8) ret in
      let ends =
        done-same (with_page depth vaddr (m.read (table + i * 8) s) ret') mapping s
          (sym (rw (walk, n.here, p, e)) ∙ h) in
      record {
        mapping = with_page depth vaddr (m.read (table + i * 8) s') ret';
        walked = rw (walk, n.here, n.present, n.large, e);
        same =
            place_of-with_page depth vaddr _ (m.read (table + i * 8) s) ret' n.next
            ∙ ap place_of ends
            ∙ found;
      }
  walk_on s s' hole i is depth vaddr table ret mapping place k o u clear p h found rest false e =
      let n = present-Entry s s' hole (table + i * 8) k o u.0 p in
      let ret' = with_entry depth (table + i * 8) ret in
      let l : is_large (m.read (table + i * 8) s) ≡ false = or_false (depth == 3) _ e in
      let later = rest l (sym (rw (walk, n.here, p, e)) ∙ h) in
      record {
        mapping = later.mapping;
        walked = rw (walk, n.here, n.present, n.large, e, n.next) later.walked;
        same = later.same;
      }
    where
      or_false : (a b : Bool) → (a || b) ≡ false → b ≡ false
      or_false true b h = absurd (cc)
      or_false false b h = h

  walk-Stays :
      (s s' : m.State) (hole : ℕ) (is : List ℕ) (depth vaddr table : ℕ) (ret mapping : Mapping)
      (place : ℕ × ℕ)
      → Keeps m law s s' hole
      → IsOpen m law s hole
      → IsInUse s table is
      → place_of ret ≡ none
      → walk m is depth vaddr table ret s ≡ done mapping s
      → place_of mapping ≡ some place
      → Stays s s' is depth vaddr table ret place
  unfolding walk
  walk-Stays s s' hole [] depth vaddr table ret mapping place k o u clear h found = absurd (
      none_apart (place_of ret) (place_of mapping) place clear found
        (ap place_of (sym (done-same ret mapping s h))))
  walk-Stays s s' hole (i ∷ is) depth vaddr table ret mapping place k o u clear h found =
      elim (Bool-cases (is_present (m.read (table + i * 8) s))) [
        | inl p ↦
            walk_on s s' hole i is depth vaddr table ret mapping place k o u clear p h found
              (λ l g.
                walk-Stays s s' hole is (depth + 1) vaddr (table_of (m.read (table + i * 8) s))
                  (with_entry depth (table + i * 8) ret) mapping place k o (u.1 p l)
                  (place_of-with_entry depth (table + i * 8) ret ∙ clear) g found)
              _ refl
        | inr p ↦
            let here = law.used_translates (table + i * 8) s (u.0).used in
            let ends =
              done-same (with_entry depth (table + i * 8) ret) mapping s
                (sym (rw (walk, here, p)) ∙ h) in
            absurd (
              none_apart (place_of ret) (place_of mapping) place clear found
                (ap place_of (sym ends) ∙ place_of-with_entry depth (table + i * 8) ret))
      ]

  -- A page is mapped at an address: its base and the offset into it are known.
  pub record IsPlaced (s : m.State) (root vaddr : ℕ) (place : ℕ × ℕ) : Type 0 where
    pub mapping : Mapping
    pub finds : components m root vaddr s ≡ done mapping s
    pub same : place_of mapping ≡ some place

  components-Stays :
      (s s' : m.State) (hole root vaddr : ℕ) (place : ℕ × ℕ)
      → Keeps m law s s' hole
      → IsOpen m law s hole
      → IsInUse s root (get_indices vaddr)
      → IsPlaced s root vaddr place
      → (o : Bool) → (canonicalize_address 16 vaddr == vaddr) ≡ o
      → IsPlaced s' root vaddr place
  unfolding components
  components-Stays s s' hole root vaddr place k o u placed false e = absurd (
      fail_apart address_not_canonical s placed.mapping s (sym (rw (components, e)) ∙ placed.finds))
    where
      fail_apart :
          {A : Type 0} (x : Error) (s : m.State) (a : A) (s' : m.State) → fail x s ≡ done a s' → ⊥
      fail_apart x s a s' h = cc
  components-Stays s s' hole root vaddr place k o u placed true e =
      let stays =
        walk-Stays s s' hole (get_indices vaddr) 0 vaddr root no_mapping placed.mapping place k o u
          refl (sym (rw (components, e)) ∙ placed.finds) placed.same in
      record { mapping = stays.mapping; finds = rw (components, e) stays.walked; same = stays.same }

  -- Over any lawful memory, under the conditions of a mapping that succeeds (a canonical address, an entry that is
  -- present, and large where the page is not of 4 KiB, a way that ends at an entry that is not present in tables that
  -- are in use, room for three pages): every other address at which a walk finds a page through tables that are in use
  -- is found at the same page and offset in the state that `map_raw` returns.
  pub map_raw-IsPlaced :
      (s after : m.State) (root vaddr vaddr' : ℕ) (t : PageType) (raw : ℕ) (place : ℕ × ℕ)
      → canonicalize_address 16 vaddr ≡ vaddr
      → is_present raw ≡ true
      → (is_4k t || is_large raw) ≡ true
      → IsUnmapped m law s root (way_to t vaddr)
      → 3 ≤ law.room s
      → map_raw m root vaddr t raw s ≡ done tt after
      → IsInUse s root (get_indices vaddr')
      → IsPlaced s root vaddr' place
      → IsPlaced after root vaddr' place
  map_raw-IsPlaced s after root vaddr vaddr' t raw place canonical present large un r h u placed =
      let maps = map_raw-IsMapped m law s root vaddr t raw canonical present large un r in
      subst (λ x. IsPlaced x root vaddr' place)
        (after_same tt tt maps.after after (sym maps.maps ∙ h))
        (components-Stays s maps.after maps.hole root vaddr' place maps.keeps maps.hole_open u
          placed _ refl)
    where
      after_same : {A : Type 0} (a b : A) (s s' : m.State) → done a s ≡ done b s' → s ≡ s'
      after_same a b s s' h = cc
