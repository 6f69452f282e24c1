-- ===== src/PageTable/Mapped.antt =====
-- `map_raw` of shared/page_table/src/lib.rs, and the walk that follows it.
use elise.Base.{
  ℕ, zero, suc, ◌+◌, ◌*◌, ◌/◌, ◌%◌, ◌^◌, ◌≤◌, ◌<◌, ◌≡◌, refl, sym, ap, ◌∙◌, subst, arith, true,
  false, ◌&&◌, ◌||◌, not, List, [], ◌∷◌, ◌++◌, ◌==◌, ==_iff, none, ◌⊎◌, inl, inr,
}
use elise.PageTable.{
  no_mapping, is_present, is_large, is_4k, is_some, PageType, page_4k, page_2m, page_1g,
  get_indices, canonicalize_address,
}
use elise.PageTable.Walk.{PhysMem, done, walk, components}
use elise.PageTable.Map.{write_mapping, map_raw, entries_to, entry_below}
use elise.PageTable.Laws.{IsLawful}
use elise.PageTable.Path.{IsOpen, Keeps}
use elise.PageTable.Create.{Keeps-then, Keeps-both}
use elise.PageTable.Tables.{Reached, create_tables-AreLinked}
use elise.PageTable.Finds.{entry_at, entries_from, IsUnmapped, Found, walk-Found}
use elise.PageTable.Written.{IsMapped, Finished, finish}

-- The indices that lead to a page of a type.
abbrev pub way_to : PageType → ℕ → List ℕ
way_to page_4k vaddr =
    vaddr / 2 ^ 39 % 2 ^ 9
    ∷ vaddr / 2 ^ 30 % 2 ^ 9
    ∷ vaddr / 2 ^ 21 % 2 ^ 9
    ∷ vaddr / 2 ^ 12 % 2 ^ 9
    ∷ []
way_to page_2m vaddr = vaddr / 2 ^ 39 % 2 ^ 9 ∷ vaddr / 2 ^ 30 % 2 ^ 9 ∷ vaddr / 2 ^ 21 % 2 ^ 9 ∷ []
way_to page_1g vaddr = vaddr / 2 ^ 39 % 2 ^ 9 ∷ vaddr / 2 ^ 30 % 2 ^ 9 ∷ []

no_mapping-empty : (k : ℕ) → entry_at k no_mapping ≡ none
no_mapping-empty zero = refl
no_mapping-empty (suc zero) = refl
no_mapping-empty (suc (suc zero)) = refl
no_mapping-empty (suc (suc (suc k))) = refl

index_small : (vaddr k : ℕ) → vaddr / 2 ^ k % 2 ^ 9 < 2 ^ 9
index_small vaddr k = omega arith

module _ (m : PhysMem) (law : IsLawful m) where
  pub record Maps (s : m.State) (root vaddr : ℕ) (t : PageType) (raw : ℕ) : Type 0 where
    pub after : m.State
    pub maps : map_raw m root vaddr t raw s ≡ done tt after
    pub mapped : IsMapped m law after root vaddr t raw
    pub hole : ℕ
    pub hole_open : IsOpen m law s hole
    pub keeps : Keeps m law s after hole

  write_mapping-Finished :
      (s : m.State) (root hole vaddr raw i : ℕ) (is rest : List ℕ) (t : PageType)
      (f : Found m law s 0 root i is rest vaddr no_mapping)
      (r : Reached m law s root hole (root + i * 8) [] (i ∷ []) (entries_from 1 f.mapping is))
      → entries_to t f.mapping (get_indices vaddr) ≡ entries_from 1 f.mapping is
      → (w : Finished m law r.after root vaddr raw r.last r.before t)
      → write_mapping m vaddr t raw f.mapping s ≡ done tt w.after
  unfolding write_mapping
  write_mapping-Finished s root hole vaddr raw i is rest t f r e w =
      rw (write_mapping, f.first, e, r.creates) w.writes

  -- The entry of the page is the hole, or stands in a page that was not in use.
  Keeps-last :
      (s s' s'' : m.State) (hole last : ℕ)
      → Keeps m law s s' hole
      → Keeps m law s' s'' last
      → (last ≡ hole) ⊎ (law.IsUsed s (last / 2 ^ 12) → ⊥)
      → Keeps m law s s'' hole
  Keeps-last s s' s'' hole last k l (inl same) =
      Keeps-then m law k (subst (λ (h : ℕ). Keeps m law s' s'' h) same l)
  Keeps-last s s' s'' hole last k l (inr free) =
      Keeps-both m law k l (λ a at same. free (subst (λ x. law.IsUsed s (x / 2 ^ 12)) same at.used))

  maps_with :
      (s : m.State) (root hole vaddr raw i : ℕ) (is rest : List ℕ) (t : PageType)
      (f : Found m law s 0 root i is rest vaddr no_mapping)
      (r : Reached m law s root hole (root + i * 8) [] (i ∷ []) (entries_from 1 f.mapping is))
      → entries_to t f.mapping (get_indices vaddr) ≡ entries_from 1 f.mapping is
      → entry_below t f.mapping ≡ none
      → i ∷ is ++ rest ≡ get_indices vaddr
      → (canonicalize_address 16 vaddr == vaddr) ≡ true
      → (not (is_present raw) || (not (is_4k t) && not (is_large raw))) ≡ false
      → Finished m law r.after root vaddr raw r.last r.before t
      → Maps s root vaddr t raw
  unfolding map_raw components
  maps_with s root hole vaddr raw i is rest t f r e below all canonical valid w =
      let found : components m root vaddr s ≡ done f.mapping s =
        rw (components, canonical)
          (ap (λ x. walk m x 0 vaddr root no_mapping s) (sym all) ∙ f.walked) in
      let no_page : is_some f.mapping.page ≡ false = ap is_some f.no_page in
      let nothing_below : is_some (entry_below t f.mapping) ≡ false = ap is_some below in
      record {
        after = w.after;
        maps =
            rw (map_raw, valid, found, no_page, nothing_below)
              (write_mapping-Finished s root hole vaddr raw i is rest t f r e w);
        mapped = w.mapped;
        hole = hole;
        hole_open = r.hole_open;
        keeps = Keeps-last s r.after w.after hole r.last r.keeps w.keeps r.last_new;
      }

  -- Over any lawful memory: for a canonical address, an entry that is present, and large where the page is not of
  -- 4 KiB, where the way to the page ends at an entry that is not present, in tables that are in use, and
  -- three pages can still be allocated, `map_raw` returns Ok, and a walk from then on finds at the address the page that
  -- the entry names, with the offset of the address in it and the entry. What was in use stays in use, and
  -- keeps the low 52 bits of its aligned words except at one entry, which was not present.
  pub map_raw-IsMapped :
      (s : m.State) (root vaddr : ℕ) (t : PageType) (raw : ℕ)
      → canonicalize_address 16 vaddr ≡ vaddr
      → is_present raw ≡ true
      → (is_4k t || is_large raw) ≡ true
      → IsUnmapped m law s root (way_to t vaddr)
      → 3 ≤ law.room s
      → Maps s root vaddr t raw
  map_raw-IsMapped s root vaddr page_4k raw canonical present large un r =
      let i = vaddr / 2 ^ 39 % 2 ^ 9 in
      let is : List ℕ =
        vaddr / 2 ^ 30 % 2 ^ 9 ∷ vaddr / 2 ^ 21 % 2 ^ 9 ∷ vaddr / 2 ^ 12 % 2 ^ 9 ∷ [] in
      let c = (==_iff (canonicalize_address 16 vaddr) vaddr).1 canonical in
      let f =
        walk-Found m law s 0 root i is [] vaddr no_mapping un
          (index_small vaddr 30, (index_small vaddr 21, (index_small vaddr 12, tt))) (omega arith)
          (λ k p q. no_mapping-empty k) in
      let created =
        create_tables-AreLinked m law s root (root + i * 8) [] (i ∷ [])
          (entries_from 1 f.mapping is) (un.0, refl) f.later r in
      let reached = created.1 in
      maps_with s root created.0 vaddr raw i is [] page_4k f reached refl refl refl c (rw present) (
        finish m law reached.after root vaddr raw reached.last _ _ reached.before _ [] page_4k
          reached.trail reached.opens refl c present refl (omega arith) refl)
  map_raw-IsMapped s root vaddr page_2m raw canonical present large un r =
      let i = vaddr / 2 ^ 39 % 2 ^ 9 in
      let is : List ℕ = vaddr / 2 ^ 30 % 2 ^ 9 ∷ vaddr / 2 ^ 21 % 2 ^ 9 ∷ [] in
      let rest : List ℕ = vaddr / 2 ^ 12 % 2 ^ 9 ∷ [] in
      let c = (==_iff (canonicalize_address 16 vaddr) vaddr).1 canonical in
      let f =
        walk-Found m law s 0 root i is rest vaddr no_mapping un
          (index_small vaddr 30, (index_small vaddr 21, tt)) (omega arith)
          (λ k p q. no_mapping-empty k) in
      let created =
        create_tables-AreLinked m law s root (root + i * 8) [] (i ∷ [])
          (entries_from 1 f.mapping is) (un.0, refl) f.later (omega arith) in
      let reached = created.1 in
      maps_with s root created.0 vaddr raw i is rest page_2m f reached refl
        (f.beyond 3 (omega arith) (omega arith)) refl c (rw (present, large))
        (finish m law reached.after root vaddr raw reached.last _ _ reached.before _ rest page_2m
          reached.trail reached.opens refl c present large (omega arith) refl)
  map_raw-IsMapped s root vaddr page_1g raw canonical present large un r =
      let i = vaddr / 2 ^ 39 % 2 ^ 9 in
      let is : List ℕ = vaddr / 2 ^ 30 % 2 ^ 9 ∷ [] in
      let rest : List ℕ = vaddr / 2 ^ 21 % 2 ^ 9 ∷ vaddr / 2 ^ 12 % 2 ^ 9 ∷ [] in
      let c = (==_iff (canonicalize_address 16 vaddr) vaddr).1 canonical in
      let f =
        walk-Found m law s 0 root i is rest vaddr no_mapping un (index_small vaddr 30, tt)
          (omega arith) (λ k p q. no_mapping-empty k) in
      let created =
        create_tables-AreLinked m law s root (root + i * 8) [] (i ∷ [])
          (entries_from 1 f.mapping is) (un.0, refl) f.later (omega arith) in
      let reached = created.1 in
      maps_with s root created.0 vaddr raw i is rest page_1g f reached refl
        (f.beyond 2 (omega arith) (omega arith)) refl c (rw (present, large))
        (finish m law reached.after root vaddr raw reached.last _ _ reached.before _ rest page_1g
          reached.trail reached.opens refl c present large (omega arith) refl)
