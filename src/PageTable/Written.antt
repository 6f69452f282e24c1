-- ===== src/PageTable/Written.antt =====
-- The last writes of `map_raw` of shared/page_table/src/lib.rs, and the walk that finds them.
use elise.Base.{
  ℕ, suc, ◌+◌, ◌-◌, ◌*◌, ◌/◌, ◌%◌, ◌≤◌, ◌≡◌, refl, sym, ap, ◌∙◌, arith, true, false, ◌||◌, List, [],
  ◌∷◌, ◌==◌, some, length, inl,
}
use elise.PageTable.{
  Mapping, no_mapping, is_present, is_large, PageType, size_of, shift_of, get_indices,
  canonicalize_address,
}
use elise.PageTable.Walk.{PhysMem, done, table_of, with_page, with_entry, walk, components}
use elise.PageTable.Map.{write_page}
use elise.PageTable.Laws.{IsLawful}
use elise.PageTable.Path.{rev_onto, IsOpen, Trail, Keeps, Trail-IsAt, Trail-Keeps, Trail-Arrives}
use elise.PageTable.Create.{head_of, count_in-IsAtAll, Keeps-then, Keeps-write}

suc_apart : (n : ℕ) → (suc n == 0) ≡ false
suc_apart n = ground arith

module _ (m : PhysMem) (law : IsLawful m) where
  -- The page's entry is written at the end of a trail, and the trail still leads there.
  pub record Written (s : m.State) (root raw e e' : ℕ) (es is : List ℕ) : Type 0 where
    pub after : m.State
    pub writes : write_page m raw (some e', e) s ≡ done tt after
    pub trail : Trail m law after root (e ∷ e' ∷ es) is
    pub keeps : Keeps m law s after e
    pub entry : m.read e after ≡ raw

  write_page-Written :
      (s : m.State) (root raw e e' : ℕ) (es is : List ℕ)
      → Trail m law s root (e ∷ e' ∷ es) is
      → IsOpen m law s e
      → Written s root raw e e' es is
  unfolding write_page
  write_page-Written s root raw e e' es [] t o = absurd t
  write_page-Written s root raw e e' es (i ∷ is) t o =
      let above = Trail-IsAt m law s root e' es is t.2 in
      let c = count_in-IsAtAll m law s (some e') above in
      let k =
        Keeps-then m law (c.keeps e) (Keeps-write m law c.after e e raw (t.0).whole (inl refl)) in
      record {
        after = m.write e raw c.after;
        writes = rw (write_page, c.counts, law.used_translates e s (t.0).used);
        trail = Trail-Keeps m law root e (e' ∷ es) (i ∷ is) k o t;
        keeps = k;
        entry = law.read-write e raw c.after;
      }

  -- A page is mapped at an address.
  pub record IsMapped (s : m.State) (root vaddr : ℕ) (t : PageType) (raw : ℕ) : Type 0 where
    pub mapping : Mapping
    pub finds : components m root vaddr s ≡ done mapping s
    pub page : mapping.page ≡ some (table_of raw / size_of t * size_of t, vaddr % size_of t, raw)

  walk-entry :
      (s : m.State) (depth table vaddr i raw : ℕ) (rest : List ℕ) (ret : Mapping)
      → m.translates (table + i * 8) 8 ≡ true
      → m.read (table + i * 8) s ≡ raw
      → is_present raw ≡ true
      → (depth == 3 || is_large raw) ≡ true
      → walk m (i ∷ rest) depth vaddr table ret s
        ≡ done (with_page depth vaddr raw (with_entry depth (table + i * 8) ret)) s
  unfolding walk
  walk-entry s depth table vaddr i raw rest ret t e p l = rw (walk, t, e, p, l)

  Trail-IsMapped :
      (s : m.State) (root vaddr e i raw : ℕ) (es is rest : List ℕ) (t : PageType)
      → Trail m law s root (e ∷ es) (i ∷ is)
      → rev_onto (i ∷ is) rest ≡ get_indices vaddr
      → (canonicalize_address 16 vaddr == vaddr) ≡ true
      → m.read e s ≡ raw
      → is_present raw ≡ true
      → (length is == 3 || is_large raw) ≡ true
      → length is ≤ 3
      → (length is == 0) ≡ false
      → 39 - 9 * length is ≡ shift_of t
      → IsMapped s root vaddr t raw
  unfolding components
  Trail-IsMapped s root vaddr e i raw es is rest t trail way canonical entry present large n deep
        size =
      let a = Trail-Arrives m law s root vaddr e i es is rest trail n in
      let at = Trail-IsAt m law s root e es (i ∷ is) trail in
      let last =
        walk-entry s (length is) a.table vaddr i raw rest a.ret
          (ap (λ x. m.translates x 8) (sym a.entry) ∙ law.used_translates e s at.used)
          (ap (λ x. m.read x s) (sym a.entry) ∙ entry) present large in
      record {
        mapping = with_page (length is) vaddr raw (with_entry (length is) (a.table + i * 8) a.ret);
        finds =
            rw (components, canonical)
              (ap (λ x. walk m x 0 vaddr root no_mapping s) (sym way) ∙ a.walked ∙ last);
        page = rw (deep, size);
      }

  pub record Finished (s : m.State) (root vaddr raw last : ℕ) (before : List ℕ) (t : PageType)
      : Type 0 where
    pub after : m.State
    pub writes : write_page m raw (head_of before, last) s ≡ done tt after
    pub keeps : Keeps m law s after last
    pub mapped : IsMapped after root vaddr t raw

  pub finish :
      (s : m.State) (root vaddr raw last i j : ℕ) (before is rest : List ℕ) (t : PageType)
      → Trail m law s root (last ∷ before) (i ∷ j ∷ is)
      → IsOpen m law s last
      → rev_onto (i ∷ j ∷ is) rest ≡ get_indices vaddr
      → (canonicalize_address 16 vaddr == vaddr) ≡ true
      → is_present raw ≡ true
      → (length (j ∷ is) == 3 || is_large raw) ≡ true
      → length (j ∷ is) ≤ 3
      → 39 - 9 * length (j ∷ is) ≡ shift_of t
      → Finished s root vaddr raw last before t
  finish s root vaddr raw last i j [] is rest t trail o way canonical present large n size =
      absurd trail
  finish s root vaddr raw last i j (e' ∷ es) is rest t trail o way canonical present large n size =
      let w = write_page-Written s root raw last e' es (i ∷ j ∷ is) trail o in
      record {
        after = w.after;
        writes = w.writes;
        keeps = w.keeps;
        mapped =
            Trail-IsMapped w.after root vaddr last i raw (e' ∷ es) (j ∷ is) rest t w.trail way
              canonical w.entry present large n (suc_apart (length is)) size;
      }
