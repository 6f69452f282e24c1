-- ===== src/PageTable/Finds.antt =====
-- What `components` of shared/page_table/src/lib.rs finds where no page is mapped.
use elise.Base.{
  ℕ, zero, suc, ◌+◌, ◌*◌, ◌^◌, ◌≤◌, ◌<◌, ◌≡◌, ◌≢◌, refl, sym, ◌∙◌, subst, arith, true, false, List,
  [], ◌∷◌, ◌++◌, ◌==◌, Option, none, some, length, ◌⊎◌, inl, inr,
}
use elise.PageTable.{Mapping, is_present, is_large}
use elise.PageTable.Walk.{PhysMem, done, table_of, with_entry, walk}
use elise.PageTable.Laws.{IsLawful}
use elise.PageTable.Path.{IsAt, IsOpen}
use elise.PageTable.Tables.{AreNew, AreLinked}

-- The entry of a mapping by its depth.
abbrev pub entry_at : ℕ → Mapping → Option ℕ
entry_at zero m = m.pml4e
entry_at (suc zero) m = m.pdpe
entry_at (suc (suc zero)) m = m.pde
entry_at (suc (suc (suc _))) m = m.pte

-- The entries of a mapping from a depth on, each with its index.
abbrev pub entries_from : ℕ → Mapping → List ℕ → List (Option ℕ × ℕ)
entries_from depth m [] = []
entries_from depth m (i ∷ is) = (entry_at depth m, i) ∷ entries_from (suc depth) m is

entry_at-with_entry :
    (depth e : ℕ) (ret : Mapping) → entry_at depth (with_entry depth e ret) ≡ some e
entry_at-with_entry zero e ret = refl
entry_at-with_entry (suc zero) e ret = refl
entry_at-with_entry (suc (suc zero)) e ret = refl
entry_at-with_entry (suc (suc (suc d))) e ret = refl

entry_at-with_entry_other :
    (k depth e : ℕ) (ret : Mapping)
    → k ≤ 3
    → depth ≤ 3
    → k ≢ depth
    → entry_at k (with_entry depth e ret) ≡ entry_at k ret
entry_at-with_entry_other zero zero e ret p q n = absurd (n refl)
entry_at-with_entry_other zero (suc zero) e ret p q n = refl
entry_at-with_entry_other zero (suc (suc zero)) e ret p q n = refl
entry_at-with_entry_other zero (suc (suc (suc d))) e ret p q n = refl
entry_at-with_entry_other (suc zero) zero e ret p q n = refl
entry_at-with_entry_other (suc zero) (suc zero) e ret p q n = absurd (n refl)
entry_at-with_entry_other (suc zero) (suc (suc zero)) e ret p q n = refl
entry_at-with_entry_other (suc zero) (suc (suc (suc d))) e ret p q n = refl
entry_at-with_entry_other (suc (suc zero)) zero e ret p q n = refl
entry_at-with_entry_other (suc (suc zero)) (suc zero) e ret p q n = refl
entry_at-with_entry_other (suc (suc zero)) (suc (suc zero)) e ret p q n = absurd (n refl)
entry_at-with_entry_other (suc (suc zero)) (suc (suc (suc d))) e ret p q n = refl
entry_at-with_entry_other (suc (suc (suc k))) zero e ret p q n = refl
entry_at-with_entry_other (suc (suc (suc k))) (suc zero) e ret p q n = refl
entry_at-with_entry_other (suc (suc (suc k))) (suc (suc zero)) e ret p q n = refl
entry_at-with_entry_other (suc (suc (suc k))) (suc (suc (suc d))) e ret p q n =
    absurd (n (omega arith))

page-with_entry : (depth e : ℕ) (ret : Mapping) → (with_entry depth e ret).page ≡ ret.page
page-with_entry zero e ret = refl
page-with_entry (suc zero) e ret = refl
page-with_entry (suc (suc zero)) e ret = refl
page-with_entry (suc (suc (suc d))) e ret = refl

abbrev pub AreSmall : List ℕ → Type 0
AreSmall [] = Unit {0}
AreSmall (i ∷ is) = (i < 2 ^ 9) × AreSmall is

module _ (m : PhysMem) (law : IsLawful m) where
  -- The way from a table over the indices ends at an entry that is not present, in tables that are in use.
  abbrev pub IsUnmapped : m.State → ℕ → List ℕ → Type 0
  IsUnmapped s table [] = ⊥
  IsUnmapped s table (i ∷ is) =
      IsAt m law s (table + i * 8)
      × ((is_present (m.read (table + i * 8) s) ≡ false)
          ⊎ ((is_present (m.read (table + i * 8) s) ≡ true)
              × (is_large (m.read (table + i * 8) s) ≡ false)
              × IsUnmapped s (table_of (m.read (table + i * 8) s)) is))

  pub record Found (s : m.State) (depth table i : ℕ) (is rest : List ℕ) (vaddr : ℕ) (ret : Mapping)
      : Type 0 where
    pub mapping : Mapping
    pub walked : walk m (i ∷ is ++ rest) depth vaddr table ret s ≡ done mapping s
    pub no_page : mapping.page ≡ ret.page
    pub first : entry_at depth mapping ≡ some (table + i * 8)
    pub earlier : (k : ℕ) → k < depth → entry_at k mapping ≡ entry_at k ret
    pub later : AreLinked m law s (table + i * 8) (entries_from (suc depth) mapping is)
    pub beyond : (k : ℕ) → k ≤ 3 → depth + length is < k → entry_at k mapping ≡ none

  AreNew-entries :
      (depth : ℕ) (mapping : Mapping) (is : List ℕ)
      → AreSmall is
      → depth + length is ≤ 4
      → ((k : ℕ) → k ≤ 3 → depth ≤ k → entry_at k mapping ≡ none)
      → AreNew m law (entries_from depth mapping is)
  AreNew-entries depth mapping [] small n h = tt
  AreNew-entries depth mapping (i ∷ is) small n h =
      let here = h depth (omega arith) (omega arith) in
      let rest =
        AreNew-entries (suc depth) mapping is small.1 (omega arith)
          (λ k p q. h k p (omega arith)) in
      subst (λ o. AreNew m law ((o, i) ∷ entries_from (suc depth) mapping is)) (sym here)
        (small.0, rest)

  AreLinked-entries :
      (s : m.State) (e depth : ℕ) (mapping : Mapping) (is : List ℕ)
      → IsOpen m law s e
      → AreSmall is
      → depth + length is ≤ 4
      → ((k : ℕ) → k ≤ 3 → depth ≤ k → entry_at k mapping ≡ none)
      → AreLinked m law s e (entries_from depth mapping is)
  AreLinked-entries s e depth mapping [] o small n h = o
  AreLinked-entries s e depth mapping (i ∷ is) o small n h =
      let here = h depth (omega arith) (omega arith) in
      let rest =
        AreNew-entries (suc depth) mapping is small.1 (omega arith)
          (λ k p q. h k p (omega arith)) in
      subst (λ x. AreLinked m law s e ((x, i) ∷ entries_from (suc depth) mapping is)) (sym here)
        (o, small.0, rest)

  absent-Found :
      (s : m.State) (depth table i : ℕ) (is rest : List ℕ) (vaddr : ℕ) (ret : Mapping)
      → IsAt m law s (table + i * 8)
      → is_present (m.read (table + i * 8) s) ≡ false
      → AreSmall is
      → depth + length is ≤ 3
      → ((k : ℕ) → k ≤ 3 → depth ≤ k → entry_at k ret ≡ none)
      → Found s depth table i is rest vaddr ret
  unfolding walk
  absent-Found s depth table i is rest vaddr ret at absent small n clear =
      let t = law.used_translates (table + i * 8) s at.used in
      let clear' : (k : ℕ)
          → k ≤ 3
          → suc depth ≤ k
          → entry_at k (with_entry depth (table + i * 8) ret) ≡ none =
        λ k p q.
          entry_at-with_entry_other k depth (table + i * 8) ret p (omega arith) (λ e. omega arith)
          ∙ clear k p (omega arith) in
      record {
        mapping = with_entry depth (table + i * 8) ret;
        walked = rw (walk, t, absent);
        no_page = page-with_entry depth (table + i * 8) ret;
        first = entry_at-with_entry depth (table + i * 8) ret;
        earlier = λ k h.
            entry_at-with_entry_other k depth (table + i * 8) ret (omega arith) (omega arith)
              (λ e. omega arith);
        later =
            AreLinked-entries s (table + i * 8) (suc depth) (with_entry depth (table + i * 8) ret)
              is absent small (omega arith) clear';
        beyond = λ k p q. clear' k p (omega arith);
      }

  present-Found :
      (s : m.State) (depth table i j : ℕ) (is rest : List ℕ) (vaddr : ℕ) (ret : Mapping)
      → IsAt m law s (table + i * 8)
      → is_present (m.read (table + i * 8) s) ≡ true
      → is_large (m.read (table + i * 8) s) ≡ false
      → IsAt m law s (table_of (m.read (table + i * 8) s) + j * 8)
      → suc depth ≤ 3
      → Found s
          (suc depth)
          (table_of (m.read (table + i * 8) s))
          j
          is
          rest
          vaddr
          (with_entry depth (table + i * 8) ret)
      → Found s depth table i (j ∷ is) rest vaddr ret
  unfolding walk
  present-Found s depth table i j is rest vaddr ret at present small below n f =
      let t = law.used_translates (table + i * 8) s at.used in
      let e : depth + 1 ≡ suc depth = omega arith in
      let d : (depth == 3) ≡ false = ground arith in
      let linked : AreLinked m law s (table + i * 8) (
          (some (table_of (m.read (table + i * 8) s) + j * 8), j)
          ∷ entries_from (suc (suc depth)) f.mapping is) =
        (below, record { present = present; small = small; next = refl }, f.later) in
      record {
        mapping = f.mapping;
        walked = rw (walk, t, present, small, d, e) f.walked;
        no_page = f.no_page ∙ page-with_entry depth (table + i * 8) ret;
        first = f.earlier depth (omega arith) ∙ entry_at-with_entry depth (table + i * 8) ret;
        earlier = λ k h.
            f.earlier k (omega arith)
            ∙ entry_at-with_entry_other k depth (table + i * 8) ret (omega arith) (omega arith)
                (λ e. omega arith);
        later =
            subst
              (λ o.
                AreLinked m law s (table + i * 8)
                  ((o, j) ∷ entries_from (suc (suc depth)) f.mapping is))
              (sym f.first) linked;
        beyond = λ k p q. f.beyond k p (omega arith);
      }

  pub walk-Found :
      (s : m.State) (depth table i : ℕ) (is rest : List ℕ) (vaddr : ℕ) (ret : Mapping)
      → IsUnmapped s table (i ∷ is)
      → AreSmall is
      → depth + length is ≤ 3
      → ((k : ℕ) → k ≤ 3 → depth ≤ k → entry_at k ret ≡ none)
      → Found s depth table i is rest vaddr ret
  walk-Found s depth table i is rest vaddr ret (at, inl absent) small n clear =
      absent-Found s depth table i is rest vaddr ret at absent small n clear
  walk-Found s depth table i [] rest vaddr ret (at, inr there) small n clear = absurd there.2
  walk-Found s depth table i (j ∷ is) rest vaddr ret (at, inr there) small n clear =
      present-Found s depth table i j is rest vaddr ret at there.0 there.1 (there.2).0 (omega arith)
        (walk-Found s (suc depth) (table_of (m.read (table + i * 8) s)) j is rest vaddr
          (with_entry depth (table + i * 8) ret) there.2 small.1 (omega arith)
          (λ k p q.
            entry_at-with_entry_other k depth (table + i * 8) ret p (omega arith) (λ e. omega arith)
            ∙ clear k p (omega arith)))
