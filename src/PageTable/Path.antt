-- ===== src/PageTable/Path.antt =====
-- The entries that a walk of shared/page_table/src/lib.rs passes, and the writes that keep them.
use elise.Base.{
  ℕ, suc, ◌+◌, ◌*◌, ◌/◌, ◌%◌, ◌^◌, ◌≤◌, ◌<◌, ◌≡◌, ◌≢◌, refl, sym, ap, ◌∙◌, subst, arith, true,
  false, List, [], ◌∷◌, ◌==◌, length,
}
use elise.PageTable.{Mapping, no_mapping, is_present, is_large}
use elise.PageTable.Walk.{PhysMem, table_of, with_entry, walk}
use elise.PageTable.Laws.{IsLawful}
use elise.PageTable.Entries.{is_present-low, is_large-low, table_of-low}

abbrev pub rev_onto : List ℕ → List ℕ → List ℕ
rev_onto [] ys = ys
rev_onto (x ∷ xs) ys = rev_onto xs (x ∷ ys)

module _ (m : PhysMem) (law : IsLawful m) where
  -- An entry lies in a page that is in use.
  pub record IsAt (s : m.State) (e : ℕ) : Type 0 where
    pub used : law.IsUsed s (e / 2 ^ 12)
    pub whole : e % 8 ≡ 0

  -- The entry `e'` leads to a table, and `e` is the entry with index `i` there.
  pub record Links (s : m.State) (e' e i : ℕ) : Type 0 where
    pub present : is_present (m.read e' s) ≡ true
    pub small : is_large (m.read e' s) ≡ false
    pub next : e ≡ table_of (m.read e' s) + i * 8

  -- The entry is not present.
  abbrev pub IsOpen : m.State → ℕ → Type 0
  IsOpen s e = is_present (m.read e s) ≡ false

  -- The entries from the last one back to the first, with the indices under which they stand.
  abbrev pub Trail : m.State → ℕ → List ℕ → List ℕ → Type 0
  Trail s root (e ∷ []) (i ∷ []) = IsAt s e × (e ≡ root + i * 8)
  Trail s root (e ∷ e' ∷ es) (i ∷ is) = IsAt s e × Links s e' e i × Trail s root (e' ∷ es) is
  Trail s root _ _ = ⊥

  -- Nothing but the entry `hole` and the counts is changed in the pages that are in use.
  pub record Keeps (s s' : m.State) (hole : ℕ) : Type 0 where
    pub uses : (q : ℕ) → law.IsUsed s q → law.IsUsed s' q
    pub lows : (a : ℕ) → IsAt s a → a ≢ hole → m.read a s' % 2 ^ 52 ≡ m.read a s % 2 ^ 52

  pub IsAt-Keeps : {s s' : m.State} {hole : ℕ} → Keeps s s' hole → (e : ℕ) → IsAt s e → IsAt s' e
  IsAt-Keeps k e h = record { used = k.uses (e / 2 ^ 12) h.used; whole = h.whole }

  linked-ne-open : {s : m.State} {e' e i hole : ℕ} → Links s e' e i → IsOpen s hole → e' ≢ hole
  linked-ne-open {s} {e'} l o same =
      let o' : IsOpen s e' = subst (IsOpen s) (sym same) o in let present = l.present in cc

  Links-Keeps :
      {s s' : m.State} {hole e' e i : ℕ}
      → Keeps s s' hole
      → IsAt s e'
      → e' ≢ hole
      → Links s e' e i
      → Links s' e' e i
  Links-Keeps {s} {s'} {hole} {e'} {e} {i} k at other l =
      let low = k.lows e' at other in
      record {
        present = is_present-low _ _ low ∙ l.present;
        small = is_large-low _ _ low ∙ l.small;
        next = l.next ∙ ap (λ t. t + i * 8) (sym (table_of-low _ _ low));
      }

  pub Trail-IsAt : (s : m.State) (root e : ℕ) (es is : List ℕ) → Trail s root (e ∷ es) is → IsAt s e
  Trail-IsAt s root e [] [] t = absurd t
  Trail-IsAt s root e [] (i ∷ []) t = t.0
  Trail-IsAt s root e [] (i ∷ j ∷ is) t = absurd t
  Trail-IsAt s root e (e' ∷ es) [] t = absurd t
  Trail-IsAt s root e (e' ∷ es) (i ∷ is) t = t.0

  pub Trail-Keeps :
      {s s' : m.State} {hole : ℕ} (root e : ℕ) (es is : List ℕ)
      → Keeps s s' hole
      → IsOpen s hole
      → Trail s root (e ∷ es) is
      → Trail s' root (e ∷ es) is
  Trail-Keeps root e [] [] k o t = absurd t
  Trail-Keeps root e [] (i ∷ []) k o t = (IsAt-Keeps k e t.0, t.1)
  Trail-Keeps root e [] (i ∷ j ∷ is) k o t = absurd t
  Trail-Keeps root e (e' ∷ es) [] k o t = absurd t
  Trail-Keeps root e (e' ∷ es) (i ∷ is) k o t = (
    IsAt-Keeps k e t.0,
    Links-Keeps k (Trail-IsAt _ root e' es is t.2) (linked-ne-open t.1 o) t.1,
    Trail-Keeps root e' es is k o t.2,
  )

  -- A walk along a trail arrives at its last entry.
  pub record Arrives (s : m.State) (root vaddr e i : ℕ) (is rest : List ℕ) : Type 0 where
    pub table : ℕ
    pub ret : Mapping
    pub entry : e ≡ table + i * 8
    pub walked :
        walk m (rev_onto (i ∷ is) rest) 0 vaddr root no_mapping s
        ≡ walk m (i ∷ rest) (length is) vaddr table ret s

  walk-Links :
      (s : m.State) (depth vaddr table i : ℕ) (rest : List ℕ) (ret : Mapping)
      → depth < 3
      → m.translates (table + i * 8) 8 ≡ true
      → is_present (m.read (table + i * 8) s) ≡ true
      → is_large (m.read (table + i * 8) s) ≡ false
      → walk m (i ∷ rest) depth vaddr table ret s
        ≡ walk m rest
            (suc depth)
            vaddr
            (table_of (m.read (table + i * 8) s))
            (with_entry depth (table + i * 8) ret)
            s
  unfolding walk
  walk-Links s depth vaddr table i rest ret h t p l =
      let e : depth + 1 ≡ suc depth = omega arith in
      let n : (depth == 3) ≡ false = ground arith in rw (walk, t, p, l, n, e)

  pub Trail-Arrives :
      (s : m.State) (root vaddr e i : ℕ) (es is rest : List ℕ)
      → Trail s root (e ∷ es) (i ∷ is)
      → length is ≤ 3
      → Arrives s root vaddr e i is rest
  Trail-Arrives s root vaddr e i [] [] rest t n = record {
    table = root;
    ret = no_mapping;
    entry = t.1;
    walked = refl;
  }
  Trail-Arrives s root vaddr e i [] (j ∷ is) rest t n = absurd t
  Trail-Arrives s root vaddr e i (e' ∷ es) [] rest t n = absurd (no_indices s root e' es t.2)
    where
      no_indices : (s : m.State) (root e : ℕ) (es : List ℕ) → Trail s root (e ∷ es) [] → ⊥
      no_indices s root e [] h = h
      no_indices s root e (x ∷ es) h = h
  Trail-Arrives s root vaddr e i (e' ∷ es) (i' ∷ is) rest t n =
      let before = Trail-Arrives s root vaddr e' i' es is (i ∷ rest) t.2 (omega arith) in
      let at = Trail-IsAt s root e' es (i' ∷ is) t.2 in
      let here = law.used_translates e' s at.used in
      record {
        table = table_of (m.read e' s);
        ret = with_entry (length is) e' before.ret;
        entry = t.1.next;
        walked =
            before.walked
            ∙ walk-Links s (length is) vaddr before.table i' (i ∷ rest) before.ret (omega arith)
                (rw before.entry at here) (rw before.entry at t.1.present)
                (rw before.entry at t.1.small)
            ∙ ap
                (λ x.
                  walk m (i ∷ rest) (suc (length is)) vaddr (table_of (m.read x s))
                    (with_entry (length is) x before.ret) s)
                (sym before.entry);
      }
