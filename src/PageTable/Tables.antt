-- ===== src/PageTable/Tables.antt =====
-- The loop of `map_raw` of shared/page_table/src/lib.rs over the tables on the way to a page.
use elise.Base.{
  ℕ, ◌+◌, ◌*◌, ◌^◌, ◌≤◌, ◌<◌, ◌≡◌, refl, arith, List, [], ◌∷◌, Option, none, some, length, ◌⊎◌, inl,
  inr, subst, ◌/◌,
}
use elise.PageTable.Walk.{PhysMem, done}
use elise.PageTable.Map.{create_tables}
use elise.PageTable.Laws.{IsLawful}
use elise.PageTable.Path.{rev_onto, IsAt, Links, IsOpen, Trail, Keeps}
use elise.PageTable.Create.{head_of, Keeps-refl, Keeps-both, create_table-Created}

abbrev pub indices_of : List (Option ℕ × ℕ) → List ℕ
indices_of [] = []
indices_of ((_, i) ∷ rest) = i ∷ indices_of rest

module _ (m : PhysMem) (law : IsLawful m) where
  -- No table is there for any of the entries.
  abbrev pub AreNew : List (Option ℕ × ℕ) → Type 0
  AreNew [] = Unit {0}
  AreNew ((none, i) ∷ rest) = (i < 2 ^ 9) × AreNew rest
  AreNew ((some x, i) ∷ rest) = ⊥

  -- The entries that are there lead from the entry `e` on; the last of them leads to no table.
  abbrev pub AreLinked : m.State → ℕ → List (Option ℕ × ℕ) → Type 0
  AreLinked s e [] = IsOpen m law s e
  AreLinked s e ((none, i) ∷ rest) = IsOpen m law s e × (i < 2 ^ 9) × AreNew rest
  AreLinked s e ((some x, i) ∷ rest) = IsAt m law s x × Links m law s e x i × AreLinked s x rest

  pub record Reached (s : m.State) (root hole e : ℕ) (es is : List ℕ) (rest : List (Option ℕ × ℕ))
      : Type 0 where
    pub last : ℕ
    pub before : List ℕ
    pub after : m.State
    pub creates : create_tables m rest (head_of es) e s ≡ done (head_of before, last) after
    pub trail : Trail m law after root (last ∷ before) (rev_onto (indices_of rest) is)
    pub opens : IsOpen m law after last
    pub keeps : Keeps m law s after hole
    pub hole_open : IsOpen m law s hole
    pub last_new : (last ≡ hole) ⊎ (law.IsUsed s (last / 2 ^ 12) → ⊥)

  create_tables-AreNew :
      (s : m.State) (root e : ℕ) (es is : List ℕ) (rest : List (Option ℕ × ℕ))
      → Trail m law s root (e ∷ es) is
      → IsOpen m law s e
      → AreNew rest
      → length rest ≤ law.room s
      → Reached s root e e es is rest
  unfolding create_tables
  create_tables-AreNew s root e es is [] t o n r = record {
    last = e;
    before = es;
    after = s;
    creates = refl;
    trail = t;
    opens = o;
    keeps = Keeps-refl m law s e;
    hole_open = o;
    last_new = inl refl;
  }
  create_tables-AreNew s root e es is ((some x, i) ∷ rest) t o n r = absurd n
  create_tables-AreNew s root e es is ((none, i) ∷ rest) t o n r =
      let c = create_table-Created m law s root e es is t o (omega arith) in
      let later =
        create_tables-AreNew c.after root (c.table + i * 8) (e ∷ es) (i ∷ is) rest (c.trail i n.0)
          (c.opens i n.0) n.1 (omega (arith, c.room)) in
      record {
        last = later.last;
        before = later.before;
        after = later.after;
        creates = rw (create_tables, c.creates) later.creates;
        trail = later.trail;
        opens = later.opens;
        keeps =
            Keeps-both m law c.keeps later.keeps
              (λ a at same. c.fresh i n.0 (subst (λ x. law.IsUsed s (x / 2 ^ 12)) same at.used));
        hole_open = o;
        last_new = inr (λ u. elim later.last_new [
          | inl same ↦ c.fresh i n.0 (subst (λ x. law.IsUsed s (x / 2 ^ 12)) same u)
          | inr free ↦ free (c.keeps.uses (later.last / 2 ^ 12) u)
        ]);
      }

  pub create_tables-AreLinked :
      (s : m.State) (root e : ℕ) (es is : List ℕ) (rest : List (Option ℕ × ℕ))
      → Trail m law s root (e ∷ es) is
      → AreLinked s e rest
      → length rest ≤ law.room s
      → (hole : ℕ) × Reached s root hole e es is rest
  unfolding create_tables
  create_tables-AreLinked s root e es is [] t o r =
      (e, create_tables-AreNew s root e es is [] t o tt (omega arith))
  create_tables-AreLinked s root e es is ((none, i) ∷ rest) t h r =
      (e, create_tables-AreNew s root e es is ((none, i) ∷ rest) t h.0 (h.1, h.2) r)
  create_tables-AreLinked s root e es is ((some x, i) ∷ rest) t h r =
      let step =
        create_tables-AreLinked s root x (e ∷ es) (i ∷ is) rest (h.0, h.1, t) h.2 (omega arith) in
      (
        step.0,
        record {
          last = (step.1).last;
          before = (step.1).before;
          after = (step.1).after;
          creates = (step.1).creates;
          trail = (step.1).trail;
          opens = (step.1).opens;
          keeps = (step.1).keeps;
          hole_open = (step.1).hole_open;
          last_new = (step.1).last_new;
        },
      )
