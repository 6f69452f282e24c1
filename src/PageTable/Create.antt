-- ===== src/PageTable/Create.antt =====
-- The rounds of `map_raw` of shared/page_table/src/lib.rs that create the tables on the way to a page.
use elise.Base.{
  ℕ, ◌+◌, ◌*◌, ◌/◌, ◌%◌, ◌^◌, ◌≤◌, ◌<◌, ◌≡◌, refl, sym, ap, ◌∙◌, subst, arith, List, [], ◌∷◌,
  Option, none, some, ℕ_discrete, ◌⊎◌, inl, inr,
}
use elise.PageTable.{is_present, is_large}
use elise.PageTable.Walk.{PhysMem, done, table_of}
use elise.PageTable.Map.{alloc_phys_zeroed, counted, count_in, create_table, table_entry}
use elise.PageTable.Laws.{IsLawful}
use elise.PageTable.Entries.{low-counted, is_present-low, table_entry_links}
use elise.PageTable.Path.{IsAt, IsOpen, Trail, Keeps, IsAt-Keeps, Trail-IsAt, Trail-Keeps}

abbrev pub head_of : List ℕ → Option ℕ
head_of [] = none
head_of (x ∷ xs) = some x

module _ (m : PhysMem) (law : IsLawful m) where
  abbrev pub At : m.State → ℕ → Type 0
  At = IsAt m law

  abbrev pub Same : m.State → m.State → ℕ → Type 0
  Same = Keeps m law

  pub Keeps-then :
      {s s' s'' : m.State} {hole : ℕ} → Same s s' hole → Same s' s'' hole → Same s s'' hole
  Keeps-then k l = record {
    uses = λ q u. l.uses q (k.uses q u);
    lows = λ a at other. l.lows a (IsAt-Keeps m law k a at) other ∙ k.lows a at other;
  }

  pub Keeps-refl : (s : m.State) (hole : ℕ) → Same s s hole
  Keeps-refl s hole = record { uses = λ q u. u; lows = λ a at other. refl }

  -- The second change is to an entry that was not in use before the first.
  pub Keeps-both :
      {s s' s'' : m.State} {hole hole' : ℕ}
      → Same s s' hole
      → Same s' s'' hole'
      → ((a : ℕ) → At s a → a ≡ hole' → ⊥)
      → Same s s'' hole
  Keeps-both k l new = record {
    uses = λ q u. l.uses q (k.uses q u);
    lows = λ a at other. l.lows a (IsAt-Keeps m law k a at) (new a at) ∙ k.lows a at other;
  }

  -- A write changes one entry, and of that no bit below 52 unless it is the hole.
  pub Keeps-write :
      (s : m.State) (hole a v : ℕ)
      → a % 8 ≡ 0
      → (a ≡ hole) ⊎ (v % 2 ^ 52 ≡ m.read a s % 2 ^ 52)
      → Same s (m.write a v s) hole
  Keeps-write s hole a v whole why = record {
    uses = law.write-IsUsed a v s;
    lows = λ b at other. elim (ℕ_discrete a b) [
      | yes same ↦ elim why [
        | inl here ↦ absurd (other (sym same ∙ here))
        | inr low ↦
            subst (λ x. m.read x (m.write a v s) % 2 ^ 52 ≡ m.read x s % 2 ^ 52) same
              (ap (λ x. x % 2 ^ 52) (law.read-write a v s) ∙ low)
      ]
      | no apart ↦ ap (λ x. x % 2 ^ 52) (law.read-write_other a b v s whole at.whole apart)
    ];
  }

  pub record Counted (s : m.State) (above : Option ℕ) : Type 0 where
    pub after : m.State
    pub counts : count_in m above s ≡ done tt after
    pub keeps : (hole : ℕ) → Same s after hole
    pub room : law.room after ≡ law.room s

  abbrev pub IsAtAll : m.State → Option ℕ → Type 0
  IsAtAll s none = Unit {0}
  IsAtAll s (some a) = At s a

  pub count_in-IsAtAll : (s : m.State) (above : Option ℕ) → IsAtAll s above → Counted s above
  unfolding count_in
  count_in-IsAtAll s none at = record {
    after = s;
    counts = refl;
    keeps = λ hole. Keeps-refl s hole;
    room = refl;
  }
  count_in-IsAtAll s (some a) at =
      let t = law.used_translates a s at.used in
      record {
        after = m.write a (counted (m.read a s)) s;
        counts = rw (count_in, t);
        keeps = λ hole.
            Keeps-write s hole a (counted (m.read a s)) at.whole (inr (low-counted (m.read a s)));
        room = law.room-write a (counted (m.read a s)) s;
      }

  -- A page from the allocator, filled with zeros.
  pub record ZeroPage (s : m.State) : Type 0 where
    pub page : ℕ
    pub after : m.State
    pub allocates : alloc_phys_zeroed m (2 ^ 12) (2 ^ 12) s ≡ some (page * 2 ^ 12, after)
    pub small : page < 2 ^ 40
    pub was_free : law.IsUsed s page → ⊥
    pub now_used : law.IsUsed after page
    pub zeros : (a : ℕ) → a / 2 ^ 12 ≡ page → m.read a after ≡ 0
    pub keeps : (hole : ℕ) → Same s after hole
    pub room : law.room s ≤ law.room after + 1

  pub alloc_phys_zeroed-ZeroPage : (s : m.State) → 0 < law.room s → ZeroPage s
  unfolding alloc_phys_zeroed
  alloc_phys_zeroed-ZeroPage s r =
      let new = law.alloc s r in
      record {
        page = new.page;
        after = m.write_bytes (new.page * 2 ^ 12) (2 ^ 12) new.after;
        allocates =
            rw (
              alloc_phys_zeroed,
              new.allocated,
              law.page_translates new.page new.after new.now_used,
            );
        small = new.small;
        was_free = new.was_free;
        now_used = law.write_bytes-IsUsed new.page new.after new.page new.now_used;
        zeros = λ a h. law.read-write_bytes a new.page new.after h;
        keeps = λ hole. record {
          uses = λ q u. law.write_bytes-IsUsed new.page new.after q (new.keeps_used q u);
          lows = λ a at other.
              ap (λ x. x % 2 ^ 52)
                (law.read-write_bytes_other a new.page new.after
                    (λ e. new.was_free (subst (law.IsUsed s) e at.used))
                  ∙ new.keeps_words a at.used);
        };
        room = omega (arith, new.one_less, law.room-write_bytes new.page new.after);
      }

  entry_page : (page i : ℕ) → i < 2 ^ 9 → page ≡ (page * 2 ^ 12 + i * 8) / 2 ^ 12
  entry_page page i h = omega arith

  -- A table that is created under the last entry of a trail, and every entry in it.
  pub record Created (s : m.State) (root e : ℕ) (es is : List ℕ) : Type 0 where
    pub table : ℕ
    pub after : m.State
    pub creates : create_table m (head_of es) e s ≡ done table after
    pub keeps : Same s after e
    pub fresh : (i : ℕ) → i < 2 ^ 9 → law.IsUsed s ((table + i * 8) / 2 ^ 12) → ⊥
    pub trail : (i : ℕ) → i < 2 ^ 9 → Trail m law after root ((table + i * 8) ∷ e ∷ es) (i ∷ is)
    pub opens : (i : ℕ) → i < 2 ^ 9 → IsOpen m law after (table + i * 8)
    pub room : law.room s ≤ law.room after + 1

  Trail-IsAtAll :
      (s : m.State) (root e : ℕ) (es is : List ℕ)
      → Trail m law s root (e ∷ es) is
      → IsAtAll s (head_of es)
  Trail-IsAtAll s root e [] is t = tt
  Trail-IsAtAll s root e (e' ∷ es) [] t = absurd t
  Trail-IsAtAll s root e (e' ∷ es) (i ∷ is) t = Trail-IsAt m law s root e' es is t.2

  IsAtAll-Keeps :
      {s s' : m.State} {hole : ℕ} → Same s s' hole → (o : Option ℕ) → IsAtAll s o → IsAtAll s' o
  IsAtAll-Keeps k none at = tt
  IsAtAll-Keeps k (some a) at = IsAt-Keeps m law k a at

  low_zero-IsOpen : (s : m.State) (e : ℕ) → m.read e s % 2 ^ 52 ≡ 0 → IsOpen m law s e
  low_zero-IsOpen s e h =
      let z : m.read e s % 2 ^ 52 ≡ 0 % 2 ^ 52 = h in rw (is_present-low (m.read e s) 0 z)

  pub create_table-Created :
      (s : m.State) (root e : ℕ) (es is : List ℕ)
      → Trail m law s root (e ∷ es) is
      → IsOpen m law s e
      → 0 < law.room s
      → Created s root e es is
  unfolding create_table
  create_table-Created s root e es is t o r =
      let z = alloc_phys_zeroed-ZeroPage s r in
      let at = Trail-IsAt m law s root e es is t in
      let c =
        count_in-IsAtAll z.after (head_of es)
          (IsAtAll-Keeps (z.keeps e) (head_of es) (Trail-IsAtAll s root e es is t)) in
      let entry = table_entry (z.page * 2 ^ 12) in
      let last = m.write e entry c.after in
      let k =
        Keeps-then (Keeps-then (z.keeps e) (c.keeps e))
          (Keeps-write c.after e e entry at.whole (inl refl)) in
      let links = table_entry_links z.page z.small in
      let written : m.read e last ≡ entry = law.read-write e entry c.after in
      record {
        table = z.page * 2 ^ 12;
        after = last;
        creates = rw (create_table, z.allocates, law.used_translates e s at.used, c.counts);
        keeps = k;
        fresh = λ i h u. z.was_free (subst (law.IsUsed s) (sym (entry_page z.page i h)) u);
        trail = λ i h. (
          record {
            used =
                subst (law.IsUsed last) (entry_page z.page i h)
                  (law.write-IsUsed e entry c.after z.page ((c.keeps e).uses z.page z.now_used));
            whole = omega arith;
          },
          record {
            present = ap is_present written ∙ links.0;
            small = ap is_large written ∙ links.1;
            next = ap (λ x. x + i * 8) (sym (ap table_of written ∙ links.2));
          },
          Trail-Keeps m law root e es is k o t,
        );
        opens = λ i h. low_zero-IsOpen last (z.page * 2 ^ 12 + i * 8) (
            (Keeps-then (c.keeps e) (Keeps-write c.after e e entry at.whole (inl refl))).lows
              (z.page * 2 ^ 12 + i * 8)
              (record {
                used = subst (law.IsUsed z.after) (entry_page z.page i h) z.now_used;
                whole = omega arith;
              })
              (λ same. z.was_free (
                subst (law.IsUsed s) (ap (λ x. x / 2 ^ 12) (sym same) ∙ sym (entry_page z.page i h))
                  at.used))
            ∙ ap (λ x. x % 2 ^ 52)
                (z.zeros (z.page * 2 ^ 12 + i * 8) (sym (entry_page z.page i h))));
        room = omega (arith, z.room, c.room, law.room-write e entry c.after);
      }
