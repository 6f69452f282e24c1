-- ===== src/Acpi/Srat/Saved.antt =====
-- The rounds of `Srat::parse` in kernel/src/acpi/srat.rs that save memory.
use elise.Base.{
  ℕ, suc, ◌+◌, ◌-◌, ◌≤◌, ◌<◌, ◌≡◌, refl, ap, subst, ◌∙◌, arith, Bool, ◌&&◌, ◌||◌, Option, none,
  some, ◌==◌, ltb, leb, inl, inr, Bool-cases, u64_max, le→leb,
}
use elise.Range.{Range}
use elise.RangeSet.{RangeSet, entries, new_set}
use elise.RangeSet.Entries.{within, covers}
use elise.RangeSet.Gathered.{IsOpen, new_set-IsOpen, insert-IsOpen}
use elise.Acpi.Srat.{Srat, got, map_insert, map_get, or_new, ranges_of, save_range}
use elise.Acpi.Srat.Maps.{map_get-map_insert}
use elise.Acpi.Srat.Gathered.{covered, covers_in, AreOpen}

IsOpen-more : {n m : ℕ} {s : RangeSet} → n ≤ m → IsOpen n s → IsOpen m s
IsOpen-more h o = record { valid = o.valid; below = o.below; few = omega (arith, o.few) }

pub AreOpen-more : {n m : ℕ} (s : Srat) → n ≤ m → AreOpen n s → AreOpen m s
AreOpen-more s h o = λ d r e. IsOpen-more h (o d r e)

or_new-IsOpen :
    (n : ℕ) (o : Option RangeSet) → ((r : RangeSet) → o ≡ some r → IsOpen n r) → IsOpen n (or_new o)
or_new-IsOpen n none h = IsOpen-more (omega arith) new_set-IsOpen
or_new-IsOpen n (some r) h = h r refl

covers-or_new : (o : Option RangeSet) (x : ℕ) → covers (entries (or_new o)) x ≡ covers_in o x
unfolding new_set
covers-or_new none x = refl
covers-or_new (some r) x = refl

-- What saving a range does: the sets stay open, and the addresses `extra` join them.
pub record IsSaved (n : ℕ) (s s' : Srat) (extra : ℕ → ℕ → Bool) : Type 0 where
  pub open_sets : AreOpen (suc n) s'
  pub same_apics : s'.apic_to_domain ≡ s.apic_to_domain
  pub more : (d x : ℕ) → covered d x s' ≡ extra d x || covered d x s

within-ltb :
    (start len x : ℕ)
    → 0 < len
    → within (record { start = start; end = start + (len - 1) }) x
      ≡ leb start x && ltb x (start + len)
within-ltb start len x h = ground arith

module _ (n domain start len : ℕ) (s : Srat) (o : AreOpen n s) (room : n < 256) (some_len : 0 < len)
    (top : start + len ≤ u64_max) where
  abbrev with_set : RangeSet → Srat
  with_set r = record s { domain_to_ranges = map_insert domain r s.domain_to_ranges }

  with_set-AreOpen : (r : RangeSet) → IsOpen (suc n) r → AreOpen (suc n) (with_set r)
  with_set-AreOpen r h = λ d r' e. elim (Bool-cases (domain == d)) [
    | inl same ↦
        let found : r ≡ r' = ground (arith, map_get-map_insert domain d r s.domain_to_ranges) in
        subst (IsOpen (suc n)) found h
    | inr other ↦
        let kept : map_get d s.domain_to_ranges ≡ some r' =
          ground (arith, map_get-map_insert domain d r s.domain_to_ranges) in
        IsOpen-more (omega arith) (o d r' kept)
  ]

  covered-with_set :
      (r : RangeSet)
      → ((x : ℕ)
          → covers (entries r) x
            ≡ within (record { start = start; end = start + (len - 1) }) x
              || covers (entries (ranges_of domain s)) x)
      → (d x : ℕ)
      → covered d x (with_set r)
        ≡ (domain == d && leb start x && ltb x (start + len)) || covered d x s
  covered-with_set r h d x = elim (Bool-cases (domain == d)) [
    | inl same ↦
        let at : domain ≡ d = ground arith in
        let found : map_get d (map_insert domain r s.domain_to_ranges) ≡ some r =
          ground (arith, map_get-map_insert domain d r s.domain_to_ranges) in
        ap (λ o. covers_in o x) found
        ∙ h x
        ∙ rw (
          within-ltb start len x some_len,
          covers-or_new (map_get domain s.domain_to_ranges) x,
          same,
          at,
        )
    | inr other ↦
        let kept : map_get d (map_insert domain r s.domain_to_ranges)
            ≡ map_get d s.domain_to_ranges =
          ground (arith, map_get-map_insert domain d r s.domain_to_ranges) in
        ap (λ o. covers_in o x) kept ∙ rw other
  ]

  pub save_range-IsSaved :
      (s' : Srat) × (save_range domain start len s ≡ got s')
      × IsSaved n s s' (λ d x. domain == d && leb start x && ltb x (start + len))
  unfolding save_range
  save_range-IsSaved =
      let range : Range = record { start = start; end = start + (len - 1) } in
      let (r, inserted, open_set, more) =
        insert-IsOpen n range (ranges_of domain s)
          (or_new-IsOpen n (map_get domain s.domain_to_ranges) (o domain)) room (omega arith)
          (omega arith) in
      (
        with_set r,
        rw (
          save_range,
          le→leb (start + (len - 1)) u64_max (omega arith),
          le→leb start (start + (len - 1)) (omega arith),
          inserted,
        ),
        record {
          open_sets = with_set-AreOpen r open_set;
          same_apics = refl;
          more = covered-with_set r more;
        },
      )
