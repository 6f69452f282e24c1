-- ===== src/Acpi/Srat/Parsed.antt =====
-- What `Srat::parse` of kernel/src/acpi/srat.rs returns.
use elise.Base.{
  ℕ, suc, ◌+◌, ◌≤◌, ◌<◌, ◌≡◌, refl, sym, ap, ◌∙◌, arith, Bool, true, false, ◌&&◌, ◌||◌, Option,
  none, some, List, [], ◌∷◌, length, ◌==◌, ltb, leb, if◌then◌else◌, inl, inr, Bool-cases, u64_max,
}
use elise.Acpi.{Memory, length_of, TableEntry}
use elise.Acpi.Laid.{entries_of, parse_table_entries-HasLengths}
use elise.Acpi.Srat.{
  Srat, got, map_get, is_enabled, apic_domain, save_domain, save_memory, affinity, affinities,
  no_affinities, parse_srat,
}
use elise.Acpi.Srat.Maps.{map_get-map_insert}
use elise.Acpi.Srat.Gathered.{
  Affinity, local_apic, x2apic, memory, IsLaid, AreLaid, AreBelow, domain_of, in_memory, covered,
  AreOpen, lens, AreLaid-HasLengths,
}
use elise.Acpi.Srat.Saved.{AreOpen-more, IsSaved, save_range-IsSaved}

map_get-save_domain :
    (flags id domain i : ℕ) (s : Srat)
    → map_get i (save_domain flags id domain s).apic_to_domain
      ≡ (if is_enabled flags && id == i then some domain else map_get i s.apic_to_domain)
map_get-save_domain flags id domain i s =
    ground (arith, map_get-map_insert id i domain s.apic_to_domain)

covered-save_domain :
    (flags id domain : ℕ) (s : Srat)
    → (save_domain flags id domain s).domain_to_ranges ≡ s.domain_to_ranges
covered-save_domain flags id domain s = ground arith

-- The addresses that a memory affinity adds.
abbrev extra : ℕ → ℕ → ℕ → ℕ → ℕ → ℕ → Bool
extra flags domain start len d x =
    is_enabled flags && domain == d && leb start x && ltb x (start + len)

save_memory-IsSaved :
    (n flags domain start len : ℕ) (s : Srat)
    → AreOpen n s
    → n < 256
    → start + len ≤ u64_max
    → (s' : Srat) × (save_memory flags domain start len s ≡ got s')
      × IsSaved n s s' (extra flags domain start len)
save_memory-IsSaved n flags domain start len s o room top =
    elim (Bool-cases (ltb 0 len && is_enabled flags)) [
      | inl on ↦
          let positive : 0 < len = ground arith in
          let enabled : is_enabled flags ≡ true = ground arith in
          let (s', saved, i) = save_range-IsSaved n domain start len s o room positive top in
          (
            s',
            rw (on, saved),
            record {
              open_sets = i.open_sets;
              same_apics = i.same_apics;
              more = λ d x. rw enabled (i.more d x);
            },
          )
      | inr off ↦ (
        s,
        rw off,
        record {
          open_sets = AreOpen-more s (omega arith) o;
          same_apics = refl;
          more = λ d x. nothing d x off;
        },
      )
    ]
  where
    nothing :
        (d x : ℕ)
        → (ltb 0 len && is_enabled flags) ≡ false
        → covered d x s ≡ extra flags domain start len d x || covered d x s
    nothing d x off = ground arith

-- What the rounds over `as'` make of a state.
record IsRead (as' : List Affinity) (s s' : Srat) : Type 0 where
  domains : (id : ℕ) → map_get id s'.apic_to_domain ≡ domain_of id as' (map_get id s.apic_to_domain)
  ranges : (d x : ℕ) → covered d x s' ≡ in_memory d x as' || covered d x s

affinities-got :
    (mem : Memory) (entry : TableEntry) (entries : List TableEntry) (s s' : Srat)
    → affinity mem entry s ≡ got s'
    → affinities mem (entry ∷ entries) s ≡ affinities mem entries s'
unfolding affinities
affinities-got mem entry entries s s' e = rw (affinities, e)

IsRead-domain :
    (flags id domain : ℕ) (as' : List Affinity) (s s' : Srat) (a : Affinity)
    → IsRead as' (save_domain flags id domain s) s'
    → ((i : ℕ) (last : Option ℕ)
        → domain_of i (a ∷ as') last
          ≡ domain_of i as' (if is_enabled flags && id == i then some domain else last))
    → ((d x : ℕ) → in_memory d x (a ∷ as') ≡ in_memory d x as')
    → IsRead (a ∷ as') s s'
IsRead-domain flags id domain as' s s' a r h k = record {
  domains = λ i.
      r.domains i
      ∙ ap (domain_of i as') (map_get-save_domain flags id domain i s)
      ∙ sym (h i (map_get i s.apic_to_domain));
  ranges = λ d x. r.ranges d x ∙ rw (covered-save_domain flags id domain s, k d x);
}

IsRead-memory :
    (n flags domain start len : ℕ) (as' : List Affinity) (s s₁ s' : Srat)
    → IsSaved n s s₁ (extra flags domain start len)
    → IsRead as' s₁ s'
    → IsRead (memory flags domain start len ∷ as') s s'
IsRead-memory n flags domain start len as' s s₁ s' i r = record {
  domains = λ id. r.domains id ∙ ap (λ m. domain_of id as' (map_get id m)) i.same_apics;
  ranges = λ d x.
      r.ranges d x
      ∙ rw (i.more d x)
          (shuffle (in_memory d x as') (extra flags domain start len d x) (covered d x s));
}
  where
    shuffle : (a b c : Bool) → a || (b || c) ≡ (b || a) || c
    shuffle true true c = refl
    shuffle true false c = refl
    shuffle false true c = refl
    shuffle false false c = refl

AreOpen-save_domain :
    (n flags id domain : ℕ) (s : Srat)
    → AreOpen n s
    → AreOpen (suc n) (save_domain flags id domain s)
AreOpen-save_domain n flags id domain s o =
    rw (covered-save_domain flags id domain s) (AreOpen-more s (omega arith) o)

abbrev entry_at : Memory → ℕ → ℕ → TableEntry
entry_at mem ptr len = record { typ = mem ptr; len = len; ptr = ptr }

affinity-local_apic :
    (mem : Memory) (ptr flags id domain : ℕ) (s : Srat)
    → IsLaid mem ptr (local_apic flags id domain)
    → affinity mem (entry_at mem ptr 16) s ≡ got (save_domain flags id domain s)
unfolding affinity
affinity-local_apic mem ptr flags id domain s (t, f, i, g) =
    let second : mem (suc (ptr + 9)) ≡ mem (ptr + 10) = ap mem (omega arith) in
    let third : mem (suc (suc (ptr + 9))) ≡ mem (ptr + 11) = ap mem (omega arith) in
    let whole : apic_domain mem ptr ≡ domain = omega (arith, g, second, third) in
    rw (affinity, t, f, i, whole)

affinity-x2apic :
    (mem : Memory) (ptr flags id domain : ℕ) (s : Srat)
    → IsLaid mem ptr (x2apic flags id domain)
    → affinity mem (entry_at mem ptr 24) s ≡ got (save_domain flags id domain s)
unfolding affinity
affinity-x2apic mem ptr flags id domain s (t, f, i, g) = rw (affinity, t, f, i, g)

affinity-memory :
    (mem : Memory) (ptr flags domain start len : ℕ) (s : Srat)
    → IsLaid mem ptr (memory flags domain start len)
    → affinity mem (entry_at mem ptr 40) s ≡ save_memory flags domain start len s
unfolding affinity
affinity-memory mem ptr flags domain start len s (t, f, g, st, l) = rw (affinity, t, f, g, st, l)

affinities-IsRead :
    (n : ℕ) (mem : Memory) (ptr end : ℕ) (as' : List Affinity) (s : Srat)
    → AreLaid mem ptr end as'
    → AreBelow as'
    → AreOpen n s
    → n + length as' ≤ 256
    → (s' : Srat) × (affinities mem (entries_of mem ptr (lens as')) s ≡ got s') × IsRead as' s s'
unfolding affinities entries_of lens
affinities-IsRead n mem ptr end [] s h b o m =
    (s, refl, record { domains = λ id. refl; ranges = λ d x. refl })
affinities-IsRead n mem ptr end (local_apic flags id domain ∷ as') s (h, laid, hs) b o m =
    let (s', parsed, r) =
      affinities-IsRead (suc n) mem (ptr + 16) end as' (save_domain flags id domain s) hs b
        (AreOpen-save_domain n flags id domain s o) (omega arith) in
    (
      s',
      affinities-got mem (entry_at mem ptr 16) (entries_of mem (ptr + 16) (lens as')) s
            (save_domain flags id domain s) (affinity-local_apic mem ptr flags id domain s laid)
          ∙ parsed,
      IsRead-domain flags id domain as' s s' (local_apic flags id domain) r (λ i' last. refl)
          (λ d x. refl),
    )
affinities-IsRead n mem ptr end (x2apic flags id domain ∷ as') s (h, laid, hs) b o m =
    let (s', parsed, r) =
      affinities-IsRead (suc n) mem (ptr + 24) end as' (save_domain flags id domain s) hs b
        (AreOpen-save_domain n flags id domain s o) (omega arith) in
    (
      s',
      affinities-got mem (entry_at mem ptr 24) (entries_of mem (ptr + 24) (lens as')) s
            (save_domain flags id domain s) (affinity-x2apic mem ptr flags id domain s laid)
          ∙ parsed,
      IsRead-domain flags id domain as' s s' (x2apic flags id domain) r (λ i' last. refl)
          (λ d x. refl),
    )
affinities-IsRead n mem ptr end (memory flags domain start len ∷ as') s (h, laid, hs) (top, b) o m =
    let (s₁, saved, i) = save_memory-IsSaved n flags domain start len s o (omega arith) top in
    let (s', parsed, r) =
      affinities-IsRead (suc n) mem (ptr + 40) end as' s₁ hs b i.open_sets (omega arith) in
    (
      s',
      affinities-got mem (entry_at mem ptr 40) (entries_of mem (ptr + 40) (lens as')) s s₁
            (affinity-memory mem ptr flags domain start len s laid ∙ saved)
          ∙ parsed,
      IsRead-memory n flags domain start len as' s s₁ s' i r,
    )

-- For a table whose entries, from the offset 48 to its length, are at most 256 affinities, of local APICs of
-- 16 bytes, of memory of 40 bytes that ends below the last address, and of x2APICs of 24 bytes:
-- `Srat::parse` returns the domain of each APIC, which is that of its last enabled entry, and for each
-- domain a set of ranges that holds exactly the addresses of its enabled memory.
pub parse_srat-covered :
    (mem : Memory) (as' : List Affinity)
    → AreLaid mem 48 (length_of mem) as'
    → AreBelow as'
    → length as' ≤ 256
    → (s : Srat) × (parse_srat mem ≡ got s)
      × ((id : ℕ) → map_get id s.apic_to_domain ≡ domain_of id as' none)
      × ((d x : ℕ) → covered d x s ≡ in_memory d x as')
unfolding parse_srat
parse_srat-covered mem as' h b m =
    let (s, parsed, r) =
      affinities-IsRead 0 mem 48 (length_of mem) as' no_affinities h b (λ d r e. absurd cc)
        (omega arith) in
    (
      s,
      rw
          (
            parse_srat,
            parse_table_entries-HasLengths mem 12 (lens as')
                (AreLaid-HasLengths mem 48 (length_of mem) as' h),
          )
          parsed,
      r.domains,
      λ d x. r.ranges d x ∙ or_false (in_memory d x as'),
    )
  where
    or_false : (a : Bool) → a || false ≡ a
    or_false true = refl
    or_false false = refl
