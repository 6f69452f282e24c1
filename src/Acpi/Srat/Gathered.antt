-- ===== src/Acpi/Srat/Gathered.antt =====
-- `Srat::parse` of kernel/src/acpi/srat.rs on the affinities that a table describes.
use elise.Base.{
  ℕ, ◌+◌, ◌*◌, ◌≤◌, ◌≡◌, arith, Bool, false, ◌&&◌, ◌||◌, Option, none, some, List, [], ◌∷◌, ◌==◌,
  ltb, leb, if◌then◌else◌, u64_max,
}
use elise.RangeSet.{RangeSet, entries}
use elise.RangeSet.Entries.{covers}
use elise.RangeSet.Gathered.{IsOpen}
use elise.Acpi.{Memory, read_unaligned}
use elise.Acpi.Laid.{HasLengths}
use elise.Acpi.Srat.{Srat, map_get, is_enabled}

-- An entry of the SRAT as the ACPI specification describes it, as far as the code reads it: of a local
-- APIC and of an x2APIC, the flags, the ID and the domain; of memory, the flags, the domain, the start and
-- the length. The low byte of a local APIC's domain stands apart from the three others.
pub data Affinity : Type 0 where
  local_apic x2apic : ℕ → ℕ → ℕ → Affinity
  memory : ℕ → ℕ → ℕ → ℕ → Affinity

abbrev pub entry_len : Affinity → ℕ
entry_len (local_apic _ _ _) = 16
entry_len (x2apic _ _ _) = 24
entry_len (memory _ _ _ _) = 40

abbrev pub IsLaid : Memory → ℕ → Affinity → Type 0
IsLaid mem ptr (local_apic flags id domain) =
    (mem ptr ≡ 0)
    × (read_unaligned 4 mem (ptr + 4) ≡ flags)
    × (mem (ptr + 3) ≡ id)
    × (mem (ptr + 2) + 256 * read_unaligned 3 mem (ptr + 9) ≡ domain)
IsLaid mem ptr (memory flags domain start len) =
    (mem ptr ≡ 1)
    × (read_unaligned 4 mem (ptr + 28) ≡ flags)
    × (read_unaligned 4 mem (ptr + 2) ≡ domain)
    × (read_unaligned 8 mem (ptr + 8) ≡ start)
    × (read_unaligned 8 mem (ptr + 16) ≡ len)
IsLaid mem ptr (x2apic flags id domain) =
    (mem ptr ≡ 2)
    × (read_unaligned 4 mem (ptr + 12) ≡ flags)
    × (read_unaligned 4 mem (ptr + 8) ≡ id)
    × (read_unaligned 4 mem (ptr + 4) ≡ domain)

-- The affinities from `ptr` to `end`.
abbrev pub AreLaid : Memory → ℕ → ℕ → List Affinity → Type 0
AreLaid mem ptr end [] = ptr ≡ end
AreLaid mem ptr end (a ∷ as') =
    (mem (ptr + 1) ≡ entry_len a) × IsLaid mem ptr a × AreLaid mem (ptr + entry_len a) end as'

-- Enabled memory ends below the last address.
abbrev pub AreBelow : List Affinity → Type 0
AreBelow [] = Unit {0}
AreBelow (memory flags domain start len ∷ as') = (start + len ≤ u64_max) × AreBelow as'
AreBelow (_ ∷ as') = AreBelow as'

-- The domain of an APIC: that of its last enabled entry.
abbrev pub domain_of : ℕ → List Affinity → Option ℕ → Option ℕ
domain_of id [] last = last
domain_of id (local_apic flags i domain ∷ as') last =
    domain_of id as' (if is_enabled flags && i == id then some domain else last)
domain_of id (x2apic flags i domain ∷ as') last =
    domain_of id as' (if is_enabled flags && i == id then some domain else last)
domain_of id (memory _ _ _ _ ∷ as') last = domain_of id as' last

-- Whether an address is in enabled memory of a domain.
abbrev pub in_memory : ℕ → ℕ → List Affinity → Bool
in_memory d x [] = false
in_memory d x (memory flags domain start len ∷ as') =
    is_enabled flags && domain == d && leb start x && ltb x (start + len) || in_memory d x as'
in_memory d x (_ ∷ as') = in_memory d x as'

-- What the maps answer.
abbrev pub covers_in : Option RangeSet → ℕ → Bool
covers_in none x = false
covers_in (some r) x = covers (entries r) x

abbrev pub covered : ℕ → ℕ → Srat → Bool
covered d x s = covers_in (map_get d s.domain_to_ranges) x

-- The sets of a state hold at most `n` ranges each.
abbrev pub AreOpen : ℕ → Srat → Type 0
AreOpen n s = (d : ℕ) (r : RangeSet) → map_get d s.domain_to_ranges ≡ some r → IsOpen n r

unfoldable pub lens : List Affinity → List ℕ
lens [] = []
lens (a ∷ as') = entry_len a ∷ lens as'

pub AreLaid-HasLengths :
    (mem : Memory) (ptr end : ℕ) (as' : List Affinity)
    → AreLaid mem ptr end as'
    → HasLengths mem ptr end (lens as')
unfolding lens
AreLaid-HasLengths mem ptr end [] h = h
AreLaid-HasLengths mem ptr end (local_apic _ _ _ ∷ as') h =
    (h.0, omega arith, AreLaid-HasLengths mem (ptr + 16) end as' h.2)
AreLaid-HasLengths mem ptr end (x2apic _ _ _ ∷ as') h =
    (h.0, omega arith, AreLaid-HasLengths mem (ptr + 24) end as' h.2)
AreLaid-HasLengths mem ptr end (memory _ _ _ _ ∷ as') h =
    (h.0, omega arith, AreLaid-HasLengths mem (ptr + 40) end as' h.2)
