-- ===== src/Acpi/Srat/Tests.antt =====
-- A small table for `Srat::parse` of kernel/src/acpi/srat.rs.
use elise.Base.{ℕ, ◌≡◌, refl, arith, true, some, none, List, [], ◌∷◌, ◌++◌, replicate}
use elise.Acpi.{Memory, length_of}
use elise.Acpi.Tests.{table_byte}
use elise.Acpi.Srat.{Srat, got, map_get, parse_srat}
use elise.Acpi.Srat.Gathered.{
  Affinity, local_apic, x2apic, memory, AreLaid, domain_of, in_memory, covered,
}
use elise.Acpi.Srat.Parsed.{parse_srat-covered}

-- The x2APIC 7 and the memory from 4096 to 12287, both in the domain 1, and the local APIC 5 in the domain 258.
abbrev small_srat : Memory
small_srat = table_byte (
    83
    ∷ 82
    ∷ 65
    ∷ 84
    ∷ 128
    ∷ (replicate 43 0
        ++ (2 ∷ 24 ∷ 0 ∷ 0 ∷ 1 ∷ 0 ∷ 0 ∷ 0 ∷ 7 ∷ 0 ∷ 0 ∷ 0 ∷ 1 ∷ 0 ∷ 0 ∷ 0 ∷ 0 ∷ 0 ∷ 0 ∷ 0 ∷ 0 ∷ 0
            ∷ 0 ∷ 0 ∷ 1 ∷ 40 ∷ 1 ∷ 0 ∷ 0 ∷ 0 ∷ 0 ∷ 0 ∷ 0 ∷ 16 ∷ 0 ∷ 0 ∷ 0 ∷ 0 ∷ 0 ∷ 0 ∷ 0 ∷ 32 ∷ 0
            ∷ 0 ∷ 0 ∷ 0 ∷ 0 ∷ 0 ∷ 0 ∷ 0 ∷ 0 ∷ 0 ∷ 1 ∷ 0 ∷ 0 ∷ 0 ∷ 0 ∷ 0 ∷ 0 ∷ 0 ∷ 0 ∷ 0 ∷ 0 ∷ 0 ∷ 0
            ∷ 16 ∷ 2 ∷ 5 ∷ 1 ∷ 0 ∷ 0 ∷ 0 ∷ 0 ∷ 1 ∷ 0 ∷ 0 ∷ 0 ∷ 0 ∷ 0 ∷ 0 ∷ [])))

abbrev affinities_of : List Affinity
affinities_of = x2apic 1 7 1 ∷ memory 1 1 4096 8192 ∷ local_apic 1 5 258 ∷ []

small_srat-AreLaid : AreLaid small_srat 48 (length_of small_srat) affinities_of
small_srat-AreLaid = (
  refl,
  (refl, refl, refl, refl),
  (refl, (refl, refl, refl, refl, refl), (refl, (refl, refl, refl, refl), refl)),
)

parse_srat-covered_example :
    (s : Srat) × (parse_srat small_srat ≡ got s)
    × ((id : ℕ) → map_get id s.apic_to_domain ≡ domain_of id affinities_of none)
    × ((d x : ℕ) → covered d x s ≡ in_memory d x affinities_of)
parse_srat-covered_example =
    parse_srat-covered small_srat affinities_of small_srat-AreLaid (omega arith) (omega arith)

-- The answers for that table.
domain_of_seven : domain_of 7 affinities_of none ≡ some 1
domain_of_seven = refl

last_address : in_memory 1 12287 affinities_of ≡ true
last_address = refl
