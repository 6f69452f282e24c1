-- ===== src/Acpi/Srat/Maps.antt =====
-- The maps of kernel/src/acpi/srat.rs.
use elise.Base.{ℕ, ◌≡◌, arith, some, List, [], ◌∷◌, ◌==◌, if◌then◌else◌}
use elise.Acpi.Srat.{map_insert, map_get}

pub map_get-map_insert :
    {A : Type 0} (k k' : ℕ) (a : A) (m : List (ℕ × A))
    → map_get k' (map_insert k a m) ≡ (if k == k' then some a else map_get k' m)
map_get-map_insert k k' a [] = ground arith
map_get-map_insert k k' a ((j, b) ∷ m) = ground (arith, map_get-map_insert k k' a m)
