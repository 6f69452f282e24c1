-- ===== src/OnceLock/Tests.antt =====
-- Threads at a lock of shared/oncelock/src/lib.rs.
use elise.Base.{ℕ, ◌≡◌, refl, some}
use elise.OnceLock.{
  OnceLock, new, uninitialized, returns, get, try_get, swap_initialized, write_value, swaps, writes,
  Reachable, start, then_step,
}
use elise.OnceLock.Kept.{Reachable-get}

abbrev half_set : OnceLock ℕ
half_set = swap_initialized 0 7 (new ℕ)

abbrev all_set : OnceLock ℕ
all_set = write_value 0 7 half_set

half_set_reached : Reachable (new ℕ) half_set
half_set_reached = then_step start (swaps 0 7 refl refl)

-- Between the two steps of `set`, `get` reads memory that is not initialized.
half_set_read : get half_set ≡ uninitialized
half_set_read = refl

half_set_tried : try_get half_set ≡ some uninitialized
half_set_tried = refl

all_set_reached : Reachable (new ℕ) all_set
all_set_reached = then_step half_set_reached (writes 0 7 refl)

Reachable-get_example : get all_set ≡ returns 7
Reachable-get_example = Reachable-get all_set_reached start refl
