-- ===== src/PageTable/Flags.antt =====
-- The flags that `Permissions::bits` of shared/page_table/src/lib.rs sets.
use elise.Base.{◌≡◌, refl, Bool, true, false, not}
use elise.PageTable.{bit, Permissions, bits, new_permissions, uncached}

-- The bits of any permissions: the write and the user bit are set as the fields say, the no-execute bit is the
-- negation of `execute`, and the cache-disable bit is the negation of `cache`; so it is set for every
-- permissions from `new`, and clear for every permissions from `uncached`.
pub bits-flags :
    (write execute user cache : Bool)
    → let p : Permissions = record {
      write = write;
      execute = execute;
      user = user;
      cache = cache;
    } in
      (bit 1 (bits p) ≡ write)
      × (bit 2 (bits p) ≡ user)
      × (bit 63 (bits p) ≡ not execute)
      × (bit 4 (bits p) ≡ not cache)
      × (bit 4 (bits (new_permissions write execute user)) ≡ true)
      × (bit 4 (bits (uncached write execute user)) ≡ false)
unfolding bits new_permissions uncached
bits-flags true true true true = (refl, refl, refl, refl, refl, refl)
bits-flags true true true false = (refl, refl, refl, refl, refl, refl)
bits-flags true true false true = (refl, refl, refl, refl, refl, refl)
bits-flags true true false false = (refl, refl, refl, refl, refl, refl)
bits-flags true false true true = (refl, refl, refl, refl, refl, refl)
bits-flags true false true false = (refl, refl, refl, refl, refl, refl)
bits-flags true false false true = (refl, refl, refl, refl, refl, refl)
bits-flags true false false false = (refl, refl, refl, refl, refl, refl)
bits-flags false true true true = (refl, refl, refl, refl, refl, refl)
bits-flags false true true false = (refl, refl, refl, refl, refl, refl)
bits-flags false true false true = (refl, refl, refl, refl, refl, refl)
bits-flags false true false false = (refl, refl, refl, refl, refl, refl)
bits-flags false false true true = (refl, refl, refl, refl, refl, refl)
bits-flags false false true false = (refl, refl, refl, refl, refl, refl)
bits-flags false false false true = (refl, refl, refl, refl, refl, refl)
bits-flags false false false false = (refl, refl, refl, refl, refl, refl)
