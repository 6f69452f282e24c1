-- ===== src/Net/Registry/Least.antt =====
-- `NetDevice::get` of kernel/src/net/net.rs and the counts of references.
use elise.Base.{
  ℕ, ◌-◌, ◌^◌, ◌≤◌, ◌<◌, ◌≡◌, refl, ◌⊎◌, inl, inr, arith, Bool-cases, true, none, some, List, [],
  ◌∷◌, ltb,
}
use elise.Net.Registry.{NetDevice, Registry, strong_count, cur_best, least, get}

abbrev pub IsIn : NetDevice → List NetDevice → Type 0
IsIn d [] = ⊥
IsIn d (dev ∷ devs) = (d ≡ dev) ⊎ IsIn d devs

module _ (counts : ℕ → ℕ) where
  abbrev pub AreAtLeast : ℕ → List NetDevice → Type 0
  AreAtLeast n [] = Unit {0}
  AreAtLeast n (dev ∷ devs) = (n ≤ counts dev.id) × AreAtLeast n devs

  AreAtLeast-le : (n m : ℕ) (devs : List NetDevice) → n ≤ m → AreAtLeast m devs → AreAtLeast n devs
  AreAtLeast-le n m [] p h = tt
  AreAtLeast-le n m (dev ∷ devs) p (q, h) = (omega (arith, p, q), AreAtLeast-le n m devs p h)

  least-some :
      (devs : List NetDevice) (x : NetDevice)
      → (d : NetDevice) × (least counts devs (some x) ≡ some d)
        × ((d ≡ x) ⊎ IsIn d devs)
        × (counts d.id ≤ counts x.id)
        × AreAtLeast (counts d.id) devs
  unfolding least
  least-some [] x = (x, refl, inl refl, omega arith, tt)
  least-some (dev ∷ devs) x =
      elim (Bool-cases (ltb (strong_count counts (some x) dev) (cur_best counts (some x)))) [
        | inl e ↦
            let (d, found, place, low, rest) = least-some devs dev in
            (d, rw e found, inr place, ground (arith, low, e), (low, rest))
        | inr e ↦
            let (d, found, place, low, rest) = least-some devs x in
            (
              d,
              rw e found,
              elim place [ inl p ↦ inl p | inr p ↦ inr (inr p) ],
              low,
              (ground (arith, low, e), rest),
            )
      ]

  -- Where the list of devices is locked in and has a first device with fewer than 2^64 - 1 references, `get`
  -- returns a device of the list, and no device of the list has fewer references.
  pub get-IsIn :
      (r : Registry) (first : NetDevice) (devs : List NetDevice)
      → r.net_devices ≡ some (first ∷ devs)
      → counts first.id < 2 ^ 64 - 1
      → (d : NetDevice) × (get counts r ≡ some d)
        × IsIn d (first ∷ devs)
        × AreAtLeast (counts d.id) (first ∷ devs)
  unfolding get least
  get-IsIn r first devs e few =
      let (d, found, place, low, rest) = least-some devs first in
      let better : ltb (strong_count counts none first) (cur_best counts none) ≡ true =
        ground (arith, few) in
      (d, rw (e, better) found, place, (low, rest))
