-- ===== src/Net/Registry/Locked.antt =====
-- The devices that `register` and `lock_in` of kernel/src/net/net.rs lead to.
use elise.Base.{
  ℕ, ◌+◌, ◌≤◌, ◌≡◌, refl, sym, subst, ◌⊎◌, inl, inr, arith, Option, none, some, List, [], ◌∷◌, ◌++◌,
}
use elise.Cursor.{returns, panics}
use elise.Net.Lease.{Lease}
use elise.Net.Registry.{
  NetDevice, Registry, Exchange, new_device, at_boot, register, lease_of, keep_leased, leased,
  lock_in,
}

-- The IDs ascend, from `low` on and below `high`.
abbrev pub AreBetween : ℕ → ℕ → List NetDevice → Type 0
AreBetween low high [] = low ≤ high
AreBetween low high (dev ∷ devs) = (low ≤ dev.id) × AreBetween (dev.id + 1) high devs

AreBetween-le :
    (low low' high : ℕ) (devs : List NetDevice)
    → low' ≤ low
    → AreBetween low high devs
    → AreBetween low' high devs
AreBetween-le low low' high [] p h = omega (arith, p, h)
AreBetween-le low low' high (dev ∷ devs) p (q, h) = (omega (arith, p, q), h)

AreBetween-new :
    (low high : ℕ) (mac : List ℕ) (devs : List NetDevice)
    → AreBetween low high devs
    → AreBetween low (high + 1) (devs ++ (new_device high mac ∷ []))
AreBetween-new low high mac [] h = (h, omega arith)
AreBetween-new low high mac (dev ∷ devs) (p, h) = (p, AreBetween-new (dev.id + 1) high mac devs h)

-- Each device has the lease that the network grants to its address.
abbrev pub AreLeased : (ℕ → Exchange) → List NetDevice → Type 0
AreLeased network [] = Unit {0}
AreLeased network (dev ∷ devs) =
    ((l : Lease) × (dev.dhcp_lease ≡ some l) × (lease_of (network dev.id) dev.mac ≡ some l))
    × AreLeased network devs

module _ (network : ℕ → Exchange) where
  keep_leased-AreLeased :
      (dev : NetDevice) (devs : List NetDevice) (lease : Option Lease)
      → lease_of (network dev.id) dev.mac ≡ lease
      → AreLeased network devs
      → AreLeased network (keep_leased dev lease devs)
  keep_leased-AreLeased dev devs none e h = h
  keep_leased-AreLeased dev devs (some l) e h = ((l, refl, e), h)

  leased-AreLeased : (devs : List NetDevice) → AreLeased network (leased network devs)
  unfolding leased
  leased-AreLeased [] = tt
  leased-AreLeased (dev ∷ devs) =
      keep_leased-AreLeased dev (leased network devs) (lease_of (network dev.id) dev.mac) refl
        (leased-AreLeased devs)

  keep_leased-AreBetween :
      (low high : ℕ) (dev : NetDevice) (devs : List NetDevice) (lease : Option Lease)
      → low ≤ dev.id
      → AreBetween (dev.id + 1) high devs
      → AreBetween low high (keep_leased dev lease devs)
  keep_leased-AreBetween low high dev devs none p h =
      AreBetween-le (dev.id + 1) low high devs (omega (arith, p)) h
  keep_leased-AreBetween low high dev devs (some l) p h = (p, h)

  leased-AreBetween :
      (low high : ℕ) (devs : List NetDevice)
      → AreBetween low high devs
      → AreBetween low high (leased network devs)
  unfolding leased
  leased-AreBetween low high [] h = h
  leased-AreBetween low high (dev ∷ devs) (p, h) =
      keep_leased-AreBetween low high dev (leased network devs) (lease_of (network dev.id) dev.mac)
        p (leased-AreBetween (dev.id + 1) high devs h)

-- The registry after calls of `register` and `lock_in` that return.
pub data Reachable (network : ℕ → Exchange) : Registry → Type 0 where
  boots : Reachable network at_boot
  registers :
      (mac : List ℕ) (r r' : Registry)
      → Reachable network r
      → register mac r ≡ returns r'
      → Reachable network r'
  locks_in :
      (r r' : Registry)
      → Reachable network r
      → lock_in network r ≡ returns r'
      → Reachable network r'

pub record IsOpen (r : Registry) : Type 0 where
  pub probed : List NetDevice
  pub holds : r.probed_devices ≡ some probed
  pub ascends : AreBetween 0 r.next_dev_id probed
  pub none_yet : r.net_devices ≡ none

pub record IsLocked (network : ℕ → Exchange) (r : Registry) : Type 0 where
  pub devices : List NetDevice
  pub holds : r.net_devices ≡ some devices
  pub ascends : AreBetween 0 r.next_dev_id devices
  pub all_leased : AreLeased network devices
  pub taken : r.probed_devices ≡ none

-- The device that `register` puts into an open registry; none fits into another.
register-IsOpen :
    (mac : List ℕ) (r r' : Registry) → IsOpen r → register mac r ≡ returns r' → IsOpen r'
unfolding register
register-IsOpen mac r r' o e =
    let held = o.holds in
    let empty = o.none_yet in
    let next : r'.next_dev_id ≡ r.next_dev_id + 1 = ground arith in
    record {
      probed = o.probed ++ (new_device r.next_dev_id mac ∷ []);
      holds = ground arith;
      ascends =
          subst (λ n. AreBetween 0 n (o.probed ++ (new_device r.next_dev_id mac ∷ []))) (sym next)
            (AreBetween-new 0 r.next_dev_id mac o.probed o.ascends);
      none_yet = ground arith;
    }

lock_in-IsLocked :
    (network : ℕ → Exchange) (r r' : Registry)
    → IsOpen r
    → lock_in network r ≡ returns r'
    → IsLocked network r'
unfolding lock_in
lock_in-IsLocked network r r' o e =
    let held = o.holds in
    let empty = o.none_yet in
    let next : r'.next_dev_id ≡ r.next_dev_id = ground arith in
    record {
      devices = leased network o.probed;
      holds = ground arith;
      ascends =
          subst (λ n. AreBetween 0 n (leased network o.probed)) (sym next)
            (leased-AreBetween network 0 r.next_dev_id o.probed o.ascends);
      all_leased = leased-AreLeased network o.probed;
      taken = ground arith;
    }

-- Behind `lock_in`, `register` and a second `lock_in` panic.
pub IsLocked-panics :
    (network : ℕ → Exchange) (mac : List ℕ) (r : Registry)
    → IsLocked network r
    → (register mac r ≡ panics) × (lock_in network r ≡ panics)
unfolding register lock_in
IsLocked-panics network mac r k =
    let held = k.holds in let gone = k.taken in (ground arith, ground arith)

-- A registry that calls of `register` and `lock_in` lead to from the boot is open, with no device to get and
-- the IDs of the probed ones ascending below the next ID, or it is locked: the IDs of its devices ascend
-- below the next ID, each device has the lease that the network grants to its address, and `register` and
-- `lock_in` panic.
pub Reachable-IsOpen :
    (network : ℕ → Exchange) (mac : List ℕ) (r : Registry)
    → Reachable network r
    → IsOpen r ⊎ (IsLocked network r × (register mac r ≡ panics) × (lock_in network r ≡ panics))
Reachable-IsOpen network mac _ boots =
    inl (record { probed = []; holds = refl; ascends = omega arith; none_yet = refl })
Reachable-IsOpen network mac _ (registers new r r' before e) =
    elim (Reachable-IsOpen network new r before) [
      | inl o ↦ inl (register-IsOpen new r r' o e)
      | inr (k, stop, _) ↦ ground arith
    ]
Reachable-IsOpen network mac _ (locks_in r r' before e) =
    elim (Reachable-IsOpen network mac r before) [
      | inl o ↦
          let k = lock_in-IsLocked network r r' o e in
          let (stop, stop') = IsLocked-panics network mac r' k in inr (k, stop, stop')
      | inr (k, _, stop) ↦ ground arith
    ]
