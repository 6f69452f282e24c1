-- ===== src/Net/Registry/Tests.antt =====
-- A machine with two devices of kernel/src/net/net.rs, of which the first gets a lease, and the laws of the
-- registry there.
use elise.Base.{ℕ, ◌≡◌, refl, ◌⊎◌, some, none, List, [], ◌∷◌, ◌==◌, if◌then◌else◌}
use elise.Cursor.{panics}
use elise.Net.Lease.Tests.{mac, xid, reply_with, offered, granted}
use elise.Net.Registry.{
  NetDevice, Registry, Exchange, new_device, at_boot, register, leased, lock_in,
}
use elise.Net.Registry.Locked
use elise.Net.Registry.Locked.{Reachable, IsOpen, IsLocked, Reachable-IsOpen}

abbrev other_mac : List ℕ
other_mac = 2 ∷ 0 ∷ 0 ∷ 0 ∷ 0 ∷ 9 ∷ []

-- Only the first device hears an offer.
abbrev network : ℕ → Exchange
network id = record {
  xid = xid;
  offers = if id == 0 then reply_with offered ∷ [] else [];
  acks = reply_with granted ∷ [];
}

abbrev two_devices : List NetDevice
two_devices = new_device 0 mac ∷ new_device 1 other_mac ∷ []

abbrev one_probed : Registry
one_probed = record at_boot { next_dev_id = 1; probed_devices = some (new_device 0 mac ∷ []) }

abbrev two_probed : Registry
two_probed = record at_boot { next_dev_id = 2; probed_devices = some two_devices }

abbrev all_locked : Registry
all_locked = record {
  next_dev_id = 2;
  probed_devices = none;
  net_devices = some (leased network two_devices);
}

all_locked-Reachable : Reachable network all_locked
unfolding register lock_in
all_locked-Reachable =
    Locked.locks_in two_probed all_locked
      (Locked.registers other_mac one_probed two_probed
        (Locked.registers mac at_boot one_probed Locked.boots refl) refl)
      refl

Reachable-IsOpen_example :
    IsOpen all_locked
    ⊎ (IsLocked network all_locked
        × (register other_mac all_locked ≡ panics)
        × (lock_in network all_locked ≡ panics))
Reachable-IsOpen_example = Reachable-IsOpen network other_mac all_locked all_locked-Reachable
