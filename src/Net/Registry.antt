-- ===== src/Net/Registry.antt =====
-- The network devices of kernel/src/net/net.rs: `register` while the bus is probed, `lock_in` behind it,
-- and `get`. The two statics and the counter are a record; the calls come one after the other, as in the
-- boot of the kernel.
pub mod Locked
pub mod Least
mod Tests
use elise.Base.{ℕ, ◌+◌, ◌-◌, ◌^◌, Option, none, some, List, [], ◌∷◌, ◌++◌, ltb, ◌==◌, if◌then◌else◌}
use elise.Cursor.{Run, returns, panics}
use elise.Net.Udp
use elise.Net.Lease.{Lease, get_lease}

pub record NetDevice : Type 0 where
  pub id : ℕ
  pub mac : List ℕ
  pub dhcp_lease : Option Lease

-- `PROBED_DEVICES`, `NET_DEVICES` and `NEXT_DEV_ID`
pub record Registry : Type 0 where
  pub next_dev_id : ℕ
  pub probed_devices : Option (List NetDevice)
  pub net_devices : Option (List NetDevice)

abbrev pub at_boot : Registry
at_boot = record { next_dev_id = 0; probed_devices = some []; net_devices = none }

abbrev pub new_device : ℕ → List ℕ → NetDevice
new_device id mac = record { id = id; mac = mac; dhcp_lease = none }

-- The next ID would overflow at `checked_add`.
unfoldable pub register : List ℕ → Registry → Run Registry
register mac r = elim r.net_devices [
  | some _ ↦ panics
  | none ↦ if r.next_dev_id == 2 ^ 64 - 1 then panics else elim r.probed_devices [
    | none ↦ panics
    | some devs ↦ returns (record r {
      next_dev_id = r.next_dev_id + 1;
      probed_devices = some (devs ++ (new_device r.next_dev_id mac ∷ []));
    })
  ]
]

-- What a device with an ID gets from the network: the transaction's ID, and the datagrams that arrive in
-- the two phases of `get_lease`.
pub record Exchange : Type 0 where
  pub xid : ℕ
  pub offers : List Udp.Parsed
  pub acks : List Udp.Parsed

abbrev pub lease_of : Exchange → List ℕ → Option Lease
lease_of x mac = (get_lease x.xid mac x.offers x.acks).1

abbrev pub keep_leased : NetDevice → Option Lease → List NetDevice → List NetDevice
keep_leased dev none devs = devs
keep_leased dev (some l) devs = record dev { dhcp_lease = some l } ∷ devs

module _ (network : ℕ → Exchange) where
  -- The loop of `lock_in`
  unfoldable pub leased : List NetDevice → List NetDevice
  leased [] = []
  leased (dev ∷ devs) =
      let rest = leased devs in keep_leased dev (lease_of (network dev.id) dev.mac) rest

  unfoldable pub lock_in : Registry → Run Registry
  lock_in r = elim r.probed_devices [
    | none ↦ panics
    | some devs ↦ elim r.net_devices [
      | some _ ↦ panics
      | none ↦ returns (record r { probed_devices = none; net_devices = some (leased devs) })
    ]
  ]

-- `counts` are the strong counts at the call; `ret` holds one more reference.
module _ (counts : ℕ → ℕ) where
  abbrev pub strong_count : Option NetDevice → NetDevice → ℕ
  strong_count none dev = counts dev.id
  strong_count (some x) dev = if x.id == dev.id then counts dev.id + 1 else counts dev.id

  abbrev pub cur_best : Option NetDevice → ℕ
  cur_best none = 2 ^ 64 - 1
  cur_best (some x) = strong_count (some x) x - 1

  unfoldable pub least : List NetDevice → Option NetDevice → Option NetDevice
  least [] ret = ret
  least (dev ∷ devs) ret =
      least devs (if ltb (strong_count ret dev) (cur_best ret) then some dev else ret)

  unfoldable pub get : Registry → Option NetDevice
  get r = elim r.net_devices [ none ↦ none | some devs ↦ least devs none ]
