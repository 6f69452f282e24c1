-- ===== src/Net/Ports.antt =====
-- The UDP ports of a device: `Port::next_free` of kernel/src/net/net.rs, and the binds of
-- kernel/src/net/protocols/udp.rs. The lock is taken for the whole of each operation.
pub mod Bind
mod Tests
use elise.Base.{
  ℕ, zero, suc, ◌+◌, Bool, true, false, ◌||◌, Option, none, some, List, [], ◌∷◌, ◌==◌,
  if◌then◌else◌,
}
use elise.Net.Packet.{Packet}

abbrev pub ephemeral_start : ℕ
ephemeral_start = 49152

-- The map from a bound port to the packets that wait there.
abbrev pub Queues : Type 0
Queues = List (ℕ × List Packet)

abbrev pub contains_key : ℕ → Queues → Bool
contains_key port [] = false
contains_key port ((p, q) ∷ queues) = p == port || contains_key port queues

abbrev pub remove_key : ℕ → Queues → Queues
remove_key port [] = []
remove_key port ((p, q) ∷ queues) =
    let rest = remove_key port queues in if p == port then rest else (p, q) ∷ rest

-- The static `NEXT_FREE_PORT` and the binds of the device
pub record Ports : Type 0 where
  pub next_free_port : ℕ
  pub udp_binds : Queues

-- The update of `next_free`, which returns the value before it.
abbrev pub next_port : ℕ → ℕ
next_port prev = if prev == 65535 then ephemeral_start else prev + 1

unfoldable pub next_free : Ports → ℕ × Ports
next_free s = (s.next_free_port, record s { next_free_port = next_port s.next_free_port })

unfoldable pub bind_udp_port : ℕ → Ports → Option ℕ × Ports
bind_udp_port port s =
    if contains_key port s.udp_binds
    then (none, s)
    else (some port, record s { udp_binds = (port, []) ∷ s.udp_binds })

-- `unbind_udp`; the packets that waited go back to the driver.
unfoldable pub unbind_udp : ℕ → Ports → Ports
unbind_udp port s = record s { udp_binds = remove_key port s.udp_binds }

-- The loop of `bind_udp`, on fuel: `none` says that there was too little.
unfoldable pub bind_udp : ℕ → Ports → Option ℕ × Ports
unfolding next_free bind_udp_port
bind_udp zero s = (none, s)
bind_udp (suc fuel) s =
    let (port, s₁) = next_free s in
    let (bind, s₂) = bind_udp_port port s₁ in
    let rest = bind_udp fuel s₂ in elim bind [ none ↦ rest | some p ↦ (some p, s₂) ]
