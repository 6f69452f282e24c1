-- ===== src/Net/Device/Steps.antt =====
-- The calls on a device of kernel/src/net as steps of its state.
use elise.Base.{
  ℕ, ◌≡◌, refl, sym, subst, arith, Option, List, [], ◌∷◌, ◌==◌, ◌≤◌, inl, inr, Bool-cases,
}
use elise.Cursor.{returns}
use elise.Net.Packet.{Packet}
use elise.Net.Udp
use elise.Net.Ports.{
  Ports, Queues, remove_key, next_free, bind_udp_port, unbind_udp, contains_key, ephemeral_start,
}
use elise.Net.Device.{Device, discard, recv_udp, arp}
use elise.Net.Device.Quiet.{AreEmpty}
use elise.Net.Device.Unbound.{discard-ports, recv_udp-ports, arp-ports}

abbrev pub with_ports : Ports → Device → Device
with_ports ports d = record d { ports = ports }

-- A call that returns. `incoming` is what the driver has received at the call, `rounds` what arrives in
-- each retry, and `func` what the caller makes of a packet.
pub data Step (capacity : List Packet → ℕ) (allocated : Packet) {T : Type 0}
    (func : Packet → Udp.Parsed → Option T) : Device → Device → Type 0 where
  takes_port : (d : Device) → Step capacity allocated func d (with_ports ((next_free d.ports).1) d)
  binds :
      (port : ℕ) (d : Device)
      → Step capacity allocated func d (with_ports ((bind_udp_port port d.ports).1) d)
  unbinds :
      (port : ℕ) (d : Device)
      → Step capacity allocated func d (with_ports (unbind_udp port d.ports) d)
  discards :
      (pk : Packet) (d d' : Device)
      → discard capacity allocated pk d ≡ returns d'
      → Step capacity allocated func d d'
  receives :
      (port : ℕ) (incoming : Option Packet) (d d' : Device) (answer : Option T)
      → recv_udp capacity allocated func port incoming d ≡ returns (answer, d')
      → Step capacity allocated func d d'
  resolves :
      (ip : ℕ) (rounds : List (List Packet)) (d d' : Device) (found : Option (List ℕ))
      → arp capacity allocated ip rounds d ≡ returns (found, d')
      → Step capacity allocated func d d'

-- The devices that calls lead to, from one that has bound no port.
pub data Reachable (capacity : List Packet → ℕ) (allocated : Packet) {T : Type 0}
    (func : Packet → Udp.Parsed → Option T) : Device → Type 0 where
  starts :
      (d : Device)
      → d.ports ≡ record { next_free_port = ephemeral_start; udp_binds = [] }
      → Reachable capacity allocated func d
  steps :
      (d d' : Device)
      → Reachable capacity allocated func d
      → Step capacity allocated func d d'
      → Reachable capacity allocated func d'

-- No packet waits, and the next port is an ephemeral one.
pub record IsIdle (s : Ports) : Type 0 where
  pub nothing_waits : AreEmpty s.udp_binds
  pub at_least : ephemeral_start ≤ s.next_free_port
  pub at_most : s.next_free_port ≤ 65535

next_free-IsIdle : (s : Ports) → IsIdle s → IsIdle ((next_free s).1)
unfolding next_free
next_free-IsIdle s h = record {
  nothing_waits = h.nothing_waits;
  at_least = ground (arith, h.at_least, h.at_most);
  at_most = ground (arith, h.at_least, h.at_most);
}

bind_udp_port-IsIdle : (port : ℕ) (s : Ports) → IsIdle s → IsIdle ((bind_udp_port port s).1)
unfolding bind_udp_port
bind_udp_port-IsIdle port s h = elim (Bool-cases (contains_key port s.udp_binds)) [
  | inl e ↦ rw e h
  | inr e ↦ rw e (record {
    nothing_waits = (refl, h.nothing_waits);
    at_least = h.at_least;
    at_most = h.at_most;
  })
]

remove_key-AreEmpty :
    (port : ℕ) (queues : Queues) → AreEmpty queues → AreEmpty (remove_key port queues)
remove_key-AreEmpty port [] h = h
remove_key-AreEmpty port ((p, q) ∷ queues) (e, h) =
    let rest = remove_key-AreEmpty port queues h in
    elim (Bool-cases (p == port)) [ inl x ↦ rw x rest | inr x ↦ rw x (e, rest) ]

unbind_udp-IsIdle : (port : ℕ) (s : Ports) → IsIdle s → IsIdle (unbind_udp port s)
unfolding unbind_udp
unbind_udp-IsIdle port s h = record {
  nothing_waits = remove_key-AreEmpty port s.udp_binds h.nothing_waits;
  at_least = h.at_least;
  at_most = h.at_most;
}

module _ (capacity : List Packet → ℕ) (allocated : Packet) {T : Type 0}
    (func : Packet → Udp.Parsed → Option T) where
  Step-IsIdle :
      (d d' : Device) → Step capacity allocated func d d' → IsIdle d.ports → IsIdle d'.ports
  Step-IsIdle _ _ (takes_port d) h = next_free-IsIdle d.ports h
  Step-IsIdle _ _ (binds port d) h = bind_udp_port-IsIdle port d.ports h
  Step-IsIdle _ _ (unbinds port d) h = unbind_udp-IsIdle port d.ports h
  Step-IsIdle _ _ (discards pk d d' e) h =
      subst IsIdle (sym (discard-ports capacity allocated pk d d' e)) h
  Step-IsIdle _ _ (receives port incoming d d' answer e) h =
      subst IsIdle
        (sym (recv_udp-ports capacity allocated func port incoming d d' answer h.nothing_waits e)) h
  Step-IsIdle _ _ (resolves ip rounds d d' found e) h =
      subst IsIdle (sym (arp-ports capacity allocated ip rounds d d' found e)) h

  -- On every device that calls of `next_free`, `bind_udp_port`, `unbind_udp`, `discard`, `recv_udp` and
  -- `arp` lead to, from one that has bound no port and whose next port is the first ephemeral one, no
  -- packet waits at any port, and the next port lies between the first ephemeral one and 65535.
  pub Reachable-IsIdle : (d : Device) → Reachable capacity allocated func d → IsIdle d.ports
  Reachable-IsIdle _ (starts d e) =
      subst IsIdle (sym e)
        (record { nothing_waits = tt; at_least = omega arith; at_most = omega arith })
  Reachable-IsIdle _ (steps d d' before call) = Step-IsIdle d d' call (Reachable-IsIdle d before)
