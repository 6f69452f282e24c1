-- ===== src/Net/Device/Receive.antt =====
-- What `recv_udp` of kernel/src/net/protocols/udp.rs does with the packets that the UDP builder makes.
use elise.Base.{ℕ, ◌+◌, ◌≤◌, ◌≡◌, ◌≢◌, ap, arith, Option, none, some, List, [], length}
use elise.Cursor.{returns}
use elise.Net.Packet.{Packet, parsed, raw, max_packet_len}
use elise.Net.Udp
use elise.Net.Udp.{parse_udp}
use elise.Net.Builder.Udp.{NetAddress, send_udp}
use elise.Net.Builder.Udp.Carries.{IsAddress, Carries, headers, address_of}
use elise.Net.Builder.Udp.RoundTrip.{send_udp-Carries}
use elise.Net.Device.{Device, queue_at, release, discard, recv_new, recv_udp}
use elise.Net.Device.Quiet.{AreEmpty, IsReleased, discard-IsReleased}

-- A receiver that takes every datagram, with its address.
abbrev pub take_datagram : Packet → Udp.Parsed → Option (NetAddress × List ℕ)
take_datagram pk udp = some (address_of udp, udp.payload)

module _ (capacity : List Packet → ℕ) (allocated : Packet) where
  recv_udp-Carries :
      (addr : NetAddress) (payload : List ℕ) (pk : Packet) (d : Device)
      → Carries addr payload pk
      → queue_at addr.dst_port d.ports.udp_binds ≡ some []
      → recv_udp capacity allocated take_datagram addr.dst_port (some pk) d
        ≡ returns (some (addr, payload), release pk d)
  unfolding recv_udp recv_new
  recv_udp-Carries addr payload pk d c bound =
      let port : c.read.dst_port ≡ addr.dst_port = ap (λ a. a.dst_port) c.same_address in
      rw (← c.same_address, ← c.same_payload) (ground (arith, c.raw_bytes, c.parses, bound))

-- A datagram sent from and to `addr`, of fields in their types and with a payload that fits, in an empty
-- packet with 4096 bytes of memory, and received on its port, where nothing waits, is taken with that
-- address and that payload; then its packet goes back to the driver.
pub send_udp-recv_udp :
    (capacity : List Packet → ℕ) (allocated : Packet) (addr : NetAddress) (payload memory : List ℕ)
    (d : Device)
    → IsAddress addr
    → length memory ≡ 4096
    → headers addr.src_ip + length payload ≤ max_packet_len
    → queue_at addr.dst_port d.ports.udp_binds ≡ some []
    → (pk : Packet) × (send_udp addr payload (record { memory = memory; len = 0 })
        ≡ returns (some (0, length payload), pk))
      × (recv_udp capacity allocated take_datagram addr.dst_port (some pk) d
          ≡ returns (some (addr, payload), release pk d))
send_udp-recv_udp capacity allocated addr payload memory d h size fits bound =
    let (pk, done, carried) = send_udp-Carries addr payload memory h size fits in
    (pk, done, recv_udp-Carries capacity allocated addr payload pk d carried bound)

module _ {T : Type 0} (capacity : List Packet → ℕ) (memory : List ℕ) (none_yet : capacity [] ≡ 0)
    (size : length memory ≡ 4096) (func : Packet → Udp.Parsed → Option T) where
  abbrev allocated : Packet
  allocated = record { memory = memory; len = 0 }

  recv_udp-discard :
      (port : ℕ) (pk : Packet) (d d' : Device) (bytes : List ℕ) (p : Udp.Parsed)
      → queue_at port d.ports.udp_binds ≡ some []
      → raw pk ≡ returns bytes
      → parse_udp bytes ≡ parsed p
      → p.dst_port ≢ port
      → discard capacity allocated pk d ≡ returns d'
      → recv_udp capacity allocated func port (some pk) d ≡ returns (none, d')
  unfolding recv_udp recv_new
  recv_udp-discard port pk d d' bytes p bound e u other done = ground arith

  -- A datagram for another port is not received, and is not kept for a bind on that port: its packet goes
  -- back to the driver and no queue changes. Nothing waits at any port, a new queue has no capacity, the
  -- hardware address has six bytes, and the driver allocates empty packets with 4096 bytes of memory.
  pub recv_udp-IsReleased :
      (port : ℕ) (pk : Packet) (d : Device) (bytes : List ℕ) (p : Udp.Parsed)
      → AreEmpty d.ports.udp_binds
      → length d.mac ≡ 6
      → queue_at port d.ports.udp_binds ≡ some []
      → raw pk ≡ returns bytes
      → parse_udp bytes ≡ parsed p
      → p.dst_port ≢ port
      → (d' : Device) × (recv_udp capacity allocated func port (some pk) d ≡ returns (none, d'))
        × IsReleased pk d d'
  recv_udp-IsReleased port pk d bytes p quiet six bound e u other =
      let (d', done, r) = discard-IsReleased capacity memory none_yet size pk d bytes quiet six e in
      (d', recv_udp-discard port pk d d' bytes p bound e u other done, r)
