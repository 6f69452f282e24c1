-- ===== src/Net/Ports/Bind.antt =====
-- `bind_udp` of kernel/src/net/protocols/udp.rs finds a port while one is left.
use elise.Base.{
  ℕ, zero, suc, ◌+◌, ◌≤◌, ◌<◌, ◌≡◌, ◌≢◌, refl, sym, ap, ◌∙◌, dec_le, ◌-◌, ◌⊎◌, inl, inr, arith,
  Bool, true, false, Option, some, [], ◌∷◌,
}
use elise.Net.Ports.{Ports, Queues, contains_key, next_port, next_free, bind_udp_port, bind_udp}

abbrev pub IsEphemeral : ℕ → Type 0
IsEphemeral port = (49152 ≤ port) × (port < 65536)

-- A new bind, on an ephemeral port that was free, with nothing waiting and the other binds as they were.
pub record IsBound (s : Ports) (result : Option ℕ × Ports) : Type 0 where
  pub port : ℕ
  pub answer : result.0 ≡ some port
  pub ephemeral : IsEphemeral port
  pub was_free : contains_key port s.udp_binds ≡ false
  pub binds : result.1.udp_binds ≡ (port, []) ∷ s.udp_binds
  pub next_ephemeral : IsEphemeral (result.1.next_free_port)

true-ne-false : true ≡ false → ⊥
true-ne-false e = cc

abbrev at : ℕ → Queues → Ports
at next queues = record { next_free_port = next; udp_binds = queues }

-- The free port lies `ahead` steps on from the next one, on the ring of ephemeral ports.
abbrev Ahead : ℕ → ℕ → ℕ → Type 0
Ahead free next ahead = (free ≡ next + ahead) ⊎ (free + 16384 ≡ next + ahead)

next_port-IsEphemeral : (next : ℕ) → IsEphemeral next → IsEphemeral (next_port next)
next_port-IsEphemeral next e = ground arith

Ahead-next_port :
    (free next ahead : ℕ)
    → IsEphemeral next
    → IsEphemeral free
    → free ≢ next
    → Ahead free next ahead
    → (a : ℕ) × (ahead ≡ suc a) × Ahead free (next_port next) a
Ahead-next_port free next zero e f other (inl h) = absurd (other (omega arith))
Ahead-next_port free next zero e f other (inr h) = absurd (omega arith)
Ahead-next_port free next (suc a) e f other h = (a, refl, ground arith)

bind_udp-free :
    (fuel next : ℕ) (queues : Queues)
    → contains_key next queues ≡ false
    → bind_udp (suc fuel) (at next queues) ≡ (some next, at (next_port next) ((next, []) ∷ queues))
unfolding bind_udp bind_udp_port next_free
bind_udp-free fuel next queues c = ground arith

bind_udp-bound :
    (fuel next : ℕ) (queues : Queues)
    → contains_key next queues ≡ true
    → bind_udp (suc fuel) (at next queues) ≡ bind_udp fuel (at (next_port next) queues)
unfolding bind_udp bind_udp_port next_free
bind_udp-bound fuel next queues c = ground arith

-- One round, given what the later ones do where the next port is bound.
bind_udp-round :
    (fuel next : ℕ) (queues : Queues) (b : Bool)
    → IsEphemeral next
    → contains_key next queues ≡ b
    → (b ≡ true → IsBound (at (next_port next) queues) (bind_udp fuel (at (next_port next) queues)))
    → IsBound (at next queues) (bind_udp (suc fuel) (at next queues))
bind_udp-round fuel next queues false e c later = rw (bind_udp-free fuel next queues c) (record {
  port = next;
  answer = refl;
  ephemeral = e;
  was_free = c;
  binds = refl;
  next_ephemeral = next_port-IsEphemeral next e;
})
bind_udp-round fuel next queues true e c later =
    let rest = later refl in
    rw (bind_udp-bound fuel next queues c) (record {
      port = rest.port;
      answer = rest.answer;
      ephemeral = rest.ephemeral;
      was_free = rest.was_free;
      binds = rest.binds;
      next_ephemeral = rest.next_ephemeral;
    })

free-ne-bound :
    (free next : ℕ) (queues : Queues)
    → contains_key free queues ≡ false
    → contains_key next queues ≡ true
    → free ≢ next
free-ne-bound free next queues unbound bound same =
    true-ne-false (sym bound ∙ ap (λ p. contains_key p queues) (sym same) ∙ unbound)

bind_udp-Ahead :
    (fuel ahead free next : ℕ) (queues : Queues)
    → IsEphemeral next
    → IsEphemeral free
    → contains_key free queues ≡ false
    → ahead < fuel
    → Ahead free next ahead
    → IsBound (at next queues) (bind_udp fuel (at next queues))
bind_udp-Ahead zero ahead free next queues e f unbound n h = absurd (omega arith)
bind_udp-Ahead (suc fuel) ahead free next queues e f unbound n h =
    bind_udp-round fuel next queues (contains_key next queues) e refl λ bound.
      let (a, fewer, h') =
        Ahead-next_port free next ahead e f (free-ne-bound free next queues unbound bound) h in
      bind_udp-Ahead fuel a free (next_port next) queues (next_port-IsEphemeral next e) f unbound
        (omega (arith, n, fewer)) h'

-- With the next free port in the ephemeral range and some ephemeral port unbound, 16384 rounds of `bind_udp`
-- are enough: it binds an ephemeral port that was free, with nothing waiting there, keeps the other binds,
-- and the next free port stays in the range.
pub bind_udp-IsBound :
    (s : Ports) (free : ℕ)
    → IsEphemeral s.next_free_port
    → IsEphemeral free
    → contains_key free s.udp_binds ≡ false
    → IsBound s (bind_udp 16384 s)
bind_udp-IsBound s free e f unbound = elim (dec_le s.next_free_port free) [
  | yes after ↦
      bind_udp-Ahead 16384 (free - s.next_free_port) free s.next_free_port s.udp_binds e f unbound
        (omega arith) (inl (omega arith))
  | no before ↦
      bind_udp-Ahead 16384 (free + 16384 - s.next_free_port) free s.next_free_port s.udp_binds e f
        unbound (omega arith) (inr (omega arith))
]
