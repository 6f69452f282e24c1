-- ===== src/Net/Ports/Tests.antt =====
-- The binds of kernel/src/net/protocols/udp.rs on a device with one bound port, and their laws there.
use elise.Base.{◌≡◌, refl, arith, some, [], ◌∷◌}
use elise.Net.Ports.{Ports, bind_udp, bind_udp_port, next_free}
use elise.Net.Ports.Bind.{IsBound, bind_udp-IsBound}

-- The next free port is the last of the range, and it is bound.
abbrev last_bound : Ports
last_bound = record { next_free_port = 65535; udp_binds = (65535, []) ∷ [] }

-- The search wraps to the start of the range.
bind_udp_wraps :
    bind_udp 2 last_bound
    ≡ (some 49152, record { next_free_port = 49153; udp_binds = (49152, []) ∷ (65535, []) ∷ [] })
unfolding bind_udp bind_udp_port next_free
bind_udp_wraps = refl

bind_udp-IsBound_example : IsBound last_bound (bind_udp 16384 last_bound)
bind_udp-IsBound_example = bind_udp-IsBound last_bound 50000 (omega arith) (omega arith) refl
