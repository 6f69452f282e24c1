-- ===== src/Net/Lease/Granted.antt =====
-- The two phases of `get_lease` in kernel/src/net/protocols/dhcp.rs, with a server that answers.
use elise.Base.{ℕ, List, [], ◌∷◌, ◌++◌}
use elise.Net.Bytes.{be32}
use elise.Net.Udp
use elise.Net.Dhcp.{MessageType}
use elise.Net.Lease.Heard.{IsOther}

-- The options of a discovery, as bytes: the kind of message, and the four options asked for.
abbrev pub discovery : List ℕ
discovery = 53 ∷ 1 ∷ 1 ∷ 55 ∷ 4 ∷ 53 ∷ 54 ∷ 28 ∷ 1 ∷ 255 ∷ []

-- Those of a request for an address of a server.
abbrev pub request_for : ℕ → ℕ → List ℕ
request_for ip server =
    53
    ∷ 1
    ∷ 3
    ∷ 55
    ∷ 4
    ∷ 53
    ∷ 54
    ∷ 28
    ∷ 1
    ∷ 50
    ∷ 4
    ∷ (be32 ip ++ (54 ∷ 4 ∷ (be32 server ++ (255 ∷ []))))

-- Datagrams that a phase passes over.
abbrev pub AreOther : MessageType → ℕ → List ℕ → List Udp.Parsed → Type 0
AreOther m xid mac [] = Unit {0}
AreOther m xid mac (udp ∷ later) = IsOther m xid mac udp × AreOther m xid mac later
