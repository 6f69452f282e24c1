-- ===== src/Net/Lease/Options.antt =====
-- The options of a reply that `get_lease` of kernel/src/net/protocols/dhcp.rs looks for.
use elise.Base.{
  append_assoc, ℕ, ◌≡◌, ◌≢◌, refl, sym, ap, ◌∙◌, arith, true, false, Option, none, some, List, [],
  ◌∷◌, ◌++◌, ◌==◌, Bool-cases, inl, inr,
}
use elise.Net.Dhcp.{
  MessageType, message_from, message_code, DhcpOption, end_option, message_type, server_ip,
  broadcast_ip, subnet_mask, discover, offer, request, ack, unsupported,
}
use elise.Net.Lease.{has_message, find_server_ip, find_broadcast_ip, find_subnet_mask}

-- The options that a reply built from `os` carries.
abbrev pub with_end : List DhcpOption → List DhcpOption
with_end os = os ++ (end_option ∷ [])

-- No option of the list is made by `make`.
abbrev pub Lacks : {A : Type 0} → (A → DhcpOption) → List DhcpOption → Type 0
Lacks make [] = Unit {0}
Lacks {A = A} make (o ∷ os) = ((a : A) → o ≢ make a) × Lacks make os

-- The address of the first option that `make` makes, if there is one.
abbrev pub IsFirst : (ℕ → DhcpOption) → List DhcpOption → Option ℕ → Type 0
IsFirst make os none = Lacks make os
IsFirst make os (some ip) =
    (before : List DhcpOption) × (later : List DhcpOption) × Lacks make before
    × (os ≡ before ++ (make ip ∷ later))

-- A search that returns the address of an option that `make` makes, and passes over the others.
module _ (make : ℕ → DhcpOption) (find : List DhcpOption → Option ℕ)
    (at_end : find (end_option ∷ []) ≡ none)
    (hit : (ip : ℕ) (os : List DhcpOption) → find (make ip ∷ os) ≡ some ip)
    (other : (o : DhcpOption) (os : List DhcpOption)
      → ((ip : ℕ) → o ≢ make ip)
      → find (o ∷ os) ≡ find os) where
  find-Lacks :
      (before later : List DhcpOption) → Lacks make before → find (before ++ later) ≡ find later
  find-Lacks [] later h = refl
  find-Lacks (o ∷ before) later (h, hs) = other o (before ++ later) h ∙ find-Lacks before later hs

  find-IsFirst :
      (os : List DhcpOption) (ip : Option ℕ) → IsFirst make os ip → find (with_end os) ≡ ip
  find-IsFirst os none h = find-Lacks os (end_option ∷ []) h ∙ at_end
  find-IsFirst os (some ip) (before, later, h, e) =
      rw (e, append_assoc before (make ip ∷ later) (end_option ∷ []))
        (find-Lacks before (make ip ∷ with_end later) h ∙ hit ip (with_end later))

server_ip-other :
    (o : DhcpOption) (os : List DhcpOption)
    → ((ip : ℕ) → o ≢ server_ip ip)
    → find_server_ip (o ∷ os) ≡ find_server_ip os
server_ip-other (server_ip ip) os h = absurd (h ip refl)
server_ip-other o os h = refl

broadcast_ip-other :
    (o : DhcpOption) (os : List DhcpOption)
    → ((ip : ℕ) → o ≢ broadcast_ip ip)
    → find_broadcast_ip (o ∷ os) ≡ find_broadcast_ip os
broadcast_ip-other (broadcast_ip ip) os h = absurd (h ip refl)
broadcast_ip-other o os h = refl

subnet_mask-other :
    (o : DhcpOption) (os : List DhcpOption)
    → ((ip : ℕ) → o ≢ subnet_mask ip)
    → find_subnet_mask (o ∷ os) ≡ find_subnet_mask os
subnet_mask-other (subnet_mask ip) os h = absurd (h ip refl)
subnet_mask-other o os h = refl

pub find_server_ip-IsFirst :
    (os : List DhcpOption) (ip : Option ℕ)
    → IsFirst server_ip os ip
    → find_server_ip (with_end os) ≡ ip
find_server_ip-IsFirst = find-IsFirst server_ip find_server_ip refl (λ ip os. refl) server_ip-other

pub find_broadcast_ip-IsFirst :
    (os : List DhcpOption) (ip : Option ℕ)
    → IsFirst broadcast_ip os ip
    → find_broadcast_ip (with_end os) ≡ ip
find_broadcast_ip-IsFirst =
    find-IsFirst broadcast_ip find_broadcast_ip refl (λ ip os. refl) broadcast_ip-other

pub find_subnet_mask-IsFirst :
    (os : List DhcpOption) (ip : Option ℕ)
    → IsFirst subnet_mask os ip
    → find_subnet_mask (with_end os) ≡ ip
find_subnet_mask-IsFirst =
    find-IsFirst subnet_mask find_subnet_mask refl (λ ip os. refl) subnet_mask-other

-- One of the options is the message type `m`.
abbrev pub HasKind : MessageType → List DhcpOption → Type 0
HasKind m os =
    (before : List DhcpOption) × (later : List DhcpOption) × (os
      ≡ before ++ (message_type m ∷ later))

-- None is.
abbrev pub LacksKind : MessageType → List DhcpOption → Type 0
LacksKind m = Lacks {A = Unit {0}} (λ _. message_type m)

message_code-injective : (m n : MessageType) → message_code m ≡ message_code n → m ≡ n
unfolding message_from
message_code-injective m n e = sym (from_code m) ∙ ap message_from e ∙ from_code n
  where
    from_code : (m : MessageType) → message_from (message_code m) ≡ m
    from_code discover = refl
    from_code offer = refl
    from_code request = refl
    from_code ack = refl
    from_code unsupported = refl

has_message-before :
    (m : MessageType) (before later : List DhcpOption)
    → has_message m (before ++ (message_type m ∷ later)) ≡ true
has_message-before m [] later = ground arith
has_message-before m (message_type n ∷ before) later =
    ground (arith, has_message-before m before later)
has_message-before m (o ∷ before) later = has_message-before m before later

pub has_message-HasKind :
    (m : MessageType) (os : List DhcpOption) → HasKind m os → has_message m (with_end os) ≡ true
has_message-HasKind m os (before, later, e) =
    rw (e, append_assoc before (message_type m ∷ later) (end_option ∷ []))
      (has_message-before m before (with_end later))

pub has_message-LacksKind :
    (m : MessageType) (os : List DhcpOption) → LacksKind m os → has_message m (with_end os) ≡ false
has_message-LacksKind m [] h = refl
has_message-LacksKind m (message_type n ∷ os) (h, hs) =
    elim (Bool-cases (message_code n == message_code m)) [
      | inl same ↦
          let codes : message_code n ≡ message_code m = ground arith in
          absurd (h tt (ap message_type (message_code-injective n m codes)))
      | inr differ ↦ rw (differ, has_message-LacksKind m os hs) refl
    ]
has_message-LacksKind m (o ∷ os) (h, hs) = has_message-LacksKind m os hs
