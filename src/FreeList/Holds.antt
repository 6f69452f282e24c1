-- ===== src/FreeList/Holds.antt =====
-- The free list of kernel/src/mm.rs as a stack of addresses.
use elise.Base.{
  ℕ, zero, suc, ◌-◌, ◌≤◌, ◌≡◌, ◌≢◌, refl, sym, ap, ◌∙◌, subst, arith, true, false, ◌==◌, ==_iff,
  if◌then◌else◌, List, [], ◌∷◌, ◌++◌, ◌⊎◌,
}
use elise.FreeList.{FreeListNode, FreeList, Blocks, set_block, is_linked, available_slots}

abbrev pub IsAbsent : ℕ → List ℕ → Type 0
IsAbsent a [] = Unit {0}
IsAbsent a (x ∷ xs) = (a ≢ x) × IsAbsent a xs

abbrev pub slots : (ℕ → ℕ) → ℕ → ℕ → List ℕ
slots f k zero = []
slots f k (suc n) = f k ∷ slots f (suc k) n

-- The free addresses in the stack of a node.
abbrev pub stack_of : FreeList → FreeListNode → List ℕ
stack_of l node =
    if is_linked l
    then []
    else slots node.free_addrs node.free_slots (available_slots l - node.free_slots)

abbrev pub contents : FreeList → Blocks → List ℕ → List ℕ
contents l mem [] = []
contents l mem (n ∷ ns) = stack_of l (mem n) ++ n ∷ contents l mem ns

-- The nodes from an address on.
abbrev pub IsChain : FreeList → Blocks → ℕ → List ℕ → Type 0
IsChain l mem head [] = head ≡ 0
IsChain l mem head (n ∷ ns) =
    (head ≡ n)
    × (n ≢ 0)
    × ((is_linked l ≡ true) ⊎ ((mem n).free_slots ≤ available_slots l))
    × IsAbsent n ns
    × IsChain l mem (mem n).next ns

-- The free list holds the addresses, the one that is handed out next first.
pub record Holds (l : FreeList) (mem : Blocks) (xs : List ℕ) : Type 0 where
  pub nodes : List ℕ
  pub chain : IsChain l mem l.head nodes
  pub same : contents l mem nodes ≡ xs

pub at_block : (a : ℕ) (node : FreeListNode) (mem : Blocks) → set_block a node mem a ≡ node
at_block a node mem = rw ((==_iff a a).1 refl)

pub apart_false : (a b : ℕ) → a ≢ b → (b == a) ≡ false
apart_false a b h = ground arith

off_block : (a b : ℕ) (node : FreeListNode) (mem : Blocks) → a ≢ b → set_block a node mem b ≡ mem b
off_block a b node mem h = rw (apart_false a b h)

IsAbsent-append : (a : ℕ) (xs ys : List ℕ) → IsAbsent a (xs ++ ys) → IsAbsent a ys
IsAbsent-append a [] ys h = h
IsAbsent-append a (x ∷ xs) ys h = IsAbsent-append a xs ys h.1

IsAbsent-contents :
    (a : ℕ) (l : FreeList) (mem : Blocks) (ns : List ℕ)
    → IsAbsent a (contents l mem ns)
    → IsAbsent a ns
IsAbsent-contents a l mem [] h = tt
IsAbsent-contents a l mem (n ∷ ns) h =
    let rest = IsAbsent-append a (stack_of l (mem n)) (n ∷ contents l mem ns) h in
    (rest.0, IsAbsent-contents a l mem ns rest.1)

-- A change of a block that is no node of the chain.
pub IsChain-set_block :
    (l : FreeList) (mem : Blocks) (a : ℕ) (node : FreeListNode) (head : ℕ) (ns : List ℕ)
    → IsAbsent a ns
    → IsChain l mem head ns
    → IsChain l (set_block a node mem) head ns
IsChain-set_block l mem a node head [] absent c = c
IsChain-set_block l mem a node head (n ∷ ns) absent c =
    let e = off_block a n node mem absent.0 in
    (
      c.0,
      c.1,
      subst (λ (x : FreeListNode). (is_linked l ≡ true) ⊎ (x.free_slots ≤ available_slots l))
          (sym e) c.2,
      c.3,
      subst (λ (x : FreeListNode). IsChain l (set_block a node mem) x.next ns) (sym e)
          (IsChain-set_block l mem a node (mem n).next ns absent.1 c.4),
    )

pub contents-set_block :
    (l : FreeList) (mem : Blocks) (a : ℕ) (node : FreeListNode) (ns : List ℕ)
    → IsAbsent a ns
    → contents l (set_block a node mem) ns ≡ contents l mem ns
contents-set_block l mem a node [] absent = refl
contents-set_block l mem a node (n ∷ ns) absent =
    rw (off_block a n node mem absent.0, contents-set_block l mem a node ns absent.1)

-- A node that is put before the others, with no address in its stack.
pub node-Holds :
    (l : FreeList) (mem : Blocks) (vaddr : ℕ) (node : FreeListNode) (xs : List ℕ)
    → Holds l mem xs
    → vaddr ≢ 0
    → IsAbsent vaddr xs
    → node.next ≡ l.head
    → stack_of l node ≡ []
    → (is_linked l ≡ true) ⊎ (node.free_slots ≤ available_slots l)
    → Holds (record l { head = vaddr }) (set_block vaddr node mem) (vaddr ∷ xs)
node-Holds l mem vaddr node xs h n absent next empty room =
    let ns = h.nodes in
    let free = IsAbsent-contents vaddr l mem ns (subst (IsAbsent vaddr) (sym h.same) absent) in
    let at = at_block vaddr node mem in
    record {
      nodes = vaddr ∷ ns;
      chain = (
        refl,
        n,
        subst (λ (x : FreeListNode). (is_linked l ≡ true) ⊎ (x.free_slots ≤ available_slots l))
            (sym at) room,
        free,
        subst (λ (x : ℕ). IsChain l (set_block vaddr node mem) x ns)
            (sym (ap (λ (x : FreeListNode). x.next) at ∙ next))
            (IsChain-set_block l mem vaddr node l.head ns free h.chain),
      );
      same =
          ap
            (λ (x : FreeListNode). stack_of l x ++ vaddr ∷ contents l (set_block vaddr node mem) ns)
            at
          ∙ ap (λ (x : List ℕ). x ++ vaddr ∷ contents l (set_block vaddr node mem) ns) empty
          ∙ ap (λ (x : List ℕ). vaddr ∷ x) (contents-set_block l mem vaddr node ns free ∙ h.same);
    }
