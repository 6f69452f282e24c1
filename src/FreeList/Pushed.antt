-- ===== src/FreeList/Pushed.antt =====
-- Giving a block back to the free list of kernel/src/mm.rs.
use elise.Base.{
  ℕ, zero, suc, ◌-◌, ◌≤◌, ◌<◌, ◌≡◌, ◌≢◌, refl, sym, ap, ◌∙◌, subst, arith, true, false, ◌||◌, ◌==◌,
  ==_iff, List, [], ◌∷◌, ◌++◌, ◌⊎◌, inl, inr, Bool-cases,
}
use elise.FreeList.{
  FreeListNode, FreeList, Blocks, set_block, set_slot, is_linked, available_slots, push_slot, push,
}
use elise.FreeList.Holds.{
  IsAbsent, slots, stack_of, contents, IsChain, Holds, at_block, apart_false, IsChain-set_block,
  contents-set_block, node-Holds,
}

slots-set_slot : (i v : ℕ) (f : ℕ → ℕ) (j n : ℕ) → i < j → slots (set_slot i v f) j n ≡ slots f j n
slots-set_slot i v f j zero h = refl
slots-set_slot i v f j (suc n) h =
    rw (apart_false i j (λ e. omega arith), slots-set_slot i v f (suc j) n (omega arith))

slots_push :
    (f : ℕ → ℕ) (k limit v : ℕ)
    → k ≢ 0
    → k ≤ limit
    → slots (set_slot (k - 1) v f) (k - 1) (limit - (k - 1)) ≡ v ∷ slots f k (limit - k)
slots_push f zero limit v n h = absurd (n refl)
slots_push f (suc k) limit v n h =
    let e : limit - k ≡ suc (limit - suc k) = omega arith in
    let one : suc k - 1 ≡ k = omega arith in
    rw (one, e, (==_iff k k).1 refl, slots-set_slot k v f (suc k) (limit - suc k) (omega arith))

pub bound_of :
    (l : FreeList) (node : FreeListNode)
    → is_linked l ≡ false
    → (is_linked l ≡ true) ⊎ (node.free_slots ≤ available_slots l)
    → node.free_slots ≤ available_slots l
bound_of l node stacked (inl linked) = absurd (cc)
bound_of l node stacked (inr h) = h

slot-Holds :
    (l : FreeList) (mem : Blocks) (vaddr : ℕ) (ns : List ℕ)
    → IsChain l mem l.head (l.head ∷ ns)
    → is_linked l ≡ false
    → (mem l.head).free_slots ≢ 0
    → Holds
        (push_slot vaddr l mem).0
        (push_slot vaddr l mem).1
        (vaddr ∷ contents l mem (l.head ∷ ns))
slot-Holds l mem vaddr ns c stacked room =
    let old = mem l.head in
    let node : FreeListNode = record old {
      free_slots = old.free_slots - 1;
      free_addrs = set_slot (old.free_slots - 1) vaddr old.free_addrs;
    } in
    let bound = bound_of l old stacked c.2 in
    let at = at_block l.head node mem in
    let stack : stack_of l node ≡ vaddr ∷ stack_of l old =
      rw stacked (slots_push old.free_addrs old.free_slots (available_slots l) vaddr room bound) in
    record {
      nodes = l.head ∷ ns;
      chain = (
        refl,
        c.1,
        subst (λ (x : FreeListNode). (is_linked l ≡ true) ⊎ (x.free_slots ≤ available_slots l))
            (sym at) (inr (omega arith)),
        c.3,
        subst (λ (x : FreeListNode). IsChain l (set_block l.head node mem) x.next ns) (sym at)
            (IsChain-set_block l mem l.head node old.next ns c.3 c.4),
      );
      same =
          ap
            (λ (x : FreeListNode).
              stack_of l x ++ l.head ∷ contents l (set_block l.head node mem) ns)
            at
          ∙ ap (λ (x : List ℕ). x ++ l.head ∷ contents l (set_block l.head node mem) ns) stack
          ∙ ap (λ (x : List ℕ). vaddr ∷ stack_of l old ++ l.head ∷ x)
              (contents-set_block l mem l.head node ns c.3);
    }

-- The first node of a list with a head.
pub record Headed (l : FreeList) (mem : Blocks) (xs : List ℕ) : Type 0 where
  pub others : List ℕ
  pub chain : IsChain l mem l.head (l.head ∷ others)
  pub same : contents l mem (l.head ∷ others) ≡ xs

pub Holds-Headed :
    (l : FreeList) (mem : Blocks) (xs nodes : List ℕ)
    → IsChain l mem l.head nodes
    → contents l mem nodes ≡ xs
    → l.head ≢ 0
    → Headed l mem xs
Holds-Headed l mem xs [] c e there = absurd (there c)
Holds-Headed l mem xs (n ∷ ns) c e there = record {
  others = ns;
  chain = subst (λ (n : ℕ). IsChain l mem l.head (n ∷ ns)) (sym c.0) c;
  same = subst (λ (n : ℕ). contents l mem (n ∷ ns) ≡ xs) (sym c.0) e;
}

push_slot-Holds :
    (l : FreeList) (mem : Blocks) (vaddr : ℕ) (xs : List ℕ)
    → Holds l mem xs
    → is_linked l ≡ false
    → l.head ≢ 0
    → (mem l.head).free_slots ≢ 0
    → Holds (push_slot vaddr l mem).0 (push_slot vaddr l mem).1 (vaddr ∷ xs)
push_slot-Holds l mem vaddr xs h stacked there room =
    let first = Holds-Headed l mem xs h.nodes h.chain h.same there in
    subst (λ (ys : List ℕ). Holds (push_slot vaddr l mem).0 (push_slot vaddr l mem).1 (vaddr ∷ ys))
      first.same (slot-Holds l mem vaddr first.others first.chain stacked room)

pub no_slots :
    (l : FreeList) (node : FreeListNode)
    → is_linked l ≡ false
    → node.free_slots ≡ available_slots l
    → stack_of l node ≡ []
no_slots l node stacked e =
    let none_left : available_slots l - node.free_slots ≡ 0 = omega arith in rw (stacked, none_left)

or_apart : (a b : ℕ) → (a == 0 || b == 0) ≡ false → (a ≢ 0) × (b ≢ 0)
or_apart a b h = (λ e. ground arith, λ e. ground arith)

pub push-Holds :
    (l : FreeList) (mem : Blocks) (vaddr : ℕ) (xs : List ℕ)
    → Holds l mem xs
    → vaddr ≢ 0
    → IsAbsent vaddr xs
    → Holds (push vaddr l mem).0 (push vaddr l mem).1 (vaddr ∷ xs)
unfolding push
push-Holds l mem vaddr xs h n absent = elim (Bool-cases (is_linked l)) [
  | inl linked ↦ become (sym (rw (push, linked))) (
      node-Holds l mem vaddr (record (mem vaddr) { next = l.head }) xs h n absent refl (rw linked)
        (inl linked))
  | inr stacked ↦ elim (Bool-cases (l.head == 0 || (mem l.head).free_slots == 0)) [
    | inl full ↦ become (sym (rw (push, stacked, full))) (
        node-Holds l mem vaddr
          (record (mem vaddr) { free_slots = available_slots l; next = l.head }) xs h n absent refl
          (no_slots l (record (mem vaddr) { free_slots = available_slots l; next = l.head }) stacked
            refl)
          (inr (omega arith)))
    | inr room ↦ become (sym (rw (push, stacked, room))) (
        push_slot-Holds l mem vaddr xs h stacked (or_apart l.head (mem l.head).free_slots room).0
          (or_apart l.head (mem l.head).free_slots room).1)
  ]
]
  where
    become :
        {r r' : FreeList × Blocks}
        → r ≡ r'
        → Holds r.0 r.1 (vaddr ∷ xs)
        → Holds r'.0 r'.1 (vaddr ∷ xs)
    become e h = subst (λ (r : FreeList × Blocks). Holds r.0 r.1 (vaddr ∷ xs)) e h
