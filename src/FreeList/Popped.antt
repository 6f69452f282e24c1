-- ===== src/FreeList/Popped.antt =====
-- Taking a block from the free list of kernel/src/mm.rs.
use elise.Base.{
  ℕ, suc, ◌-◌, ◌≤◌, ◌<◌, ◌≡◌, ◌≢◌, refl, sym, ap, ◌∙◌, subst, arith, true, false, ltb, List, [],
  ◌∷◌, ◌++◌, ◌⊎◌, inl, inr, Bool-cases,
}
use elise.FreeList.{
  FreeListNode, FreeList, Blocks, set_block, is_linked, available_slots, pop_block,
}
use elise.FreeList.Holds.{
  slots, stack_of, contents, IsChain, Holds, at_block, IsChain-set_block, contents-set_block,
}
use elise.FreeList.Pushed.{Holds-Headed, bound_of, no_slots}

slots_pop :
    (f : ℕ → ℕ) (k limit : ℕ)
    → k < limit
    → slots f k (limit - k) ≡ f k ∷ slots f (suc k) (limit - suc k)
slots_pop f k limit h = let e : limit - k ≡ suc (limit - suc k) = omega arith in rw e

-- The node itself is taken where its stack has no address.
head-Holds :
    (l : FreeList) (mem : Blocks) (ns : List ℕ)
    → IsChain l mem l.head (l.head ∷ ns)
    → Holds (record l { head = (mem l.head).next }) mem (contents l mem ns)
head-Holds l mem ns c = record { nodes = ns; chain = c.4; same = refl }

-- An address is taken from the stack of the first node.
taken-Holds :
    (l : FreeList) (mem : Blocks) (ns : List ℕ)
    → IsChain l mem l.head (l.head ∷ ns)
    → is_linked l ≡ false
    → (mem l.head).free_slots < available_slots l
    → Holds l
        (set_block l.head (record (mem l.head) { free_slots = suc (mem l.head).free_slots }) mem)
        (slots
            (mem l.head).free_addrs
            (suc (mem l.head).free_slots)
            (available_slots l - suc (mem l.head).free_slots)
          ++ l.head ∷ contents l mem ns)
taken-Holds l mem ns c stacked h =
    let old = mem l.head in
    let node : FreeListNode = record old { free_slots = suc old.free_slots } in
    let at = at_block l.head node mem in
    let stack : stack_of l node
        ≡ slots old.free_addrs (suc old.free_slots) (available_slots l - suc old.free_slots) =
      rw stacked in
    record {
      nodes = l.head ∷ ns;
      chain = (
        refl,
        c.1,
        subst (λ (x : FreeListNode). (is_linked l ≡ true) ⊎ (x.free_slots ≤ available_slots l))
            (sym at) (inr h),
        c.3,
        subst (λ (x : FreeListNode). IsChain l (set_block l.head node mem) x.next ns) (sym at)
            (IsChain-set_block l mem l.head node old.next ns c.3 c.4),
      );
      same =
          ap
            (λ (x : FreeListNode).
              stack_of l x ++ l.head ∷ contents l (set_block l.head node mem) ns)
            at
          ∙ ap (λ (x : List ℕ). x ++ l.head ∷ contents l (set_block l.head node mem) ns) stack
          ∙ ap
              (λ (x : List ℕ).
                slots old.free_addrs (suc old.free_slots) (available_slots l - suc old.free_slots)
                ++ l.head ∷ x)
              (contents-set_block l mem l.head node ns c.3);
    }

-- What a run of `pop_block` hands out, and the addresses that are left.
abbrev pub Gives : ℕ × FreeList × Blocks → ℕ → List ℕ → Type 0
Gives r x xs = (r.0 ≡ x) × Holds r.1 r.2 xs

Gives-same :
    (r : ℕ × FreeList × Blocks) (x y : ℕ) (xs ys : List ℕ)
    → Gives r x xs
    → x ∷ xs ≡ y ∷ ys
    → Gives r y ys
Gives-same r x y xs ys g e =
    (g.0 ∙ first_same, subst (λ (zs : List ℕ). Holds r.1 r.2 zs) rest_same g.1)
  where
    first_same : x ≡ y
    first_same = cc

    rest_same : xs ≡ ys
    rest_same = cc

headed-Gives :
    (l : FreeList) (mem : Blocks) (ns : List ℕ) (x : ℕ) (xs : List ℕ)
    → IsChain l mem l.head (l.head ∷ ns)
    → contents l mem (l.head ∷ ns) ≡ x ∷ xs
    → Gives (pop_block l mem) x xs
unfolding pop_block
headed-Gives l mem ns x xs c e = elim (Bool-cases (is_linked l)) [
  | inl linked ↦
      let whole : contents l mem (l.head ∷ ns) ≡ l.head ∷ contents l mem ns = rw linked in
      become (sym (rw (pop_block, linked)))
        (Gives-same _ l.head x (contents l mem ns) xs (refl, head-Holds l mem ns c) (sym whole ∙ e))
  | inr stacked ↦ elim (Bool-cases (ltb (mem l.head).free_slots (available_slots l))) [
    | inl some_left ↦
        let k = (mem l.head).free_slots in
        let f = (mem l.head).free_addrs in
        let below : k < available_slots l = ground arith in
        let whole : contents l mem (l.head ∷ ns)
            ≡ f k ∷ (slots f (suc k) (available_slots l - suc k) ++ l.head ∷ contents l mem ns) =
          rw (stacked, slots_pop f k (available_slots l) below) in
        become (sym (rw (pop_block, stacked, some_left)))
          (Gives-same _ (f k) x _ xs (refl, taken-Holds l mem ns c stacked below) (sym whole ∙ e))
    | inr none_left ↦
        let bound = bound_of l (mem l.head) stacked c.2 in
        let all : (mem l.head).free_slots ≡ available_slots l = ground arith in
        let whole : contents l mem (l.head ∷ ns) ≡ l.head ∷ contents l mem ns =
          ap (λ (s : List ℕ). s ++ l.head ∷ contents l mem ns)
            (no_slots l (mem l.head) stacked all) in
        become (sym (rw (pop_block, stacked, none_left))) (
          Gives-same _ l.head x (contents l mem ns) xs (refl, head-Holds l mem ns c)
            (sym whole ∙ e))
  ]
]
  where
    become : {r r' : ℕ × FreeList × Blocks} → r ≡ r' → Gives r x xs → Gives r' x xs
    become e h = subst (λ (r : ℕ × FreeList × Blocks). Gives r x xs) e h

pub Holds-head :
    (l : FreeList) (mem : Blocks) (x : ℕ) (xs : List ℕ) → Holds l mem (x ∷ xs) → l.head ≢ 0
Holds-head l mem x xs h = go h.nodes h.chain h.same
  where
    go : (nodes : List ℕ) → IsChain l mem l.head nodes → contents l mem nodes ≡ x ∷ xs → l.head ≢ 0
    go [] c e = absurd (cc)
    go (n ∷ ns) c e = λ z. c.1 (sym c.0 ∙ z)

pub pop_block-Holds :
    (l : FreeList) (mem : Blocks) (x : ℕ) (xs : List ℕ)
    → Holds l mem (x ∷ xs)
    → ((pop_block l mem).0 ≡ x) × Holds (pop_block l mem).1 (pop_block l mem).2 xs
pop_block-Holds l mem x xs h =
    let first = Holds-Headed l mem (x ∷ xs) h.nodes h.chain h.same (Holds-head l mem x xs h) in
    headed-Gives l mem first.others x xs first.chain first.same
