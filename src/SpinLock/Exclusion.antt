-- ===== src/SpinLock/Exclusion.antt =====
-- What the lock of shared/spinlock/src/lib.rs promises in every state that its cores reach.
use elise.Base.{
  ℕ, zero, suc, ◌%◌, ◌^◌, ◌<◌, ◌≡◌, refl, sym, ap, ◌∙◌, subst, arith, List, [], ◌∷◌, ◌⊎◌, inl, inr,
}
use elise.SpinLock.{outside, spinning, holding, Core, System, Reachable, start, then_step}
use elise.SpinLock.Queue.{IsAbsent, IsQueue, is_busy, busy, IsInOrder}
use elise.SpinLock.Served.{IsHead, holding-IsHead, IsInOrder-present, Step-IsInOrder}

-- A lock from `new` or `new_no_preempt`, and no core at it.
pub record IsFresh (s : System) : Type 0 where
  pub ticket : s.lock.ticket ≡ 0
  pub release : s.lock.release ≡ 0
  pub cores : (i : ℕ) → (s.cores i).place ≡ outside

busy-outside : (cores : ℕ → Core) (n : ℕ) → ((i : ℕ) → (cores i).place ≡ outside) → busy cores n ≡ 0
busy-outside cores zero h = refl
busy-outside cores (suc n) h = omega (arith, ap is_busy (h n), busy-outside cores n h)

IsFresh-IsInOrder : (n : ℕ) (s : System) → IsFresh s → IsInOrder n s
IsFresh-IsInOrder n s f = record {
  queue = [];
  served = 0;
  release = omega (arith, f.release);
  ticket = omega (arith, f.ticket);
  in_queue = tt;
  others = λ i h free. f.cores i;
  count = omega (arith, busy-outside s.cores n f.cores);
}

Reachable-IsInOrder :
    {n : ℕ} {s s' : System} → n < 2 ^ 64 → IsFresh s → Reachable n s s' → IsInOrder n s'
Reachable-IsInOrder {n} {s} few f start = IsFresh-IsInOrder n s f
Reachable-IsInOrder few f (then_step r step) = Step-IsInOrder few step (Reachable-IsInOrder few f r)

heads_same : (i j : ℕ) (q : List ℕ) → IsHead i q → IsHead j q → i ≡ j
heads_same i j q h k = let e : i ∷ h.others ≡ j ∷ k.others = sym h.split ∙ k.split in cc

-- For fewer than `2 ^ 64` cores and a lock that is new, with no core at it: in every state that steps of `lock` and of
-- the guard's `drop` reach, two cores that have the guard are the same core.
pub Reachable-one_holder :
    {n : ℕ} {s s' : System} (i j : ℕ)
    → n < 2 ^ 64
    → IsFresh s
    → Reachable n s s'
    → i < n
    → j < n
    → (s'.cores i).place ≡ holding
    → (s'.cores j).place ≡ holding
    → i ≡ j
Reachable-one_holder {n} {s} {s'} i j few f r small small' p q =
    let o = Reachable-IsInOrder few f r in
    heads_same i j o.queue
      (holding-IsHead s'.cores i n o.served o.queue o.in_queue p
        (IsInOrder-present n s' i o small (ap is_busy p)))
      (holding-IsHead s'.cores j n o.served o.queue o.in_queue q
        (IsInOrder-present n s' j o small' (ap is_busy q)))

-- Some core has the guard, or has the ticket that is served, so its loop ends.
pub record IsServed (n : ℕ) (s : System) : Type 0 where
  pub core : ℕ
  pub is_one : core < n
  pub moves : ((s.cores core).place ≡ holding) ⊎ ((s.cores core).place ≡ spinning s.lock.release)

queue-IsServed :
    (n : ℕ) (s : System) (i r : ℕ) (q : List ℕ)
    → IsQueue s.cores n r q
    → s.lock.release ≡ r % 2 ^ 64
    → (q ≡ [] → ⊥)
    → IsServed n s
queue-IsServed n s i r [] w e some_core = absurd (some_core refl)
queue-IsServed n s i r (j ∷ q) w e some_core = record { core = j; is_one = w.0; moves = head w.1 }
  where
    head :
        ((s.cores j).place ≡ spinning (r % 2 ^ 64)) ⊎ ((s.cores j).place ≡ holding)
        → ((s.cores j).place ≡ holding) ⊎ ((s.cores j).place ≡ spinning s.lock.release)
    head (inl h) = inr (h ∙ ap spinning (sym e))
    head (inr h) = inl h

-- For fewer than `2 ^ 64` cores and a lock that is new, with no core at it: in every state that is reached, where some
-- core spins for the lock, there is a core that has the guard or whose ticket is the one that is served.
pub Reachable-IsServed :
    {n : ℕ} {s s' : System} (i t : ℕ)
    → n < 2 ^ 64
    → IsFresh s
    → Reachable n s s'
    → i < n
    → (s'.cores i).place ≡ spinning t
    → IsServed n s'
Reachable-IsServed {n} {s} {s'} i t few f r small p =
    let o = Reachable-IsInOrder few f r in
    queue-IsServed n s' i o.served o.queue o.in_queue o.release (λ none_there.
      IsInOrder-present n s' i o small (ap is_busy p)
        (subst (λ (q : List ℕ). IsAbsent i q) (sym none_there) tt))
