-- ===== src/SpinLock/Served.antt =====
-- The steps of shared/spinlock/src/lib.rs by the core at the head of the queue.
use elise.Base.{
  ℕ, suc, ◌+◌, ◌%◌, ◌^◌, ◌<◌, ◌≡◌, refl, sym, ap, ◌∙◌, subst, arith, Bool, true, false,
  if◌then◌else◌, List, [], ◌∷◌, length, inr, ℕ_discrete,
}
use elise.SpinLock.{
  Place, outside, spinning, holding, Core, System, set_core, leave_loop, drop_guard,
  enable_interrupts, Step, takes, leaves, drops,
}
use elise.SpinLock.Queue.{
  IsAbsent, IsQueue, is_busy, IsInOrder, at_core, off_core, busy-le, busy-set_core,
  IsWaiting-set_core, IsWaiting-ticket,
}
use elise.SpinLock.Steps.{takes-IsInOrder, IsWaiting-spinning, IsWaiting-IsQueue}

-- The core stands at the head of the queue.
pub record IsHead (i : ℕ) (q : List ℕ) : Type 0 where
  pub others : List ℕ
  pub split : q ≡ i ∷ others

no_spin : (p : Place) (t : ℕ) → p ≡ holding → p ≡ spinning t → ⊥
no_spin p t e h = cc

pub holding-IsHead :
    (cores : ℕ → Core) (i n r : ℕ) (q : List ℕ)
    → IsQueue cores n r q
    → (cores i).place ≡ holding
    → (IsAbsent i q → ⊥)
    → IsHead i q
holding-IsHead cores i n r [] w h present = absurd (present tt)
holding-IsHead cores i n r (j ∷ q) w h present = elim (ℕ_discrete i j) [
  | yes same ↦ record { others = q; split = ap (λ (x : ℕ). x ∷ q) (sym same) }
  | no other ↦ absurd (
      present
        (other, IsWaiting-spinning cores i n (suc r) q w.3 (λ t e. no_spin (cores i).place t h e)))
]

-- Fewer than `2 ^ 64` cores wait, so the ticket that is served is the head's.
spinning-IsHead :
    (cores : ℕ → Core) (i n r : ℕ) (q : List ℕ)
    → IsQueue cores n r q
    → (cores i).place ≡ spinning (r % 2 ^ 64)
    → (IsAbsent i q → ⊥)
    → length q < 2 ^ 64
    → IsHead i q
spinning-IsHead cores i n r [] w h present few = absurd (present tt)
spinning-IsHead cores i n r (j ∷ q) w h present few = elim (ℕ_discrete i j) [
  | yes same ↦ record { others = q; split = ap (λ (x : ℕ). x ∷ q) (sym same) }
  | no other ↦
      let later =
        IsWaiting-ticket cores i n (suc r) (r % 2 ^ 64) q w.3 h
          (λ absent. present (other, absent)) in
      absurd (omega (arith, later.1, later.2))
]

outside-IsBusy : (p : Place) → p ≡ outside → is_busy p ≡ 1 → ⊥
outside-IsBusy outside e h = absurd (omega (arith, h))
outside-IsBusy (spinning t) e h = cc
outside-IsBusy holding e h = cc

-- A core that is not outside stands in the queue.
pub IsInOrder-present :
    (n : ℕ) (s : System) (i : ℕ) (o : IsInOrder n s)
    → i < n
    → is_busy (s.cores i).place ≡ 1
    → IsAbsent i o.queue
    → ⊥
IsInOrder-present n s i o small b absent =
    outside-IsBusy (s.cores i).place (o.others i small absent) b

leaves-IsInOrder :
    (n : ℕ) (s : System) (i t : ℕ)
    → IsInOrder n s
    → n < 2 ^ 64
    → i < n
    → (s.cores i).place ≡ spinning t
    → t ≡ s.lock.release
    → IsInOrder n (leave_loop i s)
leaves-IsInOrder n s i t o few small p e =
    let c : Core = record (s.cores i) { place = holding } in
    let ticket : (s.cores i).place ≡ spinning (o.served % 2 ^ 64) =
      p ∙ ap spinning (e ∙ o.release) in
    let head =
      spinning-IsHead s.cores i n o.served o.queue o.in_queue ticket
        (IsInOrder-present n s i o small (ap is_busy p))
        (omega (arith, o.count, busy-le s.cores n)) in
    let w : IsQueue s.cores n o.served (i ∷ head.others) =
      subst (λ (q : List ℕ). IsQueue s.cores n o.served q) head.split o.in_queue in
    record {
      queue = i ∷ head.others;
      served = o.served;
      release = o.release;
      ticket = o.ticket ∙ ap (λ (q : List ℕ). (o.served + length q) % 2 ^ 64) head.split;
      in_queue = (
        small,
        inr (ap (λ (x : Core). x.place) (at_core i c s.cores)),
        w.2,
        IsWaiting-set_core s.cores i c n (suc o.served) head.others w.2 w.3,
      );
      others = λ j h free.
          ap (λ (x : Core). x.place) (off_core i j c s.cores free.0)
          ∙ o.others j h (subst (λ (q : List ℕ). IsAbsent j q) (sym head.split) free);
      count =
          omega
            (arith, ap length head.split, o.count, busy-set_core s.cores i c n small, ap is_busy p);
    }

drops-IsInOrder :
    (n : ℕ) (s : System) (i : ℕ)
    → IsInOrder n s
    → i < n
    → (s.cores i).place ≡ holding
    → IsInOrder n (drop_guard i s)
drops-IsInOrder n s i o small p =
    let out : Core = record (s.cores i) { place = outside } in
    let c : Core = if s.lock.disable_interrupts then enable_interrupts out else out in
    let left : c.place ≡ outside = stays_out s.lock.disable_interrupts out refl in
    let head =
      holding-IsHead s.cores i n o.served o.queue o.in_queue p
        (IsInOrder-present n s i o small (ap is_busy p)) in
    let w : IsQueue s.cores n o.served (i ∷ head.others) =
      subst (λ (q : List ℕ). IsQueue s.cores n o.served q) head.split o.in_queue in
    let one_less : length o.queue ≡ suc (length head.others) = ap length head.split in
    record {
      queue = head.others;
      served = suc o.served;
      release = omega (arith, o.release);
      ticket = o.ticket ∙ omega (arith, one_less);
      in_queue =
          IsWaiting-IsQueue (set_core i c s.cores) n (suc o.served) head.others
            (IsWaiting-set_core s.cores i c n (suc o.served) head.others w.2 w.3);
      others = λ j h free. elim (ℕ_discrete j i) [
        | yes same ↦
            subst (λ (k : ℕ). (set_core i c s.cores k).place ≡ outside) (sym same)
              (ap (λ (x : Core). x.place) (at_core i c s.cores) ∙ left)
        | no other ↦
            ap (λ (x : Core). x.place) (off_core i j c s.cores other)
            ∙ o.others j h (subst (λ (q : List ℕ). IsAbsent j q) (sym head.split) (other, free))
      ];
      count = omega (
        arith,
        one_less,
        o.count,
        busy-set_core s.cores i c n small,
        ap is_busy p,
        ap is_busy left,
      );
    }
  where
    stays_out :
        (b : Bool) (c : Core)
        → c.place ≡ outside
        → (if b then enable_interrupts c else c).place ≡ outside
    stays_out true c e = e
    stays_out false c e = e

pub Step-IsInOrder :
    {n : ℕ} {s s' : System} → n < 2 ^ 64 → Step n s s' → IsInOrder n s → IsInOrder n s'
Step-IsInOrder {n} {s} few (takes i small out allowed bounded) o = takes-IsInOrder n s i o small out
Step-IsInOrder {n} {s} few (leaves i t small p e) o = leaves-IsInOrder n s i t o few small p e
Step-IsInOrder {n} {s} few (drops i small p allowed) o = drops-IsInOrder n s i o small p
