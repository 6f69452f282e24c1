-- ===== src/SpinLock/Steps.antt =====
-- The steps of shared/spinlock/src/lib.rs keep the order of the tickets.
use elise.Base.{
  ℕ, suc, ◌+◌, ◌%◌, ◌^◌, ◌<◌, ◌≡◌, ◌≢◌, sym, ap, ◌∙◌, subst, arith, if◌then◌else◌, List, [], ◌∷◌,
  ◌++◌, length, length-append, ◌⊎◌, inl, inr,
}
use elise.SpinLock.{
  Place, outside, spinning, holding, Core, System, set_core, take_ticket, disable_interrupts,
}
use elise.SpinLock.Queue.{
  IsAbsent, IsWaiting, IsQueue, is_busy, IsInOrder, at_core, off_core, busy-set_core,
  IsWaiting-set_core, IsWaiting-append, IsAbsent-append,
}

pub IsWaiting-spinning :
    (cores : ℕ → Core) (i n r : ℕ) (q : List ℕ)
    → IsWaiting cores n r q
    → ((t : ℕ) → (cores i).place ≡ spinning t → ⊥)
    → IsAbsent i q
IsWaiting-spinning cores i n r [] w h = tt
IsWaiting-spinning cores i n r (j ∷ q) w h = (
  λ same. h (r % 2 ^ 64) (ap (λ (x : ℕ). (cores x).place) same ∙ w.1),
  IsWaiting-spinning cores i n (suc r) q w.3 h,
)

pub IsWaiting-IsQueue :
    (cores : ℕ → Core) (n r : ℕ) (q : List ℕ) → IsWaiting cores n r q → IsQueue cores n r q
IsWaiting-IsQueue cores n r [] w = tt
IsWaiting-IsQueue cores n r (j ∷ q) w = (w.0, inl w.1, w.2, w.3)

pub IsQueue-outside :
    (cores : ℕ → Core) (i n r : ℕ) (q : List ℕ)
    → IsQueue cores n r q
    → (cores i).place ≡ outside
    → IsAbsent i q
IsQueue-outside cores i n r [] w out = tt
IsQueue-outside cores i n r (j ∷ q) w out = (
  λ same. no_head (cores i).place out (
      subst (λ (x : ℕ). ((cores x).place ≡ spinning (r % 2 ^ 64)) ⊎ ((cores x).place ≡ holding))
        (sym same) w.1),
  IsWaiting-spinning cores i n (suc r) q w.3 (λ t e. no_spin (cores i).place t out e),
)
  where
    no_spin : (p : Place) (t : ℕ) → p ≡ outside → p ≡ spinning t → ⊥
    no_spin p t e h = cc

    no_hold : (p : Place) → p ≡ outside → p ≡ holding → ⊥
    no_hold p e h = cc

    no_head : (p : Place) → p ≡ outside → (p ≡ spinning (r % 2 ^ 64)) ⊎ (p ≡ holding) → ⊥
    no_head p e (inl h) = no_spin p (r % 2 ^ 64) e h
    no_head p e (inr h) = no_hold p e h

IsQueue-set_core :
    (cores : ℕ → Core) (i : ℕ) (c : Core) (n r : ℕ) (q : List ℕ)
    → IsAbsent i q
    → IsQueue cores n r q
    → IsQueue (set_core i c cores) n r q
IsQueue-set_core cores i c n r [] absent w = tt
IsQueue-set_core cores i c n r (j ∷ q) absent w = (
  w.0,
  subst (λ (x : Core). (x.place ≡ spinning (r % 2 ^ 64)) ⊎ (x.place ≡ holding))
      (sym (off_core i j c cores (λ e. absent.0 (sym e)))) w.1,
  w.2,
  IsWaiting-set_core cores i c n (suc r) q absent.1 w.3,
)

IsQueue-append :
    (cores : ℕ → Core) (i n r : ℕ) (q : List ℕ)
    → i < n
    → (cores i).place ≡ spinning ((r + length q) % 2 ^ 64)
    → IsAbsent i q
    → IsQueue cores n r q
    → IsQueue cores n r (q ++ i ∷ [])
IsQueue-append cores i n r [] small p absent w =
    let e : r + 0 ≡ r = omega arith in (small, inl (rw e at p), tt, tt)
IsQueue-append cores i n r (j ∷ q) small p absent w =
    let e : r + suc (length q) ≡ suc r + length q = omega arith in
    (
      w.0,
      w.1,
      IsAbsent-append j i q w.2 (λ same. absent.0 (sym same)),
      IsWaiting-append cores i n (suc r) q small (rw e at p) absent.1 w.3,
    )

IsAbsent-split : (i j : ℕ) (q : List ℕ) → IsAbsent i (q ++ j ∷ []) → IsAbsent i q × (i ≢ j)
IsAbsent-split i j [] h = (tt, h.0)
IsAbsent-split i j (k ∷ q) h = let later = IsAbsent-split i j q h.1 in ((h.0, later.0), later.1)

pub takes-IsInOrder :
    (n : ℕ) (s : System) (i : ℕ)
    → IsInOrder n s
    → i < n
    → (s.cores i).place ≡ outside
    → IsInOrder n (take_ticket i s)
takes-IsInOrder n s i o small out =
    let c = if s.lock.disable_interrupts then disable_interrupts (s.cores i) else s.cores i in
    let c' : Core = record c { place = spinning s.lock.ticket } in
    let cores' = set_core i c' s.cores in
    let absent = IsQueue-outside s.cores i n o.served o.queue o.in_queue out in
    let here : (cores' i).place ≡ spinning ((o.served + length o.queue) % 2 ^ 64) =
      ap (λ (x : Core). x.place) (at_core i c' s.cores) ∙ ap spinning o.ticket in
    let longer : length (o.queue ++ i ∷ []) ≡ length o.queue + 1 = length-append o.queue (i ∷ []) in
    record {
      queue = o.queue ++ i ∷ [];
      served = o.served;
      release = o.release;
      ticket = omega (arith, o.ticket, longer);
      in_queue =
          IsQueue-append cores' i n o.served o.queue small here absent
            (IsQueue-set_core s.cores i c' n o.served o.queue absent o.in_queue);
      others = λ j h free.
          let parts = IsAbsent-split j i o.queue free in
          ap (λ (x : Core). x.place) (off_core i j c' s.cores parts.1) ∙ o.others j h parts.0;
      count = omega (arith, longer, o.count, busy-set_core s.cores i c' n small, ap is_busy out);
    }
