-- ===== src/SpinLock/Queue.antt =====
-- The cores at the lock of shared/spinlock/src/lib.rs as a queue, in the order of their tickets.
use elise.Base.{
  ℕ, zero, suc, ◌+◌, ◌%◌, ◌^◌, ◌≤◌, ◌<◌, ◌≡◌, ◌≢◌, refl, sym, ap, ◌∙◌, subst, arith, false, ◌==◌,
  ==_iff, List, [], ◌∷◌, ◌++◌, length, ◌⊎◌, ℕ_discrete,
}
use elise.SpinLock.{Place, outside, spinning, holding, Core, System, set_core}

abbrev pub IsAbsent : ℕ → List ℕ → Type 0
IsAbsent i [] = Unit {0}
IsAbsent i (j ∷ q) = (i ≢ j) × IsAbsent i q

-- The cores in the list hold the tickets from `r` on, and are below `n`.
abbrev pub IsWaiting : (ℕ → Core) → ℕ → ℕ → List ℕ → Type 0
IsWaiting cores n r [] = Unit {0}
IsWaiting cores n r (i ∷ q) =
    (i < n) × ((cores i).place ≡ spinning (r % 2 ^ 64)) × IsAbsent i q × IsWaiting cores n (suc r) q

-- The same, where the first core may also have the guard.
abbrev pub IsQueue : (ℕ → Core) → ℕ → ℕ → List ℕ → Type 0
IsQueue cores n r [] = Unit {0}
IsQueue cores n r (i ∷ q) =
    (i < n)
    × (((cores i).place ≡ spinning (r % 2 ^ 64)) ⊎ ((cores i).place ≡ holding))
    × IsAbsent i q
    × IsWaiting cores n (suc r) q

abbrev pub is_busy : Place → ℕ
is_busy outside = 0
is_busy _ = 1

-- The number of cores that are not outside, of the first `n`.
abbrev pub busy : (ℕ → Core) → ℕ → ℕ
busy cores zero = 0
busy cores (suc n) = is_busy (cores n).place + busy cores n

-- `served` counts the releases.
pub record IsInOrder (n : ℕ) (s : System) : Type 0 where
  pub queue : List ℕ
  pub served : ℕ
  pub release : s.lock.release ≡ served % 2 ^ 64
  pub ticket : s.lock.ticket ≡ (served + length queue) % 2 ^ 64
  pub in_queue : IsQueue s.cores n served queue
  pub others : (i : ℕ) → i < n → IsAbsent i queue → (s.cores i).place ≡ outside
  pub count : length queue ≡ busy s.cores n

pub at_core : (i : ℕ) (c : Core) (cores : ℕ → Core) → set_core i c cores i ≡ c
at_core i c cores = rw ((==_iff i i).1 refl)

apart_false : (i j : ℕ) → i ≢ j → (i == j) ≡ false
apart_false i j h = ground arith

pub off_core : (i j : ℕ) (c : Core) (cores : ℕ → Core) → j ≢ i → set_core i c cores j ≡ cores j
off_core i j c cores h = rw (apart_false j i h)

is_busy-le : (p : Place) → is_busy p ≤ 1
is_busy-le outside = omega arith
is_busy-le (spinning t) = omega arith
is_busy-le holding = omega arith

pub busy-le : (cores : ℕ → Core) (n : ℕ) → busy cores n ≤ n
busy-le cores zero = omega arith
busy-le cores (suc n) = omega (arith, busy-le cores n, is_busy-le (cores n).place)

busy-set_core_above :
    (cores : ℕ → Core) (i : ℕ) (c : Core) (n : ℕ)
    → n ≤ i
    → busy (set_core i c cores) n ≡ busy cores n
busy-set_core_above cores i c zero h = refl
busy-set_core_above cores i c (suc n) h =
    rw (apart_false n i (λ e. omega arith), busy-set_core_above cores i c n (omega arith))

-- The count moves with the one core that is changed.
pub busy-set_core :
    (cores : ℕ → Core) (i : ℕ) (c : Core) (n : ℕ)
    → i < n
    → busy (set_core i c cores) n + is_busy (cores i).place ≡ busy cores n + is_busy c.place
busy-set_core cores i c zero h = absurd (omega arith)
busy-set_core cores i c (suc n) h = elim (ℕ_discrete n i) [
  | yes same ↦
      subst
        (λ (k : ℕ).
          is_busy (set_core k c cores n).place
            + busy (set_core k c cores) n
            + is_busy (cores k).place
          ≡ is_busy (cores n).place + busy cores n + is_busy c.place)
        same
        (omega (
          arith,
          ap (λ (x : Core). is_busy x.place) (at_core n c cores),
          busy-set_core_above cores n c n (omega arith),
        ))
  | no other ↦ omega (
    arith,
    ap (λ (x : Core). is_busy x.place) (off_core i n c cores other),
    busy-set_core cores i c n (omega arith),
  )
]

-- A core that is in no place of the list may change.
pub IsWaiting-set_core :
    (cores : ℕ → Core) (i : ℕ) (c : Core) (n r : ℕ) (q : List ℕ)
    → IsAbsent i q
    → IsWaiting cores n r q
    → IsWaiting (set_core i c cores) n r q
IsWaiting-set_core cores i c n r [] absent w = tt
IsWaiting-set_core cores i c n r (j ∷ q) absent w = (
  w.0,
  ap (λ (x : Core). x.place) (off_core i j c cores (λ e. absent.0 (sym e))) ∙ w.1,
  w.2,
  IsWaiting-set_core cores i c n (suc r) q absent.1 w.3,
)

pub IsAbsent-append : (i j : ℕ) (q : List ℕ) → IsAbsent i q → i ≢ j → IsAbsent i (q ++ j ∷ [])
IsAbsent-append i j [] absent other = (other, tt)
IsAbsent-append i j (k ∷ q) absent other = (absent.0, IsAbsent-append i j q absent.1 other)

-- A core joins at the end.
pub IsWaiting-append :
    (cores : ℕ → Core) (i n r : ℕ) (q : List ℕ)
    → i < n
    → (cores i).place ≡ spinning ((r + length q) % 2 ^ 64)
    → IsAbsent i q
    → IsWaiting cores n r q
    → IsWaiting cores n r (q ++ i ∷ [])
IsWaiting-append cores i n r [] small p absent w =
    let e : r + 0 ≡ r = omega arith in (small, rw e at p, tt, tt)
IsWaiting-append cores i n r (j ∷ q) small p absent w =
    let e : r + suc (length q) ≡ suc r + length q = omega arith in
    (
      w.0,
      w.1,
      IsAbsent-append j i q w.2 (λ same. absent.0 (sym same)),
      IsWaiting-append cores i n (suc r) q small (rw e at p) absent.1 w.3,
    )

-- The index of a core that waits is told by its ticket.
pub IsWaiting-ticket :
    (cores : ℕ → Core) (i n r t : ℕ) (q : List ℕ)
    → IsWaiting cores n r q
    → (cores i).place ≡ spinning t
    → (IsAbsent i q → ⊥)
    → (k : ℕ) × (k < length q) × (t ≡ (r + k) % 2 ^ 64)
IsWaiting-ticket cores i n r t [] w p present = absurd (present tt)
IsWaiting-ticket cores i n r t (j ∷ q) w p present = elim (ℕ_discrete i j) [
  | yes same ↦ (
    0,
    omega arith,
    spinning_same t (r % 2 ^ 64) (sym p ∙ ap (λ (x : ℕ). (cores x).place) same ∙ w.1) ∙ omega arith,
  )
  | no other ↦
      let later =
        IsWaiting-ticket cores i n (suc r) t q w.3 p (λ absent. present (other, absent)) in
      (suc later.0, omega (arith, later.1), later.2 ∙ omega arith)
]
  where
    spinning_same : (a b : ℕ) → spinning a ≡ spinning b → a ≡ b
    spinning_same a b h = cc
