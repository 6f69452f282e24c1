-- ===== src/OnceLock/Kept.antt =====
-- The value of a lock of shared/oncelock/src/lib.rs stays.
use elise.Base.{
  ℕ, ◌≡◌, ◌≢◌, refl, sym, ◌∙◌, arith, Bool, true, false, Option, none, some, ◌==◌, ==_iff,
  if◌then◌else◌, ℕ_discrete,
}
use elise.OnceLock.{
  OnceLock, new, panics, uninitialized, returns, get, set_writing, Step, swaps, writes, Reachable,
  start, then_step,
}

bools_apart : (b : Bool) → b ≡ true → b ≡ false → ⊥
bools_apart b p q = cc

module _ {A : Type 0} where
  -- Nothing is written yet, one thread is about to write, or the value is there.
  pub data IsOrderly (s : OnceLock A) : Type 0 where
    fresh : s.initialized ≡ false → s.value ≡ none → ((i : ℕ) → s.writing i ≡ none) → IsOrderly s
    in_progress :
        (i : ℕ)
        → s.initialized ≡ true
        → s.value ≡ none
        → ((j : ℕ) → j ≢ i → s.writing j ≡ none)
        → IsOrderly s
    finished :
        (a : A)
        → s.initialized ≡ true
        → s.value ≡ some a
        → ((i : ℕ) → s.writing i ≡ none)
        → IsOrderly s

  options_apart : (o : Option A) (a : A) → o ≡ none → o ≡ some a → ⊥
  options_apart o a p q = cc

  off_thread : (i j : ℕ) (o : Option A) (w : ℕ → Option A) → j ≢ i → set_writing i o w j ≡ w j
  off_thread i j o w h = rw (apart_false j i h)
    where
      apart_false : (a b : ℕ) → a ≢ b → (a == b) ≡ false
      apart_false a b h = ground arith

  none_writes :
      (i : ℕ) (w : ℕ → Option A)
      → ((j : ℕ) → j ≢ i → w j ≡ none)
      → (j : ℕ) → set_writing i none w j ≡ none
  none_writes i w h j = elim (ℕ_discrete j i) [
    | yes same ↦ let e : (j == i) ≡ true = (==_iff j i).1 same in rw e
    | no other ↦ off_thread i j none w other ∙ h j other
  ]

  pub Step-IsOrderly : {s s' : OnceLock A} → Step s s' → IsOrderly s → IsOrderly s'
  Step-IsOrderly {s} (swaps i a unset idle) (fresh p q w) =
      in_progress i refl q (λ j other. off_thread i j (some a) s.writing other ∙ w j)
  Step-IsOrderly {s} (swaps i a unset idle) (in_progress j p q w) =
      absurd (bools_apart s.initialized p unset)
  Step-IsOrderly {s} (swaps i a unset idle) (finished b p q w) =
      absurd (bools_apart s.initialized p unset)
  Step-IsOrderly {s} (writes i a h) (fresh p q w) = absurd (options_apart (s.writing i) a (w i) h)
  Step-IsOrderly {s} (writes i a h) (in_progress j p q w) = elim (ℕ_discrete i j) [
    | yes same ↦
        finished a p refl (none_writes i s.writing (λ k other. w k (λ e. other (e ∙ sym same))))
    | no other ↦ absurd (options_apart (s.writing i) a (w i other) h)
  ]
  Step-IsOrderly {s} (writes i a h) (finished b p q w) =
      absurd (options_apart (s.writing i) a (w i) h)

  pub new-IsOrderly : {s : OnceLock A} → Reachable (new A) s → IsOrderly s
  new-IsOrderly start = fresh refl refl (λ i. refl)
  new-IsOrderly (then_step r step) = Step-IsOrderly step (new-IsOrderly r)

  got_value :
      (b : Bool) (o : Option A) (a : A)
      → (if b then elim o [ none ↦ uninitialized | some a ↦ returns a ] else panics) ≡ returns a
      → (b ≡ true) × (o ≡ some a)
  got_value true none a h = absurd (cc)
  got_value true (some b) a h = (refl, cc)
  got_value false o a h = absurd (cc)

  Step-get :
      {s s' : OnceLock A} {a : A} → IsOrderly s → Step s s' → get s ≡ returns a → get s' ≡ returns a
  Step-get {s} {s'} {a} o (swaps i b unset idle) h =
      absurd (bools_apart s.initialized (got_value s.initialized s.value a h).0 unset)
  Step-get {s} {s'} {a} (fresh p q w) (writes i b e) h =
      absurd (options_apart (s.writing i) b (w i) e)
  Step-get {s} {s'} {a} (in_progress j p q w) (writes i b e) h =
      absurd (options_apart s.value a q (got_value s.initialized s.value a h).1)
  Step-get {s} {s'} {a} (finished c p q w) (writes i b e) h =
      absurd (options_apart (s.writing i) b (w i) e)

  -- In every state that any threads reach from a new lock by calls of `set`, a value that `get` returns is the value
  -- that it returns in every state that is reached from there.
  pub Reachable-get :
      {s s' : OnceLock A} {a : A}
      → Reachable (new A) s
      → Reachable s s'
      → get s ≡ returns a
      → get s' ≡ returns a
  Reachable-get r start h = h
  Reachable-get r (then_step more step) h =
      Step-get (new-IsOrderly (and_then r more)) step (Reachable-get r more h)
    where
      and_then : {s s' s'' : OnceLock A} → Reachable s s' → Reachable s' s'' → Reachable s s''
      and_then r start = r
      and_then r (then_step t step) = then_step (and_then r t) step
