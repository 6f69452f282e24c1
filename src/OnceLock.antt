-- ===== src/OnceLock.antt =====
-- shared/oncelock/src/lib.rs: a lock that is written once, step by step. `set` is two steps, its `swap` and its write.
pub mod Kept
mod Tests
use elise.Base.{ℕ, ◌≡◌, Bool, true, false, Option, none, some, ◌==◌, if◌then◌else◌}

-- `value` is `none` while its memory is not initialized; `writing` has what a thread is about to write.
pub record OnceLock (A : Type 0) : Type 0 where
  pub initialized : Bool
  pub value : Option A
  pub writing : ℕ → Option A

abbrev pub new : (A : Type 0) → OnceLock A
new A = record { initialized = false; value = none; writing = λ i. none }

-- What `get` does: it panics, returns a value, or returns memory that is not initialized.
pub data Got (A : Type 0) : Type 0 where
  panics uninitialized : Got A
  returns : A → Got A

module _ {A : Type 0} where
  abbrev pub get : OnceLock A → Got A
  get s =
      if s.initialized then elim (s.value) [ none ↦ uninitialized | some a ↦ returns a ] else panics

  abbrev pub try_get : OnceLock A → Option (Got A)
  try_get s = if s.initialized then some (get s) else none

  abbrev set_writing : ℕ → Option A → (ℕ → Option A) → ℕ → Option A
  set_writing i o writing = λ j. if j == i then o else writing j

  -- `set` by a thread up to its write, behind the assertion
  abbrev pub swap_initialized : ℕ → A → OnceLock A → OnceLock A
  swap_initialized i a s = record s {
    initialized = true;
    writing = set_writing i (some a) s.writing;
  }

  abbrev pub write_value : ℕ → A → OnceLock A → OnceLock A
  write_value i a s = record s { value = some a; writing = set_writing i none s.writing }

  -- A step of any thread; a failed assertion has none, and reads change nothing.
  pub data Step (s : OnceLock A) : OnceLock A → Type 0 where
    swaps :
        (i : ℕ) (a : A)
        → s.initialized ≡ false
        → s.writing i ≡ none
        → Step s (swap_initialized i a s)
    writes : (i : ℕ) (a : A) → s.writing i ≡ some a → Step s (write_value i a s)

  pub data Reachable (s : OnceLock A) : OnceLock A → Type 0 where
    start : Reachable s s
    then_step : {s' s'' : OnceLock A} → Reachable s s' → Step s' s'' → Reachable s s''
