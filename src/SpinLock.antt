-- ===== src/SpinLock.antt =====
-- shared/spinlock/src/lib.rs, with the interrupt state of a core from kernel/src/core_locals.rs: one lock and the
-- cores that use it, step by step. The actions of a core on its own interrupts go with the step next to them.
mod Queue
mod Steps
mod Served
pub mod Exclusion
mod Tests
use elise.Base.{
  ℕ, zero, suc, ◌+◌, ◌-◌, ◌*◌, ◌%◌, ◌^◌, ◌≤◌, ◌<◌, ◌≡◌, Bool, true, false, ◌||◌, ◌&&◌, not, ◌==◌,
  if◌then◌else◌, ltb,
}

-- Where a core is: outside of the lock, in the loop of `lock` with its ticket, or with the guard.
pub data Place : Type 0 where
  outside : Place
  spinning : ℕ → Place
  holding : Place

-- `interrupts_on` is the interrupt flag.
pub record Core : Type 0 where
  pub place : Place
  pub interrupt_disable_requests : ℕ
  pub interrupts_on : Bool
  pub in_interrupt : Bool

pub record SpinLock : Type 0 where
  pub ticket : ℕ
  pub release : ℕ
  pub disable_interrupts : Bool

abbrev pub new : SpinLock
new = record { ticket = 0; release = 0; disable_interrupts = false }

abbrev pub new_no_preempt : SpinLock
new_no_preempt = record { ticket = 0; release = 0; disable_interrupts = true }

-- `CoreLocals::disable_interrupts`, behind its check of the count
abbrev pub disable_interrupts : Core → Core
disable_interrupts c = record c {
  interrupt_disable_requests = suc c.interrupt_disable_requests;
  interrupts_on = false;
}

-- `CoreLocals::enable_interrupts`, behind its check of the count
abbrev pub enable_interrupts : Core → Core
enable_interrupts c = record c {
  interrupt_disable_requests = c.interrupt_disable_requests - 1;
  interrupts_on =
      if not c.in_interrupt && c.interrupt_disable_requests == 1 then true else c.interrupts_on;
}

pub record System : Type 0 where
  pub lock : SpinLock
  pub cores : ℕ → Core

abbrev pub set_core : ℕ → Core → (ℕ → Core) → ℕ → Core
set_core i c cores = λ j. if j == i then c else cores j

-- `lock` up to its loop
abbrev pub take_ticket : ℕ → System → System
take_ticket i s =
    let c = s.cores i in
    let c' = if s.lock.disable_interrupts then disable_interrupts c else c in
    record {
      lock = record s.lock { ticket = (s.lock.ticket + 1) % 2 ^ 64 };
      cores = set_core i (record c' { place = spinning s.lock.ticket }) s.cores;
    }

-- The end of the loop of `lock`
abbrev pub leave_loop : ℕ → System → System
leave_loop i s = record s { cores = set_core i (record (s.cores i) { place = holding }) s.cores }

-- `drop` of the guard
abbrev pub drop_guard : ℕ → System → System
drop_guard i s =
    let c = record (s.cores i) { place = outside } in
    record {
      lock = record s.lock { release = (s.lock.release + 1) % 2 ^ 64 };
      cores = set_core i (if s.lock.disable_interrupts then enable_interrupts c else c) s.cores;
    }

-- A step of one of the first `n` cores; a failed assertion or `expect` has none.
pub data Step (n : ℕ) (s : System) : System → Type 0 where
  takes :
      (i : ℕ)
      → i < n
      → (s.cores i).place ≡ outside
      → (s.lock.disable_interrupts || not (s.cores i).in_interrupt) ≡ true
      → (not s.lock.disable_interrupts || ltb ((s.cores i).interrupt_disable_requests + 1) (2 ^ 64))
        ≡ true
      → Step n s (take_ticket i s)
  leaves :
      (i t : ℕ)
      → i < n
      → (s.cores i).place ≡ spinning t
      → t ≡ s.lock.release
      → Step n s (leave_loop i s)
  drops :
      (i : ℕ)
      → i < n
      → (s.cores i).place ≡ holding
      → (not s.lock.disable_interrupts || not ((s.cores i).interrupt_disable_requests == 0)) ≡ true
      → Step n s (drop_guard i s)

pub data Reachable (n : ℕ) (s : System) : System → Type 0 where
  start : Reachable n s s
  then_step : {s' s'' : System} → Reachable n s s' → Step n s' s'' → Reachable n s s''
