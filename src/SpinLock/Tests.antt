-- ===== src/SpinLock/Tests.antt =====
-- Two cores at a lock of shared/spinlock/src/lib.rs.
use elise.Base.{ℕ, ◌≡◌, refl, arith, true, false}
use elise.SpinLock.{
  outside, holding, Core, new_no_preempt, System, take_ticket, leave_loop, drop_guard, takes,
  leaves, Reachable, start, then_step,
}
use elise.SpinLock.Exclusion.{IsFresh, IsServed, Reachable-one_holder, Reachable-IsServed}

abbrev idle_core : Core
idle_core = record {
  place = outside;
  interrupt_disable_requests = 0;
  interrupts_on = true;
  in_interrupt = false;
}

abbrev idle_system : System
idle_system = record { lock = new_no_preempt; cores = λ i. idle_core }

idle_system-IsFresh : IsFresh idle_system
idle_system-IsFresh = record { ticket = refl; release = refl; cores = λ i. refl }

abbrev one_waits : System
one_waits = leave_loop 0 (take_ticket 1 (take_ticket 0 idle_system))

one_waits_reached : Reachable 2 idle_system one_waits
one_waits_reached =
    then_step
      (then_step (then_step start (takes 0 (omega arith) refl refl refl))
        (takes 1 (omega arith) refl refl refl))
      (leaves 0 0 (omega arith) refl refl)

Reachable-one_holder_example : ◌≡◌ {A = ℕ} 0 0
Reachable-one_holder_example =
    Reachable-one_holder 0 0 (omega arith) idle_system-IsFresh one_waits_reached (omega arith)
      (omega arith) refl refl

Reachable-IsServed_example : IsServed 2 one_waits
Reachable-IsServed_example =
    Reachable-IsServed 1 1 (omega arith) idle_system-IsFresh one_waits_reached (omega arith) refl

-- The guard passes to the second core, whose interrupts stay off.
handed_over :
    (leave_loop 1 (drop_guard 0 one_waits)).cores 1
    ≡ record idle_core { place = holding; interrupt_disable_requests = 1; interrupts_on = false }
handed_over = refl

first_on_again : ((leave_loop 1 (drop_guard 0 one_waits)).cores 0).interrupts_on ≡ true
first_on_again = refl
