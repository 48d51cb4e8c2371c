-- ===== src/Bugs/Tests.antt =====
-- Schedules of the programs, and the theorems at them.
use ostep_code.Prelude.{◌≡◌, ◌≢◌, ◌⊎◌, refl, true, none, some, [], ◌∷◌, ℕ_discrete}
use ostep_code.Threads.{System, follow, follow-Reach}
use ostep_code.Bugs.Atomicity as Atomicity
use ostep_code.Bugs.Atomicity.Laws.{fixed_safe}
use ostep_code.Bugs.Deadlock as Deadlock
use ostep_code.Bugs.Deadlock.{thread_1, thread_2, over, one_lock}
use ostep_code.Bugs.Deadlock.Laws.{stuck_shape}
use ostep_code.Bugs.Ordering as Ordering
use ostep_code.Bugs.Ordering.Laws.{started_safe}

abbrev in_use : System Atomicity.Memory Atomicity.Point
in_use = follow Atomicity.step_fixed 2 (1 ∷ 0 ∷ 0 ∷ []) (Atomicity.init_fixed 100)

fixed_safe_run :
    (in_use.pc 0 ≢ Atomicity.crashed)
    × ((in_use.pc 0 ≢ Atomicity.use_info) ⊎ (in_use.mem.proc_info ≢ none))
fixed_safe_run =
    fixed_safe 100
      (follow-Reach Atomicity.step_fixed 2 (1 ∷ 0 ∷ 0 ∷ []) (Atomicity.init_fixed 100)).run

abbrev crossed : System Deadlock.Memory Deadlock.Point
crossed = follow Deadlock.step 2 (0 ∷ 1 ∷ []) Deadlock.init

stuck_shape_run :
    (crossed.pc 0 ≡ thread_1 over) × (crossed.pc 1 ≡ thread_2 over)
    ⊎ (crossed.pc 0 ≡ thread_1 one_lock) × (crossed.pc 1 ≡ thread_2 one_lock)
unfolding follow Deadlock.step ℕ_discrete
stuck_shape_run =
    stuck_shape (follow-Reach Deadlock.step 2 (0 ∷ 1 ∷ []) Deadlock.init).run refl refl

abbrev started : System Ordering.Memory Ordering.Point
started = follow (Ordering.step_fixed true) 2 (1 ∷ 0 ∷ 0 ∷ 1 ∷ []) (Ordering.init_fixed true)

started_safe_run :
    (started.pc 0 ≢ Ordering.crashed)
    × (started.pc 1 ≢ Ordering.crashed)
    × ((started.pc 1 ≢ Ordering.use_thread) ⊎ (started.mem.m_thread ≡ some 0))
started_safe_run =
    started_safe
      (follow-Reach (Ordering.step_fixed true) 2 (1 ∷ 0 ∷ 0 ∷ 1 ∷ [])
        (Ordering.init_fixed true)).run
