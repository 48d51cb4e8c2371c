-- ===== src/RwLock/WriterPriority/Tests.antt =====
-- Runs of rwlock-writer-priority.cpp, and the theorems at states that they reach.
use ostep_code.Prelude.{
  ℕ, zero, suc, ◌≤◌, ◌<◌, ◌≡◌, refl, ◌⊎◌, true, false, arith, List, [], ◌∷◌, ℕ_discrete,
}
use ostep_code.Threads.{System, total, follow, follow-Reach}
use ostep_code.RwLock.LightSwitch.{unlocking, count, call}
use ostep_code.RwLock.WriterPriority.{
  Memory, Thread, step, init, Role, create, main_roles, writing, reading, finished,
}
use ostep_code.RwLock.WriterPriority.Inv.{all_writes}
use ostep_code.RwLock.WriterPriority.Tally.{reader_place, writer_place, arriving}
use ostep_code.RwLock.WriterPriority.Safety.{
  mutual_exclusion_priority, binary_semaphores, counter_pos_priority, readers_queue, no_lost_update,
}
use ostep_code.RwLock.WriterPriority.Progress.{CanMove, no_deadlock}
use ostep_code.RwLock.WriterPriority.Ends.{schedule_bound_priority, complete_priority, steps_left}

-- One reader with one round, and one writer with two.
abbrev roles : ℕ → Role
roles = main_roles 1 2

abbrev after : List ℕ → System Memory Thread
after is = follow step 2 is (init roles)

-- The writer is in its critical section, the reader waits for the room.
abbrev writer_in : List ℕ
writer_in = 1 ∷ 1 ∷ 1 ∷ 1 ∷ 1 ∷ 1 ∷ 0 ∷ []

-- The reader is about to leave the switch.
abbrev reader_leaves : List ℕ
reader_leaves = 0 ∷ 0 ∷ 0 ∷ 0 ∷ 0 ∷ 0 ∷ 0 ∷ 0 ∷ []

abbrev whole : List ℕ
whole =
    0 ∷ 0 ∷ 0 ∷ 0 ∷ 0 ∷ 0 ∷ 0 ∷ 0 ∷ 0 ∷ 0 ∷ 0 ∷ 1 ∷ 1 ∷ 1 ∷ 1 ∷ 1 ∷ 1 ∷ 1 ∷ 1 ∷ 1 ∷ 1 ∷ 1 ∷ 1 ∷ 1
    ∷ 1 ∷ 1 ∷ 1 ∷ 1 ∷ 1 ∷ 1 ∷ 1 ∷ 1 ∷ 1 ∷ 1 ∷ 1 ∷ 1 ∷ 1 ∷ []

whole_counts : (after whole).mem.counter ≡ 2
unfolding follow step call ℕ_discrete
whole_counts = refl

mutual_exclusion_priority_example :
    (writing ((after writer_in).pc 0) ≡ false) × (reading ((after writer_in).pc 0) ≡ false)
unfolding follow step call ℕ_discrete
mutual_exclusion_priority_example =
    mutual_exclusion_priority roles (follow-Reach step 2 writer_in (init roles)).run 1 0
      (omega arith) (omega arith) (omega arith) refl

binary_semaphores_example :
    ((after writer_in).mem.reader_switch.mutex ≤ 1)
    × ((after writer_in).mem.writer_switch.mutex ≤ 1)
    × ((after writer_in).mem.no_readers ≤ 1)
    × ((after writer_in).mem.no_writers ≤ 1)
binary_semaphores_example = binary_semaphores roles (follow-Reach step 2 writer_in (init roles)).run

counter_pos_priority_example :
    (reader_place ((after reader_leaves).pc 0) ≡ unlocking count
      → 0 < (after reader_leaves).mem.reader_switch.counter)
    × (writer_place ((after reader_leaves).pc 0) ≡ unlocking count
        → 0 < (after reader_leaves).mem.writer_switch.counter)
counter_pos_priority_example =
    counter_pos_priority roles (follow-Reach step 2 reader_leaves (init roles)).run 0 (omega arith)

readers_queue_example :
    ((after writer_in).mem.no_readers ≡ 0) × (arriving ((after writer_in).pc 0) ≡ 0)
unfolding follow step call ℕ_discrete
readers_queue_example =
    readers_queue roles (follow-Reach step 2 writer_in (init roles)).run 1 0 (omega arith)
      (omega arith) refl

whole-finished : (i : ℕ) → i < 2 → finished ((after whole).pc i) ≡ true
unfolding follow step call ℕ_discrete
whole-finished zero h = refl
whole-finished (suc zero) h = refl
whole-finished (suc (suc i)) h = absurd (omega arith)

no_lost_update_example : (after whole).mem.counter ≡ all_writes 2 roles
no_lost_update_example =
    no_lost_update roles (follow-Reach step 2 whole (init roles)).run whole-finished

no_deadlock_example :
    ((i : ℕ) → i < 2 → finished ((after writer_in).pc i) ≡ true) ⊎ CanMove 2 (after writer_in)
no_deadlock_example = no_deadlock roles (follow-Reach step 2 writer_in (init roles)).run

schedule_bound_priority_run :
    (follow-Reach step 2 writer_in (init roles)).steps ≤ total steps_left 2 (λ i. create (roles i))
schedule_bound_priority_run =
    schedule_bound_priority roles (follow-Reach step 2 writer_in (init roles)).run

whole_stuck : ¬ CanMove 2 (after whole)
unfolding follow step call ℕ_discrete
whole_stuck (zero, lt, h) = h refl
whole_stuck (suc zero, lt, h) = h refl
whole_stuck (suc (suc i), lt, h) = absurd (omega arith)

complete_priority_example :
    ((i : ℕ) → i < 2 → finished ((after whole).pc i) ≡ true)
    × ((after whole).mem.counter ≡ all_writes 2 roles)
complete_priority_example =
    complete_priority roles (follow-Reach step 2 whole (init roles)).run whole_stuck
