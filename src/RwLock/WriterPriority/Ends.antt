-- ===== src/RwLock/WriterPriority/Ends.antt =====
-- Theorems about the ends of the schedules of rwlock-writer-priority.cpp.
use ostep_code.Prelude.{ℕ, ◌+◌, ◌-◌, ◌*◌, ◌≤◌, ◌<◌, ◌≡◌, inl, inr, true, some, arith}
use ostep_code.Threads.{total, System, Run, Run-bound}
use ostep_code.RwLock.LightSwitch.{
  Place, out, inside, locking, unlocking, enter, count, light, leave, call,
}
use ostep_code.RwLock.WriterPriority.{
  Memory, Thread, reader, gate, writer, room, load, store, release, step, init, Role, create,
  finished,
}
use ostep_code.RwLock.WriterPriority.Inv.{all_writes}
use ostep_code.RwLock.WriterPriority.Safety.{no_lost_update}
use ostep_code.RwLock.WriterPriority.Progress.{CanMove, no_deadlock}

abbrev reader_steps : Place → ℕ
reader_steps out = 0
reader_steps inside = 5
reader_steps (locking enter) = 10
reader_steps (locking count) = 9
reader_steps (locking light) = 8
reader_steps (locking leave) = 7
reader_steps (unlocking enter) = 4
reader_steps (unlocking count) = 3
reader_steps (unlocking light) = 2
reader_steps (unlocking leave) = 1

abbrev writer_steps : Place → ℕ
writer_steps out = 0
writer_steps inside = 8
writer_steps (locking enter) = 12
writer_steps (locking count) = 11
writer_steps (locking light) = 10
writer_steps (locking leave) = 9
writer_steps (unlocking enter) = 4
writer_steps (unlocking count) = 3
writer_steps (unlocking light) = 2
writer_steps (unlocking leave) = 1

-- The steps that a thread has left: eleven for each round of a reader, thirteen for each of a
-- writer.
abbrev pub steps_left : Thread → ℕ
steps_left (reader left _ out) = 11 * left
steps_left (reader left _ p) = 11 * (left - 1) + reader_steps p
steps_left (gate left _) = 11 * (left - 1) + 6
steps_left (writer left out) = 13 * left
steps_left (writer left p) = 13 * (left - 1) + writer_steps p
steps_left (room left load) = 13 * (left - 1) + 7
steps_left (room left (store _)) = 13 * (left - 1) + 6
steps_left (room left release) = 13 * (left - 1) + 5

steps_left-step :
    (m m' : Memory) (t t' : Thread) → step m t ≡ some (m', t') → steps_left t' < steps_left t
unfolding step call
steps_left-step m m' (reader left v out) t' e = ground arith
steps_left-step m m' (reader left v inside) t' e = ground arith
steps_left-step m m' (reader left v (locking enter)) t' e = ground arith
steps_left-step m m' (reader left v (locking count)) t' e = ground arith
steps_left-step m m' (reader left v (locking light)) t' e = ground arith
steps_left-step m m' (reader left v (locking leave)) t' e = ground arith
steps_left-step m m' (reader left v (unlocking enter)) t' e = ground arith
steps_left-step m m' (reader left v (unlocking count)) t' e = ground arith
steps_left-step m m' (reader left v (unlocking light)) t' e = ground arith
steps_left-step m m' (reader left v (unlocking leave)) t' e = ground arith
steps_left-step m m' (gate left v) t' e = ground arith
steps_left-step m m' (writer left out) t' e = ground arith
steps_left-step m m' (writer left inside) t' e = ground arith
steps_left-step m m' (writer left (locking enter)) t' e = ground arith
steps_left-step m m' (writer left (locking count)) t' e = ground arith
steps_left-step m m' (writer left (locking light)) t' e = ground arith
steps_left-step m m' (writer left (locking leave)) t' e = ground arith
steps_left-step m m' (writer left (unlocking enter)) t' e = ground arith
steps_left-step m m' (writer left (unlocking count)) t' e = ground arith
steps_left-step m m' (writer left (unlocking light)) t' e = ground arith
steps_left-step m m' (writer left (unlocking leave)) t' e = ground arith
steps_left-step m m' (room left load) t' e = ground arith
steps_left-step m m' (room left (store w)) t' e = ground arith
steps_left-step m m' (room left release) t' e = ground arith

-- Every schedule ends, after at most eleven steps for each round of a reader and thirteen for each of a
-- writer.
pub schedule_bound_priority :
    {n k : ℕ} (roles : ℕ → Role) {s : System Memory Thread}
    → Run step n (init roles) k s
    → k ≤ total steps_left n (λ i. create (roles i))
schedule_bound_priority {n} roles r = omega (arith, Run-bound step n steps_left steps_left-step r)

-- A schedule that cannot go on has let every thread leave its loop, and has counted every write.
pub complete_priority :
    {n k : ℕ} (roles : ℕ → Role) {s : System Memory Thread}
    → Run step n (init roles) k s
    → ¬ CanMove n s
    → ((i : ℕ) → i < n → finished (s.pc i) ≡ true) × (s.mem.counter ≡ all_writes n roles)
complete_priority roles r stuck = elim (no_deadlock roles r) [
  | inl all ↦ (all, no_lost_update roles r all)
  | inr can ↦ absurd (stuck can)
]
