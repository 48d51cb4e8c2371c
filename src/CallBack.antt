-- ===== src/CallBack.antt =====
-- threads-locks/other-problems/call-backs/thraed-safe-callback.cpp: a call-back for when two tasks
-- are through. Thread 0 is the task of startTask1, thread 1 that of startTask2.
pub mod Laws
use ostep_code.Prelude.{
  ℕ, zero, suc, ◌+◌, ◌-◌, Bool, true, false, Option, none, some, ◌==◌, if◌then◌else◌,
}
use ostep_code.Threads.{System}

-- `*counter`, how often `callback` was called, and whether the future of startTask1 is through. The
-- counter is 2 at first and each task takes one from it, so it does not fall below 0.
pub record Memory : Type 0 where
  pub counter : ℕ
  pub calls : ℕ
  pub first_through : Bool

-- A task before its start, before `--(*counter)`, before the load, at its end, and returned.
pub data Point : Type 0 where
  not_started count_down load_counter end over : Point

-- A step of `parallel` in a task. The future that `asyncCall` drops waits for its task, so
-- startTask2 starts its own when the first is through.
unfoldable pub step : Memory → Point → Option (Memory × Point)
step m not_started = if m.first_through then some (m, count_down) else none
step m count_down = some (record m { counter = m.counter - 1 }, load_counter)
step m load_counter = some (if m.counter == 0 then record m { calls = m.calls + 1 } else m, end)
step m end = some (record m { first_through = true }, over)
step m over = none

abbrev pub points : Point → ℕ → Point
points second zero = count_down
points second (suc i) = second

abbrev pub start : Memory
start = record { counter = 2; calls = 0; first_through = false }

-- `StartTwoTasks`
abbrev pub init : System Memory Point
init = record { mem = start; pc = points not_started }

-- `StartTwoTasks` with both tasks at the same time, which the header of the program asks for.
abbrev pub init_parallel : System Memory Point
init_parallel = record { mem = start; pc = points count_down }
