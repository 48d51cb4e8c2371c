-- ===== src/Semaphores/Race.antt =====
-- threads-intro/t1.c and intro/threads.c: two threads count up the same counter with nothing to protect it.
pub mod Laws
use ostep_code.Prelude.{ℕ, ◌+◌, Option, none, some, ltb, if◌then◌else◌}
use ostep_code.Threads.{System}

-- In round `i`: at the loop's test and the load of `counter`; before the store of one more than
-- was read; and returned.
pub data Point : Type 0 where
  load : ℕ → Point
  store : ℕ → ℕ → Point
  over : Point

-- A step of `mythread` for `max` rounds, on the counter.
unfoldable pub step : ℕ → ℕ → Point → Option (ℕ × Point)
step max counter (load i) =
    if ltb i max then some (counter, store i counter) else some (counter, over)
step max counter (store i x) = some (x + 1, load (i + 1))
step max counter over = none

-- `worker` of intro/threads.c has the same loop, for `loops` rounds.
abbrev pub step_worker : ℕ → ℕ → Point → Option (ℕ × Point)
step_worker loops = step loops

-- `main`
abbrev pub init : System ℕ Point
init = record { mem = 0; pc = λ i. load 0 }
