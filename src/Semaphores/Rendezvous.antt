-- ===== src/Semaphores/Rendezvous.antt =====
-- threads-sema/rendezvous.c: two children that wait for one another.
pub mod Laws
use ostep_code.Prelude.{ℕ, zero, suc, Option, none, some, ◌>>=◌}
use ostep_code.Threads.{System}
use ostep_code.Sema.{sem_wait, sem_post}

pub record Memory : Type 0 where
  pub s1 : ℕ
  pub s2 : ℕ

-- Before the "before" message, before the post, before the wait, before the "after" message, and
-- returned.
pub data At : Type 0 where
  say_before post wait say_after over : At

pub data Point : Type 0 where
  child_1 child_2 : At → Point

-- A step of `child_1` or `child_2`.
unfoldable pub step : Memory → Point → Option (Memory × Point)
step m (child_1 say_before) = some (m, child_1 post)
step m (child_1 post) = some (record m { s1 = sem_post m.s1 }, child_1 wait)
step m (child_1 wait) = do v ← sem_wait m.s2; some (record m { s2 = v }, child_1 say_after)
step m (child_1 say_after) = some (m, child_1 over)
step m (child_1 over) = none
step m (child_2 say_before) = some (m, child_2 post)
step m (child_2 post) = some (record m { s2 = sem_post m.s2 }, child_2 wait)
step m (child_2 wait) = do v ← sem_wait m.s1; some (record m { s1 = v }, child_2 say_after)
step m (child_2 say_after) = some (m, child_2 over)
step m (child_2 over) = none

abbrev pub points : ℕ → Point
points zero = child_1 say_before
points (suc i) = child_2 say_before

abbrev pub init : System Memory Point
init = record { mem = record { s1 = 0; s2 = 0 }; pc = points }
