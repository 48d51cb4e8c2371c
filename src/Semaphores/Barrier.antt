-- ===== src/Semaphores/Barrier.antt =====
-- threads-sema/barrier.c: a barrier of two semaphores and two counters.
pub mod Steps
pub mod Laws
use ostep_code.Prelude.{ℕ, ◌+◌, ◌-◌, Option, none, some, ◌>>=◌, ltb, ◌==◌, if◌then◌else◌}
use ostep_code.Threads.{System}
use ostep_code.Sema.{sem_wait, sem_post}

pub record Barrier : Type 0 where
  pub sem1 : ℕ
  pub sem2 : ℕ
  pub count : ℕ
  pub thread_count : ℕ

abbrev pub barrier_init : ℕ → Barrier
barrier_init num_threads = record { thread_count = num_threads; count = 0; sem1 = 1; sem2 = 0 }

-- Before each of `child`'s steps.
pub data Point : Type 0 where
  -- the "before" message, `sem_wait(&b->sem1)`, `b->count++` and the first test
  say_before enter add test_first : Point
  -- in the first branch: the post, the wait for `sem2`, the wait for `sem1`
  leave wait_all again : Point
  -- the second test, `thread_count--`, `count--`, the two posts, the "after" message
  test_second fewer_threads fewer_count post_first post_second say_after over : Point

-- A step of `child`, which calls `barrier`.
unfoldable pub step : Barrier → Point → Option (Barrier × Point)
step b say_before = some (b, enter)
step b enter = do v ← sem_wait b.sem1; some (record b { sem1 = v }, add)
step b add = some (record b { count = b.count + 1 }, test_first)
step b test_first = some (b, if ltb b.count b.thread_count then leave else test_second)
step b leave = some (record b { sem1 = sem_post b.sem1 }, wait_all)
step b wait_all = do v ← sem_wait b.sem2; some (record b { sem2 = v }, again)
step b again = do v ← sem_wait b.sem1; some (record b { sem1 = v }, test_second)
step b test_second = some (b, if b.thread_count == b.count then fewer_threads else say_after)
step b fewer_threads = some (record b { thread_count = b.thread_count - 1 }, fewer_count)
step b fewer_count = some (record b { count = b.count - 1 }, post_first)
step b post_first = some (record b { sem1 = sem_post b.sem1 }, post_second)
step b post_second = some (record b { sem2 = sem_post b.sem2 }, say_after)
step b say_after = some (b, over)
step b over = none

-- `main`
abbrev pub init : ℕ → System Barrier Point
init num_threads = record { mem = barrier_init num_threads; pc = λ i. say_before }
