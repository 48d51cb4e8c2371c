-- ===== src/Bounded/Works.antt =====
-- threads-sema/producer_consumer_works.c: one producer and several consumers on the circular buffer,
-- with three semaphores.
pub mod Weights
pub mod Points
mod Steps
mod Ends
pub mod Laws
use ostep_code.Prelude.{
  ℕ, zero, suc, ◌+◌, Option, none, some, ◌>>=◌, ltb, if◌then◌else◌, ℤ, pos, eq_ℤ,
}
use ostep_code.Threads.{System}
use ostep_code.Sema.{sem_wait, sem_post}
use ostep_code.Bounded.{marker}
use ostep_code.Bounded.Ring.{Globals, do_fill_wrap, do_get_wrap}

pub record Memory : Type 0 where
  pub globals : Globals
  pub empty : ℕ
  pub full : ℕ
  pub mutex : ℕ

-- The loops of `producer`: which value is put.
pub data Round : Type 0 where
  value_of mark_of : ℕ → Round

pub data Point : Type 0 where
  -- `producer`: the loop's test, `sem_wait(&empty)`, `sem_wait(&mutex)`, `do_fill`, the two posts
  produce wait_empty lock_fill filling unlock_fill post_full : Round → Point
  produced : Point
  -- `consumer`: the loop's test, `sem_wait(&full)`, `sem_wait(&mutex)`, `do_get`, the two posts
  consume : ℤ → Point
  wait_full lock_get getting : Point
  unlock_get post_empty : ℤ → Point
  consumed : Point

abbrev pub put_value : Round → ℤ
put_value (value_of i) = pos i
put_value (mark_of j) = marker

abbrev pub next_round : Round → Round
next_round (value_of i) = value_of (i + 1)
next_round (mark_of j) = mark_of (j + 1)

-- A step of `producer` or `consumer`.
module _ (max loops consumers : ℕ) where
  unfoldable pub step_works : Memory → Point → Option (Memory × Point)
  step_works m (produce (value_of i)) =
      some (m, if ltb i loops then wait_empty (value_of i) else produce (mark_of 0))
  step_works m (produce (mark_of j)) =
      some (m, if ltb j consumers then wait_empty (mark_of j) else produced)
  step_works m (wait_empty r) = do v ← sem_wait m.empty; some (record m { empty = v }, lock_fill r)
  step_works m (lock_fill r) = do v ← sem_wait m.mutex; some (record m { mutex = v }, filling r)
  step_works m (filling r) =
      some (record m { globals = do_fill_wrap max m.globals (put_value r) }, unlock_fill r)
  step_works m (unlock_fill r) = some (record m { mutex = sem_post m.mutex }, post_full r)
  step_works m (post_full r) = some (record m { full = sem_post m.full }, produce (next_round r))
  step_works m produced = none
  step_works m (consume tmp) = some (m, if eq_ℤ tmp marker then consumed else wait_full)
  step_works m wait_full = do v ← sem_wait m.full; some (record m { full = v }, lock_get)
  step_works m lock_get = do v ← sem_wait m.mutex; some (record m { mutex = v }, getting)
  step_works m getting =
      let r = do_get_wrap max m.globals in some (record m { globals = r.0 }, unlock_get r.1)
  step_works m (unlock_get tmp) = some (record m { mutex = sem_post m.mutex }, post_empty tmp)
  step_works m (post_empty tmp) = some (record m { empty = sem_post m.empty }, consume tmp)
  step_works m consumed = none

-- `main`
abbrev pub points_works : ℕ → Point
points_works zero = produce (value_of 0)
points_works (suc i) = consume (pos 0)

abbrev pub init_works : ℕ → System Memory Point
init_works max = record {
  mem = record {
    globals = record { buffer = λ i. pos 0; use_at = 0; fill_at = 0 };
    empty = max;
    full = 0;
    mutex = 1;
  };
  pc = points_works;
}
