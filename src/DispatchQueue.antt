-- ===== src/DispatchQueue.antt =====
-- threads-locks/other-problems/call-backs/dispatch-que.cpp: operations that threads take from a
-- queue. Thread 0 is the client, which dispatches its operations and then destroys the queue; all
-- others run `dispatch_thread_handler`. A step is what a thread does while it holds `lock_`; the lock
-- is free between the end of a round and the next test, where the code keeps it. An operation is named by a number.
pub mod Awake
pub mod Laws
mod Tests
use ostep_code.Prelude.{
  ℕ, zero, suc, Bool, true, false, not, ◌&&◌, ◌||◌, Option, none, some, ◌>>=◌, if◌then◌else◌, List,
  [], ◌∷◌, ◌++◌,
}
use ostep_code.Threads.{System}
use ostep_code.Cond.{Cond, cond_init, cond_wait, cond_wake, cond_signal, cond_broadcast}

-- `q_`, `quit_` and `cv_`. `started` is the operations that threads have taken so far, the last
-- first.
pub record Memory : Type 0 where
  pub q : List ℕ
  pub quit : Bool
  pub cv : Cond
  pub started : List ℕ

-- A thread before the test of `cv_.wait`, asleep in it, past its loop, and one that has given the
-- lock up to call `op`; the client before it dispatches `ops`, and before the joins of the
-- destructor.
pub data Point : Type 0 where
  testing asleep ended joining : Point
  operating : (op : ℕ) → Point
  dispatching : (ops : List ℕ) → Point

abbrev pub has_ops : List ℕ → Bool
has_ops [] = false
has_ops (op ∷ ops) = true

-- The end of the loop's body, and the test of `quit_`.
abbrev pub go_on : Memory → Memory × Point
go_on m = if m.quit then (m, ended) else (m, testing)

unfoldable pub dispatch_thread_handler : Memory → Memory × Point
dispatch_thread_handler m =
    if has_ops m.q || m.quit
    then if not m.quit && has_ops m.q
      then elim m.q [
        | [] ↦ go_on m
        | op ∷ ops ↦ (record m { q = ops; started = op ∷ m.started }, operating op)
      ]
      else go_on m
    else (record m { cv = cond_wait m.cv }, asleep)

-- Either of the two, which copy or move `op`.
abbrev pub dispatch : ℕ → Memory → Memory
dispatch op m = record m { q = m.q ++ op ∷ []; cv = cond_signal m.cv }

-- The destructor up to the joins.
abbrev pub destroy : Memory → Memory
destroy m = record m { quit = true; cv = cond_broadcast m.cv }

unfoldable pub step : Memory → Point → Option (Memory × Point)
step m testing = some (dispatch_thread_handler m)
step m asleep = do cv ← cond_wake m.cv; some (record m { cv = cv }, testing)
step m (operating op) = some (go_on m)
step m ended = none
step m (dispatching (op ∷ ops)) = some (dispatch op m, dispatching ops)
step m (dispatching []) = some (destroy m, joining)
step m joining = none

abbrev pub points : List ℕ → ℕ → Point
points ops zero = dispatching ops
points ops (suc i) = testing

abbrev pub init : List ℕ → System Memory Point
init ops = record {
  mem = record { q = []; quit = false; cv = cond_init; started = [] };
  pc = points ops;
}
