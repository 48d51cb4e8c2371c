-- ===== src/Semaphores/Dining/Print.antt =====
-- threads-sema/dining_philosophers_no_deadlock_print.c: the philosophers with their messages, each
-- printed under `print_lock`; dining_philosophers_deadlock_print.c has the other order of forks.
-- What a message says is not kept.
pub mod Steps
pub mod Laws
use ostep_code.Prelude.{ℕ, ◌+◌, Option, none, some, ◌>>=◌, ltb, ◌==◌, if◌then◌else◌}
use ostep_code.Threads.{System}
use ostep_code.Sema.{sem_wait, sem_post}
use ostep_code.Semaphores.Dining.{Forks, set, left, right}

pub record Memory : Type 0 where
  pub forks : Forks
  pub print_lock : ℕ

-- The messages of `philosopher` and the two of `get_forks`; `finished` is "done".
pub data Message : Type 0 where
  start think try_first try_second eat finished : Message

-- Before the `Sem_wait` of `space` and before the `Sem_post` of `space_end` for a message, before
-- each of the other steps of `philosopher`, and returned.
pub data At : Type 0 where
  space space_end : Message → At
  test thinking get_first get_second eating put_left put_right over : At

-- The argument of `philosopher`, the round and where it stands.
pub record Talker : Type 0 where
  pub thread_id : ℕ
  pub i : ℕ
  pub at : At

-- The fork that `get_forks` of the version without deadlock tries first, and the other.
unfoldable pub first_try : ℕ → ℕ
first_try p = if p == 4 then right p else left p

unfoldable pub second_try : ℕ → ℕ
second_try p = if p == 4 then left p else right p

-- What comes after a message; the round ends with "done".
abbrev pub after : Message → Talker → Talker
after start t = record t { at = test }
after think t = record t { at = thinking }
after try_first t = record t { at = get_first }
after try_second t = record t { at = get_second }
after eat t = record t { at = eating }
after finished t = record t { at = test; i = t.i + 1 }

-- A step of `philosopher` for `num_loops` rounds; `a` and `b` are the forks that `get_forks` tries,
-- in this order.
unfoldable pub talk : (a b : ℕ → ℕ) → ℕ → Memory → Talker → At → Option (Memory × Talker)
talk a b num_loops m t (space message) = do
  v ← sem_wait m.print_lock
  some (record m { print_lock = v }, record t { at = space_end message })
talk a b num_loops m t (space_end message) =
    some (record m { print_lock = sem_post m.print_lock }, after message t)
talk a b num_loops m t test =
    some (m, record t { at = if ltb t.i num_loops then space think else over })
talk a b num_loops m t thinking = some (m, record t { at = space try_first })
talk a b num_loops m t get_first = do
  v ← sem_wait (m.forks (a t.thread_id))
  some (record m { forks = set m.forks (a t.thread_id) v }, record t { at = space try_second })
talk a b num_loops m t get_second = do
  v ← sem_wait (m.forks (b t.thread_id))
  some (record m { forks = set m.forks (b t.thread_id) v }, record t { at = space eat })
talk a b num_loops m t eating = some (m, record t { at = put_left })
talk a b num_loops m t put_left =
    let f = left t.thread_id in
    some (record m { forks = set m.forks f (sem_post (m.forks f)) }, record t { at = put_right })
talk a b num_loops m t put_right =
    let f = right t.thread_id in
    some
      (record m { forks = set m.forks f (sem_post (m.forks f)) }, record t { at = space finished })
talk a b num_loops m t over = none

-- The version without deadlock.
abbrev pub step_print : ℕ → Memory → Talker → Option (Memory × Talker)
step_print num_loops m t = talk first_try second_try num_loops m t t.at

-- The version with it, where `get_forks` tries the left fork first.
abbrev pub step_deadlock_print : ℕ → Memory → Talker → Option (Memory × Talker)
step_deadlock_print num_loops m t = talk left right num_loops m t t.at

-- `main`
abbrev pub init_print : System Memory Talker
init_print = record {
  mem = record { forks = λ j. 1; print_lock = 1 };
  pc = λ i. record { thread_id = i; i = 0; at = space start };
}
