-- ===== src/Semaphores/Dining.antt =====
-- threads-sema/dining_philosophers_no_deadlock.c and dining_philosophers_deadlock.c: five
-- philosophers and five forks. The printing version is the child module Print.
pub mod Forks
pub mod Laws
pub mod Deadlock
pub mod Print
use ostep_code.Prelude.{
  ℕ, ◌+◌, ◌%◌, Option, none, some, ◌>>=◌, ltb, ◌==◌, if◌then◌else◌, ite, ℕ_discrete,
}
use ostep_code.Threads.{System}
use ostep_code.Sema.{sem_wait, sem_post}

-- `sem_t forks[5]`, by the index.
abbrev pub Forks : Type 0
Forks = ℕ → ℕ

abbrev pub set : Forks → ℕ → ℕ → Forks
set forks f v j = ite (ℕ_discrete j f) v (forks j)

abbrev pub left : ℕ → ℕ
left p = p

abbrev pub right : ℕ → ℕ
right p = (p + 1) % 5

-- The fork that `get_forks` of the version without deadlock waits for first, and the other.
unfoldable pub first_fork : ℕ → ℕ
first_fork p = if p == 4 then right p else left p

unfoldable pub second_fork : ℕ → ℕ
second_fork p = if p == 4 then left p else right p

-- Before each step of `philosopher`: the loop's test, `think`, the two waits of `get_forks`, `eat`,
-- the two posts of `put_forks`; and returned.
pub data At : Type 0 where
  test thinking get_first get_second eating put_left put_right over : At

-- The argument of `philosopher`, the round and where it stands.
pub record Seat : Type 0 where
  pub thread_id : ℕ
  pub round : ℕ
  pub at : At

-- A step of `philosopher`, on the forks, for `num_loops` rounds; `a` and `b` are the forks that
-- `get_forks` waits for, in this order.
unfoldable pub move : (a b : ℕ → ℕ) → ℕ → Forks → Seat → At → Option (Forks × Seat)
move a b num_loops forks s test =
    some (forks, record s { at = if ltb s.round num_loops then thinking else over })
move a b num_loops forks s thinking = some (forks, record s { at = get_first })
move a b num_loops forks s get_first = do
  v ← sem_wait (forks (a s.thread_id))
  some (set forks (a s.thread_id) v, record s { at = get_second })
move a b num_loops forks s get_second = do
  v ← sem_wait (forks (b s.thread_id))
  some (set forks (b s.thread_id) v, record s { at = eating })
move a b num_loops forks s eating = some (forks, record s { at = put_left })
move a b num_loops forks s put_left =
    let f = left s.thread_id in some (set forks f (sem_post (forks f)), record s { at = put_right })
move a b num_loops forks s put_right =
    let f = right s.thread_id in
    some (set forks f (sem_post (forks f)), record s { at = test; round = s.round + 1 })
move a b num_loops forks s over = none

abbrev pub philosopher : (a b : ℕ → ℕ) → ℕ → Forks → Seat → Option (Forks × Seat)
philosopher a b num_loops forks s = move a b num_loops forks s s.at

-- The version without deadlock.
abbrev pub step : ℕ → Forks → Seat → Option (Forks × Seat)
step = philosopher first_fork second_fork

-- The version with it, where `get_forks` waits for the left fork first.
abbrev pub step_deadlock : ℕ → Forks → Seat → Option (Forks × Seat)
step_deadlock = philosopher left right

-- `main`
abbrev pub init : System Forks Seat
init = record { mem = λ j. 1; pc = λ i. record { thread_id = i; round = 0; at = test } }
