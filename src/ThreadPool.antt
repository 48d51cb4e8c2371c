-- ===== src/ThreadPool.antt =====
-- threads-locks/thread-pool/: a bounded queue of jobs, served by threads. A call is the run of a
-- thread from where it gets `m_queue_mutex` to where it gives it up; a call that would wait on a
-- condition variable has no result, and is made anew after a wake-up. `m_queue_mutex` is held in
-- all of them, so the calls come one after the other. A job is named by a number.
pub mod Laws
mod Tests
use ostep_code.Prelude.{
  ℕ, ◌+◌, Bool, true, false, not, ◌&&◌, ◌||◌, Option, none, some, if◌then◌else◌, List, [], ◌∷◌,
  ◌++◌, ◌==◌, ltb, length,
}

-- The members. `handed` is what the threads have taken out so far, the last first, and
-- `finished` how many threads have left their loop.
pub record ThreadPool : Type 0 where
  pub m_num_threads : ℕ
  pub m_max_que_size : ℕ
  pub m_should_terminate : Bool
  pub m_block_when_full : Bool
  pub m_threads : ℕ
  pub m_jobs_que : List ℕ
  pub handed : List ℕ
  pub finished : ℕ

-- The constructor.
abbrev pub thread_pool : ℕ → ℕ → Bool → ThreadPool
thread_pool num_threads que_size is_blocking = record {
  m_num_threads = num_threads;
  m_max_que_size = que_size;
  m_should_terminate = false;
  m_block_when_full = is_blocking;
  m_threads = 0;
  m_jobs_que = [];
  handed = [];
  finished = 0;
}

-- `Start`: a thread in each of `m_num_threads` places.
abbrev pub start : ThreadPool → ThreadPool
start p = record p { m_threads = p.m_num_threads }

abbrev pub is_empty : List ℕ → Bool
is_empty [] = true
is_empty (x ∷ xs) = false

-- A round of `ThreadLoop` up to the call of the job, which is the second component; a thread that
-- returns has none.
unfoldable pub thread_loop : ThreadPool → Option (ThreadPool × Option ℕ)
thread_loop p =
    if not (is_empty p.m_jobs_que) || p.m_should_terminate
    then if p.m_should_terminate
      then some (record p { finished = p.finished + 1 }, none)
      else elim p.m_jobs_que [
        | [] ↦ none
        | job ∷ jobs ↦ some (record p { m_jobs_que = jobs; handed = job ∷ p.handed }, some job)
      ]
    else none

-- `QueueJob`. The first return is `return -1`, which as a `bool` is true.
unfoldable pub queue_job : ℕ → ThreadPool → Option (ThreadPool × Bool)
queue_job job p =
    if (length p.m_jobs_que == p.m_max_que_size) && p.m_block_when_full
    then some (p, true)
    else if ltb (length p.m_jobs_que) p.m_max_que_size || p.m_should_terminate
    then if p.m_should_terminate
      then some (p, false)
      else some (record p { m_jobs_que = p.m_jobs_que ++ job ∷ [] }, true)
    else none

-- `busy`, which is true when no job waits.
abbrev pub busy : ThreadPool → Bool
busy p = is_empty p.m_jobs_que

-- `Stop` up to the joins, and the joins: they wait until every thread has left its loop.
abbrev pub stop : ThreadPool → ThreadPool
stop p = record p { m_should_terminate = true }

unfoldable pub join_all : ThreadPool → Option ThreadPool
join_all p =
    if p.finished == p.m_threads then some (record p { m_threads = 0; finished = 0 }) else none

pub data Call : Type 0 where
  queueing : ℕ → Call
  looping stopping : Call

-- A call that waits leaves the pool as it is.
unfoldable pub call : Call → ThreadPool → ThreadPool
call (queueing job) p = elim (queue_job job p) [ none ↦ p | some (p', b) ↦ p' ]
call looping p = elim (thread_loop p) [ none ↦ p | some (p', job) ↦ p' ]
call stopping p = stop p

pub calls : List Call → ThreadPool → ThreadPool
calls [] p = p
calls (c ∷ cs) p = calls cs (call c p)
