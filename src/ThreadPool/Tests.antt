-- ===== src/ThreadPool/Tests.antt =====
-- Calls on a thread pool, and the theorems at them.
use ostep_code.Prelude.{◌≡◌, ◌↔◌, ◌++◌, refl, true, some, List, [], ◌∷◌, length}
use ostep_code.ThreadPool.{
  ThreadPool, thread_pool, start, thread_loop, queue_job, stop, join_all, Call, queueing, looping,
  call, calls,
}
use ostep_code.ThreadPool.Laws.{
  accepted, taken_in, jobs_in_order, IsBounded, queue-IsBounded, queue_job_dropped, rounds,
  stop_joins,
}

abbrev pool : ThreadPool
pool = start (thread_pool 2 2 true)

abbrev some_calls : List Call
some_calls = queueing 5 ∷ queueing 6 ∷ queueing 7 ∷ looping ∷ queueing 8 ∷ []

-- The third job finds the queue full and is dropped.
some_calls_run : (calls some_calls pool).m_jobs_que ≡ 6 ∷ 8 ∷ []
unfolding calls call queue_job thread_loop
some_calls_run = refl

accepted_run : accepted some_calls pool ≡ 5 ∷ 6 ∷ 8 ∷ []
unfolding accepted call queue_job thread_loop
accepted_run = refl

jobs_in_order_example : taken_in (calls some_calls pool) ≡ taken_in pool ++ accepted some_calls pool
jobs_in_order_example = jobs_in_order some_calls pool

queue-IsBounded_run : IsBounded (calls some_calls pool)
queue-IsBounded_run = queue-IsBounded 2 2 true some_calls

abbrev full : ThreadPool
full = record pool { m_jobs_que = 1 ∷ 2 ∷ [] }

queue_job_dropped_run :
    (queue_job 3 full ≡ some (full, true)) ↔ ((length full.m_jobs_que ≡ 2) × (true ≡ true))
queue_job_dropped_run = queue_job_dropped 3 full

stop_joins_example :
    join_all (calls (rounds 2) (stop full))
    ≡ some (record full { m_should_terminate = true; m_threads = 0; finished = 0 })
stop_joins_example = stop_joins full refl
