-- ===== src/ThreadPool/Laws.antt =====
-- Theorems about the jobs of the thread pool and about Stop.
use ostep_code.Prelude.{
  length_snoc, unwind, unwind-append, ℕ, suc, zero, ◌+◌, ◌≤◌, ◌<◌, ◌≡◌, refl, sym, ◌⊎◌, inl, inr,
  ◌↔◌, Bool, true, false, Option, none, some, List, [], ap, subst, ◌∙◌, ◌∷◌, ◌++◌, append-nil,
  append_assoc, arith, length, ltb, ◌&&◌, not, if◌then◌else◌,
}
use ostep_code.ThreadPool.{
  ThreadPool, thread_pool, start, thread_loop, queue_job, stop, join_all, Call, queueing, looping,
  stopping, call, calls,
}

-- The jobs taken in so far, in their order: those handed out and those that wait.
abbrev pub taken_in : ThreadPool → List ℕ
taken_in p = unwind p.handed p.m_jobs_que

-- A slot is free, and `Stop` has not been called.
abbrev pub has_room : ThreadPool → Bool
has_room p = ltb (length p.m_jobs_que) p.m_max_que_size && not p.m_should_terminate

queue_job_cases :
    (job : ℕ) (p : ThreadPool)
    → (has_room p ≡ false) × (call (queueing job) p ≡ p)
      ⊎ (has_room p ≡ true)
        × (length p.m_jobs_que < p.m_max_que_size)
        × (call (queueing job) p ≡ record p { m_jobs_que = p.m_jobs_que ++ job ∷ [] })
unfolding call queue_job
queue_job_cases job p = ground arith

looping_cases :
    (p : ThreadPool)
    → (call looping p ≡ p)
      ⊎ (p.m_should_terminate ≡ true) × (call looping p ≡ record p { finished = p.finished + 1 })
      ⊎ (job : ℕ) × (jobs : List ℕ) × (p.m_should_terminate ≡ false)
        × (p.m_jobs_que ≡ job ∷ jobs)
        × (call looping p ≡ record p { m_jobs_que = jobs; handed = job ∷ p.handed })
unfolding call thread_loop
looping_cases p = go p.m_should_terminate p.m_jobs_que refl refl
  where
    go :
        (t : Bool) (jobs : List ℕ)
        → p.m_should_terminate ≡ t
        → p.m_jobs_que ≡ jobs
        → (call looping p ≡ p)
          ⊎ (p.m_should_terminate ≡ true)
            × (call looping p ≡ record p { finished = p.finished + 1 })
          ⊎ (job : ℕ) × (jobs : List ℕ) × (p.m_should_terminate ≡ false)
            × (p.m_jobs_que ≡ job ∷ jobs)
            × (call looping p ≡ record p { m_jobs_que = jobs; handed = job ∷ p.handed })
    go true jobs e f = inr (inl (e, ground arith))
    go false [] e f = inl (ground arith)
    go false (job ∷ jobs) e f = inr (inr (job, jobs, e, f, ground arith))

-- The jobs that are to be taken in: those queued while a slot is free, before `Stop`.
unfoldable pub accepted : List Call → ThreadPool → List ℕ
accepted [] p = []
accepted (queueing job ∷ cs) p =
    let rest = accepted cs (call (queueing job) p) in if has_room p then job ∷ rest else rest
accepted (c ∷ cs) p = accepted cs (call c p)

stays_in_order :
    (c : Call) (p : ThreadPool) → accepted (c ∷ []) p ≡ [] → taken_in (call c p) ≡ taken_in p
unfolding unwind call accepted
stays_in_order (queueing job) p a = elim (queue_job_cases job p) [
  | inl (room, e) ↦ ap taken_in e
  | inr (room, lt, e) ↦ ground arith
]
stays_in_order looping p a = elim (looping_cases p) [
  | inl e ↦ ap taken_in e
  | inr (inl (t, e)) ↦ ap taken_in e
  | inr (inr (job, jobs, t, f, e)) ↦ ap taken_in e ∙ ap (unwind p.handed) (sym f)
]
stays_in_order stopping p a = refl

-- The jobs handed out and those that wait, taken together in their order, are after any calls those
-- from before and then, in the order of the calls, exactly the jobs that `QueueJob` was given while
-- fewer than `m_max_que_size` waited and `Stop` had not been called.
pub jobs_in_order :
    (cs : List Call) (p : ThreadPool) → taken_in (calls cs p) ≡ taken_in p ++ accepted cs p
unfolding calls accepted
jobs_in_order [] p = sym (append-nil (taken_in p))
jobs_in_order (queueing job ∷ cs) p = elim (queue_job_cases job p) [
  | inl (room, e) ↦ rw room (
      jobs_in_order cs (call (queueing job) p)
      ∙ ap (λ xs. xs ++ accepted cs (call (queueing job) p)) (ap taken_in e))
  | inr (room, lt, e) ↦ rw room (
      jobs_in_order cs (call (queueing job) p)
      ∙ ap (λ xs. xs ++ accepted cs (call (queueing job) p))
          (ap taken_in e ∙ unwind-append p.handed p.m_jobs_que (job ∷ []))
      ∙ append_assoc (taken_in p) (job ∷ []) (accepted cs (call (queueing job) p)))
]
jobs_in_order (looping ∷ cs) p =
    jobs_in_order cs (call looping p)
    ∙ ap (λ xs. xs ++ accepted cs (call looping p)) (stays_in_order looping p refl)
jobs_in_order (stopping ∷ cs) p =
    jobs_in_order cs (call stopping p)
    ∙ ap (λ xs. xs ++ accepted cs (call stopping p)) (stays_in_order stopping p refl)

abbrev pub IsBounded : ThreadPool → Type 0
IsBounded p = length p.m_jobs_que ≤ p.m_max_que_size

call-IsBounded : (c : Call) (p : ThreadPool) → IsBounded p → IsBounded (call c p)
unfolding call
call-IsBounded (queueing job) p b = elim (queue_job_cases job p) [
  | inl (room, e) ↦ subst IsBounded (sym e) b
  | inr (room, lt, e) ↦ subst IsBounded (sym e) (omega (arith, length_snoc p.m_jobs_que job))
]
call-IsBounded looping p b = elim (looping_cases p) [
  | inl e ↦ subst IsBounded (sym e) b
  | inr (inl (t, e)) ↦ subst IsBounded (sym e) b
  | inr (inr (job, jobs, t, f, e)) ↦ subst IsBounded (sym e) (omega (arith, b, ap length f))
]
call-IsBounded stopping p b = bounded p b
  where
    bounded : (p : ThreadPool) → IsBounded p → IsBounded (call stopping p)
    bounded p b = b

-- From the constructor on, `m_jobs_que` never holds more than `m_max_que_size` jobs, whatever the
-- calls and whether the pool blocks or not.
pub queue-IsBounded :
    (num_threads que_size : ℕ) (is_blocking : Bool) (cs : List Call)
    → IsBounded (calls cs (start (thread_pool num_threads que_size is_blocking)))
unfolding calls
queue-IsBounded n size blocking cs = bounded cs (start (thread_pool n size blocking)) (omega arith)
  where
    bounded : (cs : List Call) (p : ThreadPool) → IsBounded p → IsBounded (calls cs p)
    bounded [] p b = b
    bounded (c ∷ cs) p b = bounded cs (call c p) (call-IsBounded c p b)

longer : (xs : List ℕ) (v : ℕ) → ¬ (xs ++ v ∷ [] ≡ xs)
longer xs v e = omega (arith, length_snoc xs v, ap length e)

-- `QueueJob` returns true without taking the job in just if the queue is full and the pool is set
-- up to block when full.
pub queue_job_dropped :
    (job : ℕ) (p : ThreadPool)
    → (queue_job job p ≡ some (p, true))
      ↔ ((length p.m_jobs_que ≡ p.m_max_que_size) × (p.m_block_when_full ≡ true))
unfolding queue_job
queue_job_dropped job p = (to, from)
  where
    result : Option (ThreadPool × Bool) → ThreadPool × Bool
    result none = (p, false)
    result (some r) = r

    to :
        queue_job job p ≡ some (p, true)
        → (length p.m_jobs_que ≡ p.m_max_que_size) × (p.m_block_when_full ≡ true)
    to e =
        let f = ap (λ r. (result r).0.m_jobs_que) e in
        let g = ap (λ r. (result r).1) e in ground (arith, longer p.m_jobs_que job)

    from :
        (length p.m_jobs_que ≡ p.m_max_que_size) × (p.m_block_when_full ≡ true)
        → queue_job job p ≡ some (p, true)
    from e = ground arith

-- `n` rounds of `ThreadLoop`
abbrev pub rounds : ℕ → List Call
rounds zero = []
rounds (suc n) = looping ∷ rounds n

finish :
    (n : ℕ) (p : ThreadPool)
    → p.m_should_terminate ≡ true
    → calls (rounds n) p ≡ record p { finished = p.finished + n }
unfolding calls call thread_loop
finish zero p t = ap (λ m. record p { finished = m }) (omega arith)
finish (suc n) p t =
    let e : call looping p ≡ record p { finished = p.finished + 1 } = ground arith in
    ap (calls (rounds n)) e
    ∙ finish n (record p { finished = p.finished + 1 }) t
    ∙ ap (λ m. record p { finished = m }) (omega arith)

-- If no thread has left its loop before `Stop`, then after it and one round of `ThreadLoop` for
-- each thread the joins are through, and no further job has been handed out.
pub stop_joins :
    (p : ThreadPool)
    → p.finished ≡ 0
    → join_all (calls (rounds p.m_threads) (stop p))
      ≡ some (record p { m_should_terminate = true; m_threads = 0; finished = 0 })
unfolding join_all
stop_joins p z = let e = finish p.m_threads (stop p) refl in rw e (ground arith)
