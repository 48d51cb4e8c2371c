-- ===== src/Join/Sem.antt =====
-- threads-sema/join.c: the parent waits on a semaphore that the child posts.
use ostep_code.Prelude.{ℕ, zero, suc, ◌+◌, ◌≡◌, ◌≢◌, refl, Option, none, some, ◌>>=◌, arith}
use ostep_code.Threads.{System, Run}
use ostep_code.Threads.Two.{two-inv}
use ostep_code.Sema.{sem_wait, sem_post}

-- The child before its post, the parent before its wait, and a thread that has returned.
pub data Place : Type 0 where
  post_s wait_s returned : Place

-- A step of `child` or of `main`, on the semaphore `s`.
unfoldable pub step_sem : ℕ → Place → Option (ℕ × Place)
step_sem s post_s = some (sem_post s, returned)
step_sem s wait_s = do v ← sem_wait s; some (v, returned)
step_sem s returned = none

abbrev pub init_sem : System ℕ Place
init_sem = record { mem = 0; pc = places }
  where
    places : ℕ → Place
    places zero = wait_s
    places (suc i) = post_s

-- The permits that have come and gone.
abbrev posted : Place → ℕ
posted returned = 1
posted _ = 0

record Inv (s : ℕ) (p q : Place) : Type 0 where
  permits : s + posted p ≡ posted q
  parent : p ≢ post_s
  child : q ≢ wait_s

first : (s s' : ℕ) (p p' q : Place) → Inv s p q → step_sem s p ≡ some (s', p') → Inv s' p' q
unfolding step_sem
first s s' p p' q v e = ground arith

second : (s s' : ℕ) (p q q' : Place) → Inv s p q → step_sem s q ≡ some (s', q') → Inv s' p q'
unfolding step_sem
second s s' p q q' v e = ground arith

stuck_at :
    (s : ℕ) (p q : Place)
    → Inv s p q
    → step_sem s p ≡ none
    → step_sem s q ≡ none
    → (p ≡ returned) × (q ≡ returned)
unfolding step_sem
stuck_at s p q v e f = ground arith

-- Where neither thread has a step, both have returned.
pub sem_complete :
    {k : ℕ} {s : System ℕ Place}
    → Run step_sem 2 init_sem k s
    → step_sem s.mem (s.pc 0) ≡ none
    → step_sem s.mem (s.pc 1) ≡ none
    → (s.pc 0 ≡ returned) × (s.pc 1 ≡ returned)
sem_complete {s = s} r e f =
    stuck_at s.mem (s.pc 0) (s.pc 1) (two-inv step_sem Inv first second begin r) e f
  where
    begin : Inv 0 wait_s post_s
    begin = record { permits = refl; parent = λ e. ground arith; child = λ e. ground arith }
