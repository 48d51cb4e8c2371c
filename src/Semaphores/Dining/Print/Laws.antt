-- ===== src/Semaphores/Dining/Print/Laws.antt =====
-- The philosophers with their messages against those without.
use ostep_code.Prelude.{ℕ, ◌+◌, ◌*◌, ◌≤◌, ◌<◌, ◌≡◌, ◌≢◌, refl, inl, inr, none, arith}
use ostep_code.Threads.{System, Run, Reach, total, total-zero, Run-bound}
use ostep_code.Threads.Sums.{sum-inv, total_same}
use ostep_code.Threads.Simulation.{image-Run}
use ostep_code.Semaphores.Dining as Dining
use ostep_code.Semaphores.Dining.{Forks, right, Seat, first_fork, second_fork, move}
use ostep_code.Semaphores.Dining.Laws.{dining_complete, neighbours_apart, TakesBoth-first_fork}
use ostep_code.Semaphores.Dining.Print.Steps.{
  quiet, seat, forks_of, printing, waiting_at, shows, keep, talk-moves, left_of, left_at_falls,
}
use ostep_code.Semaphores.Dining.Print.{
  Memory, At, space, space_end, test, thinking, get_first, get_second, eating, put_left, put_right,
  over, Talker, step_print, init_print,
}

module _ (loops : ℕ) {n k : ℕ} {s : System Memory Talker}
    (r : Run (step_print loops) n init_print k s) where
  -- Whatever the philosophers come to with their messages, they come to without them.
  pub print_refines :
      Reach
        (Dining.step loops)
        n
        Dining.init
        (record { mem = s.mem.forks; pc = λ i. seat (s.pc i) })
  print_refines =
      (image-Run (step_print loops) (Dining.step loops) forks_of seat (λ m. Unit {0}) (shows loops)
        tt r).reached

  -- At most one message is being printed, and `print_lock` is taken just while one is.
  pub lock_permits : s.mem.print_lock + total printing n s.pc ≡ 1
  lock_permits =
      sum-inv (step_print loops) n (λ (a : Unit {0}). printing) (λ m t. m.print_lock + t tt ≡ 1)
        (keep loops n) (omega (arith, total-zero printing n init_print.pc (λ i lt. refl))) r

  -- Where no philosopher has a step, none is at a message, and none has one without them.
  stuck_quiet :
      ((i : ℕ) → i < n → step_print loops s.mem (s.pc i) ≡ none)
      → (i : ℕ) → i < n
      → (waiting_at (s.pc i).at ≡ 0) × (Dining.step loops s.mem.forks (seat (s.pc i)) ≡ none)
  stuck_quiet stuck i lt =
      let none_prints =
        total-zero printing n s.pc
          (λ i lt. (talk-moves loops s.mem (s.pc i) (s.pc i).at (stuck i lt)).0) in
      elim (talk-moves loops s.mem (s.pc i) (s.pc i).at (stuck i lt)).1 [
        | inl (waits, shut) ↦ absurd (omega (arith, lock_permits, none_prints, shut))
        | inr moves ↦ moves
      ]

returned : (at : At) → waiting_at at ≡ 0 → quiet at ≡ Dining.over → at ≡ over
returned (space message) w e = ground arith
returned (space_end message) w e = ground arith
returned test w e = ground arith
returned thinking w e = ground arith
returned get_first w e = ground arith
returned get_second w e = ground arith
returned eating w e = ground arith
returned put_left w e = ground arith
returned put_right w e = ground arith
returned over w e = refl

-- With the messages under `print_lock`, a schedule of the five philosophers that cannot go on has
-- let all of them return, after no more than seventeen steps a round and three more for each: the
-- lock brings no deadlock.
pub print_complete :
    (loops : ℕ) {k : ℕ} {s : System Memory Talker}
    → Run (step_print loops) 5 init_print k s
    → ((i : ℕ) → i < 5 → step_print loops s.mem (s.pc i) ≡ none)
    → (k ≤ 5 * (17 * loops + 3)) × ((i : ℕ) → i < 5 → (s.pc i).at ≡ over)
print_complete loops {s = s} r stuck = (
  omega (
    arith,
    Run-bound (step_print loops) 5 (left_of loops)
        (λ m m' t t' e. left_at_falls loops m m' t t' t.at e) r,
    total_same (left_of loops) (17 * loops + 3) 5 init_print.pc (λ i lt. omega arith),
  ),
  λ i lt. returned (s.pc i).at (stuck_quiet loops r stuck i lt).0 (
      (dining_complete loops (print_refines loops r).run
          (λ i lt. (stuck_quiet loops r stuck i lt).1)).1
        i lt),
)

-- Of two neighbours at most one is at `eat` or at the message before it.
pub print_apart :
    (loops : ℕ) {k : ℕ} {s : System Memory Talker}
    → Run (step_print loops) 5 init_print k s
    → (p : ℕ) → p < 5
    → (seat (s.pc p)).at ≡ Dining.eating
    → (seat (s.pc (right p))).at ≢ Dining.eating
print_apart loops r p lt e =
    neighbours_apart first_fork second_fork TakesBoth-first_fork loops (print_refines loops r).run p
      lt e
