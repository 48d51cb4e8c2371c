-- ===== src/OddEven.antt =====
-- threads-locks/other-problems/IK- problems/OddEven.cpp: two threads that print in turn. A step is
-- a round of a loop, from where the thread gets `mutex` to where it gives it up; a thread whose
-- loop would wait has no step, and tests anew after a wake-up.
pub mod Laws
mod Tests
use ostep_code.Prelude.{
  ℕ, zero, suc, ◌+◌, ◌-◌, ◌%◌, Bool, Option, none, some, if◌then◌else◌, ◌==◌, List, [], ◌∷◌,
}
use ostep_code.Threads.{System}

-- `counter`, and the numbers printed so far, the last first.
pub record Memory : Type 0 where
  pub counter : ℕ
  pub printed : List ℕ

-- `printEven` and `printOdd` with the rounds that are left.
pub data Thread : Type 0 where
  print_even print_odd : (left : ℕ) → Thread

-- `counter++` and the `cout`.
abbrev pub count_up : Memory → Memory
count_up m = record { counter = suc m.counter; printed = suc m.counter ∷ m.printed }

unfoldable pub step : Memory → Thread → Option (Memory × Thread)
step m (print_even left) =
    if left == 0
    then none
    else if m.counter % 2 == 1
    then none
    else some (count_up m, print_even (left - 1))
step m (print_odd left) =
    if left == 0
    then none
    else if m.counter % 2 == 0
    then none
    else some (count_up m, print_odd (left - 1))

-- Both loops have five rounds.
abbrev pub threads : ℕ → Thread
threads zero = print_even 5
threads (suc i) = print_odd 5

abbrev pub init : System Memory Thread
init = record { mem = record { counter = 0; printed = [] }; pc = threads }
