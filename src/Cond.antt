-- ===== src/Cond.antt =====
-- Condition variables, of POSIX and of C++: how many threads sleep, and how many have been woken
-- and are not yet up. A wait gives the mutex up and goes to sleep in one step. Wake-ups without a
-- signal are left out; a waiting loop tests anew after any wake-up.
use ostep_code.Prelude.{ℕ, ◌+◌, ◌-◌, Option, none, some, ◌==◌, if◌then◌else◌}

pub record Cond : Type 0 where
  pub sleeping : ℕ
  pub woken : ℕ

abbrev pub cond_init : Cond
cond_init = record { sleeping = 0; woken = 0 }

abbrev pub cond_wait : Cond → Cond
cond_wait c = record c { sleeping = c.sleeping + 1 }

-- A sleeper gets up: `none` while no one has been woken.
abbrev pub cond_wake : Cond → Option Cond
cond_wake c = if c.woken == 0 then none else some (record c { woken = c.woken - 1 })

-- `pthread_cond_signal` and `pthread_cond_broadcast`; without a sleeper nothing happens.
abbrev pub cond_signal : Cond → Cond
cond_signal c =
    if c.sleeping == 0 then c else record { sleeping = c.sleeping - 1; woken = c.woken + 1 }

abbrev pub cond_broadcast : Cond → Cond
cond_broadcast c = record { sleeping = 0; woken = c.woken + c.sleeping }
