-- ===== src/Bugs/Ordering.antt =====
-- threads-bugs/ordering.c and ordering_fixed.c: `mMain` reads through `mThread`, which `main` sets
-- when `PR_CreateThread` has returned, so after `mMain` may have started.
pub mod Laws
use ostep_code.Prelude.{ℕ, zero, suc, Bool, true, false, Option, none, some, if◌then◌else◌, ◌==◌}
use ostep_code.Threads.{System}

-- `mThread`, which is unset or NULL, or points to a structure with a `State`; and `mtInit`, which
-- only ordering_fixed.c has.
pub record Memory : Type 0 where
  pub m_thread : Option ℕ
  pub mt_init : ℕ

-- `main` before its write of `mThread`, before it tells `mMain`, and before `PR_WaitThread`;
-- `mMain` before its wait and before its use of `mThread`; a thread that has read through an unset
-- `mThread`, and one that has returned or was never made.
pub data Point : Type 0 where
  assign tell wait_thread wait_init use_thread crashed over : Point

-- `PR_WaitThread` reads `p->Tid`.
abbrev pub pr_wait_thread : Memory → Option (Memory × Point)
pr_wait_thread m = elim m.m_thread [ none ↦ some (m, crashed) | some state ↦ some (m, over) ]

-- What `main` has of `PR_CreateThread`: NULL if `malloc` fails, else a structure with
-- `PR_STATE_INIT`.
abbrev pub pr_create_thread : Bool → Option ℕ
pr_create_thread malloc_ok = if malloc_ok then some 0 else none

abbrev pub read_state : Memory → Option (Memory × Point)
read_state m = elim m.m_thread [ none ↦ some (m, crashed) | some state ↦ some (m, over) ]

-- A step of `main` or `mMain` of ordering.c.
unfoldable pub step : Bool → Memory → Point → Option (Memory × Point)
step malloc_ok m assign = some (record m { m_thread = pr_create_thread malloc_ok }, wait_thread)
step malloc_ok m wait_thread = pr_wait_thread m
step malloc_ok m use_thread = read_state m
step malloc_ok m _ = none

-- A step of `main` or `mMain` of ordering_fixed.c, a section under `mtLock` in one. A wait that
-- would go on has no step, and the test is made anew after a wake-up.
unfoldable pub step_fixed : Bool → Memory → Point → Option (Memory × Point)
step_fixed malloc_ok m assign = some (record m { m_thread = pr_create_thread malloc_ok }, tell)
step_fixed malloc_ok m tell = some (record m { mt_init = 1 }, wait_thread)
step_fixed malloc_ok m wait_thread = pr_wait_thread m
step_fixed malloc_ok m wait_init = if m.mt_init == 0 then none else some (m, use_thread)
step_fixed malloc_ok m use_thread = read_state m
step_fixed malloc_ok m crashed = none
step_fixed malloc_ok m over = none

-- `mMain` is made, at its start `point`, if `malloc` gives a structure.
abbrev pub points : Bool → Point → ℕ → Point
points malloc_ok point zero = assign
points malloc_ok point (suc i) = if malloc_ok then point else over

abbrev pub init : Bool → System Memory Point
init malloc_ok = record {
  mem = record { m_thread = none; mt_init = 0 };
  pc = points malloc_ok use_thread;
}

abbrev pub init_fixed : Bool → System Memory Point
init_fixed malloc_ok = record {
  mem = record { m_thread = none; mt_init = 0 };
  pc = points malloc_ok wait_init;
}
