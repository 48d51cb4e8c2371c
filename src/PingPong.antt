-- ===== src/PingPong.antt =====
-- threads-locks/c++11-Producer-consumer/ping-pong.cpp: two threads that pass a flag to and fro.
-- The tests of the loops and `++counter` stand outside `mutex_` and are steps of their own; a
-- thread whose wait would go on has no step.
pub mod Laws
mod Tests
use ostep_code.Prelude.{
  ℕ, zero, suc, ◌+◌, Bool, true, false, not, Option, none, some, if◌then◌else◌, ltb, leb,
}
use ostep_code.Threads.{System}

-- `countlimit`
abbrev pub count_limit : ℕ
count_limit = 10000

pub record Memory : Type 0 where
  pub data_ready : Bool
  pub counter : ℕ

-- `ping` at the test of its loop, in the wait and before `++counter`; `pong` at the test of its
-- loop and in the wait; and a thread that has returned.
pub data Point : Type 0 where
  ping_test ping_wait ping_count pong_test pong_wait over : Point

-- A step of `ping` or `pong`, with `limit` for `countlimit`.
unfoldable pub step : ℕ → Memory → Point → Option (Memory × Point)
step limit m ping_test = if leb m.counter limit then some (m, ping_wait) else some (m, over)
step limit m ping_wait =
    if not m.data_ready then some (record m { data_ready = true }, ping_count) else none
step limit m ping_count = some (record m { counter = m.counter + 1 }, ping_test)
step limit m pong_test = if ltb m.counter limit then some (m, pong_wait) else some (m, over)
step limit m pong_wait =
    if m.data_ready then some (record m { data_ready = false }, pong_test) else none
step limit m over = none

abbrev pub points : ℕ → Point
points zero = ping_test
points (suc i) = pong_test

abbrev pub init : System Memory Point
init = record { mem = record { data_ready = false; counter = 0 }; pc = points }
