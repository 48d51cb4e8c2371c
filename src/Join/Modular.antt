-- ===== src/Join/Modular.antt =====
-- threads-cv/join_modular.c: the synchronizer, which can be used again.
use ostep_code.Prelude.{ℕ, ◌+◌, ◌≡◌, refl, Option, none, some, if◌then◌else◌, ◌==◌, arith}
use ostep_code.Threads.{System, Run}
use ostep_code.Threads.Two.{two-inv}
use ostep_code.Cond.{cond_init, cond_signal}
use ostep_code.Join.{
  Memory, Point, lock_child, set_done, signal_parent, unlock_child, lock_parent, test, to_wait,
  asleep, relock, unlock_parent, over, lock, unlock, fall_asleep, wake_up, points,
}
use ostep_code.Join.Laws.{holds, IsParent, IsChild, written, seen}

abbrev pub sync_init : Memory
sync_init = record { is_done = 0; cond = cond_init; mutex = 1 }

-- A step of `sync_signal`.
pub sync_signal : Memory → Point → Option (Memory × Point)
sync_signal m lock_child = lock m set_done
sync_signal m set_done = some (record m { is_done = 1 }, signal_parent)
sync_signal m signal_parent = some (record m { cond = cond_signal m.cond }, unlock_child)
sync_signal m unlock_child = unlock m over
sync_signal m _ = none

-- A step of `sync_wait`, which resets `done` as it leaves the loop.
pub sync_wait : Memory → Point → Option (Memory × Point)
sync_wait m lock_parent = lock m test
sync_wait m test =
    if m.is_done == 0 then some (m, to_wait) else some (record m { is_done = 0 }, unlock_parent)
sync_wait m to_wait = some (fall_asleep m, asleep)
sync_wait m asleep = wake_up m relock
sync_wait m relock = lock m test
sync_wait m unlock_parent = unlock m over
sync_wait m _ = none

-- A step of the child or of the parent.
unfoldable pub step_sync : Memory → Point → Option (Memory × Point)
unfolding sync_signal sync_wait
step_sync m lock_child = sync_signal m lock_child
step_sync m set_done = sync_signal m set_done
step_sync m signal_parent = sync_signal m signal_parent
step_sync m unlock_child = sync_signal m unlock_child
step_sync m p = sync_wait m p

abbrev pub init_sync : System Memory Point
init_sync = record { mem = sync_init; pc = points }

record Inv (m : Memory) (p q : Point) : Type 0 where
  permits : m.mutex + holds p + holds q ≡ 1
  is_parent : IsParent m p
  is_child : IsChild m q
  told : m.is_done + seen p ≡ written q

first : (m m' : Memory) (p p' q : Point) → Inv m p q → step_sync m p ≡ some (m', p') → Inv m' p' q
unfolding step_sync
first m m' lock_parent p' q v e = ground arith
first m m' test p' lock_child v e = ground arith
first m m' test p' set_done v e = ground arith
first m m' test p' signal_parent v e = ground arith
first m m' test p' unlock_child v e = ground arith
first m m' test p' over v e = ground arith
first m m' test p' q v e = absurd v.is_child
first m m' to_wait p' q v e = ground arith
first m m' asleep p' q v e = ground arith
first m m' relock p' q v e = ground arith
first m m' unlock_parent p' q v e = ground arith
first m m' over p' q v e = ground arith
first m m' p p' q v e = absurd v.is_parent

second : (m m' : Memory) (p q q' : Point) → Inv m p q → step_sync m q ≡ some (m', q') → Inv m' p q'
unfolding step_sync
second m m' p lock_child q' v e = ground arith
second m m' p set_done q' v e = ground arith
second m m' p signal_parent q' v e = ground arith
second m m' p unlock_child q' v e = ground arith
second m m' p over q' v e = ground arith
second m m' p q q' v e = absurd v.is_child

stuck_at :
    (m : Memory) (p q : Point)
    → Inv m p q
    → step_sync m p ≡ none
    → step_sync m q ≡ none
    → (p ≡ over) × (q ≡ over) × (m ≡ sync_init)
unfolding step_sync
stuck_at m p q v e f = ground arith

-- Where neither thread has a step, both have returned and the synchronizer is as `sync_init` made
-- it, ready for its next use.
pub sync_complete :
    {k : ℕ} {s : System Memory Point}
    → Run step_sync 2 init_sync k s
    → step_sync s.mem (s.pc 0) ≡ none
    → step_sync s.mem (s.pc 1) ≡ none
    → (s.pc 0 ≡ over) × (s.pc 1 ≡ over) × (s.mem ≡ sync_init)
sync_complete {s = s} r e f =
    stuck_at s.mem (s.pc 0) (s.pc 1) (two-inv step_sync Inv first second begin r) e f
  where
    begin : Inv sync_init lock_parent lock_child
    begin = record { permits = refl; is_parent = (refl, refl); is_child = tt; told = refl }
