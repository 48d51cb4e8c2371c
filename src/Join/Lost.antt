-- ===== src/Join/Lost.antt =====
-- threads-cv/join_no_lock.c, join_no_state_var.c and join_spin.c: the parent without the lock,
-- without `done`, and without either and a loop for them.
use ostep_code.Prelude.{
  ℕ, zero, suc, ◌≡◌, ◌≤◌, refl, Option, none, some, if◌then◌else◌, ◌==◌, arith, ◌⊎◌, inl,
}
use ostep_code.Threads.{System, Run}
use ostep_code.Threads.Two.{two-inv, Reaches, starts, first_moves, second_moves}
use ostep_code.Cond.{cond_signal}
use ostep_code.Join.{
  Memory, Point, lock_child, set_done, signal_parent, unlock_child, lock_parent, test, to_wait,
  asleep, relock, unlock_parent, over, lock, unlock, fall_asleep, wake_up, thr_join, start,
}

-- A step of the child or of the parent of join_no_lock.c, where the child takes no lock.
unfoldable pub step_no_lock : Memory → Point → Option (Memory × Point)
unfolding thr_join
step_no_lock m set_done = some (record m { is_done = 1 }, signal_parent)
step_no_lock m signal_parent = some (record m { cond = cond_signal m.cond }, over)
step_no_lock m p = thr_join m p

-- A step of the child or of the parent of join_no_state_var.c, where the parent tests nothing.
unfoldable pub step_no_state : Memory → Point → Option (Memory × Point)
step_no_state m lock_child = lock m signal_parent
step_no_state m signal_parent = some (record m { cond = cond_signal m.cond }, unlock_child)
step_no_state m unlock_child = unlock m over
step_no_state m lock_parent = lock m to_wait
step_no_state m to_wait = some (fall_asleep m, asleep)
step_no_state m asleep = wake_up m relock
step_no_state m relock = lock m unlock_parent
step_no_state m unlock_parent = unlock m over
step_no_state m _ = none

-- A step of the child or of the parent of join_spin.c.
unfoldable pub step_spin : Memory → Point → Option (Memory × Point)
step_spin m set_done = some (record m { is_done = 1 }, over)
step_spin m test = if m.is_done == 0 then some (m, test) else some (m, over)
step_spin m _ = none

-- The programs, with the parent and the child at their starts.
abbrev pub begins : Point → Point → System Memory Point
begins parent child = record { mem = start; pc = points }
  where
    points : ℕ → Point
    points zero = parent
    points (suc i) = child

-- The parent sleeps, no one has woken it, and the child has returned.
abbrev pub IsLost : (Memory → Point → Option (Memory × Point)) → System Memory Point → Type 0
IsLost step s =
    (m : Memory) × Reaches step s m asleep over × (step m asleep ≡ none) × (step m over ≡ none)

-- The parent of join_no_lock.c can be left asleep: the child writes and signals between the
-- parent's test and its wait.
pub step_no_lock-IsLost : IsLost step_no_lock (begins lock_parent set_done)
unfolding step_no_lock
step_no_lock-IsLost =
    let step = step_no_lock in
    let s = begins lock_parent set_done in
    let locked = record start { mutex = 0 } in
    let written = record locked { is_done = 1 } in
    let r₁ = first_moves step locked (starts step s) test refl in
    let r₂ = first_moves step locked r₁ to_wait refl in
    let r₃ = second_moves step written r₂ signal_parent refl in
    let r₄ = second_moves step written r₃ over refl in
    (fall_asleep written, first_moves step (fall_asleep written) r₄ asleep refl, refl, refl)

-- The parent of join_no_state_var.c can be left asleep: the child signals before it waits.
pub step_no_state-IsLost : IsLost step_no_state (begins lock_parent lock_child)
unfolding step_no_state
step_no_state-IsLost =
    let step = step_no_state in
    let s = begins lock_parent lock_child in
    let locked = record start { mutex = 0 } in
    let r₁ = second_moves step locked (starts step s) signal_parent refl in
    let r₂ = second_moves step locked r₁ unlock_child refl in
    let r₃ = second_moves step start r₂ over refl in
    let r₄ = first_moves step locked r₃ to_wait refl in
    (fall_asleep locked, first_moves step (fall_asleep locked) r₄ asleep refl, refl, refl)

-- The child writes once, and the parent is through only with the write.
abbrev Spun : Memory → Point → Point → Type 0
Spun m p q =
    (m.is_done ≤ 1)
    × ((p ≡ test) ⊎ (p ≡ over) × (m.is_done ≡ 1))
    × ((q ≡ set_done) ⊎ (q ≡ over) × (m.is_done ≡ 1))

spin_first :
    (m m' : Memory) (p p' q : Point) → Spun m p q → step_spin m p ≡ some (m', p') → Spun m' p' q
unfolding step_spin
spin_first m m' p p' q v e = ground arith

spin_second :
    (m m' : Memory) (p q q' : Point) → Spun m p q → step_spin m q ≡ some (m', q') → Spun m' p q'
unfolding step_spin
spin_second m m' p q q' v e = ground arith

-- The parent of join_spin.c has returned only if the child has written `done`.
pub spin_after :
    {k : ℕ} {s : System Memory Point}
    → Run step_spin 2 (begins test set_done) k s
    → s.pc 0 ≡ over
    → s.mem.is_done ≡ 1
spin_after r e =
    let v = two-inv step_spin Spun spin_first spin_second (omega arith, inl refl, inl refl) r in
    ground arith
