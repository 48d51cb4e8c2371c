-- ===== src/RwLock/Turnstile/Priority.antt =====
-- Theorems about a writer that has the turnstile of rwlock-1writerprogress.cpp.
use ostep_code.Prelude.{
  ℕ, zero, suc, ◌+◌, ◌*◌, ◌≤◌, ◌<◌, ◌≡◌, true, false, some, arith, subst, sym, ◌∙◌, ℕ_discrete,
}
use mathlib.Core.Logic.{if_pos}
use ostep_code.Threads.{
  goes, total, total-goes, total-le, two-le-total, System, Step, pick, Run, next, Reach,
}
use ostep_code.RwLock.LightSwitch.{
  out, inside, locking, unlocking, enter, count, light, leave, call,
}
use ostep_code.RwLock.Turnstile.{
  Memory, Thread, reader, writer, idle, queued, load, store, post_turnstile, post_room, passing,
  step, init, Role, waits_for_room,
}
use ostep_code.RwLock.Turnstile.Tally.{gating}
use ostep_code.RwLock.Turnstile.Inv.{Run-Inv}
use ostep_code.RwLock.Turnstile.Progress.{at_steps}

-- The steps that a thread takes before it is out of the room and of the light switch.
abbrev pub room_work : Thread → ℕ
room_work (reader _ _ p) = at_steps p
room_work (writer _ post_room) = 1
room_work _ = 0

-- Readers that have passed the turnstile and not yet left.
abbrev pub entered : Thread → ℕ
entered (reader _ _ out) = 0
entered (reader _ _ _) = 1
entered _ = 0

room_work-le : (t : Thread) → room_work t ≤ 9
room_work-le (reader _ _ out) = omega arith
room_work-le (reader _ _ inside) = omega arith
room_work-le (reader _ _ (locking a)) = ground arith
room_work-le (reader _ _ (unlocking a)) = ground arith
room_work-le (writer _ w) = ground arith
room_work-le (passing _ _) = omega arith

-- A step that needs no permit of the turnstile leads out of the room.
step_leaves :
    (m m' : Memory) (t t' : Thread)
    → step m t ≡ some (m', t')
    → gating t ≡ 0
    → m.turnstile ≡ 0
    → (room_work t' < room_work t) × (entered t' ≤ entered t)
unfolding step call
step_leaves m m' (passing left v) t' e g z = absurd (omega arith)
step_leaves m m' (reader left v out) t' e g z = ground arith
step_leaves m m' (reader left v inside) t' e g z = ground arith
step_leaves m m' (reader left v (locking enter)) t' e g z = ground arith
step_leaves m m' (reader left v (locking count)) t' e g z = ground arith
step_leaves m m' (reader left v (locking light)) t' e g z = ground arith
step_leaves m m' (reader left v (locking leave)) t' e g z = ground arith
step_leaves m m' (reader left v (unlocking enter)) t' e g z = ground arith
step_leaves m m' (reader left v (unlocking count)) t' e g z = ground arith
step_leaves m m' (reader left v (unlocking light)) t' e g z = ground arith
step_leaves m m' (reader left v (unlocking leave)) t' e g z = ground arith
step_leaves m m' (writer left idle) t' e g z = ground arith
step_leaves m m' (writer left queued) t' e g z = absurd (omega arith)
step_leaves m m' (writer left load) t' e g z = absurd (omega arith)
step_leaves m m' (writer left (store w)) t' e g z = absurd (omega arith)
step_leaves m m' (writer left post_turnstile) t' e g z = absurd (omega arith)
step_leaves m m' (writer left post_room) t' e g z = ground arith

waiter-gates : (t : Thread) → waits_for_room t ≡ true → gating t ≡ 1
waiter-gates t h = ground arith

-- The waiting writer's own step takes it into the room.
waiter-enters :
    (m m' : Memory) (t t' : Thread)
    → waits_for_room t ≡ true
    → step m t ≡ some (m', t')
    → waits_for_room t' ≡ false
unfolding step
waiter-enters m m' t t' h e = ground arith

-- A stretch of a run, of `k` steps, in which writer `w` has the turnstile and waits for the room.
pub data Waits (n w : ℕ) (s : System Memory Thread) : ℕ → System Memory Thread → Type 0 where
  begins : waits_for_room (s.pc w) ≡ true → Waits n w s zero s
  still :
      {k : ℕ} {t u : System Memory Thread}
      → Waits n w s k t
      → Step step n t u
      → waits_for_room (u.pc w) ≡ true
      → Waits n w s (suc k) u

Waits-at :
    {n w k : ℕ} {s t : System Memory Thread} → Waits n w s k t → waits_for_room (t.pc w) ≡ true
Waits-at (begins h) = h
Waits-at (still ws st h) = h

module _ {n j w : ℕ} (roles : ℕ → Role) {s : System Memory Thread} (r : Run step n (init roles) j s)
    (lt : w < n) where
  Waits-Reach : {k : ℕ} {t : System Memory Thread} → Waits n w s k t → Reach step n (init roles) t
  Waits-Reach (begins h) = record { steps = j; run = r }
  Waits-Reach (still ws st h) =
      let before = Waits-Reach ws in record { steps = suc before.steps; run = next before.run st }

  -- As long as the writer waits, each step of any thread leads out of the room.
  wait_falls :
      {k : ℕ} {t u : System Memory Thread}
      → Waits n w s k t
      → Step step n t u
      → waits_for_room (u.pc w) ≡ true
      → (total room_work n u.pc < total room_work n t.pc)
        × (total entered n u.pc ≤ total entered n t.pc)
  wait_falls {t = t} ws (pick i {m} {p = q} lti e) h = go (ℕ_discrete i w)
    where
      open (Run-Inv roles (Waits-Reach ws).run) use {gated}

      gates : gating (t.pc w) ≡ 1
      gates = waiter-gates (t.pc w) (Waits-at ws)

      go :
          Dec (i ≡ w)
          → (total room_work n (goes t.pc i q) < total room_work n t.pc)
            × (total entered n (goes t.pc i q) ≤ total entered n t.pc)
      go (yes same) =
          let waited : waits_for_room (t.pc i) ≡ true =
            subst (λ x. waits_for_room (t.pc x) ≡ true) (sym same) (Waits-at ws) in
          let enters = waiter-enters t.mem m (t.pc i) q waited e in
          let waits' : waits_for_room q ≡ true = rw (if_pos _ same) at h in cc (sym enters ∙ waits')
      go (no other) = omega (
        arith,
        step_leaves t.mem m (t.pc i) q e
            (omega (arith, gates, gated, two-le-total gating n t.pc i w lti lt other))
            (omega (arith, gates, gated, two-le-total gating n t.pc i w lti lt other)),
        total-goes room_work n t.pc i q lti,
        total-goes entered n t.pc i q lti,
      )

  wait_bounds :
      {k : ℕ} {t : System Memory Thread}
      → Waits n w s k t
      → (k + total room_work n t.pc ≤ total room_work n s.pc)
        × (total entered n t.pc ≤ total entered n s.pc)
  wait_bounds (begins h) = omega arith
  wait_bounds (still ws st h) = omega (arith, wait_bounds ws, wait_falls ws st h)

  -- From the moment when a writer has the turnstile to its entry into the room, the whole program
  -- takes at most nine steps for each thread, and the number of readers that have passed the
  -- turnstile does not grow.
  pub writer_next :
      {k : ℕ} {t : System Memory Thread}
      → Waits n w s k t
      → (k ≤ 9 * n) × (total entered n t.pc ≤ total entered n s.pc)
  writer_next ws = omega (arith, wait_bounds ws, total-le room_work 9 room_work-le n s.pc)
