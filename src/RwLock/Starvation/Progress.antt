-- ===== src/RwLock/Starvation/Progress.antt =====
-- Theorems about the schedules of rwlock_writer_starvation.cpp and their ends.
use ostep_code.Prelude.{
  ℕ, ◌+◌, ◌-◌, ◌*◌, ◌≤◌, ◌<◌, ◌≡◌, ◌≢◌, ◌⊎◌, inl, inr, true, false, none, some, arith, dec_lt,
}
use ostep_code.Threads.{total, total-pos, all_or_one, System, Run, Run-bound}
use ostep_code.RwLock.LightSwitch.{
  Place, out, inside, locking, unlocking, enter, count, light, leave, call,
}
use ostep_code.RwLock.LightSwitch.Inv.{quiet, at_wait, at_post, counted, unblocked}
use ostep_code.RwLock.Starvation.{
  Memory, Thread, reader, writer, idle, load, store, release, step, init, Role, create, finished,
}
use ostep_code.RwLock.Starvation.Tally.{place, holding}
use ostep_code.RwLock.Starvation.Inv.{Run-Inv, all_writes}
use ostep_code.RwLock.Starvation.Safety.{no_lost_update}

-- What a thread waits for at its program point, if anything.
abbrev IsReady : Memory → Thread → Type 0
IsReady m (reader left _ out) = 0 < left
IsReady m (reader _ _ (locking enter)) = 0 < m.read_light_switch.mutex
IsReady m (reader _ _ (unlocking enter)) = 0 < m.read_light_switch.mutex
IsReady m (reader _ _ (locking light)) = 0 < m.room_empty
IsReady m (writer left idle) = (0 < left) × (0 < m.room_empty)
IsReady m _ = Unit

IsReady-moves : (m : Memory) (t : Thread) → IsReady m t → step m t ≢ none
unfolding step call
IsReady-moves m (reader left v out) h e = ground arith
IsReady-moves m (reader left v inside) h e = cc
IsReady-moves m (reader left v (locking enter)) h e = ground arith
IsReady-moves m (reader left v (locking count)) h e = ground arith
IsReady-moves m (reader left v (locking light)) h e = ground arith
IsReady-moves m (reader left v (locking leave)) h e = cc
IsReady-moves m (reader left v (unlocking enter)) h e = ground arith
IsReady-moves m (reader left v (unlocking count)) h e = ground arith
IsReady-moves m (reader left v (unlocking light)) h e = cc
IsReady-moves m (reader left v (unlocking leave)) h e = cc
IsReady-moves m (writer left idle) h e = ground arith
IsReady-moves m (writer left load) h e = cc
IsReady-moves m (writer left (store w)) h e = cc
IsReady-moves m (writer left release) h e = cc

-- Some thread has a step to take.
abbrev pub CanMove : ℕ → System Memory Thread → Type 0
CanMove n s = (i : ℕ) × (i < n) × (step s.mem (s.pc i) ≢ none)

quiet-IsReady : (m : Memory) (t : Thread) → 0 < quiet (place t) → IsReady m t
quiet-IsReady m (reader left v (locking enter)) h = absurd (omega arith)
quiet-IsReady m (reader left v (locking light)) h = absurd (omega arith)
quiet-IsReady m (reader left v (unlocking enter)) h = absurd (omega arith)
quiet-IsReady m (reader left v out) h = absurd (omega arith)
quiet-IsReady m (writer left idle) h = absurd (omega arith)
quiet-IsReady m _ h = tt

posting-IsReady : (m : Memory) (t : Thread) → 0 < at_post (place t) → IsReady m t
posting-IsReady m (reader left v (unlocking light)) h = tt
posting-IsReady m t h = absurd (ground arith)

holding-IsReady : (m : Memory) (t : Thread) → 0 < holding t → IsReady m t
holding-IsReady m (writer left load) h = tt
holding-IsReady m (writer left (store w)) h = tt
holding-IsReady m (writer left release) h = tt
holding-IsReady m (writer left idle) h = absurd (omega arith)
holding-IsReady m (reader left v p) h = absurd (omega arith)

waiting-IsReady : (m : Memory) (t : Thread) → 0 < m.room_empty → 0 < at_wait (place t) → IsReady m t
waiting-IsReady m (reader left v (locking light)) r h = r
waiting-IsReady m t r h = absurd (ground arith)

counted-IsReady :
    (m : Memory) (t : Thread) → 0 < m.read_light_switch.mutex → 0 < counted (place t) → IsReady m t
counted-IsReady m (reader left v (locking leave)) r h = tt
counted-IsReady m (reader left v inside) r h = tt
counted-IsReady m (reader left v (unlocking enter)) r h = r
counted-IsReady m (reader left v (unlocking count)) r h = tt
counted-IsReady m t r h = absurd (ground arith)

module _ {n k : ℕ} (roles : ℕ → Role) {s : System Memory Thread}
    (r : Run step n (init roles) k s) where
  open (Run-Inv roles r) use {switch}

  by_weight :
      (w : Thread → ℕ)
      → ((t : Thread) → 0 < w t → IsReady s.mem t)
      → 0 < total w n s.pc
      → CanMove n s
  by_weight w ready h =
      let (i, lt, p) = total-pos w n s.pc h in
      (i, lt, IsReady-moves s.mem (s.pc i) (ready (s.pc i) p))

  -- When a permit is out, whoever has it can move.
  busy : (s.mem.read_light_switch.mutex ≡ 0) ⊎ (s.mem.room_empty ≡ 0) → CanMove n s
  busy h = elim (unblocked switch h) [
    | inl a ↦ by_weight (λ t. quiet (place t)) (quiet-IsReady s.mem) a
    | inr (inl a) ↦ by_weight (λ t. at_post (place t)) (posting-IsReady s.mem) a
    | inr (inr (inl a)) ↦ by_weight holding (holding-IsReady s.mem) a
    | inr (inr (inr (inl (a, b)))) ↦
        by_weight (λ t. at_wait (place t)) (λ t. waiting-IsReady s.mem t b) a
    | inr (inr (inr (inr (a, b)))) ↦
        by_weight (λ t. counted (place t)) (λ t. counted-IsReady s.mem t b) a
  ]

  unfinished-IsReady :
      (t : Thread)
      → finished t ≡ false
      → 0 < s.mem.read_light_switch.mutex
      → 0 < s.mem.room_empty
      → IsReady s.mem t
  unfinished-IsReady (reader left v out) f a b = ground arith
  unfinished-IsReady (reader left v (locking enter)) f a b = a
  unfinished-IsReady (reader left v (unlocking enter)) f a b = a
  unfinished-IsReady (reader left v (locking light)) f a b = b
  unfinished-IsReady (writer left idle) f a b = ground arith
  unfinished-IsReady _ f a b = tt

  -- No deadlock: either every thread has left its loop, or some thread has a step to take.
  pub no_deadlock : ((i : ℕ) → i < n → finished (s.pc i) ≡ true) ⊎ CanMove n s
  no_deadlock = elim (all_or_one finished n s.pc) [
    | inl all ↦ inl all
    | inr (i, lt, f) ↦
        inr (go i lt f (dec_lt 0 s.mem.read_light_switch.mutex) (dec_lt 0 s.mem.room_empty))
  ]
    where
      go :
          (i : ℕ)
          → i < n
          → finished (s.pc i) ≡ false
          → Dec (0 < s.mem.read_light_switch.mutex)
          → Dec (0 < s.mem.room_empty)
          → CanMove n s
      go i lt f (yes a) (yes b) =
          (i, lt, IsReady-moves s.mem (s.pc i) (unfinished-IsReady (s.pc i) f a b))
      go i lt f (no a) b = busy (inl (omega arith))
      go i lt f (yes a) (no b) = busy (inr (omega arith))

-- The steps that a thread has left: ten for each round of a reader, four for each of a writer.
abbrev at_steps : Place → ℕ
at_steps out = 0
at_steps inside = 5
at_steps (locking enter) = 9
at_steps (locking count) = 8
at_steps (locking light) = 7
at_steps (locking leave) = 6
at_steps (unlocking enter) = 4
at_steps (unlocking count) = 3
at_steps (unlocking light) = 2
at_steps (unlocking leave) = 1

abbrev pub steps_left : Thread → ℕ
steps_left (reader left _ out) = 10 * left
steps_left (reader left _ p) = 10 * (left - 1) + at_steps p
steps_left (writer left idle) = 4 * left
steps_left (writer left load) = 4 * (left - 1) + 3
steps_left (writer left (store _)) = 4 * (left - 1) + 2
steps_left (writer left release) = 4 * (left - 1) + 1

steps_left-step :
    (m m' : Memory) (t t' : Thread) → step m t ≡ some (m', t') → steps_left t' < steps_left t
unfolding step call
steps_left-step m m' (reader left v out) t' e = ground arith
steps_left-step m m' (reader left v inside) t' e = ground arith
steps_left-step m m' (reader left v (locking enter)) t' e = ground arith
steps_left-step m m' (reader left v (locking count)) t' e = ground arith
steps_left-step m m' (reader left v (locking light)) t' e = ground arith
steps_left-step m m' (reader left v (locking leave)) t' e = ground arith
steps_left-step m m' (reader left v (unlocking enter)) t' e = ground arith
steps_left-step m m' (reader left v (unlocking count)) t' e = ground arith
steps_left-step m m' (reader left v (unlocking light)) t' e = ground arith
steps_left-step m m' (reader left v (unlocking leave)) t' e = ground arith
steps_left-step m m' (writer left idle) t' e = ground arith
steps_left-step m m' (writer left load) t' e = ground arith
steps_left-step m m' (writer left (store w)) t' e = ground arith
steps_left-step m m' (writer left release) t' e = ground arith

-- Every schedule ends, after at most ten steps for each round of a reader and four for each of a
-- writer.
pub schedule_bound :
    {n k : ℕ} (roles : ℕ → Role) {s : System Memory Thread}
    → Run step n (init roles) k s
    → k ≤ total steps_left n (λ i. create (roles i))
schedule_bound {n} roles r = omega (arith, Run-bound step n steps_left steps_left-step r)

-- A schedule that cannot go on has let every thread leave its loop, and has counted every write.
pub complete :
    {n k : ℕ} (roles : ℕ → Role) {s : System Memory Thread}
    → Run step n (init roles) k s
    → ¬ CanMove n s
    → ((i : ℕ) → i < n → finished (s.pc i) ≡ true) × (s.mem.counter ≡ all_writes n roles)
complete roles r stuck = elim (no_deadlock roles r) [
  | inl all ↦ (all, no_lost_update roles r all)
  | inr can ↦ absurd (stuck can)
]
