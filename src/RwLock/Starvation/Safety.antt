-- ===== src/RwLock/Starvation/Safety.antt =====
-- What never goes wrong under the lock of rwlock_writer_starvation.cpp.
use ostep_code.Prelude.{ℕ, ◌≤◌, ◌<◌, ◌≡◌, refl, ◌≢◌, ◌⊎◌, inl, inr, Bool-cases, true, false, arith}
use ostep_code.Threads.{total, le-total, two-le-total, total-zero, System, Run}
use ostep_code.RwLock.LightSwitch.{unlocking, count}
use ostep_code.RwLock.LightSwitch.Inv.{quiet, counted, others-le_one, others-eq_zero}
use ostep_code.RwLock.LightSwitch.Count.{tally}
use ostep_code.RwLock.Starvation.{
  Memory, Thread, reader, writer, step, init, Role, writing, reading, finished, idle, load, store,
  release,
}
use ostep_code.RwLock.Starvation.Tally.{place, holding, pending}
use ostep_code.RwLock.Starvation.Inv.{Run-Inv, all_writes}

writing-holding : (t : Thread) → writing t ≡ true → holding t ≡ 1
writing-holding t h = ground arith

reading-counted : (t : Thread) → reading t ≡ true → counted (place t) ≡ 1
reading-counted t h = ground arith

module _ {n k : ℕ} (roles : ℕ → Role) {s : System Memory Thread}
    (r : Run step n (init roles) k s) where
  open (Run-Inv roles r) use {switch, written}

  -- While a thread is in the writer's critical section no other thread is in a critical section.
  pub mutual_exclusion :
      (i j : ℕ)
      → i < n
      → j < n
      → i ≢ j
      → writing (s.pc i) ≡ true
      → (writing (s.pc j) ≡ false) × (reading (s.pc j) ≡ false)
  mutual_exclusion i j lt ltj ne w =
      (no_writer (Bool-cases (writing (s.pc j))), no_reader (Bool-cases (reading (s.pc j))))
    where
      held : holding (s.pc i) ≡ 1
      held = writing-holding (s.pc i) w

      no_writer : (writing (s.pc j) ≡ true) ⊎ (writing (s.pc j) ≡ false) → writing (s.pc j) ≡ false
      no_writer (inr e) = e
      no_writer (inl e) = absurd (
          omega (
            arith,
            held,
            writing-holding (s.pc j) e,
            others-le_one switch,
            two-le-total holding n s.pc i j lt ltj ne,
          ))

      no_reader : (reading (s.pc j) ≡ true) ⊎ (reading (s.pc j) ≡ false) → reading (s.pc j) ≡ false
      no_reader (inr e) = e
      no_reader (inl e) =
          absurd
            (omega (arith, held, le-total holding n s.pc i lt, others-eq_zero switch (in_room e)))
        where
          in_room : reading (s.pc j) ≡ true → 0 < (tally place n s.pc).counted_ones
          in_room e =
              omega
                (arith, reading-counted (s.pc j) e, le-total (λ t. counted (place t)) n s.pc j ltj)

  -- The semaphores are binary: neither ever holds more than one permit.
  pub binary_semaphores : (s.mem.read_light_switch.mutex ≤ 1) × (s.mem.room_empty ≤ 1)
  binary_semaphores = ground (arith, switch)

  -- `counter--` in `LightSwitch::unlock` runs only at a positive counter.
  pub counter_pos :
      (i : ℕ) → i < n → place (s.pc i) ≡ unlocking count → 0 < s.mem.read_light_switch.counter
  counter_pos i lt e = ground (arith, switch, le-total (λ t. counted (place t)) n s.pc i lt)

  -- Two threads are never both between `sem_wait(&mutex)` and `sem_post(&mutex)` at the update.
  pub switch_exclusive :
      (i j : ℕ) → i < n → j < n → i ≢ j → quiet (place (s.pc i)) ≡ 1 → quiet (place (s.pc j)) ≡ 0
  switch_exclusive i j lt ltj ne e =
      ground (arith, switch, two-le-total (λ t. quiet (place t)) n s.pc i j lt ltj ne)

  -- No increment is lost: when all threads have left their loops, `counter` is the number of writes.
  pub no_lost_update :
      ((i : ℕ) → i < n → finished (s.pc i) ≡ true) → s.mem.counter ≡ all_writes n roles
  no_lost_update done = omega (arith, written, nothing_pending)
    where
      none_left : (t : Thread) → finished t ≡ true → pending t ≡ 0
      none_left (reader left v p) h = refl
      none_left (writer left idle) h = ground arith
      none_left (writer left load) h = cc
      none_left (writer left (store v)) h = cc
      none_left (writer left release) h = cc

      nothing_pending : total pending n s.pc ≡ 0
      nothing_pending = total-zero pending n s.pc (λ i lt. none_left (s.pc i) (done i lt))
