-- ===== src/RwLock/WriterPriority/Safety.antt =====
-- What never goes wrong under the lock of rwlock-writer-priority.cpp.
use ostep_code.Prelude.{ℕ, ◌≤◌, ◌<◌, ◌≡◌, refl, ◌≢◌, ◌⊎◌, inl, inr, Bool-cases, true, false, arith}
use ostep_code.Threads.{total, le-total, two-le-total, total-zero, System, Run}
use ostep_code.RwLock.LightSwitch.{out, inside, locking, unlocking, count}
use ostep_code.RwLock.LightSwitch.Inv.{counted, others-le_one, others-eq_zero}
use ostep_code.RwLock.LightSwitch.Count.{tally}
use ostep_code.RwLock.WriterPriority.{
  Memory, Thread, reader, writer, step, init, Role, writing, reading, finished, gate, room,
}
use ostep_code.RwLock.WriterPriority.Tally.{reader_place, writer_place, arriving, holding, pending}
use ostep_code.RwLock.WriterPriority.Inv.{Run-Inv, all_writes}

writing-holding : (t : Thread) → writing t ≡ true → holding t ≡ 1
writing-holding t h = ground arith

reading-counted : (t : Thread) → reading t ≡ true → counted (reader_place t) ≡ 1
reading-counted t h = ground arith

module _ {n k : ℕ} (roles : ℕ → Role) {s : System Memory Thread}
    (r : Run step n (init roles) k s) where
  open (Run-Inv roles r) use {readers_in, writers_in, written}

  -- While a thread is in the writer's critical section no other thread is in a critical section.
  pub mutual_exclusion_priority :
      (i j : ℕ)
      → i < n
      → j < n
      → i ≢ j
      → writing (s.pc i) ≡ true
      → (writing (s.pc j) ≡ false) × (reading (s.pc j) ≡ false)
  mutual_exclusion_priority i j lt ltj ne w =
      (no_writer (Bool-cases (writing (s.pc j))), no_reader (Bool-cases (reading (s.pc j))))
    where
      held : holding (s.pc i) ≡ 1
      held = writing-holding (s.pc i) w

      no_writer : (writing (s.pc j) ≡ true) ⊎ (writing (s.pc j) ≡ false) → writing (s.pc j) ≡ false
      no_writer (inr e) = e
      no_writer (inl e) = absurd (
          omega (
            arith,
            held,
            writing-holding (s.pc j) e,
            others-le_one readers_in,
            two-le-total holding n s.pc i j lt ltj ne,
          ))

      no_reader : (reading (s.pc j) ≡ true) ⊎ (reading (s.pc j) ≡ false) → reading (s.pc j) ≡ false
      no_reader (inr e) = e
      no_reader (inl e) =
          absurd (
            omega
              (arith, held, le-total holding n s.pc i lt, others-eq_zero readers_in (in_room e)))
        where
          in_room : reading (s.pc j) ≡ true → 0 < (tally reader_place n s.pc).counted_ones
          in_room e = omega (
            arith,
            reading-counted (s.pc j) e,
            le-total (λ t. counted (reader_place t)) n s.pc j ltj,
          )

  -- The semaphores are binary: none ever holds more than one permit.
  pub binary_semaphores :
      (s.mem.reader_switch.mutex ≤ 1)
      × (s.mem.writer_switch.mutex ≤ 1)
      × (s.mem.no_readers ≤ 1)
      × (s.mem.no_writers ≤ 1)
  binary_semaphores = ground (arith, readers_in, writers_in)

  -- `counter--` in either call of `LightSwitch::unlock` runs only at a positive counter.
  pub counter_pos_priority :
      (i : ℕ)
      → i < n
      → (reader_place (s.pc i) ≡ unlocking count → 0 < s.mem.reader_switch.counter)
        × (writer_place (s.pc i) ≡ unlocking count → 0 < s.mem.writer_switch.counter)
  counter_pos_priority i lt = (
    λ e. ground (arith, readers_in, le-total (λ t. counted (reader_place t)) n s.pc i lt),
    λ e. ground (arith, writers_in, le-total (λ t. counted (writer_place t)) n s.pc i lt),
  )

  -- While some writer is counted in its switch past the wait on `noReaders`, `noReaders` has no
  -- permit and no reader is between its wait and its post, so none can arrive.
  pub readers_queue :
      (i j : ℕ)
      → i < n
      → j < n
      → counted (writer_place (s.pc i)) ≡ 1
      → (s.mem.no_readers ≡ 0) × (arriving (s.pc j) ≡ 0)
  readers_queue i j lt ltj e = ground (
    arith,
    writers_in,
    le-total (λ t. counted (writer_place t)) n s.pc i lt,
    le-total arriving n s.pc j ltj,
  )

  -- No increment is lost: when all threads have left their loops, `counter` is the number of writes.
  pub no_lost_update :
      ((i : ℕ) → i < n → finished (s.pc i) ≡ true) → s.mem.counter ≡ all_writes n roles
  no_lost_update done = omega (arith, written, nothing_pending)
    where
      none_left : (t : Thread) → finished t ≡ true → pending t ≡ 0
      none_left (reader left v p) h = refl
      none_left (gate left v) h = refl
      none_left (writer left out) h = ground arith
      none_left (writer left inside) h = cc
      none_left (writer left (locking a)) h = cc
      none_left (writer left (unlocking a)) h = cc
      none_left (room left a) h = cc

      nothing_pending : total pending n s.pc ≡ 0
      nothing_pending = total-zero pending n s.pc (λ i lt. none_left (s.pc i) (done i lt))
