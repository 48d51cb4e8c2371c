-- ===== src/RwLock/WriterPriority/Progress.antt =====
-- Theorems about the schedules of rwlock-writer-priority.cpp.
use ostep_code.Prelude.{ℕ, ◌<◌, ◌≡◌, ◌≢◌, ◌⊎◌, inl, inr, true, false, none, arith, dec_lt}
use ostep_code.Threads.{total, total-pos, all_or_one, System, Run}
use ostep_code.RwLock.LightSwitch.{
  out, inside, locking, unlocking, enter, count, light, leave, call,
}
use ostep_code.RwLock.LightSwitch.Inv.{quiet, at_wait, at_post, counted, unblocked}
use ostep_code.RwLock.WriterPriority.{
  Memory, Thread, reader, gate, writer, room, step, init, Role, finished,
}
use ostep_code.RwLock.WriterPriority.Tally.{reader_place, writer_place, holding, arriving}
use ostep_code.RwLock.WriterPriority.Inv.{Run-Inv}

-- What a thread waits for at its program point, if anything.
abbrev IsReady : Memory → Thread → Type 0
IsReady m (reader left _ out) = (0 < left) × (0 < m.no_readers)
IsReady m (reader _ _ (locking enter)) = 0 < m.reader_switch.mutex
IsReady m (reader _ _ (unlocking enter)) = 0 < m.reader_switch.mutex
IsReady m (reader _ _ (locking light)) = 0 < m.no_writers
IsReady m (writer left out) = 0 < left
IsReady m (writer _ inside) = 0 < m.no_writers
IsReady m (writer _ (locking enter)) = 0 < m.writer_switch.mutex
IsReady m (writer _ (unlocking enter)) = 0 < m.writer_switch.mutex
IsReady m (writer _ (locking light)) = 0 < m.no_readers
IsReady m _ = Unit

IsReady-moves : (m : Memory) (t : Thread) → IsReady m t → step m t ≢ none
unfolding step call
IsReady-moves m (reader left v out) h e = ground arith
IsReady-moves m (reader left v inside) h e = cc
IsReady-moves m (reader left v (locking a)) h e = ground arith
IsReady-moves m (reader left v (unlocking leave)) h e = cc
IsReady-moves m (reader left v (unlocking a)) h e = ground arith
IsReady-moves m (gate left v) h e = cc
IsReady-moves m (writer left out) h e = ground arith
IsReady-moves m (writer left inside) h e = ground arith
IsReady-moves m (writer left (locking a)) h e = ground arith
IsReady-moves m (writer left (unlocking leave)) h e = cc
IsReady-moves m (writer left (unlocking a)) h e = ground arith
IsReady-moves m (room left a) h e = cc

-- Some thread has a step to take.
abbrev pub CanMove : ℕ → System Memory Thread → Type 0
CanMove n s = (i : ℕ) × (i < n) × (step s.mem (s.pc i) ≢ none)

-- What keeps nobody from moving in `reader_switch`: its mutex and `no_writers` are free.
abbrev Free : Memory → Type 0
Free m = (0 < m.reader_switch.mutex) × (0 < m.no_writers)

reader_quiet-IsReady : (m : Memory) (t : Thread) → 0 < quiet (reader_place t) → IsReady m t
reader_quiet-IsReady m (reader left v (locking count)) h = tt
reader_quiet-IsReady m (reader left v (locking leave)) h = tt
reader_quiet-IsReady m (reader left v (unlocking count)) h = tt
reader_quiet-IsReady m (reader left v (unlocking leave)) h = tt
reader_quiet-IsReady m (reader left v p) h = absurd (ground arith)
reader_quiet-IsReady m t h = absurd (ground arith)

reader_posting-IsReady : (m : Memory) (t : Thread) → 0 < at_post (reader_place t) → IsReady m t
reader_posting-IsReady m (reader left v (unlocking light)) h = tt
reader_posting-IsReady m t h = absurd (ground arith)

reader_waiting-IsReady :
    (m : Memory) (t : Thread) → 0 < m.no_writers → 0 < at_wait (reader_place t) → IsReady m t
reader_waiting-IsReady m (reader left v (locking light)) r h = r
reader_waiting-IsReady m t r h = absurd (ground arith)

reader_counted-IsReady :
    (m : Memory) (t : Thread)
    → 0 < m.reader_switch.mutex
    → 0 < counted (reader_place t)
    → IsReady m t
reader_counted-IsReady m (reader left v (locking leave)) r h = tt
reader_counted-IsReady m (reader left v inside) r h = tt
reader_counted-IsReady m (reader left v (unlocking enter)) r h = r
reader_counted-IsReady m (reader left v (unlocking count)) r h = tt
reader_counted-IsReady m (gate left v) r h = tt
reader_counted-IsReady m t r h = absurd (ground arith)

holding-IsReady : (m : Memory) (t : Thread) → 0 < holding t → IsReady m t
holding-IsReady m (room left a) h = tt
holding-IsReady m t h = absurd (ground arith)

writer_quiet-IsReady : (m : Memory) (t : Thread) → 0 < quiet (writer_place t) → IsReady m t
writer_quiet-IsReady m (writer left (locking count)) h = tt
writer_quiet-IsReady m (writer left (locking leave)) h = tt
writer_quiet-IsReady m (writer left (unlocking count)) h = tt
writer_quiet-IsReady m (writer left (unlocking leave)) h = tt
writer_quiet-IsReady m (writer left p) h = absurd (ground arith)
writer_quiet-IsReady m t h = absurd (ground arith)

writer_posting-IsReady : (m : Memory) (t : Thread) → 0 < at_post (writer_place t) → IsReady m t
writer_posting-IsReady m (writer left (unlocking light)) h = tt
writer_posting-IsReady m t h = absurd (ground arith)

writer_waiting-IsReady :
    (m : Memory) (t : Thread) → 0 < m.no_readers → 0 < at_wait (writer_place t) → IsReady m t
writer_waiting-IsReady m (writer left (locking light)) r h = r
writer_waiting-IsReady m t r h = absurd (ground arith)

writer_counted-IsReady :
    (m : Memory) (t : Thread)
    → Free m
    → 0 < m.writer_switch.mutex
    → 0 < counted (writer_place t)
    → IsReady m t
writer_counted-IsReady m (writer left (locking leave)) f r h = tt
writer_counted-IsReady m (writer left inside) f r h = f.1
writer_counted-IsReady m (writer left (unlocking enter)) f r h = r
writer_counted-IsReady m (writer left (unlocking count)) f r h = tt
writer_counted-IsReady m (room left a) f r h = tt
writer_counted-IsReady m t f r h = absurd (ground arith)

arriving-IsReady : (m : Memory) (t : Thread) → Free m → 0 < arriving t → IsReady m t
arriving-IsReady m (reader left v (locking enter)) f h = f.0
arriving-IsReady m (reader left v (locking light)) f h = f.1
arriving-IsReady m (reader left v (locking count)) f h = tt
arriving-IsReady m (reader left v (locking leave)) f h = tt
arriving-IsReady m (gate left v) f h = tt
arriving-IsReady m t f h = absurd (ground arith)

unfinished-IsReady :
    (m : Memory) (t : Thread)
    → finished t ≡ false
    → Free m
    → 0 < m.writer_switch.mutex
    → 0 < m.no_readers
    → IsReady m t
unfinished-IsReady m (reader left v out) f a b c = ground arith
unfinished-IsReady m (reader left v (locking enter)) f a b c = a.0
unfinished-IsReady m (reader left v (unlocking enter)) f a b c = a.0
unfinished-IsReady m (reader left v (locking light)) f a b c = a.1
unfinished-IsReady m (writer left out) f a b c = ground arith
unfinished-IsReady m (writer left inside) f a b c = a.1
unfinished-IsReady m (writer left (locking enter)) f a b c = b
unfinished-IsReady m (writer left (unlocking enter)) f a b c = b
unfinished-IsReady m (writer left (locking light)) f a b c = c
unfinished-IsReady m _ f a b c = tt

module _ {n k : ℕ} (roles : ℕ → Role) {s : System Memory Thread}
    (r : Run step n (init roles) k s) where
  open (Run-Inv roles r) use {readers_in, writers_in}

  by_weight :
      (w : Thread → ℕ)
      → ((t : Thread) → 0 < w t → IsReady s.mem t)
      → 0 < total w n s.pc
      → CanMove n s
  by_weight w ready h =
      let (i, lt, p) = total-pos w n s.pc h in
      (i, lt, IsReady-moves s.mem (s.pc i) (ready (s.pc i) p))

  -- When a permit of `reader_switch` is out, whoever has it can move.
  readers_busy : (s.mem.reader_switch.mutex ≡ 0) ⊎ (s.mem.no_writers ≡ 0) → CanMove n s
  readers_busy h = elim (unblocked readers_in h) [
    | inl a ↦ by_weight (λ t. quiet (reader_place t)) (reader_quiet-IsReady s.mem) a
    | inr (inl a) ↦ by_weight (λ t. at_post (reader_place t)) (reader_posting-IsReady s.mem) a
    | inr (inr (inl a)) ↦ by_weight holding (holding-IsReady s.mem) a
    | inr (inr (inr (inl (a, b)))) ↦
        by_weight (λ t. at_wait (reader_place t)) (λ t. reader_waiting-IsReady s.mem t b) a
    | inr (inr (inr (inr (a, b)))) ↦
        by_weight (λ t. counted (reader_place t)) (λ t. reader_counted-IsReady s.mem t b) a
  ]

  -- The same for `writer_switch`, where a reader that holds `noReaders` may have to be let through.
  writers_busy : Free s.mem → (s.mem.writer_switch.mutex ≡ 0) ⊎ (s.mem.no_readers ≡ 0) → CanMove n s
  writers_busy f h = elim (unblocked writers_in h) [
    | inl a ↦ by_weight (λ t. quiet (writer_place t)) (writer_quiet-IsReady s.mem) a
    | inr (inl a) ↦ by_weight (λ t. at_post (writer_place t)) (writer_posting-IsReady s.mem) a
    | inr (inr (inl a)) ↦ by_weight arriving (λ t. arriving-IsReady s.mem t f) a
    | inr (inr (inr (inl (a, b)))) ↦
        by_weight (λ t. at_wait (writer_place t)) (λ t. writer_waiting-IsReady s.mem t b) a
    | inr (inr (inr (inr (a, b)))) ↦
        by_weight (λ t. counted (writer_place t)) (λ t. writer_counted-IsReady s.mem t f b) a
  ]

  -- No deadlock: either every thread has left its loop, or some thread has a step to take.
  pub no_deadlock : ((i : ℕ) → i < n → finished (s.pc i) ≡ true) ⊎ CanMove n s
  no_deadlock = elim (all_or_one finished n s.pc) [
    | inl all ↦ inl all
    | inr (i, lt, f) ↦ inr (
        go i lt f (dec_lt 0 s.mem.reader_switch.mutex) (dec_lt 0 s.mem.no_writers)
          (dec_lt 0 s.mem.writer_switch.mutex) (dec_lt 0 s.mem.no_readers))
  ]
    where
      go :
          (i : ℕ)
          → i < n
          → finished (s.pc i) ≡ false
          → Dec (0 < s.mem.reader_switch.mutex)
          → Dec (0 < s.mem.no_writers)
          → Dec (0 < s.mem.writer_switch.mutex)
          → Dec (0 < s.mem.no_readers)
          → CanMove n s
      go i lt f (no a) b c d = readers_busy (inl (omega arith))
      go i lt f (yes a) (no b) c d = readers_busy (inr (omega arith))
      go i lt f (yes a) (yes b) (no c) d = writers_busy (a, b) (inl (omega arith))
      go i lt f (yes a) (yes b) (yes c) (no d) = writers_busy (a, b) (inr (omega arith))
      go i lt f (yes a) (yes b) (yes c) (yes d) =
          (i, lt, IsReady-moves s.mem (s.pc i) (unfinished-IsReady s.mem (s.pc i) f (a, b) c d))
