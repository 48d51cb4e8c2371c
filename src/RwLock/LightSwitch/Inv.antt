-- ===== src/RwLock/LightSwitch/Inv.antt =====
-- What a light switch keeps, counted over the threads that use it.
use ostep_code.Prelude.{
  ℕ, ◌+◌, ◌≡◌, ◌⊎◌, ◌≤◌, ◌<◌, inl, inr, refl, Option, none, some, arith, ◌==◌, if◌then◌else◌,
}
use ostep_code.RwLock.LightSwitch.{
  LightSwitch, enter, count, light, leave, Place, out, inside, locking, unlocking, call,
}

-- In the section that `mutex` guards, but not at the call on the semaphore.
abbrev pub quiet : Place → ℕ
quiet (locking count) = 1
quiet (locking leave) = 1
quiet (unlocking count) = 1
quiet (unlocking leave) = 1
quiet _ = 0

-- About to wait on the semaphore; about to post it.
abbrev pub at_wait : Place → ℕ
at_wait (locking light) = 1
at_wait _ = 0

abbrev pub at_post : Place → ℕ
at_post (unlocking light) = 1
at_post _ = 0

-- Counted in `counter`, and past the wait.
abbrev pub counted : Place → ℕ
counted (locking leave) = 1
counted inside = 1
counted (unlocking enter) = 1
counted (unlocking count) = 1
counted _ = 0

abbrev pub positive : ℕ → ℕ
positive c = if c == 0 then 0 else 1

-- The four totals over all threads.
pub record Tally : Type 0 where
  pub quiet_ones : ℕ
  pub waiting : ℕ
  pub posting : ℕ
  pub counted_ones : ℕ

-- `others` permits of the semaphore are held by threads that do not use the switch.
pub record Inv (s : LightSwitch) (semaphore others : ℕ) (t : Tally) : Type 0 where
  pub one_at_a_time : s.mutex + t.quiet_ones + t.waiting + t.posting ≡ 1
  pub counts : s.counter ≡ t.counted_ones + t.waiting
  pub first : (t.waiting ≡ 0) ⊎ (s.counter ≡ 1)
  pub last : (t.posting ≡ 0) ⊎ (s.counter ≡ 0)
  pub lit : semaphore + others + positive s.counter + t.posting ≡ 1 + t.waiting

-- One thread goes from `p` to `q`, the others stay.
pub record Moves (p q : Place) (t u : Tally) : Type 0 where
  pub present : (quiet p ≤ t.quiet_ones) × (counted p ≤ t.counted_ones)
  pub quiet_moves : u.quiet_ones + quiet p ≡ t.quiet_ones + quiet q
  pub wait_moves : u.waiting + at_wait p ≡ t.waiting + at_wait q
  pub post_moves : u.posting + at_post p ≡ t.posting + at_post q
  pub count_moves : u.counted_ones + counted p ≡ t.counted_ones + counted q

module _ {s s' : LightSwitch} {semaphore semaphore' others : ℕ} {t u : Tally} where
  -- Every step in `lock` or `unlock` keeps the invariant.
  pub call-Inv :
      (p q : Place)
      → Moves p q t u
      → Inv s semaphore others t
      → call s semaphore p ≡ some (s', semaphore', q)
      → Inv s' semaphore' others u
  unfolding call
  call-Inv out q mv v e = cc
  call-Inv inside q mv v e = cc
  call-Inv (locking enter) q mv v e = ground arith
  call-Inv (locking count) q mv v e = ground arith
  call-Inv (locking light) q mv v e = ground arith
  call-Inv (locking leave) q mv v e = ground arith
  call-Inv (unlocking enter) q mv v e = ground arith
  call-Inv (unlocking count) q mv v e = ground arith
  call-Inv (unlocking light) q mv v e = ground arith
  call-Inv (unlocking leave) q mv v e = ground arith

-- A step outside the switch, which may exchange a permit of the semaphore.
pub stay-Inv :
    {s : LightSwitch} {semaphore others semaphore' others' : ℕ} {t u : Tally} (p : Place)
    → Moves p p t u
    → semaphore' + others' ≡ semaphore + others
    → Inv s semaphore others t
    → Inv s semaphore' others' u
stay-Inv p mv e v = record {
  one_at_a_time = omega arith;
  counts = omega arith;
  first = ground arith;
  last = ground arith;
  lit = ground arith;
}

-- The semaphore admits one of its other users at a time, and none beside a thread that is counted.
pub others-le_one :
    {s : LightSwitch} {semaphore others : ℕ} {t : Tally} → Inv s semaphore others t → others ≤ 1
others-le_one v = ground arith

pub others-eq_zero :
    {s : LightSwitch} {semaphore others : ℕ} {t : Tally}
    → Inv s semaphore others t
    → 0 < t.counted_ones
    → others ≡ 0
others-eq_zero v h = ground arith

-- If a permit is out, some thread is at a point where nothing can block it.
pub unblocked :
    {s : LightSwitch} {semaphore others : ℕ} {t : Tally}
    → Inv s semaphore others t
    → (s.mutex ≡ 0) ⊎ (semaphore ≡ 0)
    → (0 < t.quiet_ones)
      ⊎ (0 < t.posting)
      ⊎ (0 < others)
      ⊎ ((0 < t.waiting) × (0 < semaphore))
      ⊎ ((0 < t.counted_ones) × (0 < s.mutex))
unblocked v h = ground arith

pub call_cases :
    (o : Option (LightSwitch × ℕ × Place))
    → (o ≡ none) ⊎ ((s : LightSwitch) × (v : ℕ) × (q : Place) × (o ≡ some (s, v, q)))
call_cases none = inl refl
call_cases (some (s, v, q)) = inr (s, v, q, refl)
