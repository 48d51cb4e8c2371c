-- ===== src/Semaphores/Zem/Laws.antt =====
-- The semaphore from a lock and a condition variable against a semaphore.
use ostep_code.Prelude.{ℕ, ◌+◌, ◌≤◌, ◌<◌, ◌≡◌, ◌≢◌, ◌⊎◌, none, some, arith, dec_lt}
use ostep_code.Threads.{total, total-zero, le-total, System, Run, Reach}
use ostep_code.Threads.Sums.{Shift, sums, sum-inv, stuck-zero}
use ostep_code.Threads.Simulation.{image-Run}
use ostep_code.Semaphores.Zem.{
  Zem, zem_init, Point, zem_test, zem_sleep, step_zem, step_sema, init_zem, init_sema,
}

-- A thread that sleeps has not passed the semaphore.
abbrev pub calling : Point → Point
calling zem_sleep = zem_test
calling p = p

abbrev pub value_of : Zem → ℕ
value_of z = z.value

abbrev testing : Point → ℕ
testing zem_test = 1
testing _ = 0

abbrev sleeping : Point → ℕ
sleeping zem_sleep = 1
sleeping _ = 0

-- A thread that starts does not sleep.
abbrev pub Fresh : Point → Type 0
Fresh zem_sleep = ⊥
Fresh _ = Unit

data Sum : Type 0 where
  of_testing of_sleeping : Sum

abbrev weights : Sum → Point → ℕ
weights of_testing = testing
weights of_sleeping = sleeping

record Inv (z : Zem) (t : Sum → ℕ) : Type 0 where
  sleepers : z.cond.sleeping + z.cond.woken ≡ t of_sleeping
  no_lost : (z.cond.sleeping ≡ 0) ⊎ (z.value ≤ z.cond.woken + t of_testing)

keep :
    (n : ℕ) (z z' : Zem) (p q : Point) (t t' : Sum → ℕ)
    → step_zem z p ≡ some (z', q)
    → Shift step_zem n weights p q t t'
    → Inv z t
    → Inv z' t'
unfolding step_zem
keep n z z' p q t t' e h j = ground (
  arith,
  h.part of_testing,
  h.part of_sleeping,
  h.change of_testing,
  h.change of_sleeping,
  j.sleepers,
  j.no_lost,
)

shows :
    (z z' : Zem) (p p' : Point)
    → Unit {0}
    → step_zem z p ≡ some (z', p')
    → Unit {0}
      × (((z'.value ≡ z.value) × (calling p' ≡ calling p))
          ⊎ (step_sema z.value (calling p) ≡ some (z'.value, calling p')))
unfolding step_zem step_sema
shows z z' p p' j e = ground arith

live : (z : Zem) (p : Point) → 0 < testing p → step_zem z p ≢ none
unfolding step_zem
live z p h = ground arith

live_woken : (z : Zem) (p : Point) → 0 < z.cond.woken → 0 < sleeping p → step_zem z p ≢ none
unfolding step_zem
live_woken z p k h = ground arith

stuck_sema :
    (z : Zem) (p : Point)
    → (0 < sleeping p → z.value ≡ 0)
    → step_zem z p ≡ none
    → step_sema z.value (calling p) ≡ none
unfolding step_zem step_sema
stuck_sema z p h e = ground (arith, h)

Fresh-sleeping : (p : Point) → Fresh p → sleeping p ≡ 0
Fresh-sleeping p f = ground (arith, f)

module _ (n v : ℕ) (calls : ℕ → Point) (fresh : (i : ℕ) → Fresh (calls i)) where
  begin : Inv (zem_init v) (sums step_zem n weights calls)
  begin = ground (arith, total-zero sleeping n calls (λ i lt. Fresh-sleeping (calls i) (fresh i)))

  module _ {k : ℕ} {s : System Zem Point} (r : Run step_zem n (init_zem v calls) k s) where
    reached : Inv s.mem (sums step_zem n weights s.pc)
    reached = sum-inv step_zem n weights Inv (keep n) begin r

    -- Whatever the threads come to on the zemaphore, they come to on a semaphore.
    pub zem_refines :
        Reach step_sema n
          (init_sema v (λ i. calling (calls i)))
          (record { mem = s.mem.value; pc = λ i. calling (s.pc i) })
    zem_refines = (image-Run step_zem step_sema value_of calling (λ z. Unit {0}) shows tt r).reached

    no_value :
        ((i : ℕ) → i < n → step_zem s.mem (s.pc i) ≡ none)
        → 0 < total sleeping n s.pc
        → s.mem.value ≡ 0
    no_value stuck some_sleep =
        let tests = stuck-zero step_zem n s stuck testing (live s.mem) in
        elim (dec_lt 0 s.mem.cond.woken) [
          | yes up ↦
              let none_sleep =
                stuck-zero step_zem n s stuck sleeping (λ p. live_woken s.mem p up) in
              absurd (omega (arith, some_sleep, none_sleep))
          | no z ↦ ground (arith, reached.sleepers, reached.no_lost, tests, some_sleep)
        ]

    -- Where no thread has a step on the zemaphore, none has one on the semaphore.
    pub zem_stuck :
        ((i : ℕ) → i < n → step_zem s.mem (s.pc i) ≡ none)
        → (i : ℕ) → i < n
        → step_sema s.mem.value (calling (s.pc i)) ≡ none
    zem_stuck stuck i lt =
        stuck_sema s.mem (s.pc i)
          (λ asleep. no_value stuck (omega (arith, asleep, le-total sleeping n s.pc i lt)))
          (stuck i lt)
