-- ===== src/RwLock/WriterPriority/Inv.antt =====
-- The invariant of rwlock-writer-priority.cpp in the states that the program reaches.
use ostep_code.Prelude.{ℕ, ◌≡◌, refl, arith}
use ostep_code.Threads.{total, total-zero, System, Step, pick, Run, Run-inv}
use ostep_code.RwLock.LightSwitch.{out}
use ostep_code.RwLock.LightSwitch.Count.{tally_start}
use ostep_code.RwLock.WriterPriority.{
  Memory, Thread, step, rwlock_init, init, Role, reads, writes, create,
}
use ostep_code.RwLock.WriterPriority.Tally.{
  reader_place, writer_place, holding, arriving, pending, IsFresh, Inv,
}
use ostep_code.RwLock.WriterPriority.Fresh.{move-Inv}

-- Every step of the program keeps the invariant.
pub Step-Inv :
    {n writes : ℕ} {s t : System Memory Thread}
    → Step step n s t
    → Inv n writes s.mem s.pc
    → Inv n writes t.mem t.pc
Step-Inv (pick i {p = q} lt e) inv = move-Inv inv i q lt e

-- The writes that the threads are created for.
abbrev pub all_writes : ℕ → (ℕ → Role) → ℕ
all_writes n roles = total pending n (λ i. create (roles i))

create-out : (r : Role) → (reader_place (create r) ≡ out) × (writer_place (create r) ≡ out)
create-out (reads k) = (refl, refl)
create-out (writes k) = (refl, refl)

create-free : (r : Role) → (holding (create r) ≡ 0) × (arriving (create r) ≡ 0)
create-free (reads k) = (refl, refl)
create-free (writes k) = (refl, refl)

create-IsFresh : (m : Memory) (r : Role) → IsFresh m (create r)
create-IsFresh m (reads k) = tt
create-IsFresh m (writes k) = tt

init-Inv : (n : ℕ) (roles : ℕ → Role) → Inv n (all_writes n roles) (init roles).mem (init roles).pc
init-Inv n roles = record {
  readers_in =
      tally_start reader_place n (init roles).pc (λ i. (create-out (roles i)).0)
        (omega (arith, total-zero holding n (init roles).pc (λ i lt. (create-free (roles i)).0)));
  writers_in =
      tally_start writer_place n (init roles).pc (λ i. (create-out (roles i)).1)
        (omega (arith, total-zero arriving n (init roles).pc (λ i lt. (create-free (roles i)).1)));
  written = omega arith;
  fresh = λ i lt. create-IsFresh rwlock_init (roles i);
}

-- The invariant holds whenever the program has run for a while.
pub Run-Inv :
    {n k : ℕ} (roles : ℕ → Role) {s : System Memory Thread}
    → Run step n (init roles) k s
    → Inv n (all_writes n roles) s.mem s.pc
Run-Inv {n} roles r =
    Run-inv step n (λ s. Inv n (all_writes n roles) s.mem s.pc) (λ t u st v. Step-Inv st v)
      (init-Inv n roles) r
