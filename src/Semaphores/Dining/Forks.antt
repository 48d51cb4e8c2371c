-- ===== src/Semaphores/Dining/Forks.antt =====
-- Who holds which fork, whatever order the forks are taken in.
use ostep_code.Prelude.{refl, ℕ, ◌+◌, ◌≤◌, ◌<◌, ◌≡◌, ◌≢◌, ◌⊎◌, Option, some, arith, ite, ℕ_discrete}
use ostep_code.Threads.{total, two-le-total, total-zero, System, Run, Step, pick, Run-inv}
use ostep_code.Threads.Sums.{Shift, sum-inv}
use ostep_code.Semaphores.Dining.{
  Forks, left, right, At, test, thinking, get_first, get_second, eating, put_left, put_right, over,
  Seat, move, philosopher, init,
}

abbrev pub is : ℕ → ℕ → ℕ
is j f = ite (ℕ_discrete j f) 1 0

-- `get_forks` takes the left fork and the right one, in either order.
abbrev pub TakesBoth : (a b : ℕ → ℕ) → Type 0
TakesBoth a b = (p : ℕ) → ((a p ≡ left p) × (b p ≡ right p)) ⊎ ((a p ≡ right p) × (b p ≡ left p))

module _ (a : ℕ → ℕ) where
  -- How often the seat holds fork `j`.
  abbrev pub holds_at : ℕ → ℕ → At → ℕ
  holds_at j p get_second = is j (a p)
  holds_at j p eating = is j (left p) + is j (right p)
  holds_at j p put_left = is j (left p) + is j (right p)
  holds_at j p put_right = is j (right p)
  holds_at j p _ = 0

  abbrev pub holds : ℕ → Seat → ℕ
  holds j s = holds_at j s.thread_id s.at

module _ (a b : ℕ → ℕ) (both : TakesBoth a b) (num_loops : ℕ) where
  abbrev go : Forks → Seat → Option (Forks × Seat)
  go = philosopher a b num_loops

  keep_at :
      (j : ℕ) (forks forks' : Forks) (s s' : Seat) (at : At) (t t' : ℕ)
      → move a b num_loops forks s at ≡ some (forks', s')
      → holds_at a j s.thread_id at ≤ t
      → t' + holds_at a j s.thread_id at ≡ t + holds a j s'
      → forks j + t ≡ 1
      → forks' j + t' ≡ 1
  unfolding move
  keep_at j forks forks' s s' test t t' e le new v = ground arith
  keep_at j forks forks' s s' thinking t t' e le new v = ground arith
  keep_at j forks forks' s s' get_first t t' e le new v = ground arith
  keep_at j forks forks' s s' get_second t t' e le new v = ground (arith, both s.thread_id)
  keep_at j forks forks' s s' eating t t' e le new v = ground arith
  keep_at j forks forks' s s' put_left t t' e le new v = ground arith
  keep_at j forks forks' s s' put_right t t' e le new v = ground arith
  keep_at j forks forks' s s' over t t' e le new v = ground arith

  keep :
      (forks forks' : Forks) (s s' : Seat) (t t' : ℕ → ℕ) {n : ℕ}
      → go forks s ≡ some (forks', s')
      → Shift go n (holds a) s s' t t'
      → ((j : ℕ) → forks j + t j ≡ 1)
      → (j : ℕ) → forks' j + t' j ≡ 1
  keep forks forks' s s' t t' e h v j =
      keep_at j forks forks' s s' s.at (t j) (t' j) e (h.part j) (h.change j) (v j)

  same_id_at :
      (forks forks' : Forks) (s s' : Seat) (at : At)
      → move a b num_loops forks s at ≡ some (forks', s')
      → s'.thread_id ≡ s.thread_id
  unfolding move
  same_id_at forks forks' s s' at e = ground arith

  module _ {n k : ℕ} {s : System Forks Seat} (r : Run go n init k s) where
    -- Each fork lies on the table or is held once.
    pub held_once : (j : ℕ) → s.mem j + total (holds a j) n s.pc ≡ 1
    held_once =
        sum-inv go n (holds a) (λ forks t. (j : ℕ) → forks j + t j ≡ 1)
          (λ forks forks' p q t t' e h v. keep forks forks' p q t t' e h v)
          (λ j. omega (arith, total-zero (holds a j) n init.pc (λ i lt. refl))) r

    pub ids : (i : ℕ) → (s.pc i).thread_id ≡ i
    ids = Run-inv go n (λ s. (i : ℕ) → (s.pc i).thread_id ≡ i) stays (λ i. refl) r
      where
        stays :
            (s u : System Forks Seat)
            → Step go n s u
            → ((i : ℕ) → (s.pc i).thread_id ≡ i)
            → (i : ℕ) → (u.pc i).thread_id ≡ i
        stays s _ (pick i {m} {p} lt e) v j = elim (ℕ_discrete i j) [
          | yes eq ↦ ground (arith, same_id_at s.mem m (s.pc i) p (s.pc i).at e, v i)
          | no ne ↦ ground (arith, v j)
        ]

    -- No fork is held by two philosophers.
    pub apart : (f i j : ℕ) → i < n → j < n → i ≢ j → holds a f (s.pc i) + holds a f (s.pc j) ≤ 1
    apart f i j lt lt' ne =
        omega (arith, held_once f, two-le-total (holds a f) n s.pc i j lt lt' ne)
