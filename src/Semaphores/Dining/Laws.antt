-- ===== src/Semaphores/Dining/Laws.antt =====
-- Theorems about the philosophers without messages.
use ostep_code.Prelude.{
  ℕ, zero, suc, ◌+◌, ◌-◌, ◌*◌, ◌≤◌, ◌<◌, ◌≡◌, ◌≢◌, ◌⊎◌, refl, subst, inl, none, some, arith, dec_lt,
}
use ostep_code.Threads.{total, total-zero, System, Run, Run-bound}
use ostep_code.Threads.Sums.{total_same}
use ostep_code.Semaphores.Dining.{
  Forks, left, right, first_fork, second_fork, At, test, thinking, get_first, get_second, eating,
  put_left, put_right, over, Seat, move, step, philosopher, init,
}
use ostep_code.Semaphores.Dining.Forks.{TakesBoth, holds, held_once, ids, apart}

pub TakesBoth-first_fork : TakesBoth first_fork second_fork
unfolding first_fork second_fork
TakesBoth-first_fork p = ground arith

pub TakesBoth-left : TakesBoth left right
TakesBoth-left p = inl (refl, refl)

module _ (a : ℕ → ℕ) where
  eating_holds_right : (s : Seat) → s.at ≡ eating → 0 < holds a (right s.thread_id) s
  eating_holds_right s e = ground (arith, e)

  eating_holds_left : (s : Seat) → s.at ≡ eating → 0 < holds a s.thread_id s
  eating_holds_left s e = ground (arith, e)

right_near : (p : ℕ) → p < 5 → (right p < 5) × (p ≢ right p)
right_near p h = ground arith

-- Whatever order the forks are taken in, of two neighbours at most one eats.
pub neighbours_apart :
    (a b : ℕ → ℕ) (both : TakesBoth a b) (num_loops : ℕ) {k : ℕ} {s : System Forks Seat}
    → Run (philosopher a b num_loops) 5 init k s
    → (p : ℕ) → p < 5
    → (s.pc p).at ≡ eating
    → (s.pc (right p)).at ≢ eating
neighbours_apart a b both num_loops {k} {s} r p lt e e' =
    let (lt', ne) = right_near p lt in
    let at_p = ids a b both num_loops r p in
    let at_q = ids a b both num_loops r (right p) in
    let one = apart a b both num_loops r (right p) p (right p) lt lt' ne in
    let h = eating_holds_right a (s.pc p) e in
    let h' = eating_holds_left a (s.pc (right p)) e' in
    let h = subst (λ i. 0 < holds a (right i) (s.pc p)) at_p h in
    let h' = subst (λ i. 0 < holds a i (s.pc (right p))) at_q h' in omega (arith, one, h, h')

forks_order : (p : ℕ) → p < 5 → (first_fork p < second_fork p) × (second_fork p < 5)
unfolding first_fork second_fork
forks_order p h = ground arith

blocked :
    (loops : ℕ) (forks : Forks) (s : Seat)
    → step loops forks s ≡ none
    → ((s.at ≡ get_first) × (forks (first_fork s.thread_id) ≡ 0))
      ⊎ (((s.at ≡ get_second) × (forks (second_fork s.thread_id) ≡ 0)) ⊎ (s.at ≡ over))
unfolding move
blocked loops forks s e = ground arith

-- A blocked philosopher holds a fork only while it waits for the other one, which is not free.
blocked_holds :
    (loops : ℕ) (forks : Forks) (s : Seat) (j : ℕ)
    → step loops forks s ≡ none
    → 0 < holds first_fork j s
    → (first_fork s.thread_id ≡ j) × (forks (second_fork s.thread_id) ≡ 0)
blocked_holds loops forks s j e h = ground (arith, blocked loops forks s e)

blocked_free :
    (loops : ℕ) (forks : Forks) (s : Seat)
    → step loops forks s ≡ none
    → ((j : ℕ) → forks j ≡ 1)
    → s.at ≡ over
blocked_free loops forks s e h =
    ground (arith, blocked loops forks s e, h (first_fork s.thread_id), h (second_fork s.thread_id))

-- The steps a philosopher still has.
abbrev left_at : ℕ → ℕ → At → ℕ
left_at loops round test = 1 + 8 * (loops - round)
left_at loops round thinking = 8 + 8 * (loops - (round + 1))
left_at loops round get_first = 7 + 8 * (loops - (round + 1))
left_at loops round get_second = 6 + 8 * (loops - (round + 1))
left_at loops round eating = 5 + 8 * (loops - (round + 1))
left_at loops round put_left = 4 + 8 * (loops - (round + 1))
left_at loops round put_right = 3 + 8 * (loops - (round + 1))
left_at loops round over = 0

abbrev left_of : ℕ → Seat → ℕ
left_of loops s = left_at loops s.round s.at

left_at_falls :
    (loops : ℕ) (forks forks' : Forks) (s s' : Seat) (at : At)
    → move first_fork second_fork loops forks s at ≡ some (forks', s')
    → left_of loops s' < left_at loops s.round at
unfolding move
left_at_falls loops forks forks' s s' at e = ground arith

left_falls :
    (loops : ℕ) (forks forks' : Forks) (s s' : Seat)
    → step loops forks s ≡ some (forks', s')
    → left_of loops s' < left_of loops s
left_falls loops forks forks' s s' e = left_at_falls loops forks forks' s s' s.at e

module _ (loops : ℕ) {k : ℕ} {s : System Forks Seat} (r : Run (step loops) 5 init k s)
    (stuck : (i : ℕ) → i < 5 → step loops s.mem (s.pc i) ≡ none) where
  held : (j : ℕ) → s.mem j + total (holds first_fork j) 5 s.pc ≡ 1
  held = held_once first_fork second_fork TakesBoth-first_fork loops r

  -- No fork is held: its holder would wait for one of a higher number, which is free.
  no_holder :
      (j : ℕ)
      → ((f : ℕ) → j < f → f < 5 → total (holds first_fork f) 5 s.pc ≡ 0)
      → (i : ℕ) → i < 5
      → holds first_fork j (s.pc i) ≡ 0
  no_holder j higher i lt = elim (dec_lt 0 (holds first_fork j (s.pc i))) [
    | no z ↦ omega arith
    | yes pos ↦
        let (is_first, taken) = blocked_holds loops s.mem (s.pc i) j (stuck i lt) pos in
        let me = ids first_fork second_fork TakesBoth-first_fork loops r i in
        let (up, few) = forks_order (s.pc i).thread_id (omega (arith, me, lt)) in
        let f = second_fork (s.pc i).thread_id in
        absurd (omega (arith, taken, held f, higher f (omega (arith, is_first, up)) few))
  ]

  all_free : (fuel j : ℕ) → 5 ≤ j + fuel → total (holds first_fork j) 5 s.pc ≡ 0
  all_free zero j h =
      total-zero (holds first_fork j) 5 s.pc
        (no_holder j (λ f up few. absurd (omega (arith, h, up, few))))
  all_free (suc fuel) j h =
      total-zero (holds first_fork j) 5 s.pc
        (no_holder j (λ f up few. all_free fuel f (omega (arith, h, up))))

  -- Where no philosopher has a step, all have returned, and this comes after no more than eight
  -- steps a round and one more.
  pub dining_complete : (k ≤ 5 * (8 * loops + 1)) × ((i : ℕ) → i < 5 → (s.pc i).at ≡ over)
  dining_complete = (
    omega (
      arith,
      Run-bound (step loops) 5 (left_of loops) (left_falls loops) r,
      total_same (left_of loops) (8 * loops + 1) 5 init.pc (λ i lt. omega arith),
    ),
    λ i lt.
        blocked_free loops s.mem (s.pc i) (stuck i lt)
          (λ j. omega (arith, held j, all_free 5 j (omega arith))),
  )
