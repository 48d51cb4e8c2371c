-- ===== src/Semaphores/Race/Laws.antt =====
-- How far the counter can be from twice the number of rounds.
use ostep_code.Prelude.{ℕ, zero, suc, subst, ◌+◌, ◌*◌, ◌-◌, ◌≤◌, ◌<◌, ◌≡◌, refl, some, arith}
use ostep_code.Threads.{System, Run}
use ostep_code.Threads.Two.{two-inv, Reaches, starts, first_moves, second_moves}
use ostep_code.Semaphores.Race.{Point, load, store, over, step, init}

-- The rounds a thread has done.
abbrev pub done : ℕ → Point → ℕ
done max (load i) = i
done max (store i x) = i
done max over = max

abbrev Fits : ℕ → ℕ → Point → Point → Type 0
Fits max c p (load i) = i ≤ max
Fits max c p (store i x) = (i < max) × (x ≤ done max p + i)
Fits max c p over = Unit

record Inv (max c : ℕ) (p q : Point) : Type 0 where
  at_most : c ≤ done max p + done max q
  fits : Fits max c p q × Fits max c q p

first :
    (max c c' : ℕ) (p p' q : Point) → Inv max c p q → step max c p ≡ some (c', p') → Inv max c' p' q
unfolding step
first max c c' (load i) p' q v e = ground arith
first max c c' (store i x) p' q v e = ground arith
first max c c' over p' q v e = ground arith

swap : (max c : ℕ) (p q : Point) → Inv max c p q → Inv max c q p
swap max c p q v =
    let (a, b) = v.fits in record { at_most = omega (arith, v.at_most); fits = (b, a) }

second :
    (max c c' : ℕ) (p q q' : Point) → Inv max c p q → step max c q ≡ some (c', q') → Inv max c' p q'
second max c c' p q q' v e = swap max c' q' p (first max c c' q q' p (swap max c p q v) e)

done-le-max : (max c : ℕ) (p q : Point) → Inv max c p q → done max p ≤ max
done-le-max max c p q v = ground arith

-- The counter is never above the rounds that were done, and never above twice `max`.
pub race_bound :
    (max : ℕ) {k : ℕ} {s : System ℕ Point}
    → Run (step max) 2 init k s
    → (s.mem ≤ done max (s.pc 0) + done max (s.pc 1)) × (s.mem ≤ 2 * max)
race_bound max {k} {s} r = (
  v.at_most,
  omega (
    arith,
    v.at_most,
    done-le-max max s.mem (s.pc 0) (s.pc 1) v,
    done-le-max max s.mem (s.pc 1) (s.pc 0) (swap max s.mem (s.pc 0) (s.pc 1) v),
  ),
)
  where
    begin : Inv max init.mem (load 0) (load 0)
    begin = ground arith

    v : Inv max s.mem (s.pc 0) (s.pc 1)
    v = two-inv (step max) (Inv max) (first max) (second max) begin r

step-load : (max c i : ℕ) → i < max → step max c (load i) ≡ some (c, store i c)
unfolding step
step-load max c i h = ground arith

step_end : (max c : ℕ) → step max c (load max) ≡ some (c, over)
unfolding step
step_end max c = ground arith

step-store : (max c i x : ℕ) → step max c (store i x) ≡ some (x + 1, load (i + 1))
unfolding step
step-store max c i x = refl

module _ (max : ℕ) where
  -- `j` rounds of one thread alone.
  first_alone :
      (j c i d e : ℕ) (q : Point)
      → d ≡ c + j
      → e ≡ i + j
      → e ≤ max
      → Reaches (step max) init c (load i) q
      → Reaches (step max) init d (load e) q
  first_alone zero c i d e q hd he h r =
      let hd : d ≡ c = omega arith in let he : e ≡ i = omega arith in rw (hd, he) r
  first_alone (suc j) c i d e q hd he h r =
      let r = first_moves (step max) c r (store i c) (step-load max c i (omega arith)) in
      let r = first_moves (step max) (c + 1) r (load (i + 1)) (step-store max c i c) in
      first_alone j (c + 1) (i + 1) d e q (omega arith) (omega arith) h r

  second_alone :
      (j c i d e : ℕ) (p : Point)
      → d ≡ c + j
      → e ≡ i + j
      → e ≤ max
      → Reaches (step max) init c p (load i)
      → Reaches (step max) init d p (load e)
  second_alone zero c i d e p hd he h r =
      let hd : d ≡ c = omega arith in let he : e ≡ i = omega arith in rw (hd, he) r
  second_alone (suc j) c i d e p hd he h r =
      let r = second_moves (step max) c r (store i c) (step-load max c i (omega arith)) in
      let r = second_moves (step max) (c + 1) r (load (i + 1)) (step-store max c i c) in
      second_alone j (c + 1) (i + 1) d e p (omega arith) (omega arith) h r

-- For any number of rounds of at least two, the program can end with 2 in the counter: the first
-- thread stores 1 after all but one of the second's rounds, and the second stores 2 after all of
-- the first's.
pub race_two : (max : ℕ) → 2 ≤ max → Reaches (step max) init 2 over over
race_two max h =
    let x = step max in
    let r = first_moves x 0 (starts x init) (store 0 0) (step-load max 0 0 (omega arith)) in
    let r =
      second_alone max (max - 1) 0 0 (max - 1) (max - 1) (store 0 0) (omega arith) (omega arith)
        (omega arith) r in
    let r = first_moves x 1 r (load 1) (step-store max (max - 1) 0 0) in
    let r = second_moves x 1 r (store (max - 1) 1) (step-load max 1 (max - 1) (omega arith)) in
    let r =
      first_alone max (max - 1) 1 1 max max (store (max - 1) 1) (omega arith) (omega arith)
        (omega arith) r in
    let r = first_moves x max r over (step_end max max) in
    let r = second_moves x 2 r (load (max - 1 + 1)) (step-store max max (max - 1) 1) in
    let e : max - 1 + 1 ≡ max = omega arith in
    let r = subst (λ i. Reaches x init 2 over (load i)) e r in
    second_moves x 2 r over (step_end max 2)
