-- ===== src/DispatchQueue/Awake.antt =====
-- Who sleeps in `cv_.wait` of the dispatch queue, who is notified, and how many steps a run has.
use ostep_code.Prelude.{
  ◌+◌, ◌*◌, ◌≤◌, length, length_snoc, ℕ, zero, suc, ◌<◌, ◌≡◌, refl, true, false, some, List, [],
  ◌∷◌, arith,
}
use ostep_code.Threads.{total-le, total-goes, here, next, total, total-zero, System, pick, Run}
use ostep_code.Threads.Sums.{Shift, total-one_and_rest, sum-inv, sums}
use ostep_code.DispatchQueue.{
  Memory, Point, testing, asleep, ended, joining, operating, dispatching, dispatch_thread_handler,
  step, points, init,
}

-- Threads that count as asleep, and those at the test of `cv_.wait`.
pub data Kind : Type 0 where
  sleepers testers : Kind

unfoldable pub weight : Kind → Point → ℕ
weight sleepers asleep = 1
weight testers testing = 1
weight _ _ = 0

-- Every sleeper is counted by `cv_`, none sleeps on after the destructor's `notify_all`, and while
-- one sleeps that no one has notified, the operations in the queue have as many threads that are
-- notified or about to test.
pub record IsAwake (m : Memory) (t : Kind → ℕ) : Type 0 where
  pub counted : t sleepers ≡ m.cv.sleeping + m.cv.woken
  pub all_notified : m.quit ≡ true → m.cv.sleeping ≡ 0
  pub served : 0 < m.cv.sleeping → m.quit ≡ false → length m.q ≤ m.cv.woken + t testers

keeps :
    (n : ℕ) (m m' : Memory) (p p' : Point) (t t' : Kind → ℕ)
    → step m p ≡ some (m', p')
    → Shift step n weight p p' t t'
    → IsAwake m t
    → IsAwake m' t'
unfolding step dispatch_thread_handler weight
keeps n m m' testing p' t t' e h j =
    ground (arith, h.part sleepers, h.change sleepers, h.part testers, h.change testers)
keeps n m m' asleep p' t t' e h j =
    ground (arith, h.part sleepers, h.change sleepers, h.part testers, h.change testers)
keeps n m m' ended p' t t' e h j =
    ground (arith, h.part sleepers, h.change sleepers, h.part testers, h.change testers)
keeps n m m' joining p' t t' e h j =
    ground (arith, h.part sleepers, h.change sleepers, h.part testers, h.change testers)
keeps n m m' (operating op) p' t t' e h j =
    ground (arith, h.part sleepers, h.change sleepers, h.part testers, h.change testers)
keeps n m m' (dispatching []) p' t t' e h j =
    ground (arith, h.part sleepers, h.change sleepers, h.part testers, h.change testers)
keeps n m m' (dispatching (op ∷ ops)) p' t t' e h j = ground (
  arith,
  h.part sleepers,
  h.change sleepers,
  h.part testers,
  h.change testers,
  length_snoc m.q op,
)

init-IsAwake : (n : ℕ) (ops : List ℕ) → IsAwake (init ops).mem (sums step n weight (points ops))
unfolding weight
init-IsAwake n ops = record {
  counted = total-zero (weight sleepers) n (points ops) (λ i lt. awake i);
  all_notified = λ q. refl;
  served = λ lt q. absurd (omega arith);
}
  where
    awake : (i : ℕ) → weight sleepers (points ops i) ≡ 0
    awake zero = refl
    awake (suc i) = refl

pub Run-IsAwake :
    {n k : ℕ} (ops : List ℕ) {s : System Memory Point}
    → Run step n (init ops) k s
    → IsAwake s.mem (sums step n weight s.pc)
Run-IsAwake {n} ops r = sum-inv step n weight IsAwake (keeps n) (init-IsAwake n ops) r

pub sleeper : (p : Point) → p ≡ asleep → weight sleepers p ≡ 1
unfolding weight
sleeper p e = ground arith

-- The steps that a thread still has, but for those that an operation in the queue or a
-- notification brings.
pub cost : ℕ → Point → ℕ
cost n testing = 1
cost n (operating op) = 2
cost n (dispatching ops) = 6 * length ops + 2 * n + 1
cost n _ = 0

pub owed : Memory → ℕ
owed m = 3 * length m.q + 2 * m.cv.woken

cost-falls :
    (n : ℕ) (m m' : Memory) (p p' : Point)
    → m.cv.sleeping ≤ n
    → step m p ≡ some (m', p')
    → suc (owed m' + cost n p') ≤ owed m + cost n p
unfolding step dispatch_thread_handler cost owed
cost-falls n m m' testing p' le e = ground arith
cost-falls n m m' asleep p' le e = ground arith
cost-falls n m m' ended p' le e = ground arith
cost-falls n m m' joining p' le e = ground arith
cost-falls n m m' (operating op) p' le e = ground arith
cost-falls n m m' (dispatching []) p' le e = ground arith
cost-falls n m m' (dispatching (op ∷ ops)) p' le e = ground (arith, length_snoc m.q op)

weight-le : (p : Point) → weight sleepers p ≤ 1
unfolding weight
weight-le p = ground arith

pub Run-cost :
    {n : ℕ} (ops : List ℕ) {k : ℕ} {s : System Memory Point}
    → Run step n (init ops) k s
    → k + owed s.mem + total (cost n) n s.pc ≤ total (cost n) n (points ops)
unfolding owed
Run-cost ops here = omega arith
Run-cost {n} ops (next {t = t} r (pick i {m} {p} lt e)) =
    let awake = Run-IsAwake ops r in
    let few : t.mem.cv.sleeping ≤ n =
      omega (arith, awake.counted, total-le (weight sleepers) 1 weight-le n t.pc) in
    omega (
      arith,
      Run-cost ops r,
      total-goes (cost n) n t.pc i p lt,
      cost-falls n t.mem m (t.pc i) p few e,
    )

pub cost-points : (n : ℕ) (ops : List ℕ) → total (cost n) n (points ops) ≤ 6 * length ops + 3 * n
unfolding cost
cost-points zero ops =
    omega (arith, total-zero (cost 0) 0 (points ops) (λ i lt. absurd (omega arith)))
cost-points (suc n) ops =
    omega (arith, total-one_and_rest (cost (suc n)) (points ops) testing n (λ i. refl))
