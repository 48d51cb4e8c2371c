-- ===== src/DispatchQueue/Laws.antt =====
-- Theorems about the dispatch queue.
use ostep_code.Prelude.{
  ◌+◌, ◌*◌, ◌-◌, ◌≤◌, length, ℕ, zero, suc, ◌<◌, ◌≡◌, refl, sym, ap, ◌∙◌, subst, inl, inr, Bool,
  true, false, Option, none, some, List, [], ◌∷◌, ◌++◌, append_assoc, arith, Bool-cases, unwind,
  unwind-append, ℕ_discrete,
}
use ostep_code.Threads.{
  total, le-total, System, goes, goes_here, goes_other, Step, pick, Run, Run-inv,
}
use ostep_code.Cond.{cond_wait}
use ostep_code.DispatchQueue.Awake.{
  testers, sleepers, weight, Run-IsAwake, sleeper, Run-cost, cost-points,
}
use ostep_code.DispatchQueue.{
  Memory, Point, testing, asleep, ended, joining, operating, dispatching, dispatch_thread_handler,
  dispatch, destroy, step, points, init,
}

-- The operations that are still to be dispatched.
abbrev pub left : Point → List ℕ
left (dispatching ops) = ops
left _ = []

-- All operations, in the order of their dispatch: those started, in the queue, and still to come.
abbrev pub all_ops : Memory → Point → List ℕ
all_ops m p = unwind m.started (m.q ++ left p)

abbrev pub IsWorker : Point → Type 0
IsWorker (dispatching ops) = ⊥
IsWorker joining = ⊥
IsWorker _ = Unit

-- The client destroys the queue when it has dispatched everything.
abbrev pub IsClient : Memory → Point → Type 0
IsClient m (dispatching ops) = m.quit ≡ false
IsClient m joining = m.quit ≡ true
IsClient m _ = ⊥

-- A step has one result.
through :
    (K : Memory × Point → Type 0) (o : Option (Memory × Point)) (x y : Memory × Point)
    → o ≡ some x
    → K y
    → o ≡ some y
    → K x
through K o x y e k f = subst K (ap (λ r. elim r [ none ↦ y | some z ↦ z ]) (sym f ∙ e)) k

-- What a step of a worker keeps, from the memory `m` on.
abbrev Worked : Memory → Memory × Point → Type 0
Worked m (m', p') =
    IsWorker p'
    × (m'.quit ≡ m.quit)
    × ((rest : List ℕ) → unwind m'.started (m'.q ++ rest) ≡ unwind m.started (m.q ++ rest))

worker_lem :
    (m : Memory) (p : Point) (x : Memory × Point) → IsWorker p → step m p ≡ some x → Worked m x
unfolding step dispatch_thread_handler unwind
worker_lem m testing x w e = go m.quit m.q refl refl
  where
    go : (quit : Bool) (q : List ℕ) → m.quit ≡ quit → m.q ≡ q → Worked m x
    go true q f g = through (Worked m) _ x (m, ended) e (tt, refl, λ rest. refl) (ground arith)
    go false [] f g =
        through (Worked m) _ x (record m { cv = cond_wait m.cv }, asleep) e (tt, refl, λ rest. refl)
          (ground arith)
    go false (op ∷ ops) f g =
        through (Worked m) _ x (record m { q = ops; started = op ∷ m.started }, operating op) e
          (tt, refl, λ rest. ap (λ q. unwind m.started (q ++ rest)) (sym g)) (ground arith)
worker_lem m asleep x w e = go m.cv.woken refl
  where
    go : (woken : ℕ) → m.cv.woken ≡ woken → Worked m x
    go zero f = ground arith
    go (suc woken) f =
        through (Worked m) _ x (record m { cv = record (m.cv) { woken = m.cv.woken - 1 } }, testing)
          e (tt, refl, λ rest. refl) (ground arith)
worker_lem m (operating op) x w e = go m.quit refl
  where
    go : (quit : Bool) → m.quit ≡ quit → Worked m x
    go true f = through (Worked m) _ x (m, ended) e (tt, refl, λ rest. refl) (ground arith)
    go false f = through (Worked m) _ x (m, testing) e (tt, refl, λ rest. refl) (ground arith)
worker_lem m ended x w e = ground arith
worker_lem m joining x w e = absurd w
worker_lem m (dispatching ops) x w e = absurd w

abbrev Served : Memory → Point → Memory × Point → Type 0
Served m p (m', p') = IsClient m' p' × (all_ops m' p' ≡ all_ops m p)

client_lem :
    (m : Memory) (p : Point) (x : Memory × Point) → IsClient m p → step m p ≡ some x → Served m p x
unfolding step
client_lem m testing x w e = absurd w
client_lem m asleep x w e = absurd w
client_lem m (operating op) x w e = absurd w
client_lem m ended x w e = absurd w
client_lem m joining x w e = ground arith
client_lem m (dispatching []) x w e =
    through (Served m (dispatching [])) _ x (destroy m, joining) e (refl, refl) refl
client_lem m (dispatching (op ∷ ops)) x w e =
    through (Served m (dispatching (op ∷ ops))) _ x (dispatch op m, dispatching ops) e
      (w, ap (unwind m.started) (append_assoc m.q (op ∷ []) ops)) refl

-- The invariant of a queue whose client dispatches `ops`.
record Inv (ops : List ℕ) (s : System Memory Point) : Type 0 where
  client : IsClient s.mem (s.pc 0)
  workers : (i : ℕ) → 0 < i → IsWorker (s.pc i)
  in_order : all_ops s.mem (s.pc 0) ≡ ops

IsClient-quit : (m m' : Memory) (p : Point) → m'.quit ≡ m.quit → IsClient m p → IsClient m' p
IsClient-quit m m' testing e c = absurd c
IsClient-quit m m' asleep e c = absurd c
IsClient-quit m m' ended e c = absurd c
IsClient-quit m m' (operating op) e c = absurd c
IsClient-quit m m' joining e c = e ∙ c
IsClient-quit m m' (dispatching ops) e c = e ∙ c

Step-Inv :
    {n : ℕ} (ops : List ℕ) {s t : System Memory Point} → Step step n s t → Inv ops s → Inv ops t
Step-Inv ops {s} (pick zero {m} {p} lt e) inv =
    let (c, kept) = client_lem s.mem (s.pc 0) (m, p) inv.client e in
    record {
      client = subst (IsClient m) (sym (goes_here s.pc 0 p)) c;
      workers =
          λ i pos. subst IsWorker (sym (goes_other s.pc 0 i p (omega arith))) (inv.workers i pos);
      in_order = ap (all_ops m) (goes_here s.pc 0 p) ∙ kept ∙ inv.in_order;
    }
Step-Inv ops {s} (pick (suc j) {m} {p} lt e) inv =
    let (w, q, kept) =
      worker_lem s.mem (s.pc (suc j)) (m, p) (inv.workers (suc j) (omega arith)) e in
    record {
      client =
          subst (IsClient m) (sym (goes_other s.pc (suc j) 0 p (omega arith)))
            (IsClient-quit s.mem m (s.pc 0) q inv.client);
      workers = λ i pos. elim (ℕ_discrete (suc j) i) [
        | yes same ↦
            subst (λ k. IsWorker (goes s.pc (suc j) p k)) same
              (subst IsWorker (sym (goes_here s.pc (suc j) p)) w)
        | no ne ↦ subst IsWorker (sym (goes_other s.pc (suc j) i p ne)) (inv.workers i pos)
      ];
      in_order =
          ap (all_ops m) (goes_other s.pc (suc j) 0 p (omega arith))
          ∙ kept (left (s.pc 0))
          ∙ inv.in_order;
    }

init-Inv : (ops : List ℕ) → Inv ops (init ops)
unfolding unwind
init-Inv ops = record { client = refl; workers = λ i pos. waits i pos; in_order = refl }
  where
    waits : (i : ℕ) → 0 < i → IsWorker (points ops i)
    waits zero pos = absurd (omega arith)
    waits (suc i) pos = tt

Run-Inv : {n k : ℕ} (ops : List ℕ) {s : System Memory Point} → Run step n (init ops) k s → Inv ops s
Run-Inv {n} ops r = Run-inv step n (Inv ops) (λ t u st v. Step-Inv ops st v) (init-Inv ops) r

-- In every state that the client and the other threads reach, the operations that were started,
-- in their order, are a first part of those that the client dispatches: none is started twice or
-- before an earlier one.
pub started_in_order :
    {n k : ℕ} (ops : List ℕ) {s : System Memory Point}
    → Run step n (init ops) k s
    → (rest : List ℕ) × (unwind s.mem.started [] ++ rest ≡ ops)
started_in_order ops {s} r =
    let inv = Run-Inv ops r in
    let rest = s.mem.q ++ left (s.pc 0) in
    (rest, sym (unwind-append s.mem.started [] rest) ∙ inv.in_order)

-- A thread that has returned, or the client before the joins.
abbrev pub through_with : Point → Bool
through_with ended = true
through_with joining = true
through_with _ = false

-- A thread that is neither through nor asleep has a step.
moves_on :
    (m : Memory) (p : Point)
    → through_with p ≡ false
    → step m p ≡ none
    → (p ≡ asleep) × (m.cv.woken ≡ 0)
unfolding step
moves_on m testing t e = ground arith
moves_on m asleep t e = ground arith
moves_on m ended t e = ground arith
moves_on m joining t e = ground arith
moves_on m (operating op) t e = ground arith
moves_on m (dispatching []) t e = ground arith
moves_on m (dispatching (op ∷ ops)) t e = ground arith

client_moves : (m : Memory) (p : Point) → IsClient m p → step m p ≡ none → m.quit ≡ true
unfolding step
client_moves m testing c e = absurd c
client_moves m asleep c e = absurd c
client_moves m ended c e = absurd c
client_moves m joining c e = c
client_moves m (operating op) c e = absurd c
client_moves m (dispatching []) c e = ground arith
client_moves m (dispatching (op ∷ ops)) c e = ground arith

all_through :
    {n k : ℕ} (ops : List ℕ) {s : System Memory Point}
    → Run step n (init ops) k s
    → ((i : ℕ) → i < n → step s.mem (s.pc i) ≡ none)
    → (i : ℕ) → i < n
    → through_with (s.pc i) ≡ true
all_through {n} ops {s} r stuck i lt =
    let inv = Run-Inv ops r in
    let quit = client_moves s.mem (s.pc 0) inv.client (stuck 0 (omega arith)) in
    let awake = Run-IsAwake ops r in
    elim (Bool-cases (through_with (s.pc i))) [
      | inl t ↦ t
      | inr f ↦
          let (sleeps, none_woken) = moves_on s.mem (s.pc i) f (stuck i lt) in
          absurd (
            omega (
              arith,
              awake.counted,
              awake.all_notified quit,
              none_woken,
              sleeper (s.pc i) sleeps,
              le-total (weight sleepers) n s.pc i lt,
            ))
    ]

-- Without spurious wake-ups, a schedule that cannot go on has brought the client to the joins, and
-- every other thread past its loop: none is left asleep, and the destructor comes back. With `n`
-- threads, the client among them, this comes after no more than six steps for each operation and
-- three for each thread.
pub complete_dispatch :
    {n k : ℕ} (ops : List ℕ) {s : System Memory Point}
    → Run step n (init ops) k s
    → ((i : ℕ) → i < n → step s.mem (s.pc i) ≡ none)
    → (k ≤ 6 * length ops + 3 * n) × ((i : ℕ) → i < n → through_with (s.pc i) ≡ true)
complete_dispatch {n} ops {s} r stuck =
    (omega (arith, Run-cost ops r, cost-points n ops), λ i lt. all_through ops r stuck i lt)

-- While the client has not destroyed the queue, no operation that waits in it waits for a thread
-- that sleeps: there is for each a thread that is notified or about to test, unless none sleeps.
pub notified_enough :
    {n k : ℕ} (ops : List ℕ) {s : System Memory Point}
    → Run step n (init ops) k s
    → 0 < s.mem.cv.sleeping
    → s.mem.quit ≡ false
    → length s.mem.q ≤ s.mem.cv.woken + total (weight testers) n s.pc
notified_enough ops r lt q = (Run-IsAwake ops r).served lt q
