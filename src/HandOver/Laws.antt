-- ===== src/HandOver/Laws.antt =====
-- Theorems about the three ways to hand data over.
use ostep_code.Prelude.{
  ℕ, ◌+◌, ◌≡◌, ◌⊎◌, refl, ap, sym, subst, Bool, true, false, Option, none, some, List, [], ◌∷◌,
  arith,
}
use ostep_code.Threads.{System, Run}
use ostep_code.Threads.Two.{two-inv}
use ostep_code.HandOver.{
  Memory, Point, lock_send, insert, unlock_send, tell, lock_receive, test, to_wait, asleep, relock,
  write, unlock_receive, insert_data, over, step_cond, step_flag, step_promise, start, init_cond,
  init_flag, init_promise,
}

abbrev holds : Point → ℕ
holds insert = 1
holds unlock_send = 1
holds test = 1
holds to_wait = 1
holds write = 1
holds unlock_receive = 1
holds _ = 0

-- Whether the sender has inserted, and has told.
abbrev inserted : Point → Bool
inserted lock_send = false
inserted insert = false
inserted _ = true

abbrev told : Point → Bool
told over = true
told _ = false

-- The vector, by whether the data is in it and is written.
abbrev content : Bool → Bool → List ℕ
content true true = 0 ∷ 1 ∷ 2 ∷ 3 ∷ []
content true false = 0 ∷ 1 ∷ 0 ∷ 3 ∷ []
content false _ = []

abbrev written : Point → Bool
written unlock_receive = true
written over = true
written _ = false

abbrev IsSender : Point → Type 0
IsSender lock_send = Unit
IsSender insert = Unit
IsSender unlock_send = Unit
IsSender tell = Unit
IsSender over = Unit
IsSender _ = ⊥

abbrev Quiet : Memory → Type 0
Quiet m = (m.cond.sleeping ≡ 0) × (m.cond.woken ≡ 0)

-- Where the receiver may be, and what it then knows of the sender.
abbrev Receives : Memory → Point → Point → Type 0
Receives m q lock_receive = Quiet m
Receives m q test = Quiet m
Receives m q to_wait = Quiet m × (inserted q ≡ false)
Receives m q asleep =
    (m.cond.sleeping + m.cond.woken ≡ 1) × ((m.cond.sleeping ≡ 0) ⊎ (told q ≡ false))
Receives m q relock = Quiet m
Receives m q write = Quiet m × (inserted q ≡ true)
Receives m q unlock_receive = Quiet m × (inserted q ≡ true)
Receives m q over = Quiet m × (inserted q ≡ true)
Receives m q _ = ⊥

record Inv (m : Memory) (p q : Point) : Type 0 where
  permits : m.mutex + holds p + holds q ≡ 1
  data_is : m.my_vec ≡ content (inserted q) (written p)
  receives : Receives m q p
  is_sender : IsSender q

first : (m m' : Memory) (p p' q : Point) → Inv m p q → step_cond m p ≡ some (m', p') → Inv m' p' q
unfolding step_cond
first m m' lock_receive p' q v e = ground arith
first m m' test p' q v e = ground arith
first m m' to_wait p' q v e = ground arith
first m m' asleep p' q v e = ground arith
first m m' relock p' q v e = ground arith
first m m' write p' q v e = ground arith
first m m' unlock_receive p' q v e = ground arith
first m m' over p' q v e = ground arith
first m m' p p' q v e = absurd v.receives

second : (m m' : Memory) (p q q' : Point) → Inv m p q → step_cond m q ≡ some (m', q') → Inv m' p q'
unfolding step_cond
second m m' p lock_send q' v e = ground arith
second m m' p insert q' v e = ground (arith, ap insert_data v.data_is)
second m m' p unlock_send q' v e = ground arith
second m m' p tell q' v e = ground arith
second m m' p over q' v e = ground arith
second m m' p q q' v e = absurd v.is_sender

stuck_at :
    (m : Memory) (p q : Point)
    → Inv m p q
    → step_cond m p ≡ none
    → step_cond m q ≡ none
    → (p ≡ over) × (q ≡ over) × (m.my_vec ≡ 0 ∷ 1 ∷ 2 ∷ 3 ∷ [])
unfolding step_cond
stuck_at m p q v e f = ground arith

-- Where neither thread has a step, both have returned and the data is whole and written.
pub cond_handed :
    {k : ℕ} {s : System Memory Point}
    → Run step_cond 2 init_cond k s
    → step_cond s.mem (s.pc 0) ≡ none
    → step_cond s.mem (s.pc 1) ≡ none
    → (s.pc 0 ≡ over) × (s.pc 1 ≡ over) × (s.mem.my_vec ≡ 0 ∷ 1 ∷ 2 ∷ 3 ∷ [])
cond_handed {s = s} r e f =
    stuck_at s.mem (s.pc 0) (s.pc 1) (two-inv step_cond Inv first second begin r) e f
  where
    begin : Inv start lock_receive lock_send
    begin = record { permits = refl; data_is = refl; receives = (refl, refl); is_sender = tt }

-- The programs without a lock: the receiver goes on once the flag is set, after the insertion.
abbrev AtFlag : Memory → Point → Point → Type 0
AtFlag m asleep insert = (m.ready ≡ false) × (m.my_vec ≡ [])
AtFlag m asleep tell = (m.ready ≡ false) × (m.my_vec ≡ content true false)
AtFlag m asleep over = (m.ready ≡ true) × (m.my_vec ≡ content true false)
AtFlag m write over = (m.ready ≡ true) × (m.my_vec ≡ content true false)
AtFlag m over over = (m.ready ≡ true) × (m.my_vec ≡ content true true)
AtFlag m _ _ = ⊥

flag_first :
    (m m' : Memory) (p p' q : Point) → AtFlag m p q → step_flag m p ≡ some (m', p') → AtFlag m' p' q
unfolding step_flag
flag_first m m' asleep p' insert v e = ground arith
flag_first m m' asleep p' tell v e = ground arith
flag_first m m' asleep p' over v e = ground arith
flag_first m m' write p' over v e = ground arith
flag_first m m' over p' over v e = ground arith
flag_first m m' p p' q v e = absurd v

flag_second :
    (m m' : Memory) (p q q' : Point) → AtFlag m p q → step_flag m q ≡ some (m', q') → AtFlag m' p q'
unfolding step_flag
flag_second m m' asleep insert q' v e = ground (arith, ap insert_data v.1)
flag_second m m' asleep tell q' v e = ground arith
flag_second m m' asleep over q' v e = ground arith
flag_second m m' write over q' v e = ground arith
flag_second m m' over over q' v e = ground arith
flag_second m m' p q q' v e = absurd v

flag_stuck_at :
    (m : Memory) (p q : Point)
    → AtFlag m p q
    → step_flag m p ≡ none
    → step_flag m q ≡ none
    → (p ≡ over) × (q ≡ over) × (m.my_vec ≡ 0 ∷ 1 ∷ 2 ∷ 3 ∷ [])
unfolding step_flag
flag_stuck_at m p q v e f = ground arith

-- The same of the program on the flag.
pub flag_handed :
    {k : ℕ} {s : System Memory Point}
    → Run step_flag 2 init_flag k s
    → step_flag s.mem (s.pc 0) ≡ none
    → step_flag s.mem (s.pc 1) ≡ none
    → (s.pc 0 ≡ over) × (s.pc 1 ≡ over) × (s.mem.my_vec ≡ 0 ∷ 1 ∷ 2 ∷ 3 ∷ [])
flag_handed {s = s} r e f =
    flag_stuck_at s.mem (s.pc 0) (s.pc 1)
      (two-inv step_flag AtFlag flag_first flag_second (refl, refl) r) e f

promise_is_flag : (m : Memory) (p : Point) → step_promise m p ≡ step_flag m p
unfolding step_promise step_flag
promise_is_flag m p = ground arith

-- What a program of the two threads promises.
abbrev Hands : (Memory → Point → Option (Memory × Point)) → Type 0
Hands step =
    (k : ℕ) (s : System Memory Point)
    → Run step 2 init_flag k s
    → step s.mem (s.pc 0) ≡ none
    → step s.mem (s.pc 1) ≡ none
    → (s.pc 0 ≡ over) × (s.pc 1 ≡ over) × (s.mem.my_vec ≡ 0 ∷ 1 ∷ 2 ∷ 3 ∷ [])

-- The same of the program on the promise.
pub promise_handed :
    {k : ℕ} {s : System Memory Point}
    → Run step_promise 2 init_promise k s
    → step_promise s.mem (s.pc 0) ≡ none
    → step_promise s.mem (s.pc 1) ≡ none
    → (s.pc 0 ≡ over) × (s.pc 1 ≡ over) × (s.mem.my_vec ≡ 0 ∷ 1 ∷ 2 ∷ 3 ∷ [])
promise_handed {k} {s} =
    let same : step_flag ≡ step_promise = λ x m p. sym (promise_is_flag m p) x in
    subst Hands same (λ k s r e f. flag_handed r e f) k s
