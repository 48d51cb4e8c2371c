-- ===== src/TwoLockQueue/Laws.antt =====
-- The queue of nodes against a first-in first-out list.
use ostep_code.Prelude.{
  ℕ, ◌≤◌, ◌<◌, ◌≡◌, refl, Bool, true, false, if◌then◌else◌, Option, none, some, List, [], ◌∷◌, ◌++◌,
  arith, ℤ, dec_lt,
}
use ostep_code.Heap.{done, fault, ◌>>=◌, Node, Heap, alloc, store_at, IsTidy, alloc-IsTidy}
use ostep_code.TwoLockQueue.{
  Queue, queue_init, queue_enqueue, queue_dequeue, Call, enqueue, dequeue, run,
}

-- From address `a`, whose node holds `d`, the nodes of `xs` follow, up to address `t`. Addresses
-- grow, since nodes are appended as they are made.
abbrev pub Row : Heap ℤ → ℕ → ℤ → List ℤ → ℕ → Type 0
Row h a d [] t = (a ≡ t) × (h.cell a ≡ some (record { value = d; next = none }))
Row h a d (x ∷ xs) t =
    (b : ℕ) × (a < b) × (h.cell a ≡ some (record { value = d; next = some b })) × Row h b x xs t

-- The queue holds `xs`, behind a dummy node.
pub record Holds (h : Heap ℤ) (q : Queue) (xs : List ℤ) : Type 0 where
  pub tidy : IsTidy h
  pub dummy : ℤ
  pub row : Row h q.head dummy xs q.tail

Row-le : (h : Heap ℤ) (a : ℕ) (d : ℤ) (xs : List ℤ) (t : ℕ) → Row h a d xs t → a ≤ t
Row-le h a d [] t r = omega arith
Row-le h a d (x ∷ xs) t (b, lt, c, r) = omega (arith, Row-le h b x xs t r)

-- The last node has no successor.
Row-last :
    (h : Heap ℤ) (a : ℕ) (d : ℤ) (xs : List ℤ) (t : ℕ)
    → Row h a d xs t
    → (v : ℤ) × (h.cell t ≡ some (record { value = v; next = none }))
Row-last h a d [] t (e, c) = (d, ground arith)
Row-last h a d (x ∷ xs) t (b, lt, c, r) = Row-last h b x xs t r

-- What `Queue_Enqueue` makes of the heap, if the last node is at `t`.
abbrev linked : Heap ℤ → ℕ → ℤ → ℤ → Heap ℤ
linked h t last v =
    let h' = alloc h (record { value = v; next = none }) in
    record h' { cell = store_at h'.cell t (some (record { value = last; next = some h.fresh })) }

Row-linked :
    (h : Heap ℤ) (a : ℕ) (d : ℤ) (xs : List ℤ) (t : ℕ) (last v : ℤ)
    → IsTidy h
    → h.cell t ≡ some (record { value = last; next = none })
    → t < h.fresh
    → Row h a d xs t
    → Row (linked h t last v) a d (xs ++ v ∷ []) h.fresh
Row-linked h a d [] t last v tidy l lt (e, c) =
    (h.fresh, omega arith, ground arith, (refl, ground arith))
Row-linked h a d (x ∷ xs) t last v tidy l lt (b, less, c, r) =
    (b, less, ground (arith, tidy h.fresh), Row-linked h b x xs t last v tidy l lt r)

below_fresh : (h : Heap ℤ) (p : ℕ) {n : Node ℤ} → IsTidy h → h.cell p ≡ some n → p < h.fresh
below_fresh h p t c = elim (dec_lt p h.fresh) [
  | yes lt ↦ lt
  | no ge ↦ let z = t p (omega arith) in cc
]

linked-IsTidy :
    (h : Heap ℤ) (t : ℕ) (last v : ℤ) → IsTidy h → t < h.fresh → IsTidy (linked h t last v)
linked-IsTidy h t last v tidy lt p le = ground (arith, tidy p)

-- `Queue_Enqueue` never faults if `malloc` gives a node, and adds the value at the end.
pub queue_enqueue-Holds :
    (h : Heap ℤ) (q : Queue) (xs : List ℤ) (v : ℤ)
    → Holds h q xs
    → (h' : Heap ℤ) × (q' : Queue) × (queue_enqueue true h q v ≡ done (h', q'))
      × Holds h' q' (xs ++ v ∷ [])
unfolding queue_enqueue
queue_enqueue-Holds h q xs v held =
    let (last, l) = Row-last h q.head held.dummy xs q.tail held.row in
    let lt = below_fresh h q.tail held.tidy l in
    (
      linked h q.tail last v,
      record q { tail = h.fresh },
      ground arith,
      record {
        tidy = linked-IsTidy h q.tail last v held.tidy lt;
        dummy = held.dummy;
        row = Row-linked h q.head held.dummy xs q.tail last v held.tidy l lt held.row;
      },
    )

-- Freeing a node below a row leaves the row as it is.
Row-freed :
    (h : Heap ℤ) (p a : ℕ) (d : ℤ) (xs : List ℤ) (t : ℕ)
    → p < a
    → Row h a d xs t
    → Row (record h { cell = store_at h.cell p none }) a d xs t
Row-freed h p a d [] t lt (e, c) = (e, ground arith)
Row-freed h p a d (x ∷ xs) t lt (b, less, c, r) =
    (b, less, ground arith, Row-freed h p b x xs t (omega arith) r)

freed-IsTidy : (h : Heap ℤ) (p : ℕ) → IsTidy h → IsTidy (record h { cell = store_at h.cell p none })
freed-IsTidy h p tidy q le = ground (arith, tidy q)

-- `Queue_Dequeue` of an empty queue returns -1 and changes nothing.
pub queue_dequeue_empty :
    (h : Heap ℤ) (q : Queue) → Holds h q [] → queue_dequeue h q ≡ done (h, q, none)
unfolding queue_dequeue
queue_dequeue_empty h q held = ground (arith, held.row)

-- `Queue_Dequeue` of a queue that holds something never faults, returns the oldest value, and keeps
-- the rest.
pub queue_dequeue-Holds :
    (h : Heap ℤ) (q : Queue) (x : ℤ) (xs : List ℤ)
    → Holds h q (x ∷ xs)
    → (h' : Heap ℤ) × (q' : Queue) × (queue_dequeue h q ≡ done (h', q', some x)) × Holds h' q' xs
unfolding queue_dequeue
queue_dequeue-Holds h q x xs held = go held.row
  where
    freed : Heap ℤ
    freed = record h { cell = store_at h.cell q.head none }

    value_at :
        (b : ℕ) (ys : List ℤ)
        → Row h b x ys q.tail
        → (n : Node ℤ) × (h.cell b ≡ some n) × (n.value ≡ x)
    value_at b [] (e, c) = (record { value = x; next = none }, c, refl)
    value_at b (y ∷ ys) (b', lt, c, r) = (record { value = x; next = some b' }, c, refl)

    go :
        Row h q.head held.dummy (x ∷ xs) q.tail
        → (h' : Heap ℤ) × (q' : Queue) × (queue_dequeue h q ≡ done (h', q', some x))
          × Holds h' q' xs
    go (b, lt, c, r) =
        let (n, at, v) = value_at b xs r in
        (
          freed,
          record q { head = b },
          ground arith,
          record {
            tidy = freed-IsTidy h q.head held.tidy;
            dummy = x;
            row = Row-freed h q.head b x xs q.tail lt r;
          },
        )

-- A first-in first-out list serves the same calls.
pub fifo : List ℤ → List Call → List (Option ℤ)
fifo xs [] = []
fifo xs (enqueue malloc_ok v ∷ calls) = fifo (xs ++ v ∷ []) calls
fifo [] (dequeue ∷ calls) = none ∷ fifo [] calls
fifo (x ∷ xs) (dequeue ∷ calls) = some x ∷ fifo xs calls

-- `Queue_Init` makes an empty queue.
pub queue_init-Holds :
    (h : Heap ℤ) (junk : ℤ) → IsTidy h → let (h', q) = queue_init h junk in Holds h' q []
queue_init-Holds h junk t = record {
  tidy = alloc-IsTidy h (record { value = junk; next = none }) t;
  dummy = junk;
  row = (refl, ground arith);
}

-- `malloc` gives a node in every enqueue.
pub granted : List Call → Bool
granted [] = true
granted (enqueue malloc_ok v ∷ calls) =
    let rest = granted calls in if malloc_ok then rest else false
granted (dequeue ∷ calls) = granted calls

enqueue_fails :
    (h : Heap ℤ) (q : Queue) (v : ℤ) (calls : List Call) → run h q (enqueue false v ∷ calls) ≡ fault
unfolding run queue_enqueue
enqueue_fails h q v calls = refl

-- A return before the others.
answers :
    (out : Option ℤ) (b : Bool) (outs : List (Option ℤ))
    → ((if b then done outs else fault) >>= (λ outs. done (out ∷ outs)))
      ≡ (if b then done (out ∷ outs) else fault)
answers out true outs = refl
answers out false outs = refl

-- If `malloc` gives a node in every enqueue, no sequence of calls on a queue that `Queue_Init` or
-- earlier calls have made faults, and none tells it from a first-in first-out list. If `malloc` gives
-- none in one of them, the program ends at the `assert`.
pub run_refines :
    (calls : List Call) (h : Heap ℤ) (q : Queue) (xs : List ℤ)
    → Holds h q xs
    → run h q calls ≡ (if granted calls then done (fifo xs calls) else fault)
unfolding run fifo granted
run_refines [] h q xs held = refl
run_refines (enqueue true v ∷ calls) h q xs held =
    let (h', q', e, held') = queue_enqueue-Holds h q xs v held in
    rw e (run_refines calls h' q' (xs ++ v ∷ []) held')
run_refines (enqueue false v ∷ calls) h q xs held = enqueue_fails h q v calls
run_refines (dequeue ∷ calls) h q [] held =
    rw (queue_dequeue_empty h q held, run_refines calls h q [] held)
      (answers none (granted calls) _)
run_refines (dequeue ∷ calls) h q (x ∷ xs) held =
    let (h', q', e, held') = queue_dequeue-Holds h q x xs held in
    rw (e, run_refines calls h' q' xs held') (answers (some x) (granted calls) _)
