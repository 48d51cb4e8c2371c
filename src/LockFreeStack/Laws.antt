-- ===== src/LockFreeStack/Laws.antt =====
-- The stack of nodes against a last-in first-out list.
use ostep_code.Prelude.{
  ℕ, ◌<◌, ◌≡◌, refl, sym, ◌∙◌, subst, Bool, true, false, Option, none, some, ℤ, pos, List, [], ◌∷◌,
  arith, IsLucky,
}
use ostep_code.Heap.{Outcome, done, Ptr, Node, alloc, store_at, IsTidy, ◌>>=◌}
use ostep_code.LockFreeStack.{Lfs, empty_stack, same_ptr, push, push_loop, pop, pop_loop}

abbrev pub Below : Ptr → ℕ → Type 0
Below none a = Unit
Below (some b) a = b < a

-- From `p` on the nodes hold the values `xs`, and lie at ever lower addresses.
abbrev pub Pile : (ℕ → Option (Node ℤ)) → Ptr → List ℤ → Type 0
Pile f p [] = p ≡ none
Pile f p (x ∷ xs) =
    (a : ℕ) × (next : Ptr) × (p ≡ some a)
    × (f a ≡ some (record { value = x; next = next }))
    × Below next a
    × Pile f next xs

Below-trans : (p : Ptr) (a b : ℕ) → Below p a → a < b → Below p b
Below-trans none a b l lt = tt
Below-trans (some c) a b l lt = omega arith

-- A pile below an address stands as long as the cells below it stay.
Below-Pile :
    (f g : ℕ → Option (Node ℤ)) (bound : ℕ) (p : Ptr) (xs : List ℤ)
    → ((q : ℕ) → q < bound → g q ≡ f q)
    → Below p bound
    → Pile f p xs
    → Pile g p xs
Below-Pile f g bound p [] same l pile = pile
Below-Pile f g bound p (x ∷ xs) same l (a, next, e, c, low, rest) =
    let lt : a < bound = subst (λ q. Below q bound) e l in
    (
      a,
      next,
      e,
      same a lt ∙ c,
      low,
      Below-Pile f g bound next xs same (Below-trans next a bound low lt) rest,
    )

-- The stack holds `xs`, the top first.
pub record Holds (s : Lfs) (xs : List ℤ) : Type 0 where
  pub tidy : IsTidy s.heap
  pub pile : Pile s.heap.cell s.head xs
  pub low : Below s.head s.heap.fresh

same_ptr_self : (p : Ptr) → same_ptr p p ≡ true
same_ptr_self none = refl
same_ptr_self (some p) = ground arith

-- The new node stands above the stack and points to its top.
record Ready (s : Lfs) (a : ℕ) (v : ℤ) (xs : List ℤ) : Type 0 where
  tidy : IsTidy s.heap
  pile : Pile s.heap.cell s.head xs
  made : s.heap.cell a ≡ some (record { value = v; next = s.head })
  above : Below s.head a
  taken : a < s.heap.fresh

relinked : Lfs → ℕ → ℤ → Lfs
relinked s a v = record s {
  heap = record s.heap {
    cell = store_at s.heap.cell a (some (record { value = v; next = s.head }));
  };
}

relinked-Ready :
    (s : Lfs) (a : ℕ) (v : ℤ) (xs : List ℤ) → Ready s a v xs → Ready (relinked s a v) a v xs
unfolding relinked
relinked-Ready s a v xs r = record {
  tidy = λ p le. ground (arith, r.tidy p le, r.taken);
  pile = Below-Pile s.heap.cell _ a s.head xs (λ q lt. ground arith) r.above r.pile;
  made = ground arith;
  above = r.above;
  taken = r.taken;
}

push_loop_lem :
    (rounds : List Bool) (s : Lfs) (a : ℕ) (v : ℤ) (xs : List ℤ)
    → Ready s a v xs
    → IsLucky rounds
    → (s' : Lfs) × (push_loop rounds s a ≡ done s') × Holds s' (v ∷ xs)
unfolding push_loop relinked
push_loop_lem [] s a v xs r l = absurd l
push_loop_lem (true ∷ rest) s a v xs r l = (
  record s { head = some a },
  ground (arith, r.made, same_ptr_self s.head),
  record { tidy = r.tidy; pile = (a, s.head, refl, r.made, r.above, r.pile); low = r.taken },
)
push_loop_lem (false ∷ rest) s a v xs r l =
    let (s', e, h) = push_loop_lem rest (relinked s a v) a v xs (relinked-Ready s a v xs r) l in
    (s', ground (arith, r.made, e), h)

-- A push that may succeed in one of its rounds puts the value on top.
pub push-Holds :
    (rounds : List Bool) (s : Lfs) (v : ℤ) (xs : List ℤ)
    → Holds s xs
    → IsLucky rounds
    → (s' : Lfs) × (push rounds s v ≡ done s') × Holds s' (v ∷ xs)
unfolding push relinked
push-Holds rounds s v xs h l =
    let a = s.heap.fresh in
    let made = record s { heap = alloc s.heap (record { value = v; next = none }) } in
    let ready : Ready (relinked made a v) a v xs = record {
      tidy = λ p le. ground (arith, h.tidy p);
      pile = Below-Pile s.heap.cell _ a s.head xs (λ q lt. ground arith) h.low h.pile;
      made = ground arith;
      above = h.low;
      taken = omega arith;
    } in
    let (s', e, held) = push_loop_lem rounds (relinked made a v) a v xs ready l in
    (s', ground (arith, e), held)

-- A pop that may succeed in one of its rounds takes the top off, and frees its node.
pub pop-Holds :
    (rounds : List Bool) (s : Lfs) (x : ℤ) (xs : List ℤ)
    → Holds s (x ∷ xs)
    → IsLucky rounds
    → (s' : Lfs) × (pop rounds s ≡ done (s', x)) × Holds s' xs
unfolding pop pop_loop
pop-Holds rounds s x xs h l =
    let (a, next, e, c, low, rest) = h.pile in
    let lt : a < s.heap.fresh = subst (λ q. Below q s.heap.fresh) e h.low in
    let freed = record s.heap { cell = store_at s.heap.cell a none } in
    (
      record { heap = freed; head = next },
      subst (λ p. pop_loop rounds s p ≡ done (record { heap = freed; head = next }, x)) (sym e)
          (go a next e c rounds l),
      record {
        tidy = λ p le. ground (arith, h.tidy p le);
        pile = Below-Pile s.heap.cell _ a next xs (λ q less. ground arith) low rest;
        low = Below-trans next a s.heap.fresh low lt;
      },
    )
  where
    go :
        (a : ℕ) (next : Ptr)
        → s.head ≡ some a
        → s.heap.cell a ≡ some (record { value = x; next = next })
        → (rounds : List Bool) → IsLucky rounds
        → pop_loop rounds s (some a)
          ≡ done (
            record { heap = record s.heap { cell = store_at s.heap.cell a none }; head = next },
            x,
          )
    go a next e c [] l = absurd l
    go a next e c (true ∷ rest) l = ground (arith, e, c)
    go a next e c (false ∷ rest) l = ground (arith, e, c, go a next e c rest l)

-- On an empty stack the value is 0, in the first round.
pub pop_empty :
    (cas : Bool) (rest : List Bool) (s : Lfs) → Holds s [] → pop (cas ∷ rest) s ≡ done (s, pos 0)
unfolding pop pop_loop
pop_empty cas rest s h = rw h.pile refl

-- A client's calls, each with the outcomes of its exchanges.
pub data Call : Type 0 where
  pushing : List Bool → ℤ → Call
  popping : List Bool → Call

abbrev pub IsThrough : Call → Type 0
IsThrough (pushing rounds v) = IsLucky rounds
IsThrough (popping rounds) = IsLucky rounds

abbrev pub AllThrough : List Call → Type 0
AllThrough [] = Unit
AllThrough (c ∷ cs) = IsThrough c × AllThrough cs

-- What the pops of the calls return.
unfoldable pub run : Lfs → List Call → Outcome (List ℤ)
run s [] = done []
run s (pushing rounds v ∷ cs) = do s' ← push rounds s v; run s' cs
run s (popping rounds ∷ cs) = do (s', out) ← pop rounds s; outs ← run s' cs; done (out ∷ outs)

pub lifo : List ℤ → List Call → List ℤ
lifo xs [] = []
lifo xs (pushing rounds v ∷ cs) = lifo (v ∷ xs) cs
lifo [] (popping rounds ∷ cs) = pos 0 ∷ lifo [] cs
lifo (x ∷ xs) (popping rounds ∷ cs) = x ∷ lifo xs cs

-- No sequence of calls faults, if each may succeed in one of its rounds: the pops return what
-- those of a last-in first-out list do, and 0 where that is empty.
pub stack_refines :
    (cs : List Call) (s : Lfs) (xs : List ℤ)
    → Holds s xs
    → AllThrough cs
    → run s cs ≡ done (lifo xs cs)
unfolding run lifo
stack_refines [] s xs h t = refl
stack_refines (pushing rounds v ∷ cs) s xs h (l, t) =
    let (s', e, held) = push-Holds rounds s v xs h l in
    rw (e, stack_refines cs s' (v ∷ xs) held t) refl
stack_refines (popping [] ∷ cs) s [] h (l, t) = absurd l
stack_refines (popping (cas ∷ rest) ∷ cs) s [] h (l, t) =
    rw (pop_empty cas rest s h, stack_refines cs s [] h t) refl
stack_refines (popping rounds ∷ cs) s (x ∷ xs) h (l, t) =
    let (s', e, held) = pop-Holds rounds s x xs h l in rw (e, stack_refines cs s' xs held t) refl

pub empty_stack-Holds : Holds empty_stack []
empty_stack-Holds = record { tidy = λ p le. refl; pile = refl; low = tt }
