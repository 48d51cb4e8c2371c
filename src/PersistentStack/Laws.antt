-- ===== src/PersistentStack/Laws.antt =====
-- The stack in the file against a stack that is a list.
use ostep_code.Prelude.{
  ℕ, zero, suc, ◌+◌, ◌-◌, ◌/◌, ◌^◌, ◌≤◌, ◌<◌, ◌≡◌, refl, sym, ap, ap₂, ◌∙◌, Option, none, some, ltb,
  leb, if◌then◌else◌, dec_lt, lt→ltb, ℤ, List, [], ◌∷◌, ◌++◌, length, arith,
}
use ostep_code.PersistentStack.{
  header_size, int_size, File, Arg, pop, push, size_after, store, step, print, main,
}

-- How many ints the file has room for.
abbrev pub capacity : ℕ → ℕ
capacity file_size = (file_size - header_size) / int_size

-- The items, the top first.
pub items : (ℕ → ℤ) → ℕ → List ℤ
items f zero = []
items f (suc n) = f n ∷ items f n

-- The file is mapped whole, has its header, and no more items than fit.
pub record IsStack (p : File) : Type 0 where
  pub has_header : header_size ≤ p.file_size
  pub mapped : p.file_size < 2 ^ 62
  pub fits : p.n ≤ capacity p.file_size

items-store : (f : ℕ → ℤ) (v : ℤ) (i n : ℕ) → n ≤ i → items (store f i v) n ≡ items f n
unfolding items
items-store f v i zero h = refl
items-store f v i (suc n) h =
    let other : store f i v n ≡ f n = ground arith in
    ap₂ (λ x xs. x ∷ xs) other (items-store f v i n (omega arith))

-- The stack as a list of at most `c` items.
unfoldable pub list_step : ℕ → List ℤ → Arg → List ℤ × Option ℤ
list_step c [] pop = ([], none)
list_step c (x ∷ xs) pop = (xs, some x)
list_step c xs (push v) = if ltb (length xs) c then (v ∷ xs, none) else (xs, none)

unfoldable pub list_main : ℕ → List ℤ → List Arg → List ℤ × List ℤ
list_main c xs [] = (xs, [])
list_main c xs (a ∷ args) =
    let r = list_step c xs a in let rest = list_main c r.0 args in (rest.0, print r.1 rest.1)

length-items : (f : ℕ → ℤ) (n : ℕ) → length (items f n) ≡ n
unfolding items
length-items f zero = refl
length-items f (suc n) = ap suc (length-items f n)

-- The test for room says whether one more int fits.
room :
    (n s : ℕ)
    → header_size ≤ s
    → s < 2 ^ 62
    → n ≤ capacity s
    → leb (size_after n) s ≡ ltb n (capacity s)
room n s h k l = ground arith

items_zero : (f : ℕ → ℤ) → items f 0 ≡ []
unfolding items
items_zero f = refl

items_pop : (f : ℕ → ℤ) (n : ℕ) → 0 < n → items f n ≡ f (n - 1) ∷ items f (n - 1)
unfolding items
items_pop f zero h = absurd (omega arith)
items_pop f (suc n) h = let e : suc n - 1 ≡ n = omega arith in ap (λ k. f k ∷ items f k) (sym e)

items_push : (f : ℕ → ℤ) (n : ℕ) (v : ℤ) → items (store f n v) (n + 1) ≡ v ∷ items f n
unfolding items
items_push f n v =
    let e : n + 1 ≡ suc n = omega arith in
    let top : store f n v n ≡ v = ground arith in
    ap (items (store f n v)) e ∙ ap₂ (λ x xs. x ∷ xs) top (items-store f v n n (omega arith))

-- One argument does the same to the file and to the list.
step_same :
    (p : File) (a : Arg)
    → IsStack p
    → IsStack ((step p a).0)
      × (list_step (capacity p.file_size) (items p.stack p.n) a
          ≡ (items ((step p a).0.stack) ((step p a).0.n), (step p a).1))
      × ((step p a).0.file_size ≡ p.file_size)
unfolding step list_step
step_same p pop h = elim (dec_lt 0 p.n) [
  | yes some_left ↦ ground (arith, items_pop p.stack p.n some_left)
  | no none_left ↦ ground (arith, items_zero p.stack)
]
step_same p (push v) h = elim (dec_lt p.n (capacity p.file_size)) [
  | yes fits ↦ ground (
    arith,
    room p.n p.file_size h.has_header h.mapped h.fits,
    length-items p.stack p.n,
    items_push p.stack p.n v,
  )
  | no full ↦
      ground (arith, room p.n p.file_size h.has_header h.mapped h.fits, length-items p.stack p.n)
]

-- Whatever the arguments, the program prints what a stack of bounded height prints, and leaves its
-- items in the file.
pub main_refines :
    (args : List Arg) (p : File)
    → IsStack p
    → IsStack ((main p args).0)
      × (list_main (capacity p.file_size) (items p.stack p.n) args
          ≡ (items ((main p args).0.stack) ((main p args).0.n), (main p args).1))
unfolding main list_main
main_refines [] p h = (h, refl)
main_refines (a ∷ args) p h =
    let (stack, same, size) = step_same p a h in
    let (rest, rest_same) = main_refines args ((step p a).0) stack in
    (rest, ground (arith, same, size, rest_same))

-- Pushes of the values, and then as many pops.
unfoldable pub push_then_pop : List ℤ → List Arg
push_then_pop [] = []
push_then_pop (v ∷ vs) = push v ∷ (push_then_pop vs ++ pop ∷ [])

unfoldable pub backwards : List ℤ → List ℤ
backwards [] = []
backwards (v ∷ vs) = backwards vs ++ v ∷ []

print_snoc : (r : Option ℤ) (out : List ℤ) (v : ℤ) → print r (out ++ v ∷ []) ≡ print r out ++ v ∷ []
print_snoc none out v = refl
print_snoc (some x) out v = refl

-- A pop behind arguments that leave a value on top prints it last.
list_main-pop :
    (c : ℕ) (args : List Arg) (xs ys : List ℤ) (v : ℤ)
    → (list_main c xs args).0 ≡ v ∷ ys
    → list_main c xs (args ++ pop ∷ []) ≡ (ys, (list_main c xs args).1 ++ v ∷ [])
unfolding list_main list_step
list_main-pop c [] xs ys v e =
    ap (λ xs. ((list_step c xs pop).0, print (list_step c xs pop).1 [])) e
list_main-pop c (a ∷ args) xs ys v e =
    let r = list_step c xs a in
    let rest = list_main-pop c args r.0 ys v e in
    ap (λ m. (m.0, print r.1 m.1)) rest
    ∙ ap (λ out. (ys, out)) (print_snoc r.1 ((list_main c r.0 args).1) v)

list_main-push_then_pop :
    (c : ℕ) (vs xs : List ℤ)
    → length xs + length vs ≤ c
    → list_main c xs (push_then_pop vs) ≡ (xs, backwards vs)
unfolding push_then_pop backwards list_main list_step
list_main-push_then_pop c [] xs h = refl
list_main-push_then_pop c (v ∷ vs) xs h =
    let rest = list_main-push_then_pop c vs (v ∷ xs) (omega arith) in
    let popped =
      list_main-pop c (push_then_pop vs) (v ∷ xs) xs v (ap (λ m. m.0) rest)
      ∙ ap (λ m. (xs, m.1 ++ v ∷ [])) rest in
    rw (lt→ltb (length xs) c (omega arith)) popped

-- Values that fit are pushed, and popped again in the opposite order; the items that were there
-- stay.
pub main-push_then_pop :
    (vs : List ℤ) (p : File)
    → IsStack p
    → p.n + length vs ≤ capacity p.file_size
    → ((main p (push_then_pop vs)).1 ≡ backwards vs)
      × (items ((main p (push_then_pop vs)).0.stack) ((main p (push_then_pop vs)).0.n)
          ≡ items p.stack p.n)
main-push_then_pop vs p h fits =
    let same = (main_refines (push_then_pop vs) p h).1 in
    let back =
      list_main-push_then_pop (capacity p.file_size) vs (items p.stack p.n)
        (omega (arith, length-items p.stack p.n)) in
    let e = sym same ∙ back in (ap (λ m. m.1) e, ap (λ m. m.0) e)
