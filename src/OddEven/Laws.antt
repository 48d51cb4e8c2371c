-- ===== src/OddEven/Laws.antt =====
-- Theorems about the odd and even printers.
use ostep_code.Prelude.{
  ℕ, zero, suc, ◌+◌, ◌-◌, ◌/◌, ◌%◌, ◌<◌, ◌≡◌, refl, sym, ap, ◌∙◌, subst, none, some, List, [], ◌∷◌,
  arith,
}
use ostep_code.Threads.{System, goes_here, goes_other, Step, pick, Run, Run-inv}
use ostep_code.OddEven.{Memory, Thread, print_even, print_odd, count_up, step, init}

-- The numbers from 1 to `n`, the last first.
pub counted : ℕ → List ℕ
counted zero = []
counted (suc n) = suc n ∷ counted n

-- What holds of the memory and of the two threads.
pub record Inv (s : System Memory Thread) : Type 0 where
  pub even_left : ℕ
  pub odd_left : ℕ
  pub even : s.pc 0 ≡ print_even even_left
  pub odd : s.pc 1 ≡ print_odd odd_left
  pub even_rounds : (s.mem.counter + 1) / 2 + even_left ≡ 5
  pub odd_rounds : s.mem.counter / 2 + odd_left ≡ 5
  pub in_order : s.mem.printed ≡ counted s.mem.counter

even_lem :
    (m m' : Memory) (p : Thread) (left : ℕ)
    → step m (print_even left) ≡ some (m', p)
    → (0 < left) × (m.counter % 2 ≡ 0) × (m' ≡ count_up m) × (p ≡ print_even (left - 1))
unfolding step
even_lem m m' p left e = ground arith

odd_lem :
    (m m' : Memory) (p : Thread) (left : ℕ)
    → step m (print_odd left) ≡ some (m', p)
    → (0 < left) × (m.counter % 2 ≡ 1) × (m' ≡ count_up m) × (p ≡ print_odd (left - 1))
unfolding step
odd_lem m m' p left e = ground arith

Step-Inv : {s t : System Memory Thread} → Step step 2 s t → Inv s → Inv t
unfolding counted
Step-Inv {s} (pick zero {m} {p} lt e) inv =
    let (pos, parity, f, g) =
      even_lem s.mem m p inv.even_left (subst (λ q. step s.mem q ≡ some (m, p)) inv.even e) in
    let c = ap (λ m. m.counter) f in
    record {
      even_left = inv.even_left - 1;
      odd_left = inv.odd_left;
      even = goes_here s.pc 0 p ∙ g;
      odd = goes_other s.pc 0 1 p (omega arith) ∙ inv.odd;
      even_rounds = omega (arith, inv.even_rounds);
      odd_rounds = omega (arith, inv.odd_rounds);
      in_order =
          ap (λ m. m.printed) f
          ∙ ap (λ ks. suc s.mem.counter ∷ ks) inv.in_order
          ∙ ap counted (sym c);
    }
Step-Inv {s} (pick (suc zero) {m} {p} lt e) inv =
    let (pos, parity, f, g) =
      odd_lem s.mem m p inv.odd_left (subst (λ q. step s.mem q ≡ some (m, p)) inv.odd e) in
    let c = ap (λ m. m.counter) f in
    record {
      even_left = inv.even_left;
      odd_left = inv.odd_left - 1;
      even = goes_other s.pc 1 0 p (omega arith) ∙ inv.even;
      odd = goes_here s.pc 1 p ∙ g;
      even_rounds = omega (arith, inv.even_rounds);
      odd_rounds = omega (arith, inv.odd_rounds);
      in_order =
          ap (λ m. m.printed) f
          ∙ ap (λ ks. suc s.mem.counter ∷ ks) inv.in_order
          ∙ ap counted (sym c);
    }
Step-Inv (pick (suc (suc i)) lt e) inv = absurd (omega arith)

init-Inv : Inv init
unfolding counted
init-Inv = record {
  even_left = 5;
  odd_left = 5;
  even = refl;
  odd = refl;
  even_rounds = refl;
  odd_rounds = refl;
  in_order = refl;
}

blocked :
    (m : Memory) (e o : ℕ)
    → (m.counter + 1) / 2 + e ≡ 5
    → m.counter / 2 + o ≡ 5
    → step m (print_even e) ≡ none
    → step m (print_odd o) ≡ none
    → m.counter ≡ 10
unfolding step
blocked m e o f g se so = ground arith

Run-Inv : {k : ℕ} {s : System Memory Thread} → Run step 2 init k s → Inv s
Run-Inv r = Run-inv step 2 Inv (λ t u st v. Step-Inv st v) init-Inv r

-- However the two threads are scheduled, they have printed 1, 2, 3 and so on in order, up to
-- `counter`.
pub alternate :
    {k : ℕ} {s : System Memory Thread} → Run step 2 init k s → s.mem.printed ≡ counted s.mem.counter
alternate r = (Run-Inv r).in_order

-- A schedule that cannot go on has printed the numbers up to 10: neither thread is left waiting.
pub all_printed :
    {k : ℕ} {s : System Memory Thread}
    → Run step 2 init k s
    → step s.mem (s.pc 0) ≡ none
    → step s.mem (s.pc 1) ≡ none
    → s.mem.printed ≡ counted 10
all_printed {s = s} r e o =
    let inv = Run-Inv r in
    let e' = subst (λ q. step s.mem q ≡ none) inv.even e in
    let o' = subst (λ q. step s.mem q ≡ none) inv.odd o in
    inv.in_order
    ∙ ap counted (blocked s.mem inv.even_left inv.odd_left inv.even_rounds inv.odd_rounds e' o')
