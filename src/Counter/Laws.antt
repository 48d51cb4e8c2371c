-- ===== src/Counter/Laws.antt =====
-- Theorems about the two counters.
use ostep_code.Prelude.{
  ℕ, zero, suc, ◌+◌, ◌-◌, ◌%◌, ◌^◌, ◌≤◌, ◌<◌, ◌≡◌, ◌≢◌, refl, sym, ap, ◌∙◌, none, some, arith, ℤ,
  pos, negsuc, add_one, sub_one,
}
use ostep_code.Threads.{total, total-zero, System, Run}
use ostep_code.Threads.Sums.{Shift, sums, sum-inv, stuck-zero, zero-all}
use ostep_code.Counter.{
  CounterT, init_counter, Call, increment, decrement, get, Point, lock, access, unlock, over,
  changed, step, init_calls, fetch_add, fetch_sub,
}

-- `a` less `b`
pub minus : ℕ → ℕ → ℤ
minus a zero = pos a
minus a (suc b) = sub_one (minus a b)

sub-add_one : (v : ℤ) → sub_one (add_one v) ≡ add_one (sub_one v)
sub-add_one (pos zero) = refl
sub-add_one (pos (suc n)) = refl
sub-add_one (negsuc zero) = refl
sub-add_one (negsuc (suc n)) = refl

minus-suc : (a b : ℕ) → minus (suc a) b ≡ add_one (minus a b)
unfolding minus
minus-suc a zero = refl
minus-suc a (suc b) = ap sub_one (minus-suc a b) ∙ sub-add_one (minus a b)

-- Calls of `increment` and of `decrement` past their access.
abbrev pub increments : Point → ℕ
increments (unlock increment rc) = 1
increments (over increment rc) = 1
increments _ = 0

abbrev pub decrements : Point → ℕ
decrements (unlock decrement rc) = 1
decrements (over decrement rc) = 1
decrements _ = 0

abbrev held : Point → ℕ
held (access c) = 1
held (unlock c rc) = 1
held _ = 0

data Sum : Type 0 where
  of_increments of_decrements of_held : Sum

abbrev weights : Sum → Point → ℕ
weights of_increments = increments
weights of_decrements = decrements
weights of_held = held

record Inv (m : CounterT) (t : Sum → ℕ) : Type 0 where
  permits : m.lock + t of_held ≡ 1
  counted : m.value ≡ minus (t of_increments) (t of_decrements)

keep_value :
    (c : Call) (v : ℤ) (a b a' b' : ℕ)
    → v ≡ minus a b
    → a' ≡ a + increments (unlock c v)
    → b' ≡ b + decrements (unlock c v)
    → changed c v ≡ minus a' b'
unfolding minus
keep_value increment v a b a' b' e f g =
    let up : a' ≡ suc a = omega arith in
    let same : b' ≡ b = omega arith in rw (e, up, same) (sym (minus-suc a b))
keep_value decrement v a b a' b' e f g =
    let same : a' ≡ a = omega arith in let up : b' ≡ suc b = omega arith in rw (e, same, up) refl
keep_value get v a b a' b' e f g =
    let same_a : a' ≡ a = omega arith in let same_b : b' ≡ b = omega arith in rw (same_a, same_b) e

-- The access of a call is counted once the call is past it.
past_access :
    (c : Call) (rc : ℤ)
    → (increments (unlock c rc) ≡ increments (over c rc))
      × (decrements (unlock c rc) ≡ decrements (over c rc))
past_access increment rc = (refl, refl)
past_access decrement rc = (refl, refl)
past_access get rc = (refl, refl)

-- What a step from `p` to `q` does to the sums.
record Moved (p q : Point) (t t' : Sum → ℕ) : Type 0 where
  part_held : held p ≤ t of_held
  new_held : t' of_held + held p ≡ t of_held + held q
  new_increments : t' of_increments + increments p ≡ t of_increments + increments q
  new_decrements : t' of_decrements + decrements p ≡ t of_decrements + decrements q

moved : {n : ℕ} (p q : Point) (t t' : Sum → ℕ) → Shift step n weights p q t t' → Moved p q t t'
moved p q t t' h = record {
  part_held = h.part of_held;
  new_held = h.change of_held;
  new_increments = h.change of_increments;
  new_decrements = h.change of_decrements;
}

same_sums :
    (t t' : Sum → ℕ) (v : ℤ)
    → t' of_increments ≡ t of_increments
    → t' of_decrements ≡ t of_decrements
    → v ≡ minus (t of_increments) (t of_decrements)
    → v ≡ minus (t' of_increments) (t' of_decrements)
same_sums t t' v a b e = rw (a, b) e

keep_access :
    (m : CounterT) (c : Call) (t t' : Sum → ℕ)
    → Moved (access c) (unlock c m.value) t t'
    → Inv m t
    → Inv (record m { value = changed c m.value }) t'
keep_access m c t t' h j = record {
  permits = omega (arith, h, j);
  counted =
      keep_value c m.value (t of_increments) (t of_decrements) (t' of_increments) (t' of_decrements)
        j.counted (omega (arith, h.new_increments)) (omega (arith, h.new_decrements));
}

keep :
    (m m' : CounterT) (p q : Point) (t t' : Sum → ℕ)
    → step m p ≡ some (m', q)
    → Moved p q t t'
    → Inv m t
    → Inv m' t'
unfolding step
keep m m' (lock c) q t t' e h j = ground (arith, same_sums t t' m.value)
keep m m' (access c) q t t' e h j = ground (arith, keep_access m c t t')
keep m m' (unlock c rc) q t t' e h j = ground (arith, same_sums t t' m.value, past_access c rc)
keep m m' (over c rc) q t t' e h j = ground arith

-- The points that can always be left, and those that wait for the lock.
abbrev free : Point → ℕ
free (access c) = 1
free (unlock c rc) = 1
free _ = 0

abbrev waiting : Point → ℕ
waiting (lock c) = 1
waiting _ = 0

live : (m : CounterT) (p : Point) → 0 < free p → step m p ≢ none
unfolding step
live m p h = ground arith

live_waiting : (m : CounterT) (p : Point) → 0 < m.lock → 0 < waiting p → step m p ≢ none
unfolding step
live_waiting m p k h = ground arith

abbrev pub IsOver : Point → Type 0
IsOver (over c rc) = Unit
IsOver _ = ⊥

returned : (p : Point) → free p ≡ 0 → waiting p ≡ 0 → IsOver p
returned p h k = ground arith

free-held : (p : Point) → free p ≡ 0 → held p ≡ 0
free-held p h = ground arith

begin : (n : ℕ) (calls : ℕ → Call) → Inv init_counter (sums step n weights (λ i. lock (calls i)))
unfolding minus
begin n calls = record {
  permits = omega (arith, total-zero held n (λ i. lock (calls i)) (λ i lt. refl));
  counted =
      same_sums (λ a. 0) (sums step n weights (λ i. lock (calls i))) (pos 0)
        (total-zero increments n (λ i. lock (calls i)) (λ i lt. refl))
        (total-zero decrements n (λ i. lock (calls i)) (λ i lt. refl)) refl;
}

module _ (n : ℕ) (calls : ℕ → Call) {k : ℕ} {s : System CounterT Point}
    (r : Run step n (init_calls calls) k s) where
  reached : Inv s.mem (sums step n weights s.pc)
  reached =
      sum-inv step n weights Inv (λ m m' p q t t' e h. keep m m' p q t t' e (moved p q t t' h))
        (begin n calls) r

  -- The value is the increments less the decrements that have accessed it.
  pub counter_value : s.mem.value ≡ minus (total increments n s.pc) (total decrements n s.pc)
  counter_value = reached.counted

  -- Where no thread has a step, all have returned.
  pub counter_complete :
      ((i : ℕ) → i < n → step s.mem (s.pc i) ≡ none) → (i : ℕ) → i < n → IsOver (s.pc i)
  counter_complete stuck i lt =
      let none_free = zero-all free n s.pc (stuck-zero step n s stuck free (live s.mem)) in
      let none_held = total-zero held n s.pc (λ i lt. free-held (s.pc i) (none_free i lt)) in
      let is_open : 0 < s.mem.lock = omega (arith, reached.permits, none_held) in
      let none_waits = stuck-zero step n s stuck waiting (λ p. live_waiting s.mem p is_open) in
      returned (s.pc i) (none_free i lt) (zero-all waiting n s.pc none_waits i lt)

-- A fetch_sub takes back a fetch_add, whatever the number, and returns the next.
pub fetch_sub-fetch_add :
    (count : ℕ) → count < 2 ^ 32 → fetch_sub ((fetch_add count).0) ≡ (count, (count + 1) % 2 ^ 32)
fetch_sub-fetch_add count h =
    let back : ((count + 1) % 2 ^ 32 + (2 ^ 32 - 1)) % 2 ^ 32 ≡ count = omega arith in
    ap (λ c. (c, (count + 1) % 2 ^ 32)) back
