-- ===== src/EventQueue/Trigger.antt =====
-- What the forwarding thread of the event queue does when no other thread comes in between.
use ostep_code.Prelude.{
  ℕ, suc, zero, ◌+◌, length, append_assoc, sym, ◌∙◌, append-nil, ◌≤◌, ◌≡◌, refl, ap, Bool, true,
  false, List, [], ◌∷◌, ◌++◌, arith,
}
use ostep_code.EventQueue.{
  Place, testing, sleeping, resetting, removing, calling, EventQueue, remove_expired, call_each,
  trigger_subscribers, call_next, forward,
}

-- The subscribers whose handlers are kept, in the order in which they subscribed.
abbrev pub live : EventQueue → List ℕ
live q = remove_expired q.expired q.subscribers

call_each-remove_expired :
    (expired : ℕ → Bool) (hs : List ℕ)
    → call_each expired (remove_expired expired hs) ≡ remove_expired expired hs
unfolding call_each remove_expired
call_each-remove_expired expired [] = refl
call_each-remove_expired expired (h ∷ hs) =
    let ih = call_each-remove_expired expired hs in ground arith

-- A trigger calls every live subscriber once, in the order of subscription, and keeps these.
pub trigger_subscribers_lem :
    (q : EventQueue)
    → trigger_subscribers q ≡ record q { subscribers = live q; called = q.called ++ live q }
unfolding trigger_subscribers remove_expired
trigger_subscribers_lem q =
    ap (λ hs. record q { subscribers = live q; called = q.called ++ hs })
      (call_each-remove_expired q.expired q.subscribers)

-- The subscribers that a running trigger has not come to.
abbrev pub to_call : Place → List ℕ
to_call (calling hs) = hs
to_call _ = []

unfoldable pub forwards : ℕ → EventQueue → EventQueue
forwards zero q = q
forwards (suc n) q = forwards n (forward q)

-- The first of `m` steps.
first :
    {m n : ℕ} (q : EventQueue) {q' : EventQueue}
    → m ≡ suc n
    → forward q ≡ q'
    → forwards m q ≡ forwards n q'
unfolding forwards
first {n} q e f = ap (λ k. forwards k q) e ∙ ap (forwards n) f

next_called :
    (h : ℕ) (hs : List ℕ) (q : EventQueue)
    → q.place ≡ calling (h ∷ hs)
    → forward q ≡ record q { called = q.called ++ call_each q.expired (h ∷ []); place = calling hs }
unfolding forward call_next call_each
next_called h hs q e = ground (arith, append-nil q.called)

call_each-cons :
    (expired : ℕ → Bool) (h : ℕ) (hs : List ℕ)
    → call_each expired (h ∷ hs) ≡ call_each expired (h ∷ []) ++ call_each expired hs
unfolding call_each
call_each-cons expired h hs = ground arith

-- A running trigger comes to its end.
called_out :
    (hs : List ℕ) (q : EventQueue)
    → q.place ≡ calling hs
    → forwards (length hs + 1) q
      ≡ record q { called = q.called ++ call_each q.expired hs; place = testing }
unfolding forwards forward call_next call_each
called_out [] q e = ground (arith, append-nil q.called)
called_out (h ∷ hs) q e =
    let q' = record q { called = q.called ++ call_each q.expired (h ∷ []); place = calling hs } in
    first {m = length (h ∷ hs) + 1} {n = length hs + 1} q (omega arith) (next_called h hs q e)
    ∙ called_out hs q' refl
    ∙ ap (λ called. record q { called = called; place = testing })
        (append_assoc q.called _ _
          ∙ ap (λ hs. q.called ++ hs) (sym (call_each-cons q.expired h hs)))

removed :
    (q : EventQueue)
    → q.place ≡ removing
    → forward q ≡ record q { subscribers = live q; place = calling (live q) }
unfolding forward
removed q e = ground arith

-- A trigger that nothing comes in between of.
triggered :
    (q : EventQueue)
    → q.place ≡ removing
    → forwards (length (live q) + 2) q ≡ record (trigger_subscribers q) { place = testing }
unfolding trigger_subscribers remove_expired
triggered q e =
    first {n = length (live q) + 1} q (omega arith) (removed q e)
    ∙ called_out (live q) (record q { subscribers = live q; place = calling (live q) }) refl

reset :
    (q : EventQueue)
    → q.place ≡ resetting
    → forward q ≡ record q { pending_event = false; place = removing }
unfolding forward
reset q e = ground arith

slept :
    (q : EventQueue)
    → q.place ≡ sleeping
    → q.pending_event ≡ true
    → forward q ≡ record q { place = resetting }
unfolding forward
slept q e p = ground arith

tested :
    (q : EventQueue)
    → q.place ≡ testing
    → q.halting ≡ false
    → forward q ≡ record q { place = sleeping }
unfolding forward
tested q e h = ground arith

forwards-add : (m n : ℕ) (q : EventQueue) → forwards (m + n) q ≡ forwards n (forwards m q)
unfolding forwards
forwards-add zero n q = let e : 0 + n ≡ n = omega arith in ap (λ k. forwards k q) e
forwards-add (suc m) n q =
    first {m = suc m + n} {n = m + n} q (omega arith) refl ∙ forwards-add m n (forward q)

-- In at most `k` steps, if nothing comes in between, the thread makes the calls `hs`.
abbrev pub Makes : ℕ → EventQueue → List ℕ → Type 0
Makes k q hs = (n : ℕ) × (n ≤ k) × ((forwards n q).called ≡ q.called ++ hs)

Makes-step :
    (k : ℕ) (q q' : EventQueue) (hs : List ℕ)
    → forward q ≡ q'
    → q'.called ≡ q.called
    → Makes k q' hs
    → Makes (k + 1) q hs
unfolding forwards
Makes-step k q q' hs e f (n, le, g) =
    (suc n, omega arith, ap (λ r. (forwards n r).called) e ∙ g ∙ ap (λ called. called ++ hs) f)

pub Makes-removing : (q : EventQueue) → q.place ≡ removing → Makes (length (live q) + 2) q (live q)
unfolding trigger_subscribers
Makes-removing q e = (
  length (live q) + 2,
  omega arith,
  ap (λ r. r.called) (triggered q e)
      ∙ ap (λ hs. q.called ++ hs) (call_each-remove_expired q.expired q.subscribers),
)

pub Makes-resetting :
    (q : EventQueue) → q.place ≡ resetting → Makes (length (live q) + 2 + 1) q (live q)
Makes-resetting q e =
    let q' = record q { pending_event = false; place = removing } in
    Makes-step (length (live q) + 2) q q' (live q) (reset q e) refl (Makes-removing q' refl)

pub Makes-sleeping :
    (q : EventQueue)
    → q.place ≡ sleeping
    → q.pending_event ≡ true
    → Makes (length (live q) + 2 + 1 + 1) q (live q)
Makes-sleeping q e p =
    let q' = record q { place = resetting } in
    Makes-step (length (live q) + 2 + 1) q q' (live q) (slept q e p) refl (Makes-resetting q' refl)

pub Makes-testing :
    (q : EventQueue)
    → q.place ≡ testing
    → q.halting ≡ false
    → q.pending_event ≡ true
    → Makes (length (live q) + 2 + 1 + 1 + 1) q (live q)
Makes-testing q e h p =
    let q' = record q { place = sleeping } in
    Makes-step (length (live q) + 2 + 1 + 1) q q' (live q) (tested q e h) refl
      (Makes-sleeping q' refl p)

pub Makes-calling :
    (hs : List ℕ) (q : EventQueue)
    → q.place ≡ calling hs
    → q.halting ≡ false
    → q.pending_event ≡ true
    → Makes (length hs + length (live q) + 6) q (call_each q.expired hs ++ live q)
Makes-calling hs q e h p =
    let calls = call_each q.expired hs in
    let q' = record q { called = q.called ++ calls; place = testing } in
    let (n, le, f) = Makes-testing q' refl h p in
    (
      length hs + 1 + n,
      omega arith,
      ap (λ r. r.called) (forwards-add (length hs + 1) n q ∙ ap (forwards n) (called_out hs q e))
          ∙ f
          ∙ append_assoc q.called calls (live q),
    )

pub Makes-le : (k k' : ℕ) (q : EventQueue) (hs : List ℕ) → k ≤ k' → Makes k q hs → Makes k' q hs
Makes-le k k' q hs le (n, lt, e) = (n, omega arith, e)
