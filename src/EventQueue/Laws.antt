-- ===== src/EventQueue/Laws.antt =====
-- Theorems about the event queue: what comes of a post.
use ostep_code.Prelude.{◌≡◌, refl, ◌⊎◌, inl, inr, Bool, true, false, List, [], ◌∷◌, arith}
use ostep_code.EventQueue.{
  removing, EventQueue, subscribe_to_event, post_event, call_next, forward, Step, posting,
  forwarding, halt_all, subscribing, letting_go, step,
}

unfoldable pub steps : List Step → EventQueue → EventQueue
steps [] q = q
steps (s ∷ ss) q = steps ss (step s q)

-- Whether the forwarding thread starts to trigger the subscribers in one of the steps.
pub answered : List Step → EventQueue → Bool
answered [] q = false
answered (forwarding ∷ ss) q = elim q.place [
  | removing ↦ true
  | _ ↦ answered ss (step forwarding q)
]
answered (s ∷ ss) q = answered ss (step s q)

-- An event is pending, or about to be answered.
abbrev pub IsOwed : EventQueue → Type 0
IsOwed q = (q.pending_event ≡ true) ⊎ (q.place ≡ removing)

step-IsOwed :
    (s : Step) (q : EventQueue) → IsOwed q → (answered (s ∷ []) q ≡ true) ⊎ IsOwed (step s q)
unfolding answered step forward call_next subscribe_to_event
step-IsOwed posting q o = ground arith
step-IsOwed forwarding q o = ground arith
step-IsOwed halt_all q o = ground arith
step-IsOwed (subscribing h) q o = ground arith
step-IsOwed (letting_go h) q o = ground arith

answered-cons :
    (s : Step) (ss : List Step) (q : EventQueue)
    → answered (s ∷ []) q ≡ true
    → answered (s ∷ ss) q ≡ true
unfolding answered
answered-cons posting ss q a = ground arith
answered-cons forwarding ss q a = ground arith
answered-cons halt_all ss q a = ground arith
answered-cons (subscribing h) ss q a = ground arith
answered-cons (letting_go h) ss q a = ground arith

answered-later :
    (s : Step) (ss : List Step) (q : EventQueue)
    → answered ss (step s q) ≡ true
    → answered (s ∷ ss) q ≡ true
unfolding answered
answered-later posting ss q a = a
answered-later forwarding ss q a = ground arith
answered-later halt_all ss q a = a
answered-later (subscribing h) ss q a = a
answered-later (letting_go h) ss q a = a

stay-IsOwed :
    (ss : List Step) (q : EventQueue) → IsOwed q → (answered ss q ≡ true) ⊎ IsOwed (steps ss q)
unfolding steps
stay-IsOwed [] q o = inr o
stay-IsOwed (s ∷ ss) q o = elim (step-IsOwed s q o) [
  | inl a ↦ inl (answered-cons s ss q a)
  | inr o' ↦ elim (stay-IsOwed ss (step s q) o') [
    | inl a ↦ inl (answered-later s ss q a)
    | inr kept ↦ inr kept
  ]
]

-- No event is lost, wherever the forwarding thread stands when it is posted, in the middle of a
-- trigger too, and whatever all threads do afterwards: a trigger of all subscribers has started
-- since, or the event is still pending, or the forwarding thread stands before the start of one.
pub event_kept :
    (ss : List Step) (q : EventQueue)
    → (answered ss (post_event q) ≡ true)
      ⊎ ((steps ss (post_event q)).pending_event ≡ true)
      ⊎ ((steps ss (post_event q)).place ≡ removing)
event_kept ss q = stay-IsOwed ss (post_event q) (inl refl)
