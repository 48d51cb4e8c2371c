-- ===== src/EventQueue.antt =====
-- threads-locks/other-problems/call-backs/EventQueue/: subscribers that a thread calls back when
-- an event has been posted. A subscriber is named by a number; its handler, a `shared_ptr` that
-- the caller keeps, is expired once the caller has let it go.
pub mod Trigger
pub mod Laws
mod Tests
use ostep_code.Prelude.{
  ℕ, Bool, true, false, Option, none, some, if◌then◌else◌, List, [], ◌∷◌, ◌++◌, ite, ℕ_discrete,
}

-- Where the forwarding thread stands in `run_forwardThread`: at the test of `halting_`, in
-- `wait_for`, before the reset of `pending_event_`, before the `remove_if` of `triggerSubscribers`,
-- before the call of the first of the subscribers that `for_each` has not come to, or past the
-- loop. It holds `mutex` but in `wait_for` and past the loop.
pub data Place : Type 0 where
  testing sleeping resetting removing ended : Place
  calling : List ℕ → Place

-- The members. `expired` tells the handlers that are let go, `called` is the calls made so far.
pub record EventQueue : Type 0 where
  pub pending_event : Bool
  pub halting : Bool
  pub subscribers : List ℕ
  pub expired : ℕ → Bool
  pub place : Place
  pub called : List ℕ

abbrev pub event_queue : EventQueue
event_queue = record {
  pending_event = false;
  halting = false;
  subscribers = [];
  expired = λ h. false;
  place = testing;
  called = [];
}

-- `remove_if` of the expired ones.
pub remove_expired : (ℕ → Bool) → List ℕ → List ℕ
remove_expired expired [] = []
remove_expired expired (h ∷ hs) =
    let rest = remove_expired expired hs in if expired h then rest else h ∷ rest

-- `for_each` with `lock`, which gives no pointer for an expired one.
pub call_each : (ℕ → Bool) → List ℕ → List ℕ
call_each expired [] = []
call_each expired (h ∷ hs) = let rest = call_each expired hs in if expired h then rest else h ∷ rest

-- `triggerSubscribers` when nothing comes in between.
unfoldable pub trigger_subscribers : EventQueue → EventQueue
trigger_subscribers q =
    let subscribers = remove_expired q.expired q.subscribers in
    record q { subscribers = subscribers; called = q.called ++ call_each q.expired subscribers }

-- A step of `for_each`: `caller` for the next subscriber, or the end.
unfoldable pub call_next : EventQueue → List ℕ → EventQueue
call_next q [] = record q { place = testing }
call_next q (h ∷ hs) =
    if q.expired h
    then record q { place = calling hs }
    else record q { called = q.called ++ h ∷ []; place = calling hs }

-- `SubscribeToEvent`, which needs `mutex`.
unfoldable pub subscribe_to_event : ℕ → EventQueue → Option EventQueue
subscribe_to_event h q = elim q.place [
  | sleeping ↦ some (record q { subscribers = q.subscribers ++ h ∷ [] })
  | ended ↦ some (record q { subscribers = q.subscribers ++ h ∷ [] })
  | _ ↦ none
]

abbrev pub post_event : EventQueue → EventQueue
post_event q = record q { pending_event = true }

-- The first statement of the destructor.
abbrev pub halt : EventQueue → EventQueue
halt q = record q { halting = true }

-- A caller lets its handler go.
abbrev pub let_go : ℕ → EventQueue → EventQueue
let_go h q = record q { expired = λ k. ite (ℕ_discrete h k) true (q.expired k) }

-- A step of `run_forwardThread` and of `triggerSubscribers`. `wait_for` may always return, after
-- `max_sleep_interval_`.
unfoldable pub forward : EventQueue → EventQueue
forward q = elim q.place [
  | testing ↦ if q.halting then record q { place = ended } else record q { place = sleeping }
  | sleeping ↦
      if q.pending_event then record q { place = resetting } else record q { place = testing }
  | resetting ↦ record q { pending_event = false; place = removing }
  | removing ↦
      let subscribers = remove_expired q.expired q.subscribers in
      record q { subscribers = subscribers; place = calling subscribers }
  | calling hs ↦ call_next q hs
  | ended ↦ q
]

-- The steps of all threads, in any order: `PostEvent`, the destructor and a caller need no lock. A `SubscribeToEvent` without the lock waits.
pub data Step : Type 0 where
  posting forwarding halt_all : Step
  subscribing letting_go : ℕ → Step

unfoldable pub step : Step → EventQueue → EventQueue
step posting q = post_event q
step forwarding q = forward q
step halt_all q = halt q
step (subscribing h) q = elim (subscribe_to_event h q) [ none ↦ q | some q' ↦ q' ]
step (letting_go h) q = let_go h q
