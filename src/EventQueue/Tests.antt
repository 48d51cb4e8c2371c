-- ===== src/EventQueue/Tests.antt =====
-- Steps of an event queue, and the theorems at them.
use ostep_code.Prelude.{ite, ◌≡◌, ◌⊎◌, ◌++◌, refl, true, false, List, [], ◌∷◌, ℕ_discrete}
use ostep_code.EventQueue.{
  calling, removing, call_next, EventQueue, event_queue, remove_expired, trigger_subscribers,
  subscribe_to_event, post_event, forward, Step, posting, forwarding, subscribing, letting_go, step,
}
use ostep_code.EventQueue.Trigger.{live, trigger_subscribers_lem, forwards}
use ostep_code.EventQueue.Laws.{steps, answered, event_kept}

abbrev two : EventQueue
two = record event_queue {
  subscribers = 4 ∷ 9 ∷ [];
  expired = λ h. ite (ℕ_discrete 4 h) true false;
}

trigger_subscribers_lem_example :
    trigger_subscribers two ≡ record two { subscribers = live two; called = [] ++ live two }
trigger_subscribers_lem_example = trigger_subscribers_lem two

-- The post comes in the middle of a trigger, which has called the subscriber 3 and still holds 9.
abbrev in_trigger : EventQueue
in_trigger = record event_queue {
  subscribers = 3 ∷ 9 ∷ [];
  place = calling (9 ∷ []);
  called = 3 ∷ [];
}

post_delivered_run : (forwards 8 (post_event in_trigger)).called ≡ 3 ∷ 9 ∷ 3 ∷ 9 ∷ []
unfolding forwards forward call_next remove_expired
post_delivered_run = refl

-- While the trigger goes on, a handler is let go and a caller posts again; then it ends.
abbrev some_steps : List Step
some_steps = letting_go 3 ∷ forwarding ∷ posting ∷ forwarding ∷ subscribing 5 ∷ forwarding ∷ []

-- The event that is posted in the middle of the trigger is pending after it.
some_steps_run : (steps some_steps (post_event in_trigger)).pending_event ≡ true
unfolding steps step forward call_next subscribe_to_event ℕ_discrete
some_steps_run = refl

event_kept_example :
    (answered some_steps (post_event in_trigger) ≡ true)
    ⊎ ((steps some_steps (post_event in_trigger)).pending_event ≡ true)
    ⊎ ((steps some_steps (post_event in_trigger)).place ≡ removing)
event_kept_example = event_kept some_steps in_trigger
