-- ===== src/ProducerConsumer/Tests.antt =====
-- Runs of the buffers, and the theorems at them.
use ostep_code.Prelude.{◌≡◌, ◌≤◌, ◌+◌, refl, none, some, List, [], ◌∷◌, pos, map, arith, ℕ_discrete}
use ostep_code.Heap.{done}
use ostep_code.ProducerConsumer.{
  empty_buffer, Section, produce, consume, run, step, put, get, producer, consumer,
}
use ostep_code.ProducerConsumer.Laws.{fifo, buffer_refines}
use ostep_code.ProducerConsumer.SingleCv.{run_cv, step_cv, put_cv, producer_cv, forget, values_lost}
use ostep_code.ProducerConsumer.Single.{
  ready, Spsc, spsc_init, Who, producing, consuming, moves, move, put_one, get_one, produce_one,
  consume_one, producer_move, consumer_move, countdown,
}
use ostep_code.ProducerConsumer.Single.Laws.{exchange_in_order, no_deadlock}

abbrev sections : List Section
sections = consume ∷ produce (pos 7) ∷ produce (pos 8) ∷ consume ∷ consume ∷ consume ∷ []

sections_run :
    run empty_buffer sections
    ≡ none ∷ some none ∷ some none ∷ some (some (pos 7)) ∷ some (some (pos 8)) ∷ none ∷ []
unfolding run step producer consumer put get ℕ_discrete
sections_run = refl

buffer_refines_example : run empty_buffer sections ≡ fifo [] sections
buffer_refines_example = buffer_refines sections

-- The values 7 and 8 come out as 1 and 2.
sections-run_cv :
    run_cv empty_buffer sections
    ≡ none ∷ some none ∷ some none ∷ some (some (pos 1)) ∷ some (some (pos 2)) ∷ none ∷ []
unfolding run_cv step_cv producer_cv consumer put_cv get ℕ_discrete
sections-run_cv = refl

values_lost_run : run_cv empty_buffer sections ≡ run_cv empty_buffer (map forget sections)
values_lost_run = values_lost sections empty_buffer

abbrev schedule : List Who
schedule = consuming ∷ producing ∷ producing ∷ consuming ∷ producing ∷ consuming ∷ []

exchange_in_order_example :
    (s : Spsc) × (moves 3 schedule spsc_init ≡ done s)
    × (s.printed ≡ countdown s.taken)
    × (s.taken ≤ s.i)
    × (s.i ≤ s.taken + 1)
exchange_in_order_example = exchange_in_order 3 schedule

abbrev after : Spsc
after = record {
  buffer = 1;
  count = 0;
  i = 2;
  taken = 2;
  producer = ready;
  consumer = ready;
  printed = 1 ∷ 0 ∷ [];
}

schedule_run : moves 3 schedule spsc_init ≡ done after
unfolding moves move producer_move consumer_move produce_one consume_one put_one get_one
schedule_run = refl

no_deadlock_example :
    ¬ ((move 3 producing after ≡ done after) × (move 3 consuming after ≡ done after))
no_deadlock_example = no_deadlock 3 schedule after schedule_run (omega arith)
