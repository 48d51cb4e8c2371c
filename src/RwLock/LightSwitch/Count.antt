-- ===== src/RwLock/LightSwitch/Count.antt =====
-- The tally of a light switch over `n` threads, given where each thread stands with regard to it.
use ostep_code.Prelude.{ℕ, ◌+◌, ◌<◌, ◌≡◌, ap, arith}
use ostep_code.Threads.{goes, total, total-goes, total-zero, le-total}
use ostep_code.RwLock.LightSwitch.{Place, out, init_switch}
use ostep_code.RwLock.LightSwitch.Inv.{Tally, Moves, Inv, quiet, at_wait, at_post, counted}

module _ {ℓ} {T : Type ℓ} (place : T → Place) where
  abbrev pub tally : ℕ → (ℕ → T) → Tally
  tally n pc = record {
    quiet_ones = total (λ t. quiet (place t)) n pc;
    waiting = total (λ t. at_wait (place t)) n pc;
    posting = total (λ t. at_post (place t)) n pc;
    counted_ones = total (λ t. counted (place t)) n pc;
  }

  -- What one thread's step does to the tally.
  pub tally-goes :
      (n : ℕ) (pc : ℕ → T) (i : ℕ) (q : T)
      → i < n
      → Moves (place (pc i)) (place q) (tally n pc) (tally n (goes pc i q))
  tally-goes n pc i q lt = record {
    present =
        (le-total (λ t. quiet (place t)) n pc i lt, le-total (λ t. counted (place t)) n pc i lt);
    quiet_moves = total-goes (λ t. quiet (place t)) n pc i q lt;
    wait_moves = total-goes (λ t. at_wait (place t)) n pc i q lt;
    post_moves = total-goes (λ t. at_post (place t)) n pc i q lt;
    count_moves = total-goes (λ t. counted (place t)) n pc i q lt;
  }

  -- Before any thread has called `lock`.
  pub tally_start :
      (n : ℕ) (pc : ℕ → T)
      → ((i : ℕ) → place (pc i) ≡ out)
      → {semaphore others : ℕ} → semaphore + others ≡ 1
      → Inv init_switch semaphore others (tally n pc)
  tally_start n pc h e = ground (
    arith,
    total-zero (λ t. quiet (place t)) n pc (λ i lt. ap quiet (h i)),
    total-zero (λ t. at_wait (place t)) n pc (λ i lt. ap at_wait (h i)),
    total-zero (λ t. at_post (place t)) n pc (λ i lt. ap at_post (h i)),
    total-zero (λ t. counted (place t)) n pc (λ i lt. ap counted (h i)),
  )
