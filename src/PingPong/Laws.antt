-- ===== src/PingPong/Laws.antt =====
-- Theorems about ping and pong.
use ostep_code.Prelude.{
  ℕ, zero, suc, ◌+◌, ◌-◌, ◌<◌, ◌≤◌, ◌≡◌, refl, ap, ◌∙◌, subst, Bool, true, false, none, arith,
}
use ostep_code.Threads.{System, Run}
use ostep_code.Threads.Two.{Reaches, starts, first_moves, second_moves, at_state}
use ostep_code.PingPong.{
  Memory, Point, ping_test, ping_wait, ping_count, pong_test, pong_wait, over, step, init,
}

module _ (limit : ℕ) where
  -- The program can come to the memory `m`, `ping` at `p` and `pong` at `q`.
  abbrev Comes : Memory → Point → Point → Type 0
  Comes m p q = Reaches (step limit) init m p q

  abbrev at : Bool → ℕ → Memory
  at d c = record { data_ready = d; counter = c }

  -- `ping` sets the flag and counts.
  serves :
      (c : ℕ) (q : Point)
      → c ≤ limit
      → Comes (at false c) ping_test q
      → Comes (at true (c + 1)) ping_test q
  unfolding step
  serves c q le r =
      let r₁ = first_moves (step limit) (at false c) r ping_wait (ground arith) in
      let r₂ = first_moves (step limit) (at true c) r₁ ping_count refl in
      first_moves (step limit) (at true (c + 1)) r₂ ping_test refl

  -- Any number of rounds below the limit.
  rounds : (c : ℕ) → c < limit → Comes (at false c) ping_test pong_test
  unfolding step
  rounds zero lt = starts (step limit) init
  rounds (suc c) lt =
      let r₁ =
        second_moves (step limit) (at false c) (rounds c (omega arith)) pong_wait (ground arith) in
      let r₂ = serves c pong_wait (omega arith) r₁ in
      let r₃ = second_moves (step limit) (at false (c + 1)) r₂ pong_test refl in
      subst (λ k. Comes (at false k) ping_test pong_test) (omega arith) r₃

  -- For every positive limit there is a schedule at whose end `pong` has returned and `ping`
  -- waits for a flag that nobody resets: no thread can move.
  pub deadlock_reached :
      0 < limit
      → (k : ℕ) × (s : System Memory Point) × Run (step limit) 2 init k s
        × (s.pc 0 ≡ ping_wait)
        × (s.pc 1 ≡ over)
        × (step limit s.mem (s.pc 0) ≡ none)
        × (step limit s.mem (s.pc 1) ≡ none)
  unfolding step
  deadlock_reached pos =
      let r₁ = serves (limit - 1) pong_test (omega arith) (rounds (limit - 1) (omega arith)) in
      let m : Memory = at true (limit - 1 + 1) in
      let r₂ = second_moves (step limit) m r₁ over (ground arith) in
      let r₃ = first_moves (step limit) m r₂ ping_wait (ground arith) in
      (
        r₃.steps,
        r₃.state,
        r₃.run,
        r₃.first_at,
        r₃.second_at,
        at_state (step limit) m r₃ (r₃.state.pc 0) ∙ ap (step limit m) r₃.first_at,
        at_state (step limit) m r₃ (r₃.state.pc 1) ∙ ap (step limit m) r₃.second_at,
      )
