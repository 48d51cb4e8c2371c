-- ===== src/Lottery.antt =====
-- cpu-sched-lottery/lottery.c: jobs with tickets in a list, and the draw of a winner.
pub mod Laws
mod Tests
use ostep_code.Prelude.{
  ℕ, zero, suc, ◌+◌, ◌%◌, ltb, if◌then◌else◌, Option, none, some, List, [], ◌∷◌,
}

-- The globals: `gtickets` and the list from `head` on.
pub record Jobs : Type 0 where
  pub gtickets : ℕ
  pub head : List ℕ

abbrev pub no_jobs : Jobs
no_jobs = record { gtickets = 0; head = [] }

unfoldable pub insert : Jobs → ℕ → Jobs
insert j tickets = record { head = tickets ∷ j.head; gtickets = j.gtickets + tickets }

-- The loop of `main` that looks for the winner: the place in the list and the tickets of the job it
-- stops at, `none` if it comes to the end, where `main` would read through a null pointer.
unfoldable pub find : List ℕ → ℕ → ℕ → Option (ℕ × ℕ)
find [] counter winner = none
find (tickets ∷ next) counter winner =
    let rest = find next (counter + tickets) winner in
    if ltb winner (counter + tickets)
    then some (0, tickets)
    else elim rest [ none ↦ none | some (i, t) ↦ some (suc i, t) ]

-- A round of `main`, for what `random` returns.
unfoldable pub draw : Jobs → ℕ → Option (ℕ × ℕ)
draw j random = find j.head 0 (random % j.gtickets)

-- The rounds, for what `random` returns in each.
unfoldable pub rounds : Jobs → List ℕ → List (Option (ℕ × ℕ))
rounds j [] = []
rounds j (random ∷ randoms) = draw j random ∷ rounds j randoms

-- The jobs of `main`.
abbrev pub three_jobs : Jobs
three_jobs = insert (insert (insert no_jobs 50) 100) 25
