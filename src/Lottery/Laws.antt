-- ===== src/Lottery/Laws.antt =====
-- Theorems about the draw of a winner.
use ostep_code.Prelude.{
  ℕ, zero, suc, ◌+◌, ◌-◌, ◌%◌, ◌≤◌, ◌<◌, ◌≡◌, refl, Option, none, some, dec_lt, List, [], ◌∷◌,
  arith,
}
use native.Mathlib.Nat.{mod-lt}
use ostep_code.Lottery.{Jobs, no_jobs, insert, find, draw}

unfoldable pub sum : List ℕ → ℕ
sum [] = 0
sum (t ∷ ts) = t + sum ts

-- The tickets of the jobs in front of place `i`.
unfoldable pub sum_before : List ℕ → ℕ → ℕ
sum_before [] i = 0
sum_before (t ∷ ts) zero = 0
sum_before (t ∷ ts) (suc i) = t + sum_before ts i

-- The tickets of the job at place `i`, none behind the end.
unfoldable pub tickets_at : List ℕ → ℕ → Option ℕ
tickets_at [] i = none
tickets_at (t ∷ ts) zero = some t
tickets_at (t ∷ ts) (suc i) = tickets_at ts i

-- `gtickets` is the sum over the list.
pub record IsCounted (j : Jobs) : Type 0 where
  pub counted : j.gtickets ≡ sum j.head

pub insert-IsCounted : (j : Jobs) (tickets : ℕ) → IsCounted j → IsCounted (insert j tickets)
unfolding insert sum
insert-IsCounted j tickets h = record { counted = omega (arith, h.counted) }

pub no_jobs-IsCounted : IsCounted no_jobs
unfolding sum
no_jobs-IsCounted = record { counted = refl }

-- The job that wins with the number `winner`.
pub record Wins (jobs : List ℕ) (winner i t : ℕ) : Type 0 where
  pub at_place : tickets_at jobs i ≡ some t
  pub from : sum_before jobs i ≤ winner
  pub until : winner < sum_before jobs i + t

find_from :
    (jobs : List ℕ) (counter winner share : ℕ)
    → winner ≡ counter + share
    → winner < counter + sum jobs
    → (i : ℕ) × (t : ℕ) × (find jobs counter winner ≡ some (i, t)) × Wins jobs share i t
unfolding find sum sum_before tickets_at
find_from [] counter winner share h k = absurd (omega arith)
find_from (t ∷ ts) counter winner share h k = elim (dec_lt winner (counter + t)) [
  | yes here ↦
      (0, t, ground arith, record { at_place = refl; from = omega arith; until = omega arith })
  | no later ↦
      let (i, u, found, w) =
        find_from ts (counter + t) winner (share - t) (omega arith) (omega arith) in
      (
        suc i,
        u,
        ground (arith, found),
        record {
          at_place = w.at_place;
          from = omega (arith, w.from);
          until = omega (arith, w.until);
        },
      )
]

-- Where there are tickets, the draw finds a job, and it is the one in whose share of the tickets
-- the number lies.
pub draw_fair :
    (j : Jobs) (random : ℕ)
    → IsCounted j
    → 0 < j.gtickets
    → (i : ℕ) × (t : ℕ) × (draw j random ≡ some (i, t)) × Wins j.head (random % j.gtickets) i t
unfolding draw
draw_fair j random h k =
    let few = mod-lt random k in
    find_from j.head 0 (random % j.gtickets) (random % j.gtickets) (omega arith)
      (omega (arith, few, h.counted))
