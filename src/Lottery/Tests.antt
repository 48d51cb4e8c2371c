-- ===== src/Lottery/Tests.antt =====
-- The jobs of `main` of lottery.c.
use ostep_code.Prelude.{ℕ, ◌≡◌, refl, ◌%◌, some, arith}
use ostep_code.Lottery.{no_jobs, insert, find, draw, three_jobs}
use ostep_code.Lottery.Laws.{IsCounted, Wins, no_jobs-IsCounted, insert-IsCounted, draw_fair}

draw_first : draw three_jobs 24 ≡ some (0, 25)
unfolding draw find insert
draw_first = refl

three_jobs-IsCounted : IsCounted three_jobs
three_jobs-IsCounted =
    insert-IsCounted (insert (insert no_jobs 50) 100) 25
      (insert-IsCounted (insert no_jobs 50) 100 (insert-IsCounted no_jobs 50 no_jobs-IsCounted))

draw_fair_example :
    (i : ℕ) × (t : ℕ) × (draw three_jobs 1000 ≡ some (i, t))
    × Wins three_jobs.head (1000 % three_jobs.gtickets) i t
unfolding insert
draw_fair_example = draw_fair three_jobs 1000 three_jobs-IsCounted (omega arith)
