-- ===== src/Join/Tests.antt =====
-- Schedules of the joins, and the theorems at them.
use ostep_code.Prelude.{ℕ, ◌≡◌, refl, List, [], ◌∷◌, ℕ_discrete}
use ostep_code.Threads.{System, follow, follow-Reach}
use ostep_code.Join.{Memory, Point, over, step, init}
use ostep_code.Join.Laws.{join_complete}
use ostep_code.Join.Modular.{step_sync, init_sync, sync_init, sync_complete}

-- The parent goes to sleep before the child has the lock.
abbrev late : List ℕ
late = 0 ∷ 0 ∷ 0 ∷ 1 ∷ 1 ∷ 1 ∷ 1 ∷ 0 ∷ 0 ∷ 0 ∷ 0 ∷ []

abbrev joined : System Memory Point
joined = follow step 2 late init

join_complete_run : (joined.pc 0 ≡ over) × (joined.pc 1 ≡ over)
unfolding follow step ℕ_discrete
join_complete_run = join_complete (follow-Reach step 2 late init).run refl refl

abbrev synced : System Memory Point
synced = follow step_sync 2 late init_sync

sync_complete_run : (synced.pc 0 ≡ over) × (synced.pc 1 ≡ over) × (synced.mem ≡ sync_init)
unfolding follow step_sync ℕ_discrete
sync_complete_run = sync_complete (follow-Reach step_sync 2 late init_sync).run refl refl
