-- ===== src/Sema.antt =====
-- POSIX semaphores, as threads-sema and threads-locks use them: a count of permits.
use ostep_code.Prelude.{ℕ, ◌+◌, ◌-◌, Option, none, some, ◌==◌, if◌then◌else◌}

-- `sem_wait`: `none` while the caller is blocked.
abbrev pub sem_wait : ℕ → Option ℕ
sem_wait v = if v == 0 then none else some (v - 1)

-- `sem_post`
abbrev pub sem_post : ℕ → ℕ
sem_post v = v + 1
