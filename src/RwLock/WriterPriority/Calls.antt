-- ===== src/RwLock/WriterPriority/Calls.antt =====
-- What a thread of rwlock-writer-priority.cpp holds before and after a step in a light switch.
use ostep_code.Prelude.{ℕ, ◌-◌, ◌≡◌, refl, some, arith}
use ostep_code.RwLock.LightSwitch.{
  LightSwitch, Place, At, out, inside, locking, unlocking, enter, count, light, leave, call,
}
use ostep_code.RwLock.WriterPriority.{reader, writer, arrive}
use ostep_code.RwLock.WriterPriority.Tally.{reader_place, writer_place, holding, arriving, pending}

pub reader_place-arrive : (left v : ℕ) (x : Place) → reader_place (arrive left v x) ≡ x
reader_place-arrive left v out = refl
reader_place-arrive left v inside = refl
reader_place-arrive left v (locking a) = refl
reader_place-arrive left v (unlocking a) = refl

-- A reader in `reader_switch.lock` keeps the permit of `no_readers`, also when it has returned.
pub arriving-call :
    (s s' : LightSwitch) (v v' left local : ℕ) (a : At) (x : Place)
    → call s v (locking a) ≡ some (s', v', x)
    → (arriving (arrive left local x) ≡ 1)
      × (writer_place (arrive left local x) ≡ out)
      × (holding (arrive left local x) ≡ 0)
      × (pending (arrive left local x) ≡ 0)
unfolding call
arriving-call s s' v v' left local enter x e = ground arith
arriving-call s s' v v' left local count x e = ground arith
arriving-call s s' v v' left local light x e = ground arith
arriving-call s s' v v' left local leave x e = ground arith

-- A writer in `unlock` does not go back to `lock`, and the other way round.
pub pending-call :
    (s s' : LightSwitch) (v v' left : ℕ) (a : At) (x : Place)
    → call s v (locking a) ≡ some (s', v', x)
    → pending (writer left x) ≡ left
unfolding call
pending-call s s' v v' left enter x e = ground arith
pending-call s s' v v' left count x e = ground arith
pending-call s s' v v' left light x e = ground arith
pending-call s s' v v' left leave x e = ground arith

-- The rounds left after a step in `unlock`.
abbrev pub left_after : At → ℕ → ℕ
left_after leave left = left - 1
left_after _ left = left

-- A thread in `unlock` stays there, or has returned.
pub unlocking-call :
    (s s' : LightSwitch) (v v' left local : ℕ) (a : At) (x : Place)
    → call s v (unlocking a) ≡ some (s', v', x)
    → (arriving (reader left local x) ≡ 0) × (pending (writer (left_after a left) x) ≡ left - 1)
unfolding call
unlocking-call s s' v v' left local enter x e = ground arith
unlocking-call s s' v v' left local count x e = ground arith
unlocking-call s s' v v' left local light x e = ground arith
unlocking-call s s' v v' left local leave x e = ground arith
