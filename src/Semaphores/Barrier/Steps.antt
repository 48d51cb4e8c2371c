-- ===== src/Semaphores/Barrier/Steps.antt =====
-- The sums over the children that each step keeps in balance.
use ostep_code.Prelude.{ℕ, ◌+◌, ◌≤◌, ◌<◌, ◌≡◌, some, arith}
use ostep_code.Threads.Sums.{Shift}
use ostep_code.Semaphores.Barrier.{
  Barrier, Point, say_before, enter, add, test_first, leave, wait_all, again, test_second,
  fewer_threads, fewer_count, post_first, post_second, say_after, over, step,
}

-- The threads that have not yet been counted.
abbrev pub uncounted : Point → ℕ
uncounted say_before = 1
uncounted enter = 1
uncounted add = 1
uncounted _ = 0

-- The threads that hold `sem1`, but for the one between the two decrements.
abbrev pub held : Point → ℕ
held add = 1
held test_first = 1
held leave = 1
held test_second = 1
held fewer_threads = 1
held post_first = 1
held _ = 0

-- The threads that are past the wait for all.
abbrev pub past : Point → ℕ
past again = 1
past test_second = 1
past fewer_threads = 1
past fewer_count = 1
past post_first = 1
past post_second = 1
past say_after = 1
past over = 1
past _ = 0

-- The threads that will still post `sem2`, if all are counted.
abbrev pub posting : Point → ℕ
posting test_first = 1
posting again = 1
posting test_second = 1
posting fewer_threads = 1
posting fewer_count = 1
posting post_first = 1
posting post_second = 1
posting _ = 0

abbrev pub halfway : Point → ℕ
halfway fewer_count = 1
halfway _ = 0

-- The threads that `thread_count` still counts.
abbrev pub listed : Point → ℕ
listed fewer_count = 0
listed post_first = 0
listed post_second = 0
listed say_after = 0
listed over = 0
listed _ = 1

pub data Sum : Type 0 where
  of_listed of_uncounted of_held of_past of_posting of_halfway : Sum

abbrev pub weights : Sum → Point → ℕ
weights of_listed = listed
weights of_uncounted = uncounted
weights of_held = held
weights of_past = past
weights of_posting = posting
weights of_halfway = halfway

pub record Inv (b : Barrier) (t : Sum → ℕ) : Type 0 where
  pub permits : b.sem1 + t of_held + t of_halfway ≡ 1
  pub all_listed : b.thread_count ≡ t of_listed
  pub counted : b.count + t of_uncounted ≡ b.thread_count + t of_halfway
  pub all_here : 0 < t of_past + b.sem2 → t of_uncounted ≡ 0
  pub awake : 0 < b.sem2 + t of_posting + t of_uncounted

-- What a step from `p` to `q` does to the five sums.
pub record Moved (p q : Point) (t t' : Sum → ℕ) : Type 0 where
  pub part_held : held p ≤ t of_held
  pub part_listed : listed p ≤ t of_listed
  pub part_past : past p ≤ t of_past
  pub part_uncounted : uncounted p ≤ t of_uncounted
  pub part_halfway : halfway p ≤ t of_halfway
  pub new_held : t' of_held + held p ≡ t of_held + held q
  pub new_listed : t' of_listed + listed p ≡ t of_listed + listed q
  pub new_past : t' of_past + past p ≡ t of_past + past q
  pub new_uncounted : t' of_uncounted + uncounted p ≡ t of_uncounted + uncounted q
  pub new_posting : t' of_posting + posting p ≡ t of_posting + posting q
  pub new_halfway : t' of_halfway + halfway p ≡ t of_halfway + halfway q

pub moved : {n : ℕ} (p q : Point) (t t' : Sum → ℕ) → Shift step n weights p q t t' → Moved p q t t'
moved p q t t' h = record {
  part_held = h.part of_held;
  part_listed = h.part of_listed;
  part_past = h.part of_past;
  part_uncounted = h.part of_uncounted;
  part_halfway = h.part of_halfway;
  new_held = h.change of_held;
  new_listed = h.change of_listed;
  new_past = h.change of_past;
  new_uncounted = h.change of_uncounted;
  new_posting = h.change of_posting;
  new_halfway = h.change of_halfway;
}

pub keep :
    (b b' : Barrier) (p q : Point) (t t' : Sum → ℕ)
    → step b p ≡ some (b', q)
    → Moved p q t t'
    → Inv b t
    → Inv b' t'
unfolding step
keep b b' say_before q t t' e h j = ground arith
keep b b' enter q t t' e h j = ground arith
keep b b' add q t t' e h j = ground arith
keep b b' test_first q t t' e h j = ground arith
keep b b' leave q t t' e h j = ground arith
keep b b' wait_all q t t' e h j = ground arith
keep b b' again q t t' e h j = ground arith
keep b b' test_second q t t' e h j = ground arith
keep b b' fewer_threads q t t' e h j = ground arith
keep b b' fewer_count q t t' e h j = ground arith
keep b b' post_first q t t' e h j = ground arith
keep b b' post_second q t t' e h j = ground arith
keep b b' say_after q t t' e h j = ground arith
keep b b' over q t t' e h j = ground arith
