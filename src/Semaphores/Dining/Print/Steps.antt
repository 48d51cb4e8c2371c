-- ===== src/Semaphores/Dining/Print/Steps.antt =====
-- The steps of the philosophers with their messages, one by one: against those without, on
-- `print_lock`, and how many a thread has left.
use ostep_code.Prelude.{ℕ, ◌+◌, ◌-◌, ◌*◌, ◌<◌, ◌≡◌, refl, ◌⊎◌, inl, inr, none, some, arith}
use ostep_code.Threads.Sums.{Shift}
use ostep_code.Semaphores.Dining as Dining
use ostep_code.Semaphores.Dining.{Forks, right, Seat, first_fork, second_fork, move}
use ostep_code.Semaphores.Dining.Print.{
  Memory, Message, start, think, try_first, try_second, eat, finished, At, space, space_end, test,
  thinking, get_first, get_second, eating, put_left, put_right, over, Talker, first_try, second_try,
  talk, step_print,
}

-- The place in the program without the messages.
abbrev pub heard : Message → Dining.At
heard start = Dining.test
heard think = Dining.thinking
heard try_first = Dining.get_first
heard try_second = Dining.get_second
heard eat = Dining.eating
heard finished = Dining.test

abbrev pub quiet : At → Dining.At
quiet (space message) = heard message
quiet (space_end message) = heard message
quiet test = Dining.test
quiet thinking = Dining.thinking
quiet get_first = Dining.get_first
quiet get_second = Dining.get_second
quiet eating = Dining.eating
quiet put_left = Dining.put_left
quiet put_right = Dining.put_right
quiet over = Dining.over

-- Without the messages a round ends at once.
abbrev pub rounds : ℕ → At → ℕ
rounds i (space finished) = i + 1
rounds i (space_end finished) = i + 1
rounds i _ = i

abbrev pub seat_at : Talker → At → Seat
seat_at t at = record { thread_id = t.thread_id; round = rounds t.i at; at = quiet at }

abbrev pub seat : Talker → Seat
seat t = seat_at t t.at

abbrev pub forks_of : Memory → Forks
forks_of m = m.forks

talk-shows :
    (loops : ℕ) (m m' : Memory) (t t' : Talker) (at : At)
    → talk first_try second_try loops m t at ≡ some (m', t')
    → ((m'.forks ≡ m.forks) × (seat t' ≡ seat_at t at))
      ⊎ (move first_fork second_fork loops m.forks (seat_at t at) (quiet at)
          ≡ some (m'.forks, seat t'))
unfolding talk move first_try second_try first_fork second_fork
talk-shows loops m m' t t' (space message) e = inl (ground arith)
talk-shows loops m m' t t' (space_end message) e = inl (ground arith)
talk-shows loops m m' t t' test e = inr (ground arith)
talk-shows loops m m' t t' thinking e = inr (ground arith)
talk-shows loops m m' t t' get_first e = inr (ground arith)
talk-shows loops m m' t t' get_second e = inr (ground arith)
talk-shows loops m m' t t' eating e = inr (ground arith)
talk-shows loops m m' t t' put_left e = inr (ground arith)
talk-shows loops m m' t t' put_right e = inr (ground arith)
talk-shows loops m m' t t' over e = inr (ground arith)

pub shows :
    (loops : ℕ) (m m' : Memory) (t t' : Talker)
    → Unit {0}
    → step_print loops m t ≡ some (m', t')
    → Unit {0}
      × (((m'.forks ≡ m.forks) × (seat t' ≡ seat t))
          ⊎ (Dining.step loops m.forks (seat t) ≡ some (m'.forks, seat t')))
shows loops m m' t t' j e = (j, talk-shows loops m m' t t' t.at e)

abbrev pub printing_at : At → ℕ
printing_at (space_end message) = 1
printing_at _ = 0

-- Whether a thread is between `space` and `space_end`.
abbrev pub printing : Talker → ℕ
printing t = printing_at t.at

abbrev pub waiting_at : At → ℕ
waiting_at (space message) = 1
waiting_at _ = 0

abbrev pub waiting : Talker → ℕ
waiting t = waiting_at t.at

talk-keeps :
    (loops : ℕ) (m m' : Memory) (t t' : Talker) (at : At)
    → talk first_try second_try loops m t at ≡ some (m', t')
    → m'.print_lock + printing t' ≡ m.print_lock + printing_at at
unfolding talk
talk-keeps loops m m' t t' (space message) e = ground arith
talk-keeps loops m m' t t' (space_end message) e = ground arith
talk-keeps loops m m' t t' test e = ground arith
talk-keeps loops m m' t t' thinking e = ground arith
talk-keeps loops m m' t t' get_first e = ground arith
talk-keeps loops m m' t t' get_second e = ground arith
talk-keeps loops m m' t t' eating e = ground arith
talk-keeps loops m m' t t' put_left e = ground arith
talk-keeps loops m m' t t' put_right e = ground arith
talk-keeps loops m m' t t' over e = ground arith

pub keep :
    (loops n : ℕ) (m m' : Memory) (p p' : Talker) (t t' : Unit {0} → ℕ)
    → step_print loops m p ≡ some (m', p')
    → Shift (step_print loops) n (λ a. printing) p p' t t'
    → m.print_lock + t tt ≡ 1
    → m'.print_lock + t' tt ≡ 1
keep loops n m m' p p' t t' e h j =
    omega (arith, j, talk-keeps loops m m' p p' p.at e, h.part tt, h.change tt)

pub talk-moves :
    (loops : ℕ) (m : Memory) (t : Talker) (at : At)
    → talk first_try second_try loops m t at ≡ none
    → (printing_at at ≡ 0)
      × ((waiting_at at ≡ 1) × (m.print_lock ≡ 0)
          ⊎ (waiting_at at ≡ 0)
            × (move first_fork second_fork loops m.forks (seat_at t at) (quiet at) ≡ none))
unfolding talk move first_try second_try first_fork second_fork
talk-moves loops m t (space message) e = (refl, ground arith)
talk-moves loops m t (space_end message) e = ground arith
talk-moves loops m t test e = (refl, ground arith)
talk-moves loops m t thinking e = (refl, ground arith)
talk-moves loops m t get_first e = (refl, ground arith)
talk-moves loops m t get_second e = (refl, ground arith)
talk-moves loops m t eating e = (refl, ground arith)
talk-moves loops m t put_left e = (refl, ground arith)
talk-moves loops m t put_right e = (refl, ground arith)
talk-moves loops m t over e = (refl, ground arith)

-- The steps that a thread has left: seventeen in a round, and those of "start" and the last test.
abbrev pub left_at : ℕ → ℕ → At → ℕ
left_at loops i (space start) = 17 * (loops - i) + 3
left_at loops i (space_end start) = 17 * (loops - i) + 2
left_at loops i test = 17 * (loops - i) + 1
left_at loops i (space think) = 17 * (loops - (i + 1)) + 17
left_at loops i (space_end think) = 17 * (loops - (i + 1)) + 16
left_at loops i thinking = 17 * (loops - (i + 1)) + 15
left_at loops i (space try_first) = 17 * (loops - (i + 1)) + 14
left_at loops i (space_end try_first) = 17 * (loops - (i + 1)) + 13
left_at loops i get_first = 17 * (loops - (i + 1)) + 12
left_at loops i (space try_second) = 17 * (loops - (i + 1)) + 11
left_at loops i (space_end try_second) = 17 * (loops - (i + 1)) + 10
left_at loops i get_second = 17 * (loops - (i + 1)) + 9
left_at loops i (space eat) = 17 * (loops - (i + 1)) + 8
left_at loops i (space_end eat) = 17 * (loops - (i + 1)) + 7
left_at loops i eating = 17 * (loops - (i + 1)) + 6
left_at loops i put_left = 17 * (loops - (i + 1)) + 5
left_at loops i put_right = 17 * (loops - (i + 1)) + 4
left_at loops i (space finished) = 17 * (loops - (i + 1)) + 3
left_at loops i (space_end finished) = 17 * (loops - (i + 1)) + 2
left_at loops i over = 0

abbrev pub left_of : ℕ → Talker → ℕ
left_of loops t = left_at loops t.i t.at

pub left_at_falls :
    (loops : ℕ) (m m' : Memory) (t t' : Talker) (at : At)
    → talk first_try second_try loops m t at ≡ some (m', t')
    → left_of loops t' < left_at loops t.i at
unfolding talk
left_at_falls loops m m' t t' (space start) e = ground arith
left_at_falls loops m m' t t' (space think) e = ground arith
left_at_falls loops m m' t t' (space try_first) e = ground arith
left_at_falls loops m m' t t' (space try_second) e = ground arith
left_at_falls loops m m' t t' (space eat) e = ground arith
left_at_falls loops m m' t t' (space finished) e = ground arith
left_at_falls loops m m' t t' (space_end start) e = ground arith
left_at_falls loops m m' t t' (space_end think) e = ground arith
left_at_falls loops m m' t t' (space_end try_first) e = ground arith
left_at_falls loops m m' t t' (space_end try_second) e = ground arith
left_at_falls loops m m' t t' (space_end eat) e = ground arith
left_at_falls loops m m' t t' (space_end finished) e = ground arith
left_at_falls loops m m' t t' test e = ground arith
left_at_falls loops m m' t t' thinking e = ground arith
left_at_falls loops m m' t t' get_first e = ground arith
left_at_falls loops m m' t t' get_second e = ground arith
left_at_falls loops m m' t t' eating e = ground arith
left_at_falls loops m m' t t' put_left e = ground arith
left_at_falls loops m m' t t' put_right e = ground arith
left_at_falls loops m m' t t' over e = ground arith
