-- ===== src/RingBuffer.antt =====
-- threads-locks/Locked value structures/ring-buffer.cpp: the bounded queue of sequence numbers.
-- A `size_t` is a number below 2^64. The calls come one after the other; a
-- `compare_exchange_weak` may still fail spuriously, and a list of Booleans says of each round of
-- the loop whether one there would succeed. A call that is not through at the end of the list has
-- timed out.
pub mod Mask
pub mod Slots
pub mod Laws
mod Tests
use ostep_code.Prelude.{
  ℕ, suc, ◌+◌, ◌-◌, ◌%◌, ◌^◌, Bool, true, false, not, ◌&&◌, Option, none, some, if◌then◌else◌, ℤ,
  List, [], ◌∷◌, ◌==◌, leb, ite, ℕ_discrete,
}
use ostep_code.Heap.{Outcome, done, fault, timeout}
use Prim.Native.Nat.{bit_and}

-- The number of values of a `size_t`.
abbrev pub word : ℕ
word = 2 ^ 64

-- `node_t`
pub record Slot : Type 0 where
  pub value : ℤ
  pub seq : ℕ

-- `mpmc_bounded_queue_t`
pub record Ring : Type 0 where
  pub size : ℕ
  pub mask : ℕ
  pub buffer : ℕ → Slot
  pub head_seq : ℕ
  pub tail_seq : ℕ

-- The constructor. A failed `assert` is a fault, and `junk` is what stands in the new nodes.
unfoldable pub ring : ℕ → (ℕ → ℤ) → Outcome Ring
ring size junk =
    if not (size == 0) && (bit_and size ((size + 1) % word) == size)
    then done (record {
      size = size;
      mask = size - 1;
      buffer = λ i. record { value = junk i; seq = i };
      head_seq = 0;
      tail_seq = 0;
    })
    else fault

-- `dif`, the difference of two `intptr_t` in two's complement, and whether it is negative.
abbrev pub difference : ℕ → ℕ → ℕ
difference a b = (a + (word - b)) % word

abbrev pub is_negative : ℕ → Bool
is_negative dif = leb (2 ^ 63) dif

abbrev pub node_at : Ring → ℕ → Slot
node_at r seq = r.buffer (bit_and seq r.mask)

abbrev pub set_node : Ring → ℕ → Slot → Ring
set_node r seq node = record r {
  buffer = λ i. ite (ℕ_discrete (bit_and seq r.mask) i) node (r.buffer i);
}

-- The exchange of `_head_seq` and the two stores after it, and those of `dequeue`.
abbrev pub fill_node : Ring → ℤ → ℕ → Ring
fill_node r value head_seq =
    set_node (record r { head_seq = (head_seq + 1) % word }) head_seq
      (record { value = value; seq = (head_seq + 1) % word })

abbrev pub empty_node : Ring → ℕ → Ring
empty_node r tail_seq =
    set_node (record r { tail_seq = (tail_seq + 1) % word }) tail_seq
      (record { value = (node_at r tail_seq).value; seq = (tail_seq + r.mask + 1) % word })

-- The rounds of `enqueue`. A failed exchange loads `_head_seq`, and so does the last branch.
pub enqueue_loop : List Bool → Ring → ℤ → ℕ → Outcome (Ring × Bool)
enqueue_loop [] r value head_seq = timeout
enqueue_loop (cas ∷ rest) r value head_seq =
    let dif = difference (node_at r head_seq).seq head_seq in
    let reloaded = enqueue_loop rest r value r.head_seq in
    let again = enqueue_loop rest r value head_seq in
    if dif == 0
    then if cas && (r.head_seq == head_seq)
      then done (fill_node r value head_seq, true)
      else if is_negative dif
      then done (r, false)
      else reloaded
    else again

unfoldable pub enqueue : List Bool → Ring → ℤ → Outcome (Ring × Bool)
enqueue rounds r value = enqueue_loop rounds r value r.head_seq

-- The rounds of `dequeue`; the value is `none` where `data` is not written.
pub dequeue_loop : List Bool → Ring → ℕ → Outcome (Ring × Option ℤ)
dequeue_loop [] r tail_seq = timeout
dequeue_loop (cas ∷ rest) r tail_seq =
    let node = node_at r tail_seq in
    let dif = difference node.seq ((tail_seq + 1) % word) in
    let reloaded = dequeue_loop rest r r.tail_seq in
    if dif == 0
    then if cas && (r.tail_seq == tail_seq)
      then done (empty_node r tail_seq, some node.value)
      else reloaded
    else if is_negative dif
    then done (r, none)
    else reloaded

unfoldable pub dequeue : List Bool → Ring → Outcome (Ring × Option ℤ)
dequeue rounds r = dequeue_loop rounds r r.tail_seq
