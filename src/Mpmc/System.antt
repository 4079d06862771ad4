-- ===== src/Mpmc/System.antt =====
-- src/shared/mpmc_queue.c with any number of threads at work: one step is one access to the memory that the threads share, and
-- the steps of all threads come in any order. Fewer than 2 ^ 63 values are put in, so that no position wraps.
pub mod Order
pub mod Writes
pub mod Frees
pub mod Claims
pub mod Inv
pub mod Looks
pub mod Exchanges
pub mod Kept
pub mod Shapes
pub mod Somebody
pub mod Held
pub mod Reached
pub mod Refused
pub mod Solo
pub mod SoloOut
mod Tests
use rkt_io.Common.{
  ℕ, ◌+◌, ◌-◌, ◌%◌, ◌^◌, ◌≤◌, Bool, true, false, ◌&&◌, not, leb, ◌==◌, if◌then◌else◌, Option, some,
  none, List, [], ◌∷◌, ◌++◌, length, ◌≡◌, bit_and,
}
use rkt_io.Mpmc.{Mpmcq, size_t, write}

-- Where a thread stands: outside, before each access of mpmc_enqueue of a value and of mpmc_dequeue, and behind the call with
-- what it has returned
pub data Pc : Type 0 where
  idle : Pc
  enq_start : ℕ → Pc
  enq_look enq_swap enq_write : ℕ → ℕ → Pc
  enq_publish : ℕ → Pc
  enq_returned : Bool → Pc
  deq_start : Pc
  deq_look deq_swap deq_read : ℕ → Pc
  deq_free : ℕ → ℕ → Pc
  deq_returned : Option ℕ → Pc

abbrev pub cell : Mpmcq → ℕ → ℕ
cell q pos = bit_and pos q.buffer_mask

-- What follows the load of a cell's number: the exchange if it is the one that is looked for, the end if it is less, and another
-- position if it is more
abbrev pub by_dif : ℕ → ℕ → Pc → Pc → Pc → Pc
by_dif seq wanted same less more =
    let dif = size_t (seq + 2 ^ 64 - wanted) in
    if dif == 0 then same else if leb (2 ^ 63) dif then less else more

-- The exchanges, which succeed or not
abbrev pub exchange_in : Bool → Mpmcq → ℕ → ℕ → Mpmcq × Pc
exchange_in true q x pos = (record q { enqueue_pos = size_t (pos + 1) }, enq_write x pos)
exchange_in false q x pos = (q, enq_look x pos)

abbrev pub exchange_out : Bool → Mpmcq → ℕ → Mpmcq × Pc
exchange_out true q pos = (record q { dequeue_pos = size_t (pos + 1) }, deq_read pos)
exchange_out false q pos = (q, deq_look pos)

-- One access of a thread; `spurious` says that a weak exchange fails without a reason.
unfoldable pub access : Bool → Mpmcq → Pc → Mpmcq × Pc
access spurious q idle = (q, idle)
access spurious q (enq_start x) = (q, enq_look x q.enqueue_pos)
access spurious q (enq_look x pos) =
    (q, by_dif (q.seq (cell q pos)) pos (enq_swap x pos) (enq_returned false) (enq_start x))
access spurious q (enq_swap x pos) = exchange_in (q.enqueue_pos == pos && not spurious) q x pos
access spurious q (enq_write x pos) =
    (record q { data_ptr = write q.data_ptr (cell q pos) x }, enq_publish pos)
access spurious q (enq_publish pos) =
    (record q { seq = write q.seq (cell q pos) (size_t (pos + 1)) }, enq_returned true)
access spurious q (enq_returned r) = (q, enq_returned r)
access spurious q deq_start = (q, deq_look q.dequeue_pos)
access spurious q (deq_look pos) =
    (q, by_dif (q.seq (cell q pos)) (size_t (pos + 1)) (deq_swap pos) (deq_returned none) deq_start)
access spurious q (deq_swap pos) = exchange_out (q.dequeue_pos == pos && not spurious) q pos
access spurious q (deq_read pos) = (q, deq_free pos (q.data_ptr (cell q pos)))
access spurious q (deq_free pos v) = (
  record q { seq = write q.seq (cell q pos) (size_t (pos + q.buffer_mask + 1)) },
  deq_returned (some v),
)
access spurious q (deq_returned r) = (q, deq_returned r)

-- A thread that is in no call
abbrev pub at_rest : Pc → Bool
at_rest idle = true
at_rest (enq_returned r) = true
at_rest (deq_returned r) = true
at_rest pc = false

abbrev pub update : (ℕ → Pc) → ℕ → Pc → ℕ → Pc
update f t pc u = if u == t then pc else f u

-- Beside queue and threads, what has happened: the values put in, in the order of the exchanges that claimed their places, and the
-- places with the values that were given out.
pub record State : Type 0 where
  pub queue : Mpmcq
  pub pc : ℕ → Pc
  pub claimed : List ℕ
  pub given : List (ℕ × ℕ)

-- An exchange that has succeeded, and a dequeue that ends
abbrev pub note_claim : Pc → Pc → List ℕ → List ℕ
note_claim (enq_swap x pos) (enq_write y p) claimed = claimed ++ (y ∷ [])
note_claim before after claimed = claimed

abbrev pub note_given : Pc → List (ℕ × ℕ) → List (ℕ × ℕ)
note_given (deq_free pos v) given = (pos, v) ∷ given
note_given before given = given

-- What is left of an access by thread `t` that stood at `before`
abbrev pub settle : State → ℕ → Pc → Mpmcq × Pc → State
settle s t before (q, after) = record {
  queue = q;
  pc = update s.pc t after;
  claimed = note_claim before after s.claimed;
  given = note_given before s.given;
}

unfoldable pub go : Bool → ℕ → State → State
unfolding access
go spurious t s = settle s t (s.pc t) (access spurious s.queue (s.pc t))

-- The queue has 2 ^ k cells.
pub data Step (k : ℕ) : State → State → Type 0 where
  enqueues :
      {s : State} (t x : ℕ)
      → at_rest (s.pc t) ≡ true
      → Step k s (record s { pc = update s.pc t (enq_start x) })
  dequeues :
      {s : State} (t : ℕ)
      → at_rest (s.pc t) ≡ true
      → Step k s (record s { pc = update s.pc t deq_start })
  goes :
      {s : State} (spurious : Bool) (t : ℕ)
      → length s.claimed + 2 ^ k + 1 ≤ 2 ^ 63
      → Step k s (go spurious t s)
