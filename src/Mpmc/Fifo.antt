-- ===== src/Mpmc/Fifo.antt =====
-- The queue of src/shared/mpmc_queue.c seen as the list of what it holds.
use rkt_io.Common.{ℕ, ◌+◌, ◌-◌, ◌%◌, ◌^◌, ◌≤◌, ◌<◌, ◌≡◌, List, length, get_or}
use rkt_io.Mpmc.{Mpmcq}

-- A buffer of 2 ^ k cells holds `xs`, the oldest first, and `d` values have been taken out before. The cell of
-- a position that holds a value carries the next position as its number, one that is free its own.
pub record Holds (q : Mpmcq) (k d : ℕ) (xs : List ℕ) : Type 0 where
  pub at_least_two : 1 ≤ k
  pub fits : k ≤ 62
  pub mask : q.buffer_mask ≡ 2 ^ k - 1
  pub room : length xs ≤ 2 ^ k
  pub head : q.dequeue_pos ≡ d % 2 ^ 64
  pub tail : q.enqueue_pos ≡ (d + length xs) % 2 ^ 64
  pub used : (i : ℕ) → i < length xs → q.seq ((d + i) % 2 ^ k) ≡ (d + i + 1) % 2 ^ 64
  pub values : (i : ℕ) → i < length xs → q.data_ptr ((d + i) % 2 ^ k) ≡ get_or xs i 0
  pub free : (i : ℕ) → length xs ≤ i → i < 2 ^ k → q.seq ((d + i) % 2 ^ k) ≡ (d + i) % 2 ^ 64
