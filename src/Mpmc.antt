-- ===== src/Mpmc.antt =====
-- src/shared/mpmc_queue.c with src/include/mpmc_queue.h: the bounded queue behind the scheduler, run
-- by one thread at a time. The loops run on fuel; a weak compare-and-exchange may fail without a
-- reason, `spurious` times in a row before it succeeds.
pub mod Mask
pub mod Fifo
pub mod Loops
pub mod Kept
pub mod Init
pub mod Laws
pub mod System
mod Tests
use rkt_io.Common.{
  ℕ, zero, suc, ◌+◌, ◌-◌, ◌*◌, ◌/◌, ◌%◌, ◌^◌, Bool, true, false, ◌&&◌, ltb, leb, ◌==◌,
  if◌then◌else◌, Option, some, none, ◌>>=◌, bit_and,
}

-- `struct mpmcq`; `seq` and `data_ptr` are the fields of the cells.
pub record Mpmcq : Type 0 where
  pub seq : ℕ → ℕ
  pub data_ptr : ℕ → ℕ
  pub buffer_mask : ℕ
  pub enqueue_pos : ℕ
  pub dequeue_pos : ℕ

abbrev pub size_t : ℕ → ℕ
size_t n = n % 2 ^ 64

abbrev pub write : (ℕ → ℕ) → ℕ → ℕ → ℕ → ℕ
write f i v = λ j. if j == i then v else f j

-- The loop that numbers the first cells, from `n` down
abbrev pub number_cells : ℕ → (ℕ → ℕ) → ℕ → ℕ
number_cells zero f = f
number_cells (suc n) f = write (number_cells n f) n n

-- What the buffer holds at first is an argument; `none` is a failed assert.
unfoldable pub newmpmcq : ℕ → (ℕ → ℕ) → (ℕ → ℕ) → Option Mpmcq
newmpmcq bytes seq data_ptr =
    let buffer_size = bytes / 16 in
    if leb 2 buffer_size && bit_and buffer_size (buffer_size - 1) == 0
    then some (record {
      seq = number_cells buffer_size seq;
      data_ptr = data_ptr;
      buffer_mask = buffer_size - 1;
      enqueue_pos = 0;
      dequeue_pos = 0;
    })
    else none

-- The loop of `mpmc_enqueue`: the position that is claimed, or that the queue is full.
unfoldable pub enqueue_loop : ℕ → ℕ → ℕ → Mpmcq → Option (Option ℕ)
enqueue_loop zero spurious pos q = none
enqueue_loop (suc fuel) zero pos q =
    let dif = size_t (q.seq (bit_and pos q.buffer_mask) + 2 ^ 64 - pos) in
    let again = enqueue_loop fuel zero q.enqueue_pos q in
    if dif == 0 then some (some pos) else if leb (2 ^ 63) dif then some none else again
enqueue_loop (suc fuel) (suc spurious) pos q =
    let dif = size_t (q.seq (bit_and pos q.buffer_mask) + 2 ^ 64 - pos) in
    let retry = enqueue_loop fuel spurious pos q in
    let again = enqueue_loop fuel (suc spurious) q.enqueue_pos q in
    if dif == 0 then retry else if leb (2 ^ 63) dif then some none else again

-- The result is 1 or 0.
unfoldable pub mpmc_enqueue : ℕ → ℕ → Mpmcq → ℕ → Option (Mpmcq × Bool)
unfolding enqueue_loop
mpmc_enqueue fuel spurious q value = do
  claimed ← enqueue_loop fuel spurious q.enqueue_pos q
  elim claimed [
    | none ↦ some (q, false)
    | some pos ↦
        let cell = bit_and pos q.buffer_mask in
        some (
          record q {
            enqueue_pos = size_t (pos + 1);
            data_ptr = write q.data_ptr cell value;
            seq = write q.seq cell (size_t (pos + 1));
          },
          true,
        )
  ]

unfoldable pub dequeue_loop : ℕ → ℕ → ℕ → Mpmcq → Option (Option ℕ)
dequeue_loop zero spurious pos q = none
dequeue_loop (suc fuel) zero pos q =
    let dif = size_t (q.seq (bit_and pos q.buffer_mask) + 2 ^ 64 - size_t (pos + 1)) in
    let again = dequeue_loop fuel zero q.dequeue_pos q in
    if dif == 0 then some (some pos) else if leb (2 ^ 63) dif then some none else again
dequeue_loop (suc fuel) (suc spurious) pos q =
    let dif = size_t (q.seq (bit_and pos q.buffer_mask) + 2 ^ 64 - size_t (pos + 1)) in
    let retry = dequeue_loop fuel spurious pos q in
    let again = dequeue_loop fuel (suc spurious) q.dequeue_pos q in
    if dif == 0 then retry else if leb (2 ^ 63) dif then some none else again

-- `*data`, where the result is 1.
unfoldable pub mpmc_dequeue : ℕ → ℕ → Mpmcq → Option (Mpmcq × Option ℕ)
unfolding dequeue_loop
mpmc_dequeue fuel spurious q = do
  claimed ← dequeue_loop fuel spurious q.dequeue_pos q
  elim claimed [
    | none ↦ some (q, none)
    | some pos ↦
        let cell = bit_and pos q.buffer_mask in
        some (
          record q {
            dequeue_pos = size_t (pos + 1);
            seq = write q.seq cell (size_t (pos + q.buffer_mask + 1));
          },
          some (q.data_ptr cell),
        )
  ]
