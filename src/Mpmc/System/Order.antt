-- ===== src/Mpmc/System/Order.antt =====
-- What holds of the queue of src/shared/mpmc_queue.c, and of each thread in it, between two accesses
use rkt_io.Common.{
  ℕ, ◌+◌, ◌-◌, ◌%◌, ◌^◌, ◌≤◌, ◌<◌, ◌≡◌, ◌≢◌, ◌⊎◌, sym, ap, ◌∙◌, arith, bit_and, dec_lt, List,
  length, get_or, Option, some, none,
}
use rkt_io.Mpmc.{Mpmcq}
use rkt_io.Mpmc.Mask.{cells_differ, bit_and_mask}
use rkt_io.Mpmc.System.{
  Pc, idle, enq_start, enq_look, enq_swap, enq_write, enq_publish, enq_returned, deq_start,
  deq_look, deq_swap, deq_read, deq_free, deq_returned, cell,
}
use native.Mathlib.Nat.{add-mod_right}

-- The places from dequeue_pos up to the number of values put in are claimed by an enqueue: such a cell is still written, with its
-- place as its number, or ready, with the next. Behind them, up to the size, a cell is free, or still read.
pub record Shared (k : ℕ) (q : Mpmcq) (claimed : List ℕ) : Type 0 where
  pub size : 2 ≤ 2 ^ k
  pub mask : q.buffer_mask ≡ 2 ^ k - 1
  pub few : length claimed + 2 ^ k ≤ 2 ^ 63
  pub tail : q.enqueue_pos ≡ length claimed
  pub order : q.dequeue_pos ≤ length claimed
  pub room : length claimed ≤ q.dequeue_pos + 2 ^ k
  pub used :
      (p : ℕ)
      → q.dequeue_pos ≤ p
      → p < length claimed
      → (q.seq (p % 2 ^ k) ≡ p)
        ⊎ ((q.seq (p % 2 ^ k) ≡ p + 1) × (q.data_ptr (p % 2 ^ k) ≡ get_or claimed p 0))
  pub free :
      (p : ℕ)
      → length claimed ≤ p
      → p < q.dequeue_pos + 2 ^ k
      → (q.seq (p % 2 ^ k) ≡ p) ⊎ (q.seq (p % 2 ^ k) + 2 ^ k ≡ p + 1)
  pub bounded : (p : ℕ) → q.seq (p % 2 ^ k) < 2 ^ 63

-- What a thread has seen or holds: a place that it has read was the next one at most, the number that it has seen in a cell has not
-- gone back, and the cell that it has claimed is still as it found it.
abbrev pub Fine : ℕ → Mpmcq → List ℕ → Pc → Type 0
Fine k q claimed idle = Unit {0}
Fine k q claimed (enq_start x) = Unit {0}
Fine k q claimed (enq_look x p) = p ≤ length claimed
Fine k q claimed (enq_swap x p) = (p ≤ length claimed) × (p ≤ q.seq (p % 2 ^ k))
Fine k q claimed (enq_write x p) =
    (q.dequeue_pos ≤ p) × (p < length claimed) × (q.seq (p % 2 ^ k) ≡ p) × (get_or claimed p 0 ≡ x)
Fine k q claimed (enq_publish p) =
    (q.dequeue_pos ≤ p)
    × (p < length claimed)
    × (q.seq (p % 2 ^ k) ≡ p)
    × (q.data_ptr (p % 2 ^ k) ≡ get_or claimed p 0)
Fine k q claimed (enq_returned r) = Unit {0}
Fine k q claimed deq_start = Unit {0}
Fine k q claimed (deq_look p) = p ≤ q.dequeue_pos
Fine k q claimed (deq_swap p) = (p ≤ q.dequeue_pos) × (p + 1 ≤ q.seq (p % 2 ^ k))
Fine k q claimed (deq_read p) =
    (p < q.dequeue_pos)
    × (length claimed ≤ p + 2 ^ k)
    × (q.seq (p % 2 ^ k) ≡ p + 1)
    × (q.data_ptr (p % 2 ^ k) ≡ get_or claimed p 0)
Fine k q claimed (deq_free p v) =
    (p < q.dequeue_pos)
    × (length claimed ≤ p + 2 ^ k)
    × (q.seq (p % 2 ^ k) ≡ p + 1)
    × (v ≡ get_or claimed p 0)
Fine k q claimed (deq_returned r) = Unit {0}

-- The place that a thread writes to, or takes from
abbrev pub claims_in : Pc → Option ℕ
claims_in (enq_write x p) = some p
claims_in (enq_publish p) = some p
claims_in pc = none

abbrev pub claims_out : Pc → Option ℕ
claims_out (deq_read p) = some p
claims_out (deq_free p v) = some p
claims_out pc = none

-- Two places less than a size apart
pub apart : (k p r : ℕ) → p ≢ r → p < r + 2 ^ k → r < p + 2 ^ k → p % 2 ^ k ≢ r % 2 ^ k
apart k p r differ lo hi = elim (dec_lt p r) [
  | yes below ↦ cells_differ (2 ^ k) p r below hi
  | no above ↦ λ same. cells_differ (2 ^ k) r p (omega (arith, differ)) lo (sym same)
]

-- A place and the one a round before
pub apart_round :
    (k p r : ℕ) → p + 2 ^ k ≢ r → r < p + 2 ^ k + 2 ^ k → p < r → p % 2 ^ k ≢ r % 2 ^ k
apart_round k p r differ lo hi same =
    apart k (p + 2 ^ k) r differ (omega arith) lo (add-mod_right p (2 ^ k) ∙ same)

pub cell-mod :
    {k : ℕ} {q : Mpmcq} {claimed : List ℕ} → Shared k q claimed → (p : ℕ) → cell q p ≡ p % 2 ^ k
cell-mod {k} sh p = ap (bit_and p) sh.mask ∙ bit_and_mask p k
