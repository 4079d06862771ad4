-- ===== src/Mpmc/System/Frees.antt =====
-- The store of src/shared/mpmc_queue.c that gives a cell back to the enqueues
use rkt_io.Common.{
  ℕ, ◌+◌, ◌%◌, ◌^◌, ◌≤◌, ◌<◌, ◌≡◌, ◌≢◌, ◌⊎◌, inl, sym, ap, ◌∙◌, arith, ℕ_discrete, List, length,
  get_or, some,
}
use rkt_io.Mpmc.{Mpmcq}
use rkt_io.Mpmc.System.{
  Pc, idle, enq_start, enq_look, enq_swap, enq_write, enq_publish, enq_returned, deq_start,
  deq_look, deq_swap, deq_read, deq_free, deq_returned,
}
use rkt_io.Mpmc.System.Order.{Shared, Fine, claims_out, apart, apart_round}
use rkt_io.Mpmc.System.Writes.{numbered}
use native.Mathlib.Nat.{add-mod_right}

module _ {k : ℕ} {q : Mpmcq} {claimed : List ℕ} (sh : Shared k q claimed) (p v : ℕ)
    (holds : Fine k q claimed (deq_free p v)) where
  freed_used :
      (r : ℕ)
      → q.dequeue_pos ≤ r
      → r < length claimed
      → ((numbered k q p (p + 2 ^ k)).seq (r % 2 ^ k) ≡ r)
        ⊎ (((numbered k q p (p + 2 ^ k)).seq (r % 2 ^ k) ≡ r + 1)
            × (q.data_ptr (r % 2 ^ k) ≡ get_or claimed r 0))
  freed_used r from below =
      let other = apart_round k p r (omega arith) (omega arith) (omega arith) in
      ground (arith, sh.used r from below, other)

  freed_free :
      (r : ℕ)
      → length claimed ≤ r
      → r < q.dequeue_pos + 2 ^ k
      → ((numbered k q p (p + 2 ^ k)).seq (r % 2 ^ k) ≡ r)
        ⊎ ((numbered k q p (p + 2 ^ k)).seq (r % 2 ^ k) + 2 ^ k ≡ r + 1)
  freed_free r from below = elim (ℕ_discrete r (p + 2 ^ k)) [
    | yes e ↦
        let same : r % 2 ^ k ≡ p % 2 ^ k = ap (λ z. z % 2 ^ k) e ∙ add-mod_right p (2 ^ k) in
        inl (ground (arith, same))
    | no differ ↦
        let other = apart_round k p r (λ e. differ (sym e)) (omega arith) (omega arith) in
        ground (arith, sh.free r from below, other)
  ]

  pub freed-Shared : Shared k (numbered k q p (p + 2 ^ k)) claimed
  freed-Shared = record {
    size = sh.size;
    mask = sh.mask;
    few = sh.few;
    tail = sh.tail;
    order = sh.order;
    room = sh.room;
    used = freed_used;
    free = freed_free;
    bounded = λ r. let b = sh.bounded r in ground (arith, b, sh.few, sh.order);
  }

  pub freed-Fine :
      (pc : Pc)
      → claims_out pc ≢ some p
      → Fine k q claimed pc
      → Fine k (numbered k q p (p + 2 ^ k)) claimed pc
  freed-Fine idle away fine = fine
  freed-Fine (enq_start y) away fine = fine
  freed-Fine (enq_look y r) away fine = fine
  freed-Fine (enq_swap y r) away fine = elim (ℕ_discrete (r % 2 ^ k) (p % 2 ^ k)) [
    | yes same ↦ ground (arith, same, ap q.seq same, sh.size)
    | no other ↦ ground (arith, other)
  ]
  freed-Fine (enq_write y r) away fine =
      let other = apart_round k p r (omega arith) (omega arith) (omega arith) in
      ground (arith, other)
  freed-Fine (enq_publish r) away fine =
      let other = apart_round k p r (omega arith) (omega arith) (omega arith) in
      ground (arith, other)
  freed-Fine (enq_returned b) away fine = fine
  freed-Fine deq_start away fine = fine
  freed-Fine (deq_look r) away fine = fine
  freed-Fine (deq_swap r) away fine = elim (ℕ_discrete (r % 2 ^ k) (p % 2 ^ k)) [
    | yes same ↦ ground (arith, same, ap q.seq same, sh.size)
    | no other ↦ ground (arith, other)
  ]
  freed-Fine (deq_read r) away fine =
      let other = apart k r p (λ e. away (ap some e)) (omega arith) (omega arith) in
      ground (arith, other)
  freed-Fine (deq_free r w) away fine =
      let other = apart k r p (λ e. away (ap some e)) (omega arith) (omega arith) in
      ground (arith, other)
  freed-Fine (deq_returned r) away fine = fine
