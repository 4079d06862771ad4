-- ===== src/Mpmc/System/Writes.antt =====
-- The stores of src/shared/mpmc_queue.c to a cell that a thread has claimed
use rkt_io.Common.{
  ℕ, ◌+◌, ◌%◌, ◌^◌, ◌≤◌, ◌<◌, ◌≡◌, ◌≢◌, ◌⊎◌, inl, inr, sym, ap, subst, arith, ℕ_discrete, List,
  length, get_or, some,
}
use rkt_io.Mpmc.{Mpmcq, write}
use rkt_io.Mpmc.System.{
  Pc, idle, enq_start, enq_look, enq_swap, enq_write, enq_publish, enq_returned, deq_start,
  deq_look, deq_swap, deq_read, deq_free, deq_returned,
}
use rkt_io.Mpmc.System.Order.{Shared, Fine, claims_in, apart, apart_round}

-- A store to the value of a cell, and one to its number
abbrev pub stored : ℕ → Mpmcq → ℕ → ℕ → Mpmcq
stored k q p x = record q { data_ptr = write q.data_ptr (p % 2 ^ k) x }

abbrev pub numbered : ℕ → Mpmcq → ℕ → ℕ → Mpmcq
numbered k q p v = record q { seq = write q.seq (p % 2 ^ k) v }

module _ {k : ℕ} {q : Mpmcq} {claimed : List ℕ} (sh : Shared k q claimed) (p x : ℕ)
    (holds : Fine k q claimed (enq_write x p)) where
  stored_used :
      (r : ℕ)
      → q.dequeue_pos ≤ r
      → r < length claimed
      → (q.seq (r % 2 ^ k) ≡ r)
        ⊎ ((q.seq (r % 2 ^ k) ≡ r + 1)
            × ((stored k q p x).data_ptr (r % 2 ^ k) ≡ get_or claimed r 0))
  stored_used r from below = elim (ℕ_discrete r p) [
    | yes e ↦ inl (subst (λ z. q.seq (z % 2 ^ k) ≡ z) (sym e) holds.2)
    | no differ ↦
        let other = apart k r p differ (omega arith) (omega arith) in
        ground (arith, sh.used r from below, other)
  ]

  pub stored-Shared : Shared k (stored k q p x) claimed
  stored-Shared = record {
    size = sh.size;
    mask = sh.mask;
    few = sh.few;
    tail = sh.tail;
    order = sh.order;
    room = sh.room;
    used = stored_used;
    free = sh.free;
    bounded = sh.bounded;
  }

  pub stored_own : Fine k (stored k q p x) claimed (enq_publish p)
  stored_own = ground arith

  -- Another thread that has claimed another place
  pub stored-Fine :
      (pc : Pc) → claims_in pc ≢ some p → Fine k q claimed pc → Fine k (stored k q p x) claimed pc
  stored-Fine idle away fine = fine
  stored-Fine (enq_start y) away fine = fine
  stored-Fine (enq_look y r) away fine = fine
  stored-Fine (enq_swap y r) away fine = fine
  stored-Fine (enq_write y r) away fine = fine
  stored-Fine (enq_publish r) away fine =
      let other = apart k r p (λ e. away (ap some e)) (omega arith) (omega arith) in
      ground (arith, other)
  stored-Fine (enq_returned r) away fine = fine
  stored-Fine deq_start away fine = fine
  stored-Fine (deq_look r) away fine = fine
  stored-Fine (deq_swap r) away fine = fine
  stored-Fine (deq_read r) away fine =
      let other = apart_round k r p (omega arith) (omega arith) (omega arith) in
      ground (arith, other)
  stored-Fine (deq_free r v) away fine = fine
  stored-Fine (deq_returned r) away fine = fine

module _ {k : ℕ} {q : Mpmcq} {claimed : List ℕ} (sh : Shared k q claimed) (p : ℕ)
    (holds : Fine k q claimed (enq_publish p)) where
  published_used :
      (r : ℕ)
      → q.dequeue_pos ≤ r
      → r < length claimed
      → ((numbered k q p (p + 1)).seq (r % 2 ^ k) ≡ r)
        ⊎ (((numbered k q p (p + 1)).seq (r % 2 ^ k) ≡ r + 1)
            × (q.data_ptr (r % 2 ^ k) ≡ get_or claimed r 0))
  published_used r from below = elim (ℕ_discrete r p) [
    | yes e ↦ inr (
        subst
          (λ z.
            ((numbered k q p (p + 1)).seq (z % 2 ^ k) ≡ z + 1)
            × (q.data_ptr (z % 2 ^ k) ≡ get_or claimed z 0))
          (sym e) (ground arith, holds.3))
    | no differ ↦
        let other = apart k r p differ (omega arith) (omega arith) in
        ground (arith, sh.used r from below, other)
  ]

  published_free :
      (r : ℕ)
      → length claimed ≤ r
      → r < q.dequeue_pos + 2 ^ k
      → ((numbered k q p (p + 1)).seq (r % 2 ^ k) ≡ r)
        ⊎ ((numbered k q p (p + 1)).seq (r % 2 ^ k) + 2 ^ k ≡ r + 1)
  published_free r from below =
      let other = apart k r p (omega arith) (omega arith) (omega arith) in
      ground (arith, sh.free r from below, other)

  pub published-Shared : Shared k (numbered k q p (p + 1)) claimed
  published-Shared = record {
    size = sh.size;
    mask = sh.mask;
    few = sh.few;
    tail = sh.tail;
    order = sh.order;
    room = sh.room;
    used = published_used;
    free = published_free;
    bounded = λ r. let b = sh.bounded r in ground (arith, b, sh.few);
  }

  pub published-Fine :
      (pc : Pc)
      → claims_in pc ≢ some p
      → Fine k q claimed pc
      → Fine k (numbered k q p (p + 1)) claimed pc
  published-Fine idle away fine = fine
  published-Fine (enq_start y) away fine = fine
  published-Fine (enq_look y r) away fine = fine
  published-Fine (enq_swap y r) away fine = elim (ℕ_discrete (r % 2 ^ k) (p % 2 ^ k)) [
    | yes same ↦ ground (arith, same, ap q.seq same)
    | no other ↦ ground (arith, other)
  ]
  published-Fine (enq_write y r) away fine =
      let other = apart k r p (λ e. away (ap some e)) (omega arith) (omega arith) in
      ground (arith, other)
  published-Fine (enq_publish r) away fine =
      let other = apart k r p (λ e. away (ap some e)) (omega arith) (omega arith) in
      ground (arith, other)
  published-Fine (enq_returned r) away fine = fine
  published-Fine deq_start away fine = fine
  published-Fine (deq_look r) away fine = fine
  published-Fine (deq_swap r) away fine = elim (ℕ_discrete (r % 2 ^ k) (p % 2 ^ k)) [
    | yes same ↦ ground (arith, same, ap q.seq same)
    | no other ↦ ground (arith, other)
  ]
  published-Fine (deq_read r) away fine =
      let other = apart_round k r p (omega arith) (omega arith) (omega arith) in
      ground (arith, other)
  published-Fine (deq_free r v) away fine =
      let other = apart_round k r p (omega arith) (omega arith) (omega arith) in
      ground (arith, other)
  published-Fine (deq_returned r) away fine = fine
