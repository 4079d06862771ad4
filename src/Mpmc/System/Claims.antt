-- ===== src/Mpmc/System/Claims.antt =====
-- The exchanges of src/shared/mpmc_queue.c that claim a place
use rkt_io.Common.{
  ℕ, ◌+◌, ◌%◌, ◌^◌, ◌≤◌, ◌<◌, ◌≡◌, ◌⊎◌, inl, inr, sym, ap, ◌∙◌, subst, arith, dec_lt, ℕ_discrete,
  List, [], ◌∷◌, ◌++◌, length, length-append, get_or,
}
use rkt_io.Mpmc.{Mpmcq}
use rkt_io.Mpmc.Kept.{get_or-append_left, get_or-append_last}
use rkt_io.Mpmc.System.{
  Pc, idle, enq_start, enq_look, enq_swap, enq_write, enq_publish, enq_returned, deq_start,
  deq_look, deq_swap, deq_read, deq_free, deq_returned,
}
use rkt_io.Mpmc.System.Order.{Shared, Fine}
use native.Mathlib.Nat.{add-mod_right}

module _ {k : ℕ} {q : Mpmcq} {claimed : List ℕ} (sh : Shared k q claimed) (x : ℕ)
    (swaps : Fine k q claimed (enq_swap x (length claimed)))
    (few : length claimed + 2 ^ k + 1 ≤ 2 ^ 63) where
  abbrev pub claimed_more : List ℕ
  claimed_more = claimed ++ (x ∷ [])

  one_more : length claimed_more ≡ length claimed + 1
  one_more = length-append claimed (x ∷ [])

  -- A number that has not gone back shows that the cell is free.
  not_full : length claimed < q.dequeue_pos + 2 ^ k
  not_full = elim (dec_lt (length claimed) (q.dequeue_pos + 2 ^ k)) [
    | yes h ↦ h
    | no full ↦
        let e : length claimed ≡ q.dequeue_pos + 2 ^ k = omega (arith, sh.room) in
        let same : length claimed % 2 ^ k ≡ q.dequeue_pos % 2 ^ k =
          ap (λ z. z % 2 ^ k) e ∙ add-mod_right q.dequeue_pos (2 ^ k) in
        let old = sh.used q.dequeue_pos (omega arith) (omega (arith, sh.size)) in
        absurd (ground (arith, ap q.seq same, old, sh.size))
  ]

  was_free : q.seq (length claimed % 2 ^ k) ≡ length claimed
  was_free =
      let old = sh.free (length claimed) (omega arith) not_full in ground (arith, old, sh.size)

  claim_used :
      (r : ℕ)
      → q.dequeue_pos ≤ r
      → r < length claimed_more
      → (q.seq (r % 2 ^ k) ≡ r)
        ⊎ ((q.seq (r % 2 ^ k) ≡ r + 1) × (q.data_ptr (r % 2 ^ k) ≡ get_or claimed_more r 0))
  claim_used r from below = elim (dec_lt r (length claimed)) [
    | yes old ↦
        let same = get_or-append_left claimed (x ∷ []) r old in
        ground (arith, sh.used r from old, same)
    | no last ↦
        let e : length claimed ≡ r = omega (arith, one_more) in
        inl (subst (λ z. q.seq (z % 2 ^ k) ≡ z) e was_free)
  ]

  pub claim-Shared : Shared k (record q { enqueue_pos = length claimed + 1 }) claimed_more
  claim-Shared = record {
    size = sh.size;
    mask = sh.mask;
    few = omega (arith, one_more);
    tail = sym one_more;
    order = omega (arith, one_more, sh.order);
    room = omega (arith, one_more, not_full);
    used = claim_used;
    free = λ r from below. sh.free r (omega (arith, one_more)) below;
    bounded = sh.bounded;
  }

  pub claim_own :
      Fine k
        (record q { enqueue_pos = length claimed + 1 })
        claimed_more
        (enq_write x (length claimed))
  claim_own = (sh.order, omega (arith, one_more), was_free, get_or-append_last claimed x)

  -- A cell that is still read is not the one that was claimed.
  claim_round :
      (r : ℕ)
      → r < q.dequeue_pos
      → length claimed ≤ r + 2 ^ k
      → q.seq (r % 2 ^ k) ≡ r + 1
      → length claimed_more ≤ r + 2 ^ k
  claim_round r before near number = elim (ℕ_discrete (length claimed) (r + 2 ^ k)) [
    | no differ ↦ omega (arith, one_more)
    | yes e ↦
        let same : length claimed % 2 ^ k ≡ r % 2 ^ k =
          ap (λ z. z % 2 ^ k) e ∙ add-mod_right r (2 ^ k) in
        absurd (omega (arith, ap q.seq same, was_free, sh.size))
  ]

  pub claim-Fine :
      (pc : Pc)
      → Fine k q claimed pc
      → Fine k (record q { enqueue_pos = length claimed + 1 }) claimed_more pc
  claim-Fine idle fine = fine
  claim-Fine (enq_start y) fine = fine
  claim-Fine (enq_look y r) fine = omega (arith, one_more)
  claim-Fine (enq_swap y r) fine = omega (arith, one_more)
  claim-Fine (enq_write y r) fine =
      let same = get_or-append_left claimed (x ∷ []) r fine.1 in
      (fine.0, omega (arith, one_more), fine.2, same ∙ fine.3)
  claim-Fine (enq_publish r) fine =
      let same = get_or-append_left claimed (x ∷ []) r fine.1 in
      (fine.0, omega (arith, one_more), fine.2, fine.3 ∙ sym same)
  claim-Fine (enq_returned b) fine = fine
  claim-Fine deq_start fine = fine
  claim-Fine (deq_look r) fine = fine
  claim-Fine (deq_swap r) fine = fine
  claim-Fine (deq_read r) (before, near, number, value) =
      let same = get_or-append_left claimed (x ∷ []) r (omega (arith, sh.order)) in
      (before, claim_round r before near number, number, value ∙ sym same)
  claim-Fine (deq_free r v) (before, near, number, value) =
      let same = get_or-append_left claimed (x ∷ []) r (omega (arith, sh.order)) in
      (before, claim_round r before near number, number, value ∙ sym same)
  claim-Fine (deq_returned r) fine = fine

module _ {k : ℕ} {q : Mpmcq} {claimed : List ℕ} (sh : Shared k q claimed)
    (swaps : Fine k q claimed (deq_swap q.dequeue_pos)) where
  not_empty : q.dequeue_pos < length claimed
  not_empty = elim (dec_lt q.dequeue_pos (length claimed)) [
    | yes h ↦ h
    | no empty ↦
        let next = sh.free q.dequeue_pos (omega arith) (omega (arith, sh.size)) in
        absurd (ground (arith, next, sh.size))
  ]

  was_ready :
      (q.seq (q.dequeue_pos % 2 ^ k) ≡ q.dequeue_pos + 1)
      × (q.data_ptr (q.dequeue_pos % 2 ^ k) ≡ get_or claimed q.dequeue_pos 0)
  was_ready = let old = sh.used q.dequeue_pos (omega arith) not_empty in ground (arith, old)

  taken_free :
      (r : ℕ)
      → length claimed ≤ r
      → r < q.dequeue_pos + 1 + 2 ^ k
      → (q.seq (r % 2 ^ k) ≡ r) ⊎ (q.seq (r % 2 ^ k) + 2 ^ k ≡ r + 1)
  taken_free r from below = elim (dec_lt r (q.dequeue_pos + 2 ^ k)) [
    | yes old ↦ sh.free r from old
    | no last ↦
        let e : r ≡ q.dequeue_pos + 2 ^ k = omega arith in
        let same : r % 2 ^ k ≡ q.dequeue_pos % 2 ^ k =
          ap (λ z. z % 2 ^ k) e ∙ add-mod_right q.dequeue_pos (2 ^ k) in
        inr (omega (arith, ap q.seq same, was_ready))
  ]

  pub taken-Shared : Shared k (record q { dequeue_pos = q.dequeue_pos + 1 }) claimed
  taken-Shared = record {
    size = sh.size;
    mask = sh.mask;
    few = sh.few;
    tail = sh.tail;
    order = omega (arith, not_empty);
    room = omega (arith, sh.room);
    used = λ r from below. sh.used r (omega arith) below;
    free = taken_free;
    bounded = sh.bounded;
  }

  pub taken_own :
      Fine k (record q { dequeue_pos = q.dequeue_pos + 1 }) claimed (deq_read q.dequeue_pos)
  taken_own = (omega arith, sh.room, was_ready.0, was_ready.1)

  -- A cell that is still written is not the one that was taken.
  behind_taken : (r : ℕ) → q.dequeue_pos ≤ r → q.seq (r % 2 ^ k) ≡ r → q.dequeue_pos + 1 ≤ r
  behind_taken r from number = elim (ℕ_discrete q.dequeue_pos r) [
    | no differ ↦ omega arith
    | yes e ↦ let same = ap (λ z. q.seq (z % 2 ^ k)) e in absurd (omega (arith, same, was_ready.0))
  ]

  pub taken-Fine :
      (pc : Pc)
      → Fine k q claimed pc
      → Fine k (record q { dequeue_pos = q.dequeue_pos + 1 }) claimed pc
  taken-Fine idle fine = fine
  taken-Fine (enq_start y) fine = fine
  taken-Fine (enq_look y r) fine = fine
  taken-Fine (enq_swap y r) fine = fine
  taken-Fine (enq_write y r) (from, below, number, value) =
      (behind_taken r from number, below, number, value)
  taken-Fine (enq_publish r) (from, below, number, value) =
      (behind_taken r from number, below, number, value)
  taken-Fine (enq_returned b) fine = fine
  taken-Fine deq_start fine = fine
  taken-Fine (deq_look r) fine = omega arith
  taken-Fine (deq_swap r) fine = omega arith
  taken-Fine (deq_read r) (before, near, number, value) = (omega arith, near, number, value)
  taken-Fine (deq_free r v) (before, near, number, value) = (omega arith, near, number, value)
  taken-Fine (deq_returned r) fine = fine
