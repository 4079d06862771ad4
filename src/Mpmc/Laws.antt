-- ===== src/Mpmc/Laws.antt =====
-- mpmc_enqueue and mpmc_dequeue of src/shared/mpmc_queue.c are those of a bounded queue.
use rkt_io.Common.{
  ℕ, ◌+◌, ◌-◌, ◌%◌, ◌^◌, ◌≤◌, ◌<◌, ◌≡◌, ◌⊎◌, inl, inr, refl, sym, ap, ◌∙◌, arith, true, false, some,
  none, List, [], ◌∷◌, ◌++◌, length, bit_and, dec_lt,
}
use rkt_io.Mpmc.{Mpmcq, mpmc_enqueue, mpmc_dequeue}
use rkt_io.Mpmc.Fifo.{Holds}
use native.Mathlib.Nat.{one-le-pow, add-mod_right, pow-le-pow_right}
use rkt_io.Mpmc.Loops.{cell_of, enqueue_claims, dequeue_claims, enqueue_full, dequeue_empty}
use rkt_io.Mpmc.Kept.{with_tail, past_head, with_tail-Holds, past_head-Holds}

enqueue_cell :
    (q : Mpmcq) (k d : ℕ) (xs : List ℕ)
    → Holds q k d xs
    → bit_and q.enqueue_pos q.buffer_mask ≡ (d + length xs) % 2 ^ k
enqueue_cell q k d xs h = rw h.tail (rw h.mask (cell_of (d + length xs) k h.fits))

dequeue_cell :
    (q : Mpmcq) (k d : ℕ) (xs : List ℕ)
    → Holds q k d xs
    → bit_and q.dequeue_pos q.buffer_mask ≡ d % 2 ^ k
dequeue_cell q k d xs h = rw h.head (rw h.mask (cell_of d k h.fits))

-- A queue that holds `xs`, called with more fuel than there are spurious failures: an enqueue with room returns 1 and the queue holds
-- `xs` with the value at its end; on a full queue it returns 0 and nothing changes.
pub mpmc_enqueue_lem :
    (q : Mpmcq) (k d x fuel spurious : ℕ) (xs : List ℕ)
    → Holds q k d xs
    → spurious < fuel
    → ((length xs < 2 ^ k)
        × (q' : Mpmcq) × (mpmc_enqueue fuel spurious q x ≡ some (q', true))
        × Holds q' k d (xs ++ (x ∷ [])))
      ⊎ ((length xs ≡ 2 ^ k) × (mpmc_enqueue fuel spurious q x ≡ some (q, false)))
unfolding mpmc_enqueue
mpmc_enqueue_lem q k d x fuel spurious xs h enough = elim (dec_lt (length xs) (2 ^ k)) [
  | yes p ↦
      let cell = enqueue_cell q k d xs h in
      let hit : q.seq (bit_and q.enqueue_pos q.buffer_mask) ≡ q.enqueue_pos =
        rw cell (h.free (length xs) (omega arith) p ∙ sym h.tail) in
      let claimed =
        enqueue_claims spurious fuel q.enqueue_pos q (omega (arith, h.tail)) enough hit in
      let next : (q.enqueue_pos + 1) % 2 ^ 64 ≡ (d + length xs + 1) % 2 ^ 64 =
        omega (arith, h.tail) in
      (inl (
        p,
        with_tail q k (d + length xs) x,
        simp (claimed, cell, next),
        with_tail-Holds q k d x xs h p,
      ))
  | no p ↦
      let full : length xs ≡ 2 ^ k = omega (arith, h.room) in
      let cell = enqueue_cell q k d xs h in
      let wraps : (d + length xs) % 2 ^ k ≡ (d + 0) % 2 ^ k =
        rw full (add-mod_right d (2 ^ k) ∙ ap (λ m. m % 2 ^ k) {x = d} {y = d + 0} (omega arith)) in
      let small : 2 ^ k ≤ 2 ^ 62 = pow-le-pow_right (omega arith) h.fits in
      let two : 2 ≤ 2 ^ k = pow-le-pow_right {n = 2} (omega arith) h.at_least_two in
      let behind : q.seq (bit_and q.enqueue_pos q.buffer_mask)
          ≡ (q.enqueue_pos + 2 ^ 64 - (2 ^ k - 1)) % 2 ^ 64 =
        rw cell
          (rw wraps (h.used 0 (omega (arith, two)) ∙ omega (arith, h.tail, full, small, two))) in
      let stops =
        enqueue_full spurious fuel q.enqueue_pos (2 ^ k - 1) q (omega arith) (omega (arith, two))
          (omega (arith, small)) behind (omega (arith, h.tail)) in
      inr (full, simp stops)
]

-- A queue that holds `xs`, called with more fuel than there are spurious failures: a dequeue of an empty queue returns 0 and nothing
-- changes; otherwise it returns 1 with the oldest value, and the queue holds the rest.
pub mpmc_dequeue_lem :
    (q : Mpmcq) (k d fuel spurious : ℕ) (xs : List ℕ)
    → Holds q k d xs
    → spurious < fuel
    → ((xs ≡ []) × (mpmc_dequeue fuel spurious q ≡ some (q, none)))
      ⊎ ((x : ℕ) × (rest : List ℕ) × (xs ≡ x ∷ rest)
          × (q' : Mpmcq) × (mpmc_dequeue fuel spurious q ≡ some (q', some x))
          × Holds q' k (d + 1) rest)
unfolding mpmc_dequeue
mpmc_dequeue_lem q k d fuel spurious [] h enough =
    let cell = dequeue_cell q k d [] h in
    let start : d % 2 ^ k ≡ (d + 0) % 2 ^ k =
      ap (λ m. m % 2 ^ k) {x = d} {y = d + 0} (omega arith) in
    let size : 1 ≤ 2 ^ k = one-le-pow k 2 (omega arith) in
    let own : q.seq (bit_and q.dequeue_pos q.buffer_mask) ≡ q.dequeue_pos =
      rw cell (rw start (h.free 0 (omega arith) size ∙ omega (arith, h.head))) in
    let stops =
      dequeue_empty spurious fuel q.dequeue_pos q (omega arith) own (omega (arith, h.head)) in
    inl (refl, simp stops)
mpmc_dequeue_lem q k d fuel spurious (x ∷ rest) h enough =
    let cell = dequeue_cell q k d (x ∷ rest) h in
    let start : d % 2 ^ k ≡ (d + 0) % 2 ^ k =
      ap (λ m. m % 2 ^ k) {x = d} {y = d + 0} (omega arith) in
    let hit : q.seq (bit_and q.dequeue_pos q.buffer_mask) ≡ (q.dequeue_pos + 1) % 2 ^ 64 =
      rw cell (rw start (h.used 0 (omega arith) ∙ omega (arith, h.head))) in
    let claimed = dequeue_claims spurious fuel q.dequeue_pos q (omega (arith, h.head)) enough hit in
    let oldest : q.data_ptr (d % 2 ^ k) ≡ x = rw start (h.values 0 (omega arith)) in
    let size : 1 ≤ 2 ^ k = one-le-pow k 2 (omega arith) in
    let next : (q.dequeue_pos + 1) % 2 ^ 64 ≡ (d + 1) % 2 ^ 64 = omega (arith, h.head) in
    let later : (q.dequeue_pos + q.buffer_mask + 1) % 2 ^ 64 ≡ (d + 2 ^ k) % 2 ^ 64 =
      omega (arith, h.head, h.mask, size) in
    inr (
      x,
      rest,
      refl,
      past_head q k d,
      simp (claimed, cell, next, later, oldest),
      past_head-Holds q k d x rest h,
    )
