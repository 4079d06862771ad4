-- ===== src/Mem/Search/Area.antt =====
-- The search of enclave_mem.c for a free region is a first fit.
use rkt_io.Common.{
  ℕ, zero, suc, ◌+◌, ◌-◌, ◌^◌, ◌≤◌, ◌<◌, ◌≡◌, true, some, dec_lt, arith, lt→ltb, not_lt→ltb,
}
use rkt_io.Mem.Bitops.{Bitops, int_limit, test, find_next_bit, find_next_zero_bit}
use rkt_io.Mem.Layout.{add_size}
use rkt_io.Mem.Search.{Free, zero_area_loop, bitmap_find_next_zero_area}

module _ {Map : Type 0} ⦃b : Bitops Map⦄ (m : Map) (size : ℕ) where
  -- What the search for a free region returns: the first one, or a value that does not fit.
  pub record IsArea (nr found : ℕ) : Type 0 where
    pub free : found + nr ≤ size → Free m found nr
    pub first : (j : ℕ) → j < found → j + nr ≤ size → ¬ Free m j nr
    pub fits : found ≤ size + nr + 63

module _ {Map : Type 0} ⦃b : Bitops Map⦄ (m : Map) (size : ℕ) (small : size < int_limit) where
  -- A region that starts before the next clear bit, or holds the set bit `i`, is not free.
  blocked_before :
      (start nr j : ℕ)
      → start ≤ j
      → j < find_next_zero_bit m size start
      → j < size
      → 0 < nr
      → ¬ Free m j nr
  blocked_before start nr j h before h' p free =
      ground (arith, free j, b.next_zero_first m size start j small h h' before)

  blocked_at : (nr i j : ℕ) → j ≤ i → i < j + nr → test m i ≡ true → ¬ Free m j nr
  blocked_at nr i j h h' set free = ground (arith, free i)

  -- One round of the search; `before` says that no region before `start` is free.
  module _ (start nr : ℕ) (h : start ≤ size) (p : 0 < nr) (q : nr < 2 ^ 60)
      (before : (j : ℕ) → j < start → ¬ Free m j nr) where
    abbrev index : ℕ
    index = find_next_zero_bit m size start

    before_index : (j : ℕ) → j < index → j < size → ¬ Free m j nr
    before_index j hj hs = elim (dec_lt j start) [
      | yes early ↦ before j early
      | no late ↦ blocked_before start nr j (omega arith) hj hs p
    ]

    no_wrap : add_size index nr ≡ index + nr
    no_wrap = omega (arith, b.next_zero_to m size start small h)

    IsArea-none : size < index + nr → IsArea m size nr (index + nr)
    IsArea-none over = record {
      free = λ fits. absurd (omega arith);
      first = λ j hj fits. before_index j (omega arith) (omega arith);
      fits = omega (arith, b.next_zero_to m size start small h);
    }

    IsArea-found :
        index + nr ≤ size → index + nr ≤ find_next_bit m (index + nr) index → IsArea m size nr index
    IsArea-found fits clear = record {
      free =
          λ _ i hi hi'. b.next_bit_first m (index + nr) index i (omega arith) hi hi' (omega arith);
      first = λ j hj fits'. before_index j hj (omega arith);
      fits = omega arith;
    }

    before_next :
        index + nr ≤ size
        → let i = find_next_bit m (index + nr) index in
          i < index + nr → (j : ℕ) → j < i + 1 → ¬ Free m j nr
    before_next fits within j hj = elim (dec_lt j index) [
      | yes early ↦ before_index j early (omega arith)
      | no late ↦
          blocked_at nr (find_next_bit m (index + nr) index) j (omega arith) (omega arith)
            (b.next_bit_found m (index + nr) index (omega arith) within)
    ]

  zero_area_loop_lem :
      (fuel start nr : ℕ)
      → start ≤ size
      → size - start < fuel
      → 0 < nr
      → nr < 2 ^ 60
      → ((j : ℕ) → j < start → ¬ Free m j nr)
      → (r : ℕ) × (zero_area_loop m fuel size start nr ≡ some r) × IsArea m size nr r
  unfolding zero_area_loop
  zero_area_loop_lem zero start nr h enough p q before = absurd (omega arith)
  zero_area_loop_lem (suc fuel) start nr h enough p q before =
      let index = find_next_zero_bit m size start in
      let nw : add_size index nr ≡ index + nr = no_wrap start nr h p q before in
      let i = find_next_bit m (index + nr) index in
      rw nw (elim (dec_lt size (index + nr)) [
        | yes over ↦ (index + nr, rw (lt→ltb _ _ over), IsArea-none start nr h p q before over)
        | no fits ↦ elim (dec_lt i (index + nr)) [
          | yes within ↦
              let next = before_next start nr h p q before (omega arith) within in
              let from = b.next_zero_from m size start small h in
              let from' = b.next_bit_from m (index + nr) index (omega arith) (omega arith) in
              let ih = zero_area_loop_lem fuel (i + 1) nr (omega arith) (omega arith) p q next in
              (ih.0, rw (not_lt→ltb _ _ fits, lt→ltb _ _ within) ih.1, ih.2)
          | no behind ↦ (
            index,
            rw (not_lt→ltb _ _ fits, not_lt→ltb _ _ behind),
            IsArea-found start nr h p q before (omega arith) (omega arith),
          )
        ]
      ])

  -- The search from page 0 ends, and finds the first free region of `nr` pages if there is one.
  pub bitmap_find_next_zero_area_lem :
      (nr : ℕ)
      → 0 < nr
      → nr < 2 ^ 60
      → (r : ℕ) × (bitmap_find_next_zero_area m size 0 nr ≡ some r) × IsArea m size nr r
  unfolding bitmap_find_next_zero_area
  bitmap_find_next_zero_area_lem nr p q =
      zero_area_loop_lem (suc size) 0 nr (omega arith) (omega arith) p q
        (λ j h. absurd (omega arith))
