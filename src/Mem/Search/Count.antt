-- ===== src/Mem/Search/Count.antt =====
-- The counting loop of enclave_mem.c counts.
use rkt_io.Common.{ℕ, zero, suc, ◌+◌, ◌-◌, ◌≤◌, ◌<◌, ◌≡◌, true, some, dec_lt, arith}
use rkt_io.Mem.Bitops.{Bitops, int_limit, test, find_next_bit}
use rkt_io.Mem.Search.{Free, count_bits, count_bits-Free, count_loop, bitmap_count_set_bits}

module _ {Map : Type 0} ⦃b : Bitops Map⦄ (m : Map) where
  count_bits_skip :
      (start nr k : ℕ)
      → k ≤ nr
      → Free m start k
      → count_bits m start nr ≡ count_bits m (start + k) (nr - k)
  unfolding count_bits
  count_bits_skip start nr zero h free =
      let e : start + 0 ≡ start = omega arith in let e' : nr - 0 ≡ nr = omega arith in rw (e, e')
  count_bits_skip start zero (suc k) h free = absurd (omega arith)
  count_bits_skip start (suc nr) (suc k) h free = ground (
    arith,
    free start,
    count_bits_skip (start + 1) nr k (omega arith) (λ i p q. free i (omega arith) (omega arith)),
  )

  count_bits_first :
      (start nr : ℕ)
      → 0 < nr
      → test m start ≡ true
      → count_bits m start nr ≡ suc (count_bits m (start + 1) (nr - 1))
  unfolding count_bits
  count_bits_first start zero h set = absurd (omega arith)
  count_bits_first start (suc nr) h set =
      let e : suc nr - 1 ≡ nr = omega arith in rw (e, set) (omega arith)

module _ {Map : Type 0} ⦃b : Bitops Map⦄ (m : Map) (size : ℕ) (small : size < int_limit) where
  next_bit-Free :
      (offset nr : ℕ)
      → offset + nr ≤ size
      → offset + nr ≤ find_next_bit m size offset
      → Free m offset nr
  next_bit-Free offset nr h far i p q =
      b.next_bit_first m size offset i small p (omega arith) (omega arith)

  count_bits-next_bit :
      (i limit : ℕ)
      → i ≤ limit
      → limit ≤ size
      → let bit = find_next_bit m size i in
        bit < limit → count_bits m i (limit - i) ≡ suc (count_bits m (bit + 1) (limit - (bit + 1)))
  count_bits-next_bit i limit h h' within =
      let bit = find_next_bit m size i in
      let from : i ≤ bit = b.next_bit_from m size i small (omega arith) in
      let back : i + (bit - i) ≡ bit = omega arith in
      let rest : limit - i - (bit - i) ≡ limit - bit = omega arith in
      let less : limit - bit - 1 ≡ limit - (bit + 1) = omega arith in
      let skip =
        count_bits_skip m i (limit - i) (bit - i) (omega arith)
          (next_bit-Free i (bit - i) (omega arith) (omega arith)) in
      rw (skip, back, rest)
        (rw (← less) (
          count_bits_first m bit (limit - bit) (omega arith)
            (b.next_bit_found m size i small (omega arith))))

  count_loop_lem :
      (fuel limit i retval : ℕ)
      → limit ≤ size
      → i ≤ limit
      → limit - i < fuel
      → count_loop m fuel size limit (find_next_bit m size i) retval
        ≡ some (retval + count_bits m i (limit - i))
  unfolding count_loop
  count_loop_lem zero limit i retval h h' enough = absurd (omega arith)
  count_loop_lem (suc fuel) limit i retval h h' enough =
      let bit = find_next_bit m size i in
      elim (dec_lt bit limit) [
        | yes within ↦ ground (
          arith,
          b.next_bit_from m size i small (omega arith),
          count_bits-next_bit i limit h' h within,
          count_loop_lem fuel limit (bit + 1) (retval + 1) h,
        )
        | no behind ↦ ground (
          arith,
          count_bits-Free m i (limit - i) (next_bit-Free i (limit - i) (omega arith) (omega arith)),
        )
      ]

  -- The loop over the set bits of a region inside the map ends, and counts them.
  pub bitmap_count_set_bits_lem :
      (start nr : ℕ)
      → start + nr ≤ size
      → bitmap_count_set_bits m size start nr ≡ some (count_bits m start nr)
  unfolding bitmap_count_set_bits
  bitmap_count_set_bits_lem start nr h =
      let e : start + nr - start ≡ nr = omega arith in
      ground (arith, count_loop_lem (suc nr) (start + nr) start 0, e)
