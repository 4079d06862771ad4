-- ===== src/Mem/Search.antt =====
-- The two loops over the bitmap of src/sgx/enclave_mem.c: counting the set bits of a region, and
-- finding a free one.
pub mod Count
pub mod Area
pub mod Tally
use rkt_io.Common.{
  ℕ, zero, suc, ◌+◌, ◌-◌, ◌^◌, ◌≤◌, ◌<◌, ◌≡◌, refl, true, false, Option, some, none, ltb,
  if◌then◌else◌, dec_lt, lt→ltb, arith,
}
use rkt_io.Mem.Bitops.{Bitops, int_limit, test, find_next_bit, find_next_zero_bit}
use rkt_io.Mem.Layout.{add_size, word_mod}

module _ {Map : Type 0} ⦃b : Bitops Map⦄ (m : Map) where
  -- `for_each_set_bit_in_region`; `none` is a loop that does not end.
  count_loop : ℕ → ℕ → ℕ → ℕ → ℕ → Option ℕ
  count_loop zero size limit bit retval = none
  count_loop (suc fuel) size limit bit retval =
      let rest = count_loop fuel size limit (find_next_bit m size (bit + 1)) (retval + 1) in
      if ltb bit limit then rest else some retval

  unfoldable pub bitmap_count_set_bits : ℕ → ℕ → ℕ → Option ℕ
  unfolding count_loop
  bitmap_count_set_bits size start nr =
      count_loop (suc nr) size (start + nr) (find_next_bit m size start) 0

  zero_area_loop : ℕ → ℕ → ℕ → ℕ → Option ℕ
  zero_area_loop zero size start nr = none
  zero_area_loop (suc fuel) size start nr =
      let index = find_next_zero_bit m size start in
      let stop = add_size index nr in
      let i = find_next_bit m stop index in
      let rest = zero_area_loop fuel size (i + 1) nr in
      if ltb size stop then some stop else if ltb i stop then rest else some index

  unfoldable pub bitmap_find_next_zero_area : ℕ → ℕ → ℕ → Option ℕ
  unfolding zero_area_loop
  bitmap_find_next_zero_area size start nr = zero_area_loop (suc size) size start nr

  -- The number of set bits among the `nr` bits from `start` on.
  unfoldable pub count_bits : ℕ → ℕ → ℕ
  count_bits start zero = 0
  count_bits start (suc nr) = (if test m start then 1 else 0) + count_bits (start + 1) nr

  -- No bit of the region is set.
  abbrev pub Free : ℕ → ℕ → Type 0
  Free start nr = (i : ℕ) → start ≤ i → i < start + nr → test m i ≡ false

  pub count_bits-Free : (start nr : ℕ) → Free start nr → count_bits start nr ≡ 0
  unfolding count_bits
  count_bits-Free start zero h = refl
  count_bits-Free start (suc nr) h =
      ground
        (arith, h start, count_bits-Free (start + 1) nr (λ i p q. h i (omega arith) (omega arith)))

  pub Free-count_bits : (start nr : ℕ) → count_bits start nr ≡ 0 → Free start nr
  unfolding count_bits
  Free-count_bits start zero h i p q = absurd (omega arith)
  Free-count_bits start (suc nr) h i p q =
      ground (arith, Free-count_bits (start + 1) nr (ground arith) i)
