-- ===== src/Mem/Search/Tally.antt =====
-- How the number of set bits changes when a region is set or cleared.
use rkt_io.Common.{ℕ, zero, suc, ◌+◌, ◌-◌, ◌≤◌, ◌<◌, ◌≡◌, true, false, refl, arith}
use rkt_io.Mem.Bitops.{Bitops, int_limit, test, bitmap_set, bitmap_clear, in_region}
use rkt_io.Mem.Search.{count_bits, count_bits-Free}

module _ {Map : Type 0} ⦃b : Bitops Map⦄ where
  count_bits-add :
      (m : Map) (start x y : ℕ)
      → count_bits m start (x + y) ≡ count_bits m start x + count_bits m (start + x) y
  unfolding count_bits
  count_bits-add m start zero y =
      let e : 0 + y ≡ y = omega arith in
      let e' : start + 0 ≡ start = omega arith in rw (e, e') (omega arith)
  count_bits-add m start (suc x) y =
      let e : suc x + y ≡ suc (x + y) = omega arith in
      let e' : start + suc x ≡ start + 1 + x = omega arith in
      rw (e, e') (omega (arith, count_bits-add m (start + 1) x y))

  count_bits-add_zero :
      (m : Map) (x y : ℕ) → count_bits m 0 (x + y) ≡ count_bits m 0 x + count_bits m x y
  count_bits-add_zero m x y = let e : 0 + x ≡ x = omega arith in rw e at (count_bits-add m 0 x y)

  count_bits-congr :
      (m m' : Map) (start nr : ℕ)
      → ((j : ℕ) → start ≤ j → j < start + nr → test m j ≡ test m' j)
      → count_bits m start nr ≡ count_bits m' start nr
  unfolding count_bits
  count_bits-congr m m' start zero h = refl
  count_bits-congr m m' start (suc nr) h = rw (
    h start (omega arith) (omega arith),
    count_bits-congr m m' (start + 1) nr (λ j p q. h j (omega arith) (omega arith)),
  )

  pub count_bits-full :
      (m : Map) (start nr : ℕ)
      → ((j : ℕ) → start ≤ j → j < start + nr → test m j ≡ true)
      → count_bits m start nr ≡ nr
  unfolding count_bits
  count_bits-full m start zero h = refl
  count_bits-full m start (suc nr) h =
      rw
        (
          h start (omega arith) (omega arith),
          count_bits-full m (start + 1) nr (λ j p q. h j (omega arith) (omega arith)),
        )
        (omega arith)

  pub count_bits-le : (m : Map) (start nr : ℕ) → count_bits m start nr ≤ nr
  unfolding count_bits
  count_bits-le m start zero = omega arith
  count_bits-le m start (suc nr) = ground (arith, count_bits-le m (start + 1) nr)

  -- A map that differs from another in one region only.
  count_bits_region :
      (m m' : Map) (total start nr : ℕ)
      → start + nr ≤ total
      → ((j : ℕ) → in_region start nr j ≡ false → test m' j ≡ test m j)
      → count_bits m' 0 total + count_bits m start nr
        ≡ count_bits m 0 total + count_bits m' start nr
  count_bits_region m m' total start nr h same =
      let rest = total - (start + nr) in
      let e : total ≡ start + nr + rest = omega arith in
      let low = count_bits-congr m' m 0 start (λ j p q. same j (ground arith)) in
      let high = count_bits-congr m' m (start + nr) rest (λ j p q. same j (ground arith)) in
      rw e (
        omega (
          arith,
          low,
          high,
          count_bits-add_zero m (start + nr) rest,
          count_bits-add_zero m' (start + nr) rest,
          count_bits-add_zero m start nr,
          count_bits-add_zero m' start nr,
        ))

  module _ (m : Map) (total start nr : ℕ) (small : total < int_limit) (h : start + nr ≤ total) where
    pub count_bits-set :
        count_bits (bitmap_set m start nr) 0 total + count_bits m start nr
        ≡ count_bits m 0 total + nr
    count_bits-set =
        let bits = λ (j : ℕ). b.test-set m start nr j (omega arith) in
        let full =
          count_bits-full (bitmap_set m start nr) start nr (λ j p q. ground (arith, bits j)) in
        rw full at (
          count_bits_region m (bitmap_set m start nr) total start nr h
            (λ j out. ground (arith, bits j)))

    pub count_bits-clear :
        count_bits (bitmap_clear m start nr) 0 total + count_bits m start nr ≡ count_bits m 0 total
    count_bits-clear =
        let bits = λ (j : ℕ). b.test-clear m start nr j (omega arith) in
        let none_set =
          count_bits-Free (bitmap_clear m start nr) start nr (λ j p q. ground (arith, bits j)) in
        omega (
          arith,
          none_set,
          count_bits_region m (bitmap_clear m start nr) total start nr h
              (λ j out. ground (arith, bits j)),
        )
