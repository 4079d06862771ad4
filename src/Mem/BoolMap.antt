-- ===== src/Mem/BoolMap.antt =====
-- A bitmap as a function, with the routines that src/sgx/enclave_mem.c expects of bitops.h: it
-- shows that what `Bitops` asks for can be met, and lets the tests run.
use rkt_io.Common.{
  ℕ, zero, suc, ◌+◌, ◌-◌, ◌≤◌, ◌<◌, ◌≡◌, refl, arith, Bool, true, false, ◌||◌, ◌&&◌, not,
  ℕ_discrete,
}
use rkt_io.Mem.Bitops.{Bitops, in_region}

abbrev pub BoolMap : Type 0
BoolMap = ℕ → Bool

-- The first of `k` indices from `i` on that passes the test, or `i + k`.
unfoldable pub find : (ℕ → Bool) → ℕ → ℕ → ℕ
find p zero i = i
find p (suc k) i = elim (p i) [ true ↦ i | false ↦ find p k (i + 1) ]

find-from : (p : ℕ → Bool) (k i : ℕ) → i ≤ find p k i
unfolding find
find-from p zero i = omega arith
find-from p (suc k) i = ground (arith, find-from p k (i + 1))

find-to : (p : ℕ → Bool) (k i : ℕ) → find p k i ≤ i + k
unfolding find
find-to p zero i = omega arith
find-to p (suc k) i = ground (arith, find-to p k (i + 1))

find-found : (p : ℕ → Bool) (k i : ℕ) → find p k i < i + k → p (find p k i) ≡ true
unfolding find
find-found p zero i h = absurd (omega arith)
find-found p (suc k) i h = ground (arith, find-found p k (i + 1))

find-first : (p : ℕ → Bool) (k i j : ℕ) → i ≤ j → j < find p k i → p j ≡ false
unfolding find
find-first p zero i j h h' = absurd (omega arith)
find-first p (suc k) i j h h' = elim (ℕ_discrete i j) [
  | yes same ↦ ground arith
  | no other ↦ ground (arith, find-first p k (i + 1) j)
]

unfoldable pub next : (ℕ → Bool) → ℕ → ℕ → ℕ
unfolding find
next p size offset = find p (size - offset) offset

pub next-found :
    (p : ℕ → Bool) (size offset : ℕ) → next p size offset < size → p (next p size offset) ≡ true
unfolding next
next-found p size offset h =
    find-found p (size - offset) offset (omega (arith, find-from p (size - offset) offset))

pub next-from : (p : ℕ → Bool) (size offset : ℕ) → offset ≤ next p size offset
unfolding next
next-from p size offset = find-from p (size - offset) offset

pub next-to : (p : ℕ → Bool) (size offset : ℕ) → offset ≤ size → next p size offset ≤ size + 63
unfolding next
next-to p size offset h = omega (arith, find-to p (size - offset) offset)

pub next-first :
    (p : ℕ → Bool) (size offset i : ℕ) → offset ≤ i → i < next p size offset → p i ≡ false
unfolding next
next-first p size offset i = find-first p (size - offset) offset i

pub not-false : (b : Bool) → not b ≡ false → b ≡ true
not-false b h = ground arith

pub not-true : (b : Bool) → not b ≡ true → b ≡ false
not-true b h = ground arith

instance abbrev pub bool_map : Bitops BoolMap
bool_map = record {
  test = λ m i. m i;
  bitmap_set = λ m start nr i. in_region start nr i || m i;
  bitmap_clear = λ m start nr i. not (in_region start nr i) && m i;
  find_next_bit = next;
  find_next_zero_bit = λ m. next (λ i. not (m i));
  test-set = λ m start nr i h. refl;
  test-clear = λ m start nr i h. refl;
  next_bit_from = λ m size offset h h'. next-from m size offset;
  next_bit_to = λ m size offset h h'. next-to m size offset h';
  next_bit_found = λ m size offset h h'. next-found m size offset h';
  next_bit_first = λ m size offset i h p q r. next-first m size offset i p r;
  next_zero_from = λ m size offset h h'. next-from (λ i. not (m i)) size offset;
  next_zero_to = λ m size offset h h'. next-to (λ i. not (m i)) size offset h';
  next_zero_found = λ m size offset h h'. not-true _ (next-found (λ i. not (m i)) size offset h');
  next_zero_first =
      λ m size offset i h p q r. not-false _ (next-first (λ i. not (m i)) size offset i p r);
}
