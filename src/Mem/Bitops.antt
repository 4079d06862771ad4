-- ===== src/Mem/Bitops.antt =====
-- What src/sgx/enclave_mem.c uses of the bitmap routines of src/include/bitops.h (a copy of a BSD
-- header): their documented effect on the bits, for sizes that fit their `int` arguments.
use rkt_io.Common.{ℕ, ◌+◌, ◌^◌, ◌≤◌, ◌<◌, ◌≡◌, Bool, true, false, ◌&&◌, ◌||◌, not, leb, ltb}

-- `int bit`, `int start`, `int nr`
abbrev pub int_limit : ℕ
int_limit = 2 ^ 31

-- Bit `i` is one of the `nr` bits from `start` on.
abbrev pub in_region : ℕ → ℕ → ℕ → Bool
in_region start nr i = leb start i && ltb i (start + nr)

-- `test` reads one bit; it is the view in which the other routines are described.
pub record Bitops (Map : Type 0) : Type 0 where
  pub test : Map → ℕ → Bool
  pub bitmap_set : Map → ℕ → ℕ → Map
  pub bitmap_clear : Map → ℕ → ℕ → Map
  pub find_next_bit : Map → ℕ → ℕ → ℕ
  pub find_next_zero_bit : Map → ℕ → ℕ → ℕ
  pub test-set :
      (m : Map) (start nr i : ℕ)
      → start + nr < int_limit
      → test (bitmap_set m start nr) i ≡ (in_region start nr i || test m i)
  pub test-clear :
      (m : Map) (start nr i : ℕ)
      → start + nr < int_limit
      → test (bitmap_clear m start nr) i ≡ (not (in_region start nr i) && test m i)
  -- The result is a set bit, or lies behind the end, in the same word; no bit before it is set.
  pub next_bit_from :
      (m : Map) (size offset : ℕ)
      → size < int_limit
      → offset ≤ size
      → offset ≤ find_next_bit m size offset
  pub next_bit_to :
      (m : Map) (size offset : ℕ)
      → size < int_limit
      → offset ≤ size
      → find_next_bit m size offset ≤ size + 63
  pub next_bit_found :
      (m : Map) (size offset : ℕ)
      → size < int_limit
      → find_next_bit m size offset < size
      → test m (find_next_bit m size offset) ≡ true
  pub next_bit_first :
      (m : Map) (size offset i : ℕ)
      → size < int_limit
      → offset ≤ i
      → i < size
      → i < find_next_bit m size offset
      → test m i ≡ false
  pub next_zero_from :
      (m : Map) (size offset : ℕ)
      → size < int_limit
      → offset ≤ size
      → offset ≤ find_next_zero_bit m size offset
  pub next_zero_to :
      (m : Map) (size offset : ℕ)
      → size < int_limit
      → offset ≤ size
      → find_next_zero_bit m size offset ≤ size + 63
  pub next_zero_found :
      (m : Map) (size offset : ℕ)
      → size < int_limit
      → find_next_zero_bit m size offset < size
      → test m (find_next_zero_bit m size offset) ≡ false
  pub next_zero_first :
      (m : Map) (size offset i : ℕ)
      → size < int_limit
      → offset ≤ i
      → i < size
      → i < find_next_zero_bit m size offset
      → test m i ≡ true

module _ {Map : Type 0} ⦃b : Bitops Map⦄ where
  abbrev pub test : Map → ℕ → Bool
  test = b.test

  abbrev pub bitmap_set : Map → ℕ → ℕ → Map
  bitmap_set = b.bitmap_set

  abbrev pub bitmap_clear : Map → ℕ → ℕ → Map
  bitmap_clear = b.bitmap_clear

  abbrev pub find_next_bit : Map → ℕ → ℕ → ℕ
  find_next_bit = b.find_next_bit

  abbrev pub find_next_zero_bit : Map → ℕ → ℕ → ℕ
  find_next_zero_bit = b.find_next_zero_bit
