-- ===== src/Mem/Layout.antt =====
-- Addresses and page indices of the managed range.
use rkt_io.Common.{
  ℕ, ◌+◌, ◌-◌, ◌*◌, ◌/◌, ◌%◌, ◌^◌, ◌≤◌, ◌<◌, ◌≡◌, Bool, true, ◌&&◌, leb, if◌then◌else◌, arith,
}
use rkt_io.Mem.Bitops.{int_limit}

abbrev pub page_size : ℕ
page_size = 4096

abbrev pub bits_per_byte : ℕ
bits_per_byte = 8

-- `size_t` and pointer arithmetic
abbrev pub word_mod : ℕ
word_mod = 2 ^ 64

abbrev pub add_size : ℕ → ℕ → ℕ
add_size a b = (a + b) % word_mod

abbrev pub sub_size : ℕ → ℕ → ℕ
sub_size a b = (a + word_mod - b) % word_mod

abbrev pub mul_size : ℕ → ℕ → ℕ
mul_size a b = a * b % word_mod

-- DIV_ROUNDUP at `PAGE_SIZE`
unfoldable pub pages_of : ℕ → ℕ
pages_of length = add_size length (page_size - 1) / page_size

-- The static variables of enclave_mem.c; the ticket lock is held by whoever uses them.
pub record Mman (Map : Type 0) : Type 0 where
  pub bitmap : Map
  pub base : ℕ  -- mmap_base, the first page
  pub last : ℕ  -- mmap_end, the last page
  pub num_pages : ℕ
  pub used_pages : ℕ
  pub files : ℕ
  pub topdown : Bool

module _ {Map : Type 0} (s : Mman Map) where
  open s use {base, last, topdown}

  unfoldable pub in_mmap_range : ℕ → ℕ → Bool
  in_mmap_range addr size = leb base addr && leb (add_size addr size) last

  unfoldable pub index_to_addr : ℕ → ℕ
  index_to_addr index =
      if topdown
      then sub_size last (mul_size index page_size)
      else add_size base (mul_size index page_size)

  unfoldable pub addr_to_index : ℕ → ℕ
  addr_to_index addr =
      if topdown then sub_size last addr / page_size else sub_size addr base / page_size

  unfoldable pub index_range_to_base_addr : ℕ → ℕ → ℕ
  unfolding index_to_addr
  index_range_to_base_addr index pages =
      if topdown then index_to_addr (add_size index (sub_size pages 1)) else index_to_addr index

  unfoldable pub addr_range_to_index : ℕ → ℕ → ℕ
  unfolding addr_to_index
  addr_range_to_index addr pages =
      if topdown then sub_size (addr_to_index addr) (sub_size pages 1) else addr_to_index addr

-- The range that `enclave_mman_init` lays out: `num_pages` pages from `base` to the end of `last`,
-- few enough for the `int` arguments of the bitmap routines.
pub record IsLaidOut {Map : Type 0} (s : Mman Map) : Type 0 where
  pub some_page : 0 < s.num_pages
  pub few_pages : s.num_pages < int_limit
  pub base_pos : 0 < s.base
  pub base_aligned : s.base % page_size ≡ 0
  pub last_page : s.last + page_size ≡ s.base + s.num_pages * page_size
  pub fits : s.last + page_size < word_mod

pub in_mmap_range_lem :
    {Map : Type 0} (s : Mman Map) (addr length : ℕ)
    → addr + length < word_mod
    → in_mmap_range s addr length ≡ true
    → (s.base ≤ addr) × (addr + length ≤ s.last)
unfolding in_mmap_range
in_mmap_range_lem s addr length fits inside = ground arith

-- The pages of a length that `size_t` can round up.
pub pages_of_bounds :
    (length : ℕ)
    → 0 < length
    → length < 2 ^ 63
    → (0 < pages_of length)
      × (length ≤ pages_of length * page_size)
      × (pages_of length * page_size < length + page_size)
unfolding pages_of
pages_of_bounds length h h' = omega arith

module _ {Map : Type 0} {s : Mman Map} (v : IsLaidOut s) where
  -- An index and the address of its page determine each other.
  pub addr_to_index-index_to_addr :
      (i : ℕ) → i < s.num_pages → addr_to_index s (index_to_addr s i) ≡ i
  unfolding addr_to_index index_to_addr
  addr_to_index-index_to_addr i h = ground arith

  -- A range that passes the test of `enclave_mmap` and `enclave_munmap` is a region of the bitmap.
  pub addr_range_to_index_inside :
      (addr length : ℕ)
      → addr % page_size ≡ 0
      → addr + length < word_mod
      → 0 < length
      → length < 2 ^ 63
      → in_mmap_range s addr length ≡ true
      → (addr_range_to_index s addr (pages_of length) + pages_of length ≤ s.num_pages)
        × (index_range_to_base_addr s
              (addr_range_to_index s addr (pages_of length))
              (pages_of length)
            ≡ addr)
  unfolding addr_range_to_index index_range_to_base_addr addr_to_index index_to_addr
  addr_range_to_index_inside addr length al ad lo hi inside =
      let inside' = in_mmap_range_lem s addr length ad inside in
      ground (arith, pages_of_bounds length lo hi)

  -- A region of the bitmap is a page-aligned range between `base` and the end of the last page.
  pub index_range_to_base_addr_inside :
      (i n : ℕ)
      → 0 < n
      → i + n ≤ s.num_pages
      → let a = index_range_to_base_addr s i n in
        (a % page_size ≡ 0)
        × (s.base ≤ a)
        × (a + n * page_size ≤ s.last + page_size)
        × (addr_range_to_index s a n ≡ i)
  unfolding addr_range_to_index index_range_to_base_addr addr_to_index index_to_addr
  index_range_to_base_addr_inside i n p h = ground arith
