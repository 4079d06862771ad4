-- ===== src/Mem/Alloc/Fixed.antt =====
-- enclave_mmap of src/sgx/enclave_mem.c with MAP_FIXED, and with a hint that it can take.
use rkt_io.Common.{ℕ, ◌+◌, ◌%◌, ◌^◌, ◌<◌, ◌≡◌, arith, true, false, some, ◌||◌}
use rkt_io.Mem.Bitops.{Bitops, test, bitmap_set, in_region}
use rkt_io.Mem.Layout.{
  page_size, word_mod, add_size, pages_of, Mman, in_mmap_range, in_mmap_range_lem,
  addr_range_to_index, addr_range_to_index_inside,
}
use rkt_io.Mem.Search.{count_bits, count_bits-Free, Free}
use rkt_io.Mem.Search.Count.{bitmap_count_set_bits_lem}
use rkt_io.Mem.Search.Tally.{count_bits-set}
use rkt_io.Mem.Alloc.{ptr, place_fixed, place_hint, place_rest, enclave_mmap}
use rkt_io.Mem.Alloc.Valid.{IsValid, used_pages-le}

module _ {Map : Type 0} ⦃b : Bitops Map⦄ where
  module _ {s : Mman Map} (v : IsValid s) (addr length : ℕ) (al : addr % page_size ≡ 0)
      (fits : addr + length < word_mod) (lo : 0 < length) (hi : length < 2 ^ 63) where
    no_wrap :
        in_mmap_range s addr length ≡ true
        → add_size s.used_pages (pages_of length) ≡ s.used_pages + pages_of length
    no_wrap range =
        let (inside, back) = addr_range_to_index_inside v.laid addr length al fits lo hi range in
        omega (arith, used_pages-le v, v.laid.few_pages)

    -- On a valid heap, for a page-aligned address and a length that is more than 0 and less than
    -- 2 ^ 63, whose sum is less than 2 ^ 64, and that pass the range test: MAP_FIXED ends and returns
    -- the address asked for, with exactly its pages marked besides those that were. The counter then
    -- exceeds the number of mapped pages by the `again` pages that were mapped before.
    pub enclave_mmap_fixed :
        in_mmap_range s addr length ≡ true
        → let n = pages_of length in
          let i = addr_range_to_index s addr n in
          let again = count_bits s.bitmap i n in
          (s' : Mman Map) × (enclave_mmap s addr length true ≡ some (s', ptr addr))
          × ((j : ℕ) → test s'.bitmap j ≡ (in_region i n j || test s.bitmap j))
          × (s'.used_pages ≡ count_bits s'.bitmap 0 s'.num_pages + again)
    unfolding enclave_mmap place_fixed place_rest
    enclave_mmap_fixed range =
        let n = pages_of length in
        let i = addr_range_to_index s addr n in
        let (inside, back) = addr_range_to_index_inside v.laid addr length al fits lo hi range in
        let (from, to) = in_mmap_range_lem s addr length fits range in
        (
          record s { bitmap = bitmap_set s.bitmap i n; used_pages = s.used_pages + n },
          ground (arith, no_wrap range, v.laid.base_pos),
          λ j. b.test-set s.bitmap i n j (omega (arith, v.laid.few_pages)),
          omega (
            arith,
            v.pages_counted,
            count_bits-set s.bitmap s.num_pages i n v.laid.few_pages inside,
          ),
        )

    -- A hint whose pages are all free is taken.
    pub enclave_mmap_hint :
        in_mmap_range s addr length ≡ true
        → Free s.bitmap (addr_range_to_index s addr (pages_of length)) (pages_of length)
        → (s' : Mman Map) × (enclave_mmap s addr length false ≡ some (s', ptr addr))
    unfolding enclave_mmap place_hint place_rest
    enclave_mmap_hint range free =
        let n = pages_of length in
        let i = addr_range_to_index s addr n in
        let (inside, back) = addr_range_to_index_inside v.laid addr length al fits lo hi range in
        let (from, to) = in_mmap_range_lem s addr length fits range in
        (
          record s { bitmap = bitmap_set s.bitmap i n; used_pages = s.used_pages + n },
          ground (
            arith,
            no_wrap range,
            v.laid.base_pos,
            bitmap_count_set_bits_lem s.bitmap s.num_pages v.laid.few_pages i n inside,
            count_bits-Free s.bitmap i n free,
          ),
        )
