-- ===== src/Mem/Alloc/Munmap.antt =====
-- What enclave_munmap of src/sgx/enclave_mem.c does, and mmap followed by munmap.
use rkt_io.Common.{
  ℕ, ◌+◌, ◌-◌, ◌*◌, ◌%◌, ◌^◌, ◌≤◌, ◌<◌, ◌≡◌, refl, arith, true, false, some, ◌||◌, not, ◌&&◌, ap,
  ◌∙◌, subst, same_result,
}
use rkt_io.Mem.Bitops.{Bitops, test, bitmap_clear, in_region}
use rkt_io.Mem.Layout.{
  page_size, word_mod, sub_size, pages_of, pages_of_bounds, Mman, in_mmap_range,
  addr_range_to_index, addr_to_index, addr_range_to_index_inside, index_range_to_base_addr_inside,
}
use rkt_io.Mem.Search.{count_bits, Free}
use rkt_io.Mem.Search.Count.{bitmap_count_set_bits_lem}
use rkt_io.Mem.Search.Tally.{count_bits-clear, count_bits-full}
use rkt_io.Mem.Alloc.{ok, error, einval, ptr, enclave_mmap, enclave_munmap}
use rkt_io.Mem.Alloc.Valid.{IsValid, used_pages-le, clear-IsValid}
use rkt_io.Mem.Alloc.Mmap.{Mapped, MmapOutcome, enclave_mmap_lem}

module _ {Map : Type 0} ⦃b : Bitops Map⦄ where
  -- The region of `n` pages from `i` on is not mapped any more, and its mapped pages are not counted.
  pub record Unmapped (s : Mman Map) (n : ℕ) (s' : Mman Map) (i : ℕ) : Type 0 where
    pub inside : i + n ≤ s.num_pages
    pub now : (j : ℕ) → test s'.bitmap j ≡ (not (in_region i n j) && test s.bitmap j)
    pub used : s'.used_pages + count_bits s.bitmap i n ≡ s.used_pages
    pub frame : s' ≡ record s { bitmap = s'.bitmap; used_pages = s'.used_pages }

  -- On a valid heap, for a page-aligned address and a length that is more than 0 and less than
  -- 2 ^ 63, whose sum is less than 2 ^ 64, and that pass the range test: `enclave_munmap` ends with
  -- 0. It clears exactly the pages of the range, takes those that were mapped off the count, and
  -- keeps the invariant.
  pub enclave_munmap_lem :
      {s : Mman Map}
      → IsValid s
      → (addr length : ℕ) → addr % page_size ≡ 0
      → addr + length < word_mod
      → 0 < length
      → length < 2 ^ 63
      → in_mmap_range s addr length ≡ true
      → (s' : Mman Map) × (enclave_munmap s addr length ≡ some (s', ok))
        × IsValid s'
        × Unmapped s (pages_of length) s' (addr_range_to_index s addr (pages_of length))
  unfolding enclave_munmap
  enclave_munmap_lem {s} v addr length al fits lo hi range =
      let n = pages_of length in
      let i = addr_range_to_index s addr n in
      let (inside, back) = addr_range_to_index_inside v.laid addr length al fits lo hi range in
      let count = bitmap_count_set_bits_lem s.bitmap s.num_pages v.laid.few_pages i n inside in
      let less = count_bits-clear s.bitmap s.num_pages i n v.laid.few_pages inside in
      let no_wrap : sub_size s.used_pages (count_bits s.bitmap i n)
          ≡ s.used_pages - count_bits s.bitmap i n =
        omega (arith, used_pages-le v, v.laid.few_pages, v.pages_counted, less) in
      (
        record s {
          used_pages = s.used_pages - count_bits s.bitmap i n;
          bitmap = bitmap_clear s.bitmap i n;
        },
        ground (arith, count, no_wrap),
        clear-IsValid v i n inside,
        record {
          inside = inside;
          now = λ j. b.test-clear s.bitmap i n j (omega (arith, inside, v.laid.few_pages));
          used = omega (arith, v.pages_counted, less);
          frame = refl;
        },
      )

  -- A range that reaches into the last page is refused with EINVAL, whether it is mapped or not.
  pub enclave_munmap_last_page :
      {s : Mman Map}
      → (addr length : ℕ) → addr + length < word_mod
      → s.last < addr + length
      → enclave_munmap s addr length ≡ some (s, error einval)
  unfolding enclave_munmap in_mmap_range
  enclave_munmap_last_page addr length fits reaches = ground arith

  -- A state that differs only in its bitmap and its count has the same layout.
  same_region :
      (s s' : Mman Map) (a n : ℕ)
      → s' ≡ record s { bitmap = s'.bitmap; used_pages = s'.used_pages }
      → addr_range_to_index s' a n ≡ addr_range_to_index s a n
  unfolding addr_range_to_index addr_to_index
  same_region s s' a n frame = ap (λ x. addr_range_to_index x a n) frame

  pub same_range :
      (s s' : Mman Map) (a n : ℕ)
      → s' ≡ record s { bitmap = s'.bitmap; used_pages = s'.used_pages }
      → in_mmap_range s' a n ≡ in_mmap_range s a n
  unfolding in_mmap_range
  same_range s s' a n frame = ap (λ x. in_mmap_range x a n) frame

  region_bits :
      (m m' m'' : Map) (i n j : ℕ)
      → Free m i n
      → test m' j ≡ (in_region i n j || test m j)
      → test m'' j ≡ (not (in_region i n j) && test m' j)
      → test m'' j ≡ test m j
  region_bits m m' m'' i n j free p q = ground (arith, free j)

  -- What is known of the address of a region that was mapped, when it is unmapped.
  module _ {s s' : Mman Map} (v : IsValid s) (length : ℕ) (lo : 0 < length) (hi : length < 2 ^ 63)
      {a i : ℕ} (m : Mapped s (pages_of length) s' a i) where
    pub address_facts :
        (a % page_size ≡ 0)
        × (s.base ≤ a)
        × (a + pages_of length * page_size ≤ s.last + page_size)
        × (addr_range_to_index s a (pages_of length) ≡ i)
    address_facts = rw m.address (
        index_range_to_base_addr_inside v.laid i (pages_of length) (pages_of_bounds length lo hi).0
          m.inside)

    mapped_range : a + length ≤ s.last → in_mmap_range s' a length ≡ true
    unfolding in_mmap_range
    mapped_range below =
        let (al, from, to, back) = address_facts in
        same_range s s' a length m.frame ∙ (ground (arith, v.laid.fits))

    all_counted : count_bits s'.bitmap i (pages_of length) ≡ pages_of length
    all_counted = count_bits-full s'.bitmap i (pages_of length) (λ j p q. ground (arith, m.now j))

  -- What `enclave_mmap` mapped on a valid heap without MAP_FIXED, for a page-aligned address and a
  -- length that is more than 0 and less than 2 ^ 63, whose sum is less than 2 ^ 64, `enclave_munmap`
  -- with the same length gives back, unless it reaches into the last page of the heap: it ends with
  -- 0, and the pages that are mapped and their count are as before.
  pub enclave_munmap-enclave_mmap :
      {s s' : Mman Map}
      → IsValid s
      → (addr length : ℕ) → addr % page_size ≡ 0
      → addr + length < word_mod
      → 0 < length
      → length < 2 ^ 63
      → {a : ℕ} → enclave_mmap s addr length false ≡ some (s', ptr a)
      → a + length ≤ s.last
      → (s'' : Mman Map) × (enclave_munmap s' a length ≡ some (s'', ok))
        × ((j : ℕ) → test s''.bitmap j ≡ test s.bitmap j)
        × (s''.used_pages ≡ s.used_pages)
  enclave_munmap-enclave_mmap {s} {s'} v addr length al fits lo hi {a} mapped below =
      let (r, e, o) = enclave_mmap_lem v addr length al fits lo hi in
      let (v', (i, m)) = subst (MmapOutcome s (pages_of length)) (same_result e mapped) o in
      let (al', from, to, back) = address_facts v length lo hi m in
      let (s'', e', v'', u) =
        enclave_munmap_lem v' a length al' (omega (arith, v.laid.fits)) lo hi
          (mapped_range v length lo hi m below) in
      let index : addr_range_to_index s' a (pages_of length) ≡ i =
        same_region s s' a (pages_of length) m.frame ∙ back in
      let u' : Unmapped s' (pages_of length) s'' i =
        subst (Unmapped s' (pages_of length) s'') index u in
      (
        s'',
        e',
        λ j.
            region_bits s.bitmap s'.bitmap s''.bitmap i (pages_of length) j m.was_free (m.now j)
              (u'.now j),
        omega (arith, u'.used, m.used, all_counted v length lo hi m),
      )
