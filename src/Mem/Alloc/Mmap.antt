-- ===== src/Mem/Alloc/Mmap.antt =====
-- What enclave_mmap of src/sgx/enclave_mem.c returns without MAP_FIXED.
use rkt_io.Common.{
  ℕ, ◌+◌, ◌%◌, ◌^◌, ◌≤◌, ◌<◌, ◌≡◌, ◌≢◌, refl, arith, Bool, true, false, some, ◌||◌, inl, inr,
  dec_lt, lt→ltb, not_lt→ltb, Bool-cases, ◌==◌, ==_iff, ap, sym, not, ◌&&◌, ◌⊎◌,
}
use rkt_io.Mem.Bitops.{Bitops, test, bitmap_set, in_region}
use rkt_io.Mem.Layout.{
  page_size, word_mod, add_size, pages_of, pages_of_bounds, Mman, in_mmap_range,
  addr_range_to_index, index_range_to_base_addr, addr_range_to_index_inside,
}
use rkt_io.Mem.Search.{Free, count_bits, Free-count_bits}
use rkt_io.Mem.Search.Count.{bitmap_count_set_bits_lem}
use rkt_io.Mem.Search.Area.{bitmap_find_next_zero_area_lem}
use rkt_io.Mem.Alloc.{
  enomem, Ret, ptr, failed, counted, place_search, place_hint, place_rest, enclave_mmap,
}
use rkt_io.Mem.Alloc.Valid.{IsValid, used_pages-le, set-IsValid}

hint_facts :
    (addr : ℕ) (range : Bool) → (not (addr == 0) && range) ≡ true → (addr ≢ 0) × (range ≡ true)
hint_facts addr range h = ground arith

module _ {Map : Type 0} ⦃b : Bitops Map⦄ where
  -- A region of `n` pages is chosen: inside the heap, free, and marked in the new map.
  pub record Chosen (s : Mman Map) (n : ℕ) (a : ℕ) (m : Map) (i : ℕ) : Type 0 where
    pub address : a ≡ index_range_to_base_addr s i n
    pub inside : i + n ≤ s.num_pages
    pub free : Free s.bitmap i n
    pub marked : m ≡ bitmap_set s.bitmap i n

  abbrev Placed : Mman Map → ℕ → Map × Ret → Type 0
  Placed s n (m, ptr a) = (i : ℕ) × Chosen s n a m i
  Placed s n (m, failed e) =
      (e ≡ enomem) × (m ≡ s.bitmap) × ((j : ℕ) → j + n ≤ s.num_pages → ¬ Free s.bitmap j n)

  module _ {s : Mman Map} (v : IsValid s) (n : ℕ) (some_page : 0 < n) (few : n < 2 ^ 60) where
    place_search_lem : (r : Map × Ret) × (place_search s n ≡ some r) × Placed s n r
    unfolding place_search
    place_search_lem =
        let (r, e, area) =
          bitmap_find_next_zero_area_lem s.bitmap s.num_pages v.laid.few_pages n some_page few in
        let no_wrap : add_size r n ≡ r + n = omega (arith, area.fits, v.laid.few_pages) in
        elim (dec_lt s.num_pages (r + n)) [
          | yes over ↦ (
            (s.bitmap, failed enomem),
            rw (e, no_wrap, lt→ltb _ _ over),
            (refl, refl, λ j h. area.first j (omega arith) h),
          )
          | no fits ↦ (
            (bitmap_set s.bitmap r n, ptr (index_range_to_base_addr s r n)),
            rw (e, no_wrap, not_lt→ltb _ _ fits),
            (
              r,
              record {
                address = refl;
                inside = omega arith;
                free = area.free (omega arith);
                marked = refl;
              },
            ),
          )
        ]

  -- The new map and address are those of a chosen region: the state that `enclave_mmap` returns.
  pub record Mapped (s : Mman Map) (n : ℕ) (s' : Mman Map) (a i : ℕ) : Type 0 where
    pub address : a ≡ index_range_to_base_addr s i n
    pub inside : i + n ≤ s.num_pages
    pub was_free : Free s.bitmap i n
    pub now : (j : ℕ) → test s'.bitmap j ≡ (in_region i n j || test s.bitmap j)
    pub used : s'.used_pages ≡ s.used_pages + n
    pub frame : s' ≡ record s { bitmap = s'.bitmap; used_pages = s'.used_pages }

  abbrev pub MmapOutcome : Mman Map → ℕ → Mman Map × Ret → Type 0
  MmapOutcome s n (s', ptr a) = IsValid s' × ((i : ℕ) × Mapped s n s' a i)
  MmapOutcome s n (s', failed e) =
      (e ≡ enomem) × (s' ≡ s) × ((j : ℕ) → j + n ≤ s.num_pages → ¬ Free s.bitmap j n)

  module _ {s : Mman Map} (v : IsValid s) (n : ℕ) (some_page : 0 < n) (few : n < 2 ^ 60) where
    Placed-MmapOutcome : (r : Map × Ret) → Placed s n r → MmapOutcome s n (counted s n r)
    Placed-MmapOutcome (m, ptr a) (i, c) =
        let no_wrap : add_size s.used_pages n ≡ s.used_pages + n =
          omega (arith, used_pages-le v, v.laid.few_pages) in
        rw (c.marked, no_wrap)
          (
            set-IsValid v i n c.inside c.free,
            (
              i,
              record {
                address = c.address;
                inside = c.inside;
                was_free = c.free;
                now = λ j. b.test-set s.bitmap i n j (omega (arith, c.inside, v.laid.few_pages));
                used = refl;
                frame = refl;
              },
            ),
          )
    Placed-MmapOutcome (m, failed e) (e', same, full) =
        (e', ap (λ x. record s { bitmap = x }) same, full)

  module _ {s : Mman Map} (v : IsValid s) (addr length : ℕ) (al : addr % page_size ≡ 0)
      (fits : addr + length < word_mod) (lo : 0 < length) (hi : length < 2 ^ 63) where
    -- What a hint gives: its own range, or nothing.
    hint_lem :
        ((m : Map) × (place_hint s addr length (pages_of length) ≡ some (m, ptr addr))
          × (addr ≢ 0)
          × Chosen s (pages_of length) addr m (addr_range_to_index s addr (pages_of length)))
        ⊎ (place_hint s addr length (pages_of length) ≡ some (s.bitmap, ptr 0))
    unfolding place_hint
    hint_lem =
        let n = pages_of length in
        let index = addr_range_to_index s addr n in
        elim (Bool-cases (not (addr == 0) && in_mmap_range s addr length)) [
          | inr no_hint ↦ inr (rw no_hint)
          | inl hint ↦
              let (nonzero, range) = hint_facts addr _ hint in
              let (inside, back) =
                addr_range_to_index_inside v.laid addr length al fits lo hi range in
              let count =
                bitmap_count_set_bits_lem s.bitmap s.num_pages v.laid.few_pages index n inside in
              elim (Bool-cases (count_bits s.bitmap index n == 0)) [
                | inr taken ↦ inr (rw (hint, count, taken))
                | inl empty ↦ inl (
                  bitmap_set s.bitmap index n,
                  rw (hint, count, empty),
                  nonzero,
                  record {
                    address = sym back;
                    inside = inside;
                    free = Free-count_bits s.bitmap index n ((==_iff _ _).0 empty);
                    marked = refl;
                  },
                )
              ]
        ]

    guards : (not (addr % page_size == 0) || length == 0) ≡ false
    guards = ground arith

    -- On a valid heap, for a page-aligned address and a length that is more than 0 and less than
    -- 2 ^ 63, whose sum is less than 2 ^ 64: `enclave_mmap` without MAP_FIXED ends. It maps a region
    -- of the size asked for, rounded up to pages, that lay inside the heap and was free, marks
    -- exactly its pages, and counts them; or it fails with ENOMEM and changes nothing, and then no
    -- free region is large enough. The invariant is kept.
    pub enclave_mmap_lem :
        (r : Mman Map × Ret) × (enclave_mmap s addr length false ≡ some r)
        × MmapOutcome s (pages_of length) r
    unfolding enclave_mmap place_rest
    enclave_mmap_lem =
        let n = pages_of length in
        let (some_page, covers, tight) = pages_of_bounds length lo hi in
        let outcome = Placed-MmapOutcome v n some_page (omega arith) in
        elim hint_lem [
          | inl (m, hint, nonzero, chosen) ↦ (
            counted s n (m, ptr addr),
            ground (arith, hint, guards),
            outcome (m, ptr addr) (_, chosen),
          )
          | inr no_hint ↦
              let (r, e, placed) = place_search_lem v n some_page (omega arith) in
              (counted s n r, ground (arith, no_hint, guards, e), outcome r placed)
        ]
