-- ===== src/Mem/Alloc/Valid.antt =====
-- The invariant of the allocator of src/sgx/enclave_mem.c, and what set-up establishes.
use rkt_io.Common.{ℕ, ◌+◌, ◌-◌, ◌*◌, ◌%◌, ◌≤◌, ◌<◌, ◌≡◌, Bool, false, arith}
use rkt_io.Mem.Bitops.{Bitops, int_limit, test, bitmap_set, bitmap_clear}
use rkt_io.Mem.Layout.{page_size, word_mod, Mman, IsLaidOut}
use rkt_io.Mem.Search.{count_bits, count_bits-Free, Free}
use rkt_io.Mem.Search.Tally.{count_bits-set, count_bits-clear, count_bits-le}
use rkt_io.Mem.Alloc.{enclave_mman_init}

module _ {Map : Type 0} ⦃b : Bitops Map⦄ where
  -- `used_pages` is the number of pages that are marked in the bitmap.
  pub record IsValid (s : Mman Map) : Type 0 where
    pub laid : IsLaidOut s
    pub pages_counted : s.used_pages ≡ count_bits s.bitmap 0 s.num_pages

  pub used_pages-le : {s : Mman Map} → IsValid s → s.used_pages ≤ s.num_pages
  used_pages-le {s} v = omega (arith, v.pages_counted, count_bits-le s.bitmap 0 s.num_pages)

  -- After set-up no page is mapped and the invariant holds, for a heap that is page-aligned, has
  -- room for a page behind the bitmap, and ends below the top of the address space.
  pub enclave_mman_init-IsValid :
      (old : Mman Map) (base num_pages : ℕ) (topdown : Bool) (files : ℕ)
      → base % page_size ≡ 0
      → 3 ≤ num_pages
      → num_pages < int_limit
      → base + num_pages * page_size < word_mod
      → old.used_pages ≡ 0
      → let s = enclave_mman_init old base num_pages topdown files in
        IsValid s × ((i : ℕ) → i < s.num_pages → test s.bitmap i ≡ false)
  unfolding enclave_mman_init
  enclave_mman_init-IsValid old base num_pages topdown files al some_room few fits fresh =
      let s = enclave_mman_init old base num_pages topdown files in
      let laid : IsLaidOut s = ground arith in
      let clear : Free s.bitmap 0 s.num_pages =
        λ i p q. ground (arith, b.test-clear old.bitmap 0 s.num_pages i (omega arith)) in
      (
        record {
          laid = laid;
          pages_counted = omega (arith, count_bits-Free s.bitmap 0 s.num_pages clear);
        },
        λ i h. clear i (omega arith) (omega arith),
      )

  module _ {s : Mman Map} (v : IsValid s) (i n : ℕ) (inside : i + n ≤ s.num_pages) where
    pub set-IsValid :
        Free s.bitmap i n
        → IsValid (record s { bitmap = bitmap_set s.bitmap i n; used_pages = s.used_pages + n })
    set-IsValid free = record {
      laid = omega arith;
      pages_counted = omega (
        arith,
        v.pages_counted,
        count_bits-set s.bitmap s.num_pages i n v.laid.few_pages inside,
        count_bits-Free s.bitmap i n free,
      );
    }

    pub clear-IsValid : IsValid (record s {
      bitmap = bitmap_clear s.bitmap i n;
      used_pages = s.used_pages - count_bits s.bitmap i n;
    })
    clear-IsValid = record {
      laid = omega arith;
      pages_counted = omega (
        arith,
        v.pages_counted,
        count_bits-clear s.bitmap s.num_pages i n v.laid.few_pages inside,
      );
    }
