-- ===== src/Mem/Tests.antt =====
-- Runs of the allocator of src/sgx/enclave_mem.c on a heap of six pages that is filled from the top,
-- with pages 1 and 2 mapped, and its theorems there.
use rkt_io.Common.{
  ℕ, ◌+◌, ◌≡◌, ◌<◌, refl, arith, true, false, ◌||◌, some, min, ltb, ◌==◌, if◌then◌else◌,
}
use mathlib.Core.Option
use rkt_io.Mem.Bitops.{test, in_region}
use rkt_io.Mem.BoolMap.{BoolMap, bool_map, next}
use rkt_io.Mem.Layout.{Mman, pages_of, in_mmap_range, addr_range_to_index, index_range_to_base_addr}
use rkt_io.Mem.Search.{bitmap_find_next_zero_area, count_bits}
use rkt_io.Mem.Search.Area.{bitmap_find_next_zero_area_lem, IsArea}
use rkt_io.Mem.Syscalls.Mmap.{
  descriptor, Answers, count, Effect, enclave_mmap_flags_supported, sys_mmap,
}
use rkt_io.Mem.Syscalls.Mmap.Reading.{Reads}
use rkt_io.Mem.Syscalls.Mmap.Contents.{HoldsFile, sys_mmap_file}
use rkt_io.Mem.Alloc.{Ret, ptr, ok, enclave_mman_init, enclave_mmap, enclave_munmap}
use rkt_io.Mem.Alloc.Valid.{IsValid, enclave_mman_init-IsValid}
use rkt_io.Mem.Alloc.Mmap.{MmapOutcome, enclave_mmap_lem}
use rkt_io.Mem.Alloc.Munmap.{Unmapped, enclave_munmap_lem, enclave_munmap-enclave_mmap}
use rkt_io.Mem.Alloc.Fixed.{enclave_mmap_fixed}
use rkt_io.Mem.Syscalls.{sys_munmap}
use rkt_io.Mem.Syscalls.Laws.{sys_munmap_last_page}

abbrev heap : Mman BoolMap
heap = record {
  bitmap = in_region 1 2;
  base = 0x10000;
  last = 0x15000;
  num_pages = 6;
  used_pages = 2;
  files = 0;
  topdown = true;
}

heap-IsValid : IsValid heap
unfolding count_bits
heap-IsValid = record { laid = omega arith; pages_counted = refl }

-- A page fits below the last page, two pages only below the mapped ones.
mmap_runs :
    (Option.map (λ r. r.1) (enclave_mmap heap 0 4096 false) ≡ some (ptr 0x15000))
    × (Option.map (λ r. r.1) (enclave_mmap heap 0 5000 false) ≡ some (ptr 0x11000))
unfolding enclave_mmap bitmap_find_next_zero_area next pages_of index_range_to_base_addr
mmap_runs = (refl, refl)

enclave_mmap_lem_example :
    (r : Mman BoolMap × Ret) × (enclave_mmap heap 0 5000 false ≡ some r)
    × MmapOutcome heap (pages_of 5000) r
enclave_mmap_lem_example =
    enclave_mmap_lem heap-IsValid 0 5000 refl (omega arith) (omega arith) (omega arith)

pages_5000 : pages_of 5000 ≡ 2
unfolding pages_of
pages_5000 = refl

-- The state after one page was mapped: it is the last page.
abbrev last_mapped : Mman BoolMap
last_mapped = record heap { bitmap = λ i. in_region 0 1 i || in_region 1 2 i; used_pages = 3 }

-- The state after two pages were mapped behind the old ones.
abbrev two_mapped : Mman BoolMap
two_mapped = record heap { bitmap = λ i. in_region 3 2 i || in_region 1 2 i; used_pages = 4 }

mmap_last : enclave_mmap heap 0 4096 false ≡ some (last_mapped, ptr 0x15000)
unfolding enclave_mmap bitmap_find_next_zero_area next pages_of index_range_to_base_addr
mmap_last = refl

mmap_two : enclave_mmap heap 0 5000 false ≡ some (two_mapped, ptr 0x11000)
unfolding enclave_mmap bitmap_find_next_zero_area next pages_of index_range_to_base_addr
mmap_two = refl

two_in_range : in_mmap_range heap 0x13000 8192 ≡ true
unfolding in_mmap_range
two_in_range = refl

bitmap_find_next_zero_area_lem_example :
    (r : ℕ) × (bitmap_find_next_zero_area (in_region 1 2) 6 0 2 ≡ some r)
    × IsArea (in_region 1 2) 6 2 r
bitmap_find_next_zero_area_lem_example =
    bitmap_find_next_zero_area_lem (in_region 1 2) 6 (omega arith) 2 (omega arith) (omega arith)

abbrev blank : Mman BoolMap
blank = record heap { bitmap = λ i. true; used_pages = 0 }

enclave_mman_init-IsValid_example :
    let s = enclave_mman_init blank 0 7 true 0 in
    IsValid s × ((i : ℕ) → i < s.num_pages → test s.bitmap i ≡ false)
enclave_mman_init-IsValid_example =
    enclave_mman_init-IsValid blank 0 7 true 0 refl (omega arith) (omega arith) (omega arith) refl

enclave_munmap_lem_example :
    (s' : Mman BoolMap) × (enclave_munmap heap 0x13000 8192 ≡ some (s', ok))
    × IsValid s'
    × Unmapped heap (pages_of 8192) s' (addr_range_to_index heap 0x13000 (pages_of 8192))
enclave_munmap_lem_example =
    enclave_munmap_lem heap-IsValid 0x13000 8192 refl (omega arith) (omega arith) (omega arith)
      two_in_range

enclave_munmap-enclave_mmap_example :
    (s'' : Mman BoolMap) × (enclave_munmap two_mapped 0x11000 5000 ≡ some (s'', ok))
    × ((j : ℕ) → test s''.bitmap j ≡ in_region 1 2 j)
    × (s''.used_pages ≡ 2)
enclave_munmap-enclave_mmap_example =
    enclave_munmap-enclave_mmap heap-IsValid 0 5000 refl (omega arith) (omega arith) (omega arith)
      mmap_two (omega arith)

enclave_mmap_fixed_example :
    let i = addr_range_to_index heap 0x13000 (pages_of 8192) in
    (s' : Mman BoolMap) × (enclave_mmap heap 0x13000 8192 true ≡ some (s', ptr 0x13000))
    × ((j : ℕ) → test s'.bitmap j ≡ (in_region i (pages_of 8192) j || in_region 1 2 j))
    × (s'.used_pages
        ≡ count_bits s'.bitmap 0 s'.num_pages + count_bits (in_region 1 2) i (pages_of 8192))
enclave_mmap_fixed_example =
    enclave_mmap_fixed heap-IsValid 0x13000 8192 refl (omega arith) (omega arith) (omega arith)
      two_in_range

one_in_range : in_mmap_range heap 0x11000 4096 ≡ true
unfolding in_mmap_range
one_in_range = refl

sys_munmap_last_page_example :
    sys_munmap (λ _ _. ok) last_mapped 0x15000 4096 ≡ some (last_mapped, ok)
sys_munmap_last_page_example =
    sys_munmap_last_page heap-IsValid (λ _ _. ok) 0 4096 refl (omega arith) (omega arith)
      (omega arith) mmap_last (omega arith)

private_supported : (enclave_mmap_flags_supported (some 2) heap.files 2 (descriptor 3)).0 ≡ true
unfolding enclave_mmap_flags_supported
private_supported = refl

-- Reads of at most 2 bytes, of a file of 5 bytes: the third gives one, the others nothing.
abbrev short_reads : Answers
short_reads call left =
    count (if ltb call 2 then min left 2 else if call == 2 then min left 1 else 0)

short_reads-Reads : Reads short_reads
short_reads-Reads call left =
    ((if ltb call 2 then min left 2 else if call == 2 then min left 1 else 0), refl, ground arith)

sys_mmap_file_example :
    (r : Effect BoolMap) × (sys_mmap 5001 short_reads
        (λ x. x + 1)
        heap
        (some 2)
        (λ x. 7)
        0
        5000
        1
        2
        (descriptor 3)
        16
      ≡ some r)
    × MmapOutcome heap (pages_of 5000) (r.0, r.3)
    × HoldsFile short_reads (λ x. x + 1) 5000 16 (λ x. 7) r.2 r.3
sys_mmap_file_example =
    sys_mmap_file heap-IsValid short_reads (λ x. x + 1) (some 2) (λ x. 7) 0 5000 1 2 3 16 5001
      short_reads-Reads refl (omega arith) (omega arith) (omega arith) (omega arith) refl refl
      private_supported
