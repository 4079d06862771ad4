-- ===== src/Mem/Syscalls/Laws.antt =====
-- What the system calls of src/sgx/enclave_mem.c report.
use rkt_io.Common.{
  ℕ, ◌+◌, ◌*◌, ◌%◌, ◌^◌, ◌<◌, ◌≡◌, arith, true, false, some, subst, same_result, ap, ◌∙◌,
}
use rkt_io.Mem.Bitops.{Bitops}
use rkt_io.Mem.Layout.{page_size, word_mod, Mman, in_mmap_range, pages_of, pages_of_bounds}
use rkt_io.Mem.Search.{count_bits}
use rkt_io.Mem.Alloc.{Rc, ok, ptr, enclave_mmap}
use rkt_io.Mem.Alloc.Valid.{IsValid, used_pages-le}
use rkt_io.Mem.Alloc.Mmap.{MmapOutcome, enclave_mmap_lem}
use rkt_io.Mem.Alloc.Munmap.{enclave_munmap_last_page, address_facts, same_range}
use rkt_io.Mem.Syscalls.{sys_munmap, sys_sysinfo}

module _ {Map : Type 0} ⦃b : Bitops Map⦄ where
  -- A mapping that reaches into the last page of the heap cannot be given back. If `enclave_mmap`
  -- made it on a valid heap without MAP_FIXED, for a page-aligned address and a length that is more
  -- than 0 and less than 2 ^ 63, whose sum is less than 2 ^ 64, then munmap of exactly that mapping
  -- reports success and leaves the allocator as it is, whatever the host would do.
  pub sys_munmap_last_page :
      {s s' : Mman Map}
      → IsValid s
      → (host : ℕ → ℕ → Rc) (addr length : ℕ) → addr % page_size ≡ 0
      → addr + length < word_mod
      → 0 < length
      → length < 2 ^ 63
      → {a : ℕ} → enclave_mmap s addr length false ≡ some (s', ptr a)
      → s.last < a + length
      → sys_munmap host s' a length ≡ some (s', ok)
  unfolding sys_munmap in_mmap_range
  sys_munmap_last_page {s} {s'} v host addr length al fits lo hi {a} mapped reaches =
      let (r, e, o) = enclave_mmap_lem v addr length al fits lo hi in
      let (v', (i, m)) = subst (MmapOutcome s (pages_of length)) (same_result e mapped) o in
      let (al', from, to, back) = address_facts v length lo hi m in
      let (some_page, covers, tight) = pages_of_bounds length lo hi in
      let same_last : s'.last ≡ s.last = ap (λ x. x.last) m.frame in
      let below : a + length < word_mod = omega (arith, v.laid.fits) in
      let start : in_mmap_range s' a 0 ≡ true =
        same_range s s' a 0 m.frame ∙ (ground (arith, v.laid.fits)) in
      rw (start, enclave_munmap_last_page {s = s'} a length below (omega arith))

  -- On a valid heap sysinfo reports as free RAM exactly the pages that are not mapped.
  pub sys_sysinfo_lem :
      {s : Mman Map}
      → IsValid s
      → let info = sys_sysinfo s in
        (info.totalram ≡ s.num_pages * page_size)
        × (info.freeram + count_bits s.bitmap 0 s.num_pages * page_size ≡ info.totalram)
  unfolding sys_sysinfo
  sys_sysinfo_lem v = omega (arith, v.laid.few_pages, v.pages_counted, used_pages-le v)
