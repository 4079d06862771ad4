-- ===== src/Mem/Alloc/Mremap.antt =====
-- enclave_mremap of src/sgx/enclave_mem.c moves the contents.
use rkt_io.Common.{ℕ, ◌+◌, ◌-◌, ◌%◌, ◌^◌, ◌<◌, ◌≡◌, refl, arith, true, false, some, min, ◌∙◌}
use rkt_io.Mem.Bitops.{Bitops}
use rkt_io.Mem.Layout.{page_size, word_mod, Mman, in_mmap_range, pages_of}
use rkt_io.Mem.Alloc.{Ret, ptr, failed, memcpy, move_to, enclave_mremap, enomem}
use rkt_io.Mem.Alloc.Valid.{IsValid}
use rkt_io.Mem.Alloc.Mmap.{MmapOutcome, enclave_mmap_lem}
use rkt_io.Mem.Alloc.Munmap.{enclave_munmap_lem, same_range}

memcpy_lem :
    (mem : ℕ → ℕ) (dst src n k : ℕ) → k < n → memcpy mem dst src n (dst + k) ≡ mem (src + k)
unfolding memcpy
memcpy_lem mem dst src n k h = let e : dst + k - dst ≡ k = omega arith in ground (arith, e)

module _ {Map : Type 0} ⦃b : Bitops Map⦄ where
  -- A move that succeeded: the first bytes of the old area stand in the new one, and the invariant
  -- holds. One that failed changed nothing.
  abbrev pub MremapOutcome : Mman Map → (ℕ → ℕ) → ℕ → ℕ → Mman Map × (ℕ → ℕ) × Ret → Type 0
  MremapOutcome s mem old_addr n (s', mem', ptr a) =
      IsValid s' × ((k : ℕ) → k < n → mem' (a + k) ≡ mem (old_addr + k))
  MremapOutcome s mem old_addr n (s', mem', failed e) = (e ≡ enomem) × (s' ≡ s) × (mem' ≡ mem)

  module _ (s : Mman Map) (mem : ℕ → ℕ) (old_addr old_length new_length : ℕ)
      (al : old_addr % page_size ≡ 0) (fits : old_addr + old_length < word_mod)
      (lo : 0 < old_length) (hi : old_length < 2 ^ 63)
      (range : in_mmap_range s old_addr old_length ≡ true) where
    move_to_lem :
        (n : ℕ) (r : Mman Map × Ret)
        → MmapOutcome s n r
        → (r' : Mman Map × (ℕ → ℕ) × Ret) × (move_to mem old_addr old_length new_length r ≡ some r')
          × MremapOutcome s mem old_addr (min old_length new_length) r'
    unfolding move_to
    move_to_lem n (s', failed e) (e', same, full) = ((s', mem, failed e), refl, (e', same, refl))
    move_to_lem n (s', ptr a) (v', (i, m)) =
        let range' : in_mmap_range s' old_addr old_length ≡ true =
          same_range s s' old_addr old_length m.frame ∙ range in
        let (s'', e, v'', u) = enclave_munmap_lem v' old_addr old_length al fits lo hi range' in
        (
          (s'', memcpy mem a old_addr (min old_length new_length), ptr a),
          rw e,
          (v'', λ k h. memcpy_lem mem a old_addr (min old_length new_length) k h),
        )

  -- On a valid heap `enclave_mremap` without MREMAP_FIXED of an area that passes the range test ends.
  -- Either the shorter of the two lengths is copied to a new area, the old one is unmapped and the
  -- invariant holds; or it fails with ENOMEM, and the heap and the memory are as before.
  pub enclave_mremap_lem :
      {s : Mman Map}
      → IsValid s
      → (mem : ℕ → ℕ) (old_addr old_length new_addr new_length : ℕ) → old_addr % page_size ≡ 0
      → old_addr + old_length < word_mod
      → 0 < old_length
      → old_length < 2 ^ 63
      → in_mmap_range s old_addr old_length ≡ true
      → new_addr % page_size ≡ 0
      → new_addr + new_length < word_mod
      → 0 < new_length
      → new_length < 2 ^ 63
      → (r : Mman Map × (ℕ → ℕ) × Ret) × (enclave_mremap s mem old_addr old_length new_addr
            new_length false
          ≡ some r)
        × MremapOutcome s mem old_addr (min old_length new_length) r
  unfolding enclave_mremap
  enclave_mremap_lem {s} v mem old_addr old_length new_addr new_length al fits lo hi range al' fits'
        lo' hi' =
      let (r, e, o) = enclave_mmap_lem v new_addr new_length al' fits' lo' hi' in
      let (r', e', o') =
        move_to_lem s mem old_addr old_length new_length al fits lo hi range (pages_of new_length) r
          o in
      (r', rw e e', o')
