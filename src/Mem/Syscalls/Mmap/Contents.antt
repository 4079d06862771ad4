-- ===== src/Mem/Syscalls/Mmap/Contents.antt =====
-- What syscall_SYS_mmap of src/sgx/enclave_mem.c maps, and what the mapping holds
use rkt_io.Common.{
  ℕ, ◌+◌, ◌-◌, ◌%◌, ◌^◌, ◌<◌, ◌≤◌, ◌≡◌, refl, arith, Bool, true, false, not, ◌&&◌, ltb,
  if◌then◌else◌, Option, some, none, lt→ltb,
}
use rkt_io.Mem.Bitops.{Bitops}
use rkt_io.Mem.Layout.{page_size, word_mod, Mman, pages_of, pages_of_bounds}
use rkt_io.Mem.Alloc.{Ret, ptr, failed, enclave_mmap}
use rkt_io.Mem.Alloc.Valid.{IsValid}
use rkt_io.Mem.Alloc.Mmap.{MmapOutcome, enclave_mmap_lem}
use rkt_io.Mem.Alloc.Munmap.{address_facts}
use rkt_io.Mem.Syscalls.Mmap.{
  descriptor, minus_one, Answers, read_error, Effect, has, map_shared, map_private, map_fixed,
  map_anonymous, prot_write, clear, clear_mapped, address_of, enclave_mmap_flags_supported,
  fill_from, map_file, map_anonymously, sys_mmap,
}
use rkt_io.Mem.Syscalls.Mmap.Reading.{
  Reads, Filled, fill_from_start, fill_from_ends, fill_from_forever,
}

-- A file mapping holds what was read of the file; where none was made nothing is said of memory.
abbrev pub HoldsFile : Answers → (ℕ → ℕ) → ℕ → ℕ → (ℕ → ℕ) → (ℕ → ℕ) → Ret → Type 0
HoldsFile answers file length offset mem after (ptr a) =
    Filled answers file a length offset mem after
HoldsFile answers file length offset mem after (failed e) = Unit {0}

-- Memory behind an anonymous mapping
abbrev pub HoldsZero : Bool → ℕ → (ℕ → ℕ) → (ℕ → ℕ) → Ret → Type 0
HoldsZero writable length mem after (ptr a) =
    (x : ℕ) → after x ≡ (if writable && (not (ltb x a) && ltb x (a + length)) then 0 else mem x)
HoldsZero writable length mem after (failed e) = after ≡ mem

clear_mapped-HoldsZero :
    (writable : Bool) (length : ℕ) (mem : ℕ → ℕ) (r : Ret)
    → HoldsZero writable length mem (clear_mapped writable r mem length) r
unfolding clear
clear_mapped-HoldsZero true length mem (ptr a) = λ x. refl
clear_mapped-HoldsZero false length mem (ptr a) = λ x. refl
clear_mapped-HoldsZero writable length mem (failed e) = refl

module _ {Map : Type 0} ⦃b : Bitops Map⦄ where
  read_mapped :
      {s : Mman Map} (v : IsValid s) (length : ℕ)
      → 0 < length
      → length < 2 ^ 63
      → (s' : Mman Map) (r : Ret) → MmapOutcome s (pages_of length) (s', r)
      → (answers : Answers) (file : ℕ → ℕ) (offset fuel : ℕ) (mem : ℕ → ℕ) → Reads answers
      → length < fuel
      → (after : ℕ → ℕ) × ((if ltb 0 (address_of r)
            then fill_from fuel answers file (address_of r) length 0 offset 0 mem
            else some mem)
          ≡ some after)
        × HoldsFile answers file length offset mem after r
  read_mapped {s} v length lo hi s' (ptr a) (v', (i, m)) answers file offset fuel mem reads enough =
      let (al, from, to, back) = address_facts v length lo hi m in
      let (some_page, covers, tight) = pages_of_bounds length lo hi in
      let positive : ltb 0 a ≡ true = lt→ltb 0 a (omega (arith, from, v.laid.base_pos)) in
      let fits : a + length ≤ 2 ^ 64 = omega (arith, to, covers, v.laid.fits) in
      let (after, ends, holds) =
        fill_from_start answers file a length offset fuel mem reads fits hi enough in
      (after, simp (positive, ends), holds)
  read_mapped {s} v length lo hi s' (failed e) outcome answers file offset fuel mem reads enough =
      let (after, ends) =
        fill_from_ends answers file (2 ^ 64 - 1) length reads hi fuel 0 offset 0 mem (omega arith)
          (omega arith) in
      (after, ends, _)

  -- On a valid heap, for a page-aligned address and a length that is more than 0 and less than
  -- 2 ^ 63, whose sum is less than 2 ^ 64, where read meets no error and gives no more than it is
  -- asked for, and the fuel is more than the length: mmap of a file without MAP_FIXED, not both
  -- shared and private, and with flags that are supported, ends. What it maps is what
  -- enclave_mmap maps, and the mapping holds the bytes of the file from the offset on, all of them up to the length, or those before
  -- a read that gave nothing; the rest of memory is as before. Where no region is free nothing is mapped.
  pub sys_mmap_file :
      {s : Mman Map}
      → IsValid s
      → (answers : Answers) (file : ℕ → ℕ) (supported : Option ℕ) (mem : ℕ → ℕ)
        (addr length prot flags k offset fuel : ℕ)
      → Reads answers
      → addr % page_size ≡ 0
      → addr + length < word_mod
      → 0 < length
      → length < 2 ^ 63
      → length < fuel
      → (has flags map_shared && has flags map_private) ≡ false
      → has flags map_fixed ≡ false
      → (enclave_mmap_flags_supported supported s.files flags (descriptor k)).0 ≡ true
      → (r : Effect Map) × (sys_mmap fuel answers file s supported mem addr length prot flags
            (descriptor k)
            offset
          ≡ some r)
        × MmapOutcome s (pages_of length) (r.0, r.3)
        × HoldsFile answers file length offset mem r.2 r.3
  unfolding sys_mmap map_file
  sys_mmap_file {s} v answers file supported mem addr length prot flags k offset fuel reads al fits
        lo hi enough one free supports =
      let (mapped, e, o) = enclave_mmap_lem v addr length al fits lo hi in
      let (after, ends, holds) =
        read_mapped v length lo hi mapped.0 mapped.1 o answers file offset fuel mem reads enough in
      let cache = (enclave_mmap_flags_supported supported s.files flags (descriptor k)).1 in
      ((mapped.0, cache, after, mapped.1), simp (one, free, supports, e, ends), o, holds)

  -- Where every read fails, mmap of a file whose region was found never ends, however many rounds the loop is given.
  pub sys_mmap_read_error :
      (s s' : Mman Map) (answers : Answers) (file : ℕ → ℕ) (supported : Option ℕ) (mem : ℕ → ℕ)
      (addr length prot flags k offset a : ℕ)
      → ((call left : ℕ) → answers call left ≡ read_error)
      → enclave_mmap s addr length (has flags map_fixed) ≡ some (s', ptr a)
      → 0 < a
      → (has flags map_shared && has flags map_private) ≡ false
      → (enclave_mmap_flags_supported supported s.files flags (descriptor k)).0 ≡ true
      → (fuel : ℕ)
      → sys_mmap fuel answers file s supported mem addr length prot flags (descriptor k) offset
        ≡ none
  unfolding sys_mmap map_file
  sys_mmap_read_error s s' answers file supported mem addr length prot flags k offset a fails mapped
        positive one supports fuel =
      let never = fill_from_forever answers file a length fails fuel 0 offset 0 mem in
      let reads = lt→ltb 0 a positive in simp (one, supports, mapped, reads, never)

  -- On a valid heap, for a page-aligned address and a length that is more than 0 and less than
  -- 2 ^ 63, whose sum is less than 2 ^ 64: an anonymous mmap without MAP_FIXED, not both shared and
  -- private, ends. What it maps is what enclave_mmap maps; if the mapping may be written it holds zeros. The rest of memory is as
  -- before, and all of it where no region is free.
  pub sys_mmap_anonymous :
      {s : Mman Map}
      → IsValid s
      → (answers : Answers) (file : ℕ → ℕ) (supported : Option ℕ) (mem : ℕ → ℕ)
        (addr length prot flags offset fuel : ℕ)
      → addr % page_size ≡ 0
      → addr + length < word_mod
      → 0 < length
      → length < 2 ^ 63
      → (has flags map_shared && has flags map_private) ≡ false
      → has flags map_fixed ≡ false
      → has flags map_anonymous ≡ true
      → (r : Effect Map) × (sys_mmap fuel answers file s supported mem addr length prot flags
            minus_one offset
          ≡ some r)
        × MmapOutcome s (pages_of length) (r.0, r.3)
        × HoldsZero (has prot prot_write) length mem r.2 r.3
  unfolding sys_mmap map_anonymously
  sys_mmap_anonymous v answers file supported mem addr length prot flags offset fuel al fits lo hi
        one free anonymous =
      let (mapped, e, o) = enclave_mmap_lem v addr length al fits lo hi in
      (
        (mapped.0, supported, clear_mapped (has prot prot_write) mapped.1 mem length, mapped.1),
        simp (one, free, anonymous, e),
        o,
        clear_mapped-HoldsZero (has prot prot_write) length mem mapped.1,
      )
