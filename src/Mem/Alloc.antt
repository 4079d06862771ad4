-- ===== src/Mem/Alloc.antt =====
-- enclave_mman_init, enclave_mmap, enclave_munmap and enclave_mremap of src/sgx/enclave_mem.c,
-- each as it runs with `mmaplock` held. `none` is a loop that does not end. The tracing under
-- `#if DEBUG` is left out, so `replaced_pages` is 0.
pub mod Valid
pub mod Mmap
pub mod Munmap
pub mod Fixed
pub mod Mremap
use rkt_io.Common.{
  ℕ, ◌+◌, ◌-◌, ◌*◌, ◌/◌, ◌%◌, Bool, true, false, not, ◌&&◌, ◌||◌, ltb, ◌==◌, if◌then◌else◌, Option,
  some, ◌>>=◌, min,
}
use rkt_io.Mem.Bitops.{Bitops, bitmap_set, bitmap_clear}
use rkt_io.Mem.Layout.{
  page_size, bits_per_byte, add_size, sub_size, mul_size, pages_of, Mman, in_mmap_range,
  addr_range_to_index, index_range_to_base_addr,
}
use rkt_io.Mem.Search.{bitmap_count_set_bits, bitmap_find_next_zero_area}

pub data Errno : Type 0 where
  einval enomem : Errno

-- `failed e` is MAP_FAILED with `errno` set; `ptr 0` is the null pointer.
pub data Ret : Type 0 where
  ptr : ℕ → Ret
  failed : Errno → Ret

-- The int of munmap: 0, or -1 with `errno` set.
pub data Rc : Type 0 where
  ok : Rc
  error : Errno → Rc

abbrev pub is_null : Ret → Bool
is_null (ptr a) = a == 0
is_null (failed e) = false

-- memcpy between areas that do not overlap.
pub memcpy : (ℕ → ℕ) → ℕ → ℕ → ℕ → ℕ → ℕ
memcpy mem dst src n a = if ltb a dst || not (ltb a (dst + n)) then mem a else mem (src + (a - dst))

module _ {Map : Type 0} ⦃b : Bitops Map⦄ where
  -- `old` holds the static variables as they were, its bitmap what the memory at `base` holds.
  unfoldable pub enclave_mman_init : Mman Map → ℕ → ℕ → Bool → ℕ → Mman Map
  enclave_mman_init old base num_pages topdown files =
      let first = (if base == 0 then page_size else base) in
      let total = (if base == 0 then sub_size num_pages 1 else num_pages) in
      let bitmap_pages =
        add_size total (bits_per_byte * page_size - 1) / (bits_per_byte * page_size) in
      let n = sub_size total bitmap_pages in
      let start = add_size first (mul_size bitmap_pages page_size) in
      record {
        bitmap = bitmap_clear old.bitmap 0 n;
        base = start;
        last = add_size start (mul_size (sub_size n 1) page_size);
        num_pages = n;
        used_pages = old.used_pages;
        files = files;
        topdown = topdown;
      }

  -- MAP_FIXED: take the range that is asked for.
  pub place_fixed : Mman Map → ℕ → ℕ → ℕ → Map × Ret
  place_fixed s addr length pages =
      if in_mmap_range s addr length
      then (bitmap_set s.bitmap (addr_range_to_index s addr pages) pages, ptr addr)
      else (s.bitmap, failed enomem)

  -- An address without MAP_FIXED is a hint, taken if its range is free.
  pub place_hint : Mman Map → ℕ → ℕ → ℕ → Option (Map × Ret)
  place_hint s addr length pages =
      if not (addr == 0) && in_mmap_range s addr length
      then (do
        used ← bitmap_count_set_bits s.bitmap s.num_pages (addr_range_to_index s addr pages) pages
        some (
            if used == 0
            then (bitmap_set s.bitmap (addr_range_to_index s addr pages) pages, ptr addr)
            else (s.bitmap, ptr 0)))
      else some (s.bitmap, ptr 0)

  pub place_search : Mman Map → ℕ → Option (Map × Ret)
  place_search s pages = do
    index ← bitmap_find_next_zero_area s.bitmap s.num_pages 0 pages
    some (
        if ltb s.num_pages (add_size index pages)
        then (s.bitmap, failed enomem)
        else (bitmap_set s.bitmap index pages, ptr (index_range_to_base_addr s index pages)))

  -- The part of `enclave_mmap` behind `ret == 0`.
  pub place_rest : Mman Map → ℕ → Map × Ret → Option (Map × Ret)
  unfolding place_search
  place_rest s pages (m, ret) = if is_null ret then place_search s pages else some (m, ret)

  -- The end of `enclave_mmap`: pages are counted unless it fails.
  abbrev pub counted : Mman Map → ℕ → Map × Ret → Mman Map × Ret
  counted s pages (m, ptr a) =
      (record s { bitmap = m; used_pages = add_size s.used_pages pages }, ptr a)
  counted s pages (m, failed e) = (record s { bitmap = m }, failed e)

  unfoldable pub enclave_mmap : Mman Map → ℕ → ℕ → Bool → Option (Mman Map × Ret)
  unfolding place_fixed place_hint place_rest
  enclave_mmap s addr length mmap_fixed =
      let pages = pages_of length in
      if not (addr % page_size == 0) || length == 0 then some (s, failed einval) else (do
        asked ←
            (if mmap_fixed
              then some (place_fixed s addr length pages)
              else place_hint s addr length pages)
        placed ← place_rest s pages asked
        some (counted s pages placed))

  unfoldable pub enclave_munmap : Mman Map → ℕ → ℕ → Option (Mman Map × Rc)
  enclave_munmap s addr length =
      let pages = pages_of length in
      let index = addr_range_to_index s addr pages in
      if not (addr % page_size == 0) || length == 0 || not (in_mmap_range s addr length)
      then some (s, error einval)
      else (do
        occupied_pages ← bitmap_count_set_bits s.bitmap s.num_pages index pages
        some (
          record s {
            used_pages = sub_size s.used_pages occupied_pages;
            bitmap = bitmap_clear s.bitmap index pages;
          },
          ok,
        ))

  -- The end of `enclave_mremap`: the contents move to the new area, and the old one is freed.
  move_to : (ℕ → ℕ) → ℕ → ℕ → ℕ → Mman Map × Ret → Option (Mman Map × (ℕ → ℕ) × Ret)
  unfolding enclave_munmap
  move_to mem old_addr old_length new_length (s, failed e) = some (s, mem, failed e)
  move_to mem old_addr old_length new_length (s, ptr a) = do
    unmapped ← enclave_munmap s old_addr old_length
    some (unmapped.0, memcpy mem a old_addr (min old_length new_length), ptr a)

  -- The result is the state, the contents of memory and the pointer.
  unfoldable pub enclave_mremap :
      Mman Map → (ℕ → ℕ) → ℕ → ℕ → ℕ → ℕ → Bool → Option (Mman Map × (ℕ → ℕ) × Ret)
  unfolding enclave_mmap move_to
  enclave_mremap s mem old_addr old_length new_addr new_length mremap_fixed =
      if mremap_fixed then some (s, mem, failed einval) else (do
        mapped ← enclave_mmap s new_addr new_length false
        move_to mem old_addr old_length new_length mapped)
