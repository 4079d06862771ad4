-- ===== src/Mem/Syscalls.antt =====
-- The system calls of src/sgx/enclave_mem.c that go to the host for memory outside the heap.
pub mod Laws
pub mod Mmap
use rkt_io.Common.{ℕ, Bool, Option, some, ◌>>=◌, if◌then◌else◌}
use rkt_io.Mem.Bitops.{Bitops}
use rkt_io.Mem.Layout.{page_size, sub_size, mul_size, Mman, in_mmap_range}
use rkt_io.Mem.Alloc.{Rc, ok, Ret, enclave_munmap, enclave_mremap}

-- The fields of `struct sysinfo` that the code sets to more than a constant.
pub record Sysinfo : Type 0 where
  pub totalram : ℕ
  pub freeram : ℕ

module _ {Map : Type 0} ⦃b : Bitops Map⦄ where
  -- `host` is host_syscall_SYS_munmap.
  unfoldable pub sys_munmap : (ℕ → ℕ → Rc) → Mman Map → ℕ → ℕ → Option (Mman Map × Rc)
  sys_munmap host s addr length =
      if in_mmap_range s addr 0
      then (do unmapped ← enclave_munmap s addr length; some (unmapped.0, ok))
      else some (s, host addr length)

  -- `host` is host_syscall_SYS_mremap; `fixed` is the MREMAP_FIXED bit of the flags.
  pub sys_mremap :
      (ℕ → ℕ → ℕ → Bool → ℕ → Ret)
      → Mman Map
      → (ℕ → ℕ)
      → ℕ
      → ℕ
      → ℕ
      → Bool
      → ℕ
      → Option (Mman Map × (ℕ → ℕ) × Ret)
  sys_mremap host s mem old_addr old_length new_length fixed new_addr =
      if in_mmap_range s old_addr 0
      then enclave_mremap s mem old_addr old_length new_addr new_length fixed
      else some (s, mem, host old_addr old_length new_length fixed new_addr)

  -- `host` is host_syscall_SYS_msync.
  pub sys_msync : (ℕ → ℕ → ℕ → Rc) → Mman Map → ℕ → ℕ → ℕ → Rc
  sys_msync host s addr length flags = if in_mmap_range s addr 0 then ok else host addr length flags

  unfoldable pub sys_sysinfo : Mman Map → Sysinfo
  sys_sysinfo s = record {
    totalram = mul_size s.num_pages page_size;
    freeram = mul_size (sub_size s.num_pages s.used_pages) page_size;
  }
