-- ===== src/Mem/Syscalls/Mmap.antt =====
-- syscall_SYS_mmap and enclave_mmap_flags_supported of src/sgx/enclave_mem.c. Memory and a file are functions from addresses and
-- offsets to bytes; lseek succeeds. mprotect changes no byte and is left out.
pub mod Reading
pub mod Contents
use rkt_io.Common.{
  ℕ, zero, suc, ◌+◌, ◌-◌, ◌%◌, ◌^◌, Bool, true, false, not, ◌&&◌, ◌||◌, ltb, ◌==◌, bit_and,
  if◌then◌else◌, Option, some, none, ◌>>=◌,
}
use rkt_io.Mem.Bitops.{Bitops}
use rkt_io.Mem.Layout.{Mman}
use rkt_io.Mem.Alloc.{Ret, ptr, failed, einval, enclave_mmap}

-- A file descriptor, -1, or another negative number
pub data Fd : Type 0 where
  descriptor : ℕ → Fd
  minus_one other_negative : Fd

-- What a call of read returns: a count, or -1
pub data ReadRet : Type 0 where
  count : ℕ → ReadRet
  read_error : ReadRet

abbrev pub map_shared : ℕ
map_shared = 0x01

abbrev pub map_private : ℕ
map_private = 0x02

abbrev pub map_fixed : ℕ
map_fixed = 0x10

abbrev pub map_anonymous : ℕ
map_anonymous = 0x20

abbrev pub prot_write : ℕ
prot_write = 0x2

abbrev pub has : ℕ → ℕ → Bool
has flags bit = not (bit_and flags bit == 0)

abbrev pub is_minus_one : Fd → Bool
is_minus_one (descriptor k) = false
is_minus_one minus_one = true
is_minus_one other_negative = false

abbrev pub flags_of_files : ℕ → ℕ
flags_of_files files =
    if files == 2 then map_private + map_shared else if files == 1 then map_private else 0

-- The static variable, `none` for -1, is set by the first call.
unfoldable pub enclave_mmap_flags_supported : Option ℕ → ℕ → ℕ → Fd → Bool × Option ℕ
enclave_mmap_flags_supported supported files flags fd =
    let now : ℕ = elim supported [ none ↦ flags_of_files files | some f ↦ f ] in
    ((is_minus_one fd && has flags map_anonymous) || has now flags, some now)

-- memset with 0
unfoldable pub clear : (ℕ → ℕ) → ℕ → ℕ → ℕ → ℕ
clear mem a n x = if not (ltb x a) && ltb x (a + n) then 0 else mem x

-- The n-th call of read for so many bytes
abbrev pub Answers : Type 0
Answers = ℕ → ℕ → ReadRet

-- `n` bytes of the file from `src` on, stored from `dst` on; addresses wrap
unfoldable pub store : (ℕ → ℕ) → ℕ → (ℕ → ℕ) → ℕ → ℕ → ℕ → ℕ
store file src mem dst n a =
    let i = (a + 2 ^ 64 - dst) % 2 ^ 64 in
    if ltb a (2 ^ 64) && ltb i n then file (src + i) else mem a

-- The loop over read, with fuel: `pos` is where the file stands. `readb` and the result of read are of type size_t, so that -1
-- is 2 ^ 64 - 1, which is more than 0.
unfoldable pub fill_from : ℕ → Answers → (ℕ → ℕ) → ℕ → ℕ → ℕ → ℕ → ℕ → (ℕ → ℕ) → Option (ℕ → ℕ)
unfolding store
fill_from zero answers file addr length readb pos calls mem = none
fill_from (suc fuel) answers file addr length readb pos calls mem =
    let left = (length + 2 ^ 64 - readb) % 2 ^ 64 in
    elim (answers calls left) [
      | read_error ↦
          fill_from fuel answers file addr length ((readb + (2 ^ 64 - 1)) % 2 ^ 64) pos (calls + 1)
            mem
      | count zero ↦ some mem
      | count (suc n) ↦
          fill_from fuel answers file addr length ((readb + suc n) % 2 ^ 64) (pos + suc n)
            (calls + 1) (store file pos mem ((addr + readb) % 2 ^ 64) (suc n))
    ]

-- MAP_FAILED is (void * ) -1.
abbrev pub address_of : Ret → ℕ
address_of (ptr a) = a
address_of (failed e) = 2 ^ 64 - 1

abbrev pub clear_mapped : Bool → Ret → (ℕ → ℕ) → ℕ → ℕ → ℕ
unfolding clear
clear_mapped writable (ptr a) mem length = if writable then clear mem a length else mem
clear_mapped writable (failed e) mem length = mem

-- The heap, the static variable, memory, and the result
abbrev pub Effect : Type 0 → Type 0
Effect Map = Mman Map × Option ℕ × (ℕ → ℕ) × Ret

module _ {Map : Type 0} ⦃b : Bitops Map⦄ where
  unfoldable pub map_anonymously :
      Mman Map → Option ℕ → (ℕ → ℕ) → ℕ → ℕ → ℕ → ℕ → Option (Effect Map)
  map_anonymously s supported mem addr length prot flags = do
    mapped ← enclave_mmap s addr length (has flags map_fixed)
    some (mapped.0, supported, clear_mapped (has prot prot_write) mapped.1 mem length, mapped.1)

  -- The result of read is unsigned, so the error path behind the loop, which tests for a negative one, is never taken.
  unfoldable pub map_file :
      ℕ → Answers → (ℕ → ℕ) → Mman Map → Option ℕ → (ℕ → ℕ) → ℕ → ℕ → ℕ → ℕ → Option (Effect Map)
  unfolding fill_from
  map_file fuel answers file s supported mem addr length flags offset = do
    mapped ← enclave_mmap s addr length (has flags map_fixed)
    filled ←
        (if ltb 0 (address_of mapped.1)
          then fill_from fuel answers file (address_of mapped.1) length 0 offset 0 mem
          else some mem)
    some (mapped.0, supported, filled, mapped.1)

  unfoldable pub sys_mmap :
      ℕ
      → Answers
      → (ℕ → ℕ)
      → Mman Map
      → Option ℕ
      → (ℕ → ℕ)
      → ℕ
      → ℕ
      → ℕ
      → ℕ
      → Fd
      → ℕ
      → Option (Effect Map)
  unfolding map_anonymously map_file enclave_mmap_flags_supported
  sys_mmap fuel answers file s supported mem addr length prot flags fd offset =
      let supports = enclave_mmap_flags_supported supported s.files flags fd in
      if has flags map_shared && has flags map_private
      then some (s, supported, mem, failed einval)
      else if is_minus_one fd && has flags map_anonymous
      then map_anonymously s supported mem addr length prot flags
      else elim fd [
        | descriptor k ↦
            if supports.0
            then map_file fuel answers file s supports.1 mem addr length flags offset
            else some (s, supports.1, mem, failed einval)
        | minus_one ↦ some (s, supported, mem, failed einval)
        | other_negative ↦ some (s, supported, mem, failed einval)
      ]
