-- ===== src/Disk.antt =====
-- The block devices of src/lkl/disk.c and src/lkl/disk_mem.c: what the two share. Addresses and file offsets are
-- numbers; memory and a file are functions from them to bytes.
pub mod Plain
pub mod Memory
mod Tests
use rkt_io.Common.{
  ℕ, ◌+◌, ◌-◌, ◌*◌, ◌%◌, ◌^◌, Bool, true, false, not, ◌&&◌, ltb, ◌==◌, if◌then◌else◌, Option, some,
  none, List, [], ◌∷◌,
}

-- The fields of `struct enclave_disk_config` that the devices use
pub record DiskConfig : Type 0 where
  pub fd : ℕ
  pub capacity : ℕ
  pub mmap : ℕ
  pub wait_on_io : Bool

-- `struct iovec` and `struct lkl_blk_req`, whose `count` is the length of `buf`
pub record Iovec : Type 0 where
  pub iov_base : ℕ
  pub iov_len : ℕ

-- LKL_DEV_BLK_TYPE_*
pub data ReqType : Type 0 where
  read write flush flush_out other_type : ReqType

pub record BlkReq : Type 0 where
  pub type : ReqType
  pub sector : ℕ
  pub buf : List Iovec

-- LKL_DEV_BLK_STATUS_*
pub data Status : Type 0 where
  ok ioerr unsup : Status

-- What a call of the host returns: a count, or a negative number
pub data Ssize : Type 0 where
  got : ℕ → Ssize
  minus : ℕ → Ssize

abbrev pub is_negative : Ssize → Bool
is_negative (got n) = false
is_negative (minus n) = true

unfoldable pub get_disk_config : List DiskConfig → ℕ → Option DiskConfig
get_disk_config [] fd = none
get_disk_config (d ∷ disks) fd = if d.fd == fd then some d else get_disk_config disks fd

-- `*res`, or -1
unfoldable pub fd_get_capacity : List DiskConfig → ℕ → Option ℕ
unfolding get_disk_config
fd_get_capacity disks fd = elim (get_disk_config disks fd) [
  | none ↦ none
  | some d ↦ some d.capacity
]

-- `size_t` of an `int` that a size_t was stored in
abbrev pub through_int : ℕ → ℕ
through_int n = if ltb (n % 2 ^ 32) (2 ^ 31) then n % 2 ^ 32 else n % 2 ^ 32 + 2 ^ 64 - 2 ^ 32

-- `n` bytes from `src` of one array to `dst` of another
unfoldable pub transfer : (ℕ → ℕ) → ℕ → (ℕ → ℕ) → ℕ → ℕ → ℕ → ℕ
transfer from src to dst n a =
    if not (ltb a dst) && ltb a (dst + n) then from (src + (a - dst)) else to a
