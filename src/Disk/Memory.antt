-- ===== src/Disk/Memory.antt =====
-- src/lkl/disk_mem.c: the device over a file that is mapped into memory.
pub mod Offset
use rkt_io.Common.{
  ℕ, ◌+◌, ◌*◌, ◌%◌, ◌^◌, Bool, true, false, ltb, if◌then◌else◌, Option, some, none, List, [], ◌∷◌,
}
use rkt_io.Disk.{
  DiskConfig, Iovec, ReqType, read, write, flush, flush_out, other_type, BlkReq, Status, ok, ioerr,
  unsup, Ssize, got, minus, is_negative, get_disk_config, through_int, transfer,
}

abbrev pub read_loop : ℕ → List Iovec → (ℕ → ℕ) → ℕ → ℕ
read_loop from [] mem = mem
read_loop from (b ∷ bufs) mem =
    read_loop from bufs (transfer mem from mem b.iov_base (through_int b.iov_len))

abbrev pub write_loop : ℕ → List Iovec → (ℕ → ℕ) → ℕ → ℕ
write_loop to [] mem = mem
write_loop to (b ∷ bufs) mem =
    write_loop to bufs (transfer mem b.iov_base mem to (through_int b.iov_len))

-- Memory, and whether the result is 0 or -1
unfoldable pub do_read : List DiskConfig → ℕ → BlkReq → (ℕ → ℕ) → (ℕ → ℕ) × Bool
unfolding get_disk_config transfer
do_read disks fd req mem = elim (get_disk_config disks fd) [
  | none ↦ (mem, false)
  | some d ↦ (read_loop (d.mmap + req.sector * 512 % 2 ^ 64) req.buf mem, true)
]

unfoldable pub do_write : List DiskConfig → ℕ → BlkReq → (ℕ → ℕ) → (ℕ → ℕ) × Bool
unfolding get_disk_config transfer
do_write disks fd req mem = elim (get_disk_config disks fd) [
  | none ↦ (mem, false)
  | some d ↦ (write_loop (d.mmap + req.sector * 512 % 2 ^ 64) req.buf mem, true)
]

-- `sync` is what msync of the mapping returns.
unfoldable pub blk_request : Ssize → List DiskConfig → ℕ → BlkReq → (ℕ → ℕ) → (ℕ → ℕ) × Status
unfolding do_read do_write get_disk_config
blk_request sync disks fd req mem = elim req.type [
  | read ↦ let (mem', done) = do_read disks fd req mem in (mem', if done then ok else ioerr)
  | write ↦ let (mem', done) = do_write disks fd req mem in (mem', if done then ok else ioerr)
  | flush ↦ elim (get_disk_config disks fd) [
    | none ↦ (mem, ioerr)
    | some d ↦ (mem, if is_negative sync then ioerr else ok)
  ]
  | flush_out ↦ elim (get_disk_config disks fd) [
    | none ↦ (mem, ioerr)
    | some d ↦ (mem, if is_negative sync then ioerr else ok)
  ]
  | other_type ↦ (mem, unsup)
]
