-- ===== src/Disk/Plain.antt =====
-- src/lkl/disk.c: the device over a file of the host, read and written by system calls that may move fewer bytes
-- than they are asked for.
pub mod Moves
pub mod Request
use rkt_io.Common.{
  ℕ, zero, suc, ◌+◌, ◌-◌, ◌*◌, ◌%◌, ◌^◌, Bool, true, false, not, ◌&&◌, ltb, ◌==◌, if◌then◌else◌,
  Option, some, none, ◌>>=◌, List, [], ◌∷◌,
}
use rkt_io.Lthread.{LthreadSt}
use rkt_io.Disk.{
  DiskConfig, Iovec, ReqType, read, write, flush, flush_out, other_type, BlkReq, Status, ok, ioerr,
  unsup, Ssize, got, minus, is_negative, get_disk_config, through_int, transfer,
}

-- `fn` of do_plain_rw: pread64 or pwrite64
pub data Direction : Type 0 where
  pread pwrite : Direction

-- Memory, the file, the number of system calls made, and the state bits of the current thread; `pinned` says of each call, the last
-- first, whether the thread was pinned.
pub record Io : Type 0 where
  pub mem : ℕ → ℕ
  pub file : ℕ → ℕ
  pub calls : ℕ
  pub state : LthreadSt
  pub was_pinned : List Bool

-- A call that moves `n` bytes
unfoldable pub move : Direction → ℕ → ℕ → ℕ → Io → Io
unfolding transfer
move pread addr off n io = record io { mem = transfer io.file off io.mem addr n }
move pwrite addr off n io = record io { file = transfer io.mem addr io.file off n }

abbrev pub called : Io → Io
called io = record io { calls = io.calls + 1; was_pinned = io.state.pinned ∷ io.was_pinned }

-- The host: what the n-th call for so many bytes returns
abbrev pub Host : Type 0
Host = ℕ → ℕ → Ssize

-- The inner loop: `none` for no fuel; the result is the last value that the call returned, and where the offset is.
-- `len` is what the call is passed of an `int`, so that 2 ^ 31 and more is a negative length.
unfoldable pub move_loop : Host → Direction → ℕ → ℕ → ℕ → ℕ → Io → Option (Io × Ssize × ℕ)
unfolding move
move_loop host fn zero addr len off io = none
move_loop host fn (suc fuel) addr len off io = elim (host io.calls len) [
  | minus n ↦ some (called io, minus n, off)
  | got zero ↦ some (called io, got 0, off)
  | got (suc n) ↦
      let moved = move fn addr off (suc n) (called io) in
      let again = move_loop host fn fuel (addr + suc n) (len - suc n) (off + suc n) moved in
      if ltb len (2 ^ 31) && ltb (suc n) len then again else some (moved, got (suc n), off + suc n)
]

abbrev pub set_pinned : Bool → Io → Io
set_pinned wait io = if wait then record io { state = record (io.state) { pinned = true } } else io

abbrev pub must_wait : List DiskConfig → ℕ → Bool
must_wait disks fd = elim (get_disk_config disks fd) [ none ↦ false | some d ↦ d.wait_on_io ]

abbrev pub is_positive : Ssize → Bool
is_positive (got zero) = false
is_positive (got (suc n)) = true
is_positive (minus n) = false

-- The loop over the buffers, `ret` at its start; the thread's state is put back behind each.
unfoldable pub rw_loop :
    Host → Direction → ℕ → List DiskConfig → ℕ → List Iovec → ℕ → Ssize → Io → Option (Io × Ssize)
unfolding move_loop get_disk_config
rw_loop host fn fuel disks fd [] off ret io = some (io, ret)
rw_loop host fn fuel disks fd (b ∷ bufs) off ret io = do
  moved ←
      move_loop host fn fuel b.iov_base (through_int b.iov_len) off
        (set_pinned (must_wait disks fd) io)
  (let back = record (moved.0) { state = io.state } in
      let rest = rw_loop host fn fuel disks fd bufs moved.2 moved.1 back in
      if is_positive moved.1 then rest else some (back, moved.1))

unfoldable pub do_plain_rw :
    Host → Direction → ℕ → List DiskConfig → ℕ → BlkReq → Io → Option (Io × Ssize)
unfolding rw_loop
do_plain_rw host fn fuel disks fd req io =
    rw_loop host fn fuel disks fd req.buf (req.sector * 512 % 2 ^ 64) (got 0) io

abbrev pub status_of : Ssize → Status
status_of r = if is_negative r then ioerr else ok

-- `sync` is what fdatasync returns.
unfoldable pub blk_request :
    Host → Ssize → ℕ → List DiskConfig → ℕ → BlkReq → Io → Option (Io × Status)
unfolding do_plain_rw
blk_request host sync fuel disks fd req io = elim req.type [
  | read ↦ do r ← do_plain_rw host pread fuel disks fd req io; some (r.0, status_of r.1)
  | write ↦ do r ← do_plain_rw host pwrite fuel disks fd req io; some (r.0, status_of r.1)
  | flush ↦ some (io, status_of sync)
  | flush_out ↦ some (io, status_of sync)
  | other_type ↦ some (io, unsup)
]
