-- ===== src/Disk/Tests.antt =====
-- The theorems on src/lkl/disk.c and src/lkl/disk_mem.c at small requests.
use rkt_io.Common.{◌≡◌, arith, true, ltb, if◌then◌else◌, Option, some, List, [], ◌∷◌}
use rkt_io.Lthread.{no_bits}
use rkt_io.Disk.{DiskConfig, Iovec, write, Ssize, got}
use rkt_io.Disk.Plain
use rkt_io.Disk.Plain.{pread, pwrite, Io, Host}
use rkt_io.Disk.Plain.Moves.{Obeys, Moves, contents}
use rkt_io.Disk.Plain.Request.{AllShort, status_at, blk_request_rw}
use rkt_io.Disk.Memory

abbrev disk : DiskConfig
disk = record { fd = 3; capacity = 4096; mmap = 0x10000; wait_on_io = true }

abbrev two_bufs : List Iovec
two_bufs = record { iov_base = 100; iov_len = 4 } ∷ record { iov_base = 200; iov_len = 3 } ∷ []

-- The host moves at most two bytes at a time.
abbrev slow : Host
slow call len = if ltb 2 len then got 2 else got len

slow-Obeys : Obeys slow
slow-Obeys call len n e = ground arith

abbrev start : Io
start = record { mem = λ a. 0; file = λ o. o; calls = 0; state = no_bits; was_pinned = [] }

two_bufs-AllShort : AllShort 5 two_bufs
two_bufs-AllShort = omega arith

blk_request_rw_example :
    (io' : Io) × (end : Option Ssize) × (Plain.blk_request slow
        (got 0)
        5
        (disk ∷ [])
        3
        (record { type = write; sector = 1; buf = two_bufs })
        start
      ≡ some (io', status_at end))
    × Moves slow pwrite 0 512 two_bufs (contents start) io'.calls (contents io') end
    × (io'.state ≡ no_bits)
blk_request_rw_example =
    blk_request_rw slow pwrite (got 0) 5 (disk ∷ []) 3 1 two_bufs start slow-Obeys two_bufs-AllShort

abbrev at_end : Host
at_end call len = got 0
