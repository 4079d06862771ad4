-- ===== src/Disk/Memory/Offset.antt =====
-- Where do_read of src/lkl/disk_mem.c takes the bytes of each buffer from.
use rkt_io.Common.{ℕ, ◌+◌, ◌^◌, ◌≤◌, ◌<◌, ◌≡◌, ◌⊎◌, List, [], ◌∷◌}
use rkt_io.Disk.{Iovec}

-- Two ranges, each by its start and length, without a common address
abbrev pub Apart : ℕ → ℕ → ℕ → ℕ → Type 0
Apart a n c m = (a + n ≤ c) ⊎ (c + m ≤ a)

abbrev pub AllApart : ℕ → ℕ → List Iovec → Type 0
AllApart a n [] = Unit {0}
AllApart a n (b ∷ bufs) = Apart a n b.iov_base b.iov_len × AllApart a n bufs

-- Buffers of up to `span` bytes that overlap neither each other nor the `span` bytes from `from` on
abbrev pub AreBuffers : ℕ → ℕ → List Iovec → Type 0
AreBuffers from span [] = Unit {0}
AreBuffers from span (b ∷ bufs) =
    (b.iov_len ≤ span)
    × (b.iov_len < 2 ^ 31)
    × Apart from span b.iov_base b.iov_len
    × AllApart b.iov_base b.iov_len bufs
    × AreBuffers from span bufs

-- Every buffer holds the bytes from the one address on.
abbrev pub AllFrom : ℕ → (ℕ → ℕ) → (ℕ → ℕ) → List Iovec → Type 0
AllFrom from mem mem' [] = Unit {0}
AllFrom from mem mem' (b ∷ bufs) =
    ((k : ℕ) → k < b.iov_len → mem' (b.iov_base + k) ≡ mem (from + k)) × AllFrom from mem mem' bufs
