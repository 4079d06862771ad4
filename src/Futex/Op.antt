-- ===== src/Futex/Op.antt =====
-- The operation numbers and flags that src/sched/futex.c takes from its C library's <futex.h>: those
-- of the Linux ABI.
use rkt_io.Common.{ℕ, ◌-◌, ◌^◌}

abbrev pub wait : ℕ
wait = 0

abbrev pub wake : ℕ
wake = 1

abbrev pub requeue : ℕ
requeue = 3

abbrev pub cmp_requeue : ℕ
cmp_requeue = 4

abbrev pub wait_bitset : ℕ
wait_bitset = 9

abbrev pub wake_bitset : ℕ
wake_bitset = 10

abbrev pub private_flag : ℕ
private_flag = 128

abbrev pub clock_flag : ℕ
clock_flag = 256

-- ~x on an int, as its bit pattern
abbrev pub complement : ℕ → ℕ
complement x = 2 ^ 32 - 1 - x

abbrev pub match_any : ℕ
match_any = 2 ^ 32 - 1
