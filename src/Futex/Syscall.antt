-- ===== src/Futex/Syscall.antt =====
-- futex_wait and syscall_SYS_futex of src/sched/futex.c.
use rkt_io.Common.{ℕ, ◌+◌, not, ◌&&◌, ◌==◌, if◌then◌else◌, Option, some, none, ◌∷◌, bit_and, bit_or}
use rkt_io.Futex.{
  Timespec, timespec_to_usec, FutexQ, Futexes, to_futex_key, clock_realtime, clock_monotonic,
  futex_expired, u32, u64, futex_wake, futex_requeue,
}
use rkt_io.Futex.Op

pub data Errno : Type 0 where
  eagain einval enosys etimedout : Errno

-- What the call returns: a count, an error, or a variable that was never set. `sleeps` is a call
-- that has yielded; `wake_rc` is what it returns when the thread runs again.
pub data Rc : Type 0 where
  count : ℕ → Rc
  error : Errno → Rc
  sleeps : Rc
  unset : Rc

-- __futex_wait_new: the entry that the thread `self` puts at the head of the queue.
pub futex_wait_new : ℕ → ℕ → ℕ → FutexQ
futex_wait_new self futex_key bitset = record {
  futex_key = futex_key;
  futex_bitset = bitset;
  futex_deadline = 0;
  clock = clock_monotonic;
  futex_lt = self;
}

-- The deadline that __do_futex_sleep sets on the thread's entry `fq`.
pub set_deadline : Option Timespec → ℕ → Timespec → FutexQ → FutexQ
unfolding timespec_to_usec
set_deadline none clock now fq = fq
set_deadline (some ts) clock now fq = record fq {
  clock = clock;
  futex_deadline = u64 (timespec_to_usec now + timespec_to_usec ts);
}

-- __do_futex_sleep up to the yield, which unlocks.
pub futex_sleep : FutexQ → Option Timespec → ℕ → Timespec → Futexes → Futexes
unfolding set_deadline
futex_sleep fq ts clock now s = record s {
  queues = set_deadline ts clock now fq ∷ s.queues;
  sleepers = u32 (s.sleepers + 1);
}

-- The end of __do_futex_sleep: what the wait returns to a thread that was woken.
unfoldable pub wake_rc : ℕ → Rc
wake_rc err = if err == futex_expired then error etimedout else count 0

-- `r` is the value found at `uaddr`.
unfoldable pub futex_wait :
    ℕ → ℕ → ℕ → ℕ → ℕ → Option Timespec → ℕ → Timespec → Futexes → Futexes × Rc
unfolding futex_sleep futex_wait_new to_futex_key
futex_wait self uaddr r val bitset ts clock now s =
    if r == val
    then (futex_sleep (futex_wait_new self (to_futex_key uaddr) bitset) ts clock now s, sleeps)
    else (s, error eagain)

-- The arguments of the system call; `limit` is the timeout argument read as an int.
pub record Args : Type 0 where
  pub uaddr : ℕ
  pub op : ℕ
  pub val : ℕ
  pub timeout : Option Timespec
  pub limit : ℕ
  pub uaddr2 : ℕ
  pub val3 : ℕ

abbrev pub counted : Futexes × ℕ → Futexes × Rc
counted (s, n) = (s, count n)

-- The `switch`, on the operation without its flags. `mem` is what user memory holds.
unfoldable pub dispatch : ℕ → (ℕ → ℕ) → Args → ℕ → ℕ → Timespec → Futexes → Futexes × Rc
dispatch self mem a op clock now s =
    if op == Op.wait_bitset
    then (if a.val3 == 0
        then (s, error einval)
        else futex_wait self a.uaddr (mem a.uaddr) a.val a.val3 a.timeout clock now s)
    else if op == Op.wait
    then futex_wait self a.uaddr (mem a.uaddr) a.val Op.match_any a.timeout clock now s
    else if op == Op.wake_bitset
    then (if a.val3 == 0 then (s, error einval) else counted (futex_wake a.uaddr a.val a.val3 s))
    else if op == Op.wake
    then counted (futex_wake a.uaddr a.val Op.match_any s)
    else if op == Op.cmp_requeue
    then (if mem a.uaddr == a.val3
        then counted (futex_requeue a.uaddr a.uaddr2 a.val a.limit s)
        else (s, unset))
    else if op == Op.requeue
    then counted (futex_requeue a.uaddr a.uaddr2 a.val a.limit s)
    else (s, error enosys)

-- `struct timespec now = {0}`
abbrev pub zero_time : Timespec
zero_time = record { tv_sec = 0; tv_nsec = 0 }

-- `gettime` is clock_gettime: the time by each clock.
unfoldable pub sys_futex : ℕ → (ℕ → ℕ) → (ℕ → Timespec) → Args → Futexes → Futexes × Rc
sys_futex self mem gettime a s =
    let op = bit_and a.op (Op.complement Op.private_flag) in
    let on_realtime = not (bit_and op Op.clock_flag == 0) in
    let clock = (if on_realtime then clock_realtime else clock_monotonic) in
    let op' = bit_and op (Op.complement Op.clock_flag) in
    let now = (if op' == Op.wait then gettime clock else zero_time) in
    if on_realtime && bit_and op (bit_or Op.wait Op.wait_bitset) == 0
    then (s, error enosys)
    else dispatch self mem a op' clock now s
