-- ===== src/Futex.antt =====
-- src/sched/futex.c: the queue of sleeping threads behind the futex system call. A thread is named
-- by a number; its `futex_q` is in the queue exactly while it sleeps. `ready` is what has been handed
-- to `__scheduler_enqueue`, in order.
pub mod Woken
pub mod Wake
pub mod Tick
pub mod Requeue
pub mod Op
pub mod Syscall
pub mod Blocked
pub mod Flags
pub mod Queue
pub mod System
mod Tests
use rkt_io.Common.{
  ℕ, ◌+◌, ◌-◌, ◌*◌, ◌/◌, ◌%◌, ◌^◌, Bool, true, false, not, ◌&&◌, ◌||◌, ltb, leb, ◌==◌,
  if◌then◌else◌, Option, some, none, List, [], ◌∷◌, ◌++◌, bit_and,
}

-- <time.h>: clock numbers
abbrev pub clock_realtime : ℕ
clock_realtime = 0

abbrev pub clock_monotonic : ℕ
clock_monotonic = 1

abbrev pub futex_none : ℕ
futex_none = 0

abbrev pub futex_expired : ℕ
futex_expired = 1

abbrev pub u32 : ℕ → ℕ
u32 n = n % 2 ^ 32

abbrev pub u64 : ℕ → ℕ
u64 n = n % 2 ^ 64

pub record Timespec : Type 0 where
  pub tv_sec : ℕ
  pub tv_nsec : ℕ

pub timespec_to_usec : Timespec → ℕ
timespec_to_usec ts = u64 (u64 (ts.tv_sec * 1000000) + ts.tv_nsec / 1000)

-- `struct futex_q`, with the thread `futex_lt` that it belongs to.
pub record FutexQ : Type 0 where
  pub futex_key : ℕ
  pub futex_bitset : ℕ
  pub futex_deadline : ℕ
  pub clock : ℕ
  pub futex_lt : ℕ

pub record Futexes : Type 0 where
  pub queues : List FutexQ
  pub sleepers : ℕ  -- int futex_sleepers
  pub err : ℕ → ℕ  -- lt->err of each thread
  pub ready : List ℕ

pub to_futex_key : ℕ → ℕ
to_futex_key uaddr = u32 uaddr

-- What is done to each thread that is woken, its entry taken off the queue.
pub wake_up : ℕ → FutexQ → Futexes → Futexes
wake_up reason fq s = record s {
  sleepers = u32 (s.sleepers + 2 ^ 32 - 1);
  err = λ t. if t == fq.futex_lt then reason else s.err t;
  ready = s.ready ++ (fq.futex_lt ∷ []);
}

-- `a && b` of C
abbrev pub c_and : ℕ → Bool → ℕ
c_and a b = if not (a == 0) && b then 1 else 0

-- The condition in `futex_tick`. It assigns to `fq->clock`, twice if the first test fails.
pub tick_test : ℕ → ℕ → FutexQ → FutexQ × Bool
tick_test curr_usec_real curr_usec_mntc fq =
    let real = c_and clock_realtime (leb fq.futex_deadline curr_usec_real) in
    let mntc = c_and clock_monotonic (leb fq.futex_deadline curr_usec_mntc) in
    if fq.futex_deadline == 0
    then (fq, false)
    else if not (real == 0)
    then (record fq { clock = real }, true)
    else (record fq { clock = mntc }, not (mntc == 0))

-- Results of a walk along the queue: what stays on it, how many were counted, and the state.
pub record Walked : Type 0 where
  pub stay : List FutexQ
  pub w : ℕ
  pub state : Futexes

abbrev pub put_back : FutexQ → Walked → Walked
put_back fq r = record r { stay = fq ∷ r.stay }

tick_walk : ℕ → ℕ → List FutexQ → Futexes → Walked
unfolding tick_test wake_up
tick_walk real mntc [] s = record { stay = []; w = 0; state = s }
tick_walk real mntc (fq ∷ rest) s =
    let (fq', expired) = tick_test real mntc fq in
    elim expired [
      | true ↦ tick_walk real mntc rest (wake_up futex_expired fq' s)
      | false ↦ put_back fq' (tick_walk real mntc rest s)
    ]

abbrev pub settled : Walked → Futexes
settled r = record (r.state) { queues = r.stay }

-- `busy` is the answer of `ticket_trylock`; the clocks are read before.
unfoldable pub futex_tick : Bool → ℕ → ℕ → Futexes → Futexes
unfolding tick_walk
futex_tick busy real mntc s =
    if s.sleepers == 0 || busy then s else settled (tick_walk real mntc s.queues s)

pub matches : ℕ → ℕ → FutexQ → Bool
matches futex_key bitset fq = fq.futex_key == futex_key && not (bit_and fq.futex_bitset bitset == 0)

wake_walk : ℕ → ℕ → ℕ → List FutexQ → ℕ → Futexes → Walked
unfolding wake_up matches
wake_walk key num bitset [] w s = record { stay = []; w = w; state = s }
wake_walk key num bitset (fq ∷ rest) w s = elim (matches key bitset fq && ltb w num) [
  | true ↦ wake_walk key num bitset rest (w + 1) (wake_up futex_none fq s)
  | false ↦ put_back fq (wake_walk key num bitset rest w s)
]

unfoldable pub futex_wake : ℕ → ℕ → ℕ → Futexes → Futexes × ℕ
unfolding wake_walk to_futex_key
futex_wake uaddr num bitset s =
    let r = wake_walk (to_futex_key uaddr) num bitset s.queues 0 s in (settled r, r.w)

requeue_walk : ℕ → ℕ → ℕ → ℕ → List FutexQ → ℕ → Futexes → Walked
unfolding wake_up
requeue_walk key key2 num limit [] w s = record { stay = []; w = w; state = s }
requeue_walk key key2 num limit (fq ∷ rest) w s = elim (fq.futex_key == key && ltb w num) [
  | true ↦ requeue_walk key key2 num limit rest (w + 1) (wake_up futex_none fq s)
  | false ↦ elim (fq.futex_key == key && ltb w (u32 (num + limit))) [
    | true ↦
        put_back (record fq { futex_key = key2 }) (requeue_walk key key2 num limit rest (w + 1) s)
    | false ↦ put_back fq (requeue_walk key key2 num limit rest w s)
  ]
]

unfoldable pub futex_requeue : ℕ → ℕ → ℕ → ℕ → Futexes → Futexes × ℕ
unfolding requeue_walk to_futex_key
futex_requeue uaddr uaddr2 num limit s =
    let r = requeue_walk (to_futex_key uaddr) (to_futex_key uaddr2) num limit s.queues 0 s in
    (settled r, r.w)
