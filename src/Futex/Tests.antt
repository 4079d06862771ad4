-- ===== src/Futex/Tests.antt =====
-- Runs of the futex calls of src/sched/futex.c, and their theorems at those inputs.
use rkt_io.Common.{ℕ, ◌≡◌, refl, arith, false, not, none, [], ◌∷◌, filter, take, map, min, length}
use rkt_io.Futex.{
  Timespec, Futexes, to_futex_key, futex_wake, futex_requeue, futex_tick, matches, futex_none,
  futex_expired,
}
use rkt_io.Futex.Woken.{Woke, threads, member}
use rkt_io.Futex.Wake.{Awoke, futex_wake_lem}
use rkt_io.Futex.Tick.{is_due, ticked, futex_tick_lem}
use rkt_io.Futex.Requeue.{has_key, rekey, drop_hits, futex_requeue_lem}
use rkt_io.Futex.Syscall.{Args, count, sleeps, futex_wait, sys_futex, wake_rc, zero_time}
use rkt_io.Futex.Blocked.{futex_wake-futex_wait}
use rkt_io.Futex.Queue.{IsConsistent}
use rkt_io.Futex.System.{call, tick, here, next, start, Reach-IsConsistent}

-- Threads 3 and 2 wait at 0x1000, thread 2 until 500 on the realtime clock; thread 1 waits at 0x2000
-- until 90 on the monotonic clock.
abbrev waiting : Futexes
waiting = record {
  queues =
      record { futex_key = 0x1000; futex_bitset = 1; futex_deadline = 0; clock = 1; futex_lt = 3 }
      ∷ record {
        futex_key = 0x2000;
        futex_bitset = 1;
        futex_deadline = 90;
        clock = 1;
        futex_lt = 1;
      }
      ∷ record {
        futex_key = 0x1000;
        futex_bitset = 1;
        futex_deadline = 500;
        clock = 0;
        futex_lt = 2;
      }
      ∷ [];
  sleepers = 3;
  err = λ _. 7;
  ready = 9 ∷ [];
}

wake_runs :
    ((futex_wake 0x1000 1 1 waiting).0.ready ≡ 9 ∷ 3 ∷ [])
    × ((futex_wake 0x1000 5 1 waiting).0.ready ≡ 9 ∷ 3 ∷ 2 ∷ [])
    × ((futex_wake 0x1000 5 2 waiting).1 ≡ 0)
unfolding futex_wake
wake_runs = (refl, refl, refl)

tick_runs :
    ((futex_tick false 1000 100 waiting).ready ≡ 9 ∷ 1 ∷ [])
    × ((futex_tick false 0 600 waiting).ready ≡ 9 ∷ 1 ∷ 2 ∷ [])
unfolding futex_tick
tick_runs = (refl, refl)

requeue_runs :
    let (s, rc) = futex_requeue 0x1000 0x3000 1 1 waiting in
    (s.ready ≡ 9 ∷ 3 ∷ []) × (rc ≡ 2) × (map (λ fq. fq.futex_key) s.queues ≡ 0x2000 ∷ 0x3000 ∷ [])
unfolding futex_requeue
requeue_runs = (refl, refl, refl)

futex_wake_lem_example :
    let (s', rc) = futex_wake 0x1000 1 1 waiting in
    Awoke (matches (to_futex_key 0x1000) 1) 1 waiting s' rc
futex_wake_lem_example = futex_wake_lem 0x1000 1 1 waiting

futex_tick_lem_example :
    let s' = futex_tick false 1000 100 waiting in
    Woke futex_expired
      (filter (is_due 100) waiting.queues)
      waiting
      (record s' { queues = waiting.queues })
    × (s'.queues ≡ map ticked (filter (λ fq. not (is_due 100 fq)) waiting.queues))
futex_tick_lem_example = futex_tick_lem 1000 100 waiting (omega arith)

futex_requeue_lem_example :
    let (s', rc) = futex_requeue 0x1000 0x3000 1 1 waiting in
    let p = has_key (to_futex_key 0x1000) in
    Woke futex_none
      (take 1 (filter p waiting.queues))
      waiting
      (record s' { queues = waiting.queues })
    × (s'.queues ≡ rekey p (to_futex_key 0x3000) 1 (drop_hits p 1 waiting.queues))
    × (rc ≡ min 2 (length (filter p waiting.queues)))
futex_requeue_lem_example = futex_requeue_lem 0x1000 0x3000 1 1 waiting (omega arith)

futex_wake-futex_wait_example :
    let (asleep, rc) = futex_wait 5 0x1000 8 8 3 none 1 zero_time waiting in
    let (s', woken) = futex_wake 0x1000 1 1 asleep in
    (rc ≡ sleeps)
    × (woken ≡ 1)
    × (s'.queues ≡ waiting.queues)
    × (s'.sleepers ≡ 3)
    × (s'.ready ≡ 9 ∷ 5 ∷ [])
    × (wake_rc (s'.err 5) ≡ count 0)
futex_wake-futex_wait_example =
    futex_wake-futex_wait 5 0x1000 8 3 1 none 1 zero_time waiting (omega arith) (omega arith)

abbrev args : Args
args = record {
  uaddr = 0x1000;
  op = 0;
  val = 8;
  timeout = none;
  limit = 1;
  uaddr2 = 0x3000;
  val3 = 4;
}

abbrev no_time : ℕ → Timespec
no_time _ = zero_time

nobody : member 5 (threads start.queues) ≡ false
unfolding member threads
nobody = refl

abbrev slept : Futexes
slept = (sys_futex 5 (λ _. 8) no_time args start).0

Reach-IsConsistent_example : IsConsistent (futex_tick false 0 0 slept)
Reach-IsConsistent_example =
    Reach-IsConsistent (next (next here (call 5 (λ _. 8) no_time args nobody)) (tick false 0 0))
