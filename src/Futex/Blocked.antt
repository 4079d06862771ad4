-- ===== src/Futex/Blocked.antt =====
-- A thread of src/sched/futex.c that goes to sleep, and how it comes back.
use rkt_io.Common.{
  ℕ, ◌^◌, ◌≤◌, ◌<◌, ◌≡◌, ◌≢◌, refl, arith, true, Option, some, none, List, [], ◌∷◌, ◌++◌, bit_and,
}
use rkt_io.Futex.{
  Timespec, FutexQ, Futexes, to_futex_key, futex_none, wake_walk, wake_up, matches, futex_wake,
}
use rkt_io.Futex.Syscall.{
  count, sleeps, futex_wait, futex_sleep, futex_wait_new, set_deadline, wake_rc,
}

-- A wake for no more threads changes nothing.
wake_walk_none :
    (key num bitset : ℕ) (q : List FutexQ) (w : ℕ) (s : Futexes)
    → num ≤ w
    → wake_walk key num bitset q w s ≡ record { stay = q; w = w; state = s }
unfolding wake_walk
wake_walk_none key num bitset [] w s h = refl
wake_walk_none key num bitset (fq ∷ q) w s h = ground (arith, wake_walk_none key num bitset q w s h)

wake_first :
    (key bitset : ℕ) (fq : FutexQ) (q : List FutexQ) (s : Futexes)
    → matches key bitset fq ≡ true
    → wake_walk key 1 bitset (fq ∷ q) 0 s
      ≡ record { stay = q; w = 1; state = wake_up futex_none fq s }
unfolding wake_walk
wake_first key bitset fq q s hit =
    ground (arith, wake_walk_none key 1 bitset q 1 (wake_up futex_none fq s))

-- A wait whose value matches, followed by a wake for one thread at that address, with a bitset that
-- meets the waiter's: exactly this waiter is made ready, although others may have waited longer. The
-- queue and the counter are as before the wait, and its wait returns 0.
pub futex_wake-futex_wait :
    (self uaddr val bitset bitset' : ℕ) (ts : Option Timespec) (clock : ℕ) (now : Timespec)
    (s : Futexes)
    → s.sleepers < 2 ^ 32
    → bit_and bitset bitset' ≢ 0
    → let (asleep, rc) = futex_wait self uaddr val val bitset ts clock now s in
      let (s', woken) = futex_wake uaddr 1 bitset' asleep in
      (rc ≡ sleeps)
      × (woken ≡ 1)
      × (s'.queues ≡ s.queues)
      × (s'.sleepers ≡ s.sleepers)
      × (s'.ready ≡ s.ready ++ (self ∷ []))
      × (wake_rc (s'.err self) ≡ count 0)
unfolding futex_wait futex_wake wake_rc matches wake_up
futex_wake-futex_wait self uaddr val bitset bitset' none clock now s small meet =
    let fq = futex_wait_new self (to_futex_key uaddr) bitset in
    let hit : matches (to_futex_key uaddr) bitset' fq ≡ true = ground arith in
    ground (
      arith,
      wake_first (to_futex_key uaddr) bitset' fq s.queues (futex_sleep fq none clock now s) hit,
    )
futex_wake-futex_wait self uaddr val bitset bitset' (some ts) clock now s small meet =
    let fq = set_deadline (some ts) clock now (futex_wait_new self (to_futex_key uaddr) bitset) in
    let hit : matches (to_futex_key uaddr) bitset' fq ≡ true = ground arith in
    ground (
      arith,
      wake_first (to_futex_key uaddr) bitset' fq s.queues
          (futex_sleep (futex_wait_new self (to_futex_key uaddr) bitset) (some ts) clock now s) hit,
    )
