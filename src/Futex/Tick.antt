-- ===== src/Futex/Tick.antt =====
-- The timeouts of src/sched/futex.c: whom a scheduler tick wakes.
use rkt_io.Common.{
  ℕ, ◌<◌, ◌≡◌, refl, arith, Bool, true, false, not, ◌&&◌, leb, ◌==◌, if◌then◌else◌, List, [], ◌∷◌,
  filter, map, Bool-cases, inl, inr,
}
use rkt_io.Futex.{
  FutexQ, Futexes, Walked, put_back, tick_test, tick_walk, wake_up, futex_tick, futex_expired,
  clock_realtime,
}
use rkt_io.Futex.Woken.{wake_all, Woke, Woke-of}

-- The deadline is set, and passed on the monotonic clock.
abbrev pub is_due : ℕ → FutexQ → Bool
is_due mntc fq = not (fq.futex_deadline == 0) && leb fq.futex_deadline mntc

-- A tick that lets an entry sleep on overwrites its clock with CLOCK_REALTIME, if it has a deadline.
abbrev pub ticked : FutexQ → FutexQ
ticked fq = if fq.futex_deadline == 0 then fq else record fq { clock = clock_realtime }

tick_test_due :
    (real mntc : ℕ) (fq : FutexQ)
    → is_due mntc fq ≡ true
    → tick_test real mntc fq ≡ (record fq { clock = 1 }, true)
unfolding tick_test
tick_test_due real mntc fq h = ground arith

tick_test_early :
    (real mntc : ℕ) (fq : FutexQ)
    → is_due mntc fq ≡ false
    → tick_test real mntc fq ≡ (ticked fq, false)
unfolding tick_test
tick_test_early real mntc fq h = ground arith

record WalkTicked (mntc : ℕ) (q : List FutexQ) (s : Futexes) (r : Walked) : Type 0 where
  woken : r.state ≡ wake_all futex_expired (filter (is_due mntc) q) s
  asleep : r.stay ≡ map ticked (filter (λ fq. not (is_due mntc fq)) q)

tick_walk_lem :
    (real mntc : ℕ) (q : List FutexQ) (s : Futexes) → WalkTicked mntc q s (tick_walk real mntc q s)
unfolding tick_walk wake_all
tick_walk_lem real mntc [] s = record { woken = refl; asleep = refl }
tick_walk_lem real mntc (fq ∷ q) s = elim (Bool-cases (is_due mntc fq)) [
  | inl due ↦
      let ih = tick_walk_lem real mntc q (wake_up futex_expired fq s) in
      let step : tick_walk real mntc (fq ∷ q) s
          ≡ tick_walk real mntc q (wake_up futex_expired fq s) =
        ground (arith, tick_test_due real mntc fq due) in
      rw step (record { woken = ground (arith, ih.woken); asleep = ground (arith, ih.asleep) })
  | inr early ↦
      let ih = tick_walk_lem real mntc q s in
      let step : tick_walk real mntc (fq ∷ q) s ≡ put_back (ticked fq) (tick_walk real mntc q s) =
        ground (arith, tick_test_early real mntc fq early) in
      rw step (record { woken = ground (arith, ih.woken); asleep = ground (arith, ih.asleep) })
]

-- A tick that finds sleepers and gets the lock wakes, in the order of the queue, exactly the threads
-- whose deadline is set and has passed on the monotonic clock, and tells them that it expired. The
-- others stay in their order; those with a deadline now carry CLOCK_REALTIME as their clock.
pub futex_tick_lem :
    (real mntc : ℕ) (s : Futexes)
    → 0 < s.sleepers
    → let s' = futex_tick false real mntc s in
      Woke futex_expired (filter (is_due mntc) s.queues) s (record s' { queues = s.queues })
      × (s'.queues ≡ map ticked (filter (λ fq. not (is_due mntc fq)) s.queues))
unfolding futex_tick
futex_tick_lem real mntc s some_sleep =
    let walked = tick_walk_lem real mntc s.queues s in
    let awake : (s.sleepers == 0) ≡ false = ground arith in
    rw awake (Woke-of futex_expired (filter (is_due mntc) s.queues) s _ walked.woken, walked.asleep)

tick_test_realtime :
    (real real' mntc : ℕ) (fq : FutexQ) → tick_test real mntc fq ≡ tick_test real' mntc fq
unfolding tick_test
tick_test_realtime real real' mntc fq = ground arith

tick_walk_realtime :
    (real real' mntc : ℕ) (q : List FutexQ) (s : Futexes)
    → tick_walk real mntc q s ≡ tick_walk real' mntc q s
unfolding tick_walk
tick_walk_realtime real real' mntc [] s = refl
tick_walk_realtime real real' mntc (fq ∷ q) s = ground (
  arith,
  tick_test_realtime real real' mntc fq,
  tick_walk_realtime real real' mntc q s,
  tick_walk_realtime real real' mntc q (wake_up futex_expired (tick_test real mntc fq).0 s),
)

-- A tick is blind to CLOCK_REALTIME: whatever that clock says, it wakes the same threads and leaves
-- the same queue, so a deadline on it is held against the monotonic clock.
pub futex_tick_realtime :
    (busy : Bool) (real real' mntc : ℕ) (s : Futexes)
    → futex_tick busy real mntc s ≡ futex_tick busy real' mntc s
unfolding futex_tick
futex_tick_realtime busy real real' mntc s =
    ground (arith, tick_walk_realtime real real' mntc s.queues s)
