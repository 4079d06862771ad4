-- ===== src/Futex/System.antt =====
-- The futex queue of src/sched/futex.c under system calls and scheduler ticks in any order. Each
-- call runs with `futex_q_lock` held up to its end or its yield, so calls do not interleave.
use rkt_io.Common.{
  ℕ, ◌≡◌, refl, arith, Bool, true, false, ◌==◌, Option, some, none, [], if◌then◌else◌,
}
use rkt_io.Futex.{Timespec, Futexes, futex_tick}
use rkt_io.Futex.Op
use rkt_io.Futex.Woken.{threads, member}
use rkt_io.Futex.Syscall.{Args, Rc, futex_wait, sys_futex, dispatch}
use rkt_io.Futex.Queue.{
  IsConsistent, futex_wake-IsConsistent, futex_requeue-IsConsistent, futex_tick-IsConsistent,
}

keeps :
    (b : Bool) (x y : Futexes × Rc)
    → IsConsistent x.0
    → IsConsistent y.0
    → IsConsistent (if b then x else y).0
keeps true x y p q = p
keeps false x y p q = q

module _ (self : ℕ) (s : Futexes) (c : IsConsistent s)
    (awake : member self (threads s.queues) ≡ false) where
  futex_wait-IsConsistent :
      (uaddr r val bitset : ℕ) (ts : Option Timespec) (clock : ℕ) (now : Timespec)
      → IsConsistent (futex_wait self uaddr r val bitset ts clock now s).0
  unfolding futex_wait threads
  futex_wait-IsConsistent uaddr r val bitset none clock now =
      keeps (r == val) _ _
        (record {
          sleepers_counted = omega (arith, c.sleepers_counted);
          distinct = (awake, c.distinct);
        })
        c
  futex_wait-IsConsistent uaddr r val bitset (some ts) clock now =
      keeps (r == val) _ _
        (record {
          sleepers_counted = omega (arith, c.sleepers_counted);
          distinct = (awake, c.distinct);
        })
        c

  dispatch-IsConsistent :
      (mem : ℕ → ℕ) (a : Args) (op clock : ℕ) (now : Timespec)
      → IsConsistent (dispatch self mem a op clock now s).0
  unfolding dispatch
  dispatch-IsConsistent mem a op clock now =
      let wait = λ (bitset : ℕ).
        futex_wait-IsConsistent a.uaddr (mem a.uaddr) a.val bitset a.timeout clock now in
      let wake = λ (bitset : ℕ). futex_wake-IsConsistent a.uaddr a.val bitset s c in
      let requeue = futex_requeue-IsConsistent a.uaddr a.uaddr2 a.val a.limit s c in
      keeps (op == Op.wait_bitset) _ _ (keeps (a.val3 == 0) _ _ c (wait a.val3)) (
        keeps (op == Op.wait) _ _ (wait Op.match_any) (
          keeps (op == Op.wake_bitset) _ _ (keeps (a.val3 == 0) _ _ c (wake a.val3)) (
            keeps (op == Op.wake) _ _ (wake Op.match_any) (
              keeps (op == Op.cmp_requeue) _ _ (keeps (mem a.uaddr == a.val3) _ _ requeue c)
                (keeps (op == Op.requeue) _ _ requeue c)))))

  sys_futex-IsConsistent :
      (mem : ℕ → ℕ) (gettime : ℕ → Timespec) (a : Args)
      → IsConsistent (sys_futex self mem gettime a s).0
  unfolding sys_futex
  sys_futex-IsConsistent mem gettime a = keeps _ _ _ c (dispatch-IsConsistent mem a _ _ _)

-- A thread that runs makes a call, or a scheduler ticks.
pub data Step (s : Futexes) : Futexes → Type 0 where
  call :
      (self : ℕ) (mem : ℕ → ℕ) (gettime : ℕ → Timespec) (a : Args)
      → member self (threads s.queues) ≡ false
      → Step s (sys_futex self mem gettime a s).0
  tick : (busy : Bool) (real mntc : ℕ) → Step s (futex_tick busy real mntc s)

pub data Reach (s : Futexes) : Futexes → Type 0 where
  here : Reach s s
  next : {t u : Futexes} → Reach s t → Step t u → Reach s u

Step-IsConsistent : {s t : Futexes} → IsConsistent s → Step s t → IsConsistent t
Step-IsConsistent {s} c (call self mem gettime a awake) =
    sys_futex-IsConsistent self s c awake mem gettime a
Step-IsConsistent {s} c (tick busy real mntc) = futex_tick-IsConsistent busy real mntc s c

-- The program's start: nobody sleeps.
abbrev pub start : Futexes
start = record { queues = []; sleepers = 0; err = λ _. 0; ready = [] }

start-IsConsistent : IsConsistent start
unfolding threads
start-IsConsistent = record { sleepers_counted = refl; distinct = tt }

-- Whatever system calls running threads make and however the scheduler ticks, the counter of sleepers
-- is the length of the queue (as an int) and no thread is on the queue twice.
pub Reach-IsConsistent : {s : Futexes} → Reach start s → IsConsistent s
Reach-IsConsistent here = start-IsConsistent
Reach-IsConsistent (next r st) = Step-IsConsistent (Reach-IsConsistent r) st
