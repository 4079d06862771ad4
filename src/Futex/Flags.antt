-- ===== src/Futex/Flags.antt =====
-- How syscall_SYS_futex of src/sched/futex.c reads its operation, and what follows from the widths
-- and the special values that src/sched/futex.c uses.
use rkt_io.Common.{ℕ, ◌+◌, ◌*◌, ◌^◌, ◌≡◌, ◌≢◌, refl, arith, false, some, ◌∷◌}
use rkt_io.Futex.{Timespec, FutexQ, Futexes, to_futex_key, futex_wake, u32}
use rkt_io.Futex.Tick.{is_due}
use rkt_io.Futex.Syscall.{
  Args, error, unset, enosys, futex_wait, sys_futex, dispatch, set_deadline, futex_wait_new,
  counted, zero_time,
}
use rkt_io.Futex.Op

module _ (self : ℕ) (mem : ℕ → ℕ) (gettime : ℕ → Timespec) (a : Args) (s : Futexes) where
  -- The flag FUTEX_CLOCK_REALTIME is refused with FUTEX_WAIT, whatever the other arguments, and is
  -- accepted and without effect on FUTEX_WAKE.
  pub sys_futex-clock_flag :
      (sys_futex self mem gettime (record a { op = Op.wait + Op.clock_flag }) s ≡ (s, error enosys))
      × (sys_futex self mem gettime (record a { op = Op.wake + Op.clock_flag }) s
          ≡ counted (futex_wake a.uaddr a.val Op.match_any s))
  unfolding sys_futex dispatch
  sys_futex-clock_flag = (refl, refl)

  -- FUTEX_CMP_REQUEUE is FUTEX_REQUEUE where the word at the address has the expected value; where it
  -- has not, nothing is done, and what is returned is a variable that was never set.
  pub sys_futex-cmp_requeue :
      let r = sys_futex self mem gettime (record a { op = Op.cmp_requeue }) s in
      (mem a.uaddr ≡ a.val3 → r ≡ sys_futex self mem gettime (record a { op = Op.requeue }) s)
      × (mem a.uaddr ≢ a.val3 → r ≡ (s, unset))
  unfolding sys_futex dispatch
  sys_futex-cmp_requeue = (λ h. ground arith, λ h. ground arith)

-- Addresses that agree in their low 32 bits are one futex: a wake at one is a wake at the other.
pub futex_wake_collision :
    (uaddr high num bitset : ℕ) (s : Futexes)
    → futex_wake (uaddr + high * 2 ^ 32) num bitset s ≡ futex_wake uaddr num bitset s
unfolding futex_wake to_futex_key
futex_wake_collision uaddr high num bitset s =
    let e : u32 (uaddr + high * 2 ^ 32) ≡ u32 uaddr = omega arith in rw e

-- A wait whose deadline is the zero of its clock, which has passed, is queued without a deadline: no
-- tick will find it due.
pub futex_wait_deadline_zero :
    (self uaddr val bitset clock : ℕ) (s : Futexes)
    → (fq : FutexQ) × ((futex_wait self uaddr val val bitset
          (some zero_time)
          clock
          zero_time
          s).0.queues
        ≡ fq ∷ s.queues)
      × ((mntc : ℕ) → is_due mntc fq ≡ false)
unfolding futex_wait
futex_wait_deadline_zero self uaddr val bitset clock s = (
  set_deadline (some zero_time) clock zero_time (futex_wait_new self (to_futex_key uaddr) bitset),
  ground arith,
  λ mntc. refl,
)
