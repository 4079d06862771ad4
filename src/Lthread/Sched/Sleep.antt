-- ===== src/Lthread/Sched/Sleep.antt =====
-- _lthread_desched_sleep and lthread_wakeup of src/sched/lthread.c
use rkt_io.Common.{ℕ, ◌≡◌, arith}
use rkt_io.Lthread.Outcome.{done}
use rkt_io.Lthread.State.{World}
use rkt_io.Lthread.Sched.{lthread_desched_sleep}

-- To take a thread out of the sleepers a second time changes nothing, whether it was asleep or not.
pub lthread_desched_sleep_twice :
    (t : ℕ) (w w' : World)
    → lthread_desched_sleep t w ≡ done w'
    → lthread_desched_sleep t w' ≡ done w'
unfolding lthread_desched_sleep
lthread_desched_sleep_twice t w w' h = ground arith
