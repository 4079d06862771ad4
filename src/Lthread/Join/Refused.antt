-- ===== src/Lthread/Join/Refused.antt =====
-- lthread_join of src/sched/lthread.c where it does not wait to the end.
use rkt_io.Common.{ℕ, false, some, ◌≡◌, arith, refl, Bool-cases, inl, inr}
use rkt_io.Lthread.Outcome.{done}
use rkt_io.Lthread.State.{Lthread, World, put, lthread_lock, lthread_unlock}
use rkt_io.Lthread.Join.{refused, set_joiner, lthread_join}

-- A join of a live thread that has not exited, whose lock is free and that has a joiner already, returns EINVAL, and
-- leaves every thread and the queue as they are.
pub lthread_join_second :
    (t me j : ℕ) (lt : Lthread) (w : World)
    → w.threads t ≡ some lt
    → lt.state.busy ≡ false
    → lt.state.exited ≡ false
    → lt.lt_join ≡ some j
    → (w' : World) × (lthread_join t me w ≡ done (w', refused))
      × ((u : ℕ) → w'.threads u ≡ w.threads u)
      × (w'.queue ≡ w.queue)
unfolding lthread_join set_joiner lthread_lock lthread_unlock
lthread_join_second t me j lt w live free runs joined = elim (Bool-cases lt.state.detach) [
  | inl e ↦ (w, ground arith, λ u. refl, refl)
  | inr e ↦ (put t lt w, ground arith, λ u. ground arith, refl)
]
