-- ===== src/Lthread/Join.antt =====
-- lthread_join of src/sched/lthread.c, in two parts: up to its yield, and behind it.
pub mod Exit
pub mod Refused
use rkt_io.Common.{
  ℕ, Bool, true, false, Option, none, some, List, [], ◌∷◌, ◌++◌, if◌then◌else◌, ◌==◌, ◌≡◌, ◌≢◌,
  arith, refl,
}
use rkt_io.Lthread.Outcome.{Outcome, done, spins, dangling, ◌>>=◌}
use rkt_io.Lthread.State.{Lthread, World, unlock_cb, find, put, lthread_lock, lthread_unlock}
use rkt_io.Lthread.Free.{lthread_free}
use rkt_io.Lthread.Sched.{lthread_yield_cb}

-- EINVAL, at the second part already, or yielded with the second part to come
pub data Joining : Type 0 where
  refused proceeds yields : Joining

unfoldable pub set_joiner : ℕ → ℕ → World → Outcome (World × Joining)
unfolding lthread_unlock
set_joiner t me w = do
  lt ← find w t
  elim lt.lt_join [
    | some j ↦ do unlocked ← lthread_unlock t w; done (unlocked, refused)
    | none ↦ do
      yielded ← lthread_yield_cb me unlock_cb t (put t (record lt { lt_join = some me }) w)
      done (yielded, yields)
  ]

-- `me` is the current thread.
unfoldable pub lthread_join : ℕ → ℕ → World → Outcome (World × Joining)
unfolding lthread_lock lthread_unlock set_joiner
lthread_join t me w = do
  lt ← find w t
  (if lt.state.detach then done (w, refused) else (do
    locked ← lthread_lock t w
    (if lt.state.exited
        then (do unlocked ← lthread_unlock t locked; done (unlocked, proceeds))
        else set_joiner t me locked)))

-- The value that the thread left, and the struct freed
unfoldable pub lthread_join_end : ℕ → World → Outcome (World × ℕ)
unfolding lthread_free
lthread_join_end t w = do lt ← find w t; freed ← lthread_free t w; done (freed, lt.yield_cbarg)
