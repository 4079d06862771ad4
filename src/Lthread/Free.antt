-- ===== src/Lthread/Free.antt =====
-- _lthread_free of src/sched/lthread.c.
use rkt_io.Common.{
  ℕ, not, ◌||◌, leb, none, some, List, [], ◌∷◌, ◌++◌, if◌then◌else◌, ◌==◌, ◌%◌, ◌+◌, ◌-◌, ◌^◌,
  bit_or,
}
use rkt_io.Lthread.Outcome.{Outcome, done, ◌>>=◌}
use rkt_io.Lthread.State.{
  Lthread, World, Event, Ptcb, RobustMutex, find, call, unmap, set_lock, wake, free_slot,
}
use rkt_io.Lthread.Keys.{lthread_rundestructors}

-- Cleanup handlers, the last pushed first
abbrev pub run_cancelbuf : List Ptcb → List Event
run_cancelbuf [] = []
run_cancelbuf (cb ∷ rest) = call cb.f cb.x ∷ run_cancelbuf rest

-- Robust mutexes: each is marked as left by a dead owner, and a waiter is woken.
abbrev pub leave_mutexes : ℕ → List RobustMutex → List Event
leave_mutexes tid [] = []
leave_mutexes tid (m ∷ rest) =
    let marked = set_lock m.address (bit_or tid 0x40000000) in
    if leb (2 ^ 31) m.lock || not (m.waiters == 0)
    then marked ∷ wake m.address m.priv ∷ leave_mutexes tid rest
    else marked ∷ leave_mutexes tid rest

abbrev pub unmap_if : ℕ → ℕ → List Event
unmap_if a n = if a == 0 then [] else unmap a n ∷ []

-- What is called before the struct is freed; destructors only run if there is a current thread.
unfoldable pub release : World → Lthread → List Event
unfolding lthread_rundestructors
release w lt =
    run_cancelbuf lt.cancelbuf
    ++ elim w.current_lthread [ none ↦ [] | some t ↦ lthread_rundestructors w.destructors lt.tls ]
    ++ unmap_if lt.itls lt.itlssz
    ++ leave_mutexes lt.tid lt.robust_list
    ++ unmap_if lt.stack lt.stack_size
    ++ (free_slot lt.syscall ∷ [])

-- The struct is gone, and everything that it refers to is given back.
unfoldable pub freed : ℕ → Lthread → World → World
unfolding release
freed t lt w = record w {
  threads = λ u. if u == t then none else w.threads u;
  threads_minus_1 = if w.threads_minus_1 == 0 then 0 else (w.threads_minus_1 + 2 ^ 32 - 1) % 2 ^ 32;
  events = w.events ++ release w lt;
}

unfoldable pub lthread_free : ℕ → World → Outcome World
unfolding freed
lthread_free t w = do lt ← find w t; done (freed t lt w)
