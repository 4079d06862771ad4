-- ===== src/Lthread/Sched.antt =====
-- How the scheduler of src/sched/lthread.c runs a thread (_lthread_resume), and the calls that change
-- the state bits of a thread. What the thread does between two switches is the argument `run`.
pub mod Cancel
pub mod Detached
pub mod Sleep
use rkt_io.Common.{
  ℕ, Bool, true, false, not, ◌&&◌, ◌||◌, ltb, Option, none, some, List, [], ◌∷◌, ◌++◌,
  if◌then◌else◌, ◌==◌, ◌%◌, ◌+◌, ◌-◌, ◌^◌,
}
use rkt_io.Lthread.Outcome.{Outcome, done, spins, dangling, ◌>>=◌}
use rkt_io.Lthread.State.{
  LthreadSt, Lthread, YieldCb, no_cb, unlock_cb, enqueue_cb, other_cb, World, Event, call,
  destroy_arena, no_bits, find, put, set_state, scheduler_enqueue, emit, lthread_lock,
  lthread_unlock,
}
use rkt_io.Lthread.Free.{lthread_free}

abbrev pub without : ℕ → List ℕ → List ℕ
without t [] = []
without t (u ∷ us) = let rest = without t us in if u == t then rest else u ∷ rest

-- Whoever joins the thread is made ready.
abbrev pub wake_joiner : ℕ → Lthread → World → World
wake_joiner t lt w = elim lt.lt_join [
  | none ↦ w
  | some j ↦ put t (record lt { lt_join = none }) (scheduler_enqueue j w)
]

unfoldable pub free_if_detached : ℕ → World → Outcome World
unfolding lthread_free
free_if_detached t w = do lt ← find w t; (if lt.state.detach then lthread_free t w else done w)

-- `_lthread_init`: every bit but LT_ST_READY and LT_ST_DETACH is cleared, the lock bit with them.
unfoldable pub lthread_init_state : ℕ → World → Outcome World
unfolding lthread_lock
lthread_init_state t w = do
  locked ← lthread_lock t w
  lt ← find locked t
  done (put t (set_state lt (record no_bits { ready = true; detach = lt.state.detach })) locked)

unfoldable pub init_if_new : ℕ → World → Outcome World
unfolding lthread_init_state
init_if_new t w = do lt ← find w t; (if lt.state.new then lthread_init_state t w else done w)

-- The part of `_lthread_resume` up to the switch to the thread
unfoldable pub switch_to : ℕ → World → Outcome World
unfolding init_if_new
switch_to t w = do
  started ← init_if_new t w
  lt ← find started t
  done (record (put t (record lt { yield_cb = no_cb; yield_cbarg = 0 }) started) {
    current_lthread = some t;
  })

unfoldable pub run_yield_cb : Lthread → World → Outcome World
unfolding lthread_unlock
run_yield_cb lt w = elim lt.yield_cb [
  | no_cb ↦ done w
  | unlock_cb ↦ lthread_unlock lt.yield_cbarg w
  | enqueue_cb ↦ done (scheduler_enqueue lt.yield_cbarg w)
  | other_cb f ↦ done (emit (call f lt.yield_cbarg ∷ []) w)
]

-- The part behind the switch back. The result says whether the thread goes on to live: 0 or -1.
unfoldable pub switched_back : ℕ → World → Outcome (World × Bool)
unfolding lthread_unlock free_if_detached run_yield_cb
switched_back t w' = do
  (let w = record w' { current_lthread = none } in
      do
        lt ← find w t
        (if lt.state.exited
            then (do
              unlocked ← lthread_unlock t (wake_joiner t lt (emit (destroy_arena t ∷ []) w))
              freed ← free_if_detached t unlocked
              done (freed, false))
            else (do called ← run_yield_cb lt w; done (called, true))))

unfoldable pub lthread_resume : (World → Outcome World) → ℕ → World → Outcome (World × Bool)
unfolding switch_to switched_back free_if_detached
lthread_resume run t w = do
  lt ← find w t
  (if lt.state.cancelled
      then (do freed ← free_if_detached t (wake_joiner t lt w); done (freed, false))
      else (do switched ← switch_to t w; back ← run switched; switched_back t back))

-- `lthread_exit`, and `_exec` behind the return of the thread's function, on the current thread
unfoldable pub lthread_exit : ℕ → World → Outcome World
unfolding lthread_lock
lthread_exit ptr w = elim w.current_lthread [
  | none ↦ dangling
  | some t ↦ do
    locked ← lthread_lock t w
    lt ← find locked t
    done (
        put t (record lt { yield_cbarg = ptr; state = record (lt.state) { exited = true } }) locked)
]

-- `_lthread_yield_cb`, up to its switch
abbrev pub lthread_yield_cb : ℕ → YieldCb → ℕ → World → Outcome World
lthread_yield_cb t cb arg w = do
  lt ← find w t
  done (put t (record lt { yield_cb = cb; yield_cbarg = arg }) w)

abbrev pub lthread_yield_and_resched : ℕ → World → Outcome World
lthread_yield_and_resched t w = lthread_yield_cb t enqueue_cb t w

unfoldable pub lthread_desched_sleep : ℕ → World → Outcome World
lthread_desched_sleep t w = do
  lt ← find w t
  (if lt.state.sleeping
      then done
          (record (put t
            (set_state lt (record (lt.state) { sleeping = false; ready = true; expired = false }))
            w) { sleeping = without t w.sleeping; nsleepers = (w.nsleepers + 2 ^ 64 - 1) % 2 ^ 64 })
      else done w)

unfoldable pub lthread_wakeup : ℕ → World → Outcome World
unfolding lthread_desched_sleep
lthread_wakeup t w = do
  lt ← find w t
  (if lt.state.sleeping
      then (do awake ← lthread_desched_sleep t w; done (scheduler_enqueue t awake))
      else done w)

-- `none` is the null pointer.
unfoldable pub lthread_cancel : Option ℕ → World → Outcome World
unfolding lthread_desched_sleep
lthread_cancel none w = done w
lthread_cancel (some t) w = do
  lt ← find w t
  (if lt.state.cancelstate then done w else (do
    awake ←
        lthread_desched_sleep t (put t (set_state lt (record (lt.state) { cancelled = true })) w)
    done (scheduler_enqueue t awake)))

unfoldable pub lthread_detach2 : ℕ → World → Outcome World
lthread_detach2 t w = do
  lt ← find w t
  (if lt.state.busy
      then spins
      else done (put t (set_state lt (record (lt.state) { detach = true })) w))

-- `lthread_setcancelstate` on the current thread: the old setting, or EINVAL as `none`.
unfoldable pub lthread_setcancelstate : ℕ → World → Outcome (World × Option Bool)
lthread_setcancelstate new w = if ltb 2 new then done (w, none) else elim w.current_lthread [
  | none ↦ dangling
  | some t ↦ do
    lt ← find w t
    done (
      put t (set_state lt (record (lt.state) { cancelstate = not (new == 0) })) w,
      some (lt.state.cancelstate),
    )
]
