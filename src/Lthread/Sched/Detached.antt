-- ===== src/Lthread/Sched/Detached.antt =====
-- What becomes of a detached thread of src/sched/lthread.c when it exits.
use rkt_io.Common.{ℕ, true, false, none, some, [], ◌∷◌, ◌++◌, append-nil, ◌≡◌, arith, refl}
use rkt_io.Lthread.Outcome.{done}
use rkt_io.Lthread.State.{
  Lthread, World, put, destroy_arena, free_slot, lthread_lock, lthread_unlock, no_cb,
}
use rkt_io.Lthread.Free.{lthread_free, freed, release, run_cancelbuf, unmap_if, leave_mutexes}
use rkt_io.Lthread.Sched.{
  lthread_resume, lthread_exit, switched_back, switch_to, init_if_new, free_if_detached,
}

-- Its state when it is freed
abbrev pub left : ℕ → Lthread → Lthread
left v lt = record lt {
  lt_join = none;
  yield_cb = no_cb;
  yield_cbarg = v;
  state = record (lt.state) { exited = true; busy = false };
}

abbrev pub exited : ℕ → ℕ → Lthread → World → World
exited t v lt w = record (put t (left v lt) w) {
  current_lthread = none;
  events = w.events ++ (destroy_arena t ∷ []);
}

pub exits_detached :
    (t v : ℕ) (lt : Lthread) (w : World)
    → w.threads t ≡ some lt
    → lt.state.detach ≡ true
    → lt.state.cancelled ≡ false
    → lt.state.busy ≡ false
    → lt.state.new ≡ false
    → lt.lt_join ≡ none
    → lthread_resume (lthread_exit v) t w ≡ done (freed t (left v lt) (exited t v lt w), false)
unfolding lthread_resume switch_to init_if_new lthread_exit switched_back free_if_detached
    lthread_lock lthread_unlock lthread_free
exits_detached t v lt w live detached going free old alone = ground arith

-- A detached thread that has run before, is resumed and exits is freed, its cleanup handlers run, its memory
-- and its slot are given back, and whatever data it keeps under its keys, no destructor of a key is called.
pub lthread_exit_detached :
    (t v : ℕ) (lt : Lthread) (w : World)
    → w.threads t ≡ some lt
    → lt.state.detach ≡ true
    → lt.state.cancelled ≡ false
    → lt.state.busy ≡ false
    → lt.state.new ≡ false
    → lt.lt_join ≡ none
    → (w' : World) × (lthread_resume (lthread_exit v) t w ≡ done (w', false))
      × (w'.threads t ≡ none)
      × (w'.queue ≡ w.queue)
      × (w'.events
          ≡ (w.events ++ (destroy_arena t ∷ []))
            ++ (run_cancelbuf lt.cancelbuf
                ++ unmap_if lt.itls lt.itlssz
                ++ leave_mutexes lt.tid lt.robust_list
                ++ unmap_if lt.stack lt.stack_size
                ++ (free_slot lt.syscall ∷ [])))
unfolding freed release
lthread_exit_detached t v lt w live detached going free old alone = (
  freed t (left v lt) (exited t v lt w),
  exits_detached t v lt w live detached going free old alone,
  ground arith,
  refl,
  simp append-nil,
)
