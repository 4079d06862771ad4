-- ===== src/Lthread/Join/Exit.antt =====
-- A join of src/sched/lthread.c from its start to its end.
use rkt_io.Common.{ℕ, true, false, none, some, List, [], ◌∷◌, ◌++◌, ◌≡◌, ◌≢◌, arith}
use rkt_io.Lthread.Outcome.{Outcome, done, ◌>>=◌}
use rkt_io.Lthread.State.{
  Lthread, World, put, lthread_lock, lthread_unlock, no_cb, unlock_cb, destroy_arena,
}
use rkt_io.Lthread.Free.{lthread_free, freed}
use rkt_io.Lthread.Sched.{
  lthread_resume, lthread_exit, switched_back, init_if_new, free_if_detached, run_yield_cb,
  switch_to,
}
use rkt_io.Lthread.Join.{yields, set_joiner, lthread_join, lthread_join_end}

-- The states on the way: the join waits, its lock on `t` is given back, `t` has exited.
abbrev waiting : ℕ → ℕ → Lthread → Lthread → World → World
waiting t me lt mine w =
    put me (record mine { yield_cb = unlock_cb; yield_cbarg = t })
      (put t (record lt { lt_join = some me; state = record (lt.state) { busy = true } }) w)

abbrev given_back : ℕ → ℕ → Lthread → Lthread → World → World
given_back t me lt mine w =
    record (put me (record mine { yield_cb = unlock_cb; yield_cbarg = t })
      (put t (record lt { lt_join = some me; state = record (lt.state) { busy = false } }) w)) {
        current_lthread = none;
      }

abbrev left : ℕ → Lthread → Lthread
left v lt = record lt {
  lt_join = none;
  yield_cb = no_cb;
  yield_cbarg = v;
  state = record (lt.state) { exited = true; busy = false };
}

abbrev exited : ℕ → ℕ → ℕ → Lthread → Lthread → World → World
exited t me v lt mine w =
    record (put t (left v lt) (put me (record mine { yield_cb = unlock_cb; yield_cbarg = t }) w)) {
      current_lthread = none;
      queue = w.queue ++ (me ∷ []);
      events = w.events ++ (destroy_arena t ∷ []);
    }

waits :
    (t me : ℕ) (lt mine : Lthread) (w : World)
    → w.threads t ≡ some lt
    → w.threads me ≡ some mine
    → t ≢ me
    → lt.state.detach ≡ false
    → lt.state.busy ≡ false
    → lt.state.exited ≡ false
    → lt.lt_join ≡ none
    → lthread_join t me w ≡ done (waiting t me lt mine w, yields)
unfolding lthread_join set_joiner lthread_lock
waits t me lt mine w live me_live other joinable free runs alone = ground arith

gives_back :
    (t me : ℕ) (lt mine : Lthread) (w : World)
    → t ≢ me
    → mine.state.exited ≡ false
    → switched_back me (waiting t me lt mine w) ≡ done (given_back t me lt mine w, true)
unfolding switched_back run_yield_cb lthread_unlock
gives_back t me lt mine w other me_runs = ground arith

exits :
    (t me v : ℕ) (lt mine : Lthread) (w : World)
    → t ≢ me
    → lt.state.cancelled ≡ false
    → lt.state.detach ≡ false
    → lt.state.busy ≡ false
    → lt.state.exited ≡ false
    → lt.state.new ≡ false
    → lthread_resume (lthread_exit v) t (given_back t me lt mine w)
      ≡ done (exited t me v lt mine w, false)
unfolding lthread_resume switch_to init_if_new lthread_exit switched_back free_if_detached
    lthread_lock lthread_unlock
exits t me v lt mine w other going joinable free runs old = ground arith

ends :
    (t : ℕ) (lt : Lthread) (w : World)
    → w.threads t ≡ some lt
    → lthread_join_end t w ≡ done (freed t lt w, lt.yield_cbarg)
unfolding lthread_join_end lthread_free
ends t lt w live = ground arith

-- `me` joins `t` and is switched out; `t` runs, and exits with `v`; `me` goes on. The result is what the scheduler's queue was before
-- `me` goes on, the state at the end, and what the join gives.
abbrev pub joined : ℕ → ℕ → ℕ → World → Outcome (List ℕ × World × ℕ)
joined t me v w = do
  (w1, how) ← lthread_join t me w
  (w2, b2) ← switched_back me w1
  (w3, b3) ← lthread_resume (lthread_exit v) t w2
  (w4, r) ← lthread_join_end t w3
  done (w3.queue, w4, r)

-- The current thread joins a thread that has run before and waits to run, with nobody joining it; that thread is then resumed and exits
-- with a value. The joiner is put on the queue once, at the end; when it goes on, it gets the value,
-- and the struct of the thread is freed.
pub lthread_join-lthread_exit :
    (t me v : ℕ) (lt mine : Lthread) (w : World)
    → w.threads t ≡ some lt
    → w.threads me ≡ some mine
    → t ≢ me
    → lt.state.cancelled ≡ false
    → lt.state.detach ≡ false
    → lt.state.busy ≡ false
    → lt.state.exited ≡ false
    → lt.state.new ≡ false
    → lt.lt_join ≡ none
    → mine.state.exited ≡ false
    → (w' : World) × (joined t me v w ≡ done (w.queue ++ (me ∷ []), w', v))
      × (w'.threads t ≡ none)
      × ((w'.threads me) ≢ none)
unfolding freed
lthread_join-lthread_exit t me v lt mine w live me_live other going joinable free runs old alone
      me_runs =
    let w1 = waiting t me lt mine w in
    let w2 = given_back t me lt mine w in
    let w3 = exited t me v lt mine w in
    let lt' = left v lt in
    (
      freed t lt' w3,
      ground (
        arith,
        waits t me lt mine w live me_live other joinable free runs alone,
        gives_back t me lt mine w other me_runs,
        exits t me v lt mine w other going joinable free runs old,
        ends t lt' w3 (ground arith),
      ),
      ground arith,
      ground arith,
    )
