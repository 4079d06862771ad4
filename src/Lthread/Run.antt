-- ===== src/Lthread/Run.antt =====
-- lthread_run of src/sched/lthread.c: the loop of a scheduler, with src/sched/futex.c behind its tick. The loop has no end; what it
-- does in a number of turns is a function of what each turn meets.
pub mod Appends
pub mod Fair
pub mod Idle
pub mod Ticks
use rkt_io.Common.{
  ℕ, Bool, true, false, ◌||◌, leb, Option, none, some, List, [], ◌∷◌, ◌++◌, if◌then◌else◌, ◌==◌,
  ◌%◌, ◌+◌, ◌-◌, ◌^◌,
}
use rkt_io.Futex.{Futexes, futex_tick}
use rkt_io.Lthread.Outcome.{Outcome, done, ◌>>=◌}
use rkt_io.Lthread.State.{World}
use rkt_io.Lthread.Sched.{lthread_resume}

-- The static variables that lthread_sched_global_init sets; futex_wake_spins as the int that is loaded from it, 0 for a negative one
pub record Settings : Type 0 where
  pub sleepspins : ℕ
  pub futex_wake_spins : ℕ

-- The queues, the futexes and the locals of the loop; a negative `spins` is 0. The rest is what has happened: the threads that were
-- resumed, in order, and how often the timeouts were looked at and the scheduler slept.
pub record Scheduler : Type 0 where
  pub world : World
  pub futexes : Futexes
  pub return_queue : List ℕ
  pub pauses : ℕ
  pub spins : ℕ
  pub resumed : List ℕ
  pub ticks : ℕ
  pub sleeps : ℕ

-- What a turn meets: the slots of system calls that have returned since, whether another scheduler holds the futex lock, and the clocks
pub record Turn : Type 0 where
  pub returned : List ℕ
  pub busy : Bool
  pub real : ℕ
  pub mntc : ℕ

-- The threads that a futex call has made ready go on the scheduler's queue.
abbrev pub hand_over : Futexes → Scheduler → Scheduler
hand_over f s = record s {
  world = record (s.world) { queue = s.world.queue ++ f.ready };
  futexes = record f { ready = [] };
}

-- `run` is what a thread does between two switches, `asks` what its futex calls do.
module _ (slottolthread : ℕ → ℕ) (run : World → Outcome World) (asks : World → Futexes → Futexes)
    (set : Settings) where
  unfoldable pub resume : ℕ → Scheduler → Outcome Scheduler
  unfolding lthread_resume
  resume t s = do
    (w, lives) ← lthread_resume run t s.world
    done (
        hand_over (asks s.world s.futexes)
          (record s { world = w; pauses = set.sleepspins; resumed = s.resumed ++ (t ∷ []) }))

  -- What the first dequeue leaves to do, from the contents of the queue
  unfoldable pub from_return_queue : List ℕ → Scheduler → Outcome (Scheduler × Bool)
  unfolding resume
  from_return_queue [] s = done (s, false)
  from_return_queue (slot ∷ rest) s = do
    s' ← resume (slottolthread slot) (record s { return_queue = rest })
    done (s', true)

  unfoldable pub from_scheduler_queue : List ℕ → Scheduler → Outcome (Scheduler × Bool)
  unfolding resume
  from_scheduler_queue [] s = done (s, false)
  from_scheduler_queue (t ∷ rest) s = do
    s' ← resume t (record s { world = record (s.world) { queue = rest } })
    done (s', true)

  unfoldable pub count_spin : Turn → Scheduler → Scheduler
  unfolding futex_tick
  count_spin turn s =
      let spins = s.spins - 1 in
      if spins == 0
      then hand_over (futex_tick turn.busy turn.real turn.mntc s.futexes)
          (record s { spins = set.futex_wake_spins; ticks = s.ticks + 1 })
      else record s { spins = spins }

  -- One turn of the inner loop, with whether a thread was found
  unfoldable pub run_turn : Turn → Scheduler → Outcome (Scheduler × Bool)
  unfolding from_return_queue from_scheduler_queue count_spin
  run_turn turn s = do
    (s1, woken) ← from_return_queue (s.return_queue ++ turn.returned) s
    (s2, ready) ← from_scheduler_queue s1.world.queue s1
    done (count_spin turn s2, woken || ready)

  -- Behind the inner loop: nothing was found.
  unfoldable pub pause : Scheduler → Scheduler
  pause s =
      let pauses = (s.pauses + 2 ^ 64 - 1) % 2 ^ 64 in
      if pauses == 0
      then record s { pauses = set.sleepspins; spins = 0; sleeps = s.sleeps + 1 }
      else record s { pauses = pauses }

  unfoldable pub run_turns : List Turn → Scheduler → Outcome Scheduler
  unfolding run_turn pause
  run_turns [] s = done s
  run_turns (turn ∷ turns) s = do
    (s', dequeued) ← run_turn turn s
    run_turns turns (if dequeued then s' else pause s')

  -- `started` says that there is a scheduler.
  unfoldable pub lthread_run : Bool → List Turn → Scheduler → Outcome Scheduler
  unfolding run_turns
  lthread_run started turns s =
      if started
      then run_turns turns (record s { pauses = set.sleepspins; spins = set.futex_wake_spins })
      else done s
