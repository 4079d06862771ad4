-- ===== src/Lthread/Tests.antt =====
-- The theorems on src/sched/lthread.c at concrete threads.
use rkt_io.Common.{
  ℕ, ◌+◌, ◌*◌, ◌≤◌, ◌++◌, length, ap, sym, true, false, Option, none, some, List, [], ◌∷◌, ◌≡◌, ◌≢◌,
  arith, refl, ◌==◌, if◌then◌else◌,
}
use rkt_io.Lthread.Outcome.{Outcome, done, spins, dangling, done_inj}
use rkt_io.Lthread.State.{LthreadSt, Lthread, LthreadTls, World, no_bits, no_cb, put}
use rkt_io.Lthread.Sched.{lthread_resume, lthread_cancel, lthread_desched_sleep}
use rkt_io.Lthread.Keys.{lthread_finddestr}
use rkt_io.Lthread.Keys.Destructors.{AreKeys, no_keys, one_key}
use rkt_io.Lthread.Join.Exit.{joined, lthread_join-lthread_exit}
use rkt_io.Lthread.Sched.Cancel.{lthread_resume-lthread_cancel_twice}
use rkt_io.Lthread.Run.{Settings, Scheduler, Turn, run_turns}
use rkt_io.Lthread.Run.Appends.{same-Longer}
use rkt_io.Lthread.Run.Fair.{run_turns_fair}
use rkt_io.Lthread.Run.Ticks.{run_turns_ticks}

abbrev thread : LthreadSt → Option ℕ → Lthread
thread st j = record {
  state = st;
  tid = 7;
  syscall = 3;
  stack = 0x9000;
  stack_size = 4096;
  itls = 0;
  itlssz = 0;
  cancelbuf = record { f = 50; x = 51 } ∷ [];
  lt_join = j;
  yield_cb = no_cb;
  yield_cbarg = 0;
  tls = record { key = 0; data_ptr = 77 } ∷ [];
  robust_list = [];
}

abbrev ready_bits : LthreadSt
ready_bits = record no_bits { ready = true }

-- Thread 1 is as always, thread 2 as given.
abbrev world : Lthread → World
world lt = record {
  threads = λ t. if t == 1 then some (thread ready_bits none) else if t == 2 then some lt else none;
  queue = 2 ∷ [];
  current_lthread = none;
  sleeping = [];
  nsleepers = 0;
  destructors = record { key = 0; destructor = 60 } ∷ [];
  global_count = 1;
  threads_minus_1 = 2;
  events = [];
}

abbrev plain : Lthread
plain = thread ready_bits none

lthread_join-lthread_exit_example :
    (w' : World) × (joined 2 1 42 (world plain) ≡ done (2 ∷ 1 ∷ [], w', 42))
    × (w'.threads 2 ≡ none)
    × (w'.threads 1 ≢ none)
lthread_join-lthread_exit_example =
    lthread_join-lthread_exit 2 1 42 plain plain (world plain) refl refl (omega arith) refl refl
      refl refl refl refl refl

abbrev detached : Lthread
detached = thread (record ready_bits { detach = true }) none

lthread_resume-lthread_cancel_twice_example :
    (w1 w2 : World) × (lthread_cancel (some 2) (world detached) ≡ done w1)
    × (w1.queue ≡ 2 ∷ 2 ∷ [])
    × (lthread_resume done 2 w1 ≡ done (w2, false))
    × (lthread_resume done 2 w2 ≡ dangling)
lthread_resume-lthread_cancel_twice_example =
    lthread_resume-lthread_cancel_twice done 2 detached (world detached) refl refl refl refl

abbrev sleeper : Lthread
sleeper = thread (record no_bits { sleeping = true }) none

abbrev asleep : World
asleep = record (world sleeper) { sleeping = 2 ∷ []; nsleepers = 1 }

abbrev awake : World
awake = record (put 2 (thread ready_bits none) asleep) { sleeping = []; nsleepers = 0 }

woken : lthread_desched_sleep 2 asleep ≡ done awake
unfolding lthread_desched_sleep
woken = refl

-- lthread_setspecific of a key that has a slot, and of one that has none
abbrev slots : List LthreadTls
slots = record { key = 4; data_ptr = 8 } ∷ []

first_key : AreKeys 1 (record { key = 0; destructor = 60 } ∷ [])
unfolding lthread_finddestr
first_key = one_key (omega arith) refl no_keys

-- Both threads are ready, and return at once.
abbrev waiting : Scheduler
waiting = record {
  world = record (world plain) { queue = 1 ∷ 2 ∷ [] };
  futexes = record { queues = []; sleepers = 0; err = λ t. 0; ready = [] };
  return_queue = [];
  pauses = 2;
  spins = 2;
  resumed = [];
  ticks = 0;
  sleeps = 0;
}

abbrev settings : Settings
settings = record { sleepspins = 5; futex_wake_spins = 2 }

abbrev two_turns : List Turn
two_turns =
    record { returned = []; busy = false; real = 9; mntc = 9 }
    ∷ record { returned = []; busy = false; real = 9; mntc = 9 }
    ∷ []

abbrev result : Scheduler → Outcome Scheduler → Scheduler
result s (done s') = s'
result s spins = s
result s dangling = s

abbrev after_two : Scheduler
after_two = result waiting (run_turns (λ slot. slot) done (λ w f. f) settings two_turns waiting)

run_turns_fair_example :
    (x y : List ℕ) × (after_two.resumed ≡ ((waiting.resumed ++ x) ++ (2 ∷ [])) ++ y)
unfolding run_turns
run_turns_fair_example =
    run_turns_fair (λ slot. slot) done (λ w f. f) settings
      (λ w w' e. same-Longer w.queue w'.queue (sym (ap (λ z. z.queue) (done_inj e)))) two_turns
      waiting after_two (1 ∷ []) 2 [] refl (omega arith) refl

run_turns_ticks_example :
    (n : ℕ) × (after_two.ticks ≡ waiting.ticks + n)
    × (length two_turns ≤ n * (settings.futex_wake_spins + 1) + waiting.spins)
unfolding run_turns
run_turns_ticks_example =
    run_turns_ticks (λ slot. slot) done (λ w f. f) settings two_turns waiting after_two refl

abbrev nobody : Scheduler
nobody = record waiting { world = record (world plain) { queue = [] } }
