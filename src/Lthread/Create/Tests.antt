-- ===== src/Lthread/Create/Tests.antt =====
-- The theorems on lthread_create of src/sched/lthread.c, at a scheduler without threads
use rkt_io.Common.{ℕ, true, false, none, some, [], ◌∷◌, ◌≡◌, refl, arith}
use rkt_io.Lthread.Outcome.{done}
use rkt_io.Lthread.State.{World, no_bits, destroy_arena, unmap, free_slot}
use rkt_io.Lthread.Sched.{lthread_resume, lthread_exit}
use rkt_io.Lthread.Create.{LthreadAttr, Answers, Spawner, created, stack_of, lthread_create}
use rkt_io.Lthread.Create.Ends.{lthread_exit-lthread_create}
use rkt_io.Lthread.Create.Failed.{Leaves, lthread_create_failed}

abbrev no_threads : Spawner
no_threads = record {
  world = record {
    threads = λ t. none;
    queue = [];
    current_lthread = none;
    sleeping = [];
    nsleepers = 0;
    destructors = [];
    global_count = 0;
    threads_minus_1 = 0;
    events = [];
  };
  spawned_lthreads = 1;
  mapped = [];
}

abbrev answers : Answers
answers = record {
  sched_stack_size = 0x1000;
  tls_size = 0x100;
  calloc = some 5;
  mmap_stack = some 0x9000;
  mmap_tls = some 0x7000;
  init_utp_fails = false;
  slot = 3;
  errno = 0;
}

abbrev detached : LthreadAttr
detached = record { stack_size = 0; stack = 0; state = record no_bits { detach = true } }

lthread_exit-lthread_create_example :
    (s' : Spawner) × (w' : World) × (lthread_create answers (some detached) no_threads
      ≡ (s', created 5))
    × (s'.mapped ≡ (0x7000, 0x100) ∷ (0x9000, 0x1000) ∷ [])
    × (s'.world.queue ≡ 5 ∷ [])
    × (lthread_resume (lthread_exit 9) 5 s'.world ≡ done (w', false))
    × (w'.queue ≡ s'.world.queue)
    × ((u : ℕ) → w'.threads u ≡ none)
    × (w'.threads_minus_1 ≡ 0)
    × (w'.events ≡ destroy_arena 5 ∷ unmap 0x7000 0x100 ∷ unmap 0x9000 0x1000 ∷ free_slot 3 ∷ [])
lthread_exit-lthread_create_example =
    lthread_exit-lthread_create answers detached 5 0x9000 0x7000 9 no_threads refl refl refl
      (omega arith) refl refl (omega arith) (omega arith) refl refl refl refl (omega arith)

-- No memory for the TLS image
abbrev full : Answers
full = record answers { mmap_tls = none; errno = 12 }

lthread_create_failed_example :
    Leaves full none (stack_of none) no_threads (lthread_create full none no_threads)
unfolding lthread_create
lthread_create_failed_example = lthread_create_failed full none no_threads 12 refl

-- What is left mapped then
full-mapped : (lthread_create full none no_threads).0.mapped ≡ (0x9000, 0x1000) ∷ []
unfolding lthread_create
full-mapped = refl
