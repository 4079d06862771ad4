-- ===== src/Lthread/State.antt =====
-- The structs of src/include/lthread.h and the parts of the scheduler's state.
use rkt_io.Common.{
  ℕ, Bool, true, false, Option, none, some, List, [], ◌∷◌, ◌++◌, if◌then◌else◌, ◌==◌,
}
use rkt_io.Lthread.Outcome.{Outcome, done, spins, dangling, ◌>>=◌}

-- `enum lthread_st`: the bits of `attr.state`, each a field.
pub record LthreadSt : Type 0 where
  pub new : Bool
  pub ready : Bool
  pub exited : Bool
  pub busy : Bool
  pub sleeping : Bool
  pub expired : Bool
  pub detach : Bool
  pub cancelled : Bool
  pub cancelstate : Bool
  pub cancel_disabled : Bool
  pub pinned : Bool

abbrev pub no_bits : LthreadSt
no_bits = record {
  new = false;
  ready = false;
  exited = false;
  busy = false;
  sleeping = false;
  expired = false;
  detach = false;
  cancelled = false;
  cancelstate = false;
  cancel_disabled = false;
  pinned = false;
}

-- `struct lthread_tls`
pub record LthreadTls : Type 0 where
  pub key : ℕ
  pub data_ptr : ℕ  -- data

-- `struct lthread_tls_destructors`
pub record LthreadTlsDestructors : Type 0 where
  pub key : ℕ
  pub destructor : ℕ

-- What `yield_cb` may hold: null, `_lthread_unlock`, `__scheduler_enqueue`, or a function of another
-- file. Its argument is `yield_cbarg`.
pub data YieldCb : Type 0 where
  no_cb unlock_cb enqueue_cb : YieldCb
  other_cb : ℕ → YieldCb

-- `struct __ptcb`, a cleanup handler with its argument
pub record Ptcb : Type 0 where
  pub f : ℕ
  pub x : ℕ

-- A mutex on the robust list: the lock word, whether there are waiters, and `priv`.
pub record RobustMutex : Type 0 where
  pub address : ℕ
  pub lock : ℕ
  pub waiters : ℕ
  pub priv : ℕ

-- `struct lthread`
pub record Lthread : Type 0 where
  pub state : LthreadSt
  pub tid : ℕ
  pub syscall : ℕ
  pub stack : ℕ
  pub stack_size : ℕ
  pub itls : ℕ
  pub itlssz : ℕ
  pub cancelbuf : List Ptcb
  pub lt_join : Option ℕ
  pub yield_cb : YieldCb
  pub yield_cbarg : ℕ
  pub tls : List LthreadTls
  pub robust_list : List RobustMutex

-- What is called on the way, in order.
pub data Event : Type 0 where
  call : ℕ → ℕ → Event  -- a function with its argument
  unmap : ℕ → ℕ → Event  -- munmap
  set_lock : ℕ → ℕ → Event  -- the lock word of a mutex
  wake : ℕ → ℕ → Event  -- __wake of one waiter
  free_slot : ℕ → Event  -- freeslot
  destroy_arena : ℕ → Event  -- arena_destroy

-- The scheduler, its queue `__scheduler_queue`, the tree of sleeping threads as a list, and the keys.
pub record World : Type 0 where
  pub threads : ℕ → Option Lthread
  pub queue : List ℕ
  pub current_lthread : Option ℕ
  pub sleeping : List ℕ
  pub nsleepers : ℕ
  pub destructors : List LthreadTlsDestructors
  pub global_count : ℕ
  pub threads_minus_1 : ℕ  -- int
  pub events : List Event

abbrev pub find : World → ℕ → Outcome Lthread
find w t = elim (w.threads t) [ none ↦ dangling | some lt ↦ done lt ]

abbrev pub put : ℕ → Lthread → World → World
put t lt w = record w { threads = λ u. if u == t then some lt else w.threads u }

abbrev pub set_state : Lthread → LthreadSt → Lthread
set_state lt st = record lt { state = st }

-- `__scheduler_enqueue`
abbrev pub scheduler_enqueue : ℕ → World → World
scheduler_enqueue t w = record w { queue = w.queue ++ (t ∷ []) }

abbrev pub emit : List Event → World → World
emit es w = record w { events = w.events ++ es }

-- `_lthread_lock`, which spins while the bit is set
unfoldable pub lthread_lock : ℕ → World → Outcome World
lthread_lock t w = do
  lt ← find w t
  (if lt.state.busy
      then spins
      else done (put t (set_state lt (record (lt.state) { busy = true })) w))

unfoldable pub lthread_unlock : ℕ → World → Outcome World
lthread_unlock t w = do
  lt ← find w t
  done (put t (set_state lt (record (lt.state) { busy = false })) w)
