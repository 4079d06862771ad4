-- ===== src/Lthread/Create.antt =====
-- lthread_create of src/sched/lthread.c. What calloc, mmap, libc and the pool of slots answer is an argument.
pub mod Ends
pub mod Failed
mod Tests
use Prim.Native.Nat.{min, max}
use rkt_io.Common.{
  ltb, ◌++◌, ◌-◌, ℕ, Bool, true, false, Option, none, some, List, [], ◌∷◌, if◌then◌else◌, ◌==◌, ◌+◌,
  ◌%◌, ◌^◌,
}
use rkt_io.Lthread.State.{LthreadSt, Lthread, no_cb, World, no_bits, put, scheduler_enqueue}

-- `struct lthread_attr`
pub record LthreadAttr : Type 0 where
  pub stack_size : ℕ
  pub stack : ℕ
  pub state : LthreadSt

-- The stack size of the scheduler, the size of libc's TLS image, and the answers of the calls on the way
pub record Answers : Type 0 where
  pub sched_stack_size : ℕ
  pub tls_size : ℕ
  pub calloc : Option ℕ
  pub mmap_stack : Option ℕ
  pub mmap_tls : Option ℕ
  pub init_utp_fails : Bool
  pub slot : ℕ
  pub errno : ℕ

-- `spawned_lthreads`, and what is mapped, each with its size
pub record Spawner : Type 0 where
  pub world : World
  pub spawned_lthreads : ℕ
  pub mapped : List (ℕ × ℕ)

pub data Created : Type 0 where
  created : ℕ → Created
  failed : ℕ → Created

abbrev pub mmap : ℕ → ℕ → Spawner → Spawner
mmap a n s = record s { mapped = (a, n) ∷ s.mapped }

-- What is left of an area of `m` bytes at `b` without the `n` bytes at `a`
abbrev pub rest_of : ℕ → ℕ → ℕ → ℕ → List (ℕ × ℕ)
rest_of a n b m =
    let before = if ltb b a then (b, min m (a - b)) ∷ [] else [] in
    let from = max b (a + n) in
    let behind = if ltb from (b + m) then (from, b + m - from) ∷ [] else [] in before ++ behind

abbrev pub remove : ℕ → ℕ → List (ℕ × ℕ) → List (ℕ × ℕ)
remove a n [] = []
remove a n ((b, m) ∷ areas) = rest_of a n b m ++ remove a n areas

abbrev pub munmap : ℕ → ℕ → Spawner → Spawner
munmap a n s = record s { mapped = remove a n s.mapped }

-- The size of the stack, from the attributes or the scheduler
abbrev pub stack_size_of : Answers → Option LthreadAttr → ℕ
stack_size_of a none = a.sched_stack_size
stack_size_of a (some attr) = if attr.stack_size == 0 then a.sched_stack_size else attr.stack_size

abbrev pub state_of : Option LthreadAttr → LthreadSt
state_of none = record no_bits { new = true }
state_of (some attr) = record (attr.state) { new = true }

-- The struct that is filled in
abbrev pub made : Answers → Option LthreadAttr → ℕ → ℕ → ℕ → Lthread
made a attr stack itls tid = record {
  state = state_of attr;
  tid = tid;
  syscall = a.slot;
  stack = stack;
  stack_size = stack_size_of a attr;
  itls = itls;
  itlssz = a.tls_size;
  cancelbuf = [];
  lt_join = none;
  yield_cb = no_cb;
  yield_cbarg = 0;
  tls = [];
  robust_list = [];
}

unfoldable pub start : Answers → Option LthreadAttr → ℕ → ℕ → ℕ → Spawner → Spawner × Created
start a attr t stack itls s =
    let lt = made a attr stack itls s.spawned_lthreads in
    let w = record (put t lt s.world) {
      threads_minus_1 = (s.world.threads_minus_1 + 1) % 2 ^ 32;
    } in
    (
      record s {
        world = scheduler_enqueue t w;
        spawned_lthreads = (s.spawned_lthreads + 1) % 2 ^ 32;
      },
      created t,
    )

-- The TLS image, behind the stack
unfoldable pub with_tls : Answers → Option LthreadAttr → ℕ → ℕ → Spawner → Spawner × Created
unfolding start
with_tls a attr t stack s = if a.tls_size == 0 then start a attr t stack 0 s else elim a.mmap_tls [
  | none ↦ (s, failed a.errno)
  | some itls ↦
      if a.init_utp_fails
      then (munmap stack (stack_size_of a attr) (mmap itls a.tls_size s), failed a.errno)
      else start a attr t stack itls (mmap itls a.tls_size s)
]

-- The stack of the caller, or a new one
unfoldable pub with_stack : Answers → Option LthreadAttr → ℕ → ℕ → Spawner → Spawner × Created
unfolding with_tls
with_stack a attr t stack s =
    if stack == 0
    then elim a.mmap_stack [
      | none ↦ (s, failed a.errno)
      | some new ↦ with_tls a attr t new (mmap new (stack_size_of a attr) s)
    ]
    else with_tls a attr t stack s

abbrev pub stack_of : Option LthreadAttr → ℕ
stack_of none = 0
stack_of (some attr) = attr.stack

unfoldable pub lthread_create : Answers → Option LthreadAttr → Spawner → Spawner × Created
unfolding with_stack
lthread_create a attr s = elim a.calloc [
  | none ↦ (s, failed a.errno)
  | some t ↦ with_stack a attr t (stack_of attr) s
]
