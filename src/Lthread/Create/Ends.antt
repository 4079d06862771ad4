-- ===== src/Lthread/Create/Ends.antt =====
-- A thread that lthread_create of src/sched/lthread.c makes and that returns when it is run first
use rkt_io.Common.{
  ℕ, true, false, none, some, [], ◌∷◌, ◌++◌, append_assoc, ◌+◌, ◌^◌, ◌<◌, ◌≡◌, ◌∙◌, ◌≢◌, arith,
  refl, ap, ℕ_discrete,
}
use rkt_io.Lthread.Outcome.{Outcome, done}
use rkt_io.Lthread.State.{
  Lthread, World, put, set_state, no_bits, destroy_arena, unmap, free_slot, lthread_lock,
}
use rkt_io.Lthread.Free.{freed, release, unmap_if}
use rkt_io.Lthread.Sched.{lthread_resume, lthread_exit, lthread_init_state, switch_to, init_if_new}
use rkt_io.Lthread.Sched.Detached.{left, exited, exits_detached}
use rkt_io.Lthread.Create.{
  LthreadAttr, Answers, Spawner, created, mmap, stack_size_of, made, start, with_tls, with_stack,
  lthread_create,
}

-- The struct behind _lthread_init, and the world around it
abbrev inited : Lthread → Lthread
inited lt = set_state lt (record no_bits { ready = true; detach = lt.state.detach })

abbrev locked : Lthread → Lthread
locked lt = set_state lt (record (lt.state) { busy = true })

abbrev begun : ℕ → Lthread → World → World
begun t lt w = put t (inited lt) (put t (locked lt) w)

inits_state :
    (t : ℕ) (lt : Lthread) (w : World)
    → w.threads t ≡ some lt
    → lt.state.busy ≡ false
    → lthread_init_state t w ≡ done (begun t lt w)
unfolding lthread_init_state lthread_lock
inits_state t lt w live free = ground arith

-- A resume of a new thread goes on as one of a thread that was begun.
resumes_new :
    (run : World → Outcome World) (t : ℕ) (lt lt1 : Lthread) (w w1 : World)
    → w.threads t ≡ some lt
    → lt.state.cancelled ≡ false
    → lt.state.new ≡ true
    → lthread_init_state t w ≡ done w1
    → w1.threads t ≡ some lt1
    → lt1.state.cancelled ≡ false
    → lt1.state.new ≡ false
    → lthread_resume run t w ≡ lthread_resume run t w1
unfolding lthread_resume switch_to init_if_new
resumes_new run t lt lt1 w w1 live going new init live1 going1 old = ground (arith, init)

runs_first :
    (t v : ℕ) (lt : Lthread) (w : World)
    → w.threads t ≡ some lt
    → lt.state.detach ≡ true
    → lt.state.cancelled ≡ false
    → lt.state.busy ≡ false
    → lt.state.new ≡ true
    → lt.lt_join ≡ none
    → lthread_resume (lthread_exit v) t w
      ≡ done (freed t (left v (inited lt)) (exited t v (inited lt) (begun t lt w)), false)
runs_first t v lt w live detached going free new alone =
    let here : (begun t lt w).threads t ≡ some (inited lt) = ground arith in
    resumes_new (lthread_exit v) t lt (inited lt) w (begun t lt w) live going new
      (inits_state t lt w live free) here refl refl
    ∙ exits_detached t v (inited lt) (begun t lt w) here detached refl refl refl alone

creates :
    (a : Answers) (attr : LthreadAttr) (t stack itls : ℕ) (s : Spawner)
    → a.calloc ≡ some t
    → attr.stack ≡ 0
    → a.mmap_stack ≡ some stack
    → a.tls_size ≢ 0
    → a.mmap_tls ≡ some itls
    → a.init_utp_fails ≡ false
    → lthread_create a (some attr) s
      ≡ start a
          (some attr)
          t
          stack
          itls
          (mmap itls a.tls_size (mmap stack (stack_size_of a (some attr)) s))
unfolding lthread_create with_stack with_tls
creates a attr t stack itls s struct own area tls image inits = ground arith

given_back : (a n : ℕ) → a ≢ 0 → unmap_if a n ≡ unmap a n ∷ []
given_back a n real = ground arith

-- Where every call on the way succeeds and the struct is at an address that is not in use: lthread_create of a detached thread without a
-- stack of the caller's puts it at the end of the scheduler's queue. If it returns when it is run first, the structs and the number of
-- threads are as before, and exactly the two areas that lthread_create mapped are given back, with their sizes, and the slot.
pub lthread_exit-lthread_create :
    (a : Answers) (attr : LthreadAttr) (t stack itls v : ℕ) (s : Spawner)
    → a.calloc ≡ some t
    → attr.stack ≡ 0
    → a.mmap_stack ≡ some stack
    → a.tls_size ≢ 0
    → a.mmap_tls ≡ some itls
    → a.init_utp_fails ≡ false
    → stack ≢ 0
    → itls ≢ 0
    → attr.state.detach ≡ true
    → attr.state.cancelled ≡ false
    → attr.state.busy ≡ false
    → s.world.threads t ≡ none
    → s.world.threads_minus_1 + 1 < 2 ^ 32
    → (s' : Spawner) × (w' : World) × (lthread_create a (some attr) s ≡ (s', created t))
      × (s'.mapped ≡ (itls, a.tls_size) ∷ (stack, stack_size_of a (some attr)) ∷ s.mapped)
      × (s'.world.queue ≡ s.world.queue ++ (t ∷ []))
      × (lthread_resume (lthread_exit v) t s'.world ≡ done (w', false))
      × (w'.queue ≡ s'.world.queue)
      × ((u : ℕ) → w'.threads u ≡ s.world.threads u)
      × (w'.threads_minus_1 ≡ s.world.threads_minus_1)
      × (w'.events
          ≡ s.world.events
            ++ (destroy_arena t
                ∷ unmap itls a.tls_size
                ∷ unmap stack (stack_size_of a (some attr))
                ∷ free_slot a.slot
                ∷ []))
unfolding start freed release
lthread_exit-lthread_create a attr t stack itls v s struct own area tls image inits real real_tls
      detached going free fresh room =
    let s0 = mmap itls a.tls_size (mmap stack (stack_size_of a (some attr)) s) in
    let lt = made a (some attr) stack itls s.spawned_lthreads in
    let s' = (start a (some attr) t stack itls s0).0 in
    (
      s',
      freed t (left v (inited lt)) (exited t v (inited lt) (begun t lt s'.world)),
      creates a attr t stack itls s struct own area tls image inits,
      refl,
      refl,
      runs_first t v lt s'.world (ground arith) detached going free refl refl,
      refl,
      (λ u. elim (ℕ_discrete u t) [
        | yes e ↦ ground (arith, ap s.world.threads e, fresh)
        | no other ↦ ground (arith, other)
      ]),
      ground arith,
      rw (given_back itls a.tls_size real_tls, given_back stack (stack_size_of a (some attr)) real)
          (append_assoc s.world.events (destroy_arena t ∷ []) _),
    )
