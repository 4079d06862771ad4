-- ===== src/Lthread/Run/Appends.antt =====
-- What a resume of src/sched/lthread.c does to the scheduler's queue
use rkt_io.Common.{
  ℕ, Bool, true, false, none, some, List, [], ◌∷◌, ◌++◌, append-nil, append_assoc, if◌then◌else◌,
  ◌≡◌, arith, refl, sym, ap, ◌∙◌, subst, ◌⊎◌, inl, inr,
}
use rkt_io.Lthread.Outcome.{Outcome, done, spins, dangling, ◌>>=◌, done_inj}
use rkt_io.Lthread.State.{
  Lthread, YieldCb, no_cb, unlock_cb, enqueue_cb, other_cb, World, find, lthread_lock,
  lthread_unlock, emit, destroy_arena,
}
use rkt_io.Lthread.Free.{lthread_free, freed}
use rkt_io.Lthread.Sched.{
  wake_joiner, free_if_detached, lthread_init_state, init_if_new, switch_to, run_yield_cb,
  switched_back, lthread_resume,
}

-- Threads are put at the end of the queue only.
abbrev pub Longer : List ℕ → List ℕ → Type 0
Longer before after = (more : List ℕ) × (after ≡ before ++ more)

abbrev pub Appends : (World → Outcome World) → Type 0
Appends run = (w w' : World) → run w ≡ done w' → Longer w.queue w'.queue

pub same-Longer : (a b : List ℕ) → b ≡ a → Longer a b
same-Longer a b e = ([], e ∙ sym (append-nil a))

pub trans-Longer : (a b c : List ℕ) → Longer a b → Longer b c → Longer a c
trans-Longer a b c (x, e) (y, f) = (x ++ y, f ∙ ap (λ q. q ++ y) e ∙ append_assoc a x y)

pub done_of {ℓ κ} :
    {A : Type ℓ} {B : Type κ} (o : Outcome A) (f : A → Outcome B) (b : B)
    → (o >>= f) ≡ done b
    → (a : A) × (o ≡ done a) × (f a ≡ done b)
done_of (done a) f b e = (a, refl, e)
done_of spins f b e = cc
done_of dangling f b e = cc

-- A function that finds a struct and puts it back
put_queue :
    (o : Outcome Lthread) (g : Lthread → World) (q : List ℕ) (w' : World)
    → ((lt : Lthread) → (g lt).queue ≡ q)
    → (o >>= λ lt. done (g lt)) ≡ done w'
    → w'.queue ≡ q
put_queue o g q w' same e =
    let (lt, found, now) = done_of o (λ lt. done (g lt)) w' e in
    sym (ap (λ w. w.queue) (done_inj now)) ∙ same lt

lthread_lock-queue : (t : ℕ) (w w' : World) → lthread_lock t w ≡ done w' → w'.queue ≡ w.queue
unfolding lthread_lock
lthread_lock-queue t w w' e = ground (arith, e)

lthread_unlock-queue : (t : ℕ) (w w' : World) → lthread_unlock t w ≡ done w' → w'.queue ≡ w.queue
unfolding lthread_unlock
lthread_unlock-queue t w w' e = ground (arith, e)

free_if_detached-queue :
    (t : ℕ) (w w' : World) → free_if_detached t w ≡ done w' → w'.queue ≡ w.queue
unfolding free_if_detached lthread_free freed
free_if_detached-queue t w w' e = ground (arith, e)

switch_to-queue : (t : ℕ) (w w' : World) → switch_to t w ≡ done w' → w'.queue ≡ w.queue
unfolding switch_to init_if_new lthread_init_state lthread_lock
switch_to-queue t w w' e = ground (arith, e)

wake_joiner-Longer : (t : ℕ) (lt : Lthread) (w : World) → Longer w.queue (wake_joiner t lt w).queue
wake_joiner-Longer t lt w =
    elim lt.lt_join as (λ j. Longer w.queue (wake_joiner t (record lt { lt_join = j }) w).queue) [
      | none ↦ same-Longer w.queue w.queue refl
      | some j ↦ (j ∷ [], refl)
    ]

run_yield_cb-Longer :
    (cb : YieldCb) (lt : Lthread) (w w' : World)
    → lt.yield_cb ≡ cb
    → run_yield_cb lt w ≡ done w'
    → Longer w.queue w'.queue
unfolding run_yield_cb
run_yield_cb-Longer no_cb lt w w' c e = same-Longer w.queue w'.queue (ground (arith, c, e))
run_yield_cb-Longer unlock_cb lt w w' c e =
    same-Longer w.queue w'.queue (lthread_unlock-queue lt.yield_cbarg w w' (ground (arith, c, e)))
run_yield_cb-Longer enqueue_cb lt w w' c e = (lt.yield_cbarg ∷ [], ground (arith, c, e))
run_yield_cb-Longer (other_cb f) lt w w' c e = same-Longer w.queue w'.queue (ground (arith, c, e))

pub if_done {ℓ} :
    {A : Type ℓ} (b : Bool) (x y : Outcome A) (r : A)
    → (if b then x else y) ≡ done r
    → ((b ≡ true) × (x ≡ done r)) ⊎ ((b ≡ false) × (y ≡ done r))
if_done true x y r e = inl (refl, e)
if_done false x y r e = inr (refl, e)

abbrev switched_off : ℕ → World → World
switched_off t w = emit (destroy_arena t ∷ []) (record w { current_lthread = none })

exited-Longer :
    (t : ℕ) (lt : Lthread) (w : World) (r : World × Bool)
    → (do
      unlocked ← lthread_unlock t (wake_joiner t lt (switched_off t w))
      freed ← free_if_detached t unlocked
      done (freed, false))
      ≡ done r
    → Longer w.queue r.0.queue
exited-Longer t lt w r e =
    let woken = wake_joiner t lt (switched_off t w) in
    let (unlocked, o1, e1) =
      done_of (lthread_unlock t woken) (λ u. free_if_detached t u >>= λ f. done (f, false)) r e in
    let (gone, o2, e2) = done_of (free_if_detached t unlocked) (λ f. done (f, false)) r e1 in
    trans-Longer w.queue woken.queue r.0.queue (wake_joiner-Longer t lt (switched_off t w)) (
      same-Longer woken.queue r.0.queue (
        ap (λ v. v.0.queue) (sym (done_inj e2))
        ∙ free_if_detached-queue t unlocked gone o2
        ∙ lthread_unlock-queue t woken unlocked o1))

called-Longer :
    (lt : Lthread) (w : World) (r : World × Bool)
    → (run_yield_cb lt w >>= λ called. done (called, true)) ≡ done r
    → Longer w.queue r.0.queue
called-Longer lt w r e =
    let (called, o, e1) = done_of (run_yield_cb lt w) (λ called. done (called, true)) r e in
    subst (λ v. Longer w.queue v.0.queue) (done_inj e1)
      (run_yield_cb-Longer lt.yield_cb lt w called refl o)

switched_back-Longer :
    (t : ℕ) (w : World) (r : World × Bool) → switched_back t w ≡ done r → Longer w.queue r.0.queue
unfolding switched_back
switched_back-Longer t w r e =
    let off = record w { current_lthread = none } in
    let (lt, found, e1) = done_of (find off t) _ r e in
    elim (if_done lt.state.exited _ _ r e1) [
      | inl (yes_exited, e2) ↦ exited-Longer t lt w r e2
      | inr (alive, e2) ↦ called-Longer lt off r e2
    ]

-- A resume puts threads at the end of the queue only, if the thread that runs does.
pub lthread_resume-Longer :
    (run : World → Outcome World)
    → Appends run
    → (t : ℕ) (w : World) (r : World × Bool) → lthread_resume run t w ≡ done r
    → Longer w.queue r.0.queue
unfolding lthread_resume
lthread_resume-Longer run appends t w r e =
    let (lt, found, e1) = done_of (find w t) _ r e in
    elim (if_done lt.state.cancelled _ _ r e1) [
      | inl (cancelled, e2) ↦
          let woken = wake_joiner t lt w in
          let (gone, o, e3) = done_of (free_if_detached t woken) (λ f. done (f, false)) r e2 in
          trans-Longer w.queue woken.queue r.0.queue (wake_joiner-Longer t lt w) (
            same-Longer woken.queue r.0.queue
              (ap (λ v. v.0.queue) (sym (done_inj e3)) ∙ free_if_detached-queue t woken gone o))
      | inr (alive, e2) ↦
          let (on, o1, e3) = done_of (switch_to t w) _ r e2 in
          let (back, o2, e4) = done_of (run on) _ r e3 in
          trans-Longer w.queue on.queue r.0.queue
            (same-Longer w.queue on.queue (switch_to-queue t w on o1))
            (trans-Longer on.queue back.queue r.0.queue (appends on back o2)
              (switched_back-Longer t back r e4))
    ]
