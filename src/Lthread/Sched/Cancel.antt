-- ===== src/Lthread/Sched/Cancel.antt =====
-- lthread_cancel of src/sched/lthread.c
use rkt_io.Common.{
  ℕ, true, false, none, some, [], ◌∷◌, ◌++◌, ◌+◌, ◌-◌, ◌%◌, ◌^◌, ◌≡◌, ◌≢◌, ◌⊎◌, inl, inr,
  Bool-cases, Option-cases, arith, refl,
}
use rkt_io.Lthread.Outcome.{Outcome, done, dangling}
use rkt_io.Lthread.State.{Lthread, World, put, set_state, scheduler_enqueue}
use rkt_io.Lthread.Free.{lthread_free, freed}
use rkt_io.Lthread.Sched.{
  lthread_resume, lthread_cancel, lthread_desched_sleep, free_if_detached, without,
}

first_resume :
    (run : World → Outcome World) (t : ℕ) (lt : Lthread) (w : World)
    → w.threads t ≡ some lt
    → lt.state.detach ≡ true
    → lt.state.cancelled ≡ true
    → (w' : World) × (lthread_resume run t w ≡ done (w', false)) × (w'.threads t ≡ none)
unfolding lthread_resume free_if_detached lthread_free freed
first_resume run t lt w live detached cancelled = elim (Option-cases lt.lt_join) [
  | inl e ↦ (freed t lt w, ground arith, ground arith)
  | inr (j, e) ↦ (
    freed t (record lt { lt_join = none })
        (put t (record lt { lt_join = none }) (scheduler_enqueue j w)),
    ground arith,
    ground arith,
  )
]

-- A detached thread that does not sleep and may be cancelled is put on the scheduler's queue by a cancel, whether or
-- not it is there already. The first time that the scheduler comes to it, its struct is freed; the second
-- time, the scheduler reads the freed struct.
pub lthread_resume-lthread_cancel_twice :
    (run : World → Outcome World) (t : ℕ) (lt : Lthread) (w : World)
    → w.threads t ≡ some lt
    → lt.state.detach ≡ true
    → lt.state.cancelstate ≡ false
    → lt.state.sleeping ≡ false
    → (w1 w2 : World) × (lthread_cancel (some t) w ≡ done w1)
      × (w1.queue ≡ w.queue ++ (t ∷ []))
      × (lthread_resume run t w1 ≡ done (w2, false))
      × (lthread_resume run t w2 ≡ dangling)
unfolding lthread_cancel lthread_desched_sleep lthread_resume free_if_detached lthread_free freed
lthread_resume-lthread_cancel_twice run t lt w live detached may awake =
    let lt' = set_state lt (record (lt.state) { cancelled = true }) in
    let w1 = scheduler_enqueue t (put t lt' w) in
    let (w2, stops, gone) = first_resume run t lt' w1 (ground arith) detached refl in
    (w1, w2, ground arith, refl, stops, ground arith)

-- A cancel of a thread that exists either puts it on the queue, sets the bit LT_ST_CANCELLED and clears LT_ST_SLEEPING, or, where the thread has
-- switched cancellation off, changes nothing: it is not kept for later. No other thread changes.
pub lthread_cancel_lem :
    (t : ℕ) (lt : Lthread) (w : World)
    → w.threads t ≡ some lt
    → (w' : World) × (lthread_cancel (some t) w ≡ done w')
      × ((u : ℕ) → u ≢ t → w'.threads u ≡ w.threads u)
      × (((lt.state.cancelstate ≡ true) × (w' ≡ w))
          ⊎ ((lt.state.cancelstate ≡ false)
              × (w'.queue ≡ w.queue ++ (t ∷ []))
              × (lt' : Lthread) × (w'.threads t ≡ some lt')
              × (lt'.state.cancelled ≡ true)
              × (lt'.state.sleeping ≡ false)))
unfolding lthread_cancel lthread_desched_sleep
lthread_cancel_lem t lt w live = elim (Bool-cases lt.state.cancelstate) [
  | inl e ↦ (w, ground arith, λ u h. refl, inl (e, refl))
  | inr e ↦ elim (Bool-cases lt.state.sleeping) [
    | inl f ↦
        let lt' = set_state lt (record (lt.state) {
          cancelled = true;
          sleeping = false;
          ready = true;
          expired = false;
        }) in
        (
          scheduler_enqueue t (record (put t lt' w) {
            sleeping = without t w.sleeping;
            nsleepers = (w.nsleepers + 2 ^ 64 - 1) % 2 ^ 64;
          }),
          ground arith,
          λ u h. ground arith,
          inr (e, refl, lt', ground arith, refl, refl),
        )
    | inr f ↦
        let lt' = set_state lt (record (lt.state) { cancelled = true }) in
        (
          scheduler_enqueue t (put t lt' w),
          ground arith,
          λ u h. ground arith,
          inr (e, refl, lt', ground arith, refl, f),
        )
  ]
]
