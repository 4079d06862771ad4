-- ===== src/Lthread/Run/Fair.antt =====
-- Which threads the loop of lthread_run in src/sched/lthread.c comes to
use rkt_io.Common.{
  ℕ, Bool, List, [], ◌∷◌, ◌++◌, append-nil, append_assoc, length, if◌then◌else◌, ◌==◌, ◌-◌, ◌<◌,
  arith, ◌≡◌, Bool-cases, inl, inr, refl, sym, ap, ◌∙◌, subst,
}
use rkt_io.Futex.{Futexes, futex_tick}
use rkt_io.Lthread.Outcome.{Outcome, done, done_inj}
use rkt_io.Lthread.State.{World}
use rkt_io.Lthread.Sched.{lthread_resume}
use rkt_io.Lthread.Run.{
  Settings, Scheduler, Turn, resume, from_return_queue, from_scheduler_queue, count_spin, run_turn,
  pause, run_turns,
}
use rkt_io.Lthread.Run.Appends.{
  Longer, Appends, same-Longer, trans-Longer, done_of, lthread_resume-Longer,
}

module _ (slottolthread : ℕ → ℕ) (run : World → Outcome World) (asks : World → Futexes → Futexes)
    (set : Settings) (appends : Appends run) where
  resume_lem :
      (t : ℕ) (s s' : Scheduler)
      → resume slottolthread run asks set t s ≡ done s'
      → Longer s.world.queue s'.world.queue × (s'.resumed ≡ s.resumed ++ (t ∷ []))
  unfolding resume
  resume_lem t s s' e =
      let (r, o, now) = done_of (lthread_resume run t s.world) _ s' e in
      let same = done_inj now in
      (
        trans-Longer s.world.queue r.0.queue s'.world.queue
            (lthread_resume-Longer run appends t s.world r o)
            ((asks s.world s.futexes).ready, sym (ap (λ z. z.world.queue) same)),
        sym (ap (λ z. z.resumed) same),
      )

  from_return_queue_lem :
      (q : List ℕ) (s : Scheduler) (r : Scheduler × Bool)
      → from_return_queue slottolthread run asks set q s ≡ done r
      → Longer s.world.queue r.0.world.queue × Longer s.resumed r.0.resumed
  unfolding from_return_queue
  from_return_queue_lem [] s r h =
      let same = done_inj h in
      (
        same-Longer s.world.queue r.0.world.queue (sym (ap (λ z. z.0.world.queue) same)),
        same-Longer s.resumed r.0.resumed (sym (ap (λ z. z.0.resumed) same)),
      )
  from_return_queue_lem (slot ∷ rest) s r h =
      let taken = record s { return_queue = rest } in
      let (s', o, now) =
        done_of (resume slottolthread run asks set (slottolthread slot) taken) _ r h in
      let (longer, resumed) = resume_lem (slottolthread slot) taken s' o in
      subst (λ z. Longer s.world.queue z.0.world.queue × Longer s.resumed z.0.resumed)
        (done_inj now) (longer, (slottolthread slot ∷ [], resumed))

  from_scheduler_queue_lem :
      (t : ℕ) (rest : List ℕ) (s : Scheduler) (r : Scheduler × Bool)
      → from_scheduler_queue slottolthread run asks set (t ∷ rest) s ≡ done r
      → Longer rest r.0.world.queue × (r.0.resumed ≡ s.resumed ++ (t ∷ []))
  unfolding from_scheduler_queue
  from_scheduler_queue_lem t rest s r h =
      let taken = record s { world = record (s.world) { queue = rest } } in
      let (s', o, now) = done_of (resume slottolthread run asks set t taken) _ r h in
      subst (λ z. Longer rest z.0.world.queue × (z.0.resumed ≡ s.resumed ++ (t ∷ [])))
        (done_inj now) (resume_lem t taken s' o)

  count_spin_lem :
      (turn : Turn) (s : Scheduler)
      → Longer s.world.queue (count_spin slottolthread run asks set turn s).world.queue
        × ((count_spin slottolthread run asks set turn s).resumed ≡ s.resumed)
  unfolding count_spin
  count_spin_lem turn s = elim (Bool-cases (s.spins - 1 == 0)) [
    | inl e ↦ rw e (((futex_tick turn.busy turn.real turn.mntc s.futexes).ready, refl), refl)
    | inr e ↦ rw e (([], sym (append-nil s.world.queue)), refl)
  ]

  -- A turn whose queue is not empty
  run_turn_lem :
      (turn : Turn) (s : Scheduler) (r : Scheduler × Bool) (t : ℕ) (rest : List ℕ)
      → s.world.queue ≡ t ∷ rest
      → run_turn slottolthread run asks set turn s ≡ done r
      → Longer rest r.0.world.queue × ((x : List ℕ) × (r.0.resumed ≡ (s.resumed ++ x) ++ (t ∷ [])))
  unfolding run_turn
  run_turn_lem turn s r t rest q h =
      let (r1, o1, h1) =
        done_of (from_return_queue slottolthread run asks set (s.return_queue ++ turn.returned) s) _
          r h in
      let ((more, longer), (x, resumed)) =
        from_return_queue_lem (s.return_queue ++ turn.returned) s r1 o1 in
      let queue : r1.0.world.queue ≡ t ∷ (rest ++ more) = longer ∙ ap (λ z. z ++ more) q in
      let (r2, o2, h2) =
        done_of (from_scheduler_queue slottolthread run asks set r1.0.world.queue r1.0) _ r h1 in
      let (longer2, resumed2) =
        from_scheduler_queue_lem t (rest ++ more) r1.0 r2 (
          subst (λ z. from_scheduler_queue slottolthread run asks set z r1.0 ≡ done r2) queue o2) in
      let (longer3, resumed3) = count_spin_lem turn r2.0 in
      subst
        (λ z.
          Longer rest z.0.world.queue
          × ((x : List ℕ) × (z.0.resumed ≡ (s.resumed ++ x) ++ (t ∷ []))))
        (done_inj h2)
        (
          trans-Longer rest (rest ++ more)
              (count_spin slottolthread run asks set turn r2.0).world.queue (more, refl)
              (trans-Longer (rest ++ more) r2.0.world.queue _ longer2 longer3),
          (x, resumed3 ∙ resumed2 ∙ ap (λ z. z ++ (t ∷ [])) resumed),
        )

  from_scheduler_queue_resumed :
      (q : List ℕ) (s : Scheduler) (r : Scheduler × Bool)
      → from_scheduler_queue slottolthread run asks set q s ≡ done r
      → Longer s.resumed r.0.resumed
  unfolding from_scheduler_queue
  from_scheduler_queue_resumed [] s r h =
      same-Longer s.resumed r.0.resumed (sym (ap (λ z. z.0.resumed) (done_inj h)))
  from_scheduler_queue_resumed (t ∷ rest) s r h =
      (t ∷ [], (from_scheduler_queue_lem t rest s r h).1)

  run_turn_resumed :
      (turn : Turn) (s : Scheduler) (r : Scheduler × Bool)
      → run_turn slottolthread run asks set turn s ≡ done r
      → Longer s.resumed r.0.resumed
  unfolding run_turn
  run_turn_resumed turn s r h =
      let (r1, o1, h1) =
        done_of (from_return_queue slottolthread run asks set (s.return_queue ++ turn.returned) s) _
          r h in
      let first = (from_return_queue_lem (s.return_queue ++ turn.returned) s r1 o1).1 in
      let (r2, o2, h2) =
        done_of (from_scheduler_queue slottolthread run asks set r1.0.world.queue r1.0) _ r h1 in
      let same = (count_spin_lem turn r2.0).1 in
      trans-Longer s.resumed r1.0.resumed r.0.resumed first (
        trans-Longer r1.0.resumed r2.0.resumed r.0.resumed
          (from_scheduler_queue_resumed r1.0.world.queue r1.0 r2 o2)
          (same-Longer r2.0.resumed r.0.resumed (sym (ap (λ z. z.0.resumed) (done_inj h2)) ∙ same)))

  abbrev next : Scheduler × Bool → Scheduler
  next r = if r.1 then r.0 else pause slottolthread run asks set r.0

  next_same :
      (r : Scheduler × Bool) → ((next r).world ≡ r.0.world) × ((next r).resumed ≡ r.0.resumed)
  unfolding pause
  next_same r = (ground arith, ground arith)

  run_turns_resumed :
      (turns : List Turn) (s s' : Scheduler)
      → run_turns slottolthread run asks set turns s ≡ done s'
      → Longer s.resumed s'.resumed
  unfolding run_turns
  run_turns_resumed [] s s' h =
      same-Longer s.resumed s'.resumed (sym (ap (λ z. z.resumed) (done_inj h)))
  run_turns_resumed (turn ∷ turns) s s' h =
      let (r, o, h1) = done_of (run_turn slottolthread run asks set turn s) _ s' h in
      trans-Longer s.resumed r.0.resumed s'.resumed (run_turn_resumed turn s r o) (
        trans-Longer r.0.resumed (next r).resumed s'.resumed
          (same-Longer r.0.resumed (next r).resumed (next_same r).1)
          (run_turns_resumed turns (next r) s' h1))

  -- If what the threads do between two switches puts threads at the end of the scheduler's queue only: in a number of turns that end, the
  -- scheduler resumes every thread that stood on its queue behind fewer threads than there are turns.
  pub run_turns_fair :
      (turns : List Turn) (s s' : Scheduler) (before : List ℕ) (t : ℕ) (after : List ℕ)
      → s.world.queue ≡ before ++ (t ∷ after)
      → length before < length turns
      → run_turns slottolthread run asks set turns s ≡ done s'
      → (x y : List ℕ) × (s'.resumed ≡ ((s.resumed ++ x) ++ (t ∷ [])) ++ y)
  unfolding run_turns
  run_turns_fair [] s s' before t after q small h = absurd (omega arith)
  run_turns_fair (turn ∷ turns) s s' [] t after q small h =
      let (r, o, h1) = done_of (run_turn slottolthread run asks set turn s) _ s' h in
      let (longer, (x, resumed)) = run_turn_lem turn s r t after q o in
      let (y, rest) = run_turns_resumed turns (next r) s' h1 in
      (x, y, rest ∙ ap (λ z. z ++ y) ((next_same r).1 ∙ resumed))
  run_turns_fair (turn ∷ turns) s s' (b ∷ bs) t after q small h =
      let (r, o, h1) = done_of (run_turn slottolthread run asks set turn s) _ s' h in
      let ((more, longer), (x, resumed)) = run_turn_lem turn s r b (bs ++ (t ∷ after)) q o in
      let now : (next r).world.queue ≡ bs ++ (t ∷ (after ++ more)) =
        ap (λ z. z.queue) (next_same r).0 ∙ longer ∙ append_assoc bs (t ∷ after) more in
      let (x2, y2, rest) =
        run_turns_fair turns (next r) s' bs t (after ++ more) now (omega arith) h1 in
      (
        x ++ (b ∷ x2),
        y2,
        rest
            ∙ ap (λ z. ((z ++ x2) ++ (t ∷ [])) ++ y2) ((next_same r).1 ∙ resumed)
            ∙ ap (λ z. (z ++ (t ∷ [])) ++ y2)
                (append_assoc (s.resumed ++ x) (b ∷ []) x2 ∙ append_assoc s.resumed x (b ∷ x2)),
      )
