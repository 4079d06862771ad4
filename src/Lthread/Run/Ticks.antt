-- ===== src/Lthread/Run/Ticks.antt =====
-- How often the loop of lthread_run in src/sched/lthread.c looks at the timeouts
use rkt_io.Common.{
  ℕ, Bool, List, [], ◌∷◌, ◌++◌, length, if◌then◌else◌, ◌==◌, ◌+◌, ◌-◌, ◌*◌, ◌≤◌, ◌⊎◌, arith, ◌≡◌,
  Bool-cases, inl, inr, refl, sym, ap, ◌∙◌, subst,
}
use rkt_io.Futex.{Futexes}
use rkt_io.Lthread.Outcome.{Outcome, done, done_inj}
use rkt_io.Lthread.State.{World}
use rkt_io.Lthread.Sched.{lthread_resume}
use rkt_io.Lthread.Run.{
  Settings, Scheduler, Turn, resume, from_return_queue, from_scheduler_queue, count_spin, run_turn,
  pause, run_turns,
}
use rkt_io.Lthread.Run.Appends.{done_of}

abbrev Counts : Scheduler → Scheduler → Type 0
Counts s s' = (s'.spins ≡ s.spins) × (s'.ticks ≡ s.ticks)

module _ (slottolthread : ℕ → ℕ) (run : World → Outcome World) (asks : World → Futexes → Futexes)
    (set : Settings) where
  resume-Counts :
      (t : ℕ) (s s' : Scheduler) → resume slottolthread run asks set t s ≡ done s' → Counts s s'
  unfolding resume
  resume-Counts t s s' e =
      let (r, o, now) = done_of (lthread_resume run t s.world) _ s' e in
      let same = done_inj now in (sym (ap (λ z. z.spins) same), sym (ap (λ z. z.ticks) same))

  from_return_queue-Counts :
      (q : List ℕ) (s : Scheduler) (r : Scheduler × Bool)
      → from_return_queue slottolthread run asks set q s ≡ done r
      → Counts s r.0
  unfolding from_return_queue
  from_return_queue-Counts [] s r h = subst (λ z. Counts s z.0) (done_inj h) (refl, refl)
  from_return_queue-Counts (slot ∷ rest) s r h =
      let taken = record s { return_queue = rest } in
      let (s', o, now) =
        done_of (resume slottolthread run asks set (slottolthread slot) taken) _ r h in
      subst (λ z. Counts s z.0) (done_inj now) (resume-Counts (slottolthread slot) taken s' o)

  from_scheduler_queue-Counts :
      (q : List ℕ) (s : Scheduler) (r : Scheduler × Bool)
      → from_scheduler_queue slottolthread run asks set q s ≡ done r
      → Counts s r.0
  unfolding from_scheduler_queue
  from_scheduler_queue-Counts [] s r h = subst (λ z. Counts s z.0) (done_inj h) (refl, refl)
  from_scheduler_queue-Counts (t ∷ rest) s r h =
      let taken = record s { world = record (s.world) { queue = rest } } in
      let (s', o, now) = done_of (resume slottolthread run asks set t taken) _ r h in
      subst (λ z. Counts s z.0) (done_inj now) (resume-Counts t taken s' o)

  run_turn-Counts :
      (turn : Turn) (s : Scheduler) (r : Scheduler × Bool)
      → run_turn slottolthread run asks set turn s ≡ done r
      → (s2 : Scheduler) × Counts s s2 × (r.0 ≡ count_spin slottolthread run asks set turn s2)
  unfolding run_turn
  run_turn-Counts turn s r h =
      let (r1, o1, h1) =
        done_of (from_return_queue slottolthread run asks set (s.return_queue ++ turn.returned) s) _
          r h in
      let (r2, o2, h2) =
        done_of (from_scheduler_queue slottolthread run asks set r1.0.world.queue r1.0) _ r h1 in
      let first = from_return_queue-Counts (s.return_queue ++ turn.returned) s r1 o1 in
      let second = from_scheduler_queue-Counts r1.0.world.queue r1.0 r2 o2 in
      (r2.0, (second.0 ∙ first.0, second.1 ∙ first.1), sym (ap (λ z. z.0) (done_inj h2)))

  abbrev next : Scheduler × Bool → Scheduler
  next r = if r.1 then r.0 else pause slottolthread run asks set r.0

  next_less : (r : Scheduler × Bool) → ((next r).spins ≤ r.0.spins) × ((next r).ticks ≡ r.0.ticks)
  unfolding pause
  next_less r = (ground arith, ground arith)

  count_spin_cases :
      (turn : Turn) (s : Scheduler)
      → (s.spins ≤ 1)
          × ((count_spin slottolthread run asks set turn s).spins ≡ set.futex_wake_spins)
          × ((count_spin slottolthread run asks set turn s).ticks ≡ s.ticks + 1)
        ⊎ ((count_spin slottolthread run asks set turn s).spins + 1 ≡ s.spins)
          × ((count_spin slottolthread run asks set turn s).ticks ≡ s.ticks)
  unfolding count_spin
  count_spin_cases turn s = elim (Bool-cases (s.spins - 1 == 0)) [
    | inl e ↦ rw e (inl (ground (arith, e), refl, refl))
    | inr e ↦ rw e (inr (ground (arith, e), refl))
  ]

  -- In a number of turns that end, whatever the threads do: the turns are at most futex_wake_spins + 1 for each time that the timeouts
  -- are looked at in them, and those that were left to the first time.
  pub run_turns_ticks :
      (turns : List Turn) (s s' : Scheduler)
      → run_turns slottolthread run asks set turns s ≡ done s'
      → (n : ℕ) × (s'.ticks ≡ s.ticks + n)
        × (length turns ≤ n * (set.futex_wake_spins + 1) + s.spins)
  unfolding run_turns
  run_turns_ticks [] s s' h = (0, (sym (ap (λ z. z.ticks) (done_inj h)) ∙ omega arith), omega arith)
  run_turns_ticks (turn ∷ turns) s s' h =
      let (r, o, h1) = done_of (run_turn slottolthread run asks set turn s) _ s' h in
      let (s2, counts, last) = run_turn-Counts turn s r o in
      let (n, ticks, enough) = run_turns_ticks turns (next r) s' h1 in
      let less = next_less r in
      let spins = ap (λ z. z.spins) last in
      let looks = ap (λ z. z.ticks) last in
      elim (count_spin_cases turn s2) [
        | inl (small, again, look) ↦
            let more : (n + 1) * (set.futex_wake_spins + 1)
                ≡ n * (set.futex_wake_spins + 1) + (set.futex_wake_spins + 1) =
              ground arith in
            (n + 1, omega (arith, looks, counts.1), omega (arith, spins, counts.0, more))
        | inr (fewer, same) ↦ (n, omega (arith, looks, counts.1), omega (arith, spins, counts.0))
      ]
