-- ===== src/Lthread/Run/Idle.antt =====
-- When the loop of lthread_run in src/sched/lthread.c sleeps
use rkt_io.Common.{
  ℕ, false, List, [], ◌∷◌, ◌++◌, append-nil, length, if◌then◌else◌, ◌==◌, ◌+◌, ◌-◌, ◌%◌, ◌^◌, ◌≤◌,
  ◌<◌, arith, ◌≡◌, Bool-cases, inl, inr, refl, sym, ap, ◌∙◌,
}
use rkt_io.Futex.{Futexes, futex_tick}
use rkt_io.Lthread.Outcome.{Outcome, done, ◌>>=◌}
use rkt_io.Lthread.State.{World}
use rkt_io.Lthread.Run.{
  Settings, Scheduler, Turn, hand_over, from_return_queue, from_scheduler_queue, count_spin,
  run_turn, pause, run_turns,
}

-- Nothing is ready, and nobody sleeps on a futex.
pub record IsIdle (s : Scheduler) : Type 0 where
  pub queue : s.world.queue ≡ []
  pub return_queue : s.return_queue ≡ []
  pub sleepers : s.futexes.sleepers ≡ 0
  pub ready : s.futexes.ready ≡ []

abbrev pub NoneReturned : List Turn → Type 0
NoneReturned [] = Unit {0}
NoneReturned (turn ∷ turns) = (turn.returned ≡ []) × NoneReturned turns

-- What a turn leaves alone
pub record Same (s s' : Scheduler) : Type 0 where
  pub threads : s'.world ≡ s.world
  pub futexes : s'.futexes ≡ s.futexes
  pub resumed : s'.resumed ≡ s.resumed

hand_over_none : (s : Scheduler) → s.futexes.ready ≡ [] → hand_over s.futexes s ≡ s
hand_over_none s e =
    ap
      (λ q. record s {
        world = record (s.world) { queue = q };
        futexes = record (s.futexes) { ready = [] };
      })
      (ap (λ r. s.world.queue ++ r) e ∙ append-nil s.world.queue)
    ∙ ap (λ r. record s { futexes = record (s.futexes) { ready = r } }) (sym e)

tick_none :
    (turn : Turn) (f : Futexes) → f.sleepers ≡ 0 → futex_tick turn.busy turn.real turn.mntc f ≡ f
unfolding futex_tick
tick_none turn f e = ground (arith, e)

module _ (slottolthread : ℕ → ℕ) (run : World → Outcome World) (asks : World → Futexes → Futexes)
    (set : Settings) where
  count_spin_same :
      (turn : Turn) (s : Scheduler)
      → IsIdle s
      → (spins ticks : ℕ) × (count_spin slottolthread run asks set turn s
          ≡ record s { spins = spins; ticks = ticks })
  unfolding count_spin
  count_spin_same turn s idle = elim (Bool-cases (s.spins - 1 == 0)) [
    | inl e ↦
        let looked = record s { spins = set.futex_wake_spins; ticks = s.ticks + 1 } in
        (
          set.futex_wake_spins,
          s.ticks + 1,
          rw e (
              ap (λ f. hand_over f looked) (tick_none turn s.futexes idle.sleepers)
              ∙ hand_over_none looked idle.ready),
        )
    | inr e ↦ (s.spins - 1, s.ticks, rw e refl)
  ]

  run_turn_idle :
      (turn : Turn) (s : Scheduler)
      → IsIdle s
      → turn.returned ≡ []
      → run_turn slottolthread run asks set turn s
        ≡ done (count_spin slottolthread run asks set turn s, false)
  unfolding run_turn from_return_queue from_scheduler_queue
  run_turn_idle turn s idle quiet = rw (quiet, idle.return_queue, idle.queue) refl

  -- Behind a turn that found nothing
  run_turn-IsIdle :
      (turn : Turn) (s : Scheduler)
      → IsIdle s
      → turn.returned ≡ []
      → (s' : Scheduler) × (run_turn slottolthread run asks set turn s ≡ done (s', false))
        × IsIdle s'
        × Same s s'
        × (s'.pauses ≡ s.pauses)
        × (s'.sleeps ≡ s.sleeps)
  run_turn-IsIdle turn s idle quiet =
      let (spins, ticks, e) = count_spin_same turn s idle in
      (
        record s { spins = spins; ticks = ticks },
        run_turn_idle turn s idle quiet ∙ ap (λ z. done (z, false)) e,
        record {
          queue = idle.queue;
          return_queue = idle.return_queue;
          sleepers = idle.sleepers;
          ready = idle.ready;
        },
        record { threads = refl; futexes = refl; resumed = refl },
        refl,
        refl,
      )

  pause_last :
      (s : Scheduler)
      → s.pauses ≡ 1
      → pause slottolthread run asks set s
        ≡ record s { pauses = set.sleepspins; spins = 0; sleeps = s.sleeps + 1 }
  unfolding pause
  pause_last s e = ground (arith, e)

  pause_on :
      (s : Scheduler)
      → 2 ≤ s.pauses
      → s.pauses < 2 ^ 64
      → pause slottolthread run asks set s ≡ record s { pauses = s.pauses - 1 }
  unfolding pause
  pause_on s more small =
      let less : (s.pauses + 2 ^ 64 - 1) % 2 ^ 64 ≡ s.pauses - 1 = omega (arith, more, small) in
      ground (arith, less, more)

  step :
      (turn : Turn) (turns : List Turn) (s s1 : Scheduler)
      → run_turn slottolthread run asks set turn s ≡ done (s1, false)
      → run_turns slottolthread run asks set (turn ∷ turns) s
        ≡ run_turns slottolthread run asks set turns (pause slottolthread run asks set s1)
  unfolding run_turns
  step turn turns s s1 ran =
      ap
        (λ o. o >>= λ r.
          run_turns slottolthread run asks set turns
            (if r.1 then r.0 else pause slottolthread run asks set r.0))
        ran

  -- Where nothing is ready, nobody sleeps on a futex and no system call returns: in as many turns as are left in `pauses`, which are fewer
  -- than 2^64, no thread is resumed, the scheduler sleeps once, and pauses is then as set at the start and spins 0; threads and futexes
  -- are as they were.
  pub run_turns_idle :
      (turns : List Turn) (s : Scheduler)
      → IsIdle s
      → NoneReturned turns
      → 1 ≤ s.pauses
      → length turns ≡ s.pauses
      → s.pauses < 2 ^ 64
      → (s' : Scheduler) × (run_turns slottolthread run asks set turns s ≡ done s')
        × Same s s'
        × (s'.sleeps ≡ s.sleeps + 1)
        × (s'.pauses ≡ set.sleepspins)
        × (s'.spins ≡ 0)
  unfolding run_turns pause
  run_turns_idle [] s idle quiet some_left all small = absurd (omega arith)
  run_turns_idle (turn ∷ []) s idle (quiet, rest) some_left all small =
      let (s1, ran, idle1, same, pauses, sleeps) = run_turn-IsIdle turn s idle quiet in
      let ends = pause_last s1 (pauses ∙ sym all) in
      (
        pause slottolthread run asks set s1,
        step turn [] s s1 ran,
        rw ends (record { threads = same.threads; futexes = same.futexes; resumed = same.resumed }),
        rw ends (omega (arith, sleeps)),
        rw ends refl,
        rw ends refl,
      )
  run_turns_idle (turn ∷ (turn2 ∷ turns)) s idle (quiet, rest) some_left all small =
      let (s1, ran, idle1, same, pauses, sleeps) = run_turn-IsIdle turn s idle quiet in
      let s2 = record s1 { pauses = s1.pauses - 1 } in
      let on : pause slottolthread run asks set s1 ≡ s2 =
        pause_on s1 (omega (arith, all, pauses)) (omega (arith, pauses)) in
      let (s', goes, same2, sleeps2, pauses2, spins2) =
        run_turns_idle (turn2 ∷ turns) s2
          (record {
            queue = idle1.queue;
            return_queue = idle1.return_queue;
            sleepers = idle1.sleepers;
            ready = idle1.ready;
          })
          rest (omega (arith, all, pauses)) (omega (arith, all, pauses)) (omega (arith, pauses)) in
      (
        s',
        step turn (turn2 ∷ turns) s s1 ran
            ∙ ap (run_turns slottolthread run asks set (turn2 ∷ turns)) on
            ∙ goes,
        record {
          threads = same2.threads ∙ same.threads;
          futexes = same2.futexes ∙ same.futexes;
          resumed = same2.resumed ∙ same.resumed;
        },
        omega (arith, sleeps, sleeps2),
        pauses2,
        spins2,
      )
