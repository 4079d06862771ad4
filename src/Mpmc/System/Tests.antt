-- ===== src/Mpmc/System/Tests.antt =====
-- The theorems on the threads at the queue of src/shared/mpmc_queue.c, at two cells
use rkt_io.Common.{
  some, none, ◌<◌, ℕ, ◌+◌, ◌^◌, ◌≤◌, ◌≡◌, ◌⊎◌, refl, arith, true, false, length, ◌∷◌, [],
}
use rkt_io.Mpmc.{Mpmcq, newmpmcq, number_cells}
use rkt_io.Mpmc.System.{
  enq_start, enq_returned, deq_start, deq_returned, update, State, enqueues, dequeues, goes, go,
  access,
}
use rkt_io.Mpmc.System.Order.{claims_in, claims_out}
use rkt_io.Mpmc.System.Somebody.{Somebody}
use rkt_io.Mpmc.System.Inv.{AllGiven}
use rkt_io.Mpmc.System.Reached.{
  Reach, starts, goes_on, at_start, AllTaken, Reach-one_per_cell, Reach-AllGiven,
}
use rkt_io.Mpmc.System.Refused.{Reach-full, Reach-empty}
use rkt_io.Mpmc.System.Solo.{go5, RoundBefore, Reach-enqueue_alone}
use rkt_io.Mpmc.System.SoloOut.{Reach-dequeue_alone}

abbrev two_cells : Mpmcq
two_cells = record {
  seq = number_cells 2 (λ i. 0);
  data_ptr = λ i. 0;
  buffer_mask = 1;
  enqueue_pos = 0;
  dequeue_pos = 0;
}

abbrev put_in : ℕ → ℕ → State → State
put_in t x s = record s { pc = update s.pc t (enq_start x) }

abbrev take_out : ℕ → State → State
take_out t s = record s { pc = update s.pc t deq_start }

abbrev go4 : ℕ → State → State
go4 t s = go false t (go false t (go false t (go false t s)))

go4-Reach :
    {s : State} (t : ℕ)
    → Reach 1 s
    → length s.claimed + 3 ≤ 2 ^ 63
    → length (go false t s).claimed + 3 ≤ 2 ^ 63
    → length (go false t (go false t s)).claimed + 3 ≤ 2 ^ 63
    → length (go false t (go false t (go false t s))).claimed + 3 ≤ 2 ^ 63
    → Reach 1 (go4 t s)
go4-Reach t r a b c d =
    goes_on
      (goes_on (goes_on (goes_on r (goes false t (omega arith))) (goes false t (omega arith)))
        (goes false t (omega arith)))
      (goes false t (omega arith))

start : Reach 1 (at_start two_cells)
unfolding newmpmcq
start = starts 32 (λ i. 0) (λ i. 0) two_cells refl (omega arith) (omega arith) refl

-- Thread 3 has put in the value 5, but for the last store.
abbrev almost : State
almost = go4 3 (put_in 3 5 (at_start two_cells))

almost-Reach : Reach 1 almost
unfolding go access
almost-Reach =
    go4-Reach 3 (goes_on start (enqueues 3 5 refl)) (omega arith) (omega arith) (omega arith)
      (omega arith)

Reach-one_per_cell_example : ◌≡◌ {A = ℕ} 3 3
unfolding go access
Reach-one_per_cell_example = Reach-one_per_cell 1 almost almost-Reach 3 3 0 0 refl refl refl

-- Thread 8 looks for a value that is not handed over.
abbrev too_early : State
too_early = go false 8 (take_out 8 almost)

too_early-Reach : Reach 1 too_early
unfolding go access
too_early-Reach = goes_on (goes_on almost-Reach (dequeues 8 refl)) (goes false 8 (omega arith))

Reach-empty_example :
    (◌≡◌ {A = ℕ} 0 too_early.queue.dequeue_pos)
    × ((length too_early.claimed ≡ too_early.queue.dequeue_pos) ⊎ Somebody claims_in too_early.pc 0)
unfolding go access
Reach-empty_example = Reach-empty 1 too_early too_early-Reach 8 0 false refl refl

-- A second value is claimed, and thread 5 looks for a place for a third.
abbrev no_room : State
no_room = go false 5 (put_in 5 7 (go4 4 (put_in 4 6 almost)))

no_room-Reach : Reach 1 no_room
unfolding go access
no_room-Reach =
    goes_on
      (goes_on
        (go4-Reach 4 (goes_on almost-Reach (enqueues 4 6 refl)) (omega arith) (omega arith)
          (omega arith) (omega arith))
        (enqueues 5 7 refl))
      (goes false 5 (omega arith))

Reach-full_example :
    (◌≡◌ {A = ℕ} 2 (length no_room.claimed))
    × ((length no_room.claimed ≡ no_room.queue.dequeue_pos + 2 ^ 1)
        ⊎ ((r : ℕ) × (r + 2 ^ 1 ≡ 2) × Somebody claims_out no_room.pc r))
unfolding go access
Reach-full_example = Reach-full 1 no_room no_room-Reach 5 7 2 true refl refl

-- Thread 3 ends its call and thread 8 takes the value.
abbrev passed_on : State
passed_on = go false 8 (go4 8 (take_out 8 (go false 3 almost)))

passed_on-Reach : Reach 1 passed_on
unfolding go access
passed_on-Reach =
    goes_on
      (go4-Reach 8 (goes_on (goes_on almost-Reach (goes false 3 (omega arith))) (dequeues 8 refl))
        (omega arith) (omega arith) (omega arith) (omega arith))
      (goes false 8 (omega arith))

-- What thread 8 has taken
passed_on-given : passed_on.given ≡ (0, 5) ∷ []
unfolding go access
passed_on-given = refl

Reach-AllGiven_example :
    AllGiven passed_on.queue.dequeue_pos passed_on.claimed passed_on.given
    × AllTaken passed_on.queue.dequeue_pos passed_on
    × (passed_on.queue.dequeue_pos ≤ length passed_on.claimed)
    × (length passed_on.claimed ≤ passed_on.queue.dequeue_pos + 2 ^ 1)
Reach-AllGiven_example = Reach-AllGiven 1 passed_on passed_on-Reach

-- Thread 4 comes with a second value while thread 3 has not ended its call.
abbrev second : State
second = put_in 4 6 almost

second-Reach : Reach 1 second
unfolding go access
second-Reach = goes_on almost-Reach (enqueues 4 6 refl)

Reach-enqueue_alone_example :
    (((go5 4 second).pc 4 ≡ enq_returned true)
      × ((go5 4 second).claimed ≡ 5 ∷ 6 ∷ [])
      × (length second.claimed < second.queue.dequeue_pos + 2 ^ 1))
    ⊎ (((go5 4 second).pc 4 ≡ enq_returned false)
        × ((go5 4 second).queue ≡ second.queue)
        × ((go5 4 second).claimed ≡ second.claimed)
        × ((length second.claimed ≡ second.queue.dequeue_pos + 2 ^ 1)
            ⊎ RoundBefore 1 second (length second.claimed)))
unfolding go access
Reach-enqueue_alone_example = Reach-enqueue_alone 1 second second-Reach 4 6 refl

-- Thread 8 comes for the value that thread 3 has handed over.
abbrev ready : State
ready = take_out 8 (go false 3 almost)

ready-Reach : Reach 1 ready
unfolding go access
ready-Reach = goes_on (goes_on almost-Reach (goes false 3 (omega arith))) (dequeues 8 refl)

Reach-dequeue_alone_example :
    ((go5 8 ready).claimed ≡ ready.claimed)
    × ((((go5 8 ready).pc 8 ≡ deq_returned (some 5))
          × (ready.queue.dequeue_pos < length ready.claimed)
          × ((go5 8 ready).queue.dequeue_pos ≡ ready.queue.dequeue_pos + 1))
        ⊎ (((go5 8 ready).pc 8 ≡ deq_returned none)
            × ((go5 8 ready).queue ≡ ready.queue)
            × ((length ready.claimed ≡ ready.queue.dequeue_pos)
                ⊎ Somebody claims_in ready.pc ready.queue.dequeue_pos)))
unfolding go access
Reach-dequeue_alone_example = Reach-dequeue_alone 1 ready ready-Reach 8 refl
