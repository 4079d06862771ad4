-- ===== src/Mpmc/Tests.antt =====
-- The theorems on src/shared/mpmc_queue.c at a queue of two cells.
use rkt_io.Common.{
  ℕ, ◌<◌, ◌^◌, ◌≡◌, ◌⊎◌, refl, arith, true, false, some, none, List, [], ◌∷◌, ◌++◌, length,
}
use rkt_io.Mpmc.{Mpmcq, mpmc_enqueue, mpmc_dequeue}
use rkt_io.Mpmc.Fifo.{Holds}
use rkt_io.Mpmc.Laws.{mpmc_enqueue_lem, mpmc_dequeue_lem}

-- One value, 5, is in the first of two cells.
abbrev one_queue : Mpmcq
one_queue = record {
  seq = λ i. 1;
  data_ptr = λ i. 5;
  buffer_mask = 1;
  enqueue_pos = 1;
  dequeue_pos = 0;
}

abbrev one_value : List ℕ
one_value = 5 ∷ []

one_queue-Holds : Holds one_queue 1 0 one_value
one_queue-Holds = record {
  at_least_two = omega arith;
  fits = omega arith;
  mask = refl;
  room = omega arith;
  head = refl;
  tail = refl;
  used = λ i h. omega arith;
  values = λ i h. ground arith;
  free = λ i from below. omega arith;
}

mpmc_enqueue_lem_example :
    ((length one_value < 2 ^ 1)
      × (q' : Mpmcq) × (mpmc_enqueue 3 2 one_queue 6 ≡ some (q', true))
      × Holds q' 1 0 (one_value ++ (6 ∷ [])))
    ⊎ ((length one_value ≡ 2 ^ 1) × (mpmc_enqueue 3 2 one_queue 6 ≡ some (one_queue, false)))
mpmc_enqueue_lem_example =
    mpmc_enqueue_lem one_queue 1 0 6 3 2 one_value one_queue-Holds (omega arith)

mpmc_dequeue_lem_example :
    ((one_value ≡ []) × (mpmc_dequeue 1 0 one_queue ≡ some (one_queue, none)))
    ⊎ ((x : ℕ) × (rest : List ℕ) × (one_value ≡ x ∷ rest)
        × (q' : Mpmcq) × (mpmc_dequeue 1 0 one_queue ≡ some (q', some x))
        × Holds q' 1 1 rest)
mpmc_dequeue_lem_example =
    mpmc_dequeue_lem one_queue 1 0 1 0 one_value one_queue-Holds (omega arith)
