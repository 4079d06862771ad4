-- ===== src/TicketLock/Tests.antt =====
-- The theorems on src/include/ticketlock.h with three threads, the numbers about to wrap.
use rkt_io.Common.{List, [], ◌∷◌, ◌≡◌, refl, arith}
use rkt_io.TicketLock.{
  spinning, inside, Holder, State, take_number, look, Reach, starts, goes_on, takes, looks,
}
use rkt_io.TicketLock.Order.{IsOrdered}
use rkt_io.TicketLock.Exclusion.{Reach-IsOrdered, Reach-one_inside}

abbrev free_lock : State
free_lock = record { lock = record { ticket = 0xffffffff; users = 0xffffffff }; holders = [] }

abbrev first : Holder
first = record { thread = 1; me = 0xffffffff; pc = inside }

abbrev second : Holder
second = record { thread = 2; me = 0; pc = spinning }

abbrev held : State
held = record { lock = record { ticket = 0xffffffff; users = 1 }; holders = first ∷ second ∷ [] }

held-Reach : Reach held
unfolding take_number look
held-Reach =
    goes_on
      {s = record {
        lock = record { ticket = 0xffffffff; users = 1 };
        holders = record first { pc = spinning } ∷ second ∷ [];
      }}
      (goes_on
        {s = record {
          lock = record { ticket = 0xffffffff; users = 0 };
          holders = record first { pc = spinning } ∷ [];
        }}
        (goes_on {s = free_lock} (starts 0xffffffff (omega arith)) (takes 1 (omega arith)))
        (takes 2 (omega arith)))
      (looks [] (record first { pc = spinning }) (second ∷ []) refl refl)

Reach-IsOrdered_example : IsOrdered held
Reach-IsOrdered_example = Reach-IsOrdered held held-Reach

abbrev nobody_before : List Holder
nobody_before = []

Reach-one_inside_example : (nobody_before ≡ []) × (nobody_before ≡ []) × (first ≡ first)
Reach-one_inside_example =
    Reach-one_inside held [] [] first first (second ∷ []) (second ∷ []) held-Reach refl refl refl
      refl
