-- ===== src/TicketLock/Order.antt =====
-- The numbers that the holders of the lock of src/include/ticketlock.h have, and who spins.
use rkt_io.Common.{ℕ, ◌+◌, ◌^◌, ◌<◌, List, [], ◌∷◌, ◌++◌, length, ◌≡◌, arith}
use rkt_io.TicketLock.{u32, spinning, Holder, State}

-- The numbers go up by one from `n`.
pub data Numbered : ℕ → List Holder → Type 0 where
  nobody : {n : ℕ} → Numbered n []
  next :
      {n : ℕ} {h : Holder} {hs : List Holder}
      → h.me ≡ n
      → Numbered (u32 (n + 1)) hs
      → Numbered n (h ∷ hs)

pub data AllSpin : List Holder → Type 0 where
  none_spin : AllSpin []
  one_spins : {h : Holder} {hs : List Holder} → h.pc ≡ spinning → AllSpin hs → AllSpin (h ∷ hs)

-- All but the first
pub data RestSpins : List Holder → Type 0 where
  no_rest : RestSpins []
  rest_spins : {h : Holder} {hs : List Holder} → AllSpin hs → RestSpins (h ∷ hs)

-- The state of the lock between steps: the numbers in order from `ticket` up to `users`, and only the thread with the first may be inside.
pub record IsOrdered (s : State) : Type 0 where
  pub small : s.lock.ticket < 2 ^ 32
  pub few : length s.holders < 2 ^ 32
  pub counted : s.lock.users ≡ u32 (s.lock.ticket + length s.holders)
  pub numbered : Numbered s.lock.ticket s.holders
  pub behind : RestSpins s.holders

pub numbered-append :
    (n : ℕ) (hs : List Holder) (h : Holder)
    → n < 2 ^ 32
    → Numbered n hs
    → h.me ≡ u32 (n + length hs)
    → Numbered n (hs ++ (h ∷ []))
numbered-append n [] h small nobody e = next (omega arith) nobody
numbered-append n (g ∷ hs) h small (next first rest) e =
    next first (numbered-append (u32 (n + 1)) hs h (omega arith) rest (omega arith))

-- The number of a holder further back is not the one that is served.
pub later_number :
    (n : ℕ) (before : List Holder) (h : Holder) (after : List Holder)
    → n < 2 ^ 32
    → Numbered n (before ++ (h ∷ after))
    → h.me ≡ u32 (n + length before)
later_number n [] h after small (next e rest) = omega arith
later_number n (g ∷ before) h after small (next e rest) =
    omega (arith, later_number (u32 (n + 1)) before h after (omega arith) rest)

pub all-append :
    (hs : List Holder) (h : Holder) → AllSpin hs → h.pc ≡ spinning → AllSpin (hs ++ (h ∷ []))
all-append [] h none_spin e = one_spins e none_spin
all-append (g ∷ hs) h (one_spins f a) e = one_spins f (all-append hs h a e)

pub all_member :
    (before : List Holder) (h : Holder) (after : List Holder)
    → AllSpin (before ++ (h ∷ after))
    → h.pc ≡ spinning
all_member [] h after (one_spins e a) = e
all_member (g ∷ before) h after (one_spins e a) = all_member before h after a
