-- ===== src/TicketLock.antt =====
-- src/include/ticketlock.h: the lock of the futex queue and of the sleeping threads, with any number of
-- threads at work and their steps in any order. The union's 64-bit word is the pair of its halves.
pub mod Order
pub mod Kept
pub mod Exclusion
mod Tests
use rkt_io.Common.{
  ℕ, ◌+◌, ◌-◌, ◌%◌, ◌^◌, ◌<◌, Bool, true, false, ◌&&◌, ◌==◌, if◌then◌else◌, List, [], ◌∷◌, ◌++◌,
  length, ◌≡◌,
}

abbrev pub u32 : ℕ → ℕ
u32 n = n % 2 ^ 32

pub record Ticketlock : Type 0 where
  pub ticket : ℕ
  pub users : ℕ

-- Where a thread stands: in the loop of `ticket_lock`, or behind it.
pub data Pc : Type 0 where
  spinning inside : Pc

-- A thread that has taken the number `me` and has not unlocked
pub record Holder : Type 0 where
  pub thread : ℕ
  pub me : ℕ
  pub pc : Pc

-- `holders` lists the threads between taking a number and unlocking, in the order in which they took it.
pub record State : Type 0 where
  pub lock : Ticketlock
  pub holders : List Holder

-- `a_fetch_add_uint` of `ticket_lock`
unfoldable pub take_number : ℕ → State → State
take_number t s = record {
  lock = record (s.lock) { users = u32 (s.lock.users + 1) };
  holders = s.holders ++ (record { thread = t; me = s.lock.users; pc = spinning } ∷ []);
}

-- One turn of the loop of `ticket_lock`
unfoldable pub look : Ticketlock → Holder → Holder
look l h = if l.ticket == h.me then record h { pc = inside } else h

unfoldable pub ticket_unlock : Ticketlock → Ticketlock
ticket_unlock l = record l { ticket = u32 (l.ticket + 1) }

-- The compare-and-swap of `ticket_trylock`, with the value `me` that was read before: whether it succeeds, and the lock.
unfoldable pub try_swap : ℕ → Ticketlock → Ticketlock × Bool
try_swap me l =
    if l.ticket == me && l.users == me
    then (record { ticket = me; users = u32 (me + 1) }, true)
    else (l, false)

unfoldable pub ticket_trylock : ℕ → ℕ → State → State
unfolding try_swap
ticket_trylock t me s =
    let (l, taken) = try_swap me s.lock in
    if taken
    then record {
      lock = l;
      holders = s.holders ++ (record { thread = t; me = me; pc = inside } ∷ []);
    }
    else s

-- Fewer than 2 ^ 32 threads are at the lock at a time.
pub data Step : State → State → Type 0 where
  takes : {s : State} (t : ℕ) → length s.holders + 1 < 2 ^ 32 → Step s (take_number t s)
  looks :
      {s : State} (before : List Holder) (h : Holder) (after : List Holder)
      → s.holders ≡ before ++ (h ∷ after)
      → h.pc ≡ spinning
      → Step s (record s { holders = before ++ (look s.lock h ∷ after) })
  unlocks :
      {s : State} (before : List Holder) (h : Holder) (after : List Holder)
      → s.holders ≡ before ++ (h ∷ after)
      → h.pc ≡ inside
      → Step s (record { lock = ticket_unlock s.lock; holders = before ++ after })
  tries : {s : State} (t me : ℕ) → length s.holders + 1 < 2 ^ 32 → Step s (ticket_trylock t me s)

-- From a lock that nobody holds, with any number in it
pub data Reach : State → Type 0 where
  starts :
      (n : ℕ)
      → n < 2 ^ 32
      → Reach (record { lock = record { ticket = n; users = n }; holders = [] })
  goes_on : {s s' : State} → Reach s → Step s s' → Reach s'
