-- ===== src/TicketLock/Kept.antt =====
-- The steps of src/include/ticketlock.h keep the holders in order.
use rkt_io.Common.{
  ℕ, ◌+◌, ◌^◌, ◌<◌, List, [], ◌∷◌, ◌++◌, length, length-append, ℕ_discrete, ◌≡◌, ◌≢◌, refl, sym,
  subst, arith, ◌∙◌,
}
use rkt_io.TicketLock.{
  u32, Ticketlock, spinning, inside, Holder, State, take_number, look, ticket_unlock, try_swap,
  ticket_trylock,
}
use rkt_io.TicketLock.Order.{
  Numbered, nobody, next, AllSpin, none_spin, one_spins, RestSpins, no_rest, rest_spins, IsOrdered,
  numbered-append, later_number, all-append, all_member,
}

pub takes-IsOrdered :
    (s : State) (t : ℕ) → IsOrdered s → length s.holders + 1 < 2 ^ 32 → IsOrdered (take_number t s)
unfolding take_number
takes-IsOrdered s t o room = record {
  small = o.small;
  few = omega (
    arith,
    length-append s.holders (record { thread = t; me = s.lock.users; pc = spinning } ∷ []),
    room,
  );
  counted = omega (
    arith,
    length-append s.holders (record { thread = t; me = s.lock.users; pc = spinning } ∷ []),
    o.counted,
  );
  numbered =
      numbered-append s.lock.ticket s.holders
        (record { thread = t; me = s.lock.users; pc = spinning }) o.small o.numbered o.counted;
  behind = more s.holders o.behind;
}
  where
    more :
        (hs : List Holder)
        → RestSpins hs
        → RestSpins (hs ++ (record { thread = t; me = s.lock.users; pc = spinning } ∷ []))
    more [] no_rest = rest_spins none_spin
    more (h ∷ hs) (rest_spins a) =
        rest_spins (all-append hs (record { thread = t; me = s.lock.users; pc = spinning }) a refl)

-- A holder that looks and is not the first goes on to spin.
pub looks_later :
    (l : Ticketlock) (before : List Holder) (g h : Holder) (after : List Holder)
    → l.ticket < 2 ^ 32
    → length (g ∷ before ++ (h ∷ after)) < 2 ^ 32
    → Numbered l.ticket (g ∷ before ++ (h ∷ after))
    → look l h ≡ h
unfolding look
looks_later l before g h after small few n =
    let e = later_number l.ticket (g ∷ before) h after small n in
    let back : l.ticket ≢ h.me = omega (arith, e, few, length-append before (h ∷ after)) in
    ground arith

pub first_number : (n : ℕ) (h : Holder) (hs : List Holder) → Numbered n (h ∷ hs) → h.me ≡ n
first_number n h hs (next e rest) = e

rest_numbered :
    (n : ℕ) (h : Holder) (hs : List Holder) → Numbered n (h ∷ hs) → Numbered (u32 (n + 1)) hs
rest_numbered n h hs (next e rest) = rest

rest_all : (h : Holder) (hs : List Holder) → RestSpins (h ∷ hs) → AllSpin hs
rest_all h hs (rest_spins a) = a

pub look-me : (l : Ticketlock) (h : Holder) → (look l h).me ≡ h.me
unfolding look
look-me l h = ground arith

-- The same state with its list written another way
pub at_list :
    (s : State) (hs : List Holder)
    → s.holders ≡ hs
    → IsOrdered s
    → IsOrdered (record s { holders = hs })
at_list s hs e o = subst (λ l. IsOrdered (record s { holders = l })) e o

pub looks-IsOrdered :
    (s : State) (before : List Holder) (h : Holder) (after : List Holder)
    → IsOrdered s
    → s.holders ≡ before ++ (h ∷ after)
    → IsOrdered (record s { holders = before ++ (look s.lock h ∷ after) })
looks-IsOrdered s [] h after o e =
    let p = at_list s (h ∷ after) e o in
    record {
      small = p.small;
      few = p.few;
      counted = p.counted;
      numbered =
          next (look-me s.lock h ∙ first_number s.lock.ticket h after p.numbered)
            (rest_numbered s.lock.ticket h after p.numbered);
      behind = rest_spins (rest_all h after p.behind);
    }
looks-IsOrdered s (g ∷ before) h after o e =
    let p = at_list s (g ∷ before ++ (h ∷ after)) e o in
    let same = looks_later s.lock before g h after p.small p.few p.numbered in
    subst (λ k. IsOrdered (record s { holders = g ∷ before ++ (k ∷ after) })) (sym same) p

-- Whoever is inside is the first.
pub inside_first :
    (before : List Holder) (h : Holder) (after : List Holder)
    → RestSpins (before ++ (h ∷ after))
    → h.pc ≡ inside
    → before ≡ []
inside_first [] h after r i = refl
inside_first (g ∷ before) h after (rest_spins a) i =
    let other : spinning ≡ inside = sym (all_member before h after a) ∙ i in absurd (ground arith)

spins-RestSpins : (hs : List Holder) → AllSpin hs → RestSpins hs
spins-RestSpins [] none_spin = no_rest
spins-RestSpins (h ∷ hs) (one_spins e a) = rest_spins a

pub unlocks-IsOrdered :
    (s : State) (before : List Holder) (h : Holder) (after : List Holder)
    → IsOrdered s
    → s.holders ≡ before ++ (h ∷ after)
    → h.pc ≡ inside
    → IsOrdered (record { lock = ticket_unlock s.lock; holders = before ++ after })
unfolding ticket_unlock
unlocks-IsOrdered s [] h after o e i =
    let p = at_list s (h ∷ after) e o in
    record {
      small = omega arith;
      few = omega (arith, p.few);
      counted = omega (arith, p.counted);
      numbered = rest_numbered s.lock.ticket h after p.numbered;
      behind = spins-RestSpins after (rest_all h after p.behind);
    }
unlocks-IsOrdered s (g ∷ before) h after o e i =
    let p = at_list s (g ∷ before ++ (h ∷ after)) e o in
    let nobody_before : g ∷ before ≡ [] = inside_first (g ∷ before) h after p.behind i in
    absurd (ground arith)

-- A trylock that succeeds found nobody.
pub try_finds_nobody : (s : State) → IsOrdered s → s.lock.users ≡ s.lock.ticket → s.holders ≡ []
try_finds_nobody s o e = empty s.holders (omega (arith, o.few, o.small, o.counted))
  where
    empty : (hs : List Holder) → length hs ≡ 0 → hs ≡ []
    empty [] z = refl
    empty (h ∷ hs) z = absurd (omega arith)

try_taken :
    (s : State) (t me : ℕ)
    → IsOrdered s
    → s.lock.ticket ≡ me
    → s.lock.users ≡ me
    → IsOrdered (record {
      lock = record { ticket = me; users = u32 (me + 1) };
      holders = record { thread = t; me = me; pc = inside } ∷ [];
    })
try_taken s t me o e f = record {
  small = omega (arith, o.small);
  few = omega arith;
  counted = refl;
  numbered = next refl nobody;
  behind = rest_spins none_spin;
}

pub tries-IsOrdered : (s : State) (t me : ℕ) → IsOrdered s → IsOrdered (ticket_trylock t me s)
unfolding ticket_trylock try_swap
tries-IsOrdered s t me o = elim (ℕ_discrete s.lock.ticket me) [
  | no p ↦ let step : s ≡ ticket_trylock t me s = ground arith in subst IsOrdered step o
  | yes p ↦ elim (ℕ_discrete s.lock.users me) [
    | no q ↦ let step : s ≡ ticket_trylock t me s = ground arith in subst IsOrdered step o
    | yes q ↦
        let none_there = try_finds_nobody s o (q ∙ sym p) in
        let step : record {
          lock = record { ticket = me; users = u32 (me + 1) };
          holders = record { thread = t; me = me; pc = inside } ∷ [];
        }
            ≡ ticket_trylock t me s =
          ground arith in
        subst IsOrdered step (try_taken s t me o p q)
  ]
]
