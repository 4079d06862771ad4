-- ===== src/TicketLock/Exclusion.antt =====
-- Who is inside the lock of src/include/ticketlock.h.
use rkt_io.Common.{ℕ, List, [], ◌∷◌, ◌++◌, length, ◌≡◌, ◌≢◌, refl, arith, ◌⊎◌, inl, inr, ap, ◌∙◌}
use rkt_io.TicketLock.{
  inside, Holder, State, look, try_swap, ticket_trylock, takes, looks, unlocks, tries, Reach,
  starts, goes_on,
}
use rkt_io.TicketLock.Order.{IsOrdered, nobody, no_rest}
use rkt_io.TicketLock.Kept.{
  takes-IsOrdered, looks-IsOrdered, unlocks-IsOrdered, tries-IsOrdered, looks_later,
  try_finds_nobody, inside_first, at_list, first_number,
}

-- Whatever the threads at the lock do, in any order of their steps, the numbers of those that have taken one and have not unlocked go up by one from
-- `ticket` to `users` (modulo 2 ^ 32), and all but the first of them spin.
pub Reach-IsOrdered : (s : State) → Reach s → IsOrdered s
Reach-IsOrdered s (starts n small) = record {
  small = small;
  few = omega arith;
  counted = omega (arith, small);
  numbered = nobody;
  behind = no_rest;
}
Reach-IsOrdered s' (goes_on {s} r (takes t room)) = takes-IsOrdered s t (Reach-IsOrdered s r) room
Reach-IsOrdered s' (goes_on {s} r (looks before h after e i)) =
    looks-IsOrdered s before h after (Reach-IsOrdered s r) e
Reach-IsOrdered s' (goes_on {s} r (unlocks before h after e i)) =
    unlocks-IsOrdered s before h after (Reach-IsOrdered s r) e i
Reach-IsOrdered s' (goes_on {s} r (tries t me room)) = tries-IsOrdered s t me (Reach-IsOrdered s r)

-- In every state that is reached, two threads that are inside the lock are one and the same, the one that took its number first.
pub Reach-one_inside :
    (s : State) (b1 b2 : List Holder) (h1 h2 : Holder) (a1 a2 : List Holder)
    → Reach s
    → s.holders ≡ b1 ++ (h1 ∷ a1)
    → h1.pc ≡ inside
    → s.holders ≡ b2 ++ (h2 ∷ a2)
    → h2.pc ≡ inside
    → (b1 ≡ []) × (b2 ≡ []) × (h1 ≡ h2)
Reach-one_inside s b1 b2 h1 h2 a1 a2 r e1 i1 e2 i2 =
    let o = Reach-IsOrdered s r in
    let z1 : b1 ≡ [] = inside_first b1 h1 a1 (at_list s (b1 ++ (h1 ∷ a1)) e1 o).behind i1 in
    let z2 : b2 ≡ [] = inside_first b2 h2 a2 (at_list s (b2 ++ (h2 ∷ a2)) e2 o).behind i2 in
    let p1 : s.holders ≡ h1 ∷ a1 = e1 ∙ ap (λ b. b ++ (h1 ∷ a1)) z1 in
    let p2 : s.holders ≡ h2 ∷ a2 = e2 ∙ ap (λ b. b ++ (h2 ∷ a2)) z2 in (z1, z2, cc)

-- In every state that is reached, the thread that took its number first goes inside when it looks, and every other
-- goes on to spin.
pub Reach-look :
    (s : State) (h : Holder) (hs : List Holder)
    → Reach s
    → s.holders ≡ h ∷ hs
    → (look s.lock h ≡ record h { pc = inside })
      × ((before : List Holder) (g : Holder) (after : List Holder)
          → hs ≡ before ++ (g ∷ after)
          → look s.lock g ≡ g)
unfolding look
Reach-look s h hs r e =
    let p = at_list s (h ∷ hs) e (Reach-IsOrdered s r) in
    let first = first_number s.lock.ticket h hs p.numbered in
    (
      ground arith,
      λ before g after f.
          let q =
            at_list s (h ∷ before ++ (g ∷ after)) (e ∙ ap (λ l. h ∷ l) f) (Reach-IsOrdered s r) in
          looks_later s.lock before h g after q.small q.few q.numbered,
    )

-- In every state that is reached, ticket_trylock with the number `users` takes the lock if nobody holds or waits for it; if
-- somebody does, it changes nothing, whatever number it has read before.
pub Reach-ticket_trylock :
    (s : State) (t : ℕ)
    → Reach s
    → ((s.holders ≡ [])
        × ((ticket_trylock t s.lock.users s).holders
            ≡ record { thread = t; me = s.lock.users; pc = inside } ∷ []))
      ⊎ ((s.holders ≢ []) × ((me : ℕ) → ticket_trylock t me s ≡ s))
unfolding ticket_trylock try_swap
Reach-ticket_trylock s t r = let o = Reach-IsOrdered s r in by_holders s.holders refl o
  where
    by_holders :
        (hs : List Holder)
        → s.holders ≡ hs
        → IsOrdered s
        → ((s.holders ≡ [])
            × ((ticket_trylock t s.lock.users s).holders
                ≡ record { thread = t; me = s.lock.users; pc = inside } ∷ []))
          ⊎ ((s.holders ≢ []) × ((me : ℕ) → ticket_trylock t me s ≡ s))
    by_holders [] e o =
        let free : s.lock.users ≡ s.lock.ticket =
          omega (arith, o.counted, ap (λ l. length l) e, o.small) in
        inl (e, ground (arith, free))
    by_holders (h ∷ hs) e o =
        let held : s.holders ≢ [] = λ z. absurd (ground arith) in
        let busy : s.lock.users ≢ s.lock.ticket = λ z. held (try_finds_nobody s o z) in
        inr (held, λ me. ground (arith, busy))
