-- ===== src/Mpmc/System/Reached.antt =====
-- What any number of threads can come to at a queue of src/shared/mpmc_queue.c that newmpmcq has made
use rkt_io.Common.{
  ℕ, zero, suc, Bool, true, false, ◌==◌, if◌then◌else◌, Bool-cases, ◌+◌, ◌/◌, ◌%◌, ◌^◌, ◌≤◌, ◌<◌,
  ◌≡◌, ◌⊎◌, inl, inr, sym, ap, ◌∙◌, subst, arith, ℕ_discrete, List, [], ◌∷◌, length, Option, some,
  none, some_inj,
}
use rkt_io.Mpmc.{Mpmcq, newmpmcq}
use rkt_io.Mpmc.Fifo.{Holds}
use rkt_io.Mpmc.Init.{newmpmcq-Holds}
use rkt_io.Mpmc.System.{Pc, idle, enq_write, enq_publish, deq_read, deq_free, cell, State, Step}
use rkt_io.Mpmc.System.Order.{Shared, Fine, claims_in, claims_out, apart, cell-mod}
use rkt_io.Mpmc.System.Inv.{Inv, NotIn, AllGiven}
use rkt_io.Mpmc.System.Kept.{Step-Inv}
use rkt_io.Mpmc.System.Somebody.{Somebody, Held}
use rkt_io.Mpmc.System.Held.{Step-Held}
use native.Mathlib.Nat.{mod-eq_of_lt, mod-lt, pow-le-pow_right}

abbrev pub at_start : Mpmcq → State
at_start q = record { queue = q; pc = λ t. idle; claimed = []; given = [] }

pub data Reach (k : ℕ) : State → Type 0 where
  starts :
      (bytes : ℕ) (seq data_ptr : ℕ → ℕ) (q : Mpmcq)
      → bytes / 16 ≡ 2 ^ k
      → 1 ≤ k
      → k ≤ 62
      → newmpmcq bytes seq data_ptr ≡ some q
      → Reach k (at_start q)
  goes_on : {s r : State} → Reach k s → Step k s r → Reach k r

-- The place that a thread stands in
abbrev pub place : Pc → Option ℕ
place (enq_write x p) = some p
place (enq_publish p) = some p
place (deq_read p) = some p
place (deq_free p v) = some p
place pc = none

start_cell : (k : ℕ) (q : Mpmcq) → Holds q k 0 [] → (i : ℕ) → i < 2 ^ k → q.seq (i % 2 ^ k) ≡ i
start_cell k q holds i below =
    let small : 2 ^ k ≤ 2 ^ 62 = pow-le-pow_right (omega arith) holds.fits in
    let plain : 0 + i ≡ i = omega arith in
    subst (λ j. q.seq (j % 2 ^ k) ≡ j) plain
      (holds.free i (omega arith) below ∙ mod-eq_of_lt (omega (arith, small, below)))

start-Shared : (k : ℕ) (q : Mpmcq) → Holds q k 0 [] → Shared k q []
start-Shared k q holds =
    let two : 2 ≤ 2 ^ k = pow-le-pow_right {n = 2} (omega arith) holds.at_least_two in
    let small : 2 ^ k ≤ 2 ^ 62 = pow-le-pow_right (omega arith) holds.fits in
    let cells = start_cell k q holds in
    record {
      size = two;
      mask = holds.mask;
      few = omega (arith, small);
      tail = holds.tail;
      order = omega arith;
      room = omega arith;
      used = λ p from below. absurd (omega arith);
      free = λ p from below. inl (cells p (omega (arith, holds.head)));
      bounded = λ p.
          let below : p % 2 ^ k < 2 ^ k = mod-lt p (omega arith) in
          let here = ap q.seq (mod-eq_of_lt below) in
          omega (arith, cells (p % 2 ^ k) below, here, small);
    }

start-Inv : (k : ℕ) (q : Mpmcq) → Holds q k 0 [] → Inv k (at_start q)
start-Inv k q holds = record {
  shared = start-Shared k q holds;
  fine = λ t. _;
  one_in = λ t u p e f. cc;
  one_out = λ t u p e f. cc;
  not_given = λ t p e. _;
  all_given = _;
}

start-Held : (k : ℕ) (q : Mpmcq) → Holds q k 0 [] → Held k (at_start q)
start-Held k q holds =
    let two : 2 ≤ 2 ^ k = pow-le-pow_right {n = 2} (omega arith) holds.at_least_two in
    let small : 2 ^ k ≤ 2 ^ 62 = pow-le-pow_right (omega arith) holds.fits in
    record {
      writing = λ p from below number. absurd (omega arith);
      reading = λ p before out. absurd (omega (arith, holds.head));
      leaving = λ r from below number.
          absurd (omega (arith, start_cell k q holds r (omega (arith, holds.head)), two));
    }

pub Reach-Inv : (k : ℕ) (s : State) → Reach k s → Inv k s
Reach-Inv k s (starts bytes seq data_ptr q size lo hi made) =
    let (q', made', holds) = newmpmcq-Holds bytes k seq data_ptr size lo hi in
    start-Inv k q (subst (λ z. Holds z k 0 []) (some_inj (sym made' ∙ made)) holds)
Reach-Inv k r (goes_on {s} before step) = Step-Inv k s r step (Reach-Inv k s before)

pub Reach-Held : (k : ℕ) (s : State) → Reach k s → Held k s
Reach-Held k s (starts bytes seq data_ptr q size lo hi made) =
    let (q', made', holds) = newmpmcq-Holds bytes k seq data_ptr size lo hi in
    start-Held k q (subst (λ z. Holds z k 0 []) (some_inj (sym made' ∙ made)) holds)
Reach-Held k r (goes_on {s} before step) =
    Step-Held k s r step (Reach-Inv k s before) (Reach-Held k s before)

in_range :
    (k : ℕ) (q : Mpmcq) (claimed : List ℕ) (pc : Pc) (p : ℕ)
    → Shared k q claimed
    → Fine k q claimed pc
    → place pc ≡ some p
    → (p < length claimed)
      × (length claimed ≤ p + 2 ^ k)
      × (((q.dequeue_pos ≤ p) × (claims_in pc ≡ some p))
          ⊎ ((p < q.dequeue_pos) × (claims_out pc ≡ some p)))
in_range k q claimed (enq_write x r) p sh fine e =
    let same : r ≡ p = some_inj e in
    (omega (arith, fine.1), omega (arith, fine.0, sh.room), inl (omega (arith, fine.0), e))
in_range k q claimed (enq_publish r) p sh fine e =
    let same : r ≡ p = some_inj e in
    (omega (arith, fine.1), omega (arith, fine.0, sh.room), inl (omega (arith, fine.0), e))
in_range k q claimed (deq_read r) p sh fine e =
    let same : r ≡ p = some_inj e in
    (omega (arith, fine.0, sh.order), omega (arith, fine.1), inr (omega (arith, fine.0), e))
in_range k q claimed (deq_free r v) p sh fine e =
    let same : r ≡ p = some_inj e in
    (omega (arith, fine.0, sh.order), omega (arith, fine.1), inr (omega (arith, fine.0), e))
in_range k q claimed pc p sh fine e = cc

-- Whatever the threads at a queue that newmpmcq has made do, in any order of their accesses, with fewer than 2^63 values put in: two
-- threads between a claim and the store that ends it are never in the same cell.
pub Reach-one_per_cell :
    (k : ℕ) (s : State)
    → Reach k s
    → (t u p r : ℕ) → place (s.pc t) ≡ some p
    → place (s.pc u) ≡ some r
    → cell s.queue p ≡ cell s.queue r
    → t ≡ u
Reach-one_per_cell k s reached t u p r e f same =
    let inv = Reach-Inv k s reached in
    let (below, near, side) = in_range k s.queue s.claimed (s.pc t) p inv.shared (inv.fine t) e in
    let (below', near', side') =
      in_range k s.queue s.claimed (s.pc u) r inv.shared (inv.fine u) f in
    let one : p % 2 ^ k ≡ r % 2 ^ k = sym (cell-mod inv.shared p) ∙ same ∙ cell-mod inv.shared r in
    elim (ℕ_discrete p r) [
      | no differ ↦ absurd (apart k p r differ (omega arith) (omega arith) one)
      | yes h ↦ elim side [
        | inl (after, mine) ↦ elim side' [
          | inl (after', yours) ↦ inv.one_in t u p mine (yours ∙ ap some (sym h))
          | inr (before', yours) ↦ absurd (omega arith)
        ]
        | inr (before, mine) ↦ elim side' [
          | inl (after', yours) ↦ absurd (omega arith)
          | inr (before', yours) ↦ inv.one_out t u p mine (yours ∙ ap some (sym h))
        ]
      ]
    ]

abbrev pub given_at : ℕ → List (ℕ × ℕ) → Bool
given_at p [] = false
given_at p ((r, v) ∷ given) = if p == r then true else given_at p given

-- Each place before `d` is given out, or a dequeue is about to.
abbrev pub AllTaken : ℕ → State → Type 0
AllTaken zero s = Unit {0}
AllTaken (suc p) s = ((given_at p s.given ≡ true) ⊎ Somebody claims_out s.pc p) × AllTaken p s

given_at-NotIn : (p : ℕ) (given : List (ℕ × ℕ)) → given_at p given ≡ false → NotIn p given
given_at-NotIn p [] e = _
given_at-NotIn p ((r, v) ∷ given) e = elim (ℕ_discrete p r) [
  | yes same ↦ absurd (ground (arith, same, e))
  | no differ ↦ (differ, given_at-NotIn p given (ground (arith, differ, e)))
]

Held-AllTaken : (k : ℕ) (s : State) → Held k s → (d : ℕ) → d ≤ s.queue.dequeue_pos → AllTaken d s
Held-AllTaken k s held zero h = _
Held-AllTaken k s held (suc p) h = (
  elim (Bool-cases (given_at p s.given)) [
    | inl yes_given ↦ inl yes_given
    | inr not_given ↦ inr (held.reading p (omega arith) (given_at-NotIn p s.given not_given))
  ],
  Held-AllTaken k s held p (omega arith),
)

-- Whatever the threads at a queue that newmpmcq has made do, in any order of their accesses, with fewer than 2^63 values put in: each
-- value that a mpmc_dequeue has given out is the one that was put in at its place in the order of the enqueues, no place is given
-- out twice, each place before dequeue_pos is given out or in the hands of a mpmc_dequeue, none after it is given out, and
-- dequeue_pos is not beyond the number of values put in, nor this more than a size beyond it.
pub Reach-AllGiven :
    (k : ℕ) (s : State)
    → Reach k s
    → AllGiven s.queue.dequeue_pos s.claimed s.given
      × AllTaken s.queue.dequeue_pos s
      × (s.queue.dequeue_pos ≤ length s.claimed)
      × (length s.claimed ≤ s.queue.dequeue_pos + 2 ^ k)
Reach-AllGiven k s reached =
    let inv = Reach-Inv k s reached in
    (
      inv.all_given,
      Held-AllTaken k s (Reach-Held k s reached) s.queue.dequeue_pos (omega arith),
      inv.shared.order,
      inv.shared.room,
    )
