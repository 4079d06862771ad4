-- ===== src/Mpmc/System/Refused.antt =====
-- When the calls of src/shared/mpmc_queue.c return 0, with any number of threads at work
use rkt_io.Common.{
  ℕ, zero, suc, ◌+◌, ◌%◌, ◌^◌, ◌≤◌, ◌<◌, ◌≡◌, ◌⊎◌, inl, inr, sym, ap, ◌∙◌, subst, arith, Bool, true,
  false, dec_lt, List, length, none,
}
use rkt_io.Mpmc.{Mpmcq, size_t}
use rkt_io.Mpmc.System.{
  Pc, enq_start, enq_look, enq_swap, enq_returned, deq_start, deq_look, deq_swap, deq_returned,
  cell, access, State, go,
}
use rkt_io.Mpmc.System.Order.{Shared, Fine, claims_in, claims_out, cell-mod}
use rkt_io.Mpmc.System.Inv.{update_own}
use rkt_io.Mpmc.System.Looks.{by_dif_all}
use rkt_io.Mpmc.System.Reached.{Reach, Reach-Inv, Reach-Held}
use rkt_io.Mpmc.System.Somebody.{Somebody}
use native.Mathlib.Nat.{add-mod_right}

-- A place before `d`, some rounds later
later_round :
    (k d p fuel : ℕ)
    → p < d
    → d ≤ p + fuel
    → 1 ≤ 2 ^ k
    → (r : ℕ) × (d ≤ r) × (r < d + 2 ^ k) × (p + 2 ^ k ≤ r) × (r % 2 ^ k ≡ p % 2 ^ k)
later_round k d p zero before enough size = absurd (omega arith)
later_round k d p (suc fuel) before enough size = elim (dec_lt (p + 2 ^ k) d) [
  | no here ↦ (p + 2 ^ k, omega arith, omega arith, omega arith, add-mod_right p (2 ^ k))
  | yes early ↦
      let (r, from, below, on, same) = later_round k d (p + 2 ^ k) fuel early (omega arith) size in
      (r, from, below, omega arith, same ∙ add-mod_right p (2 ^ k))
]

module _ {k : ℕ} {q : Mpmcq} {claimed : List ℕ} (sh : Shared k q claimed) where
  -- The number of a cell goes on.
  past_seq : (p : ℕ) → p < q.dequeue_pos → p + 1 ≤ q.seq (p % 2 ^ k)
  past_seq p before =
      let (r, from, below, on, same) =
        later_round k q.dequeue_pos p q.dequeue_pos before (omega arith) (omega (arith, sh.size)) in
      elim (dec_lt r (length claimed)) [
        | yes put ↦ ground (arith, sh.used r from put, sh.size, ap q.seq same)
        | no later ↦ ground (arith, sh.free r (omega arith) below, sh.size, ap q.seq same)
      ]

  put_seq : (p : ℕ) → p < length claimed → p ≤ q.seq (p % 2 ^ k)
  put_seq p put = elim (dec_lt p q.dequeue_pos) [
    | yes before ↦ omega (arith, past_seq p before)
    | no after ↦ ground (arith, sh.used p (omega arith) put)
  ]

refused : Pc → Bool
refused (enq_returned false) = true
refused (deq_returned none) = true
refused pc = false

goes_to :
    (s : State) (t : ℕ) (spurious : Bool) (pc : Pc)
    → s.pc t ≡ pc
    → (go spurious t s).pc t ≡ (access spurious s.queue pc).1
unfolding go
goes_to s t spurious pc e =
    update_own s.pc t (access spurious s.queue (s.pc t)).1
    ∙ ap (λ z. (access spurious s.queue z).1) e

-- The look of an enqueue that ends the call
less_in :
    (q : Mpmcq) (x p : ℕ) (spurious : Bool)
    → q.seq (cell q p) < 2 ^ 63
    → p ≤ 2 ^ 63
    → (access spurious q (enq_look x p)).1 ≡ enq_returned false
    → q.seq (cell q p) < p
unfolding access refused
less_in q x p spurious small fits e =
    by_dif_all (λ pc. refused pc ≡ true → q.seq (cell q p) < p) (q.seq (cell q p)) p (enq_swap x p)
      (enq_returned false) (enq_start x) small fits (λ same h. cc) (λ less h. less) (λ h. cc)
      (ap refused e)

less_out :
    (q : Mpmcq) (p : ℕ) (spurious : Bool)
    → q.seq (cell q p) < 2 ^ 63
    → p + 1 ≤ 2 ^ 63
    → (access spurious q (deq_look p)).1 ≡ deq_returned none
    → q.seq (cell q p) < p + 1
unfolding access refused
less_out q p spurious small fits e =
    let next : size_t (p + 1) ≡ p + 1 = omega arith in
    subst (λ z. q.seq (cell q p) < z) next
      (by_dif_all (λ pc. refused pc ≡ true → q.seq (cell q p) < size_t (p + 1)) (q.seq (cell q p))
        (size_t (p + 1)) (deq_swap p) (deq_returned none) deq_start small (omega arith)
        (λ same h. cc) (λ less h. less) (λ h. cc) (ap refused e))

-- Where the look of a mpmc_enqueue makes it return 0, whatever the other threads have done since it read enqueue_pos, the place that it
-- has read is the next one still, and the queue is full or a thread is between claiming and giving back, in mpmc_dequeue, the
-- place one round before.
pub Reach-full :
    (k : ℕ) (s : State)
    → Reach k s
    → (t x p : ℕ) (spurious : Bool) → s.pc t ≡ enq_look x p
    → (go spurious t s).pc t ≡ enq_returned false
    → (p ≡ length s.claimed)
      × ((length s.claimed ≡ s.queue.dequeue_pos + 2 ^ k)
          ⊎ ((r : ℕ) × (r + 2 ^ k ≡ p) × Somebody claims_out s.pc r))
Reach-full k s reached t x p spurious e refuses =
    let inv = Reach-Inv k s reached in
    let held = Reach-Held k s reached in
    let sh = inv.shared in
    let fine : p ≤ length s.claimed = subst (Fine k s.queue s.claimed) e (inv.fine t) in
    let here = ap s.queue.seq (cell-mod sh p) in
    let less =
      less_in s.queue x p spurious (omega (arith, here, sh.bounded p)) (omega (arith, sh.few))
        (sym (goes_to s t spurious (enq_look x p) e) ∙ refuses) in
    elim (dec_lt p (length s.claimed)) [
      | yes put ↦ absurd (omega (arith, put_seq sh p put, here))
      | no last ↦
          let same : length s.claimed ≡ p = omega arith in
          (
            sym same,
            elim (dec_lt p (s.queue.dequeue_pos + 2 ^ k)) [
              | no full ↦ inl (omega (arith, sh.room))
              | yes room ↦ inr (
                  held.leaving p (omega arith) room
                    (ground (arith, sh.free p (omega arith) room, here, less)))
            ],
          )
    ]

-- Where the look of a mpmc_dequeue makes it return 0, whatever the other threads have done since it read dequeue_pos, the place that it
-- has read is the next one still, and the queue is empty or a thread is between claiming and handing over, in mpmc_enqueue,
-- that place.
pub Reach-empty :
    (k : ℕ) (s : State)
    → Reach k s
    → (t p : ℕ) (spurious : Bool) → s.pc t ≡ deq_look p
    → (go spurious t s).pc t ≡ deq_returned none
    → (p ≡ s.queue.dequeue_pos)
      × ((length s.claimed ≡ s.queue.dequeue_pos) ⊎ Somebody claims_in s.pc p)
Reach-empty k s reached t p spurious e refuses =
    let inv = Reach-Inv k s reached in
    let held = Reach-Held k s reached in
    let sh = inv.shared in
    let fine : p ≤ s.queue.dequeue_pos = subst (Fine k s.queue s.claimed) e (inv.fine t) in
    let here = ap s.queue.seq (cell-mod sh p) in
    let less =
      less_out s.queue p spurious (omega (arith, here, sh.bounded p))
        (omega (arith, sh.few, sh.order, sh.size))
        (sym (goes_to s t spurious (deq_look p) e) ∙ refuses) in
    elim (dec_lt p s.queue.dequeue_pos) [
      | yes taken ↦ absurd (omega (arith, past_seq sh p taken, here))
      | no next ↦ elim (dec_lt p (length s.claimed)) [
        | yes put ↦ (
          omega arith,
          inr (
              held.writing p (omega arith) put
                (ground (arith, sh.used p (omega arith) put, here, less))),
        )
        | no none_left ↦ (omega arith, inl (omega (arith, sh.order)))
      ]
    ]
