-- ===== src/Mpmc/System/SoloOut.antt =====
-- A mpmc_dequeue of src/shared/mpmc_queue.c from whatever other threads have left it with, where no other thread moves until it
-- returns and the exchange does not fail without a reason
use rkt_io.Common.{
  ℕ, ◌+◌, ◌^◌, ◌<◌, ◌≡◌, ◌⊎◌, inl, inr, refl, ap, ◌∙◌, arith, false, dec_lt, length, get_or, some,
  none,
}
use rkt_io.Mpmc.{Mpmcq, size_t, write}
use rkt_io.Mpmc.System.{
  deq_start, deq_look, deq_swap, deq_read, deq_free, deq_returned, cell, access, State, go,
}
use rkt_io.Mpmc.System.Order.{claims_in, cell-mod}
use rkt_io.Mpmc.System.Reached.{Reach, Reach-Inv, Reach-Held}
use rkt_io.Mpmc.System.Solo.{At, At-go, go5}
use rkt_io.Mpmc.System.Somebody.{Somebody}

module _ (t d : ℕ) (s : State) (start : At t s s.queue deq_start s.claimed)
    (head : s.queue.dequeue_pos ≡ d) (small : d + 1 < 2 ^ 63) where
  looks_out : At t (go false t s) s.queue (deq_look d) s.claimed
  unfolding access
  looks_out =
      At-go t s s.queue s.queue deq_start (deq_look d) s.claimed start
        (ap (λ z. (s.queue, deq_look z)) head)

  -- Where the cell is ready its value is taken.
  takes_out :
      s.queue.seq (cell s.queue d) ≡ d + 1
      → (q : Mpmcq) × (q.dequeue_pos ≡ d + 1)
        × At t (go5 t s) q (deq_returned (some (s.queue.data_ptr (cell s.queue d)))) s.claimed
  unfolding access
  takes_out ready =
      let q = s.queue in
      let v = q.data_ptr (cell q d) in
      let q1 = record q { dequeue_pos = size_t (d + 1) } in
      let q2 = record q1 { seq = write q.seq (cell q d) (size_t (d + q.buffer_mask + 1)) } in
      let swaps =
        At-go t _ q q (deq_look d) (deq_swap d) s.claimed looks_out (ground (arith, ready)) in
      let reads = At-go t _ q q1 (deq_swap d) (deq_read d) s.claimed swaps (ground (arith, head)) in
      let frees = At-go t _ q1 q1 (deq_read d) (deq_free d v) s.claimed reads refl in
      (q2, omega arith, At-go t _ q1 q2 (deq_free d v) (deq_returned (some v)) s.claimed frees refl)

  -- Where the number of the cell is less nothing is found.
  finds_none :
      s.queue.seq (cell s.queue d) < d + 1 → At t (go5 t s) s.queue (deq_returned none) s.claimed
  unfolding access
  finds_none less =
      let q = s.queue in
      let stay = λ (r : State) (h : At t r q (deq_returned none) s.claimed).
        At-go t r q q (deq_returned none) (deq_returned none) s.claimed h refl in
      stay _ (
        stay _ (
          stay _ (
            At-go t _ q q (deq_look d) (deq_returned none) s.claimed looks_out
              (ground (arith, less)))))

-- From whatever other threads have left the queue in, with fewer than 2^63 values put in: a mpmc_dequeue whose accesses follow one
-- another, with no spurious failure of the exchange, returns after five of them at most. Either it gives the value that was put in
-- at the place dequeue_pos, which goes on by one; or it returns 0, queue and values are as before, and the queue was
-- empty or a thread is between claiming and handing over, in mpmc_enqueue, that place.
pub Reach-dequeue_alone :
    (k : ℕ) (s : State)
    → Reach k s
    → (t : ℕ) → s.pc t ≡ deq_start
    → let s' = go5 t s in
      let d = s.queue.dequeue_pos in
      (s'.claimed ≡ s.claimed)
      × (((s'.pc t ≡ deq_returned (some (get_or s.claimed d 0)))
            × (d < length s.claimed)
            × (s'.queue.dequeue_pos ≡ d + 1))
          ⊎ ((s'.pc t ≡ deq_returned none)
              × (s'.queue ≡ s.queue)
              × ((length s.claimed ≡ d) ⊎ Somebody claims_in s.pc d)))
Reach-dequeue_alone k s reached t e =
    let sh = (Reach-Inv k s reached).shared in
    let d = s.queue.dequeue_pos in
    let start : At t s s.queue deq_start s.claimed = record {
      queue = refl;
      stands = e;
      values = refl;
    } in
    let small : d + 1 < 2 ^ 63 = omega (arith, sh.few, sh.size, sh.order) in
    let place = cell-mod sh d in
    let here = ap s.queue.seq place in
    let refuses : s.queue.seq (cell s.queue d) < d + 1
        → (length s.claimed ≡ d) ⊎ Somebody claims_in s.pc d
        → ((go5 t s).claimed ≡ s.claimed)
          × (((go5 t s).pc t ≡ deq_returned (some (get_or s.claimed d 0)))
                × (d < length s.claimed)
                × ((go5 t s).queue.dequeue_pos ≡ d + 1)
              ⊎ ((go5 t s).pc t ≡ deq_returned none)
                × ((go5 t s).queue ≡ s.queue)
                × ((length s.claimed ≡ d) ⊎ Somebody claims_in s.pc d)) =
      λ less why.
        let h = finds_none t d s start refl small less in
        (h.values, inr (h.stands, h.queue, why)) in
    elim (dec_lt d (length s.claimed)) [
      | no empty ↦
          refuses (ground (arith, here, sh.size, sh.free d (omega arith) (omega (arith, sh.size))))
            (inl (omega (arith, sh.order)))
      | yes some_left ↦ elim (sh.used d (omega arith) some_left) [
        | inl writing ↦
            refuses (omega (arith, here, writing))
              (inr ((Reach-Held k s reached).writing d (omega arith) some_left writing))
        | inr (ready, value) ↦
            let (q, on, h) = takes_out t d s start refl small (here ∙ ready) in
            (
              h.values,
              inl (
                h.stands ∙ ap (λ v. deq_returned (some v)) (ap s.queue.data_ptr place ∙ value),
                some_left,
                ap (λ z. z.dequeue_pos) h.queue ∙ on,
              ),
            )
      ]
    ]
