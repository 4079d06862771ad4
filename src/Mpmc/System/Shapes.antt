-- ===== src/Mpmc/System/Shapes.antt =====
-- The accesses of src/shared/mpmc_queue.c with positions that do not wrap and cells that are remainders
use rkt_io.Common.{
  ℕ, ◌+◌, ◌^◌, ◌≤◌, ◌<◌, ◌≡◌, refl, sym, ◌∙◌, subst, arith, Bool, true, false, not, ◌&&◌, ◌==◌,
  List, length, some,
}
use rkt_io.Mpmc.{Mpmcq, size_t, write}
use rkt_io.Mpmc.System.{
  Pc, enq_look, enq_swap, enq_write, enq_publish, enq_returned, deq_look, deq_swap, deq_read,
  deq_free, deq_returned, cell, access, exchange_in, exchange_out,
}
use rkt_io.Mpmc.System.Order.{Shared, cell-mod}
use rkt_io.Mpmc.System.Writes.{stored, numbered}

module _ {k : ℕ} {q : Mpmcq} {claimed : List ℕ} (sh : Shared k q claimed) (P : Mpmcq × Pc → Type 0)
    (spurious : Bool) where
  pub enq_write_shape :
      (x p : ℕ) → P (stored k q p x, enq_publish p) → P (access spurious q (enq_write x p))
  unfolding access
  enq_write_shape x p =
      subst (λ c. P (record q { data_ptr = write q.data_ptr c x }, enq_publish p))
        (sym (cell-mod sh p))

  renumbered :
      (p v w : ℕ) (after : Pc)
      → v ≡ w
      → P (numbered k q p v, after)
      → P (record q { seq = write q.seq (cell q p) w }, after)
  renumbered p v w after e now =
      subst (λ u. P (record q { seq = write q.seq (cell q p) u }, after)) e
        (subst (λ c. P (record q { seq = write q.seq c v }, after)) (sym (cell-mod sh p)) now)

  pub enq_publish_shape :
      (p : ℕ)
      → p < length claimed
      → P (numbered k q p (p + 1), enq_returned true)
      → P (access spurious q (enq_publish p))
  unfolding access
  enq_publish_shape p below =
      renumbered p (p + 1) (size_t (p + 1)) (enq_returned true) (omega (arith, sh.few))

  pub deq_free_shape :
      (p v : ℕ)
      → p < q.dequeue_pos
      → P (numbered k q p (p + 2 ^ k), deq_returned (some v))
      → P (access spurious q (deq_free p v))
  unfolding access
  deq_free_shape p v before =
      renumbered p (p + 2 ^ k) (size_t (p + q.buffer_mask + 1)) (deq_returned (some v))
        (omega (arith, sh.mask, sh.size, sh.order, sh.few))

  exchange_in_shape :
      (x p : ℕ) (b : Bool)
      → (b ≡ true → q.enqueue_pos ≡ p)
      → length claimed + 2 ^ k + 1 ≤ 2 ^ 63
      → P (q, enq_look x p)
      → (p ≡ length claimed → P (record q { enqueue_pos = length claimed + 1 }, enq_write x p))
      → P (exchange_in b q x p)
  exchange_in_shape x p false here few fails swaps = fails
  exchange_in_shape x p true here few fails swaps =
      let e : p ≡ length claimed = sym (here refl) ∙ sh.tail in
      let next : length claimed + 1 ≡ size_t (p + 1) = omega (arith, e) in
      subst (λ z. P (record q { enqueue_pos = z }, enq_write x p)) next (swaps e)

  pub enq_swap_shape :
      (x p : ℕ)
      → length claimed + 2 ^ k + 1 ≤ 2 ^ 63
      → P (q, enq_look x p)
      → (p ≡ length claimed → P (record q { enqueue_pos = length claimed + 1 }, enq_write x p))
      → P (access spurious q (enq_swap x p))
  unfolding access
  enq_swap_shape x p = exchange_in_shape x p (q.enqueue_pos == p && not spurious) (ground arith)

  exchange_out_shape :
      (p : ℕ) (b : Bool)
      → (b ≡ true → q.dequeue_pos ≡ p)
      → P (q, deq_look p)
      → (q.dequeue_pos ≡ p → P (record q { dequeue_pos = q.dequeue_pos + 1 }, deq_read p))
      → P (exchange_out b q p)
  exchange_out_shape p false here fails swaps = fails
  exchange_out_shape p true here fails swaps =
      let next : q.dequeue_pos + 1 ≡ size_t (p + 1) =
        omega (arith, here refl, sh.order, sh.few, sh.size) in
      subst (λ z. P (record q { dequeue_pos = z }, deq_read p)) next (swaps (here refl))

  pub deq_swap_shape :
      (p : ℕ)
      → P (q, deq_look p)
      → (q.dequeue_pos ≡ p → P (record q { dequeue_pos = q.dequeue_pos + 1 }, deq_read p))
      → P (access spurious q (deq_swap p))
  unfolding access
  deq_swap_shape p = exchange_out_shape p (q.dequeue_pos == p && not spurious) (ground arith)
