-- ===== src/Mpmc/System/Held.antt =====
-- Each access of src/shared/mpmc_queue.c and the holders of the places
use rkt_io.Common.{
  ℕ, ◌+◌, ◌%◌, ◌^◌, ◌≤◌, ◌≡◌, ◌≢◌, inl, refl, sym, ap, ◌∙◌, arith, Bool, true, false, dec_lt,
  ℕ_discrete, [], ◌∷◌, ◌++◌, length, length-append, some, none, some_inj,
}
use rkt_io.Mpmc.{size_t}
use rkt_io.Mpmc.System.{
  Pc, idle, enq_start, enq_look, enq_swap, enq_write, enq_publish, enq_returned, deq_start,
  deq_look, deq_swap, deq_read, deq_free, deq_returned, cell, access, at_rest, update, State,
  settle, go, Step, enqueues, dequeues, goes,
}
use rkt_io.Mpmc.System.Order.{Fine, claims_in, claims_out, apart, apart_round}
use rkt_io.Mpmc.System.Writes.{numbered}
use rkt_io.Mpmc.System.Inv.{Inv}
use rkt_io.Mpmc.System.Looks.{by_dif_any}
use rkt_io.Mpmc.System.Shapes.{
  enq_write_shape, enq_publish_shape, deq_free_shape, enq_swap_shape, deq_swap_shape,
}
use rkt_io.Mpmc.System.Somebody.{Held, stays, others, moved-Held, quiet-Held}
use native.Mathlib.Nat.{add-mod_right}

module _ {k : ℕ} (s : State) (inv : Inv k s) (held : Held k s) (t : ℕ) where
  -- A step of a thread that claims the same before and after it
  same-Held :
      (before after : Pc)
      → s.pc t ≡ before
      → claims_in before ≡ claims_in after
      → claims_out before ≡ claims_out after
      → Held k (record s { pc = update s.pc t after })
  same-Held before after e same_in same_out =
      quiet-Held s held t after (ap claims_in e ∙ same_in) (ap claims_out e ∙ same_out)

  claimed-Held :
      (x p : ℕ)
      → s.pc t ≡ enq_swap x p
      → p ≡ length s.claimed
      → Held k (
          settle s t
            (enq_swap x p)
            (record s.queue { enqueue_pos = length s.claimed + 1 }, enq_write x p))
  claimed-Held x p e last =
      let more = length-append s.claimed (x ∷ []) in
      moved-Held s t (enq_write x p) (record s.queue { enqueue_pos = length s.claimed + 1 })
        (s.claimed ++ (x ∷ [])) s.given
        (λ r from below number. elim (dec_lt r (length s.claimed)) [
          | yes old ↦
              others claims_in s.pc t (enq_write x p) r (λ h. cc) (held.writing r from old number)
          | no new ↦ inl (ap some (omega (arith, more, last)))
        ])
        (λ r before out.
          stays claims_out s.pc t (enq_write x p) r (ap claims_out e) (held.reading r before out))
        (λ r from below number.
          let (b, round, who) = held.leaving r (omega (arith, more)) below number in
          (b, round, stays claims_out s.pc t (enq_write x p) b (ap claims_out e) who))

  published-Held :
      (p : ℕ)
      → s.pc t ≡ enq_publish p
      → Fine k s.queue s.claimed (enq_publish p)
      → Held k (settle s t (enq_publish p) (numbered k s.queue p (p + 1), enq_returned true))
  published-Held p e fine =
      let sh = inv.shared in
      moved-Held s t (enq_returned true) (numbered k s.queue p (p + 1)) s.claimed s.given
        (λ r from below number.
          let differ : p ≢ r = ground (arith, number) in
          let other =
            apart k r p (λ h. differ (sym h)) (omega (arith, sh.room)) (omega (arith, sh.room)) in
          others claims_in s.pc t (enq_returned true) r
            (λ h. differ (some_inj (sym (ap claims_in e) ∙ h)))
            (held.writing r from below (ground (arith, number, other))))
        (λ r before out.
          stays claims_out s.pc t (enq_returned true) r (ap claims_out e)
            (held.reading r before out))
        (λ r from below number.
          let other =
            apart k r p (omega (arith, fine.1)) (omega (arith, fine.0)) (omega (arith, fine.1)) in
          let (b, round, who) = held.leaving r from below (ground (arith, number, other)) in
          (b, round, stays claims_out s.pc t (enq_returned true) b (ap claims_out e) who))

  taken-Held :
      (p : ℕ)
      → s.pc t ≡ deq_swap p
      → s.queue.dequeue_pos ≡ p
      → Held k (
          settle s t
            (deq_swap p)
            (record s.queue { dequeue_pos = s.queue.dequeue_pos + 1 }, deq_read p))
  taken-Held p e here =
      moved-Held s t (deq_read p) (record s.queue { dequeue_pos = s.queue.dequeue_pos + 1 })
        s.claimed s.given
        (λ r from below number.
          stays claims_in s.pc t (deq_read p) r (ap claims_in e)
            (held.writing r (omega arith) below number))
        (λ r before out. elim (dec_lt r s.queue.dequeue_pos) [
          | yes old ↦ others claims_out s.pc t (deq_read p) r (λ h. cc) (held.reading r old out)
          | no new ↦ inl (ap some (omega (arith, here)))
        ])
        (λ r from below number. elim (dec_lt r (s.queue.dequeue_pos + 2 ^ k)) [
          | yes old ↦
              let (b, round, who) = held.leaving r from old number in
              (b, round, others claims_out s.pc t (deq_read p) b (λ h. cc) who)
          | no new ↦ (p, omega (arith, here), inl refl)
        ])

  freed-Held :
      (p v : ℕ)
      → s.pc t ≡ deq_free p v
      → Fine k s.queue s.claimed (deq_free p v)
      → Held k (settle s t (deq_free p v) (numbered k s.queue p (p + 2 ^ k), deq_returned (some v)))
  freed-Held p v e fine =
      let sh = inv.shared in
      moved-Held s t (deq_returned (some v)) (numbered k s.queue p (p + 2 ^ k)) s.claimed
        ((p, v) ∷ s.given)
        (λ r from below number.
          let other =
            apart k r p (omega (arith, fine.0)) (omega (arith, fine.1)) (omega (arith, fine.0)) in
          stays claims_in s.pc t (deq_returned (some v)) r (ap claims_in e)
            (held.writing r from below (ground (arith, number, other))))
        (λ r before out.
          others claims_out s.pc t (deq_returned (some v)) r
            (λ h. out.0 (some_inj (sym h ∙ ap claims_out e))) (held.reading r before out.1))
        (λ r from below number. elim (ℕ_discrete r (p + 2 ^ k)) [
          | yes round ↦
              let same : r % 2 ^ k ≡ p % 2 ^ k =
                ap (λ z. z % 2 ^ k) round ∙ add-mod_right p (2 ^ k) in
              absurd (ground (arith, number, same, sh.size))
          | no differ ↦
              let other =
                apart_round k p r (λ h. differ (sym h)) (omega (arith, fine.0))
                  (omega (arith, fine.0, sh.order)) in
              let (b, round, who) = held.leaving r from below (ground (arith, number, other)) in
              (
                b,
                round,
                others claims_out s.pc t (deq_returned (some v)) b
                    (λ h.
                      differ (sym round ∙ ap (λ z. z + 2 ^ k) (some_inj (sym h ∙ ap claims_out e))))
                    who,
              )
        ])

  settle-Held :
      (spurious : Bool) (pc : Pc)
      → length s.claimed + 2 ^ k + 1 ≤ 2 ^ 63
      → s.pc t ≡ pc
      → Fine k s.queue s.claimed pc
      → Held k (settle s t pc (access spurious s.queue pc))
  unfolding access
  settle-Held spurious idle few e fine = same-Held idle idle e refl refl
  settle-Held spurious (enq_start x) few e fine =
      same-Held (enq_start x) (enq_look x s.queue.enqueue_pos) e refl refl
  settle-Held spurious (enq_look x p) few e fine =
      by_dif_any (λ pc. Held k (settle s t (enq_look x p) (s.queue, pc)))
        (s.queue.seq (cell s.queue p)) p (enq_swap x p) (enq_returned false) (enq_start x)
        (same-Held (enq_look x p) (enq_swap x p) e refl refl)
        (same-Held (enq_look x p) (enq_returned false) e refl refl)
        (same-Held (enq_look x p) (enq_start x) e refl refl)
  settle-Held spurious (enq_swap x p) few e fine =
      enq_swap_shape inv.shared (λ m. Held k (settle s t (enq_swap x p) m)) spurious x p few
        (same-Held (enq_swap x p) (enq_look x p) e refl refl) (claimed-Held x p e)
  settle-Held spurious (enq_write x p) few e fine =
      let still = same-Held (enq_write x p) (enq_publish p) e refl refl in
      enq_write_shape inv.shared (λ m. Held k (settle s t (enq_write x p) m)) spurious x p
        (record { writing = still.writing; reading = still.reading; leaving = still.leaving })
  settle-Held spurious (enq_publish p) few e fine =
      enq_publish_shape inv.shared (λ m. Held k (settle s t (enq_publish p) m)) spurious p fine.1
        (published-Held p e fine)
  settle-Held spurious (enq_returned r) few e fine =
      same-Held (enq_returned r) (enq_returned r) e refl refl
  settle-Held spurious deq_start few e fine =
      same-Held deq_start (deq_look s.queue.dequeue_pos) e refl refl
  settle-Held spurious (deq_look p) few e fine =
      by_dif_any (λ pc. Held k (settle s t (deq_look p) (s.queue, pc)))
        (s.queue.seq (cell s.queue p)) (size_t (p + 1)) (deq_swap p) (deq_returned none) deq_start
        (same-Held (deq_look p) (deq_swap p) e refl refl)
        (same-Held (deq_look p) (deq_returned none) e refl refl)
        (same-Held (deq_look p) deq_start e refl refl)
  settle-Held spurious (deq_swap p) few e fine =
      deq_swap_shape inv.shared (λ m. Held k (settle s t (deq_swap p) m)) spurious p
        (same-Held (deq_swap p) (deq_look p) e refl refl) (taken-Held p e)
  settle-Held spurious (deq_read p) few e fine =
      same-Held (deq_read p) (deq_free p (s.queue.data_ptr (cell s.queue p))) e refl refl
  settle-Held spurious (deq_free p v) few e fine =
      deq_free_shape inv.shared (λ m. Held k (settle s t (deq_free p v) m)) spurious p v fine.0
        (freed-Held p v e fine)
  settle-Held spurious (deq_returned r) few e fine =
      same-Held (deq_returned r) (deq_returned r) e refl refl

rest_none : (pc : Pc) → at_rest pc ≡ true → (claims_in pc ≡ none) × (claims_out pc ≡ none)
rest_none idle rest = (refl, refl)
rest_none (enq_returned r) rest = (refl, refl)
rest_none (deq_returned r) rest = (refl, refl)
rest_none pc rest = cc

-- Every step keeps the holders.
pub Step-Held : (k : ℕ) (s r : State) → Step k s r → Inv k s → Held k s → Held k r
unfolding go access
Step-Held k s r (enqueues t x rest) inv held =
    let (no_in, no_out) = rest_none (s.pc t) rest in quiet-Held s held t (enq_start x) no_in no_out
Step-Held k s r (dequeues t rest) inv held =
    let (no_in, no_out) = rest_none (s.pc t) rest in quiet-Held s held t deq_start no_in no_out
Step-Held k s r (goes spurious t few) inv held =
    settle-Held s inv held t spurious (s.pc t) few refl (inv.fine t)
