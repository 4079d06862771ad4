-- ===== src/Mpmc/System/Kept.antt =====
-- Each access of src/shared/mpmc_queue.c and the invariant of the threads at the queue
use rkt_io.Common.{
  ℕ, ◌+◌, ◌^◌, ◌≤◌, ◌≡◌, ◌≢◌, refl, ap, ◌∙◌, arith, Bool, true, ◌∷◌, length, get_or, some,
}
use rkt_io.Mpmc.System.{
  Pc, idle, enq_start, enq_look, enq_swap, enq_write, enq_publish, enq_returned, deq_start,
  deq_look, deq_swap, deq_read, deq_free, deq_returned, cell, access, State, settle, go, Step,
  enqueues, dequeues, goes,
}
use rkt_io.Mpmc.System.Order.{Fine, claims_in, claims_out, cell-mod}
use rkt_io.Mpmc.System.Writes.{
  stored, numbered, stored-Shared, stored_own, stored-Fine, published-Shared, published-Fine,
}
use rkt_io.Mpmc.System.Frees.{freed-Shared, freed-Fine}
use rkt_io.Mpmc.System.Inv.{Inv, moved-Inv}
use rkt_io.Mpmc.System.Looks.{quiet-Inv, enq_look-Inv, deq_look-Inv}
use rkt_io.Mpmc.System.Exchanges.{claimed-Inv, taken-Inv}
use rkt_io.Mpmc.System.Shapes.{
  enq_write_shape, enq_publish_shape, deq_free_shape, enq_swap_shape, deq_swap_shape,
}

module _ {k : ℕ} (s : State) (inv : Inv k s) (t : ℕ) where
  -- The own place of the thread is no other's.
  only_in :
      (pc : Pc) (p : ℕ)
      → s.pc t ≡ pc
      → claims_in pc ≡ some p
      → (u : ℕ) → u ≢ t
      → claims_in (s.pc u) ≢ some p
  only_in pc p e own u other = λ same. other (inv.one_in u t p same (ap claims_in e ∙ own))

  only_out :
      (pc : Pc) (p : ℕ)
      → s.pc t ≡ pc
      → claims_out pc ≡ some p
      → (u : ℕ) → u ≢ t
      → claims_out (s.pc u) ≢ some p
  only_out pc p e own u other = λ same. other (inv.one_out u t p same (ap claims_out e ∙ own))

  enq_write-Inv :
      (x p : ℕ)
      → s.pc t ≡ enq_write x p
      → Fine k s.queue s.claimed (enq_write x p)
      → Inv k (settle s t (enq_write x p) (stored k s.queue p x, enq_publish p))
  enq_write-Inv x p e fine =
      let sh = inv.shared in
      moved-Inv s t (enq_publish p) (stored k s.queue p x) s.claimed s.given inv
        (stored-Shared sh p x fine) (stored_own sh p x fine)
        (λ u other.
          stored-Fine sh p x fine (s.pc u) (only_in (enq_write x p) p e refl u other) (inv.fine u))
        (λ r same u other. only_in (enq_write x p) r e same u other) (λ r same. cc) (λ r same. cc)
        (λ u other r same. inv.not_given u r same) inv.all_given

  enq_publish-Inv :
      (p : ℕ)
      → s.pc t ≡ enq_publish p
      → Fine k s.queue s.claimed (enq_publish p)
      → Inv k (settle s t (enq_publish p) (numbered k s.queue p (p + 1), enq_returned true))
  enq_publish-Inv p e fine =
      let sh = inv.shared in
      moved-Inv s t (enq_returned true) (numbered k s.queue p (p + 1)) s.claimed s.given inv
        (published-Shared sh p fine) _
        (λ u other.
          published-Fine sh p fine (s.pc u) (only_in (enq_publish p) p e refl u other) (inv.fine u))
        (λ r same. cc) (λ r same. cc) (λ r same. cc) (λ u other r same. inv.not_given u r same)
        inv.all_given

  deq_read-Inv :
      (p v : ℕ)
      → s.pc t ≡ deq_read p
      → v ≡ get_or s.claimed p 0
      → Fine k s.queue s.claimed (deq_read p)
      → Inv k (settle s t (deq_read p) (s.queue, deq_free p v))
  deq_read-Inv p v e value fine =
      moved-Inv s t (deq_free p v) s.queue s.claimed s.given inv inv.shared
        (fine.0, fine.1, fine.2, value) (λ u other. inv.fine u) (λ r same. cc)
        (λ r same u other. only_out (deq_read p) r e same u other)
        (λ r same. inv.not_given t r (ap claims_out e ∙ same))
        (λ u other r same. inv.not_given u r same) inv.all_given

  deq_free-Inv :
      (p v : ℕ)
      → s.pc t ≡ deq_free p v
      → Fine k s.queue s.claimed (deq_free p v)
      → Inv k (settle s t (deq_free p v) (numbered k s.queue p (p + 2 ^ k), deq_returned (some v)))
  deq_free-Inv p v e fine =
      let sh = inv.shared in
      moved-Inv s t (deq_returned (some v)) (numbered k s.queue p (p + 2 ^ k)) s.claimed
        ((p, v) ∷ s.given) inv (freed-Shared sh p v fine) _
        (λ u other.
          freed-Fine sh p v fine (s.pc u) (only_out (deq_free p v) p e refl u other) (inv.fine u))
        (λ r same. cc) (λ r same. cc) (λ r same. cc)
        (λ u other r same. (
          λ here. only_out (deq_free p v) p e refl u other (same ∙ ap some here),
          inv.not_given u r same,
        ))
        (fine.0, fine.3, inv.not_given t p (ap claims_out e), inv.all_given)

  settle-Inv :
      (spurious : Bool) (pc : Pc)
      → length s.claimed + 2 ^ k + 1 ≤ 2 ^ 63
      → s.pc t ≡ pc
      → Fine k s.queue s.claimed pc
      → Inv k (settle s t pc (access spurious s.queue pc))
  unfolding access
  settle-Inv spurious idle few e fine = quiet-Inv s inv t idle _ refl refl
  settle-Inv spurious (enq_start x) few e fine =
      quiet-Inv s inv t (enq_look x s.queue.enqueue_pos) (omega (arith, inv.shared.tail)) refl refl
  settle-Inv spurious (enq_look x p) few e fine = enq_look-Inv s inv t x p fine
  settle-Inv spurious (enq_swap x p) few e fine =
      enq_swap_shape inv.shared (λ m. Inv k (settle s t (enq_swap x p) m)) spurious x p few
        (quiet-Inv s inv t (enq_look x p) fine.0 refl refl) (claimed-Inv s inv t x p few fine)
  settle-Inv spurious (enq_write x p) few e fine =
      enq_write_shape inv.shared (λ m. Inv k (settle s t (enq_write x p) m)) spurious x p
        (enq_write-Inv x p e fine)
  settle-Inv spurious (enq_publish p) few e fine =
      enq_publish_shape inv.shared (λ m. Inv k (settle s t (enq_publish p) m)) spurious p fine.1
        (enq_publish-Inv p e fine)
  settle-Inv spurious (enq_returned r) few e fine = quiet-Inv s inv t (enq_returned r) _ refl refl
  settle-Inv spurious deq_start few e fine =
      quiet-Inv s inv t (deq_look s.queue.dequeue_pos) (omega arith) refl refl
  settle-Inv spurious (deq_look p) few e fine = deq_look-Inv s inv t p fine
  settle-Inv spurious (deq_swap p) few e fine =
      deq_swap_shape inv.shared (λ m. Inv k (settle s t (deq_swap p) m)) spurious p
        (quiet-Inv s inv t (deq_look p) fine.0 refl refl) (taken-Inv s inv t p fine)
  settle-Inv spurious (deq_read p) few e fine =
      deq_read-Inv p (s.queue.data_ptr (cell s.queue p)) e
        (ap s.queue.data_ptr (cell-mod inv.shared p) ∙ fine.3) fine
  settle-Inv spurious (deq_free p v) few e fine =
      deq_free_shape inv.shared (λ m. Inv k (settle s t (deq_free p v) m)) spurious p v fine.0
        (deq_free-Inv p v e fine)
  settle-Inv spurious (deq_returned r) few e fine = quiet-Inv s inv t (deq_returned r) _ refl refl

-- Every step keeps the invariant.
pub Step-Inv : (k : ℕ) (s r : State) → Step k s r → Inv k s → Inv k r
unfolding go access
Step-Inv k s r (enqueues t x rest) inv = quiet-Inv s inv t (enq_start x) _ refl refl
Step-Inv k s r (dequeues t rest) inv = quiet-Inv s inv t deq_start _ refl refl
Step-Inv k s r (goes spurious t few) inv =
    settle-Inv s inv t spurious (s.pc t) few refl (inv.fine t)
