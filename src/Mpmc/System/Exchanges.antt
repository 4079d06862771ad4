-- ===== src/Mpmc/System/Exchanges.antt =====
-- The exchanges of src/shared/mpmc_queue.c that succeed
use rkt_io.Common.{
  ℕ, ◌+◌, ◌^◌, ◌≤◌, ◌<◌, ◌≡◌, sym, ◌∙◌, subst, arith, List, [], ◌∷◌, ◌++◌, length, some, some_inj,
}
use rkt_io.Mpmc.{Mpmcq}
use rkt_io.Mpmc.System.{
  Pc, enq_swap, enq_write, enq_publish, deq_swap, deq_read, deq_free, State, settle,
}
use rkt_io.Mpmc.System.Order.{Fine, claims_in, claims_out}
use rkt_io.Mpmc.System.Claims.{
  claim-Shared, claim_own, claim-Fine, taken-Shared, taken_own, taken-Fine,
}
use rkt_io.Mpmc.System.Inv.{Inv, NotIn, later-AllGiven, taken-AllGiven, NotIn-AllGiven, moved-Inv}

below_claimed :
    (k : ℕ) (q : Mpmcq) (claimed : List ℕ) (pc : Pc) (p : ℕ)
    → Fine k q claimed pc
    → claims_in pc ≡ some p
    → p < length claimed
below_claimed k q claimed (enq_write x r) p fine e =
    let same : r ≡ p = some_inj e in omega (arith, same, fine.1)
below_claimed k q claimed (enq_publish r) p fine e =
    let same : r ≡ p = some_inj e in omega (arith, same, fine.1)
below_claimed k q claimed pc p fine e = cc

below_taken :
    (k : ℕ) (q : Mpmcq) (claimed : List ℕ) (pc : Pc) (p : ℕ)
    → Fine k q claimed pc
    → claims_out pc ≡ some p
    → p < q.dequeue_pos
below_taken k q claimed (deq_read r) p fine e =
    let same : r ≡ p = some_inj e in omega (arith, same, fine.0)
below_taken k q claimed (deq_free r v) p fine e =
    let same : r ≡ p = some_inj e in omega (arith, same, fine.0)
below_taken k q claimed pc p fine e = cc

module _ {k : ℕ} (s : State) (inv : Inv k s) (t : ℕ) where
  pub claimed-Inv :
      (x p : ℕ)
      → length s.claimed + 2 ^ k + 1 ≤ 2 ^ 63
      → Fine k s.queue s.claimed (enq_swap x p)
      → p ≡ length s.claimed
      → Inv k (
          settle s t
            (enq_swap x p)
            (record s.queue { enqueue_pos = length s.claimed + 1 }, enq_write x p))
  claimed-Inv x p few fine e =
      let sh = inv.shared in
      let swaps = subst (λ z. Fine k s.queue s.claimed (enq_swap x z)) e fine in
      let own = claim_own sh x swaps few in
      moved-Inv s t (enq_write x p) (record s.queue { enqueue_pos = length s.claimed + 1 })
        (s.claimed ++ (x ∷ [])) s.given inv (claim-Shared sh x swaps few)
        (subst
          (λ z.
            Fine k (record s.queue { enqueue_pos = length s.claimed + 1 }) (s.claimed ++ (x ∷ []))
              (enq_write x z))
          (sym e) own)
        (λ u other. claim-Fine sh x swaps few (s.pc u) (inv.fine u))
        (λ r same u other taken.
          let here : p ≡ r = some_inj same in
          absurd (
            omega
              (arith, here, e, below_claimed k s.queue s.claimed (s.pc u) r (inv.fine u) taken)))
        (λ r same. cc) (λ r same. cc) (λ u other r same. inv.not_given u r same)
        (later-AllGiven s.queue.dequeue_pos s.queue.dequeue_pos s.claimed (x ∷ []) s.given sh.order
          (omega arith) inv.all_given)

  pub taken-Inv :
      (p : ℕ)
      → Fine k s.queue s.claimed (deq_swap p)
      → s.queue.dequeue_pos ≡ p
      → Inv k (
          settle s t
            (deq_swap p)
            (record s.queue { dequeue_pos = s.queue.dequeue_pos + 1 }, deq_read p))
  taken-Inv p fine e =
      let sh = inv.shared in
      let swaps = subst (λ z. Fine k s.queue s.claimed (deq_swap z)) (sym e) fine in
      moved-Inv s t (deq_read p) (record s.queue { dequeue_pos = s.queue.dequeue_pos + 1 })
        s.claimed s.given inv (taken-Shared sh swaps)
        (subst
          (λ z.
            Fine k (record s.queue { dequeue_pos = s.queue.dequeue_pos + 1 }) s.claimed
              (deq_read z))
          e (taken_own sh swaps))
        (λ u other. taken-Fine sh swaps (s.pc u) (inv.fine u)) (λ r same. cc)
        (λ r same u other taken.
          let here : p ≡ r = some_inj same in
          absurd
            (omega (arith, here, e, below_taken k s.queue s.claimed (s.pc u) r (inv.fine u) taken)))
        (λ r same.
          subst (λ z. NotIn z s.given) (e ∙ some_inj same)
            (NotIn-AllGiven s.queue.dequeue_pos s.claimed s.given inv.all_given))
        (λ u other r same. inv.not_given u r same)
        (taken-AllGiven s.queue.dequeue_pos (s.queue.dequeue_pos + 1) s.claimed s.given
          (omega arith) inv.all_given)
