-- ===== src/Mpmc/System/Looks.antt =====
-- The accesses of src/shared/mpmc_queue.c that only load
use rkt_io.Common.{
  ℕ, ◌+◌, ◌-◌, ◌^◌, ◌≤◌, ◌<◌, ◌≡◌, refl, sym, ap, ◌∙◌, arith, false, leb, ◌==◌, Bool-cases, inl,
  inr, none,
}
use rkt_io.Mpmc.{size_t}
use rkt_io.Mpmc.System.{
  Pc, enq_start, enq_look, enq_swap, enq_returned, deq_start, deq_look, deq_swap, deq_returned,
  cell, by_dif, access, update, State, settle,
}
use rkt_io.Mpmc.System.Order.{Fine, claims_in, claims_out, cell-mod}
use rkt_io.Mpmc.System.Inv.{Inv, moved-Inv}

-- The three outcomes of a look at a cell
pub by_dif_all :
    (P : Pc → Type 0) (seq wanted : ℕ) (same less more : Pc)
    → seq < 2 ^ 63
    → wanted ≤ 2 ^ 63
    → (seq ≡ wanted → P same)
    → (seq < wanted → P less)
    → P more
    → P (by_dif seq wanted same less more)
by_dif_all P seq wanted same less more small fits p l m =
    elim (Bool-cases (size_t (seq + 2 ^ 64 - wanted) == 0)) [
      | inl e ↦ rw e (p (ground (arith, e)))
      | inr e ↦ elim (Bool-cases (leb (2 ^ 63) (size_t (seq + 2 ^ 64 - wanted)))) [
        | inl f ↦ rw (e, f) (l (ground (arith, e, f)))
        | inr f ↦ rw (e, f) m
      ]
    ]

pub by_dif_any :
    (P : Pc → Type 0) (seq wanted : ℕ) (same less more : Pc)
    → P same
    → P less
    → P more
    → P (by_dif seq wanted same less more)
by_dif_any P seq wanted same less more p l m =
    elim (Bool-cases (size_t (seq + 2 ^ 64 - wanted) == 0)) [
      | inl e ↦ rw e p
      | inr e ↦ elim (Bool-cases (leb (2 ^ 63) (size_t (seq + 2 ^ 64 - wanted)))) [
        | inl f ↦ rw (e, f) l
        | inr f ↦ rw (e, f) m
      ]
    ]

module _ {k : ℕ} (s : State) (inv : Inv k s) (t : ℕ) where
  -- A thread that has only looked, or goes in or out
  pub quiet-Inv :
      (after : Pc)
      → Fine k s.queue s.claimed after
      → claims_in after ≡ none
      → claims_out after ≡ none
      → Inv k (record s { pc = update s.pc t after })
  quiet-Inv after fine not_in not_out =
      moved-Inv s t after s.queue s.claimed s.given inv inv.shared fine (λ u other. inv.fine u)
        (λ p e. cc) (λ p e. cc) (λ p e. cc) (λ u other p e. inv.not_given u p e) inv.all_given

  pub enq_look-Inv :
      (x p : ℕ)
      → Fine k s.queue s.claimed (enq_look x p)
      → Inv k (settle s t (enq_look x p) (access false s.queue (enq_look x p)))
  unfolding access
  enq_look-Inv x p fine =
      let sh = inv.shared in
      let here = cell-mod sh p in
      let small = sh.bounded p in
      by_dif_all (λ pc. Inv k (settle s t (enq_look x p) (s.queue, pc)))
        (s.queue.seq (cell s.queue p)) p (enq_swap x p) (enq_returned false) (enq_start x)
        (rw here (omega arith)) (omega (arith, sh.few))
        (λ e.
          quiet-Inv (enq_swap x p) (fine, omega (arith, sym (ap s.queue.seq here) ∙ e)) refl refl)
        (λ less. quiet-Inv (enq_returned false) _ refl refl) (quiet-Inv (enq_start x) _ refl refl)

  pub deq_look-Inv :
      (p : ℕ)
      → Fine k s.queue s.claimed (deq_look p)
      → Inv k (settle s t (deq_look p) (access false s.queue (deq_look p)))
  unfolding access
  deq_look-Inv p fine =
      let sh = inv.shared in
      let here = cell-mod sh p in
      let small = sh.bounded p in
      let next : size_t (p + 1) ≡ p + 1 = omega (arith, fine, sh.order, sh.few) in
      by_dif_all (λ pc. Inv k (settle s t (deq_look p) (s.queue, pc)))
        (s.queue.seq (cell s.queue p)) (size_t (p + 1)) (deq_swap p) (deq_returned none) deq_start
        (rw here (omega arith)) (omega arith)
        (λ e.
          quiet-Inv (deq_swap p) (fine, omega (arith, sym (ap s.queue.seq here) ∙ e, next)) refl
            refl)
        (λ less. quiet-Inv (deq_returned none) _ refl refl) (quiet-Inv deq_start _ refl refl)
