-- ===== src/Mpmc/System/Somebody.antt =====
-- For each place of src/shared/mpmc_queue.c that is claimed and not handed on: the thread that holds it
use rkt_io.Common.{
  ℕ, ◌+◌, ◌%◌, ◌^◌, ◌≤◌, ◌<◌, ◌≡◌, ◌≢◌, ◌⊎◌, inl, inr, sym, ap, ◌∙◌, ℕ_discrete, List, length,
  Option, some,
}
use rkt_io.Mpmc.{Mpmcq}
use rkt_io.Mpmc.System.{Pc, State, update}
use rkt_io.Mpmc.System.Order.{claims_in, claims_out}
use rkt_io.Mpmc.System.Inv.{NotIn, update_own, update_other}

abbrev pub Somebody : (Pc → Option ℕ) → (ℕ → Pc) → ℕ → Type 0
Somebody claim pc p = (u : ℕ) × (claim (pc u) ≡ some p)

-- A cell with the number of a place that is claimed is still written, a place that was taken is given out or still read, and so is
-- the cell of a place to come whose number has not come round.
pub record Held (k : ℕ) (s : State) : Type 0 where
  pub writing :
      (p : ℕ)
      → s.queue.dequeue_pos ≤ p
      → p < length s.claimed
      → s.queue.seq (p % 2 ^ k) ≡ p
      → Somebody claims_in s.pc p
  pub reading : (p : ℕ) → p < s.queue.dequeue_pos → NotIn p s.given → Somebody claims_out s.pc p
  pub leaving :
      (r : ℕ)
      → length s.claimed ≤ r
      → r < s.queue.dequeue_pos + 2 ^ k
      → s.queue.seq (r % 2 ^ k) + 2 ^ k ≡ r + 1
      → (p : ℕ) × (p + 2 ^ k ≡ r) × Somebody claims_out s.pc p

-- A holder after thread `t` has moved: itself, or another
abbrev pub After : (Pc → Option ℕ) → (ℕ → Pc) → ℕ → Pc → ℕ → Type 0
After claim pc t after p = (claim after ≡ some p) ⊎ ((u : ℕ) × (u ≢ t) × (claim (pc u) ≡ some p))

pub stays :
    (claim : Pc → Option ℕ) (pc : ℕ → Pc) (t : ℕ) (after : Pc) (p : ℕ)
    → claim (pc t) ≡ claim after
    → Somebody claim pc p
    → After claim pc t after p
stays claim pc t after p same (u, holds) = elim (ℕ_discrete u t) [
  | yes e ↦ inl (sym same ∙ sym (ap claim (ap pc e)) ∙ holds)
  | no other ↦ inr (u, other, holds)
]

pub others :
    (claim : Pc → Option ℕ) (pc : ℕ → Pc) (t : ℕ) (after : Pc) (p : ℕ)
    → claim (pc t) ≢ some p
    → Somebody claim pc p
    → After claim pc t after p
others claim pc t after p away (u, holds) =
    inr (u, (λ e. away (sym (ap claim (ap pc e)) ∙ holds)), holds)

somebody :
    (claim : Pc → Option ℕ) (pc : ℕ → Pc) (t : ℕ) (after : Pc) (p : ℕ)
    → After claim pc t after p
    → Somebody claim (update pc t after) p
somebody claim pc t after p (inl own) = (t, ap claim (update_own pc t after) ∙ own)
somebody claim pc t after p (inr (u, other, holds)) =
    (u, ap claim (update_other pc t after u other) ∙ holds)

pub moved-Held :
    {k : ℕ} (s : State) (t : ℕ) (after : Pc) (q : Mpmcq) (claimed : List ℕ) (given : List (ℕ × ℕ))
    → ((p : ℕ)
        → q.dequeue_pos ≤ p
        → p < length claimed
        → q.seq (p % 2 ^ k) ≡ p
        → After claims_in s.pc t after p)
    → ((p : ℕ) → p < q.dequeue_pos → NotIn p given → After claims_out s.pc t after p)
    → ((r : ℕ)
        → length claimed ≤ r
        → r < q.dequeue_pos + 2 ^ k
        → q.seq (r % 2 ^ k) + 2 ^ k ≡ r + 1
        → (p : ℕ) × (p + 2 ^ k ≡ r) × After claims_out s.pc t after p)
    → Held k (record { queue = q; pc = update s.pc t after; claimed = claimed; given = given })
moved-Held {k} s t after q claimed given w r l = record {
  writing = λ p from below number. somebody claims_in s.pc t after p (w p from below number);
  reading = λ p before out. somebody claims_out s.pc t after p (r p before out);
  leaving = λ r from below number.
      let (p, round, who) = l r from below number in
      (p, round, somebody claims_out s.pc t after p who);
}

-- A step that leaves queue and claims alone
pub quiet-Held :
    {k : ℕ} (s : State) (held : Held k s) (t : ℕ) (after : Pc)
    → claims_in (s.pc t) ≡ claims_in after
    → claims_out (s.pc t) ≡ claims_out after
    → Held k (record s { pc = update s.pc t after })
quiet-Held s held t after same_in same_out =
    moved-Held s t after s.queue s.claimed s.given
      (λ p from below number.
        stays claims_in s.pc t after p same_in (held.writing p from below number))
      (λ p before out. stays claims_out s.pc t after p same_out (held.reading p before out))
      (λ r from below number.
        let (p, round, who) = held.leaving r from below number in
        (p, round, stays claims_out s.pc t after p same_out who))
