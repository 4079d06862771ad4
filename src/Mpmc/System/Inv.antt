-- ===== src/Mpmc/System/Inv.antt =====
-- The invariant of the threads at the queue of src/shared/mpmc_queue.c
use rkt_io.Common.{
  ℕ, ◌≤◌, ◌<◌, ◌≡◌, ◌≢◌, sym, ap, ◌∙◌, subst, arith, ℕ_discrete, List, [], ◌∷◌, ◌++◌, length,
  get_or, Option, some,
}
use rkt_io.Mpmc.{Mpmcq}
use rkt_io.Mpmc.Kept.{get_or-append_left}
use rkt_io.Mpmc.System.{Pc, State, update}
use rkt_io.Mpmc.System.Order.{Shared, Fine, claims_in, claims_out}

abbrev pub NotIn : ℕ → List (ℕ × ℕ) → Type 0
NotIn p [] = Unit {0}
NotIn p ((r, v) ∷ given) = (p ≢ r) × NotIn p given

-- Of each value given out: its place is before `d`, it is the value that was claimed for it, and the place occurs once.
abbrev pub AllGiven : ℕ → List ℕ → List (ℕ × ℕ) → Type 0
AllGiven d claimed [] = Unit {0}
AllGiven d claimed ((p, v) ∷ given) =
    (p < d) × (v ≡ get_or claimed p 0) × NotIn p given × AllGiven d claimed given

pub record Inv (k : ℕ) (s : State) : Type 0 where
  pub shared : Shared k s.queue s.claimed
  pub fine : (t : ℕ) → Fine k s.queue s.claimed (s.pc t)
  pub one_in : (t u p : ℕ) → claims_in (s.pc t) ≡ some p → claims_in (s.pc u) ≡ some p → t ≡ u
  pub one_out : (t u p : ℕ) → claims_out (s.pc t) ≡ some p → claims_out (s.pc u) ≡ some p → t ≡ u
  pub not_given : (t p : ℕ) → claims_out (s.pc t) ≡ some p → NotIn p s.given
  pub all_given : AllGiven s.queue.dequeue_pos s.claimed s.given

pub later-AllGiven :
    (d e : ℕ) (claimed more : List ℕ) (given : List (ℕ × ℕ))
    → d ≤ length claimed
    → d ≤ e
    → AllGiven d claimed given
    → AllGiven e (claimed ++ more) given
later-AllGiven d e claimed more [] order later all = _
later-AllGiven d e claimed more ((p, v) ∷ given) order later (before, value, once, all) = (
  omega arith,
  value ∙ sym (get_or-append_left claimed more p (omega arith)),
  once,
  later-AllGiven d e claimed more given order later all,
)

pub taken-AllGiven :
    (d e : ℕ) (claimed : List ℕ) (given : List (ℕ × ℕ))
    → d ≤ e
    → AllGiven d claimed given
    → AllGiven e claimed given
taken-AllGiven d e claimed [] later all = _
taken-AllGiven d e claimed ((p, v) ∷ given) later (before, value, once, all) =
    (omega arith, value, once, taken-AllGiven d e claimed given later all)

-- A place that is taken now was not given out.
pub NotIn-AllGiven :
    (d : ℕ) (claimed : List ℕ) (given : List (ℕ × ℕ)) → AllGiven d claimed given → NotIn d given
NotIn-AllGiven d claimed [] all = _
NotIn-AllGiven d claimed ((p, v) ∷ given) (before, value, once, all) =
    (omega arith, NotIn-AllGiven d claimed given all)

pub update_own : (f : ℕ → Pc) (t : ℕ) (pc : Pc) → update f t pc t ≡ pc
update_own f t pc = ground arith

pub update_other : (f : ℕ → Pc) (t : ℕ) (pc : Pc) (u : ℕ) → u ≢ t → update f t pc u ≡ f u
update_other f t pc u other = ground arith

-- A property of all threads, after one has moved
pub update_all :
    (P : ℕ → Pc → Type 0) (f : ℕ → Pc) (t : ℕ) (pc : Pc)
    → P t pc
    → ((u : ℕ) → u ≢ t → P u (f u))
    → (u : ℕ) → P u (update f t pc u)
update_all P f t pc own others u = elim (ℕ_discrete u t) [
  | yes e ↦ subst (λ z. P z (update f t pc z)) (sym e) (subst (P t) (sym (update_own f t pc)) own)
  | no other ↦ subst (P u) (sym (update_other f t pc u other)) (others u other)
]

-- One claim of a place, after one thread has moved
pub update_one :
    (claim : Pc → Option ℕ) (f : ℕ → Pc) (t : ℕ) (pc : Pc)
    → ((u v p : ℕ) → claim (f u) ≡ some p → claim (f v) ≡ some p → u ≡ v)
    → ((p : ℕ) → claim pc ≡ some p → (u : ℕ) → u ≢ t → claim (f u) ≢ some p)
    → (u v p : ℕ) → claim (update f t pc u) ≡ some p
    → claim (update f t pc v) ≡ some p
    → u ≡ v
update_one claim f t pc one new u v p = elim (ℕ_discrete u t) [
  | yes e ↦ elim (ℕ_discrete v t) [
    | yes g ↦ λ a b. e ∙ sym g
    | no other ↦ λ a b. absurd (
        new p (sym (ap claim (ap (update f t pc) e ∙ update_own f t pc)) ∙ a) v other
          (sym (ap claim (update_other f t pc v other)) ∙ b))
  ]
  | no this ↦ elim (ℕ_discrete v t) [
    | yes g ↦ λ a b. absurd (
        new p (sym (ap claim (ap (update f t pc) g ∙ update_own f t pc)) ∙ b) u this
          (sym (ap claim (update_other f t pc u this)) ∙ a))
    | no other ↦ λ a b.
        one u v p (sym (ap claim (update_other f t pc u this)) ∙ a)
          (sym (ap claim (update_other f t pc v other)) ∙ b)
  ]
]

-- The invariant after a thread has moved to `after`, from what it has made of the queue and of the history
pub moved-Inv :
    {k : ℕ} (s : State) (t : ℕ) (after : Pc) (q : Mpmcq) (claimed : List ℕ) (given : List (ℕ × ℕ))
    → Inv k s
    → Shared k q claimed
    → Fine k q claimed after
    → ((u : ℕ) → u ≢ t → Fine k q claimed (s.pc u))
    → ((p : ℕ) → claims_in after ≡ some p → (u : ℕ) → u ≢ t → claims_in (s.pc u) ≢ some p)
    → ((p : ℕ) → claims_out after ≡ some p → (u : ℕ) → u ≢ t → claims_out (s.pc u) ≢ some p)
    → ((p : ℕ) → claims_out after ≡ some p → NotIn p given)
    → ((u : ℕ) → u ≢ t → (p : ℕ) → claims_out (s.pc u) ≡ some p → NotIn p given)
    → AllGiven q.dequeue_pos claimed given
    → Inv k (record { queue = q; pc = update s.pc t after; claimed = claimed; given = given })
moved-Inv {k} s t after q claimed given inv shared own others new_in new_out own_given other_given
      all =
    record {
      shared = shared;
      fine = update_all (λ u pc. Fine k q claimed pc) s.pc t after own others;
      one_in = update_one claims_in s.pc t after inv.one_in new_in;
      one_out = update_one claims_out s.pc t after inv.one_out new_out;
      not_given =
          update_all (λ u pc. (p : ℕ) → claims_out pc ≡ some p → NotIn p given) s.pc t after
            own_given other_given;
      all_given = all;
    }
