-- ===== src/Futex/Woken.antt =====
-- The joint effect of waking a list of sleepers, as src/sched/futex.c does for each.
use rkt_io.Common.{
  ℕ, ◌+◌, ◌≡◌, refl, arith, Bool, false, ◌||◌, ◌==◌, if◌then◌else◌, List, [], ◌∷◌, ◌++◌, map,
  length, append-nil, append_assoc, sym, ap, ◌∙◌,
}
use rkt_io.Futex.{FutexQ, Futexes, wake_up, u32}

unfoldable pub wake_all : ℕ → List FutexQ → Futexes → Futexes
wake_all reason [] s = s
wake_all reason (fq ∷ fqs) s = wake_all reason fqs (wake_up reason fq s)

unfoldable pub threads : List FutexQ → List ℕ
threads fqs = map (λ fq. fq.futex_lt) fqs

unfoldable pub member : ℕ → List ℕ → Bool
member t [] = false
member t (x ∷ xs) = t == x || member t xs

-- They are made ready in order, taken off the counter of sleepers, and told the reason; nothing else
-- changes.
pub record Woke (reason : ℕ) (fqs : List FutexQ) (s s' : Futexes) : Type 0 where
  pub ready : s'.ready ≡ s.ready ++ threads fqs
  pub queues : s'.queues ≡ s.queues
  pub sleepers : u32 (s'.sleepers + length fqs) ≡ u32 s.sleepers
  pub err : (t : ℕ) → s'.err t ≡ (if member t (threads fqs) then reason else s.err t)

pub wake_all-Woke :
    (reason : ℕ) (fqs : List FutexQ) (s : Futexes) → Woke reason fqs s (wake_all reason fqs s)
unfolding wake_all threads member wake_up
wake_all-Woke reason [] s = record {
  ready = sym (append-nil s.ready);
  queues = refl;
  sleepers = omega arith;
  err = λ t. refl;
}
wake_all-Woke reason (fq ∷ fqs) s =
    let ih = wake_all-Woke reason fqs (wake_up reason fq s) in
    record {
      ready = ih.ready ∙ append_assoc s.ready (fq.futex_lt ∷ []) (threads fqs);
      queues = ih.queues;
      sleepers = omega (arith, ih.sleepers);
      err = λ t. ground (arith, ih.err t);
    }

-- The same of a state that a walk along the queue ends in.
pub Woke-of :
    (reason : ℕ) (fqs : List FutexQ) (s t : Futexes)
    → t ≡ wake_all reason fqs s
    → Woke reason fqs s (record t { queues = s.queues })
Woke-of reason fqs s t e =
    let woke = wake_all-Woke reason fqs s in
    record {
      ready = ap (λ x. x.ready) e ∙ woke.ready;
      queues = refl;
      sleepers = ap (λ x. u32 (x.sleepers + length fqs)) e ∙ woke.sleepers;
      err = λ t'. ap (λ x. x.err t') e ∙ woke.err t';
    }
