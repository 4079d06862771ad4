-- ===== src/Lthread/Outcome.antt =====
-- What a function of src/sched/lthread.c may come to.
use rkt_io.Common.{◌≡◌}

-- `spins` waits for the lock bit of a thread, `dangling` uses a struct that was freed.
pub data Outcome {ℓ} (A : Type ℓ) : Type ℓ where
  done : A → Outcome A
  spins : Outcome A
  dangling : Outcome A

infixl 5 ◌>>=◌
abbrev pub ◌>>=◌ {ℓ κ} : {A : Type ℓ} {B : Type κ} → Outcome A → (A → Outcome B) → Outcome B
done a >>= f = f a
spins >>= f = spins
dangling >>= f = dangling

pub done_inj {ℓ} : {A : Type ℓ} {a b : A} → done a ≡ done b → a ≡ b
done_inj h = cc
