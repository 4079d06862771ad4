-- ===== src/Futex/Queue.antt =====
-- What each walk along the queue of src/sched/futex.c keeps: the count of sleepers, and that a thread
-- is on the queue once.
use rkt_io.Common.{
  ℕ, ◌+◌, ◌≡◌, refl, arith, Bool, true, false, ◌==◌, ◌||◌, ◌&&◌, ltb, List, [], ◌∷◌, length,
  Bool-cases, inl, inr,
}
use rkt_io.Futex.{
  FutexQ, Futexes, Walked, wake_walk, requeue_walk, tick_walk, tick_test, wake_up, futex_wake,
  futex_requeue, futex_tick, u32, matches, to_futex_key, futex_none, futex_expired, put_back,
  settled,
}
use rkt_io.Futex.Woken.{threads, member}

-- A selection of a list's elements, in their order.
data Sub : List ℕ → List ℕ → Type 0 where
  nil : Sub [] []
  skip : {xs ys : List ℕ} (y : ℕ) → Sub xs ys → Sub xs (y ∷ ys)
  keep : {xs ys : List ℕ} (x : ℕ) → Sub xs ys → Sub (x ∷ xs) (x ∷ ys)

member-Sub : {xs ys : List ℕ} (t : ℕ) → Sub xs ys → member t ys ≡ false → member t xs ≡ false
unfolding member
member-Sub t nil h = h
member-Sub t (skip y p) h = ground (arith, member-Sub t p)
member-Sub t (keep x p) h = ground (arith, member-Sub t p)

abbrev pub Distinct : List ℕ → Type 0
Distinct [] = Unit
Distinct (x ∷ xs) = (member x xs ≡ false) × Distinct xs

Distinct-Sub : {xs ys : List ℕ} → Sub xs ys → Distinct ys → Distinct xs
Distinct-Sub nil d = d
Distinct-Sub (skip y p) d = Distinct-Sub p d.1
Distinct-Sub (keep x p) d = (member-Sub x p d.0, Distinct-Sub p d.1)

-- What a walk along the queue does to the threads on it and the counter.
record IsWalk (q : List FutexQ) (s : Futexes) (r : Walked) : Type 0 where
  sub : Sub (threads r.stay) (threads q)
  lower : u32 (r.state.sleepers + length q) ≡ u32 (s.sleepers + length r.stay)

IsWalk-end : (w : ℕ) (s : Futexes) → IsWalk [] s (record { stay = []; w = w; state = s })
unfolding threads
IsWalk-end w s = record { sub = nil; lower = refl }

IsWalk-wake_up :
    (reason : ℕ) (fq fq' : FutexQ) (q : List FutexQ) (s : Futexes) (r : Walked)
    → IsWalk q (wake_up reason fq' s) r
    → IsWalk (fq ∷ q) s r
unfolding wake_up threads
IsWalk-wake_up reason fq fq' q s r k = record {
  sub = skip fq.futex_lt k.sub;
  lower = omega (arith, k.lower);
}

-- An entry that stays may be changed, but keeps its thread.
IsWalk-put_back :
    (fq fq' : FutexQ) (q : List FutexQ) (s : Futexes) (r : Walked)
    → fq'.futex_lt ≡ fq.futex_lt
    → IsWalk q s r
    → IsWalk (fq ∷ q) s (put_back fq' r)
unfolding threads
IsWalk-put_back fq fq' q s r same k = record {
  sub = rw same (keep fq.futex_lt k.sub);
  lower = omega (arith, k.lower);
}

wake_walk-IsWalk :
    (key num bitset : ℕ) (q : List FutexQ) (w : ℕ) (s : Futexes)
    → IsWalk q s (wake_walk key num bitset q w s)
unfolding wake_walk
wake_walk-IsWalk key num bitset [] w s = IsWalk-end w s
wake_walk-IsWalk key num bitset (fq ∷ q) w s =
    elim (matches key bitset fq && ltb w num)
      as (λ hit. IsWalk (fq ∷ q) s (elim hit [
        | true ↦ wake_walk key num bitset q (w + 1) (wake_up futex_none fq s)
        | false ↦ put_back fq (wake_walk key num bitset q w s)
      ])) [
        | true ↦
            IsWalk-wake_up futex_none fq fq q s _
              (wake_walk-IsWalk key num bitset q (w + 1) (wake_up futex_none fq s))
        | false ↦ IsWalk-put_back fq fq q s _ refl (wake_walk-IsWalk key num bitset q w s)
      ]

requeue_walk-IsWalk :
    (key key2 num limit : ℕ) (q : List FutexQ) (w : ℕ) (s : Futexes)
    → IsWalk q s (requeue_walk key key2 num limit q w s)
unfolding requeue_walk
requeue_walk-IsWalk key key2 num limit [] w s = IsWalk-end w s
requeue_walk-IsWalk key key2 num limit (fq ∷ q) w s =
    elim (Bool-cases (fq.futex_key == key && ltb w num)) [
      | inl wakes ↦
          rw (wakes, requeue_walk)
            (IsWalk-wake_up futex_none fq fq q s _
              (requeue_walk-IsWalk key key2 num limit q (w + 1) (wake_up futex_none fq s)))
      | inr stays ↦ elim (Bool-cases (fq.futex_key == key && ltb w (u32 (num + limit)))) [
        | inl moves ↦
            rw (stays, moves, requeue_walk)
              (IsWalk-put_back fq (record fq { futex_key = key2 }) q s _ refl
                (requeue_walk-IsWalk key key2 num limit q (w + 1) s))
        | inr other ↦
            rw (stays, other, requeue_walk)
              (IsWalk-put_back fq fq q s _ refl (requeue_walk-IsWalk key key2 num limit q w s))
      ]
    ]

tick_test_thread : (real mntc : ℕ) (fq : FutexQ) → (tick_test real mntc fq).0.futex_lt ≡ fq.futex_lt
unfolding tick_test
tick_test_thread real mntc fq = ground arith

tick_case :
    (fq fq' : FutexQ) (q : List FutexQ) (s : Futexes) (expired : Bool) (wakes stays : Walked)
    → fq'.futex_lt ≡ fq.futex_lt
    → IsWalk q (wake_up futex_expired fq' s) wakes
    → IsWalk q s stays
    → IsWalk (fq ∷ q) s (elim expired [ true ↦ wakes | false ↦ put_back fq' stays ])
tick_case fq fq' q s true wakes stays same k k' = IsWalk-wake_up futex_expired fq fq' q s wakes k
tick_case fq fq' q s false wakes stays same k k' = IsWalk-put_back fq fq' q s stays same k'

tick_walk-IsWalk :
    (real mntc : ℕ) (q : List FutexQ) (s : Futexes) → IsWalk q s (tick_walk real mntc q s)
unfolding tick_walk
tick_walk-IsWalk real mntc [] s = IsWalk-end 0 s
tick_walk-IsWalk real mntc (fq ∷ q) s =
    let t = tick_test real mntc fq in
    tick_case fq t.0 q s t.1 _ _ (tick_test_thread real mntc fq)
      (tick_walk-IsWalk real mntc q (wake_up futex_expired t.0 s)) (tick_walk-IsWalk real mntc q s)

-- The counter is the length of the queue (as an int), and no thread is on the queue twice.
pub record IsConsistent (s : Futexes) : Type 0 where
  pub sleepers_counted : u32 s.sleepers ≡ u32 (length s.queues)
  pub distinct : Distinct (threads s.queues)

IsWalk-IsConsistent :
    (s : Futexes) (r : Walked) → IsWalk s.queues s r → IsConsistent s → IsConsistent (settled r)
IsWalk-IsConsistent s r k c = record {
  sleepers_counted = omega (arith, k.lower, c.sleepers_counted);
  distinct = Distinct-Sub k.sub c.distinct;
}

pub futex_wake-IsConsistent :
    (uaddr num bitset : ℕ) (s : Futexes)
    → IsConsistent s
    → IsConsistent (futex_wake uaddr num bitset s).0
unfolding futex_wake
futex_wake-IsConsistent uaddr num bitset s c =
    IsWalk-IsConsistent s _ (wake_walk-IsWalk (to_futex_key uaddr) num bitset s.queues 0 s) c

pub futex_requeue-IsConsistent :
    (uaddr uaddr2 num limit : ℕ) (s : Futexes)
    → IsConsistent s
    → IsConsistent (futex_requeue uaddr uaddr2 num limit s).0
unfolding futex_requeue
futex_requeue-IsConsistent uaddr uaddr2 num limit s c =
    IsWalk-IsConsistent s _
      (requeue_walk-IsWalk (to_futex_key uaddr) (to_futex_key uaddr2) num limit s.queues 0 s) c

pub futex_tick-IsConsistent :
    (busy : Bool) (real mntc : ℕ) (s : Futexes)
    → IsConsistent s
    → IsConsistent (futex_tick busy real mntc s)
unfolding futex_tick
futex_tick-IsConsistent busy real mntc s c = elim (Bool-cases (s.sleepers == 0 || busy)) [
  | inl idle ↦ rw idle c
  | inr walks ↦ rw walks (IsWalk-IsConsistent s _ (tick_walk-IsWalk real mntc s.queues s) c)
]
