-- ===== src/Futex/Wake.antt =====
-- FUTEX_WAKE of src/sched/futex.c: whom it wakes, and what stays asleep.
use rkt_io.Common.{
  ℕ, ◌+◌, ◌-◌, ◌≤◌, ◌≡◌, refl, arith, Bool, not, min, List, [], ◌∷◌, length, filter, take, drop,
  Bool-cases, dec_lt, suc, inl, inr,
}
use rkt_io.Futex.{
  FutexQ, Futexes, Walked, matches, wake_walk, put_back, wake_up, futex_wake, futex_none,
  to_futex_key,
}
use rkt_io.Futex.Woken.{wake_all, Woke, Woke-of}

-- A walk that wakes the first of the entries that pass a test, `num` of them less those counted.
pub record WalkWoke (p : FutexQ → Bool) (k w : ℕ) (q : List FutexQ) (s : Futexes) (r : Walked)
    : Type 0 where
  pub woken : r.state ≡ wake_all futex_none (take k (filter p q)) s
  pub count : r.w ≡ w + min k (length (filter p q))
  pub hits_left : filter p r.stay ≡ drop k (filter p q)
  pub others : filter (λ fq. not (p fq)) r.stay ≡ filter (λ fq. not (p fq)) q
  pub total : length r.stay + min k (length (filter p q)) ≡ length q

wake_walk_lem :
    (key num bitset : ℕ) (q : List FutexQ) (w : ℕ) (s : Futexes)
    → w ≤ num
    → WalkWoke (matches key bitset) (num - w) w q s (wake_walk key num bitset q w s)
unfolding wake_walk wake_all
wake_walk_lem key num bitset [] w s h = elim (dec_lt w num) [
  | yes more ↦
      let e : num - w ≡ suc (num - w - 1) = omega arith in
      rw e (record {
        woken = refl;
        count = omega arith;
        hits_left = refl;
        others = refl;
        total = omega arith;
      })
  | no full ↦
      let e : num - w ≡ 0 = omega arith in
      rw e (record {
        woken = refl;
        count = omega arith;
        hits_left = refl;
        others = refl;
        total = omega arith;
      })
]
wake_walk_lem key num bitset (fq ∷ q) w s h = elim (Bool-cases (matches key bitset fq)) [
  | inr miss ↦
      let ih = wake_walk_lem key num bitset q w s h in
      let step : wake_walk key num bitset (fq ∷ q) w s
          ≡ put_back fq (wake_walk key num bitset q w s) =
        ground arith in
      rw step (record {
        woken = ground (arith, ih.woken);
        count = ground (arith, ih.count);
        hits_left = ground (arith, ih.hits_left);
        others = ground (arith, ih.others);
        total = ground (arith, ih.total);
      })
  | inl hit ↦ elim (dec_lt w num) [
    | yes more ↦
        let ih = wake_walk_lem key num bitset q (w + 1) (wake_up futex_none fq s) (omega arith) in
        let e : num - w ≡ suc (num - (w + 1)) = omega arith in
        let step : wake_walk key num bitset (fq ∷ q) w s
            ≡ wake_walk key num bitset q (w + 1) (wake_up futex_none fq s) =
          ground arith in
        rw (step, e)
          (record {
            woken = ground (arith, ih.woken);
            count = ground (arith, ih.count);
            hits_left = ground (arith, ih.hits_left);
            others = ground (arith, ih.others);
            total = ground (arith, ih.total);
          })
    | no full ↦
        let ih = wake_walk_lem key num bitset q w s h in
        let e : num - w ≡ 0 = omega arith in
        let step : wake_walk key num bitset (fq ∷ q) w s
            ≡ put_back fq (wake_walk key num bitset q w s) =
          ground arith in
        let ih' : WalkWoke (matches key bitset) 0 w q s (wake_walk key num bitset q w s) =
          rw e at ih in
        rw (step, e)
          (record {
            woken = ground (arith, ih'.woken);
            count = ground (arith, ih'.count);
            hits_left = ground (arith, ih'.hits_left);
            others = ground (arith, ih'.others);
            total = ground (arith, ih'.total);
          })
  ]
]

-- What FUTEX_WAKE has done to a queue and the threads on it.
pub record Awoke (p : FutexQ → Bool) (num : ℕ) (s s' : Futexes) (rc : ℕ) : Type 0 where
  pub effect : Woke futex_none (take num (filter p s.queues)) s (record s' { queues = s.queues })
  pub count : rc ≡ min num (length (filter p s.queues))
  pub hits_left : filter p s'.queues ≡ drop num (filter p s.queues)
  pub others : filter (λ fq. not (p fq)) s'.queues ≡ filter (λ fq. not (p fq)) s.queues
  pub total : length s'.queues + rc ≡ length s.queues

-- FUTEX_WAKE wakes, in the order of the queue, the first `num` sleepers whose key is that of the
-- address and whose bitset meets the one given: it returns their number, makes them ready, tells
-- them that no timeout expired and takes them off the counter. The other matching sleepers and all
-- that do not match stay on the queue in their order.
pub futex_wake_lem :
    (uaddr num bitset : ℕ) (s : Futexes)
    → let (s', rc) = futex_wake uaddr num bitset s in
      Awoke (matches (to_futex_key uaddr) bitset) num s s' rc
unfolding futex_wake
futex_wake_lem uaddr num bitset s =
    let p = matches (to_futex_key uaddr) bitset in
    let walked = wake_walk_lem (to_futex_key uaddr) num bitset s.queues 0 s (omega arith) in
    let e : num - 0 ≡ num = omega arith in
    let walked' : WalkWoke p num 0 s.queues s
        (wake_walk (to_futex_key uaddr) num bitset s.queues 0 s) =
      rw e at walked in
    record {
      effect = Woke-of futex_none (take num (filter p s.queues)) s _ walked'.woken;
      count = omega (arith, walked'.count);
      hits_left = walked'.hits_left;
      others = walked'.others;
      total = omega (arith, walked'.total, walked'.count);
    }
