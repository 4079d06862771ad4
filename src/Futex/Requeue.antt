-- ===== src/Futex/Requeue.antt =====
-- FUTEX_REQUEUE of src/sched/futex.c: some sleepers are woken, some are moved to another address.
use rkt_io.Common.{
  ℕ, zero, suc, ◌+◌, ◌^◌, ◌≤◌, ◌<◌, ◌≡◌, refl, arith, Bool, true, false, ◌==◌, min, ap, sym, List,
  [], ◌∷◌, length, filter, take, Bool-cases, inl, inr,
}
use rkt_io.Futex.{
  FutexQ, Futexes, Walked, put_back, requeue_walk, wake_up, futex_requeue, futex_none, to_futex_key,
}
use rkt_io.Futex.Woken.{wake_all, Woke, Woke-of}

abbrev pub has_key : ℕ → FutexQ → Bool
has_key key fq = fq.futex_key == key

-- The queue without its first `n` entries that pass the test.
pub drop_hits : (FutexQ → Bool) → ℕ → List FutexQ → List FutexQ
drop_hits p n [] = []
drop_hits p zero (fq ∷ q) = fq ∷ q
drop_hits p (suc n) (fq ∷ q) = elim (p fq) [
  | true ↦ drop_hits p n q
  | false ↦ fq ∷ drop_hits p (suc n) q
]

-- The queue with another key on its first `n` entries that pass the test.
pub rekey : (FutexQ → Bool) → ℕ → ℕ → List FutexQ → List FutexQ
rekey p key2 n [] = []
rekey p key2 zero (fq ∷ q) = fq ∷ q
rekey p key2 (suc n) (fq ∷ q) = elim (p fq) [
  | true ↦ record fq { futex_key = key2 } ∷ rekey p key2 n q
  | false ↦ fq ∷ rekey p key2 (suc n) q
]

rekey-zero : (p : FutexQ → Bool) (key2 : ℕ) (q : List FutexQ) → rekey p key2 0 q ≡ q
unfolding rekey
rekey-zero p key2 [] = refl
rekey-zero p key2 (fq ∷ q) = refl

drop_hits-zero : (p : FutexQ → Bool) (q : List FutexQ) → drop_hits p 0 q ≡ q
unfolding drop_hits
drop_hits-zero p [] = refl
drop_hits-zero p (fq ∷ q) = refl

rekey_miss :
    (p : FutexQ → Bool) (key2 n : ℕ) (fq : FutexQ) (q : List FutexQ)
    → p fq ≡ false
    → rekey p key2 n (fq ∷ q) ≡ fq ∷ rekey p key2 n q
unfolding rekey
rekey_miss p key2 zero fq q miss = ap (λ l. fq ∷ l) (sym (rekey-zero p key2 q))
rekey_miss p key2 (suc n) fq q miss = ground arith

drop_hits_miss :
    (p : FutexQ → Bool) (n : ℕ) (fq : FutexQ) (q : List FutexQ)
    → p fq ≡ false
    → drop_hits p n (fq ∷ q) ≡ fq ∷ drop_hits p n q
unfolding drop_hits
drop_hits_miss p zero fq q miss = ap (λ l. fq ∷ l) (sym (drop_hits-zero p q))
drop_hits_miss p (suc n) fq q miss = ground arith

record WalkMoved (key key2 moves w : ℕ) (q : List FutexQ) (s : Futexes) (r : Walked) : Type 0 where
  state : r.state ≡ s
  stay : r.stay ≡ rekey (has_key key) key2 moves q
  count : r.w ≡ w + min moves (length (filter (has_key key) q))

module _ (key key2 num limit : ℕ) (small : num + limit < 2 ^ 32) where
  requeue_walk_late :
      (q : List FutexQ) (w moves : ℕ) (s : Futexes)
      → num ≤ w
      → w + moves ≡ num + limit
      → WalkMoved key key2 moves w q s (requeue_walk key key2 num limit q w s)
  unfolding requeue_walk rekey
  requeue_walk_late [] w moves s h e = record { state = refl; stay = refl; count = omega arith }
  requeue_walk_late (fq ∷ q) w zero s h e =
      let ih = requeue_walk_late q w zero s h e in
      let step : requeue_walk key key2 num limit (fq ∷ q) w s
          ≡ put_back fq (requeue_walk key key2 num limit q w s) =
        ground arith in
      let none_moves = rekey-zero (has_key key) key2 q in
      rw step (record {
        state = ground (arith, ih.state);
        stay = ground (arith, ih.stay, none_moves);
        count = ground (arith, ih.count);
      })
  requeue_walk_late (fq ∷ q) w (suc moves) s h e = elim (Bool-cases (has_key key fq)) [
    | inr miss ↦
        let ih = requeue_walk_late q w (suc moves) s h e in
        let step : requeue_walk key key2 num limit (fq ∷ q) w s
            ≡ put_back fq (requeue_walk key key2 num limit q w s) =
          ground arith in
        rw step (record {
          state = ground (arith, ih.state);
          stay = ground (arith, ih.stay);
          count = ground (arith, ih.count);
        })
    | inl hit ↦
        let ih = requeue_walk_late q (w + 1) moves s (omega arith) (omega arith) in
        let step : requeue_walk key key2 num limit (fq ∷ q) w s
            ≡ put_back (record fq { futex_key = key2 })
                (requeue_walk key key2 num limit q (w + 1) s) =
          ground arith in
        rw step (record {
          state = ground (arith, ih.state);
          stay = ground (arith, ih.stay);
          count = ground (arith, ih.count);
        })
  ]

  -- The walk as long as `wakes` more threads are to be woken.
  record WalkRequeued (wakes w : ℕ) (q : List FutexQ) (s : Futexes) (r : Walked) : Type 0 where
    state : r.state ≡ wake_all futex_none (take wakes (filter (has_key key) q)) s
    stay : r.stay ≡ rekey (has_key key) key2 limit (drop_hits (has_key key) wakes q)
    count : r.w ≡ w + min (wakes + limit) (length (filter (has_key key) q))

  requeue_walk_lem :
      (q : List FutexQ) (w wakes : ℕ) (s : Futexes)
      → w + wakes ≡ num
      → WalkRequeued wakes w q s (requeue_walk key key2 num limit q w s)
  unfolding requeue_walk rekey drop_hits wake_all
  requeue_walk_lem q w zero s e =
      let late = requeue_walk_late q w limit s (omega arith) (omega arith) in
      record {
        state = late.state;
        stay = ground (arith, late.stay, drop_hits-zero (has_key key) q);
        count = ground (arith, late.count);
      }
  requeue_walk_lem [] w (suc wakes) s e = record { state = refl; stay = refl; count = omega arith }
  requeue_walk_lem (fq ∷ q) w (suc wakes) s e = elim (Bool-cases (has_key key fq)) [
    | inr miss ↦
        let ih = requeue_walk_lem q w (suc wakes) s e in
        let step : requeue_walk key key2 num limit (fq ∷ q) w s
            ≡ put_back fq (requeue_walk key key2 num limit q w s) =
          ground arith in
        rw step (record {
          state = ground (arith, ih.state);
          stay = ground (
            arith,
            ih.stay,
            rekey_miss (has_key key) key2 limit fq (drop_hits (has_key key) (suc wakes) q),
          );
          count = ground (arith, ih.count);
        })
    | inl hit ↦
        let ih = requeue_walk_lem q (w + 1) wakes (wake_up futex_none fq s) (omega arith) in
        let step : requeue_walk key key2 num limit (fq ∷ q) w s
            ≡ requeue_walk key key2 num limit q (w + 1) (wake_up futex_none fq s) =
          ground arith in
        rw step (record {
          state = ground (arith, ih.state);
          stay = ground (arith, ih.stay);
          count = ground (arith, ih.count);
        })
  ]

-- FUTEX_REQUEUE wakes the first `num` sleepers at the address, in the order of the queue, puts the
-- next `limit` of them at the second address, in their places, and leaves the rest: it returns how
-- many it woke or moved. (If `num + limit` does not wrap.)
pub futex_requeue_lem :
    (uaddr uaddr2 num limit : ℕ) (s : Futexes)
    → num + limit < 2 ^ 32
    → let (s', rc) = futex_requeue uaddr uaddr2 num limit s in
      let p = has_key (to_futex_key uaddr) in
      Woke futex_none (take num (filter p s.queues)) s (record s' { queues = s.queues })
      × (s'.queues ≡ rekey p (to_futex_key uaddr2) limit (drop_hits p num s.queues))
      × (rc ≡ min (num + limit) (length (filter p s.queues)))
unfolding futex_requeue
futex_requeue_lem uaddr uaddr2 num limit s small =
    let key = to_futex_key uaddr in
    let walked =
      requeue_walk_lem key (to_futex_key uaddr2) num limit small s.queues 0 num s (omega arith) in
    (
      Woke-of futex_none (take num (filter (has_key key) s.queues)) s _ walked.state,
      walked.stay,
      omega (arith, walked.count),
    )
