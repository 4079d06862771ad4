-- ===== src/Mpmc/Loops.antt =====
-- How the loops of src/shared/mpmc_queue.c end, and which cell a position stands for.
use rkt_io.Common.{
  ℕ, zero, suc, ◌+◌, ◌-◌, ◌*◌, ◌%◌, ◌^◌, ◌≤◌, ◌<◌, ◌≡◌, subst, sym, ap, ◌∙◌, arith, some, none,
  bit_and,
}
use rkt_io.Mpmc.{Mpmcq, enqueue_loop, dequeue_loop}
use rkt_io.Mpmc.Mask.{bit_and_mask}
use native.Mathlib.Nat.{mod-mod_of_dvd, dvd-mul_right}
use native.Mathlib.Nat.{mul_assoc, pow-succ', one-mul}

pow_split : (k j : ℕ) → 2 ^ (k + j) ≡ 2 ^ k * 2 ^ j
pow_split zero j = ap (λ n. 2 ^ n) {x = 0 + j} {y = j} (omega arith) ∙ sym (one-mul (2 ^ j))
pow_split (suc k) j =
    ap (λ n. 2 ^ n) (suc-add k j)
    ∙ pow-succ' 2 (k + j)
    ∙ ap (λ n. 2 * n) (pow_split k j)
    ∙ sym (mul_assoc 2 (2 ^ k) (2 ^ j))
    ∙ ap (λ n. n * 2 ^ j) (sym (pow-succ' 2 k))
  where
    suc-add : (a b : ℕ) → suc a + b ≡ suc (a + b)
    suc-add a b = omega arith

-- The cell of a position, which wraps at 2 ^ 64
pub cell_of : (n k : ℕ) → k ≤ 62 → bit_and (n % 2 ^ 64) (2 ^ k - 1) ≡ n % 2 ^ k
cell_of n k h =
    let whole : 2 ^ 64 ≡ 2 ^ k * 2 ^ (64 - k) =
      ap (λ m. 2 ^ m) {x = 64} {y = k + (64 - k)} (omega arith) ∙ pow_split k (64 - k) in
    let wrapped : n % (2 ^ k * 2 ^ (64 - k)) % 2 ^ k ≡ n % 2 ^ k =
      mod-mod_of_dvd (2 ^ k) n (dvd-mul_right (2 ^ k) (2 ^ (64 - k))) in
    bit_and_mask (n % 2 ^ 64) k ∙ subst (λ m. n % m % 2 ^ k ≡ n % 2 ^ k) (sym whole) wrapped

-- A free cell is claimed, whatever spurious failures come before.
pub enqueue_claims :
    (spurious fuel pos : ℕ) (q : Mpmcq)
    → pos < 2 ^ 64
    → spurious < fuel
    → q.seq (bit_and pos q.buffer_mask) ≡ pos
    → enqueue_loop fuel spurious pos q ≡ some (some pos)
unfolding enqueue_loop
enqueue_claims spurious zero pos q small enough hit = absurd (omega arith)
enqueue_claims zero (suc fuel) pos q small enough hit = ground arith
enqueue_claims (suc spurious) (suc fuel) pos q small enough hit =
    ground (arith, enqueue_claims spurious fuel pos q small (omega arith) hit)

pub dequeue_claims :
    (spurious fuel pos : ℕ) (q : Mpmcq)
    → pos < 2 ^ 64
    → spurious < fuel
    → q.seq (bit_and pos q.buffer_mask) ≡ (pos + 1) % 2 ^ 64
    → dequeue_loop fuel spurious pos q ≡ some (some pos)
unfolding dequeue_loop
dequeue_claims spurious zero pos q small enough hit = absurd (omega arith)
dequeue_claims zero (suc fuel) pos q small enough hit = ground arith
dequeue_claims (suc spurious) (suc fuel) pos q small enough hit =
    ground (arith, dequeue_claims spurious fuel pos q small (omega arith) hit)

-- A cell that is behind ends the loop.
pub enqueue_full :
    (spurious fuel pos back : ℕ) (q : Mpmcq)
    → 0 < fuel
    → 1 ≤ back
    → back ≤ 2 ^ 63
    → q.seq (bit_and pos q.buffer_mask) ≡ (pos + 2 ^ 64 - back) % 2 ^ 64
    → pos < 2 ^ 64
    → enqueue_loop fuel spurious pos q ≡ some none
unfolding enqueue_loop
enqueue_full spurious zero pos back q enough lo hi behind small = absurd (omega arith)
enqueue_full zero (suc fuel) pos back q enough lo hi behind small = ground arith
enqueue_full (suc spurious) (suc fuel) pos back q enough lo hi behind small = ground arith

pub dequeue_empty :
    (spurious fuel pos : ℕ) (q : Mpmcq)
    → 0 < fuel
    → q.seq (bit_and pos q.buffer_mask) ≡ pos
    → pos < 2 ^ 64
    → dequeue_loop fuel spurious pos q ≡ some none
unfolding dequeue_loop
dequeue_empty spurious zero pos q enough own small = absurd (omega arith)
dequeue_empty zero (suc fuel) pos q enough own small = ground arith
dequeue_empty (suc spurious) (suc fuel) pos q enough own small = ground arith
