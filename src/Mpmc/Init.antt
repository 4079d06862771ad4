-- ===== src/Mpmc/Init.antt =====
-- newmpmcq of src/shared/mpmc_queue.c
use rkt_io.Common.{
  ℕ, zero, suc, ◌+◌, ◌-◌, ◌/◌, ◌%◌, ◌^◌, ◌≤◌, ◌<◌, ◌≡◌, refl, ap, ◌∙◌, arith, some, [], bit_and,
}
use rkt_io.Mpmc.{Mpmcq, number_cells, newmpmcq}
use rkt_io.Mpmc.Mask.{bit_and_mask}
use rkt_io.Mpmc.Fifo.{Holds}
use native.Mathlib.Nat.{mod_self, mod-eq_of_lt, pow-le-pow_right}

pub numbered : (n : ℕ) (f : ℕ → ℕ) (i : ℕ) → i < n → number_cells n f i ≡ i
numbered zero f i h = absurd (omega arith)
numbered (suc n) f i h = ground (arith, numbered n f i)

-- A buffer whose size in cells of 16 bytes is a power of 2, at least 2, makes an empty queue.
pub newmpmcq-Holds :
    (bytes k : ℕ) (seq data_ptr : ℕ → ℕ)
    → bytes / 16 ≡ 2 ^ k
    → 1 ≤ k
    → k ≤ 62
    → (q : Mpmcq) × (newmpmcq bytes seq data_ptr ≡ some q) × Holds q k 0 []
unfolding newmpmcq
newmpmcq-Holds bytes k seq data_ptr size lo hi =
    let two : 2 ≤ 2 ^ k = pow-le-pow_right {n = 2} (omega arith) lo in
    let small : 2 ^ k ≤ 2 ^ 62 = pow-le-pow_right (omega arith) hi in
    let power : bit_and (2 ^ k) (2 ^ k - 1) ≡ 0 = bit_and_mask (2 ^ k) k ∙ mod_self (2 ^ k) in
    (
      record {
        seq = number_cells (2 ^ k) seq;
        data_ptr = data_ptr;
        buffer_mask = 2 ^ k - 1;
        enqueue_pos = 0;
        dequeue_pos = 0;
      },
      rw size (ground (arith, power, two)),
      record {
        at_least_two = lo;
        fits = hi;
        mask = refl;
        room = omega arith;
        head = refl;
        tail = refl;
        used = λ i h. absurd (omega arith);
        values = λ i h. absurd (omega arith);
        free = λ i from below.
            let own : (0 + i) % 2 ^ k ≡ i =
              ap (λ m. m % 2 ^ k) {x = 0 + i} {y = i} (omega arith) ∙ mod-eq_of_lt below in
            rw own (numbered (2 ^ k) seq i below ∙ omega (arith, below, small));
      },
    )
