-- ===== src/Mpmc/Kept.antt =====
-- What a write of src/shared/mpmc_queue.c at either end of the queue makes of what it holds.
use rkt_io.Common.{
  ℕ, zero, suc, ◌+◌, ◌%◌, ◌^◌, ◌<◌, ◌≡◌, ◌≢◌, refl, sym, ap, ◌∙◌, arith, List, [], ◌∷◌, ◌++◌,
  length, get_or, length-append, dec_lt,
}
use rkt_io.Mpmc.{Mpmcq, write}
use rkt_io.Mpmc.Mask.{cells_differ}
use rkt_io.Mpmc.Fifo.{Holds}
use native.Mathlib.Nat.{add-mod_right}

pub write_same : (f : ℕ → ℕ) (i v : ℕ) → write f i v i ≡ v
write_same f i v = ground arith

pub write_other : (f : ℕ → ℕ) (i v j : ℕ) → j ≢ i → write f i v j ≡ f j
write_other f i v j h = ground arith

pub get_or-append_left :
    (xs ys : List ℕ) (i : ℕ) → i < length xs → get_or (xs ++ ys) i 0 ≡ get_or xs i 0
get_or-append_left [] ys i h = absurd (omega arith)
get_or-append_left (x ∷ xs) ys zero h = refl
get_or-append_left (x ∷ xs) ys (suc i) h = get_or-append_left xs ys i (omega arith)

pub get_or-append_last : (xs : List ℕ) (x : ℕ) → get_or (xs ++ (x ∷ [])) (length xs) 0 ≡ x
get_or-append_last [] x = refl
get_or-append_last (y ∷ xs) x = get_or-append_last xs x

-- The queue after an enqueue of `x` and after a dequeue
abbrev pub with_tail : Mpmcq → ℕ → ℕ → ℕ → Mpmcq
with_tail q k n x = record q {
  enqueue_pos = (n + 1) % 2 ^ 64;
  data_ptr = write q.data_ptr (n % 2 ^ k) x;
  seq = write q.seq (n % 2 ^ k) ((n + 1) % 2 ^ 64);
}

pub with_tail-Holds :
    (q : Mpmcq) (k d x : ℕ) (xs : List ℕ)
    → Holds q k d xs
    → length xs < 2 ^ k
    → Holds (with_tail q k (d + length xs) x) k d (xs ++ (x ∷ []))
with_tail-Holds q k d x xs h more =
    let len : length (xs ++ (x ∷ [])) ≡ length xs + 1 = length-append xs (x ∷ []) in
    let n = 2 ^ k in
    let apart : (i : ℕ) → i < length xs → (d + i) % n ≢ (d + length xs) % n =
      λ i below. cells_differ n (d + i) (d + length xs) (omega arith) (omega arith) in
    record {
      at_least_two = h.at_least_two;
      fits = h.fits;
      mask = h.mask;
      room = omega (arith, len);
      head = h.head;
      tail = rw len (omega arith);
      used = λ i below. elim (dec_lt i (length xs)) [
        | yes p ↦
            write_other q.seq ((d + length xs) % n) ((d + length xs + 1) % 2 ^ 64) ((d + i) % n)
              (apart i p)
            ∙ h.used i p
        | no p ↦
            let last : i ≡ length xs = omega (arith, len) in
            rw last (write_same q.seq ((d + length xs) % n) ((d + length xs + 1) % 2 ^ 64))
      ];
      values = λ i below. elim (dec_lt i (length xs)) [
        | yes p ↦
            write_other q.data_ptr ((d + length xs) % n) x ((d + i) % n) (apart i p)
            ∙ h.values i p
            ∙ sym (get_or-append_left xs (x ∷ []) i p)
        | no p ↦
            let last : i ≡ length xs = omega (arith, len) in
            rw last (write_same q.data_ptr ((d + length xs) % n) x ∙ sym (get_or-append_last xs x))
      ];
      free = λ i from below.
          let other : (d + i) % n ≢ (d + length xs) % n = λ e.
            cells_differ n (d + length xs) (d + i) (omega (arith, len)) (omega arith) (sym e) in
          write_other q.seq ((d + length xs) % n) ((d + length xs + 1) % 2 ^ 64) ((d + i) % n) other
          ∙ h.free i (omega (arith, len)) below;
    }

abbrev pub past_head : Mpmcq → ℕ → ℕ → Mpmcq
past_head q k d = record q {
  dequeue_pos = (d + 1) % 2 ^ 64;
  seq = write q.seq (d % 2 ^ k) ((d + 2 ^ k) % 2 ^ 64);
}

pub past_head-Holds :
    (q : Mpmcq) (k d x : ℕ) (xs : List ℕ)
    → Holds q k d (x ∷ xs)
    → Holds (past_head q k d) k (d + 1) xs
past_head-Holds q k d x xs h =
    let n = 2 ^ k in
    let shift : (i : ℕ) → d + 1 + i ≡ d + suc i = λ i. omega arith in
    let apart : (i : ℕ) → suc i < n → (d + suc i) % n ≢ d % n =
      λ i below e. cells_differ n d (d + suc i) (omega arith) (omega arith) (sym e) in
    let kept : (i : ℕ)
        → suc i < n
        → write q.seq (d % n) ((d + n) % 2 ^ 64) ((d + suc i) % n) ≡ q.seq ((d + suc i) % n) =
      λ i below. write_other q.seq (d % n) ((d + n) % 2 ^ 64) ((d + suc i) % n) (apart i below) in
    record {
      at_least_two = h.at_least_two;
      fits = h.fits;
      mask = h.mask;
      room = omega (arith, h.room);
      head = refl;
      tail =
          h.tail
          ∙ ap (λ m. m % 2 ^ 64) {x = d + suc (length xs)} {y = d + 1 + length xs} (omega arith);
      used =
          λ i below. rw (shift i) (kept i (omega (arith, h.room)) ∙ h.used (suc i) (omega arith));
      values = λ i below. rw (shift i) (h.values (suc i) (omega arith));
      free = λ i from below. elim (dec_lt (suc i) n) [
        | yes p ↦ rw (shift i) (kept i p ∙ h.free (suc i) (omega arith) p)
        | no p ↦
            let last : suc i ≡ n = omega arith in
            rw (shift i)
              (rw last (rw (add-mod_right d n) (write_same q.seq (d % n) ((d + n) % 2 ^ 64))))
      ];
    }
