-- ===== src/Mpmc/Mask.antt =====
-- Cell numbers of src/shared/mpmc_queue.c: a position under the mask of a buffer whose size is a power of 2.
use Prim.Native.Nat.{min, digits, bit_and-bitwise}
use rkt_io.Common.{
  ℕ, zero, suc, ◌+◌, ◌-◌, ◌*◌, ◌/◌, ◌%◌, ◌^◌, ◌≤◌, ◌<◌, ◌≡◌, ◌≢◌, arith, bit_and, ap, ◌∙◌, dec_lt,
}
use native.Mathlib.Nat.{
  pow-suc, one-le-pow, mod-lt, mod-add-div, mul_assoc, mul-suc, mul-le-mul_left,
  mul-add-mod_self_left, mod-eq_of_lt,
}

mod_double : (x p : ℕ) → 1 ≤ p → x % (2 * p) ≡ x / 2 % p * 2 + min (x % 2) 1
mod_double x p h =
    let s = x / 2 % p * 2 + min (x % 2) 1 in
    let q = x / 2 / p in
    let halves : p * q + x / 2 % p ≡ x / 2 = omega (arith, mod-add-div (x / 2) p) in
    let small : x / 2 % p < p = mod-lt (x / 2) h in
    let product : 2 * p * q ≡ 2 * (p * q) = mul_assoc 2 p q in
    let low : min (x % 2) 1 ≡ x % 2 = ground arith in
    let whole : x ≡ 2 * p * q + s = omega (arith, halves, product, low) in
    let fits : s < 2 * p = omega (arith, small, low) in
    ap (λ n. n % (2 * p)) whole ∙ mul-add-mod_self_left (2 * p) q s ∙ mod-eq_of_lt fits

-- The digits of `a` below `k`, with fuel for all of them
low_digits : (n a k : ℕ) → a ≤ n → digits (λ b. 0) min n a (2 ^ k - 1) ≡ a % 2 ^ k
low_digits zero zero k h = ground (arith, one-le-pow k 2)
low_digits zero (suc a) k h = absurd (omega arith)
low_digits (suc n) zero k h = ground (arith, one-le-pow k 2)
low_digits (suc n) (suc a) zero h = ground (arith, low_digits n (suc a / 2) zero (omega arith))
low_digits (suc n) (suc a) (suc k) h =
    let half = suc a / 2 in
    let p = 2 ^ k in
    let pos : 1 ≤ p = one-le-pow k 2 (omega arith) in
    let double : 2 ^ suc k ≡ 2 * p = omega (arith, pow-suc 2 k) in
    let mask_half : (2 ^ suc k - 1) / 2 ≡ p - 1 = rw double (omega arith) in
    let mask_low : (2 ^ suc k - 1) % 2 ≡ 1 = rw double (omega arith) in
    ground (
      arith,
      mask_half,
      mask_low,
      low_digits n half k (omega arith),
      double,
      mod_double (suc a) p pos,
    )

pub bit_and_mask : (a k : ℕ) → bit_and a (2 ^ k - 1) ≡ a % 2 ^ k
bit_and_mask a k = simp bit_and-bitwise (low_digits a a k (omega arith))

-- Positions less than a size apart are in different cells.
pub cells_differ : (n a b : ℕ) → a < b → b < a + n → a % n ≢ b % n
cells_differ n a b h h' same =
    let qa = a / n in
    let qb = b / n in
    let ea : a % n + n * qa ≡ a = mod-add-div a n in
    let eb : b % n + n * qb ≡ b = mod-add-div b n in
    elim (dec_lt qa qb) [
      | yes p ↦
          let more : n * suc qa ≤ n * qb = mul-le-mul_left n p in
          omega (arith, ea, eb, same, more, mul-suc n qa)
      | no p ↦
          let less : n * qb ≤ n * qa = mul-le-mul_left n (omega arith) in
          omega (arith, ea, eb, same, less)
    ]
