-- ===== src/Util/Pow2.antt =====
-- next_pow2 of src/shared/sgxlkl_util.c
use rkt_io.Common.{
  ℕ, zero, suc, ◌+◌, ◌*◌, ◌%◌, ◌^◌, ◌<◌, ◌≤◌, ◌≡◌, ◌⊎◌, inl, inr, refl, ap, arith, some, none,
  dec_lt,
}
use rkt_io.Util.{pow2_loop, next_pow2}
use native.Mathlib.Nat.{pow-suc, pow-le-pow_right}

grow : (i j : ℕ) → i ≤ j → 2 ^ i ≤ 2 ^ j
grow i j h = pow-le-pow_right (omega arith) h

exponent : (k x : ℕ) → 2 ^ k < x → x ≤ 2 ^ 63 → k < 63
exponent k x p h = elim (dec_lt k 63) [
  | yes q ↦ q
  | no q ↦ let over : 2 ^ 63 ≤ 2 ^ k = grow 63 k (omega arith) in absurd (omega (arith, over))
]

next_exponent : (k x j : ℕ) → 2 ^ k < x → x ≤ 2 ^ j → suc k ≤ j
next_exponent k x j p h = elim (dec_lt k j) [
  | yes q ↦ q
  | no q ↦ let over : 2 ^ j ≤ 2 ^ k = grow j k (omega arith) in absurd (omega (arith, over))
]

-- From a power that is not enough yet
loop_ends :
    (fuel x k : ℕ)
    → x ≤ 2 ^ 63
    → k + fuel ≡ 64
    → k ≤ 63
    → ((j : ℕ) → x ≤ 2 ^ j → k ≤ j)
    → (r : ℕ) × (pow2_loop fuel x (2 ^ k) ≡ some (2 ^ r))
      × (x ≤ 2 ^ r)
      × ((j : ℕ) → x ≤ 2 ^ j → r ≤ j)
unfolding pow2_loop
loop_ends zero x k small left top least = absurd (omega arith)
loop_ends (suc fuel) x k small left top least = elim (dec_lt (2 ^ k) x) [
  | no p ↦ (k, ground arith, omega arith, least)
  | yes p ↦
      let below : k < 63 = exponent k x p small in
      let double : 2 ^ suc k ≡ 2 ^ k * 2 = pow-suc 2 k in
      let fits : 2 ^ suc k ≤ 2 ^ 63 = grow (suc k) 63 (omega (arith, below)) in
      let further : (j : ℕ) → x ≤ 2 ^ j → suc k ≤ j = λ j h. next_exponent k x j p h in
      let (r, ends, over, best) =
        loop_ends fuel x (suc k) small (omega arith) (omega (arith, below)) further in
      let shifted : 2 ^ k * 2 % 2 ^ 64 ≡ 2 ^ suc k = omega (arith, double, fits) in
      (r, ground (arith, shifted, ends), over, best)
]

zero_forever : (fuel x : ℕ) → 0 < x → pow2_loop fuel x 0 ≡ none
unfolding pow2_loop
zero_forever zero x h = refl
zero_forever (suc fuel) x h = ground (arith, zero_forever fuel x h)

forever : (fuel x k : ℕ) → 2 ^ 63 < x → k ≤ 63 → pow2_loop fuel x (2 ^ k) ≡ none
unfolding pow2_loop
forever zero x k big top = refl
forever (suc fuel) x k big top =
    let low : 2 ^ k ≤ 2 ^ 63 = grow k 63 top in
    let double : 2 ^ suc k ≡ 2 ^ k * 2 = pow-suc 2 k in
    elim (dec_lt k 63) [
      | yes p ↦
          let fits : 2 ^ suc k ≤ 2 ^ 63 = grow (suc k) 63 p in
          let shifted : 2 ^ k * 2 % 2 ^ 64 ≡ 2 ^ suc k = omega (arith, double, fits) in
          ground (arith, shifted, forever fuel x (suc k) big p)
      | no p ↦
          let last : k ≡ 63 = omega arith in
          let whole : 2 ^ k ≡ 2 ^ 63 = ap (λ j. 2 ^ j) last in
          let lost : 2 ^ k * 2 % 2 ^ 64 ≡ 0 = omega (arith, whole) in
          ground (arith, lost, zero_forever fuel x (omega (arith, big)))
    ]

-- Up to 2 ^ 63, next_pow2 ends within 64 rounds with the least power of 2 that is not less than its argument; for
-- every argument above 2 ^ 63 it never ends, however many rounds it is given.
pub next_pow2_lem :
    (x : ℕ)
    → ((x ≤ 2 ^ 63)
        × (r : ℕ) × (next_pow2 64 x ≡ some (2 ^ r))
        × (x ≤ 2 ^ r)
        × ((j : ℕ) → x ≤ 2 ^ j → r ≤ j))
      ⊎ ((2 ^ 63 < x) × ((fuel : ℕ) → next_pow2 fuel x ≡ none))
unfolding next_pow2
next_pow2_lem x = elim (dec_lt (2 ^ 63) x) [
  | yes p ↦ inr (p, λ fuel. forever fuel x 0 p (omega arith))
  | no p ↦
      let (r, ends, over, best) =
        loop_ends 64 x 0 (omega arith) refl (omega arith) (λ j h. omega arith) in
      inl (omega arith, r, ends, over, best)
]
