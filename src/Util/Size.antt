-- ===== src/Util/Size.antt =====
-- size_str_to_uint64 of src/shared/sgxlkl_util.c
use rkt_io.Common.{ℕ, ◌*◌, ◌^◌, ◌<◌, ◌≡◌, ◌⊎◌, inl, inr, refl, arith, List, [], ◌∷◌, min}
use rkt_io.Util.{Strtoull, multiplier, number_or, size_str_to_uint64}

-- The units
multiplier-cases :
    (s : List ℕ)
    → (multiplier s ≡ 1)
      ⊎ ((multiplier s ≡ 1024) ⊎ ((multiplier s ≡ 1048576) ⊎ (multiplier s ≡ 1073741824)))
multiplier-cases [] = inl refl
multiplier-cases (c ∷ s) = ground arith

-- The result is the number times its unit, taken without any overflow, or the maximum if that is less.
pub size_str_to_uint64_lem :
    (strtoull : List ℕ → Strtoull) (str : List ℕ) (def max : ℕ)
    → max < 2 ^ 64
    → size_str_to_uint64 strtoull str def max
      ≡ min (number_or (strtoull str) def * multiplier (strtoull str).endptr) max
unfolding size_str_to_uint64
size_str_to_uint64_lem strtoull str def max small = elim (multiplier-cases (strtoull str).endptr) [
  | inl e ↦ ground (arith, e)
  | inr (inl e) ↦ ground (arith, e)
  | inr (inr (inl e)) ↦ ground (arith, e)
  | inr (inr (inr e)) ↦ ground (arith, e)
]
