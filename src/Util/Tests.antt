-- ===== src/Util/Tests.antt =====
-- The theorems on src/shared/sgxlkl_util.c at small strings.
use rkt_io.Common.{ℕ, ◌^◌, ◌<◌, ◌≤◌, ◌≡◌, ◌⊎◌, some, none}
use rkt_io.Util.{next_pow2}
use rkt_io.Util.Pow2.{next_pow2_lem}

next_pow2_lem_example :
    ((5 ≤ 2 ^ 63)
      × (r : ℕ) × (next_pow2 64 5 ≡ some (2 ^ r))
      × (5 ≤ 2 ^ r)
      × ((j : ℕ) → 5 ≤ 2 ^ j → r ≤ j))
    ⊎ ((2 ^ 63 < 5) × ((fuel : ℕ) → next_pow2 fuel 5 ≡ none))
next_pow2_lem_example = next_pow2_lem 5
