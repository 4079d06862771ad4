-- ===== src/Affinity/Tests.antt =====
-- The theorem on parse_cpu_affinity_params of src/main/sgxlkl_run.c at 1-3,0.
use rkt_io.Common.{ℕ, ◌-◌, ◌≡◌, ◌≤◌, refl, arith, some, List, [], ◌∷◌, length}
use rkt_io.Affinity.{Strtol, parse_cpu_affinity_params}
use rkt_io.Affinity.Bounds.{AllBelow, parse_cpu_affinity_params_lem}

abbrev one_digit : Strtol
one_digit [] = (0, [])
one_digit (c ∷ str) = (c - b'0', str)

abbrev ranges : List ℕ
ranges = b'1' ∷ b'-' ∷ b'3' ∷ b',' ∷ b'0' ∷ []

cores_of_ranges : parse_cpu_affinity_params one_digit 4 6 (some ranges) ≡ some (1 ∷ 3 ∷ 2 ∷ 0 ∷ [])
unfolding parse_cpu_affinity_params
cores_of_ranges = refl

parse_cpu_affinity_params_lem_example :
    (cores : List ℕ) × (parse_cpu_affinity_params one_digit 4 6 (some ranges) ≡ some cores)
    × (length cores ≤ 4)
    × AllBelow 4 cores
parse_cpu_affinity_params_lem_example =
    parse_cpu_affinity_params_lem one_digit 4 6 ranges (λ c str digit. omega arith) (omega arith)
