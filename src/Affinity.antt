-- ===== src/Affinity.antt =====
-- parse_cpu_affinity_params of src/main/sgxlkl_run.c, which reads a list of cores such as 0-2,4. The string is the list of its
-- bytes; strtol and the number of processors are arguments.
pub mod Bounds
mod Tests
use rkt_io.Common.{
  ℕ, zero, suc, ◌+◌, ◌-◌, Bool, true, false, not, ◌&&◌, ltb, leb, ◌==◌, if◌then◌else◌, Option, some,
  none, List, [], ◌∷◌, ◌++◌, length,
}

-- What strtol in base 10 gives for a string that starts with a digit: the value and what is left of the string
abbrev pub Strtol : Type 0
Strtol = List ℕ → ℕ × List ℕ

abbrev pub is_digit : ℕ → Bool
is_digit c = leb b'0' c && leb c b'9'

-- The loop over a range, from its end down to its start, which is in the list already; also the value that is left
unfoldable pub range_loop : ℕ → ℕ → ℕ → List ℕ → List ℕ × ℕ
range_loop nproc range_start zero cores = (cores, zero)
range_loop nproc range_start (suc val) cores =
    let rest = range_loop nproc range_start val (cores ++ (suc val ∷ [])) in
    if ltb range_start (suc val) && ltb (length cores) nproc then rest else (cores, suc val)

-- A number, alone or at the end of a range, and the rest of the loop
unfoldable pub after_number :
    (List ℕ → ℕ → Option ℕ → List ℕ → Option (List ℕ))
    → ℕ
    → List ℕ
    → ℕ
    → Option ℕ
    → List ℕ
    → Option (List ℕ)
unfolding range_loop
after_number go nproc rest val none cores = go rest val none (cores ++ (val ∷ []))
after_number go nproc rest val (some start) cores =
    let filled = range_loop nproc start val cores in go rest filled.1 none filled.0

-- The loop over the string, with fuel. `range_start` is `none` for -1; the array is as long as the list, and `cores_len`
-- is the list's length.
unfoldable pub params_loop : Strtol → ℕ → ℕ → List ℕ → ℕ → Option ℕ → List ℕ → Option (List ℕ)
unfolding after_number
params_loop strtol nproc zero str val range_start cores = none
params_loop strtol nproc (suc fuel) [] val range_start cores = some cores
params_loop strtol nproc (suc fuel) (c ∷ str) val range_start cores =
    let go = params_loop strtol nproc fuel in
    let read = strtol (c ∷ str) in
    let next = after_number go nproc read.1 read.0 range_start cores in
    if not (ltb (length cores) nproc)
    then some cores
    else if is_digit c
    then (if not (ltb read.0 nproc) then some cores else next)
    else if c == b','
    then go str val range_start cores
    else if c == b'-'
    then go str val (some val) cores
    else some cores

-- `none` is a null pointer; the empty list is `*cores_len` of 0.
unfoldable pub parse_cpu_affinity_params : Strtol → ℕ → ℕ → Option (List ℕ) → Option (List ℕ)
unfolding params_loop
parse_cpu_affinity_params strtol nproc fuel none = some []
parse_cpu_affinity_params strtol nproc fuel (some config) =
    params_loop strtol nproc fuel config 0 none []
