-- ===== src/Affinity/Bounds.antt =====
-- The cores that parse_cpu_affinity_params of src/main/sgxlkl_run.c gives
use rkt_io.Common.{
  ℕ, zero, suc, ◌<◌, ◌≤◌, ◌≡◌, refl, arith, Bool, true, false, not, ◌&&◌, ltb, ltb→lt, ◌==◌,
  if◌then◌else◌, Option, some, none, List, [], ◌∷◌, ◌++◌, length, length-append,
}
use rkt_io.Affinity.{
  Strtol, is_digit, range_loop, after_number, params_loop, parse_cpu_affinity_params,
}

-- What strtol does with a string that starts with a digit: it reads that at least.
abbrev pub ReadsDigits : Strtol → Type 0
ReadsDigits strtol =
    (c : ℕ) (str : List ℕ) → is_digit c ≡ true → length (strtol (c ∷ str)).1 ≤ length str

abbrev pub AllBelow : ℕ → List ℕ → Type 0
AllBelow n [] = Unit {0}
AllBelow n (x ∷ xs) = (x < n) × AllBelow n xs

AllBelow-append :
    (n : ℕ) (xs : List ℕ) (x : ℕ) → AllBelow n xs → x < n → AllBelow n (xs ++ (x ∷ []))
AllBelow-append n [] x all h = (h, _)
AllBelow-append n (y ∷ xs) x (below, all) h = (below, AllBelow-append n xs x all h)

-- No write behind the array, and no core that is not there
abbrev pub Fits : ℕ → List ℕ → Type 0
Fits nproc cores = (length cores ≤ nproc) × AllBelow nproc cores

Fits-append :
    (nproc : ℕ) (cores : List ℕ) (v : ℕ)
    → Fits nproc cores
    → length cores < nproc
    → v < nproc
    → Fits nproc (cores ++ (v ∷ []))
Fits-append nproc cores v (short, all) room below =
    (omega (arith, length-append cores (v ∷ [])), AllBelow-append nproc cores v all below)

Fits-range_loop :
    (nproc start val : ℕ) (cores : List ℕ)
    → val < nproc
    → Fits nproc cores
    → Fits nproc (range_loop nproc start val cores).0
unfolding range_loop
Fits-range_loop nproc start zero cores below fits = fits
Fits-range_loop nproc start (suc val) cores below fits =
    by_test (ltb start (suc val) && ltb (length cores) nproc) refl (λ room.
      Fits-range_loop nproc start val (cores ++ (suc val ∷ [])) (omega arith)
        (Fits-append nproc cores (suc val) fits room below))
  where
    by_test :
        (b : Bool)
        → (ltb start (suc val) && ltb (length cores) nproc) ≡ b
        → (length cores < nproc
            → Fits nproc (range_loop nproc start val (cores ++ (suc val ∷ []))).0)
        → Fits nproc
            (if b then range_loop nproc start val (cores ++ (suc val ∷ [])) else (cores, suc val)).0
    by_test true e rest = rest (ground (arith, e))
    by_test false e rest = fits

-- The loop ends with such a list.
abbrev Ends : ℕ → Option (List ℕ) → Type 0
Ends nproc r = (cores : List ℕ) × (r ≡ some cores) × Fits nproc cores

Ends-if :
    (nproc : ℕ) (b : Bool) (r t : Option (List ℕ))
    → (b ≡ true → Ends nproc r)
    → (b ≡ false → Ends nproc t)
    → Ends nproc (if b then r else t)
Ends-if nproc true r t p q = p refl
Ends-if nproc false r t p q = q refl

of_not : (b : Bool) → not b ≡ false → b ≡ true
of_not b e = ground (arith, e)

after_number-Ends :
    (go : List ℕ → ℕ → Option ℕ → List ℕ → Option (List ℕ)) (nproc : ℕ) (rest : List ℕ) (val : ℕ)
    (range_start : Option ℕ) (cores : List ℕ)
    → ((v : ℕ) (r : Option ℕ) (cs : List ℕ) → Fits nproc cs → Ends nproc (go rest v r cs))
    → length cores < nproc
    → val < nproc
    → Fits nproc cores
    → Ends nproc (after_number go nproc rest val range_start cores)
unfolding after_number
after_number-Ends go nproc rest val none cores ends room below fits =
    ends val none (cores ++ (val ∷ [])) (Fits-append nproc cores val fits room below)
after_number-Ends go nproc rest val (some start) cores ends room below fits =
    ends _ none _ (Fits-range_loop nproc start val cores below fits)

params_loop-Ends :
    (strtol : Strtol) (nproc : ℕ)
    → ReadsDigits strtol
    → (fuel : ℕ) (str : List ℕ) (val : ℕ) (range_start : Option ℕ) (cores : List ℕ)
    → length str < fuel
    → Fits nproc cores
    → Ends nproc (params_loop strtol nproc fuel str val range_start cores)
unfolding params_loop
params_loop-Ends strtol nproc reads zero str val range_start cores enough fits =
    absurd (omega arith)
params_loop-Ends strtol nproc reads (suc fuel) [] val range_start cores enough fits =
    (cores, refl, fits)
params_loop-Ends strtol nproc reads (suc fuel) (c ∷ str) val range_start cores enough fits =
    let stop : Ends nproc (some cores) = (cores, refl, fits) in
    let go = params_loop-Ends strtol nproc reads fuel in
    let read = strtol (c ∷ str) in
    Ends-if nproc (not (ltb (length cores) nproc)) _ _ (λ e. stop)
      (λ e.
        let room : length cores < nproc = ltb→lt _ _ (of_not _ e) in
        Ends-if nproc (is_digit c) _ _
          (λ digit.
            Ends-if nproc (not (ltb read.0 nproc)) _ _ (λ f. stop)
              (λ f.
                let below : read.0 < nproc = ltb→lt _ _ (of_not _ f) in
                let less : length read.1 < fuel = omega (arith, reads c str digit) in
                after_number-Ends (params_loop strtol nproc fuel) nproc read.1 read.0 range_start
                  cores (λ v r cs ok. go read.1 v r cs less ok) room below fits))
          (λ other.
            Ends-if nproc (c == b',') _ _ (λ f. go str val range_start cores (omega arith) fits)
              (λ f.
                Ends-if nproc (c == b'-') _ _ (λ g. go str val (some val) cores (omega arith) fits)
                  (λ g. stop))))

-- With more fuel than the string has bytes, parse_cpu_affinity_params ends; it gives at most as many cores as there are
-- processors, which is what the array has room for, each of them less than that number.
pub parse_cpu_affinity_params_lem :
    (strtol : Strtol) (nproc fuel : ℕ) (config : List ℕ)
    → ReadsDigits strtol
    → length config < fuel
    → (cores : List ℕ) × (parse_cpu_affinity_params strtol nproc fuel (some config) ≡ some cores)
      × (length cores ≤ nproc)
      × AllBelow nproc cores
unfolding parse_cpu_affinity_params
parse_cpu_affinity_params_lem strtol nproc fuel config reads enough =
    let (cores, ends, fits) =
      params_loop-Ends strtol nproc reads fuel config 0 none [] enough (omega arith, _) in
    (cores, ends, fits.0, fits.1)
