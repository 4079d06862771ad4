-- ===== src/Mem/Syscalls/Mmap/Reading.antt =====
-- What syscall_SYS_mmap of src/sgx/enclave_mem.c reads into a mapping
use rkt_io.Common.{
  ℕ, zero, suc, ◌+◌, ◌-◌, ◌%◌, ◌^◌, ◌<◌, ◌≤◌, ◌≡◌, ◌⊎◌, inr, refl, sym, ap, ◌∙◌, subst, arith,
  dec_lt, some, none,
}
use mathlib.Core.Path.{fun_ext}
use rkt_io.Disk.{transfer}
use rkt_io.Disk.Plain.Moves.{transfer-transfer}
use rkt_io.Mem.Syscalls.Mmap.{Answers, count, read_error, store, fill_from}

-- What read promises where it meets no error: it does not move more than it is asked for.
abbrev pub Reads : Answers → Type 0
Reads answers = (call left : ℕ) → (n : ℕ) × (answers call left ≡ count n) × (n ≤ left)

-- The bytes of the file that are read, and why no more of them
pub record Filled (answers : Answers) (file : ℕ → ℕ) (addr length offset : ℕ) (mem after : ℕ → ℕ)
    : Type 0 where
  pub n : ℕ
  pub within : n ≤ length
  pub made : after ≡ transfer file offset mem addr n
  pub whole : (n ≡ length) ⊎ ((call : ℕ) × (answers call (length - n) ≡ count 0))

transfer-zero : (from : ℕ → ℕ) (src : ℕ) (to : ℕ → ℕ) (dst : ℕ) → to ≡ transfer from src to dst 0
unfolding transfer
transfer-zero from src to dst = fun_ext λ a. ground arith

-- Where no address wraps
store-transfer :
    (file : ℕ → ℕ) (src : ℕ) (mem : ℕ → ℕ) (dst n : ℕ)
    → dst + n ≤ 2 ^ 64
    → store file src mem dst n ≡ transfer file src mem dst n
unfolding store transfer
store-transfer file src mem dst n fits = fun_ext λ a. elim (dec_lt a dst) [
  | yes before ↦
      let i : (a + 2 ^ 64 - dst) % 2 ^ 64 ≡ a + 2 ^ 64 - dst = omega (arith, before, fits) in
      ground (arith, i, before, fits)
  | no after ↦ elim (dec_lt a (2 ^ 64)) [
    | yes small ↦
        let i : (a + 2 ^ 64 - dst) % 2 ^ 64 ≡ a - dst = omega (arith, after, small, fits) in
        ground (arith, i, after, small, fits)
    | no large ↦ ground (arith, large, fits)
  ]
]

-- From behind the bytes that were read
fill_from_rest :
    (answers : Answers) (file : ℕ → ℕ) (addr length : ℕ)
    → Reads answers
    → addr + length ≤ 2 ^ 64
    → length < 2 ^ 63
    → (fuel readb pos calls : ℕ) (mem : ℕ → ℕ) → readb ≤ length
    → length < readb + fuel
    → (after : ℕ → ℕ) × (fill_from fuel answers file addr length readb pos calls mem ≡ some after)
      × (n : ℕ) × (readb + n ≤ length)
      × (after ≡ transfer file pos mem (addr + readb) n)
      × ((readb + n ≡ length) ⊎ ((call : ℕ) × (answers call (length - (readb + n)) ≡ count 0)))
unfolding fill_from
fill_from_rest answers file addr length reads fits small zero readb pos calls mem below enough =
    absurd (omega arith)
fill_from_rest answers file addr length reads fits small (suc fuel) readb pos calls mem below
      enough =
    let left : (length + 2 ^ 64 - readb) % 2 ^ 64 ≡ length - readb = omega arith in
    by_count left
      (λ r p c m h k. fill_from_rest answers file addr length reads fits small fuel r p c m h k)
      (reads calls (length - readb))
  where
    by_count :
        (length + 2 ^ 64 - readb) % 2 ^ 64 ≡ length - readb
        → ((r p c : ℕ) (m : ℕ → ℕ)
            → r ≤ length
            → length < r + fuel
            → (after : ℕ → ℕ) × (fill_from fuel answers file addr length r p c m ≡ some after)
              × (n : ℕ) × (r + n ≤ length)
              × (after ≡ transfer file p m (addr + r) n)
              × ((r + n ≡ length) ⊎ ((call : ℕ) × (answers call (length - (r + n)) ≡ count 0))))
        → ((n : ℕ) × (answers calls (length - readb) ≡ count n) × (n ≤ length - readb))
        → (after : ℕ → ℕ) × (fill_from (suc fuel) answers file addr length readb pos calls mem
            ≡ some after)
          × (n : ℕ) × (readb + n ≤ length)
          × (after ≡ transfer file pos mem (addr + readb) n)
          × ((readb + n ≡ length) ⊎ ((call : ℕ) × (answers call (length - (readb + n)) ≡ count 0)))
    by_count left rest (zero, e, h) =
        let same : readb + 0 ≡ readb = omega arith in
        (
          mem,
          ground (arith, left, e),
          0,
          omega arith,
          transfer-zero file pos mem (addr + readb),
          inr (calls, subst (λ k. answers calls (length - k) ≡ count 0) (sym same) e),
        )
    by_count left rest (suc n, e, h) =
        let io = transfer file pos mem (addr + readb) (suc n) in
        let (after, ends, m, within, made, whole) =
          rest (readb + suc n) (pos + suc n) (calls + 1) io (omega arith) (omega arith) in
        let next : (readb + suc n) % 2 ^ 64 ≡ readb + suc n = omega (arith, fits, small) in
        let place : (addr + readb) % 2 ^ 64 ≡ addr + readb = omega (arith, fits) in
        let stored = store-transfer file pos mem (addr + readb) (suc n) (omega (arith, fits)) in
        let there : addr + (readb + suc n) ≡ addr + readb + suc n = omega arith in
        let far : readb + suc n + m ≡ readb + (suc n + m) = omega arith in
        (
          after,
          ground (arith, left, e, next, place, stored, ends),
          suc n + m,
          omega (arith, within),
          made
              ∙ ap (λ d. transfer file (pos + suc n) io d m) there
              ∙ transfer-transfer file mem pos (addr + readb) (suc n) m,
          subst (λ k. (k ≡ length) ⊎ ((call : ℕ) × (answers call (length - k) ≡ count 0))) far
              whole,
        )

pub fill_from_start :
    (answers : Answers) (file : ℕ → ℕ) (addr length offset fuel : ℕ) (mem : ℕ → ℕ)
    → Reads answers
    → addr + length ≤ 2 ^ 64
    → length < 2 ^ 63
    → length < fuel
    → (after : ℕ → ℕ) × (fill_from fuel answers file addr length 0 offset 0 mem ≡ some after)
      × Filled answers file addr length offset mem after
fill_from_start answers file addr length offset fuel mem reads fits small enough =
    let (after, ends, n, within, made, whole) =
      fill_from_rest answers file addr length reads fits small fuel 0 offset 0 mem (omega arith)
        (omega arith) in
    let start : addr + 0 ≡ addr = omega arith in
    let none_before : 0 + n ≡ n = omega arith in
    (
      after,
      ends,
      record {
        n = n;
        within = omega (arith, within);
        made = made ∙ ap (λ d. transfer file offset mem d n) start;
        whole =
            subst (λ k. (k ≡ length) ⊎ ((call : ℕ) × (answers call (length - k) ≡ count 0)))
              none_before whole;
      },
    )

-- Wherever it writes
pub fill_from_ends :
    (answers : Answers) (file : ℕ → ℕ) (addr length : ℕ)
    → Reads answers
    → length < 2 ^ 63
    → (fuel readb pos calls : ℕ) (mem : ℕ → ℕ) → readb ≤ length
    → length < readb + fuel
    → (after : ℕ → ℕ) × (fill_from fuel answers file addr length readb pos calls mem ≡ some after)
unfolding fill_from
fill_from_ends answers file addr length reads small zero readb pos calls mem below enough =
    absurd (omega arith)
fill_from_ends answers file addr length reads small (suc fuel) readb pos calls mem below enough =
    let left : (length + 2 ^ 64 - readb) % 2 ^ 64 ≡ length - readb = omega arith in
    by_count left
      (λ r p c m h k. fill_from_ends answers file addr length reads small fuel r p c m h k)
      (reads calls (length - readb))
  where
    by_count :
        (length + 2 ^ 64 - readb) % 2 ^ 64 ≡ length - readb
        → ((r p c : ℕ) (m : ℕ → ℕ)
            → r ≤ length
            → length < r + fuel
            → (after : ℕ → ℕ) × (fill_from fuel answers file addr length r p c m ≡ some after))
        → ((n : ℕ) × (answers calls (length - readb) ≡ count n) × (n ≤ length - readb))
        → (after : ℕ → ℕ) × (fill_from (suc fuel) answers file addr length readb pos calls mem
            ≡ some after)
    by_count left rest (zero, e, h) = (mem, ground (arith, left, e))
    by_count left rest (suc n, e, h) =
        let io = store file pos mem ((addr + readb) % 2 ^ 64) (suc n) in
        let (after, ends) =
          rest (readb + suc n) (pos + suc n) (calls + 1) io (omega arith) (omega arith) in
        let next : (readb + suc n) % 2 ^ 64 ≡ readb + suc n = omega (arith, small) in
        (after, ground (arith, left, e, next, ends))

-- Reads that fail each time
pub fill_from_forever :
    (answers : Answers) (file : ℕ → ℕ) (addr length : ℕ)
    → ((call left : ℕ) → answers call left ≡ read_error)
    → (fuel readb pos calls : ℕ) (mem : ℕ → ℕ)
    → fill_from fuel answers file addr length readb pos calls mem ≡ none
unfolding fill_from
fill_from_forever answers file addr length fails zero readb pos calls mem = refl
fill_from_forever answers file addr length fails (suc fuel) readb pos calls mem =
    let failed_now = fails calls ((length + 2 ^ 64 - readb) % 2 ^ 64) in
    let later =
      fill_from_forever answers file addr length fails fuel ((readb + (2 ^ 64 - 1)) % 2 ^ 64) pos
        (calls + 1) mem in
    ground (arith, failed_now, later)
