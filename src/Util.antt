-- ===== src/Util.antt =====
-- src/shared/sgxlkl_util.c: numbers and flags from configuration strings, which are lists of their bytes. The C library's
-- strtoull, strtoul and getenv are arguments.
pub mod Size
pub mod Pow2
pub mod Hex
mod Tests
use rkt_io.Common.{
  ℕ, zero, suc, ◌+◌, ◌-◌, ◌*◌, ◌/◌, ◌%◌, ◌^◌, Bool, true, false, not, ◌&&◌, ltb, ◌==◌,
  if◌then◌else◌, Option, some, none, ◌>>=◌, List, [], ◌∷◌, length,
}

-- What strtoull in base 10 gives: the value, whether errno is ERANGE, and what is left of the string
pub record Strtoull : Type 0 where
  pub value : ℕ
  pub erange : Bool
  pub endptr : List ℕ

abbrev pub ulong_max : ℕ
ulong_max = 0xffffffffffffffff

-- The switch over the character behind the number, which falls through
abbrev pub multiplier : List ℕ → ℕ
multiplier [] = 1
multiplier (c ∷ rest) =
    if c == b'G'
    then 1073741824
    else if c == b'g'
    then 1073741824
    else if c == b'M'
    then 1048576
    else if c == b'm'
    then 1048576
    else if c == b'K'
    then 1024
    else if c == b'k'
    then 1024
    else 1

-- The number that was read, or the default if it does not fit
abbrev pub number_or : Strtoull → ℕ → ℕ
number_or p def = if p.value == ulong_max && p.erange then def else p.value

unfoldable pub size_str_to_uint64 : (List ℕ → Strtoull) → List ℕ → ℕ → ℕ → ℕ
size_str_to_uint64 strtoull str def max =
    let p = strtoull str in
    let r = number_or p def in
    let m = multiplier p.endptr in
    if ltb (ulong_max / m) r then max else if ltb max (r * m % 2 ^ 64) then max else r * m % 2 ^ 64

-- `getenv var` is `none` where the variable is not set.
unfoldable pub getenv_uint64 : (List ℕ → Strtoull) → (List ℕ → Option (List ℕ)) → List ℕ → ℕ → ℕ → ℕ
unfolding size_str_to_uint64
getenv_uint64 strtoull getenv var def max = elim (getenv var) [
  | none ↦ def
  | some val ↦ size_str_to_uint64 strtoull val def max
]

-- A copy of the string, or null; strdup finds memory.
unfoldable pub getenv_str : (List ℕ → Option (List ℕ)) → List ℕ → Option (List ℕ) → Option (List ℕ)
getenv_str getenv var def = elim (getenv var) [ none ↦ def | some val ↦ some val ]

-- strncmp with a text of one character, over one character
abbrev pub starts_with : ℕ → List ℕ → Bool
starts_with c [] = false
starts_with c (x ∷ xs) = x == c

unfoldable pub getenv_bool : (List ℕ → Option (List ℕ)) → List ℕ → Bool → Bool
getenv_bool getenv var def = elim (getenv var) [
  | none ↦ def
  | some val ↦ if def then not (starts_with b'0' val) else starts_with b'1' val
]

-- The loop of `next_pow2`, with fuel
unfoldable pub pow2_loop : ℕ → ℕ → ℕ → Option ℕ
pow2_loop zero x n = none
pow2_loop (suc fuel) x n =
    let again = pow2_loop fuel x (n * 2 % 2 ^ 64) in if ltb n x then again else some n

unfoldable pub next_pow2 : ℕ → ℕ → Option ℕ
unfolding pow2_loop
next_pow2 fuel x = pow2_loop fuel x 1

pub data HexError : Type 0 where
  enomem einval : HexError

pub data HexResult : Type 0 where
  bytes : List ℕ → HexResult
  failed : HexError → HexResult

-- strtoul in base 16 on the string in `buf`: the value, and how many characters it has read. The byte that it gives if it
-- has read both.
abbrev pub read_byte : (List ℕ → ℕ × ℕ) → List ℕ → Option ℕ
read_byte strtoul buf =
    let (value, consumed) = strtoul buf in if consumed == 2 then some (value % 256) else none

-- The loop over pairs of characters
unfoldable pub hex_loop : (List ℕ → ℕ × ℕ) → List ℕ → Option (List ℕ)
hex_loop strtoul [] = some []
hex_loop strtoul (a ∷ []) = some []
hex_loop strtoul (a ∷ b ∷ hex) = do
  byte ← read_byte strtoul (a ∷ b ∷ [])
  rest ← hex_loop strtoul hex
  some (byte ∷ rest)

abbrev pub or_einval : Option (List ℕ) → HexResult
or_einval none = failed einval
or_einval (some bs) = bytes bs

-- Where the length is odd, `buf` starts with a zero byte, and holds an empty string; the byte that is read from it stands before the
-- start of the result. `room` is whether malloc finds memory.
unfoldable pub hex_to_bytes : (List ℕ → ℕ × ℕ) → Bool → List ℕ → HexResult
unfolding hex_loop
hex_to_bytes strtoul room hex =
    if not room
    then failed enomem
    else if length hex % 2 == 0
    then or_einval (hex_loop strtoul hex)
    else elim (read_byte strtoul []) [
      | none ↦ failed einval
      | some byte ↦ or_einval (hex_loop strtoul (drop_first hex))
    ]
  where
    drop_first : List ℕ → List ℕ
    drop_first [] = []
    drop_first (c ∷ cs) = cs
