-- ===== src/Util/Hex.antt =====
-- hex_to_bytes of src/shared/sgxlkl_util.c
use rkt_io.Common.{
  ℕ, ◌+◌, ◌*◌, ◌-◌, ◌/◌, ◌%◌, ◌<◌, ◌≡◌, refl, arith, ltb, if◌then◌else◌, true, some, List, [], ◌∷◌,
  length,
}
use rkt_io.Util.{hex_loop, hex_to_bytes, bytes, failed, einval}

abbrev pub hex_digit : ℕ → ℕ
hex_digit n = if ltb n 10 then b'0' + n else b'a' + (n - 10)

abbrev pub to_hex : List ℕ → List ℕ
to_hex [] = []
to_hex (b ∷ bs) = hex_digit (b / 16) ∷ hex_digit (b % 16) ∷ to_hex bs

abbrev pub AllBytes : List ℕ → Type 0
AllBytes [] = Unit {0}
AllBytes (b ∷ bs) = (b < 256) × AllBytes bs

-- What strtoul in base 16 does on two digits and on the empty string
pub record ReadsHex (strtoul : List ℕ → ℕ × ℕ) : Type 0 where
  pub two_digits :
      (b : ℕ) → b < 256 → strtoul (hex_digit (b / 16) ∷ hex_digit (b % 16) ∷ []) ≡ (b, 2)
  pub nothing : strtoul [] ≡ (0, 0)

-- An strtoul for small digits
abbrev pub hex_value : ℕ → ℕ
hex_value c = if ltb c b'a' then c - b'0' else c - b'a' + 10

abbrev pub read_hex : List ℕ → ℕ × ℕ
read_hex [] = (0, 0)
read_hex (a ∷ []) = (hex_value a, 1)
read_hex (a ∷ b ∷ rest) = (hex_value a * 16 + hex_value b, 2)

pub read_hex-ReadsHex : ReadsHex read_hex
read_hex-ReadsHex = record { two_digits = λ b small. ground arith; nothing = refl }

even_length : (bs : List ℕ) → length (to_hex bs) % 2 ≡ 0
even_length [] = refl
even_length (b ∷ bs) = omega (arith, even_length bs)

hex_loop-to_hex :
    (strtoul : List ℕ → ℕ × ℕ)
    → ReadsHex strtoul
    → (bs : List ℕ) → AllBytes bs
    → hex_loop strtoul (to_hex bs) ≡ some bs
unfolding hex_loop
hex_loop-to_hex strtoul reads [] all = refl
hex_loop-to_hex strtoul reads (b ∷ bs) (small, all) =
    let same : b % 256 ≡ b = omega arith in
    ground (arith, reads.two_digits b small, hex_loop-to_hex strtoul reads bs all, same)

-- The bytes that are printed as two hexadecimal digits each are read back; a string of odd length is refused, whatever
-- it is made of.
pub hex_to_bytes-to_hex :
    (strtoul : List ℕ → ℕ × ℕ) (bs odd : List ℕ)
    → ReadsHex strtoul
    → AllBytes bs
    → length odd % 2 ≡ 1
    → (hex_to_bytes strtoul true (to_hex bs) ≡ bytes bs)
      × (hex_to_bytes strtoul true odd ≡ failed einval)
unfolding hex_to_bytes
hex_to_bytes-to_hex strtoul bs odd reads all uneven = (
  ground (arith, even_length bs, hex_loop-to_hex strtoul reads bs all),
  ground (arith, reads.nothing),
)
