-- ===== src/Split/Digits.antt =====
-- The numbers in the texts of addresses: decimal octets and prefixes, hexadecimal groups.
use cumulusvpn.Common.{
  ℕ, zero, suc, ◌+◌, ◌*◌, ◌/◌, ◌%◌, ◌^◌, ◌≤◌, ◌<◌, ◌≡◌, refl, ap, ◌∙◌, inl, inr, Bool, true, false,
  ◌&&◌, Option, none, some, [], ◌∷◌, ltb, leb, ◌==◌, if◌then◌else◌, length, All, Bool-cases, arith,
}
use cumulusvpn.Common.Decimal.{decimal}
use cumulusvpn.Common.Numeral.{
  is_digit, digits, number_up_to, is_hex, hex_value, hex_digits, hex_up_to, hex_unit, hex_onto,
}
use cumulusvpn.Common.Text.{Text}
use cumulusvpn.Split.Address.{octet, hex}
use native.Mathlib.Nat.{pow-suc}

abbrev pub IsDigits : Text → Type 0
IsDigits s = All (λ c. is_digit c ≡ true) s

abbrev pub IsHexText : Text → Type 0
IsHexText s = All (λ c. is_hex c ≡ true) s

unfoldable all_digits : Text → Bool
all_digits [] = true
all_digits (c ∷ s) = is_digit c && all_digits s

all_digits-IsDigits : (s : Text) → all_digits s ≡ true → IsDigits s
unfolding all_digits
all_digits-IsDigits [] h = tt
all_digits-IsDigits (c ∷ s) h = (ground (arith, h), all_digits-IsDigits s (ground (arith, h)))

unfoldable is_value : ℕ → Option ℕ → Bool
is_value n none = false
is_value n (some m) = m == n

is_value-some : (n : ℕ) (r : Option ℕ) → is_value n r ≡ true → r ≡ some n
unfolding is_value
is_value-some n none h = ground (arith, h)
is_value-some n (some m) h = ap some (ground (arith, h))

-- Both readers get a number below 256 back from its text.
unfoldable reads_back : ℕ → Bool
unfolding is_value all_digits
reads_back n =
    is_value n (octet (decimal n))
    && (is_value n (number_up_to 3 (decimal n)) && all_digits (decimal n))

unfoldable all_below : ℕ → Bool
unfolding reads_back
all_below zero = true
all_below (suc n) = reads_back n && all_below n

all_below-lt : (k n : ℕ) → all_below k ≡ true → n < k → reads_back n ≡ true
unfolding all_below
all_below-lt zero n h l = ground (arith, l)
all_below-lt (suc k) n h l = elim (Bool-cases (n == k)) [
  | inl same ↦ rw (equal same) (ground (arith, h))
  | inr differ ↦ all_below-lt k n (ground (arith, h)) (ground (arith, l, differ))
]
  where
    equal : (n == k) ≡ true → n ≡ k
    equal e = ground (arith, e)

bytes_read_back : all_below 256 ≡ true
unfolding all_below octet decimal number_up_to digits
bytes_read_back = refl

byte_reads_back : (n : ℕ) → n < 256 → reads_back n ≡ true
byte_reads_back n l = all_below-lt 256 n bytes_read_back l

pub octet-decimal : (n : ℕ) → n < 256 → octet (decimal n) ≡ some n
unfolding reads_back
octet-decimal n l = is_value-some n (octet (decimal n)) (ground (arith, byte_reads_back n l))

pub number_up_to-decimal : (n : ℕ) → n < 256 → number_up_to 3 (decimal n) ≡ some n
unfolding reads_back
number_up_to-decimal n l =
    is_value-some n (number_up_to 3 (decimal n)) (ground (arith, byte_reads_back n l))

pub decimal-IsDigits : (n : ℕ) → n < 256 → IsDigits (decimal n)
unfolding reads_back
decimal-IsDigits n l = all_digits-IsDigits (decimal n) (ground (arith, byte_reads_back n l))

hex_unit_value : (d : ℕ) → d < 16 → hex_value (hex_unit d) ≡ d
hex_unit_value d l = ground arith

pub hex_unit-is_hex : (d : ℕ) → d < 16 → is_hex (hex_unit d) ≡ true
hex_unit-is_hex d l = ground arith

div-lt_pow : (k m : ℕ) → m < 16 ^ suc k → m / 16 < 16 ^ k
div-lt_pow k m h = omega (arith, h, pow-suc 16 k)

hex_digits_unit :
    (acc d : ℕ) (rest : Text)
    → d < 16
    → hex_digits acc (hex_unit d ∷ rest) ≡ hex_digits (acc * 16 + d) rest
unfolding hex_digits
hex_digits_unit acc d rest l =
    ap (λ b. if b then hex_digits (acc * 16 + hex_value (hex_unit d)) rest else none)
      (hex_unit-is_hex d l)
    ∙ ap (λ v. hex_digits (acc * 16 + v) rest) (hex_unit_value d l)

-- The digits of `n` in front of a text are read as the value in front of the text.
hex_digits-hex_onto :
    (fuel n : ℕ) (rest : Text)
    → n < 16 ^ fuel
    → hex_digits 0 (hex_onto fuel n rest) ≡ hex_digits n rest
unfolding hex_onto
hex_digits-hex_onto zero n rest l = ap (λ m. hex_digits m rest) (omega (arith, l))
hex_digits-hex_onto (suc fuel) n rest l = elim (Bool-cases (ltb n 16)) [
  | inl small ↦
      rw small (
        hex_digits_unit 0 n rest (ground (arith, small))
        ∙ ap (λ m. hex_digits m rest) (omega arith))
  | inr large ↦ rw large (
      hex_digits-hex_onto fuel (n / 16) (hex_unit (n % 16) ∷ rest) (div-lt_pow fuel n l)
      ∙ (hex_digits_unit (n / 16) (n % 16) rest (omega arith)
          ∙ ap (λ m. hex_digits m rest) (omega arith)))
]

hex_onto-IsHexText :
    (fuel n : ℕ) (rest : Text) → IsHexText rest → n < 16 ^ fuel → IsHexText (hex_onto fuel n rest)
unfolding hex_onto
hex_onto-IsHexText zero n rest h l = h
hex_onto-IsHexText (suc fuel) n rest h l = elim (Bool-cases (ltb n 16)) [
  | inl small ↦ rw small (hex_unit-is_hex n (ground (arith, small)), h)
  | inr large ↦ rw large (
      hex_onto-IsHexText fuel (n / 16) (hex_unit (n % 16) ∷ rest)
        (hex_unit-is_hex (n % 16) (omega arith), h) (div-lt_pow fuel n l))
]

hex_onto-length_le : (fuel n : ℕ) (rest : Text) → length (hex_onto fuel n rest) ≤ fuel + length rest
unfolding hex_onto
hex_onto-length_le zero n rest = omega arith
hex_onto-length_le (suc fuel) n rest =
    ground (arith, hex_onto-length_le fuel (n / 16) (hex_unit (n % 16) ∷ rest))

hex_onto-length_ge : (fuel n : ℕ) (rest : Text) → length rest ≤ length (hex_onto fuel n rest)
unfolding hex_onto
hex_onto-length_ge zero n rest = omega arith
hex_onto-length_ge (suc fuel) n rest =
    ground (arith, hex_onto-length_ge fuel (n / 16) (hex_unit (n % 16) ∷ rest))

pub hex_length_pos : (n : ℕ) → 1 ≤ length (hex n)
unfolding hex_onto
hex_length_pos n = ground (arith, hex_onto-length_ge 3 (n / 16) (hex_unit (n % 16) ∷ []))

pub hex_up_to-hex : (g : ℕ) → g < 65536 → hex_up_to 4 (hex g) ≡ some g
unfolding hex_up_to hex_digits
hex_up_to-hex g l = rw (in_range, hex_digits-hex_onto 4 g [] (omega (arith, l))) value
  where
    in_range : (leb 1 (length (hex g)) && leb (length (hex g)) 4) ≡ true
    in_range = ground (arith, hex_length_pos g, hex_onto-length_le 4 g [])

    value : hex_digits g [] ≡ some g
    value = refl

pub hex-IsHexText : (g : ℕ) → g < 65536 → IsHexText (hex g)
hex-IsHexText g l = hex_onto-IsHexText 4 g [] tt (omega (arith, l))
