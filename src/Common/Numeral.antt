-- ===== src/Common/Numeral.antt =====
-- Numbers read from texts, and texts cut at a unit.
use Prim.Native.Nat.{ℕ, zero, suc, ◌+◌, ◌-◌, ◌*◌, ◌/◌, ◌%◌}
use mathlib.Core.Bool.{Bool, ◌&&◌, ◌||◌}
use mathlib.Core.Option.{Option, none, some}
use mathlib.Core.List.{[], ◌∷◌}
use cumulusvpn.Common.Tests.{ltb, leb, ◌==◌, if◌then◌else◌}
use cumulusvpn.Common.Lists.{length}
use cumulusvpn.Common.Text.{Text}

abbrev pub is_digit : ℕ → Bool
is_digit c = leb 48 c && leb c 57

-- The value of a text of digits alone, behind the value `acc`.
unfoldable pub digits : ℕ → Text → Option ℕ
digits acc [] = some acc
digits acc (c ∷ s) = let rest = digits (acc * 10 + (c - 48)) s in if is_digit c then rest else none

-- `/^\d{1,n}$/`
unfoldable pub number_up_to : ℕ → Text → Option ℕ
number_up_to n s = if leb 1 (length s) && leb (length s) n then digits 0 s else none

unfoldable pub before_unit : ℕ → Text → Text
before_unit c [] = []
before_unit c (x ∷ xs) = let rest = before_unit c xs in if x == c then [] else x ∷ rest

unfoldable pub after_unit : ℕ → Text → Text
after_unit c [] = []
after_unit c (x ∷ xs) = let rest = after_unit c xs in if x == c then xs else rest

abbrev pub is_hex : ℕ → Bool
is_hex c = is_digit c || ((leb 97 c && leb c 102) || (leb 65 c && leb c 70))

-- The value of one unit of `[0-9a-fA-F]`.
abbrev pub hex_value : ℕ → ℕ
hex_value c = if leb c 57 then c - 48 else if leb c 70 then c - 55 else c - 87

unfoldable pub hex_digits : ℕ → Text → Option ℕ
hex_digits acc [] = some acc
hex_digits acc (c ∷ s) =
    let rest = hex_digits (acc * 16 + hex_value c) s in if is_hex c then rest else none

-- `/^[0-9a-fA-F]{1,n}$/` and the value
unfoldable pub hex_up_to : ℕ → Text → Option ℕ
hex_up_to n s = if leb 1 (length s) && leb (length s) n then hex_digits 0 s else none

-- `toString(16)` of a digit, and of a number below 16 ^ fuel
abbrev pub hex_unit : ℕ → ℕ
hex_unit d = if ltb d 10 then 48 + d else 87 + d

unfoldable pub hex_onto : ℕ → ℕ → Text → Text
hex_onto zero n rest = rest
hex_onto (suc fuel) n rest =
    let longer = hex_onto fuel (n / 16) (hex_unit (n % 16) ∷ rest) in
    if ltb n 16 then hex_unit n ∷ rest else longer
