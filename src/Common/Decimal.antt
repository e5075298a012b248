-- ===== src/Common/Decimal.antt =====
-- Decimal text of a number, as the code points that a template literal prints.
use Prim.Native.Nat.{ℕ, zero, suc, ◌+◌, ◌/◌, ◌%◌}
use Prim.Native.Char.{code}
use Prim.Native.String
use Prim.Native.String.{String}
use mathlib.Core.List.{List, [], ◌∷◌}
use cumulusvpn.Common.Tests.{ltb, if◌then◌else◌}

-- The code points of a text: its UTF-16 units, if it is ASCII.
abbrev pub codes : String → List ℕ
codes String.[] = []
codes (String.◌∷◌ c s) = code c ∷ codes s

-- The digits of `n` in front of `rest`; `n + 1` rounds are more than a number has digits.
unfoldable pub decimal_onto : ℕ → ℕ → List ℕ → List ℕ
decimal_onto zero n rest = rest
decimal_onto (suc fuel) n rest =
    let longer = decimal_onto fuel (n / 10) ((b'0' + n % 10) ∷ rest) in
    if ltb n 10 then (b'0' + n) ∷ rest else longer

unfoldable pub decimal : ℕ → List ℕ
unfolding decimal_onto
decimal n = decimal_onto (suc n) n []

digit_text : ℕ → String
digit_text d =
    if ltb d 1
    then "0"
    else if ltb d 2
    then "1"
    else if ltb d 3
    then "2"
    else if ltb d 4
    then "3"
    else if ltb d 5
    then "4"
    else if ltb d 6
    then "5"
    else if ltb d 7
    then "6"
    else if ltb d 8
    then "7"
    else if ltb d 9
    then "8"
    else "9"

text_onto : ℕ → ℕ → String → String
text_onto zero n rest = rest
text_onto (suc fuel) n rest =
    let longer = text_onto fuel (n / 10) (String.◌++◌ (digit_text (n % 10)) rest) in
    if ltb n 10 then String.◌++◌ (digit_text n) rest else longer

-- The same text as a `String`.
unfoldable pub number_text : ℕ → String
unfolding text_onto digit_text
number_text n = text_onto (suc n) n ""
