-- ===== src/Split/Domain.antt =====
-- The domains of rules in clients/core-ts/src/split.ts: `punycodeEncode`, `isIpLiteral`,
-- `normalizeDomainValue`. A text is its UTF-16 units, a label its code points where it is encoded.
use mathlib.Core.Option
use mathlib.Core.List.{reverse}
use cumulusvpn.Common.{
  ℕ, zero, suc, ◌+◌, ◌-◌, ◌*◌, ◌/◌, ◌%◌, Bool, true, false, ◌&&◌, ◌||◌, Option, none, some, List,
  [], ◌∷◌, ◌++◌, ltb, leb, ◌==◌, if◌then◌else◌, length, drop, keep, min,
}
use cumulusvpn.Common.Text.{Text, text_eq, has_unit, split_unit, join, trim, starts_with}
use cumulusvpn.Common.Decimal.{codes}
use cumulusvpn.Common.Numeral.{is_digit}
use cumulusvpn.Split.Rules.{Checked, ok, refused, bad_domain, ip_literal, bare_tld, long_domain}
use cumulusvpn.Split.Address.{parse_ipv4, parse_ipv6}

abbrev joined_pair : ℕ → ℕ → ℕ
joined_pair high low = 0x10000 + (high - 0xd800) * 1024 + (low - 0xdc00)

-- `[...label].map((c) => c.codePointAt(0))`
unfoldable pub code_points : Text → List ℕ
code_points [] = []
code_points (c ∷ []) = c ∷ []
code_points (c ∷ (d ∷ s)) =
    let pair = joined_pair c d ∷ code_points s in
    let single = c ∷ code_points (d ∷ s) in
    if (leb 0xd800 c && leb c 0xdbff) && (leb 0xdc00 d && leb d 0xdfff) then pair else single

-- `digit`
abbrev pub punycode_digit : ℕ → ℕ
punycode_digit d = if ltb d 26 then d + 0x61 else d - 26 + 0x30

-- The loop of `adapt`: each round divides `d` by 35, so that `d` rounds are enough.
unfoldable pub adapt_loop : ℕ → ℕ → ℕ → ℕ
adapt_loop zero d k = k + 36 * d / (d + 38)
adapt_loop (suc fuel) d k =
    let again = adapt_loop fuel (d / 35) (k + 36) in
    if ltb 455 d then again else k + 36 * d / (d + 38)

unfoldable pub adapt : ℕ → ℕ → Bool → ℕ
adapt delta num_points first_time =
    let d = if first_time then delta / 700 else delta / 2 in
    adapt_loop (d + d / num_points) (d + d / num_points) 0

abbrev pub threshold : ℕ → ℕ → ℕ
threshold bias k = if leb k bias then 1 else if leb (bias + 26) k then 26 else k - bias

-- The inner loop over `k` and the digit behind it: each round takes `q` down, so that `q` rounds are
-- enough.
unfoldable pub variable_digits : ℕ → ℕ → ℕ → ℕ → Text
variable_digits zero bias k q = punycode_digit q ∷ []
variable_digits (suc fuel) bias k q =
    let t = threshold bias k in
    let more = variable_digits fuel bias (k + 36) ((q - t) / (36 - t)) in
    if ltb q t then punycode_digit q ∷ [] else punycode_digit (t + (q - t) % (36 - t)) ∷ more

-- The variables of the outer loop.
pub record Encoder : Type 0 where
  pub output : Text
  pub delta : ℕ
  pub bias : ℕ
  pub handled : ℕ

abbrev pub passed : Encoder → Encoder
passed e = record { output = e.output; delta = e.delta + 1; bias = e.bias; handled = e.handled }

abbrev pub written : ℕ → Encoder → Encoder
written basic e = record {
  output = e.output ++ variable_digits e.delta e.bias 36 e.delta;
  delta = 0;
  bias = adapt e.delta (e.handled + 1) (e.handled == basic);
  handled = e.handled + 1;
}

-- `for (const c of cps)` for the code point `n`
unfoldable pub encode_points : ℕ → ℕ → Encoder → List ℕ → Encoder
encode_points basic n e [] = e
encode_points basic n e (c ∷ cps) =
    encode_points basic n (if ltb c n then passed e else if c == n then written basic e else e) cps

-- The least code point that is not below `n`; without one, `Infinity`.
unfoldable pub least_from : ℕ → List ℕ → Option ℕ
least_from n [] = none
least_from n (c ∷ cps) = elim (least_from n cps) [
  | none ↦ if leb n c then some c else none
  | some m ↦ if leb n c then some (min c m) else some m
]

abbrev pub moved_to : ℕ → ℕ → Encoder → Encoder
moved_to n m e = record {
  output = e.output;
  delta = e.delta + (m - n) * (e.handled + 1);
  bias = e.bias;
  handled = e.handled;
}

-- `while (handled < cps.length)`: each round writes at least one code point, so that as many rounds as
-- there are code points are enough. No round begins without a code point from `n` on: the source's loop
-- would not end there.
unfoldable pub encode_rounds : ℕ → ℕ → List ℕ → ℕ → Encoder → Encoder
encode_rounds zero basic cps n e = e
encode_rounds (suc fuel) basic cps n e = elim (ltb e.handled (length cps)) [
  | false ↦ e
  | true ↦ elim (least_from n cps) [
    | none ↦ e
    | some m ↦
        encode_rounds fuel basic cps (m + 1) (passed (encode_points basic m (moved_to n m e) cps))
  ]
]

abbrev pub basic_of : List ℕ → List ℕ
basic_of cps = keep (λ c. ltb c 0x80) cps

abbrev pub start : List ℕ → Encoder
start basic = record {
  output = basic ++ (if ltb 0 (length basic) then 45 ∷ [] else []);
  delta = 0;
  bias = 72;
  handled = length basic;
}

unfoldable pub punycode_encode : Text → Text
punycode_encode label =
    let cps = code_points label in
    (encode_rounds (length cps) (length (basic_of cps)) cps 128 (start (basic_of cps))).output

unfoldable pub is_ip_literal : Text → Bool
is_ip_literal s = elim (parse_ipv4 s) [
  | some v ↦ true
  | none ↦ elim (parse_ipv6 s) [ some v ↦ true | none ↦ false ]
]

abbrev pub is_lower : ℕ → Bool
is_lower c = leb 97 c && leb c 122

abbrev pub is_printable : ℕ → Bool
is_printable c = leb 0x20 c && leb c 0x7e

unfoldable pub all_units : (ℕ → Bool) → Text → Bool
all_units p [] = true
all_units p (c ∷ s) = p c && all_units p s

-- `[a-z0-9_]`, and with `-`
abbrev pub is_word : ℕ → Bool
is_word c = is_lower c || is_digit c || c == 95

abbrev pub is_inner : ℕ → Bool
is_inner c = is_word c || c == 45

-- `[a-z0-9_-]*[a-z0-9_]$`
unfoldable pub ends_word : Text → Bool
ends_word [] = false
ends_word (c ∷ []) = is_word c
ends_word (c ∷ (d ∷ s)) = is_inner c && ends_word (d ∷ s)

-- `/^[a-z0-9_]([a-z0-9_-]*[a-z0-9_])?$/`
unfoldable pub is_label : Text → Bool
unfolding ends_word
is_label [] = false
is_label (c ∷ []) = is_word c
is_label (c ∷ (d ∷ s)) = is_word c && ends_word (d ∷ s)

unfoldable pub ascii_label : Text → Text
ascii_label label =
    if all_units is_printable label then label else codes "xn--" ++ punycode_encode label

-- The `map` over the labels: `none` where it throws.
unfoldable pub ascii_labels : List Text → Option (List Text)
ascii_labels [] = some []
ascii_labels (label ∷ labels) =
    let ascii = ascii_label label in
    if is_label ascii && leb (length ascii) 63
    then Option.map (λ rest. ascii ∷ rest) (ascii_labels labels)
    else none

-- `while (v.endsWith('.')) v = v.slice(0, -1)`, on the text from its end
unfoldable pub drop_dots : Text → Text
drop_dots [] = []
drop_dots (c ∷ s) = let rest = drop_dots s in if c == 46 then rest else c ∷ s

-- `v.startsWith('*.')`
abbrev pub is_wildcard : Text → Bool
is_wildcard v = starts_with (42 ∷ (46 ∷ [])) v

abbrev with_star : Bool → Text → Text
with_star wildcard v = if wildcard then 42 ∷ (46 ∷ v) else v

abbrev fitting : Bool → Text → Checked Text
fitting wildcard joined =
    if ltb 253 (length joined) then refused long_domain else ok (with_star wildcard joined)

abbrev of_labels : Bool → Option (List Text) → Checked Text
of_labels wildcard none = refused bad_domain
of_labels wildcard (some labels) =
    if ltb (length labels) 2 then refused bare_tld else fitting wildcard (join (46 ∷ []) labels)

-- Behind the wildcard.
abbrev of_host : Bool → Text → Checked Text
of_host wildcard v =
    if text_eq v [] || has_unit 42 v
    then refused bad_domain
    else if is_ip_literal v
    then refused ip_literal
    else of_labels wildcard (ascii_labels (split_unit 46 v))

-- `lower_nfc` is `toLowerCase().normalize('NFC')`.
unfoldable pub normalize_domain_value : (Text → Text) → Text → Checked Text
unfolding drop_dots
normalize_domain_value lower_nfc raw =
    let v = reverse (drop_dots (reverse (lower_nfc (trim raw)))) in
    of_host (is_wildcard v) (if is_wildcard v then drop 2 v else v)
