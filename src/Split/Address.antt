-- ===== src/Split/Address.antt =====
-- The texts of addresses and blocks in clients/core-ts/src/split.ts: `parseIpv4`, `parseIpv6`,
-- `parseCidr`, `formatIpv4`, `formatIpv6`, `formatCidr`. A bigint is a number; `|` joins disjoint bits
-- and is a sum; `'.'` is 46, `'/'` is 47 and `':'` is 58.
use cumulusvpn.Common.{
  ℕ, zero, suc, ◌+◌, ◌-◌, ◌*◌, ◌/◌, ◌%◌, ◌^◌, Bool, true, false, ◌&&◌, not, Option, none, some,
  List, [], ◌∷◌, ◌++◌, map, ltb, ◌==◌, if◌then◌else◌, length, take, drop,
}
use cumulusvpn.Common.Decimal.{decimal}
use cumulusvpn.Common.Numeral.{number_up_to, hex_up_to, hex_onto, before_unit, after_unit}
use cumulusvpn.Common.Text.{Text, has_unit, split_unit, split_pair, join, trim}
use cumulusvpn.Split.Blocks.{Family, v4, v6, family_bits, Cidr}

abbrev has_leading_zero : Text → Bool
has_leading_zero [] = false
has_leading_zero (c ∷ []) = false
has_leading_zero (c ∷ (d ∷ s)) = c == 48

abbrev pub byte_only : Option ℕ → Option ℕ
byte_only none = none
byte_only (some n) = if ltb 255 n then none else some n

unfoldable pub octet : Text → Option ℕ
octet part = if has_leading_zero part then none else byte_only (number_up_to 3 part)

unfoldable pub join_octets : ℕ → List Text → Option ℕ
join_octets out [] = some out
join_octets out (part ∷ parts) = elim (octet part) [
  | none ↦ none
  | some n ↦ join_octets (out * 256 + n) parts
]

unfoldable pub parse_ipv4 : Text → Option ℕ
parse_ipv4 s =
    let parts = split_unit 46 s in if length parts == 4 then join_octets 0 parts else none

abbrev pub two_groups : Option ℕ → Option (List ℕ)
two_groups none = none
two_groups (some v) = some (v / 65536 ∷ (v % 65536 ∷ []))

abbrev pub is_last : List Text → Bool
is_last [] = true
is_last (p ∷ ps) = false

-- The groups of one part, in front of the parts that follow it: a group, or an IPv4 tail.
unfoldable pub group : Text → Bool → Option (List ℕ)
group part last = elim (hex_up_to 4 part) [
  | some n ↦ some (n ∷ [])
  | none ↦ if has_unit 46 part && last then two_groups (parse_ipv4 part) else none
]

abbrev pub in_front : List ℕ → Option (List ℕ) → Option (List ℕ)
in_front gs none = none
in_front gs (some hs) = some (gs ++ hs)

unfoldable pub groups_of_parts : List Text → Option (List ℕ)
groups_of_parts [] = some []
groups_of_parts (part ∷ parts) = elim (group part (is_last parts)) [
  | none ↦ none
  | some gs ↦ in_front gs (groups_of_parts parts)
]

unfoldable pub parse_groups : Text → Option (List ℕ)
parse_groups [] = some []
parse_groups (c ∷ s) = groups_of_parts (split_unit 58 (c ∷ s))

unfoldable pub zeros : ℕ → List ℕ
zeros zero = []
zeros (suc n) = 0 ∷ zeros n

-- `reduce((acc, g) => (acc << 16n) | g, 0n)`
unfoldable pub join_groups : ℕ → List ℕ → ℕ
join_groups acc [] = acc
join_groups acc (g ∷ gs) = join_groups (acc * 65536 + g) gs

-- The head and, where there is a `::`, the tail.
unfoldable pub fill : Option (List ℕ) → Option (List ℕ) → Bool → Option ℕ
fill none tail compressed = none
fill (some head) none compressed = none
fill (some head) (some tail) compressed =
    let count = length head + length tail in
    if (if compressed then ltb 7 count else not (count == 8))
    then none
    else some (join_groups 0 (head ++ (zeros (8 - count) ++ tail)))

unfoldable pub parse_halves : List Text → Option ℕ
parse_halves [] = none
parse_halves (head ∷ []) = fill (parse_groups head) (some []) false
parse_halves (head ∷ (tail ∷ [])) = fill (parse_groups head) (parse_groups tail) true
parse_halves (head ∷ (tail ∷ (more ∷ rest))) = none

unfoldable pub parse_ipv6 : Text → Option ℕ
parse_ipv6 s = if has_unit 58 s then parse_halves (split_pair 58 s) else none

-- `(addr >> hostBits) << hostBits`
abbrev pub masked : Family → ℕ → ℕ → Cidr
masked fam addr prefix = record {
  family = fam;
  net = addr / 2 ^ (family_bits fam - prefix) * 2 ^ (family_bits fam - prefix);
  prefix = prefix;
}

abbrev pub fitting : Family → ℕ → Option ℕ → Option Cidr
fitting fam addr none = none
fitting fam addr (some prefix) =
    if ltb (family_bits fam) prefix then none else some (masked fam addr prefix)

unfoldable pub with_prefix : Family → ℕ → Text → Option Cidr
with_prefix fam addr trimmed =
    if has_unit 47 trimmed
    then fitting fam addr (number_up_to 3 (after_unit 47 trimmed))
    else some (masked fam addr (family_bits fam))

unfoldable pub of_address : Text → Text → Option Cidr
of_address address trimmed = elim (parse_ipv4 address) [
  | some v ↦ with_prefix v4 v trimmed
  | none ↦ elim (parse_ipv6 address) [ some v ↦ with_prefix v6 v trimmed | none ↦ none ]
]

unfoldable pub parse_cidr : Text → Option Cidr
unfolding of_address
parse_cidr value = of_address (before_unit 47 (trim value)) (trim value)

unfoldable pub format_ipv4 : ℕ → Text
format_ipv4 v = join (46 ∷ []) (
    decimal (v / 16777216 % 256)
    ∷ decimal (v / 65536 % 256)
    ∷ decimal (v / 256 % 256)
    ∷ decimal (v % 256)
    ∷ [])

-- The groups of an address, highest first: `(v >> i * 16) & 0xffff` for the `k` lowest ones
unfoldable pub groups_of : ℕ → ℕ → List ℕ
groups_of zero v = []
groups_of (suc k) v = v / 65536 ^ k % 65536 ∷ groups_of k v

-- How many of the leading groups are zero.
unfoldable pub zero_run : List ℕ → ℕ
zero_run [] = 0
zero_run (g ∷ gs) = let more = suc (zero_run gs) in if g == 0 then more else 0

-- The longest run of at least two zero groups as its start and length, the leftmost on a tie: `(0, 1)`
-- for none. `skip` groups are left of the run that was looked at last.
unfoldable pub best_run : ℕ → ℕ → ℕ × ℕ → List ℕ → ℕ × ℕ
best_run i skip best [] = best
best_run i (suc skip) best (g ∷ gs) = best_run (suc i) skip best gs
best_run i zero best (g ∷ gs) =
    let run = zero_run (g ∷ gs) in
    best_run (suc i) (run - 1) (if ltb best.1 run then (i, run) else best) gs

abbrev pub hex : ℕ → Text
hex g = hex_onto 4 g []

-- The text of the groups with the run `(start, len)` as `::`.
abbrev pub compress : List ℕ → ℕ × ℕ → Text
compress gs run =
    if run.1 == 1
    then join (58 ∷ []) (map hex gs)
    else join (58 ∷ []) (take run.0 (map hex gs))
      ++ (58 ∷ (58 ∷ join (58 ∷ []) (drop (run.0 + run.1) (map hex gs))))

unfoldable pub format_ipv6 : ℕ → Text
format_ipv6 v = compress (groups_of 8 v) (best_run 0 0 (0, 1) (groups_of 8 v))

abbrev pub format_address : Family → ℕ → Text
format_address v4 net = format_ipv4 net
format_address v6 net = format_ipv6 net

unfoldable pub format_cidr : Cidr → Text
format_cidr c = format_address c.family c.net ++ (47 ∷ decimal c.prefix)
