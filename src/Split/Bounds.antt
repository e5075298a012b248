-- ===== src/Split/Bounds.antt =====
-- What the parsers of clients/core-ts/src/split.ts accept is a block of its family.
use native.Mathlib.Nat.{mul-le-mul_right, pow-le-pow_right, mul_assoc, add-mul, pow-succ'}
use mathlib.Core.Path.{subst}
use mathlib.Core.Option.{none-ne-some, some-injective}
use cumulusvpn.Common.{
  ℕ, zero, suc, ◌+◌, ◌*◌, ◌/◌, ◌%◌, ◌^◌, ◌≤◌, ◌<◌, ◌≡◌, refl, sym, ap, ◌∙◌, inl, inr, Bool, true,
  false, ◌&&◌, Option, none, some, Option-cases, List, [], ◌∷◌, ◌++◌, leb, ◌==◌, if◌then◌else◌,
  length, arith,
}
use cumulusvpn.Common.ListLaws.{All-append}
use cumulusvpn.Common.Numeral.{is_hex, hex_value, hex_digits, hex_up_to, number_up_to}
use cumulusvpn.Common.Text.{Text, has_unit, split_unit}
use cumulusvpn.Split.Address.{
  octet, byte_only, join_octets, parse_ipv4, two_groups, is_last, in_front, group, groups_of_parts,
  parse_groups, zeros, join_groups,
}
use cumulusvpn.Split.Groups.{AreGroups}
use cumulusvpn.Split.Octets.{join_octets_cons}

-- A guarded result that is there has passed its guard.
pub then_some {ℓ} :
    {A : Type ℓ} (b : Bool) (r : Option A) (a : A)
    → (if b then r else none) ≡ some a
    → (b ≡ true) × (r ≡ some a)
then_some true r a h = (refl, h)
then_some false r a h = elim (none-ne-some _ h) [ ]

pub else_some {ℓ} :
    {A : Type ℓ} (b : Bool) (r : Option A) (a : A)
    → (if b then none else r) ≡ some a
    → (b ≡ false) × (r ≡ some a)
else_some true r a h = elim (none-ne-some _ h) [ ]
else_some false r a h = (refl, h)

-- One more digit `n` in base `b`.
digit_step : (out n b k v : ℕ) → n < b → v < (out * b + n + 1) * b ^ k → v < (out + 1) * b ^ suc k
digit_step out n b k v l h = omega (
  arith,
  h,
  mul-le-mul_right (b ^ k) room,
  mul_assoc (out + 1) b (b ^ k),
  ap (λ p. (out + 1) * p) (pow-succ' b k),
)
  where
    room : out * b + n + 1 ≤ (out + 1) * b
    room = omega (arith, l, add-mul out 1 b)

byte_only-lt : (r : Option ℕ) (n : ℕ) → byte_only r ≡ some n → n < 256
byte_only-lt none n h = ground (arith, h)
byte_only-lt (some m) n h = ground (arith, h)

octet-lt : (part : Text) (n : ℕ) → octet part ≡ some n → n < 256
unfolding octet
octet-lt part n h = byte_only-lt (number_up_to 3 part) n (else_some _ _ n h).1

join_octets-none :
    (out : ℕ) (part : Text) (parts : List Text)
    → octet part ≡ none
    → join_octets out (part ∷ parts) ≡ none
unfolding join_octets
join_octets-none out part parts e = rw (join_octets, e) refl

join_octets-lt :
    (out : ℕ) (parts : List Text) (v : ℕ)
    → join_octets out parts ≡ some v
    → v < (out + 1) * 256 ^ length parts
unfolding join_octets
join_octets-lt out [] v h = ground (arith, h)
join_octets-lt out (part ∷ parts) v h = elim (Option-cases (octet part)) [
  | inl e ↦ ground (arith, sym (join_octets-none out part parts e) ∙ h)
  | inr (n, e) ↦
      digit_step out n 256 (length parts) v (octet-lt part n e)
        (join_octets-lt (out * 256 + n) parts v (sym (join_octets_cons out part parts n e) ∙ h))
]

pub parse_ipv4-lt : (s : Text) (v : ℕ) → parse_ipv4 s ≡ some v → v < 2 ^ 32
unfolding parse_ipv4
parse_ipv4-lt s v h =
    within (length (split_unit 46 s)) (ground (arith, passed.0))
      (join_octets-lt 0 (split_unit 46 s) v passed.1)
  where
    passed : ((length (split_unit 46 s) == 4) ≡ true) × (join_octets 0 (split_unit 46 s) ≡ some v)
    passed = then_some _ _ v h

    within : (n : ℕ) → n ≡ 4 → v < (0 + 1) * 256 ^ n → v < 2 ^ 32
    within n e l = omega (arith, rw e at l)

hex_value-lt : (c : ℕ) → is_hex c ≡ true → hex_value c < 16
hex_value-lt c h = ground (arith, h)

hex_digits-lt :
    (acc : ℕ) (s : Text) (v : ℕ) → hex_digits acc s ≡ some v → v < (acc + 1) * 16 ^ length s
unfolding hex_digits
hex_digits-lt acc [] v h = ground (arith, h)
hex_digits-lt acc (c ∷ s) v h =
    digit_step acc (hex_value c) 16 (length s) v (hex_value-lt c (then_some _ _ v h).0)
      (hex_digits-lt (acc * 16 + hex_value c) s v (then_some _ _ v h).1)

hex_up_to-lt : (s : Text) (v : ℕ) → hex_up_to 4 s ≡ some v → v < 65536
unfolding hex_up_to
hex_up_to-lt s v h = few (length s) (ground (arith, passed.0)) (hex_digits-lt 0 s v passed.1)
  where
    passed : ((leb 1 (length s) && leb (length s) 4) ≡ true) × (hex_digits 0 s ≡ some v)
    passed = then_some _ _ v h

    few : (n : ℕ) → n ≤ 4 → v < (0 + 1) * 16 ^ n → v < 65536
    few n l b = omega (arith, b, pow-le-pow_right {n = 16} (omega arith) l)

two_groups-AreGroups :
    (r : Option ℕ) (gs : List ℕ)
    → ((v : ℕ) → r ≡ some v → v < 2 ^ 32)
    → two_groups r ≡ some gs
    → AreGroups gs
two_groups-AreGroups none gs l h = elim (none-ne-some _ h) [ ]
two_groups-AreGroups (some v) gs l h = subst AreGroups (some-injective _ _ h) (halves v (l v refl))
  where
    halves : (v : ℕ) → v < 2 ^ 32 → AreGroups (v / 65536 ∷ v % 65536 ∷ [])
    halves v b = (omega (arith, b), (omega arith, tt))

group-AreGroups :
    (part : Text) (last : Bool) (gs : List ℕ) → group part last ≡ some gs → AreGroups gs
unfolding group
group-AreGroups part last gs h = elim (Option-cases (hex_up_to 4 part)) [
  | inr (n, e) ↦
      subst AreGroups (some-injective _ _ (rw (group, e) at h)) (hex_up_to-lt part n e, tt)
  | inl e ↦
      two_groups-AreGroups (parse_ipv4 part) gs (parse_ipv4-lt part)
        (then_some (has_unit 46 part && last) _ gs (rw (group, e) at h)).1
]

in_front-some :
    (gs : List ℕ) (r : Option (List ℕ)) (out : List ℕ)
    → in_front gs r ≡ some out
    → (hs : List ℕ) × (r ≡ some hs) × (gs ++ hs ≡ out)
in_front-some gs none out h = elim (none-ne-some _ h) [ ]
in_front-some gs (some hs) out h = (hs, refl, some-injective _ _ h)

groups_of_parts-AreGroups :
    (parts : List Text) (gs : List ℕ) → groups_of_parts parts ≡ some gs → AreGroups gs
unfolding groups_of_parts
groups_of_parts-AreGroups [] gs h = subst AreGroups (some-injective _ _ h) tt
groups_of_parts-AreGroups (part ∷ parts) gs h = elim (Option-cases (group part (is_last parts))) [
  | inl e ↦ elim (none-ne-some _ (rw (groups_of_parts, e) at h)) [ ]
  | inr (hs, e) ↦
      joined hs e (groups_of_parts-AreGroups parts)
        (in_front-some hs (groups_of_parts parts) gs (rw (groups_of_parts, e) at h))
]
  where
    joined :
        (hs : List ℕ)
        → group part (is_last parts) ≡ some hs
        → ((ks : List ℕ) → groups_of_parts parts ≡ some ks → AreGroups ks)
        → (ks : List ℕ) × (groups_of_parts parts ≡ some ks) × (hs ++ ks ≡ gs)
        → AreGroups gs
    joined hs e later r =
        subst AreGroups r.2 (All-append _ hs r.0 (group-AreGroups part _ hs e) (later r.0 r.1))

pub parse_groups-AreGroups : (s : Text) (gs : List ℕ) → parse_groups s ≡ some gs → AreGroups gs
unfolding parse_groups
parse_groups-AreGroups [] gs h = subst AreGroups (some-injective _ _ h) tt
parse_groups-AreGroups (c ∷ s) gs h = groups_of_parts-AreGroups (split_unit 58 (c ∷ s)) gs h

pub zeros-AreGroups : (n : ℕ) → AreGroups (zeros n)
unfolding zeros
zeros-AreGroups zero = tt
zeros-AreGroups (suc n) = (omega arith, zeros-AreGroups n)

pub join_groups-lt :
    (acc : ℕ) (gs : List ℕ) → AreGroups gs → join_groups acc gs < (acc + 1) * 65536 ^ length gs
unfolding join_groups
join_groups-lt acc [] h = omega arith
join_groups-lt acc (g ∷ gs) h =
    digit_step acc g 65536 (length gs) _ h.0 (join_groups-lt (acc * 65536 + g) gs h.1)
