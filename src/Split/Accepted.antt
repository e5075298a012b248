-- ===== src/Split/Accepted.antt =====
-- What `parseCidr` of clients/core-ts/src/split.ts accepts is a block of its family.
use mathlib.Core.Path.{subst}
use mathlib.Core.Option.{none-ne-some, some-injective}
use native.Mathlib.Nat.{div-mul-le_self}
use cumulusvpn.Common.{
  ℕ, ◌+◌, ◌-◌, ◌*◌, ◌/◌, ◌^◌, ◌≤◌, ◌<◌, ◌≡◌, refl, inl, inr, Bool, true, false, not, Option, none,
  some, Option-cases, List, [], ◌∷◌, ◌++◌, ltb, ◌==◌, length, length-append, Bool-cases, arith,
}
use cumulusvpn.Common.ListLaws.{All-append}
use cumulusvpn.Common.Numeral.{number_up_to, before_unit, after_unit}
use cumulusvpn.Common.Text.{Text, has_unit, split_pair, trim}
use cumulusvpn.Split.Address.{
  parse_ipv4, parse_groups, zeros, join_groups, fill, parse_halves, parse_ipv6, fitting, masked,
  with_prefix, of_address, parse_cidr,
}
use cumulusvpn.Split.Blocks.{Family, v4, v6, family_bits, Cidr}
use cumulusvpn.Split.Bounds.{
  then_some, else_some, parse_ipv4-lt, parse_groups-AreGroups, zeros-AreGroups, join_groups-lt,
}
use cumulusvpn.Split.Groups.{AreGroups}
use cumulusvpn.Split.RoundTrip.{IsBlock}
use cumulusvpn.Split.Runs.{length-zeros}

filled_lt :
    (head tail : List ℕ)
    → AreGroups head
    → AreGroups tail
    → length head + length tail ≤ 8
    → join_groups 0 (head ++ (zeros (8 - (length head + length tail)) ++ tail)) < 2 ^ 128
filled_lt head tail hh ht l =
    eight _
      (join_groups-lt 0 (head ++ (zeros left ++ tail))
        (All-append _ head _ hh (All-append _ (zeros left) tail (zeros-AreGroups left) ht)))
      (omega (
        arith,
        l,
        length-append head (zeros left ++ tail),
        length-append (zeros left) tail,
        length-zeros left,
      ))
  where
    left : ℕ
    left = 8 - (length head + length tail)

    eight : {v : ℕ} (n : ℕ) → v < (0 + 1) * 65536 ^ n → n ≡ 8 → v < 2 ^ 128
    eight n b e = omega (arith, rw e at b)

fill-lt :
    (head tail : Option (List ℕ)) (compressed : Bool) (v : ℕ)
    → ((gs : List ℕ) → head ≡ some gs → AreGroups gs)
    → ((gs : List ℕ) → tail ≡ some gs → AreGroups gs)
    → fill head tail compressed ≡ some v
    → v < 2 ^ 128
unfolding fill
fill-lt none tail compressed v hh ht h = elim (none-ne-some _ h) [ ]
fill-lt (some head) none compressed v hh ht h = elim (none-ne-some _ h) [ ]
fill-lt (some head) (some tail) true v hh ht h =
    subst (λ n. n < 2 ^ 128) (some-injective _ _ (else_some _ _ v h).1)
      (filled_lt head tail (hh head refl) (ht tail refl) (ground (arith, few)))
  where
    few : ltb 7 (length head + length tail) ≡ false
    few = (else_some _ _ v h).0
fill-lt (some head) (some tail) false v hh ht h =
    subst (λ n. n < 2 ^ 128) (some-injective _ _ (else_some _ _ v h).1)
      (filled_lt head tail (hh head refl) (ht tail refl) (ground (arith, full)))
  where
    full : not (length head + length tail == 8) ≡ false
    full = (else_some _ _ v h).0

parse_halves-lt : (parts : List Text) (v : ℕ) → parse_halves parts ≡ some v → v < 2 ^ 128
unfolding parse_halves
parse_halves-lt [] v h = elim (none-ne-some _ h) [ ]
parse_halves-lt (head ∷ []) v h =
    fill-lt (parse_groups head) (some []) false v (parse_groups-AreGroups head)
      (λ gs e. subst AreGroups (some-injective _ _ e) tt) h
parse_halves-lt (head ∷ (tail ∷ [])) v h =
    fill-lt (parse_groups head) (parse_groups tail) true v (parse_groups-AreGroups head)
      (parse_groups-AreGroups tail) h
parse_halves-lt (head ∷ (tail ∷ (more ∷ rest))) v h = elim (none-ne-some _ h) [ ]

parse_ipv6-lt : (s : Text) (v : ℕ) → parse_ipv6 s ≡ some v → v < 2 ^ 128
unfolding parse_ipv6
parse_ipv6-lt s v h = parse_halves-lt (split_pair 58 s) v (then_some (has_unit 58 s) _ v h).1

masked-IsBlock :
    (fam : Family) (addr prefix : ℕ)
    → addr < 2 ^ family_bits fam
    → prefix ≤ family_bits fam
    → IsBlock (masked fam addr prefix)
masked-IsBlock fam addr prefix small fits = (
  (addr / 2 ^ (family_bits fam - prefix), refl, fits),
  omega (arith, small, div-mul-le_self addr (2 ^ (family_bits fam - prefix))),
)

fitting-IsBlock :
    (fam : Family) (addr : ℕ) (r : Option ℕ) (c : Cidr)
    → addr < 2 ^ family_bits fam
    → fitting fam addr r ≡ some c
    → IsBlock c
fitting-IsBlock fam addr none c small h = elim (none-ne-some _ h) [ ]
fitting-IsBlock fam addr (some prefix) c small h =
    subst IsBlock (some-injective _ _ (else_some _ _ c h).1)
      (masked-IsBlock fam addr prefix small (ground (arith, fits)))
  where
    fits : ltb (family_bits fam) prefix ≡ false
    fits = (else_some _ _ c h).0

with_prefix-IsBlock :
    (fam : Family) (addr : ℕ) (t : Text) (c : Cidr)
    → addr < 2 ^ family_bits fam
    → with_prefix fam addr t ≡ some c
    → IsBlock c
unfolding with_prefix
with_prefix-IsBlock fam addr t c small h = elim (Bool-cases (has_unit 47 t)) [
  | inl slash ↦ fitting-IsBlock fam addr (number_up_to 3 (after_unit 47 t)) c small (rw slash at h)
  | inr whole ↦
      subst IsBlock (some-injective _ _ (rw whole at h))
        (masked-IsBlock fam addr (family_bits fam) small (omega arith))
]

of_address-IsBlock : (a t : Text) (c : Cidr) → of_address a t ≡ some c → IsBlock c
unfolding of_address
of_address-IsBlock a t c h = elim (Option-cases (parse_ipv4 a)) [
  | inr (v, e) ↦ with_prefix-IsBlock v4 v t c (parse_ipv4-lt a v e) (rw (of_address, e) at h)
  | inl no4 ↦ elim (Option-cases (parse_ipv6 a)) [
    | inr (v, e) ↦ with_prefix-IsBlock v6 v t c (parse_ipv6-lt a v e) (rw (of_address, no4, e) at h)
    | inl no6 ↦ elim (none-ne-some _ (rw (of_address, no4, no6) at h)) [ ]
  ]
]

-- Whatever the parser accepts is an address of its family, aligned to a prefix that fits.
pub parse_cidr-IsBlock : (s : Text) (c : Cidr) → parse_cidr s ≡ some c → IsBlock c
unfolding parse_cidr
parse_cidr-IsBlock s c h = of_address-IsBlock (before_unit 47 (trim s)) (trim s) c h
