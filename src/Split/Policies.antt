-- ===== src/Split/Policies.antt =====
-- What the compiler of clients/core-ts/src/split.ts does to an address, against what a policy asks.
use cumulusvpn.Common.{
  ℕ, ◌<◌, ◌^◌, ◌≡◌, refl, ap, ◌∙◌, inl, inr, Bool, true, false, ◌&&◌, ◌||◌, not, Option, none, some,
  Option-cases, List, [], ◌∷◌, ◌++◌, map, keep, All, Bool-cases, arith,
}
use cumulusvpn.Common.Decimal.{codes}
use cumulusvpn.Common.ListLaws.{All-append, All-keep}
use cumulusvpn.Common.Numeral.{digits, number_up_to, hex_digits, hex_up_to, before_unit, after_unit}
use cumulusvpn.Common.Text.{Text, has_unit, split_unit, split_pair, is_space, trim_start, trim}
use cumulusvpn.Split.Address.{
  octet, join_octets, parse_ipv4, group, groups_of_parts, parse_groups, zeros, join_groups, fill,
  parse_halves, parse_ipv6, with_prefix, of_address, parse_cidr,
}
use cumulusvpn.Split.Blocks.{Family, family_bits, Cidr}
use cumulusvpn.Split.Compile.{
  lan_bypass_cidrs, parse_cidrs, active_cidrs, kind_eq, value_of, lan_of, merged_cidr_strings,
  including, excluding, around, included_routes,
}
use cumulusvpn.Split.Covering.{routed, of_family}
use cumulusvpn.Split.Interval.{inside}
use cumulusvpn.Split.Routes.{
  covered, merged_cidr_strings_covers, subtract_cidr_strings_covers, complement_routes_covers,
  covered_cons,
}
use cumulusvpn.Split.Rules.{cidr, SplitRule, SplitPolicy, CompiledSplit}

abbrev pub IsReadable : Text → Type 0
IsReadable v = (c : Cidr) × (parse_cidr v ≡ some c)

-- A CIDR rule has a text that can be read.
abbrev pub IsUsable : SplitRule → Type 0
IsUsable r = kind_eq r.kind cidr ≡ true → IsReadable r.value

-- A list of routes that can be read
abbrev pub IsRead : List Text → Type 0
IsRead vs = (cs : List Cidr) × (parse_cidrs vs ≡ some cs)

pub parse_cidrs-readable :
    (vs : List Text) → All IsReadable vs → (cs : List Cidr) × (parse_cidrs vs ≡ some cs)
unfolding parse_cidrs
parse_cidrs-readable [] h = ([], refl)
parse_cidrs-readable (v ∷ vs) h = (
  h.0.0 ∷ (parse_cidrs-readable vs h.1).0,
  rw (parse_cidrs, h.0.1, (parse_cidrs-readable vs h.1).1) refl,
)

pub covered-append :
    (a b : List Text) (fam : Family) (x : ℕ)
    → All IsReadable a
    → All IsReadable b
    → covered (a ++ b) fam x ≡ (covered a fam x || covered b fam x)
unfolding parse_cidrs inside
covered-append [] b fam x h k = refl
covered-append (v ∷ a) b fam x h k =
    covered_cons v (a ++ b) h.0.0 both.0 fam x h.0.1 both.1
    ∙ (rw (covered-append a b fam x h.1 k) (
        rw (covered_cons v a h.0.0 front.0 fam x h.0.1 front.1)
          (or_assoc (routed x (of_family fam (h.0.0 ∷ []))) (covered a fam x) (covered b fam x))))
  where
    both : (cs : List Cidr) × (parse_cidrs (a ++ b) ≡ some cs)
    both = parse_cidrs-readable (a ++ b) (All-append _ a b h.1 k)

    front : (cs : List Cidr) × (parse_cidrs a ≡ some cs)
    front = parse_cidrs-readable a h.1

    or_assoc : (p q r : Bool) → (p || (q || r)) ≡ ((p || q) || r)
    or_assoc p q r = ground arith

abbrev is_there : Option Cidr → Bool
is_there none = false
is_there (some c) = true

reads-IsReadable : (v : Text) → is_there (parse_cidr v) ≡ true → IsReadable v
reads-IsReadable v h = elim (Option-cases (parse_cidr v)) [
  | inl e ↦ ground (arith, rw e at h)
  | inr r ↦ r
]

-- The prefixes of the LAN can be read.
pub lan-IsReadable : All IsReadable lan_bypass_cidrs
unfolding parse_cidr of_address parse_ipv4 split_unit before_unit trim join_octets octet
    number_up_to digits with_prefix has_unit after_unit parse_ipv6 parse_halves split_pair fill
    parse_groups groups_of_parts hex_digits hex_up_to is_space trim_start group join_groups zeros
lan-IsReadable = (
  reads-IsReadable (codes "10.0.0.0/8") refl,
  (
    reads-IsReadable (codes "172.16.0.0/12") refl,
    (
      reads-IsReadable (codes "192.168.0.0/16") refl,
      (
        reads-IsReadable (codes "169.254.0.0/16") refl,
        (
          reads-IsReadable (codes "224.0.0.0/4") refl,
          (
            reads-IsReadable (codes "255.255.255.255/32") refl,
            (
              reads-IsReadable (codes "fe80::/10") refl,
              (
                reads-IsReadable (codes "fc00::/7") refl,
                (reads-IsReadable (codes "ff00::/8") refl, tt),
              ),
            ),
          ),
        ),
      ),
    ),
  ),
)

pub usable_values :
    (rules : List SplitRule)
    → All IsUsable rules
    → All IsReadable (map value_of (keep (λ r. kind_eq r.kind cidr) (keep (λ r. r.enabled) rules)))
usable_values [] h = tt
usable_values (r ∷ rules) h = elim (Bool-cases r.enabled) [
  | inr without ↦ rw without (usable_values rules h.1)
  | inl on ↦ elim (Bool-cases (kind_eq r.kind cidr)) [
    | inr other ↦ rw (on, other) (usable_values rules h.1)
    | inl same ↦ rw (on, same) (h.0 same, usable_values rules h.1)
  ]
]

pub active_cidrs-IsReadable :
    (policy : SplitPolicy) (endpoint_ips : List Text)
    → All IsUsable policy.rules
    → All IsReadable (active_cidrs policy endpoint_ips)
unfolding active_cidrs
active_cidrs-IsReadable policy endpoint_ips h = All-keep _ _ _ (usable_values policy.rules h)

pub lan_of-IsReadable : (policy : SplitPolicy) → All IsReadable (lan_of policy)
lan_of-IsReadable policy = elim (Bool-cases policy.lan_bypass) [
  | inl on ↦ rw on lan-IsReadable
  | inr without ↦ rw without tt
]

pub covered-lan_of :
    (policy : SplitPolicy) (fam : Family) (x : ℕ)
    → covered (lan_of policy) fam x ≡ (policy.lan_bypass && covered lan_bypass_cidrs fam x)
unfolding parse_cidrs inside
covered-lan_of policy fam x = elim (Bool-cases policy.lan_bypass) [
  | inl on ↦ rw on refl
  | inr without ↦ rw without refl
]

-- The two route lists around the texts `vs`, which stay out of the tunnel: a platform that can leave
-- routes out gets them, any other one the rest of the address space.
abbrev pub Around : Bool → List Text → CompiledSplit → Type 0
Around true vs out =
    (out.tunnel_routes ≡ [])
    × ((fam : Family) (x : ℕ) → covered out.bypass_routes fam x ≡ covered vs fam x)
Around false vs out =
    IsRead out.tunnel_routes
    × ((fam : Family) (x : ℕ)
        → x < 2 ^ family_bits fam
        → covered out.tunnel_routes fam x ≡ not (covered vs fam x))

abbrev pub Excludes : Bool → List Text → Option CompiledSplit → Type 0
Excludes native vs result =
    (out : CompiledSplit) × (result ≡ some out) × (out.is_noop ≡ false) × Around native vs out

pub around-Excludes :
    (apps domains vs : List Text) (native : Bool)
    → All IsReadable vs
    → Excludes native vs (around apps domains native (merged_cidr_strings vs))
around-Excludes apps domains vs true h =
    let (cs, e) = parse_cidrs-readable vs h in
    let (bypass, merged, read, same) = merged_cidr_strings_covers vs cs e in
    rw merged (excluding apps domains [] bypass, refl, refl, (refl, same))
around-Excludes apps domains vs false h =
    let (cs, e) = parse_cidrs-readable vs h in
    let (bypass, merged, (ds, read), same) = merged_cidr_strings_covers vs cs e in
    let (routes, made, reads, turned) = complement_routes_covers bypass ds read in
    rw (merged, made)
      (
        excluding apps domains routes [],
        refl,
        refl,
        (reads, λ fam x l. turned fam x l ∙ ap not (same fam x)),
      )

abbrev pub Includes : List Text → Bool → List Text → Option CompiledSplit → Type 0
Includes vs lan bs result =
    (out : CompiledSplit) × (result ≡ some out)
    × (out.is_noop ≡ false)
    × IsRead out.tunnel_routes
    × ((fam : Family) (x : ℕ)
        → covered out.tunnel_routes fam x ≡ (covered vs fam x && not (lan && covered bs fam x)))

pub including-Includes :
    (apps domains vs : List Text) (lan : Bool)
    → All IsReadable vs
    → Includes vs lan lan_bypass_cidrs (including apps domains (included_routes lan vs))
including-Includes apps domains vs true h =
    let (cs, e) = parse_cidrs-readable vs h in
    let (ds, f) = parse_cidrs-readable lan_bypass_cidrs lan-IsReadable in
    let (out, made, reads, same) = subtract_cidr_strings_covers vs lan_bypass_cidrs cs ds e f in
    rw made (_, refl, refl, reads, same)
including-Includes apps domains vs false h =
    let (cs, e) = parse_cidrs-readable vs h in
    let (out, made, reads, same) = merged_cidr_strings_covers vs cs e in
    rw made (_, refl, refl, reads, λ fam x. same fam x ∙ and_true (covered vs fam x))
  where
    and_true : (b : Bool) → b ≡ (b && true)
    and_true b = ground arith
