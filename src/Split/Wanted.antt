-- ===== src/Split/Wanted.antt =====
-- What a split-tunneling policy of clients/core-ts/src/split.ts asks for an address, by the blocks of
-- its rules alone.
use cumulusvpn.Common.{
  ℕ, ◌+◌, ◌-◌, ◌^◌, ◌≡◌, refl, ap, ◌∙◌, inl, inr, Bool, false, ◌&&◌, ◌||◌, not, Option, none, some,
  List, [], ◌∷◌, map, keep, any, All, ltb, leb, Bool-cases, arith,
}
use cumulusvpn.Common.Text.{Text}
use cumulusvpn.Split.Address.{parse_cidr}
use cumulusvpn.Split.Blocks.{Family, v4, v6, family_eq, family_bits, Cidr, cidr_to_interval}
use cumulusvpn.Split.Compile.{
  lan_bypass_cidrs, contains_any_endpoint, parse_cidrs, kind_eq, value_of, active_cidrs,
}
use cumulusvpn.Split.Covering.{routed, of_family, pow_pos}
use cumulusvpn.Split.Interval.{inside}
use cumulusvpn.Split.Loading.{same_block, holds_endpoint}
use cumulusvpn.Split.Policies.{
  IsReadable, IsUsable, parse_cidrs-readable, active_cidrs-IsReadable, lan-IsReadable,
}
use cumulusvpn.Split.Routes.{covered, covered_cons}
use cumulusvpn.Split.Rules.{SplitMode, off, exclude, include, cidr, SplitRule, SplitPolicy}

-- The addresses of a block: those from its first on that share its prefix.
abbrev pub in_block : Family → ℕ → Option Cidr → Bool
in_block fam x none = false
in_block fam x (some c) =
    family_eq c.family fam && (leb c.net x && ltb x (c.net + 2 ^ (family_bits c.family - c.prefix)))

abbrev pub is_at : Option Cidr → Option Cidr → Bool
is_at none block = false
is_at (some e) block = in_block e.family e.net block

-- A rule counts for an address: it is enabled, a CIDR rule, its block holds the address, and its block
-- holds no endpoint.
abbrev pub counts : List Text → Family → ℕ → SplitRule → Bool
counts endpoints fam x r =
    r.enabled
    && (kind_eq r.kind cidr
        && (in_block fam x (parse_cidr r.value)
            && not (any (λ t. is_at (parse_cidr t) (parse_cidr r.value)) endpoints)))

unfoldable pub ruled : SplitPolicy → List Text → Family → ℕ → Bool
ruled policy endpoints fam x = any (counts endpoints fam x) policy.rules

unfoldable pub in_lan : SplitPolicy → Family → ℕ → Bool
in_lan policy fam x = policy.lan_bypass && any (λ v. in_block fam x (parse_cidr v)) lan_bypass_cidrs

-- Whether a policy asks that an address goes into the tunnel.
abbrev pub asks_in : SplitMode → SplitPolicy → List Text → Family → ℕ → Bool
asks_in off policy endpoints fam x = not (in_lan policy fam x)
asks_in exclude policy endpoints fam x = not (ruled policy endpoints fam x || in_lan policy fam x)
asks_in include policy endpoints fam x = ruled policy endpoints fam x && not (in_lan policy fam x)

pub in_block-routed :
    (fam : Family) (x : ℕ) (c : Cidr) → routed x (of_family fam (c ∷ [])) ≡ in_block fam x (some c)
unfolding inside cidr_to_interval
in_block-routed fam x c = elim (Bool-cases (family_eq c.family fam)) [
  | inr other ↦ rw other refl
  | inl same ↦ rw same (ground (arith, pow_pos (family_bits c.family - c.prefix)))
]

-- The addresses of the texts that can be read, text by text.
pub covered-any :
    (vs : List Text) (fam : Family) (x : ℕ)
    → All IsReadable vs
    → covered vs fam x ≡ any (λ v. in_block fam x (parse_cidr v)) vs
unfolding parse_cidrs inside
covered-any [] fam x h = refl
covered-any (v ∷ vs) fam x h =
    let (cs, e) = parse_cidrs-readable vs h.1 in
    covered_cons v vs h.0.0 cs fam x h.0.1 e
    ∙ (rw (in_block-routed fam x h.0.0, covered-any vs fam x h.1, h.0.1) refl)

pub family_eq_sym : (a b : Family) → family_eq a b ≡ family_eq b a
family_eq_sym v4 v4 = refl
family_eq_sym v4 v6 = refl
family_eq_sym v6 v4 = refl
family_eq_sym v6 v6 = refl

same_block-is_at : (c : Cidr) (o : Option Cidr) → same_block c o ≡ is_at o (some c)
unfolding cidr_to_interval
same_block-is_at c none = refl
same_block-is_at c (some e) = elim (Bool-cases (family_eq e.family c.family)) [
  | inr other ↦ rw (other, family_eq_sym c.family e.family) (ground (arith, other))
  | inl same ↦
      rw (same, family_eq_sym c.family e.family)
        (ground (arith, same, pow_pos (family_bits c.family - c.prefix)))
]

any_of-any :
    (c : Cidr) (endpoints : List Text)
    → any (holds_endpoint c) endpoints ≡ any (λ t. is_at (parse_cidr t) (some c)) endpoints
unfolding holds_endpoint
any_of-any c [] = refl
any_of-any c (t ∷ endpoints) = rw (same_block-is_at c (parse_cidr t), any_of-any c endpoints) refl

contains_any_endpoint-any :
    (v : Text) (c : Cidr) (endpoints : List Text)
    → parse_cidr v ≡ some c
    → contains_any_endpoint v endpoints ≡ any (λ t. is_at (parse_cidr t) (parse_cidr v)) endpoints
unfolding contains_any_endpoint
contains_any_endpoint-any v c endpoints e = rw e (any_of-any c endpoints)

abbrev kept : List Text → List SplitRule → List Text
kept endpoints rules =
    keep (λ v. not (contains_any_endpoint v endpoints))
      (map value_of (keep (λ r. kind_eq r.kind cidr) (keep (λ r. r.enabled) rules)))

any-kept :
    (rules : List SplitRule) (endpoints : List Text) (fam : Family) (x : ℕ)
    → All IsUsable rules
    → any (λ v. in_block fam x (parse_cidr v)) (kept endpoints rules)
      ≡ any (counts endpoints fam x) rules
any-kept [] endpoints fam x h = refl
any-kept (r ∷ rules) endpoints fam x h = elim (Bool-cases r.enabled) [
  | inr without ↦ rw (without, any-kept rules endpoints fam x h.1) refl
  | inl on ↦ elim (Bool-cases (kind_eq r.kind cidr)) [
    | inr other ↦ rw (on, other, any-kept rules endpoints fam x h.1) refl
    | inl same ↦
        let (c, e) = h.0 same in
        let found = contains_any_endpoint-any r.value c endpoints e in
        elim (Bool-cases (contains_any_endpoint r.value endpoints)) [
          | inl bad ↦
              rw (on, same, bad, ← found, bad, any-kept rules endpoints fam x h.1) (ground arith)
          | inr good ↦
              rw (on, same, good, ← found, good, any-kept rules endpoints fam x h.1) (ground arith)
        ]
  ]
]

-- The rules that the compiler goes by hold the addresses that the policy's rules hold.
pub covered-active_cidrs :
    (policy : SplitPolicy) (endpoints : List Text) (fam : Family) (x : ℕ)
    → All IsUsable policy.rules
    → covered (active_cidrs policy endpoints) fam x ≡ ruled policy endpoints fam x
unfolding active_cidrs ruled
covered-active_cidrs policy endpoints fam x h =
    covered-any (kept endpoints policy.rules) fam x (active_cidrs-IsReadable policy endpoints h)
    ∙ any-kept policy.rules endpoints fam x h

pub covered-in_lan :
    (policy : SplitPolicy) (fam : Family) (x : ℕ)
    → (policy.lan_bypass && covered lan_bypass_cidrs fam x) ≡ in_lan policy fam x
unfolding in_lan
covered-in_lan policy fam x =
    ap (λ b. policy.lan_bypass && b) (covered-any lan_bypass_cidrs fam x lan-IsReadable)
