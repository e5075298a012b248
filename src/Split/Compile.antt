-- ===== src/Split/Compile.antt =====
-- The compiler of clients/core-ts/src/split.ts: `compileSplitPolicy` and its parts. A route list that a
-- text without an address would make throw is `none`.
use mathlib.Core.Option
use cumulusvpn.Common.{
  Bool, true, false, ◌&&◌, not, Option, none, some, List, [], ◌∷◌, ◌++◌, map, keep, any, sort_by,
  drop, if◌then◌else◌,
}
use cumulusvpn.Common.Decimal.{codes}
use cumulusvpn.Common.Text.{Text, text_less, includes}
use cumulusvpn.Split.Interval.{subtract_intervals}
use cumulusvpn.Split.Blocks.{Family, v4, v6, Cidr, merged_of, intervals_to_cidrs, complement}
use cumulusvpn.Split.Address.{parse_cidr, format_cidr}
use cumulusvpn.Split.Domain.{is_wildcard}
use cumulusvpn.Split.Loading.{holds_endpoint}
use cumulusvpn.Split.Rules.{
  off, exclude, include, SplitMode, app, domain, cidr, SplitRuleKind, android, ios, macos, windows,
  linux, SplitPlatform, SplitRule, SplitPolicy, DomainMatcher, CompiledSplit, noop_split,
}

abbrev pub lan_bypass_cidrs : List Text
lan_bypass_cidrs =
    codes "10.0.0.0/8"
    ∷ codes "172.16.0.0/12"
    ∷ codes "192.168.0.0/16"
    ∷ codes "169.254.0.0/16"
    ∷ codes "224.0.0.0/4"
    ∷ codes "255.255.255.255/32"
    ∷ codes "fe80::/10"
    ∷ codes "fc00::/7"
    ∷ codes "ff00::/8"
    ∷ []

pub record CompileSplitContext : Type 0 where
  pub platform : SplitPlatform
  pub supports_exclude_route : Bool
  pub endpoint_ips : List Text

abbrev pub any_of : Option Cidr → List Text → Bool
any_of none endpoint_ips = false
any_of (some c) endpoint_ips = any (holds_endpoint c) endpoint_ips

unfoldable pub contains_any_endpoint : Text → List Text → Bool
contains_any_endpoint value endpoint_ips = any_of (parse_cidr value) endpoint_ips

-- The parser in the loop of `toMergedIntervals`
unfoldable pub parse_cidrs : List Text → Option (List Cidr)
parse_cidrs [] = some []
parse_cidrs (value ∷ values) = elim (parse_cidr value) [
  | none ↦ none
  | some c ↦ elim (parse_cidrs values) [ none ↦ none | some cs ↦ some (c ∷ cs) ]
]

-- The blocks that `mergedCidrStrings` prints, and those of `subtractCidrStrings`, of one family.
unfoldable pub merged_blocks : Family → List Cidr → List Cidr
merged_blocks fam cs = intervals_to_cidrs (merged_of fam cs) fam

unfoldable pub subtracted_blocks : Family → List Cidr → List Cidr → List Cidr
subtracted_blocks fam a b =
    intervals_to_cidrs (subtract_intervals (merged_of fam a) (merged_of fam b)) fam

abbrev printed : List Cidr → List Text
printed cs = map format_cidr cs

unfoldable pub merged_cidr_strings : List Text → Option (List Text)
merged_cidr_strings cidrs = elim (parse_cidrs cidrs) [
  | none ↦ none
  | some cs ↦ some (printed (merged_blocks v4 cs) ++ printed (merged_blocks v6 cs))
]

unfoldable pub subtract_cidr_strings : List Text → List Text → Option (List Text)
subtract_cidr_strings a b = elim (parse_cidrs a) [
  | none ↦ none
  | some cs ↦ elim (parse_cidrs b) [
    | none ↦ none
    | some ds ↦ some (printed (subtracted_blocks v4 cs ds) ++ printed (subtracted_blocks v6 cs ds))
  ]
]

-- `complementRoutes(excluded, 'both')`
unfoldable pub complement_routes : List Text → Option (List Text)
complement_routes excluded = elim (parse_cidrs excluded) [
  | none ↦ none
  | some cs ↦ some (printed (complement v4 cs) ++ printed (complement v6 cs))
]

abbrev matcher : Text → DomainMatcher
matcher v =
    if is_wildcard v
    then record { suffix = drop 2 v; wildcard = true }
    else record { suffix = v; wildcard = false }

abbrev suffix_before : DomainMatcher → DomainMatcher → Bool
suffix_before a b = text_less a.suffix b.suffix

unfoldable pub to_matchers : List Text → List DomainMatcher
to_matchers values = sort_by suffix_before (map matcher values)

-- `[...new Set(values)]`, behind the values `seen`
unfoldable pub distinct : List Text → List Text → List Text
distinct seen [] = []
distinct seen (v ∷ vs) =
    let later = distinct seen vs in
    let fresh = v ∷ distinct (v ∷ seen) vs in if includes seen v then later else fresh

abbrev pub kind_eq : SplitRuleKind → SplitRuleKind → Bool
kind_eq app app = true
kind_eq domain domain = true
kind_eq cidr cidr = true
kind_eq _ _ = false

abbrev platform_eq : SplitPlatform → SplitPlatform → Bool
platform_eq android android = true
platform_eq ios ios = true
platform_eq macos macos = true
platform_eq windows windows = true
platform_eq linux linux = true
platform_eq _ _ = false

abbrev is_here : SplitPlatform → Option SplitPlatform → Bool
is_here p none = false
is_here p (some q) = platform_eq q p

abbrev pub value_of : SplitRule → Text
value_of r = r.value

-- `active`, and the lists drawn from it
abbrev pub active : SplitPolicy → List SplitRule
active policy = keep (λ r. r.enabled) policy.rules

unfoldable pub active_cidrs : SplitPolicy → List Text → List Text
active_cidrs policy endpoint_ips =
    keep (λ v. not (contains_any_endpoint v endpoint_ips))
      (map value_of (keep (λ r. kind_eq r.kind cidr) (active policy)))

unfoldable pub active_apps : SplitPolicy → SplitPlatform → List Text
active_apps policy here = sort_by text_less (
    distinct []
      (map value_of (keep (λ r. kind_eq r.kind app && is_here here r.platform) (active policy))))

unfoldable pub active_domains : SplitPolicy → List Text
active_domains policy =
    distinct [] (map value_of (keep (λ r. kind_eq r.kind domain) (active policy)))

abbrev pub including : List Text → List Text → Option (List Text) → Option CompiledSplit
including apps domains none = none
including apps domains (some included) = some (record {
  tunnel_routes = included;
  bypass_routes = [];
  apps_included = apps;
  apps_excluded = [];
  domains_included = to_matchers domains;
  domains_excluded = [];
  is_noop = false;
})

-- The result of `exclude`, and of `off` with the LAN bypass, around its two route lists.
abbrev pub excluding : List Text → List Text → List Text → List Text → CompiledSplit
excluding apps domains tunnel_routes bypass_routes = record {
  tunnel_routes = tunnel_routes;
  bypass_routes = bypass_routes;
  apps_included = [];
  apps_excluded = apps;
  domains_included = [];
  domains_excluded = to_matchers domains;
  is_noop = false;
}

abbrev pub around : List Text → List Text → Bool → Option (List Text) → Option CompiledSplit
around apps domains native none = none
around apps domains native (some bypass) =
    if native
    then some (excluding apps domains [] bypass)
    else Option.map (λ routes. excluding apps domains routes []) (complement_routes bypass)

abbrev pub lan_of : SplitPolicy → List Text
lan_of policy = if policy.lan_bypass then lan_bypass_cidrs else []

abbrev pub included_routes : Bool → List Text → Option (List Text)
included_routes lan cidrs =
    if lan then subtract_cidr_strings cidrs lan_bypass_cidrs else merged_cidr_strings cidrs

-- The policy's mode decides; `off` without the LAN bypass does nothing.
abbrev pub in_mode : SplitMode → SplitPolicy → CompileSplitContext → Option CompiledSplit
in_mode include policy ctx =
    including (active_apps policy ctx.platform) (active_domains policy)
      (included_routes policy.lan_bypass (active_cidrs policy ctx.endpoint_ips))
in_mode exclude policy ctx =
    around (active_apps policy ctx.platform) (active_domains policy) ctx.supports_exclude_route
      (merged_cidr_strings (active_cidrs policy ctx.endpoint_ips ++ lan_of policy))
in_mode off policy ctx =
    if policy.lan_bypass
    then around [] [] ctx.supports_exclude_route (merged_cidr_strings lan_bypass_cidrs)
    else some noop_split

unfoldable pub compile_split_policy : SplitPolicy → CompileSplitContext → Option CompiledSplit
compile_split_policy policy ctx = in_mode policy.mode policy ctx
