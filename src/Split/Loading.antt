-- ===== src/Split/Loading.antt =====
-- The gate of rules in clients/core-ts/src/split.ts: `normalizeCidrValue`, `normalizeAppValue`,
-- `normalizeSplitRule`, `sanitizeSplitPolicy`. What throws is `refused`. The Unicode tables are the
-- parameters `lower`, for `toLowerCase()`, and `nfc`, for `normalize('NFC')`.
use cumulusvpn.Common.{
  Bool, true, false, ◌&&◌, Option, none, some, List, [], ◌∷◌, ◌==◌, if◌then◌else◌,
}
use cumulusvpn.Common.Decimal.{codes}
use cumulusvpn.Common.Text.{Text, text_eq, trim, has_part}
use cumulusvpn.Split.Interval.{holds}
use cumulusvpn.Split.Blocks.{Cidr, family_eq, cidr_to_interval}
use cumulusvpn.Split.Address.{parse_cidr, format_cidr}
use cumulusvpn.Split.Domain.{normalize_domain_value}
use cumulusvpn.Split.Rules.{
  SplitMode, off, exclude, include, SplitRuleKind, app, domain, cidr, SplitPlatform, android, ios,
  macos, windows, linux, DnsSide, tunnel, system, Checked, ok, refused, unknown_kind,
  value_no_string, unknown_platform, bad_cidr, whole_internet, contains_gateway, no_identity,
  no_platform, own_app, not_an_object, Loaded, missing, null, flag, number, text, array, object,
  Items, end_items, item, Fields, end_fields, field, SplitRule, SplitPolicy, empty_policy,
}

abbrev pub same_block : Cidr → Option Cidr → Bool
same_block c none = false
same_block c (some ep) = family_eq ep.family c.family && holds ep.net (cidr_to_interval c)

-- `ep !== null && ep.family === cidr.family && ep.net >= iv.start && ep.net <= iv.end`
unfoldable pub holds_endpoint : Cidr → Text → Bool
holds_endpoint c endpoint = same_block c (parse_cidr endpoint)

-- The loop over the endpoints, and the result behind it.
unfoldable pub past_endpoints : Cidr → List Text → Checked Text
past_endpoints c [] = ok (format_cidr c)
past_endpoints c (endpoint ∷ endpoints) =
    let rest = past_endpoints c endpoints in
    if holds_endpoint c endpoint then refused (contains_gateway endpoint) else rest

unfoldable pub normalize_cidr_value : Text → List Text → Checked Text
normalize_cidr_value raw endpoint_ips = elim (parse_cidr raw) [
  | none ↦ refused bad_cidr
  | some c ↦ if c.prefix == 0 then refused whole_internet else past_endpoints c endpoint_ips
]

abbrev named : Bool → Text → Checked Text
named own v = if own then refused own_app else ok v

unfoldable pub normalize_app_value : (Text → Text) → Text → Option SplitPlatform → Checked Text
normalize_app_value lower raw platform =
    let v = trim raw in
    if text_eq v [] then refused no_identity else elim platform [
      | none ↦ refused no_platform
      | some p ↦ named (has_part (codes "cumulusvpn") (lower v)) v
    ]

-- A property of an object; every other value has none.
unfoldable pub field_of : Text → Fields → Loaded
field_of name end_fields = missing
field_of name (field key value fields) =
    let rest = field_of name fields in if text_eq key name then value else rest

abbrev pub property : Text → Loaded → Loaded
property name (object fields) = field_of name fields
property name _ = missing

-- `v === s`
abbrev pub is_text : Text → Loaded → Bool
is_text s (text t) = text_eq t s
is_text s _ = false

unfoldable pub kind_of : Loaded → Option SplitRuleKind
kind_of v =
    if is_text (codes "app") v
    then some app
    else if is_text (codes "domain") v
    then some domain
    else if is_text (codes "cidr") v
    then some cidr
    else none

unfoldable pub platform_of : Loaded → Option SplitPlatform
platform_of v =
    if is_text (codes "android") v
    then some android
    else if is_text (codes "ios") v
    then some ios
    else if is_text (codes "macos") v
    then some macos
    else if is_text (codes "windows") v
    then some windows
    else if is_text (codes "linux") v
    then some linux
    else none

unfoldable pub mode_of : Loaded → Option SplitMode
mode_of v =
    if is_text (codes "off") v
    then some off
    else if is_text (codes "exclude") v
    then some exclude
    else if is_text (codes "include") v
    then some include
    else none

unfoldable pub dns_of : Loaded → Option DnsSide
dns_of v =
    if is_text (codes "tunnel") v
    then some tunnel
    else if is_text (codes "system") v
    then some system
    else none

-- `rule.enabled !== false`
abbrev pub enabled_of : Loaded → Bool
enabled_of (flag b) = b
enabled_of _ = true

-- `rule.platform !== undefined && !SPLIT_PLATFORMS.includes(rule.platform)`
abbrev pub bad_platform : Loaded → Bool
bad_platform missing = false
bad_platform v = elim (platform_of v) [ none ↦ true | some p ↦ false ]

-- The rule around a value that has passed; only an app rule keeps its platform.
abbrev pub rule_of :
    SplitRuleKind → Loaded → Option SplitPlatform → Checked Text → Checked SplitRule
rule_of kind rule platform (refused why) = refused why
rule_of kind rule platform (ok value) = ok (record {
  kind = kind;
  value = value;
  label = property (codes "label") rule;
  platform = platform;
  enabled = enabled_of (property (codes "enabled") rule);
})

module _ (lower nfc : Text → Text) where
  unfoldable pub rule_of_kind : SplitRuleKind → Text → Loaded → List Text → Checked SplitRule
  rule_of_kind cidr value rule endpoint_ips =
      rule_of cidr rule none (normalize_cidr_value value endpoint_ips)
  rule_of_kind domain value rule endpoint_ips =
      rule_of domain rule none (normalize_domain_value (λ s. nfc (lower s)) value)
  rule_of_kind app value rule endpoint_ips =
      let platform = property (codes "platform") rule in
      if bad_platform platform
      then refused unknown_platform
      else rule_of app rule (platform_of platform)
          (normalize_app_value lower value (platform_of platform))

  abbrev pub with_value : SplitRuleKind → Loaded → Loaded → List Text → Checked SplitRule
  with_value kind (text value) rule endpoint_ips = rule_of_kind kind value rule endpoint_ips
  with_value kind _ rule endpoint_ips = refused value_no_string

  abbrev pub with_kind : Option SplitRuleKind → Loaded → List Text → Checked SplitRule
  with_kind none rule endpoint_ips = refused unknown_kind
  with_kind (some kind) rule endpoint_ips =
      with_value kind (property (codes "value") rule) rule endpoint_ips

  unfoldable pub normalize_split_rule : Loaded → List Text → Checked SplitRule
  normalize_split_rule missing endpoint_ips = refused not_an_object
  normalize_split_rule null endpoint_ips = refused not_an_object
  normalize_split_rule rule endpoint_ips =
      with_kind (kind_of (property (codes "kind") rule)) rule endpoint_ips

  -- The `map` of `sanitizeSplitPolicy`, which has no endpoints: `none` where it throws.
  unfoldable pub rules_of : Items → Option (List SplitRule)
  rules_of end_items = some []
  rules_of (item v items) = elim (normalize_split_rule v []) [
    | refused why ↦ none
    | ok rule ↦ elim (rules_of items) [ none ↦ none | some rules ↦ some (rule ∷ rules) ]
  ]

  abbrev pub policy_of : SplitMode → Bool → DnsSide → Option (List SplitRule) → SplitPolicy
  policy_of mode lan_bypass excluded_dns none = empty_policy
  policy_of mode lan_bypass excluded_dns (some rules) = record {
    mode = mode;
    rules = rules;
    lan_bypass = lan_bypass;
    excluded_dns = excluded_dns;
  }

  -- The guards on `mode`, `lanBypass`, `excludedDns` and `rules`.
  unfoldable pub guarded : Option SplitMode → Loaded → Option DnsSide → Loaded → SplitPolicy
  guarded (some mode) (flag lan_bypass) (some dns) (array items) =
      policy_of mode lan_bypass dns (rules_of items)
  guarded _ _ _ _ = empty_policy

  abbrev pub is_one : Loaded → Bool
  is_one (number n) = n == 1
  is_one _ = false

  unfoldable pub sanitize_split_policy : Loaded → SplitPolicy
  sanitize_split_policy value =
      if is_one (property (codes "version") value)
      then guarded (mode_of (property (codes "mode") value)) (property (codes "lanBypass") value)
          (dns_of (property (codes "excludedDns") value)) (property (codes "rules") value)
      else empty_policy
