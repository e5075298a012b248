-- ===== src/Split/Sanitized.antt =====
-- Policies that `sanitizeSplitPolicy` of clients/core-ts/src/split.ts lets through.
use mathlib.Core.Option.{none-ne-some, some-injective}
use mathlib.Core.Path.{subst}
use cumulusvpn.Common.{
  ◌≡◌, refl, inl, inr, ◌⊎◌, Bool, Option, none, some, Option-cases, List, [], All, Bool-cases,
}
use cumulusvpn.Common.Decimal.{codes}
use cumulusvpn.Common.Text.{Text}
use cumulusvpn.Split.Compile.{CompileSplitContext, compile_split_policy}
use cumulusvpn.Split.Gate.{refused_not_ok, rule_of_fields, IsUsable-cidr, IsUsable-other}
use cumulusvpn.Split.Loading.{
  bad_platform, property, rule_of_kind, with_value, with_kind, normalize_split_rule, rules_of,
  policy_of, is_one, guarded, sanitize_split_policy,
}
use cumulusvpn.Split.Policies.{IsUsable}
use cumulusvpn.Split.Wanted.{asks_in}
use cumulusvpn.Split.Refinement.{Compiled, compile_split_policy_routes}
use cumulusvpn.Split.Rules.{
  SplitMode, SplitRuleKind, app, domain, cidr, DnsSide, Checked, ok, refused, Refusal, Loaded,
  missing, null, other, flag, number, text, array, object, Items, end_items, item, SplitRule,
  CompiledSplit,
}

-- A result on every way it was reached.
checked_cases :
    (r : Checked SplitRule)
    → ((rule : SplitRule) × (r ≡ ok rule)) ⊎ ((why : Refusal) × (r ≡ refused why))
checked_cases (ok rule) = inl (rule, refl)
checked_cases (refused why) = inr (why, refl)

module _ (lower nfc : Text → Text) where
  rule_of_kind-IsUsable :
      (kind : SplitRuleKind) (value : Text) (rule : Loaded) (endpoint_ips : List Text)
      (r : SplitRule)
      → rule_of_kind lower nfc kind value rule endpoint_ips ≡ ok r
      → IsUsable r
  unfolding rule_of_kind
  rule_of_kind-IsUsable cidr value rule endpoint_ips r h = IsUsable-cidr rule value endpoint_ips r h
  rule_of_kind-IsUsable domain value rule endpoint_ips r h =
      IsUsable-other domain r refl (rule_of_fields domain rule none _ r h).0
  rule_of_kind-IsUsable app value rule endpoint_ips r h =
      elim (Bool-cases (bad_platform (property (codes "platform") rule))) [
        | inl bad ↦ elim (refused_not_ok _ _ (rw bad at h)) [ ]
        | inr known ↦ IsUsable-other app r refl (rule_of_fields app rule _ _ r (rw known at h)).0
      ]

  with_value-IsUsable :
      (kind : SplitRuleKind) (value rule : Loaded) (endpoint_ips : List Text) (r : SplitRule)
      → with_value lower nfc kind value rule endpoint_ips ≡ ok r
      → IsUsable r
  with_value-IsUsable kind (text value) rule endpoint_ips r h =
      rule_of_kind-IsUsable kind value rule endpoint_ips r h
  with_value-IsUsable kind missing rule endpoint_ips r h = elim (refused_not_ok _ _ h) [ ]
  with_value-IsUsable kind null rule endpoint_ips r h = elim (refused_not_ok _ _ h) [ ]
  with_value-IsUsable kind other rule endpoint_ips r h = elim (refused_not_ok _ _ h) [ ]
  with_value-IsUsable kind (flag b) rule endpoint_ips r h = elim (refused_not_ok _ _ h) [ ]
  with_value-IsUsable kind (number n) rule endpoint_ips r h = elim (refused_not_ok _ _ h) [ ]
  with_value-IsUsable kind (array items) rule endpoint_ips r h = elim (refused_not_ok _ _ h) [ ]
  with_value-IsUsable kind (object fields) rule endpoint_ips r h = elim (refused_not_ok _ _ h) [ ]

  with_kind-IsUsable :
      (kind : Option SplitRuleKind) (rule : Loaded) (endpoint_ips : List Text) (r : SplitRule)
      → with_kind lower nfc kind rule endpoint_ips ≡ ok r
      → IsUsable r
  with_kind-IsUsable none rule endpoint_ips r h = elim (refused_not_ok _ _ h) [ ]
  with_kind-IsUsable (some kind) rule endpoint_ips r h =
      with_value-IsUsable kind (property (codes "value") rule) rule endpoint_ips r h

  normalize_split_rule-IsUsable :
      (rule : Loaded) (endpoint_ips : List Text) (r : SplitRule)
      → normalize_split_rule lower nfc rule endpoint_ips ≡ ok r
      → IsUsable r
  unfolding normalize_split_rule
  normalize_split_rule-IsUsable missing endpoint_ips r h = elim (refused_not_ok _ _ h) [ ]
  normalize_split_rule-IsUsable null endpoint_ips r h = elim (refused_not_ok _ _ h) [ ]
  normalize_split_rule-IsUsable other endpoint_ips r h = with_kind-IsUsable _ other endpoint_ips r h
  normalize_split_rule-IsUsable (flag b) endpoint_ips r h =
      with_kind-IsUsable _ (flag b) endpoint_ips r h
  normalize_split_rule-IsUsable (number n) endpoint_ips r h =
      with_kind-IsUsable _ (number n) endpoint_ips r h
  normalize_split_rule-IsUsable (text s) endpoint_ips r h =
      with_kind-IsUsable _ (text s) endpoint_ips r h
  normalize_split_rule-IsUsable (array items) endpoint_ips r h =
      with_kind-IsUsable _ (array items) endpoint_ips r h
  normalize_split_rule-IsUsable (object fields) endpoint_ips r h =
      with_kind-IsUsable _ (object fields) endpoint_ips r h

  rules_of-IsUsable :
      (items : Items) (rules : List SplitRule)
      → rules_of lower nfc items ≡ some rules
      → All IsUsable rules
  unfolding rules_of
  rules_of-IsUsable end_items rules h = subst (All IsUsable) (some-injective _ _ h) tt
  rules_of-IsUsable (item v items) rules h =
      elim (checked_cases (normalize_split_rule lower nfc v [])) [
        | inr (why, e) ↦ elim (none-ne-some _ (rw (rules_of, e) at h)) [ ]
        | inl (r, e) ↦ elim (Option-cases (rules_of lower nfc items)) [
          | inl f ↦ elim (none-ne-some _ (rw (rules_of, e, f) at h)) [ ]
          | inr (rest, f) ↦
              subst (All IsUsable) (some-injective _ _ (rw (rules_of, e, f) at h))
                (normalize_split_rule-IsUsable v [] r e, rules_of-IsUsable items rest f)
        ]
      ]

  policy_of-IsUsable :
      (mode : SplitMode) (lan : Bool) (dns : DnsSide) (items : Items)
      → All IsUsable (policy_of lower nfc mode lan dns (rules_of lower nfc items)).rules
  policy_of-IsUsable mode lan dns items = elim (Option-cases (rules_of lower nfc items)) [
    | inl e ↦ rw e tt
    | inr (rules, e) ↦ rw e (rules_of-IsUsable items rules e)
  ]

  guarded-IsUsable :
      (mode : Option SplitMode) (lan : Loaded) (dns : Option DnsSide) (rules : Loaded)
      → All IsUsable (guarded lower nfc mode lan dns rules).rules
  unfolding guarded
  guarded-IsUsable (some mode) (flag lan) (some dns) (array items) =
      policy_of-IsUsable mode lan dns items
  guarded-IsUsable _ _ _ _ = tt

  sanitize_split_policy-IsUsable :
      (value : Loaded) → All IsUsable (sanitize_split_policy lower nfc value).rules
  unfolding sanitize_split_policy
  sanitize_split_policy-IsUsable value =
      elim (Bool-cases (is_one lower nfc (property (codes "version") value))) [
        | inl current ↦ rw current (guarded-IsUsable _ _ _ _)
        | inr outdated ↦ rw outdated tt
      ]

  -- Whatever was loaded, the sanitized policy is compiled without an error. For a platform that cannot
  -- leave routes out, and in the include mode on any platform, the configuration's AllowedIPs hold an
  -- address of either family exactly when the sanitized policy asks for it; only where it asks for no
  -- address at all do they hold every address. For a platform that can leave routes out, the other modes
  -- list no tunnel routes, and the bypass routes hold exactly the addresses that it does not ask for.
  pub sanitized_policy_compiles :
      (value : Loaded) (ctx : CompileSplitContext)
      → (out : CompiledSplit) × (compile_split_policy (sanitize_split_policy lower nfc value) ctx
          ≡ some out)
        × Compiled
            (sanitize_split_policy lower nfc value).mode
            ctx.supports_exclude_route
            (asks_in
              (sanitize_split_policy lower nfc value).mode
              (sanitize_split_policy lower nfc value)
              ctx.endpoint_ips)
            out
  sanitized_policy_compiles value ctx =
      compile_split_policy_routes (sanitize_split_policy lower nfc value) ctx
        (sanitize_split_policy-IsUsable value)
