-- ===== src/Split/Gate.antt =====
-- What passes the gate of clients/core-ts/src/split.ts: `normalizeCidrValue`, `normalizeSplitRule` and
-- `sanitizeSplitPolicy`.
use cumulusvpn.Common.{
  ◌≡◌, refl, sym, ap, ◌∙◌, inl, inr, Bool, true, false, Option, none, some, Option-cases, List, [],
  ◌∷◌, ◌==◌, All, Bool-cases, arith,
}
use cumulusvpn.Common.Text.{Text}
use cumulusvpn.Split.Accepted.{parse_cidr-IsBlock}
use cumulusvpn.Split.Address.{parse_cidr, format_cidr}
use cumulusvpn.Split.Blocks.{Cidr}
use cumulusvpn.Split.Compile.{kind_eq}
use cumulusvpn.Split.Loading.{holds_endpoint, past_endpoints, normalize_cidr_value, rule_of}
use cumulusvpn.Split.Policies.{IsUsable}
use cumulusvpn.Split.RoundTrip.{IsBlock, parse_cidr-format_cidr}
use cumulusvpn.Split.Rules.{
  SplitRuleKind, cidr, SplitPlatform, Checked, ok, refused, Refusal, Loaded, SplitRule,
}

-- A text as the gate writes it: that of a block which is not everything and holds no endpoint.
abbrev pub IsGated : List Text → Text → Type 0
IsGated endpoint_ips v =
    (c : Cidr) × (v ≡ format_cidr c)
    × IsBlock c
    × (parse_cidr v ≡ some c)
    × ((c.prefix == 0) ≡ false)
    × All (λ ep. holds_endpoint c ep ≡ false) endpoint_ips

abbrev is_ok {ℓ} : {A : Type ℓ} → Checked A → Bool
is_ok (ok a) = true
is_ok (refused why) = false

abbrev value_or {ℓ} : {A : Type ℓ} → A → Checked A → A
value_or a (ok b) = b
value_or a (refused why) = a

ok_injective {ℓ} : {A : Type ℓ} (a b : A) → ok a ≡ ok b → a ≡ b
ok_injective a b h = ap (value_or a) h

pub refused_not_ok {ℓ} : {A : Type ℓ} (why : Refusal) (a : A) → refused why ≡ ok a → ⊥
refused_not_ok why a h = different (ap is_ok h)
  where
    different : false ≡ true → ⊥
    different e = ground (arith, e)

-- How the loop over the endpoints ends.
past_endpoints_ok :
    (c : Cidr) (endpoints : List Text) (v : Text)
    → past_endpoints c endpoints ≡ ok v
    → (v ≡ format_cidr c) × All (λ ep. holds_endpoint c ep ≡ false) endpoints
unfolding past_endpoints
past_endpoints_ok c [] v h = (sym (ok_injective _ _ h), tt)
past_endpoints_ok c (endpoint ∷ endpoints) v h = elim (Bool-cases (holds_endpoint c endpoint)) [
  | inl held ↦ elim (refused_not_ok _ _ (rw held at h)) [ ]
  | inr free ↦
      let (same, rest) = past_endpoints_ok c endpoints v (rw free at h) in (same, (free, rest))
]

past_endpoints_free :
    (c : Cidr) (endpoints : List Text)
    → All (λ ep. holds_endpoint c ep ≡ false) endpoints
    → past_endpoints c endpoints ≡ ok (format_cidr c)
unfolding past_endpoints
past_endpoints_free c [] h = refl
past_endpoints_free c (endpoint ∷ endpoints) h = rw (h.0, past_endpoints_free c endpoints h.1) refl

normalize_cidr_value-IsGated :
    (raw : Text) (endpoint_ips : List Text) (v : Text)
    → normalize_cidr_value raw endpoint_ips ≡ ok v
    → IsGated endpoint_ips v
unfolding normalize_cidr_value
normalize_cidr_value-IsGated raw endpoint_ips v h = elim (Option-cases (parse_cidr raw)) [
  | inl e ↦ elim (refused_not_ok _ _ (rw (normalize_cidr_value, e) at h)) [ ]
  | inr (c, e) ↦ elim (Bool-cases (c.prefix == 0)) [
    | inl whole ↦ elim (refused_not_ok _ _ (rw (normalize_cidr_value, e, whole) at h)) [ ]
    | inr part ↦
        gated c part (parse_cidr-IsBlock raw c e)
          (past_endpoints_ok c endpoint_ips v (rw (normalize_cidr_value, e, part) at h))
  ]
]
  where
    gated :
        (c : Cidr)
        → (c.prefix == 0) ≡ false
        → IsBlock c
        → (v ≡ format_cidr c) × All (λ ep. holds_endpoint c ep ≡ false) endpoint_ips
        → IsGated endpoint_ips v
    gated c part b r = (c, r.0, b, ap parse_cidr r.0 ∙ parse_cidr-format_cidr c b, part, r.1)

-- A CIDR value that passes the gate is the text of a block which is not everything and holds no
-- endpoint, and passes it again unchanged.
pub normalize_cidr_value_stable :
    (raw : Text) (endpoint_ips : List Text) (v : Text)
    → normalize_cidr_value raw endpoint_ips ≡ ok v
    → IsGated endpoint_ips v × (normalize_cidr_value v endpoint_ips ≡ ok v)
unfolding normalize_cidr_value
normalize_cidr_value_stable raw endpoint_ips v h =
    let (c, same, b, read, part, free) = normalize_cidr_value-IsGated raw endpoint_ips v h in
    (
      (c, same, b, read, part, free),
      rw (normalize_cidr_value, read, part)
          (past_endpoints_free c endpoint_ips free ∙ ap ok (sym same)),
    )

pub rule_of_fields :
    (kind : SplitRuleKind) (rule : Loaded) (platform : Option SplitPlatform) (value : Checked Text)
    (r : SplitRule)
    → rule_of kind rule platform value ≡ ok r
    → (r.kind ≡ kind) × (value ≡ ok r.value)
rule_of_fields kind rule platform (refused why) r h = elim (refused_not_ok _ _ h) [ ]
rule_of_fields kind rule platform (ok value) r h =
    (ap (λ q. q.kind) (sym (ok_injective _ _ h)), ap (λ q. ok q.value) (ok_injective _ _ h))

pub IsUsable-cidr :
    (rule : Loaded) (value : Text) (endpoint_ips : List Text) (r : SplitRule)
    → rule_of cidr rule none (normalize_cidr_value value endpoint_ips) ≡ ok r
    → IsUsable r
IsUsable-cidr rule value endpoint_ips r h same =
    let (kind, checked) = rule_of_fields cidr rule none _ r h in
    let (c, eq, b, read, part, free) =
      normalize_cidr_value-IsGated value endpoint_ips r.value checked in
    (c, read)

pub IsUsable-other :
    (kind : SplitRuleKind) (r : SplitRule) → kind_eq kind cidr ≡ false → r.kind ≡ kind → IsUsable r
IsUsable-other kind r differ same is_cidr =
    elim (clash (sym (ap (λ k. kind_eq k cidr) same ∙ differ) ∙ is_cidr)) [ ]
  where
    clash : false ≡ true → ⊥
    clash e = ground (arith, e)
