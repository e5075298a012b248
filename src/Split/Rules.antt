-- ===== src/Split/Rules.antt =====
-- The model of rules in clients/core-ts/src/split.ts: `SplitPolicy` and its parts, and why a rule is
-- refused. The strings of an enumeration are constructors. `version` is always 1 and has no field.
use cumulusvpn.Common.{ℕ, Bool, true, false, Option, List, []}
use cumulusvpn.Common.Text.{Text}

pub data SplitMode : Type 0 where
  off exclude include : SplitMode

pub data SplitRuleKind : Type 0 where
  app domain cidr : SplitRuleKind

pub data SplitPlatform : Type 0 where
  android ios macos windows linux : SplitPlatform

pub data DnsSide : Type 0 where
  tunnel system : DnsSide

-- The messages that `normalizeSplitRule` throws.
pub data Refusal : Type 0 where
  unknown_kind value_no_string unknown_platform : Refusal
  bad_domain ip_literal bare_tld long_domain : Refusal
  bad_cidr whole_internet : Refusal
  contains_gateway : Text → Refusal
  no_identity no_platform own_app : Refusal
  -- A TypeError of the runtime.
  not_an_object : Refusal

pub data Checked {ℓ} (A : Type ℓ) : Type ℓ where
  ok : A → Checked A
  refused : Refusal → Checked A

-- A value of unknown shape; `other` is a number that is not a natural one.
mutual
  pub data Loaded : Type 0 where
    missing null other : Loaded
    flag : Bool → Loaded
    number : ℕ → Loaded
    text : Text → Loaded
    array : Items → Loaded
    object : Fields → Loaded

  pub data Items : Type 0 where
    end_items : Items
    item : Loaded → Items → Items

  pub data Fields : Type 0 where
    end_fields : Fields
    field : Text → Loaded → Fields → Fields

-- `label` is `missing` where the rule has none.
pub record SplitRule : Type 0 where
  pub kind : SplitRuleKind
  pub value : Text
  pub label : Loaded
  pub platform : Option SplitPlatform
  pub enabled : Bool

pub record SplitPolicy : Type 0 where
  pub mode : SplitMode
  pub rules : List SplitRule
  pub lan_bypass : Bool
  pub excluded_dns : DnsSide

abbrev pub empty_policy : SplitPolicy
empty_policy = record { mode = off; rules = []; lan_bypass = false; excluded_dns = tunnel }

-- `CompiledSplit`
pub record DomainMatcher : Type 0 where
  pub suffix : Text
  pub wildcard : Bool

pub record CompiledSplit : Type 0 where
  pub tunnel_routes : List Text
  pub bypass_routes : List Text
  pub apps_included : List Text
  pub apps_excluded : List Text
  pub domains_included : List DomainMatcher
  pub domains_excluded : List DomainMatcher
  pub is_noop : Bool

abbrev pub noop_split : CompiledSplit
noop_split = record {
  tunnel_routes = [];
  bypass_routes = [];
  apps_included = [];
  apps_excluded = [];
  domains_included = [];
  domains_excluded = [];
  is_noop = true;
}
