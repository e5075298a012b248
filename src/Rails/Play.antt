-- ===== src/Rails/Play.antt =====
-- What bridge/src/rails/google.ts reads of an answer of the Play API: `inactiveReason`, `periodFacts`
-- and the outcomes of its handlers.
use Prim.Native.String
use text.Mathlib.Text.{◌==◌ as str_eq}
use cumulusvpn.Common.{
  ℕ, String, Bool, true, false, ◌||◌, Option, none, some, ◌⊎◌, inl, inr, if◌then◌else◌,
}
use cumulusvpn.Codes.{Decoder}
use cumulusvpn.Transfers.{Plan, monthly, annual}

-- The settings, the price of the rail and the base58 decoder.
pub record GoogleConfig : Type 0 where
  pub package_name : String
  pub base_plan_monthly : String
  pub base_plan_annual : String
  pub test_grants : Bool
  pub test_grant_days : ℕ
  pub price_zats : ℕ
  pub decode : Decoder

-- What the code reads of the first line item; `expiry_ms` is `none` where `Date.parse` gives NaN.
pub record PlayLine : Type 0 where
  pub base_plan_id : Option String
  pub latest_successful_order_id : Option String
  pub product_id : Option String
  pub expiry_ms : Option ℕ

-- What the code reads of an answer of `purchases.subscriptionsv2.get`.
pub record PlaySubscription : Type 0 where
  pub state : Option String
  pub account_id : Option String
  pub line : Option PlayLine
  pub latest_order_id : Option String
  pub test_purchase : Bool

pub record PeriodFacts : Type 0 where
  pub days : ℕ
  pub plan : Plan
  pub order_id : String
  pub product_id : Option String
  pub expiry_ms : Option ℕ
  pub test : Bool

-- `GoogleVerifyOutcome` and `ClaimOutcome`
pub record Outcome : Type 0 where
  pub accepted : Bool
  pub reason : String
  pub days : Option ℕ
  pub test : Option Bool
  pub transferred : Option Bool
  pub available_at : Option ℕ

abbrev pub reject : String → Outcome
reject why = record {
  accepted = false;
  reason = why;
  days = none;
  test = none;
  transferred = none;
  available_at = none;
}

abbrev pub accept : String → ℕ → Bool → Outcome
accept why days test = record {
  accepted = true;
  reason = why;
  days = some days;
  test = some test;
  transferred = none;
  available_at = none;
}

abbrev text_or : String → Option String → String
text_or d none = d
text_or d (some s) = s

abbrev is_live : Option String → Bool
is_live none = false
is_live (some s) =
    str_eq s "SUBSCRIPTION_STATE_ACTIVE" || str_eq s "SUBSCRIPTION_STATE_IN_GRACE_PERIOD"

unfoldable pub inactive_reason : PlaySubscription → Option String
inactive_reason sub =
    if is_live sub.state then none else some (String.◌++◌ "state:" (text_or "unknown" sub.state))

abbrev pub is_text : Option String → String → Bool
is_text none s = false
is_text (some t) s = str_eq t s

unfoldable pub plan_for_base_plan : GoogleConfig → Option String → Option Plan
plan_for_base_plan cfg id =
    if is_text id cfg.base_plan_monthly
    then some monthly
    else if is_text id cfg.base_plan_annual
    then some annual
    else none

-- The days and the plan go together: 30 and 360.
abbrev pub days_of : Plan → ℕ
days_of monthly = 30
days_of annual = 360

abbrev base_plan_of : Option PlayLine → Option String
base_plan_of none = none
base_plan_of (some l) = l.base_plan_id

abbrev order_of : Option PlayLine → Option String
order_of none = none
order_of (some l) = l.latest_successful_order_id

abbrev product_of : Option PlayLine → Option String
product_of none = none
product_of (some l) = l.product_id

abbrev expiry_of : Option PlayLine → Option ℕ
expiry_of none = none
expiry_of (some l) = l.expiry_ms

-- `a ?? b`
abbrev pub or_else : Option String → Option String → Option String
or_else none b = b
or_else (some a) b = some a

-- `!s` of a text that may be absent: absent or empty
abbrev pub given : Option String → Option String
given none = none
given (some s) = if str_eq s "" then none else some s

abbrev facts_of : PlaySubscription → Plan → Option String → String ⊎ PeriodFacts
facts_of sub plan none = inl "no_order_id"
facts_of sub plan (some order) = inr (record {
  days = days_of plan;
  plan = plan;
  order_id = order;
  product_id = product_of sub.line;
  expiry_ms = expiry_of sub.line;
  test = sub.test_purchase;
})

unfoldable pub period_facts : GoogleConfig → PlaySubscription → String ⊎ PeriodFacts
period_facts cfg sub = elim (plan_for_base_plan cfg (base_plan_of sub.line)) [
  | none ↦ inl (String.◌++◌ "unknown_base_plan:" (text_or "none" (base_plan_of sub.line)))
  | some plan ↦ facts_of sub plan (given (or_else (order_of sub.line) sub.latest_order_id))
]
