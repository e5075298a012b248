-- ===== src/Rails/Google.antt =====
-- bridge/src/rails/google.ts. What the Play API answers, and what JSON and base64 decode to, are
-- arguments. A handler that awaits is cut where it awaits: between two awaits nothing else runs. The
-- acknowledgement of a purchase changes no table and is left out; the await around it is a cut.
pub mod Effects
pub mod Handlers
pub mod System
pub mod Spacing
pub mod Owner
pub mod Once
pub mod Repeats
use Prim.Native.String
use text.Mathlib.Text.{◌==◌ as str_eq}
use cumulusvpn.Common.{
  ℕ, ◌+◌, ◌≡◌, String, Bool, true, false, ◌&&◌, ◌||◌, not, Option, none, some, List, [], ◌∷◌, ◌++◌,
  ◌⊎◌, inl, inr, ltb, ◌==◌, if◌then◌else◌,
}
use cumulusvpn.Common.Decimal.{number_text}
use cumulusvpn.Codes.{Decoder, is_valid_payment_code}
use cumulusvpn.Grants.{GrantEvent, GrantResult, record_grant}
use cumulusvpn.Payments.{google, PaymentsDb}
use cumulusvpn.Subscriptions.{
  SubscriptionRow, SubscriptionsDb, refunded, TransferActor, user, admin, get, upsert, rebind,
  set_status,
}
use cumulusvpn.Transfers.{Plan, monthly, annual, remaining_days, transfer_available_at}
use cumulusvpn.Rails.{Bridge, seconds, result_text}
use cumulusvpn.Rails.Play.{
  GoogleConfig, PlaySubscription, PlayLine, PeriodFacts, Outcome, reject, accept, inactive_reason,
  period_facts, is_text, or_else, given,
}
use cumulusvpn.Rails.GoogleMoves.{Job, Moved, transfer_to}

-- A handler up to its next await: it answers, or waits for the acknowledgement.
pub data Section : Type 0 where
  answer : Outcome → Section
  settling : Job → Section

-- The owner of a subscription that has been moved.
abbrev if_moved : SubscriptionRow → Option ℕ → Option String
if_moved r none = none
if_moved r (some t) = some r.payment_code

unfoldable pub moved_owner : String → SubscriptionsDb → Option String
moved_owner token subs = elim (get google token subs.subscriptions) [
  | none ↦ none
  | some r ↦ if_moved r r.transferred_at
]

-- `settle` up to the acknowledgement.
unfoldable pub bind :
    String → String → PeriodFacts → Bool → ℕ → SubscriptionsDb → Section × SubscriptionsDb
bind code token facts claimed now_ms subs = (
  settling (record { code = code; token = token; facts = facts; claimed = claimed }),
  upsert google token code facts.plan none (seconds now_ms) subs,
)

abbrev bound_code : Option String → String → String
bound_code none code = code
bound_code (some owner) code = owner

abbrev mismatch : Option String → String
mismatch none = "account_id_missing"
mismatch (some _) = "account_id_mismatch"

-- `verifyPurchase` from the answer of Play on.
unfoldable pub verify_section :
    GoogleConfig
    → String
    → String
    → Bool
    → PlaySubscription
    → ℕ
    → SubscriptionsDb
    → Section × SubscriptionsDb
verify_section cfg code token strict sub now_ms subs =
    if not (is_valid_payment_code cfg.decode code)
    then (answer (reject "invalid_code"), subs)
    else elim (inactive_reason sub) [
      | some why ↦ (answer (reject why), subs)
      | none ↦
          if strict && not (is_text sub.account_id code)
          then (answer (reject (mismatch (given sub.account_id))), subs)
          else elim (period_facts cfg sub) [
            | inl why ↦ (answer (reject why), subs)
            | inr facts ↦
                bind (bound_code (moved_owner token subs) code) token facts false now_ms subs
          ]
    ]

abbrev grant_text : Option GrantResult → String
grant_text none = "none"
grant_text (some r) = result_text r

-- `known?.payment_code || obfuscatedExternalAccountId || undefined`
abbrev pub code_of : Option SubscriptionRow → Option String
code_of none = none
code_of (some r) = some r.payment_code

unfoldable pub owner_of : Option SubscriptionRow → PlaySubscription → Option String
owner_of known sub = or_else (given (code_of known)) (given sub.account_id)

abbrev moved_at : Option SubscriptionRow → Option ℕ
moved_at none = none
moved_at (some r) = r.transferred_at

-- `owner === undefined || owner === code`
abbrev pub may_settle : Option String → String → Bool
may_settle none code = true
may_settle (some owner) code = str_eq owner code

-- A claim up to its next await; a claim that moves the subscription answers after the acknowledgement,
-- which changes nothing.
abbrev moved_answer : PeriodFacts → Moved → Outcome
moved_answer facts m =
    record (accept (String.◌++◌ "transfer:" (grant_text m.grant)) m.days facts.test) {
      transferred = some true;
    }

abbrev with_subs : Bridge → Section × SubscriptionsDb → Option (Section × Bridge)
with_subs b (s, subs) = some (s, record b { subs = subs })

-- The claim of another code's subscription: refused, too soon, or moved. `none`: the grant throws.
unfoldable pub take_over :
    GoogleConfig → String → String → Bool → PeriodFacts → ℕ → Bridge → Option (Section × Bridge)
take_over cfg code token transfer facts now_ms b =
    if not transfer
    then some (answer (reject "owned_by_other_device"), b)
    else elim (transfer_available_at (moved_at (get google token b.subs.subscriptions))
        (seconds now_ms)) [
          | some at ↦
              some (answer (record (reject "transfer_too_soon") { available_at = some at }), b)
          | none ↦ elim (transfer_to cfg code token facts user now_ms b) [
            | none ↦ none
            | some (m, b') ↦ some (answer (moved_answer facts m), b')
          ]
        ]

-- `claimPurchase` from the answer of Play on.
unfoldable pub claim_section :
    GoogleConfig
    → String
    → String
    → Bool
    → PlaySubscription
    → ℕ
    → Bridge
    → Option (Section × Bridge)
claim_section cfg code token transfer sub now_ms b =
    if not (is_valid_payment_code cfg.decode code)
    then some (answer (reject "invalid_code"), b)
    else elim (inactive_reason sub) [
      | some why ↦ some (answer (reject why), b)
      | none ↦ elim (period_facts cfg sub) [
        | inl why ↦ some (answer (reject why), b)
        | inr facts ↦
            if may_settle (owner_of (get google token b.subs.subscriptions) sub) code
            then with_subs b (bind code token facts true now_ms b.subs)
            else take_over cfg code token transfer facts now_ms b
      ]
    ]

-- `RebindOutcome`
pub record Rebound : Type 0 where
  pub ok : Bool
  pub reason : String
  pub previous_code : Option String
  pub days : Option ℕ
  pub grant : Option GrantResult
  pub test : Option Bool

abbrev refuse : String → Rebound
refuse why = record {
  ok = false;
  reason = why;
  previous_code = none;
  days = none;
  grant = none;
  test = none;
}

abbrev rebound_answer : PeriodFacts → Moved × Bridge → Rebound × Bridge
rebound_answer facts (m, b) = (
  record {
    ok = true;
    reason = "rebound";
    previous_code = m.previous;
    days = some m.days;
    grant = m.grant;
    test = some facts.test;
  },
  b,
)

-- `adminRebind`, with the row that was known when the call began; `none` for the answer of Play: no
-- grant was asked for.
unfoldable pub admin_rebind :
    GoogleConfig
    → String
    → String
    → Option SubscriptionRow
    → Option PlaySubscription
    → ℕ
    → Bridge
    → Option (Rebound × Bridge)
admin_rebind cfg token code before answered now_ms b = elim before [
  | none ↦ some (refuse "not_found", b)
  | some known ↦ elim answered [
    | none ↦
        let rebound = rebind google token code known.plan admin 0 (seconds now_ms) b.subs in
        some (
          record {
            ok = true;
            reason = "rebound";
            previous_code = rebound.1;
            days = some 0;
            grant = none;
            test = none;
          },
          record b { subs = rebound.0 },
        )
    | some sub ↦ elim (inactive_reason sub) [
      | some why ↦ some (refuse "not_active", b)
      | none ↦ elim (period_facts cfg sub) [
        | inl why ↦ some (refuse why, b)
        | inr facts ↦ elim (transfer_to cfg code token facts admin now_ms b) [
          | none ↦ none
          | some moved ↦ some (rebound_answer facts moved)
        ]
      ]
    ]
  ]
]
