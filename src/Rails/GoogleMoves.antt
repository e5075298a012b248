-- ===== src/Rails/GoogleMoves.antt =====
-- The grants of bridge/src/rails/google.ts: `testGrant`, the end of `settle`, and `transferTo`.
use Prim.Native.String
use cumulusvpn.Common.{
  ℕ, String, Bool, true, false, ◌&&◌, not, Option, none, some, ◌==◌, if◌then◌else◌,
}
use cumulusvpn.Common.Decimal.{number_text}
use cumulusvpn.Grants.{GrantEvent, GrantResult, record_grant}
use cumulusvpn.Payments.{google, PaymentsDb}
use cumulusvpn.Subscriptions.{TransferActor, rebind}
use cumulusvpn.Transfers.{remaining_days}
use cumulusvpn.Rails.{Bridge, seconds, result_text}
use cumulusvpn.Rails.Play.{GoogleConfig, PeriodFacts, Outcome, accept}

-- What is left to do of `settle` once the purchase is acknowledged.
pub record Job : Type 0 where
  pub code : String
  pub token : String
  pub facts : PeriodFacts
  -- the claim of the owner adds `transferred: false`
  pub claimed : Bool

-- `transferEventKey`
abbrev pub transfer_event_key : String → ℕ → String
transfer_event_key key end =
    String.◌++◌ "transfer:" (String.◌++◌ key (String.◌++◌ ":" (number_text end)))

abbrev grant_event : String → String → String → ℕ → GrantEvent
grant_event key token code days = record {
  rail = google;
  event_key = key;
  external_ref = token;
  payment_code = code;
  days = days;
}

-- `testGrant`; `none` where the insert throws
unfoldable pub test_grant :
    GoogleConfig → String → String → ℕ → PaymentsDb → Option (Outcome × PaymentsDb)
test_grant cfg token code now_ms queue =
    if cfg.test_grant_days == 0
    then some (accept "test_verified" 0 true, queue)
    else elim (record_grant cfg.decode cfg.price_zats
        (grant_event (String.◌++◌ "test:" token) token code cfg.test_grant_days) (seconds now_ms)
        queue) [
          | none ↦ none
          | some (result, queue') ↦
              some
                (accept (String.◌++◌ "test:" (result_text result)) cfg.test_grant_days true, queue')
        ]

-- A claim adds that nothing was transferred.
abbrev pub answered : Job → Outcome → Outcome
answered job outcome = if job.claimed then record outcome { transferred = some false } else outcome

-- The rest of `settle`: the grant of the period.
unfoldable pub finish : GoogleConfig → Job → ℕ → PaymentsDb → Option (Outcome × PaymentsDb)
finish cfg job now_ms queue =
    if job.facts.test && not cfg.test_grants
    then elim (test_grant cfg job.token job.code now_ms queue) [
      | none ↦ none
      | some (outcome, queue') ↦ some (answered job outcome, queue')
    ]
    else elim (record_grant cfg.decode cfg.price_zats
        (grant_event job.facts.order_id job.token job.code job.facts.days) (seconds now_ms) queue) [
          | none ↦ none
          | some (result, queue') ↦
              some (answered job (accept (result_text result) job.facts.days false), queue')
        ]

-- The result of `transferTo`.
pub record Moved : Type 0 where
  pub days : ℕ
  pub grant : Option GrantResult
  pub previous : Option String

abbrev pub is_probe : GoogleConfig → PeriodFacts → Bool
is_probe cfg facts = facts.test && not cfg.test_grants

unfoldable pub transfer_days : GoogleConfig → PeriodFacts → ℕ → ℕ
transfer_days cfg facts now_ms =
    if is_probe cfg facts
    then cfg.test_grant_days
    else remaining_days facts.expiry_ms now_ms facts.plan

-- A period without an end has no days left, so its key is never used.
abbrev period_key : String → Option ℕ → String
period_key token none = transfer_event_key token 0
period_key token (some end) = transfer_event_key token end

abbrev pub transfer_key : GoogleConfig → String → PeriodFacts → String
transfer_key cfg token facts =
    if is_probe cfg facts
    then String.◌++◌ "test-transfer:" token
    else period_key token facts.expiry_ms

-- The grant of a move: nothing for no days.
unfoldable pub transfer_grant :
    GoogleConfig
    → String
    → String
    → PeriodFacts
    → ℕ
    → PaymentsDb
    → Option (Option GrantResult × PaymentsDb)
transfer_grant cfg code token facts now_ms queue =
    let days = transfer_days cfg facts now_ms in
    if days == 0
    then some (none, queue)
    else elim (record_grant cfg.decode cfg.price_zats
        (grant_event (transfer_key cfg token facts) token code days) (seconds now_ms) queue) [
          | none ↦ none
          | some (result, queue') ↦ some (some result, queue')
        ]

-- `transferTo`: the grant, then the new binding, with no await between.
unfoldable pub transfer_to :
    GoogleConfig
    → String
    → String
    → PeriodFacts
    → TransferActor
    → ℕ
    → Bridge
    → Option (Moved × Bridge)
transfer_to cfg code token facts actor now_ms b =
    elim (transfer_grant cfg code token facts now_ms b.queue) [
      | none ↦ none
      | some (grant, queue) ↦
          let days = transfer_days cfg facts now_ms in
          let rebound = rebind google token code facts.plan actor days (seconds now_ms) b.subs in
          some (
            record { days = days; grant = grant; previous = rebound.1 },
            record { queue = queue; subs = rebound.0 },
          )
    ]
