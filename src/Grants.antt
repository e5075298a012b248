-- ===== src/Grants.antt =====
-- bridge/src/grants.ts: every rail's verified event becomes at most one row of the payments queue.
use cumulusvpn.Common.{ℕ, String, Option, none, some, if◌then◌else◌}
use cumulusvpn.Codes.{Decoder, is_valid_payment_code}
use cumulusvpn.Payments.{Rail, NewPayment, PaymentsDb, insert_idempotent}
use cumulusvpn.Price.Payout.{zats_for_days}

pub record GrantEvent : Type 0 where
  pub rail : Rail
  pub event_key : String
  pub external_ref : String
  pub payment_code : String
  pub days : ℕ

pub data GrantResult : Type 0 where
  queued duplicate invalid_code : GrantResult

abbrev pub payment_of : ℕ → GrantEvent → NewPayment
payment_of price ev = record {
  rail = ev.rail;
  event_key = ev.event_key;
  external_ref = ev.external_ref;
  payment_code = ev.payment_code;
  days = ev.days;
  flux_zats = zats_for_days price ev.days;
}

abbrev result_of : Option ℕ → GrantResult
result_of none = duplicate
result_of (some _) = queued

-- `none`: the insert throws (a CHECK constraint)
unfoldable pub record_grant :
    Decoder → ℕ → GrantEvent → ℕ → PaymentsDb → Option (GrantResult × PaymentsDb)
record_grant decode price ev now db =
    if is_valid_payment_code decode ev.payment_code
    then elim (insert_idempotent (payment_of price ev) now db) [
      | none ↦ none
      | some (id, db') ↦ some (result_of id, db')
    ]
    else some (invalid_code, db)
