-- ===== src/Rails.antt =====
-- bridge/src/rails: the handlers that turn what a store has verified into grants and bindings. Their
-- state is the payments queue and the subscriptions, as the handlers of one process share them.
pub mod Play
pub mod GoogleMoves
pub mod Google
pub mod Notices
mod Examples
use cumulusvpn.Common.{ℕ, ◌/◌, String}
use cumulusvpn.Grants.{GrantResult, queued, duplicate, invalid_code}
use cumulusvpn.Payments.{PaymentsDb}
use cumulusvpn.Subscriptions.{SubscriptionsDb}

pub record Bridge : Type 0 where
  pub queue : PaymentsDb
  pub subs : SubscriptionsDb

-- `Math.floor(Date.now() / 1000)`
abbrev pub seconds : ℕ → ℕ
seconds ms = ms / 1000

-- A grant result in a template literal.
abbrev pub result_text : GrantResult → String
result_text queued = "queued"
result_text duplicate = "duplicate"
result_text invalid_code = "invalid_code"
