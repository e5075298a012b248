-- ===== src/Subscriptions/Examples.antt =====
-- One stored subscription of the Apple rail, after bridge/src/db/subscriptions.ts.
use cumulusvpn.Common.{◌≡◌, refl, false, none, some, [], ◌∷◌}
use cumulusvpn.Payments.{apple}
use cumulusvpn.Transfers.{annual}
use cumulusvpn.Subscriptions.{SubscriptionRow, SubscriptionsDb, active, get}

abbrev stored : SubscriptionRow
stored = record {
  rail = apple;
  external_id = "200";
  payment_code = "alice";
  plan = annual;
  status = active;
  created_at = 5;
  updated_at = 5;
  stripe_customer_id = none;
  transferred_at = none;
  apple_expires_ms = some 900;
  apple_sandbox = some false;
}

abbrev db : SubscriptionsDb
db = record { subscriptions = stored ∷ []; transfers = []; apple_tokens = [] }

get_run : get apple "200" db.subscriptions ≡ some stored
unfolding get
get_run = refl
