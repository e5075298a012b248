-- ===== src/Payments/Queue.antt =====
-- The queue metrics of bridge/src/db/payments.ts (`queueStats`).
use cumulusvpn.Common.{
  ℕ, ◌-◌, min, Bool, ◌||◌, Option, none, some, List, [], ◌∷◌, if◌then◌else◌, sum_of,
}
use cumulusvpn.Payments.{PaymentRow, PaymentsDb, pending, broadcast, status_eq}

pub record QueueStats : Type 0 where
  pub pending : ℕ
  pub broadcast : ℕ
  pub pending_zats : ℕ
  pub oldest_unsettled_age : Option ℕ

-- `CASE WHEN c THEN n ELSE 0 END`
abbrev case_when : Bool → ℕ → ℕ
case_when c n = if c then n else 0

abbrev pub is_unsettled : PaymentRow → Bool
is_unsettled r = status_eq r.status pending || status_eq r.status broadcast

abbrev min_of : Option ℕ → Option ℕ → Option ℕ
min_of none b = b
min_of (some a) none = some a
min_of (some a) (some b) = some (min a b)

-- `MIN(CASE WHEN status IN ('pending','broadcast') THEN created_at ELSE NULL END)`
unfoldable pub oldest_unsettled : List PaymentRow → Option ℕ
oldest_unsettled [] = none
oldest_unsettled (r ∷ rs) =
    min_of (if is_unsettled r then some r.created_at else none) (oldest_unsettled rs)

-- An age is a difference of clock readings, and `created_at` is an earlier one.
abbrev age : ℕ → Option ℕ → Option ℕ
age now none = none
age now (some t) = some (now - t)

unfoldable pub queue_stats : ℕ → PaymentsDb → QueueStats
unfolding oldest_unsettled
queue_stats now db = record {
  pending = sum_of (λ r. case_when (status_eq r.status pending) 1) db.payments;
  broadcast = sum_of (λ r. case_when (status_eq r.status broadcast) 1) db.payments;
  pending_zats = sum_of (λ r. case_when (status_eq r.status pending) r.flux_zats) db.payments;
  oldest_unsettled_age = age now (oldest_unsettled db.payments);
}
