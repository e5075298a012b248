-- ===== src/Payments/Examples.antt =====
-- Histories of bridge/src/db/payments.ts over a queue of one or two rows.
use cumulusvpn.Common.{◌≡◌, refl, none, some, List, [], ◌∷◌, arith}
use cumulusvpn.Payments.{
  stripe, NewPayment, PaymentRow, PaymentsDb, Outpoint, pending, next_pending,
}
use cumulusvpn.Payments.Events.{
  Write, insert, broadcast_as, expire, fail, write, write_all, event_count, IsOnce,
  write_all-insert_once,
}

abbrev empty : PaymentsDb
empty = record { payments = []; spent = [] }

abbrev order : NewPayment
order = record {
  rail = stripe;
  event_key = "in_1";
  external_ref = "sub_1";
  payment_code = "code";
  days = 30;
  flux_zats = 500;
}

abbrev coin : Outpoint
coin = record { txid = "u"; vout = 0 }

abbrev history : List Write
history =
    insert order 2
    ∷ broadcast_as 1 "t" "00" 40 (coin ∷ []) (some 510) 3
    ∷ expire 1 "t"
    ∷ insert order 4
    ∷ fail 1 0 [] 5
    ∷ []

empty-IsOnce : IsOnce empty
unfolding event_count
empty-IsOnce rail key = omega arith

write_all-insert_once_example :
    event_count stripe "in_1" (write_all history (write (insert order 1) empty)).payments ≡ 1
write_all-insert_once_example =
    write_all-insert_once order 1 history empty (omega arith) (omega arith) empty-IsOnce

abbrev row : PaymentRow
row = record {
  id = 1;
  rail = stripe;
  event_key = "in_1";
  external_ref = "sub_1";
  payment_code = "code";
  days = 30;
  flux_zats = 500;
  status = pending;
  txid = none;
  raw_hex = none;
  expiry_height = none;
  attempts = 0;
  next_retry_at = 1;
  last_error = none;
  created_at = 1;
  broadcast_at = none;
  confirmed_at = none;
}

-- The row is due.
next_run : next_pending 9 (record empty { payments = row ∷ [] }) ≡ some row
unfolding next_pending
next_run = refl
