-- ===== src/Vouchers/Examples.antt =====
-- Redemptions of a voucher that two codes may use, after bridge/src/db/vouchers.ts.
use cumulusvpn.Common.{
  ℕ, ◌<◌, ◌≡◌, ◌≢◌, refl, none, some, String, List, [], ◌∷◌, ◌++◌, map, All, arith,
}
use cumulusvpn.Common.Decimal.{codes}
use cumulusvpn.Payments.{voucher, PaymentsDb, PaymentRow, pending, insert_idempotent, max_id}
use cumulusvpn.Payments.Events.{event_count, IsOnce, confirm, write_all}
use cumulusvpn.Price.Payout.{zats_for_days}
use cumulusvpn.Vouchers.{
  VoucherRow, grant_days, active, VoucherDb, redeem_grant, redeemed, enqueue, can_redeem, bump,
  event_key, campaign_redemptions, max_redemption_id,
}
use cumulusvpn.Common.Text.{text_eq}
use cumulusvpn.Vouchers.Batch.{
  CreateVouchersInput, create_batch, create_from, promo_at, max_voucher_id, IsBatch,
  create_batch-IsBatch,
}
use cumulusvpn.Vouchers.Code.{
  ascii_upper, IsUpper, InAlphabet, in_alphabet, normalize_code, display_code,
  normalize_code-display_code, normalize_code_twice,
}
use cumulusvpn.Vouchers.Tally.{uses_of, IsConsistent, redeem_grant-IsConsistent}
use cumulusvpn.Vouchers.Counting.{IsCounted, redeem_grant-IsCounted}
use cumulusvpn.Vouchers.Redeeming.{
  IsWithin, start, redeem_grant-IsWithin, redeem_grant_once, redeem_grant_owed,
}

abbrev gift : VoucherRow
gift = record {
  id = 3;
  code = codes "ABCDE23456";
  type = grant_days;
  value = 30;
  campaign = "spring";
  max_redemptions = 2;
  redemption_count = 0;
  per_code_limit = 1;
  expires_at = some 900;
  status = active;
  stripe_coupon_id = none;
  stripe_promo_id = none;
  created_at = 1;
}

abbrev no_payments : PaymentsDb
no_payments = record { payments = []; spent = [] }

abbrev fresh : VoucherDb
fresh = record { vouchers = gift ∷ []; redemptions = []; queue = no_payments }

abbrev ref : List ℕ → String
ref code = "voucher"

abbrev granted : PaymentRow
granted = record {
  id = 1;
  rail = voucher;
  event_key = event_key 3 "alice";
  external_ref = "voucher";
  payment_code = "alice";
  days = 30;
  flux_zats = zats_for_days 1000 30;
  status = pending;
  txid = none;
  raw_hex = none;
  expiry_height = none;
  attempts = 0;
  next_retry_at = 0;
  last_error = none;
  created_at = 50;
  broadcast_at = none;
  confirmed_at = none;
}

abbrev used : VoucherDb
used = record {
  vouchers = record gift { redemption_count = 1 } ∷ [];
  redemptions =
      record {
        id = 1;
        voucher_id = 3;
        payment_code = "alice";
        payment_id = some 1;
        redeemed_at = 50;
      }
      ∷ [];
  queue = record no_payments { payments = granted ∷ [] };
}

redeem_run : redeem_grant ref 1000 gift "alice" 50 fresh ≡ redeemed 1 used
unfolding redeem_grant enqueue can_redeem bump campaign_redemptions max_redemption_id
    insert_idempotent max_id zats_for_days
redeem_run = refl

redeem_grant-IsCounted_example : IsCounted ref 1000 gift "alice" 50 1 fresh used
redeem_grant-IsCounted_example =
    redeem_grant-IsCounted ref 1000 gift "alice" 50 1 fresh used (tt, tt) redeem_run

fresh-IsConsistent : IsConsistent fresh
unfolding uses_of
fresh-IsConsistent = record { distinct = (tt, tt); tallied = (refl, tt) }

redeem_grant-IsConsistent_example : IsConsistent used
redeem_grant-IsConsistent_example =
    redeem_grant-IsConsistent ref 1000 gift "alice" 50 1 fresh used fresh-IsConsistent redeem_run

redeem_grant-IsWithin_example : All IsWithin used.vouchers
redeem_grant-IsWithin_example =
    redeem_grant-IsWithin ref 1000 gift "alice" 50 1 fresh used (omega arith, tt) redeem_run

redeem_grant_once_example : redeem_grant ref 1000 gift "alice" 60 used ≢ redeemed 2 used
redeem_grant_once_example =
    redeem_grant_once ref 1000 gift gift "alice" 50 60 1 2 fresh used used used refl redeem_run
      start

no_payments-IsOnce : IsOnce no_payments
unfolding event_count
no_payments-IsOnce rail key = omega arith

some_zats : 0 < zats_for_days 1000 30
unfolding zats_for_days
some_zats = omega arith

redeem_grant_owed_example :
    event_count voucher (event_key 3 "alice") (write_all (confirm 1 70 ∷ []) used.queue).payments
    ≡ 1
redeem_grant_owed_example =
    redeem_grant_owed ref 1000 gift "alice" 50 1 (confirm 1 70 ∷ []) fresh used (omega arith)
      some_zats no_payments-IsOnce redeem_run

abbrev upper : List ℕ → List ℕ
upper = map ascii_upper

upper-IsUpper : IsUpper upper
upper-IsUpper s h = refl

code_ok : InAlphabet (codes "ABCDE23456")
unfolding in_alphabet
code_ok = (refl, (refl, (refl, (refl, (refl, (refl, (refl, (refl, (refl, (refl, tt))))))))))

normalize_code-display_code_example :
    normalize_code upper (display_code (codes "ABCDE23456")) ≡ some (codes "ABCDE23456")
normalize_code-display_code_example =
    normalize_code-display_code upper (codes "ABCDE23456") upper-IsUpper code_ok refl

normalize_code_twice_example :
    (normalize_code upper (codes "CVPNCVPN" ++ codes "ABCDE23456")
      ≡ some (codes "CVPN" ++ codes "ABCDE23456"))
    × (normalize_code upper (display_code (codes "CVPN" ++ codes "ABCDE23456"))
        ≡ some (codes "ABCDE23456"))
normalize_code_twice_example =
    normalize_code_twice upper (codes "ABCDE23456") upper-IsUpper code_ok (omega arith)
      (omega arith)

abbrev order : CreateVouchersInput
order = record {
  type = grant_days;
  value = 7;
  campaign = none;
  max_redemptions = none;
  per_code_limit = some 0;
  expires_at = none;
}

abbrev week : ℕ → List ℕ → VoucherRow
week id code = record {
  id = id;
  code = code;
  type = grant_days;
  value = 7;
  campaign = "";
  max_redemptions = 1;
  redemption_count = 0;
  per_code_limit = 0;
  expires_at = none;
  status = active;
  stripe_coupon_id = none;
  stripe_promo_id = none;
  created_at = 60;
}

abbrev batch : List VoucherRow
batch = week 4 (codes "AAAAAA2222") ∷ week 5 (codes "BBBBBB3333") ∷ []

batch_run :
    create_batch order (codes "AAAAAA2222" ∷ codes "BBBBBB3333" ∷ []) none 60 (gift ∷ [])
    ≡ some (batch, gift ∷ batch)
unfolding create_batch create_from promo_at max_voucher_id text_eq
batch_run = refl

-- A code that exists already throws, and nothing is kept.
taken : create_batch order (codes "AAAAAA2222" ∷ codes "ABCDE23456" ∷ []) none 60 (gift ∷ []) ≡ none
unfolding create_batch create_from promo_at max_voucher_id text_eq
taken = refl

create_batch-IsBatch_example :
    IsBatch (codes "AAAAAA2222" ∷ codes "BBBBBB3333" ∷ []) (gift ∷ []) batch (gift ∷ batch)
create_batch-IsBatch_example =
    create_batch-IsBatch order (codes "AAAAAA2222" ∷ codes "BBBBBB3333" ∷ []) none 60 (gift ∷ [])
      batch (gift ∷ batch) (tt, tt) batch_run
