-- ===== src/Vouchers.antt =====
-- bridge/src/db/vouchers.ts: the voucher store and its redemptions. As in the payments repository a
-- table is the list of its rows, a transaction that throws leaves the tables as they were, and the
-- clock is an argument.
pub mod Code
pub mod Tally
pub mod Counting
pub mod Redeeming
pub mod Batch
mod Examples
use cumulusvpn.Common.{
  ℕ, zero, suc, ◌+◌, ◌≡◌, max, String, Bool, true, false, ◌&&◌, ◌||◌, not, Option, none, some, List,
  [], ◌∷◌, ◌++◌, ltb, leb, ◌==◌, if◌then◌else◌, any, find, sum_of, keep, sort_by, take, drop,
}
use cumulusvpn.Common.Decimal.{number_text}
use Prim.Native.String
use text.Mathlib.Text.{◌==◌ as str_eq}
use cumulusvpn.Payments.{voucher, NewPayment, PaymentsDb, insert_idempotent}
use cumulusvpn.Price.Payout.{zats_for_days}

pub data VoucherType : Type 0 where
  grant_days stripe_discount : VoucherType

pub data VoucherStatus : Type 0 where
  active revoked : VoucherStatus

pub record VoucherRow : Type 0 where
  pub id : ℕ
  pub code : List ℕ
  pub type : VoucherType
  pub value : ℕ
  pub campaign : String
  pub max_redemptions : ℕ
  pub redemption_count : ℕ
  pub per_code_limit : ℕ
  pub expires_at : Option ℕ
  pub status : VoucherStatus
  pub stripe_coupon_id : Option String
  pub stripe_promo_id : Option String
  pub created_at : ℕ

pub record RedemptionRow : Type 0 where
  pub id : ℕ
  pub voucher_id : ℕ
  pub payment_code : String
  pub payment_id : Option ℕ
  pub redeemed_at : ℕ

pub record VoucherDb : Type 0 where
  pub vouchers : List VoucherRow
  pub redemptions : List RedemptionRow
  pub queue : PaymentsDb

pub data Reason : Type 0 where
  invalid expired exhausted already_redeemed : Reason

abbrev pub is_active : VoucherStatus → Bool
is_active active = true
is_active revoked = false

-- `expires_at IS NULL OR expires_at > ?`
abbrev pub is_unexpired : Option ℕ → ℕ → Bool
is_unexpired none now = true
is_unexpired (some t) now = ltb now t

-- The guard of the atomic check-and-increment.
unfoldable pub can_redeem : ℕ → ℕ → VoucherRow → Bool
can_redeem id now v =
    v.id == id
    && (is_active v.status
        && (ltb v.redemption_count v.max_redemptions && is_unexpired v.expires_at now))

-- `UPDATE vouchers SET redemption_count = redemption_count + 1 WHERE …`
unfoldable pub bump : (VoucherRow → Bool) → List VoucherRow → List VoucherRow
bump p [] = []
bump p (v ∷ vs) =
    (if p v then record v { redemption_count = v.redemption_count + 1 } else v) ∷ bump p vs

unfoldable pub max_redemption_id : List RedemptionRow → ℕ
max_redemption_id [] = 0
max_redemption_id (r ∷ rs) = max r.id (max_redemption_id rs)

-- The key of UNIQUE (voucher_id, payment_code).
abbrev pub same_use : ℕ → String → RedemptionRow → Bool
same_use id code r = r.voucher_id == id && str_eq r.payment_code code

abbrev in_campaign : String → List VoucherRow → ℕ → Bool
in_campaign campaign vs id = any (λ v. v.id == id && str_eq v.campaign campaign) vs

-- `campaignRedemptions`: a join of redemptions and vouchers
unfoldable pub campaign_redemptions : String → String → VoucherDb → ℕ
campaign_redemptions campaign code db =
    sum_of
      (λ r.
        if in_campaign campaign db.vouchers r.voucher_id && str_eq r.payment_code code
        then 1
        else 0)
      db.redemptions

abbrev over_limit : VoucherRow → String → VoucherDb → Bool
over_limit v code db =
    not (str_eq v.campaign "")
    && (ltb 0 v.per_code_limit && leb v.per_code_limit (campaign_redemptions v.campaign code db))

-- `${voucher.id}:${paymentCode}`
unfoldable pub event_key : ℕ → String → String
event_key id code = String.◌++◌ (number_text id) (String.◌++◌ ":" code)

pub data Redeem : Type 0 where
  redeemed : ℕ → VoucherDb → Redeem
  refused : Reason → Redeem
  -- a CHECK constraint of the queue throws
  thrown : Redeem

abbrev use_row : VoucherRow → String → Option ℕ → ℕ → VoucherDb → RedemptionRow
use_row v code payment now db = record {
  id = suc (max_redemption_id db.redemptions);
  voucher_id = v.id;
  payment_code = code;
  payment_id = payment;
  redeemed_at = now;
}

module _ (reference : List ℕ → String) (price : ℕ) where
  -- `externalRef` is the text `voucher:${voucher.code}`, which nothing reads back.
  abbrev pub payment_of : VoucherRow → String → NewPayment
  payment_of v code = record {
    rail = voucher;
    event_key = event_key v.id code;
    external_ref = reference v.code;
    payment_code = code;
    days = v.value;
    flux_zats = zats_for_days price v.value;
  }

  -- The rows after the increment, the insert of the redemption and the enqueued payment.
  enqueue : VoucherRow → String → ℕ → VoucherDb → Option (Option ℕ × PaymentsDb) → Redeem
  enqueue v code now db none = thrown
  enqueue v code now db (some (payment, queue)) =
      redeemed (suc (max_redemption_id db.redemptions)) (record {
        vouchers = bump (can_redeem v.id now) db.vouchers;
        redemptions = db.redemptions ++ use_row v code payment now db ∷ [];
        queue = queue;
      })

  -- `redeemGrant`
  unfoldable pub redeem_grant : VoucherRow → String → ℕ → VoucherDb → Redeem
  unfolding enqueue
  redeem_grant v code now db =
      if over_limit v code db
      then refused already_redeemed
      else if not (any (can_redeem v.id now) db.vouchers)
      then refused exhausted
      else if any (same_use v.id code) db.redemptions
      then refused already_redeemed
      else enqueue v code now db (insert_idempotent (payment_of v code) now db.queue)

-- `recordDiscountRedemption`: idempotent per (voucher, code); the increment has no guard
unfoldable pub record_discount_redemption : ℕ → String → Option ℕ → ℕ → VoucherDb → Bool × VoucherDb
record_discount_redemption id code payment now db =
    if any (same_use id code) db.redemptions then (false, db) else (
      true,
      record db {
        vouchers = bump (λ v. v.id == id) db.vouchers;
        redemptions =
            db.redemptions
            ++ record {
              id = suc (max_redemption_id db.redemptions);
              voucher_id = id;
              payment_code = code;
              payment_id = payment;
              redeemed_at = now;
            }
              ∷ [];
      },
    )

-- `revoke`
unfoldable pub revoke : ℕ → List VoucherRow → List VoucherRow
revoke id [] = []
revoke id (v ∷ vs) = (if v.id == id then record v { status = revoked } else v) ∷ revoke id vs

-- `list`: the filters that are given, newest first, one page
abbrev campaign_is : Option String → VoucherRow → Bool
campaign_is none v = true
campaign_is (some c) v = str_eq v.campaign c

abbrev status_is : Option VoucherStatus → VoucherRow → Bool
status_is none v = true
status_is (some active) v = is_active v.status
status_is (some revoked) v = not (is_active v.status)

abbrev newest_first : VoucherRow → VoucherRow → Bool
newest_first a b = ltb b.created_at a.created_at || (a.created_at == b.created_at && ltb b.id a.id)

unfoldable pub list_vouchers :
    Option String → Option VoucherStatus → ℕ → ℕ → VoucherDb → List VoucherRow
list_vouchers campaign status limit offset db = take limit (
    drop offset
      (sort_by newest_first (keep (λ v. campaign_is campaign v && status_is status v) db.vouchers)))
