-- ===== src/Vouchers/Redeeming.antt =====
-- The walls round a grant voucher of bridge/src/db/vouchers.ts: its limit, one use for each payment
-- code, and the one payment that a use owes.
use cumulusvpn.Common.{
  ℕ, ◌≤◌, ◌<◌, ◌≡◌, ◌≢◌, String, Bool, true, List, [], ◌∷◌, ◌++◌, any, All, arith,
}
use text.Mathlib.TextEquality.{eq_iff}
use cumulusvpn.Payments.{voucher}
use cumulusvpn.Payments.Events.{Write, write, write_all, event_count, IsOnce, write_all-insert_once}
use cumulusvpn.Price.Payout.{zats_for_days}
use cumulusvpn.Vouchers.{
  VoucherRow, RedemptionRow, VoucherDb, redeemed, can_redeem, bump, same_use, payment_of, event_key,
  redeem_grant,
}
use cumulusvpn.Vouchers.Tally.{redeem_grant-IsRedeemed}

abbrev pub IsWithin : VoucherRow → Type 0
IsWithin v = v.redemption_count ≤ v.max_redemptions

bump_guarded :
    (id now : ℕ) (vs : List VoucherRow)
    → All IsWithin vs
    → All IsWithin (bump (can_redeem id now) vs)
unfolding bump can_redeem
bump_guarded id now [] h = tt
bump_guarded id now (v ∷ vs) h = ground (arith, bump_guarded id now vs h.1)

any-append {ℓ} :
    {A : Type ℓ} (p : A → Bool) (xs ys : List A) → any p xs ≡ true → any p (xs ++ ys) ≡ true
any-append p [] ys h = cc
any-append p (x ∷ xs) ys h = ground (arith, any-append p xs ys)

any_last {ℓ} :
    {A : Type ℓ} (p : A → Bool) (xs : List A) (x : A) → p x ≡ true → any p (xs ++ x ∷ []) ≡ true
any_last p [] x h = ground arith
any_last p (y ∷ xs) x h = ground (arith, any_last p xs x h)

module _ (reference : List ℕ → String) (price : ℕ) where
  -- A redemption never takes a voucher over its limit.
  pub redeem_grant-IsWithin :
      (v : VoucherRow) (code : String) (now rid : ℕ) (db db' : VoucherDb)
      → All IsWithin db.vouchers
      → redeem_grant reference price v code now db ≡ redeemed rid db'
      → All IsWithin db'.vouchers
  redeem_grant-IsWithin v code now rid db db' h e =
      let r = redeem_grant-IsRedeemed reference price v code now rid db db' e in
      rw r.counted (bump_guarded v.id now db.vouchers h)

  row_matches :
      (v w : VoucherRow) (code : String) (row : RedemptionRow)
      → w.id ≡ v.id
      → row.voucher_id ≡ v.id
      → row.payment_code ≡ code
      → same_use w.id code row ≡ true
  row_matches v w code row e a b = ground (arith, eq_iff row.payment_code code)

  -- Further redemptions never take a use back.
  same_use_kept :
      (v : VoucherRow) (code : String) (now rid : ℕ) (db db' : VoucherDb) (p : RedemptionRow → Bool)
      → redeem_grant reference price v code now db ≡ redeemed rid db'
      → any p db.redemptions ≡ true
      → any p db'.redemptions ≡ true
  same_use_kept v code now rid db db' p e h =
      let r = redeem_grant-IsRedeemed reference price v code now rid db db' e in
      rw r.recorded (any-append p db.redemptions _ h)

  -- A history of redemptions of any vouchers by any codes, at any times; one that fails changes nothing.
  pub data Uses (db : VoucherDb) : VoucherDb → Type 0 where
    start : Uses db db
    another :
        {mid after : VoucherDb} (v : VoucherRow) (code : String) (now rid : ℕ)
        → Uses db mid
        → redeem_grant reference price v code now mid ≡ redeemed rid after
        → Uses db after

  Uses-kept :
      {db after : VoucherDb} (p : RedemptionRow → Bool)
      → Uses db after
      → any p db.redemptions ≡ true
      → any p after.redemptions ≡ true
  Uses-kept p start h = h
  Uses-kept {after} p (another {mid} v code now rid u e) h =
      same_use_kept v code now rid mid after p e (Uses-kept p u h)

  -- Once a code has used a voucher it cannot use it again, after whatever further redemptions: every
  -- later attempt is refused or throws.
  pub redeem_grant_once :
      (v w : VoucherRow) (code : String) (now later rid rid' : ℕ) (db db' after last : VoucherDb)
      → w.id ≡ v.id
      → redeem_grant reference price v code now db ≡ redeemed rid db'
      → Uses db' after
      → redeem_grant reference price w code later after ≢ redeemed rid' last
  redeem_grant_once v w code now later rid rid' db db' after last same e u e' =
      let r = redeem_grant-IsRedeemed reference price v code now rid db db' e in
      let r' = redeem_grant-IsRedeemed reference price w code later rid' after last e' in
      let there : any (same_use w.id code) db'.redemptions ≡ true = rw r.recorded (
        any_last (same_use w.id code) db.redemptions r.row
          (row_matches v w code r.row same r.row_is.1 r.row_is.2)) in
      let kept = Uses-kept (same_use w.id code) u there in cc (kept, r'.first_use)

  -- The payment of a redemption of at least a day and a zat stands in the queue exactly once, now and after any further writes of
  -- the queue, if no event had two rows before.
  pub redeem_grant_owed :
      (v : VoucherRow) (code : String) (now rid : ℕ) (ws : List Write) (db db' : VoucherDb)
      → 0 < v.value
      → 0 < zats_for_days price v.value
      → IsOnce db.queue
      → redeem_grant reference price v code now db ≡ redeemed rid db'
      → event_count voucher (event_key v.id code) (write_all ws db'.queue).payments ≡ 1
  unfolding write
  redeem_grant_owed v code now rid ws db db' d z h e =
      let r = redeem_grant-IsRedeemed reference price v code now rid db db' e in
      let once = write_all-insert_once (payment_of reference price v code) now ws db.queue d z h in
      rw r.queued at once
