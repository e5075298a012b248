-- ===== src/Vouchers/Counting.antt =====
-- What a redemption of bridge/src/db/vouchers.ts changes, row by row, and the campaign's limit counted
-- voucher by voucher.
use cumulusvpn.Common.{
  ℕ, ◌+◌, ◌≤◌, ◌<◌, ◌≡◌, ◌≢◌, ◌⊎◌, refl, sym, inl, inr, String, Bool, true, false, ◌&&◌, List, [],
  ◌∷◌, ◌++◌, ◌==◌, if◌then◌else◌, any, sum_of, All, Exists, Bool-cases, arith,
}
use text.Mathlib.Text.{◌==◌ as str_eq}
use cumulusvpn.Payments.{voucher}
use cumulusvpn.Payments.Events.{event_count, inserted_counts}
use cumulusvpn.Vouchers.{
  VoucherRow, RedemptionRow, VoucherDb, redeemed, can_redeem, bump, event_key, payment_of,
  campaign_redemptions, redeem_grant,
}
use cumulusvpn.Vouchers.Tally.{
  Distinct, found_later, IsEligible, redeem_grant-IsRedeemed, can_redeem-id,
}

-- The voucher of the id has one use more, and every other row is what it was.
abbrev pub IsCountedUp : ℕ → List VoucherRow → List VoucherRow → Type 0
IsCountedUp id [] [] = Unit
IsCountedUp id (v ∷ vs) (w ∷ ws) =
    (w ≡ (if v.id == id then record v { redemption_count = v.redemption_count + 1 } else v))
    × IsCountedUp id vs ws
IsCountedUp id _ _ = ⊥

-- The redemptions of a voucher by a code.
unfoldable pub uses_by : ℕ → String → List RedemptionRow → ℕ
uses_by id code rs =
    sum_of (λ r. if r.voucher_id == id && str_eq r.payment_code code then 1 else 0) rs

-- The redemptions of a campaign by a code: those of its vouchers, one after the other.
unfoldable pub campaign_uses : String → String → List RedemptionRow → List VoucherRow → ℕ
campaign_uses campaign code rs vs =
    sum_of (λ w. if str_eq w.campaign campaign then uses_by w.id code rs else 0) vs

unchanged :
    (p : VoucherRow → Bool) (id : ℕ) (vs : List VoucherRow)
    → ((v : VoucherRow) → p v ≡ true → v.id ≡ id)
    → All (λ v. v.id ≢ id) vs
    → IsCountedUp id vs (bump p vs)
unfolding bump
unchanged p id [] only h = tt
unchanged p id (v ∷ vs) only h = elim (Bool-cases (p v)) [
  | inl here ↦ elim (h.0 (only v here)) [ ]
  | inr other ↦
      let differ : (v.id == id) ≡ false = ground (arith, h.0) in
      (rw (other, differ) refl, unchanged p id vs only h.1)
]

bump-IsCountedUp :
    (p : VoucherRow → Bool) (id : ℕ) (vs : List VoucherRow)
    → ((v : VoucherRow) → p v ≡ true → v.id ≡ id)
    → Distinct vs
    → any p vs ≡ true
    → IsCountedUp id vs (bump p vs)
unfolding bump
bump-IsCountedUp p id [] only d h = tt
bump-IsCountedUp p id (v ∷ vs) only d h = elim (Bool-cases (p v)) [
  | inl here ↦
      let same : v.id ≡ id = only v here in
      let equal : (v.id == id) ≡ true = ground (arith, same) in
      (rw (here, equal) refl, unchanged p id vs only (rw same at d.0))
  | inr later ↦
      let after : any p vs ≡ true = rw later at h in
      let ne : v.id ≢ id = found_later p id v.id vs only after d.0 in
      let differ : (v.id == id) ≡ false = ground (arith, ne) in
      (rw (later, differ) refl, bump-IsCountedUp p id vs only d.1 after)
]

none_other :
    (campaign : String) (id n : ℕ) (vs : List VoucherRow)
    → n ≡ id
    → All (λ w. w.id ≢ n) vs
    → any (λ w. w.id == id && str_eq w.campaign campaign) vs ≡ false
none_other campaign id n [] e h = refl
none_other campaign id n (w ∷ vs) e h = ground (arith, e, h.0, none_other campaign id n vs e h.1)

-- One row counts for one voucher of the campaign at most, since ids differ.
one_row :
    (campaign code : String) (r : RedemptionRow) (vs : List VoucherRow)
    → Distinct vs
    → sum_of
        (λ w.
          if str_eq w.campaign campaign
          then (if r.voucher_id == w.id && str_eq r.payment_code code then 1 else 0)
          else 0)
        vs
      ≡ (if any (λ w. w.id == r.voucher_id && str_eq w.campaign campaign) vs
            && str_eq r.payment_code code
          then 1
          else 0)
one_row campaign code r [] d = refl
one_row campaign code r (w ∷ vs) d = elim (Bool-cases (w.id == r.voucher_id)) [
  | inl same ↦
      let e : w.id ≡ r.voucher_id = ground (arith, same) in
      ground
        (arith, e, one_row campaign code r vs d.1, none_other campaign r.voucher_id w.id vs e d.0)
  | inr differ ↦ ground (arith, differ, one_row campaign code r vs d.1)
]

no_uses : (campaign code : String) (vs : List VoucherRow) → campaign_uses campaign code [] vs ≡ 0
unfolding campaign_uses uses_by
no_uses campaign code [] = refl
no_uses campaign code (w ∷ vs) = ground (arith, no_uses campaign code vs)

more_uses :
    (campaign code : String) (r : RedemptionRow) (rs : List RedemptionRow) (vs : List VoucherRow)
    → campaign_uses campaign code (r ∷ rs) vs
      ≡ sum_of
          (λ w.
            if str_eq w.campaign campaign
            then (if r.voucher_id == w.id && str_eq r.payment_code code then 1 else 0)
            else 0)
          vs
        + campaign_uses campaign code rs vs
unfolding campaign_uses uses_by
more_uses campaign code r rs [] = refl
more_uses campaign code r rs (w ∷ vs) = ground (arith, more_uses campaign code r rs vs)

joined :
    (campaign code : String) (rs : List RedemptionRow) (vs : List VoucherRow)
    → Distinct vs
    → sum_of
        (λ r.
          if any (λ w. w.id == r.voucher_id && str_eq w.campaign campaign) vs
            && str_eq r.payment_code code
          then 1
          else 0)
        rs
      ≡ campaign_uses campaign code rs vs
joined campaign code [] vs d = sym (no_uses campaign code vs)
joined campaign code (r ∷ rs) vs d = omega (
  arith,
  joined campaign code rs vs d,
  more_uses campaign code r rs vs,
  one_row campaign code r vs d,
)

-- The limit of a campaign, where there is one, is not reached by the code's redemptions.
abbrev pub IsAllowed : VoucherRow → String → VoucherDb → Type 0
IsAllowed v code db =
    (v.campaign ≡ "")
    ⊎ (v.per_code_limit ≡ 0)
    ⊎ (campaign_uses v.campaign code db.redemptions db.vouchers < v.per_code_limit)

uses_by_none :
    (id : ℕ) (code : String) (rs : List RedemptionRow)
    → any (λ r. r.voucher_id == id && str_eq r.payment_code code) rs ≡ false
    → uses_by id code rs ≡ 0
unfolding uses_by
uses_by_none id code [] h = refl
uses_by_none id code (r ∷ rs) h = ground (arith, h, uses_by_none id code rs)

module _ (reference : List ℕ → String) (price : ℕ) where
  -- A redemption of the voucher `v` by a code that succeeds.
  pub record IsCounted (v : VoucherRow) (code : String) (now rid : ℕ) (db db' : VoucherDb)
      : Type 0 where
    pub eligible : Exists (IsEligible v.id now) db.vouchers
    pub allowed : IsAllowed v code db
    pub unused : uses_by v.id code db.redemptions ≡ 0
    pub counted : IsCountedUp v.id db.vouchers db'.vouchers
    pub row : RedemptionRow
    pub row_is : (row.id ≡ rid) × (row.voucher_id ≡ v.id) × (row.payment_code ≡ code)
    pub recorded : db'.redemptions ≡ db.redemptions ++ row ∷ []
    pub queued : 1 ≤ event_count voucher (event_key v.id code) db'.queue.payments

  -- A redemption succeeds only where a voucher of the id is active, unexpired and not used up, where
  -- the code has not redeemed it, and where the code's redemptions of the campaign's vouchers, counted
  -- voucher by voucher, are below the limit, if there is one. Then the counter of the voucher goes up
  -- by one, every other voucher is what it was, one redemption row of the voucher and the code is
  -- added, and the payment's event stands in the queue. The ids of the vouchers are distinct.
  pub redeem_grant-IsCounted :
      (v : VoucherRow) (code : String) (now rid : ℕ) (db db' : VoucherDb)
      → Distinct db.vouchers
      → redeem_grant reference price v code now db ≡ redeemed rid db'
      → IsCounted v code now rid db db'
  unfolding campaign_redemptions
  redeem_grant-IsCounted v code now rid db db' d e =
      let r = redeem_grant-IsRedeemed reference price v code now rid db db' e in
      record {
        eligible = r.eligible;
        allowed = under r.under_limit;
        unused = uses_by_none v.id code db.redemptions r.first_use;
        counted = rw r.counted (
            bump-IsCountedUp (can_redeem v.id now) v.id db.vouchers (can_redeem-id v.id now) d
              r.guarded);
        row = r.row;
        row_is = (r.row_is.0, r.row_is.1, r.row_is.2);
        recorded = r.recorded;
        queued =
            inserted_counts (payment_of reference price v code) now db.queue db'.queue r.payment
              r.queued;
      }
    where
      under :
          (v.campaign ≡ "")
            ⊎ (v.per_code_limit ≡ 0)
            ⊎ (campaign_redemptions v.campaign code db < v.per_code_limit)
          → IsAllowed v code db
      under (inl none_named) = inl none_named
      under (inr (inl no_limit)) = inr (inl no_limit)
      under (inr (inr below)) =
          inr (inr (omega (arith, below, joined v.campaign code db.redemptions db.vouchers d)))
