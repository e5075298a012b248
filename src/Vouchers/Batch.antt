-- ===== src/Vouchers/Batch.antt =====
-- `createBatch` and the reads of one voucher of bridge/src/db/vouchers.ts.
use cumulusvpn.Common.{
  ℕ, zero, suc, ◌+◌, ◌≡◌, ◌≢◌, refl, ap, ◌∙◌, max, inl, inr, String, Bool, true, false, ◌||◌,
  Bool-cases, Option, none, some, Option-cases, List, [], ◌∷◌, ◌++◌, ltb, ◌==◌, if◌then◌else◌, any,
  find, All, arith,
}
use cumulusvpn.Common.ListLaws.{All-append}
use cumulusvpn.Common.Text.{Text, text_eq, text_eq_iff}
use text.Mathlib.Text.{◌==◌ as str_eq}
use cumulusvpn.Vouchers.{VoucherType, active, VoucherRow}

pub record CreateVouchersInput : Type 0 where
  pub type : VoucherType
  pub value : ℕ
  pub campaign : Option String
  pub max_redemptions : Option ℕ
  pub per_code_limit : Option ℕ
  pub expires_at : Option ℕ

pub record StripeIds : Type 0 where
  pub coupon_id : String
  pub promo_ids : List String

unfoldable pub by_canonical_code : Text → List VoucherRow → Option VoucherRow
by_canonical_code code vs = find (λ v. text_eq v.code code) vs

unfoldable pub by_id : ℕ → List VoucherRow → Option VoucherRow
by_id id vs = find (λ v. v.id == id) vs

abbrev is_ref : String → Option String → Bool
is_ref ref none = false
is_ref ref (some s) = str_eq s ref

unfoldable pub by_stripe_promo_id : String → List VoucherRow → Option VoucherRow
by_stripe_promo_id promo vs = find (λ v. is_ref promo v.stripe_promo_id) vs

unfoldable pub by_stripe_coupon_id : String → List VoucherRow → Option VoucherRow
by_stripe_coupon_id coupon vs = find (λ v. is_ref coupon v.stripe_coupon_id) vs

-- `a ?? b`
abbrev default {ℓ} : {A : Type ℓ} → A → Option A → A
default d none = d
default d (some a) = a

abbrev coupon_of : Option StripeIds → Option String
coupon_of none = none
coupon_of (some ids) = some ids.coupon_id

-- `stripeIds?.promoIds[i] ?? null`
unfoldable pub promo_at : ℕ → List String → Option String
promo_at i [] = none
promo_at zero (x ∷ xs) = some x
promo_at (suc i) (x ∷ xs) = promo_at i xs

abbrev promo_of : Option StripeIds → ℕ → Option String
promo_of none i = none
promo_of (some ids) i = promo_at i ids.promo_ids

unfoldable pub max_voucher_id : List VoucherRow → ℕ
max_voucher_id [] = 0
max_voucher_id (v ∷ vs) = max v.id (max_voucher_id vs)

abbrev pub new_voucher :
    CreateVouchersInput → Option StripeIds → ℕ → ℕ → Text → List VoucherRow → VoucherRow
new_voucher input stripe now i code vs = record {
  id = suc (max_voucher_id vs);
  code = code;
  type = input.type;
  value = input.value;
  campaign = default "" input.campaign;
  max_redemptions = default 1 input.max_redemptions;
  redemption_count = 0;
  per_code_limit = default 1 input.per_code_limit;
  expires_at = input.expires_at;
  status = active;
  stripe_coupon_id = coupon_of stripe;
  stripe_promo_id = promo_of stripe i;
  created_at = now;
}

-- The CHECK and UNIQUE constraints that an insert must pass.
abbrev pub is_refused : CreateVouchersInput → Text → List VoucherRow → Bool
is_refused input code vs =
    ltb input.value 1
    || (ltb (default 1 input.max_redemptions) 1 || any (λ v. text_eq v.code code) vs)

-- The loop of the transaction from the code with index `i` on: the new rows, read back by their ids,
-- and the table; `none` where an insert throws and nothing is kept.
unfoldable pub create_from :
    CreateVouchersInput
    → Option StripeIds
    → ℕ
    → ℕ
    → List Text
    → List VoucherRow
    → Option (List VoucherRow × List VoucherRow)
create_from input stripe now i [] vs = some ([], vs)
create_from input stripe now i (code ∷ codes) vs =
    let row = new_voucher input stripe now i code vs in
    let rest = create_from input stripe now (suc i) codes (vs ++ row ∷ []) in
    if is_refused input code vs
    then none
    else elim rest [ none ↦ none | some (rows, vs') ↦ some (row ∷ rows, vs') ]

unfoldable pub create_batch :
    CreateVouchersInput
    → List Text
    → Option StripeIds
    → ℕ
    → List VoucherRow
    → Option (List VoucherRow × List VoucherRow)
create_batch input codes stripe now vs = create_from input stripe now 0 codes vs

abbrev pub DistinctCodes : List VoucherRow → Type 0
DistinctCodes [] = Unit
DistinctCodes (v ∷ vs) = All (λ w. w.code ≢ v.code) vs × DistinctCodes vs

new_code-Distinct :
    (r : VoucherRow) (vs : List VoucherRow)
    → any (λ v. text_eq v.code r.code) vs ≡ false
    → DistinctCodes vs
    → DistinctCodes (vs ++ r ∷ [])
new_code-Distinct r [] h d = (tt, tt)
new_code-Distinct r (v ∷ vs) h d =
    let other : r.code ≢ v.code = λ e. ground (arith, text_eq_iff v.code r.code) in
    (All-append _ vs (r ∷ []) d.0 (other, tt), new_code-Distinct r vs (ground arith) d.1)

-- What a run of the loop leaves.
pub record IsBatch (codes : List Text) (vs rows vs' : List VoucherRow) : Type 0 where
  pub appended : vs' ≡ vs ++ rows
  pub coded : cumulusvpn.Common.map (λ v. v.code) rows ≡ codes
  pub unused : All (λ v. v.redemption_count ≡ 0) rows
  pub distinct : DistinctCodes vs'

append_one :
    (vs : List VoucherRow) (r : VoucherRow) (rows : List VoucherRow)
    → (vs ++ r ∷ []) ++ rows ≡ vs ++ r ∷ rows
append_one [] r rows = refl
append_one (v ∷ vs) r rows = ap (λ xs. v ∷ xs) (append_one vs r rows)

fresh_code :
    (input : CreateVouchersInput) (code : Text) (vs : List VoucherRow)
    → is_refused input code vs ≡ false
    → any (λ v. text_eq v.code code) vs ≡ false
fresh_code input code vs h = ground arith

create_from-IsBatch :
    (input : CreateVouchersInput) (stripe : Option StripeIds) (now i : ℕ) (codes : List Text)
    (vs rows vs' : List VoucherRow)
    → DistinctCodes vs
    → create_from input stripe now i codes vs ≡ some (rows, vs')
    → IsBatch codes vs rows vs'
unfolding create_from
create_from-IsBatch input stripe now i [] vs rows vs' d e =
    let same_rows : [] ≡ rows = cc in
    let same_table : vs ≡ vs' = cc in
    rw (← same_rows, ← same_table)
      (record { appended = end vs; coded = refl; unused = tt; distinct = d })
  where
    end : (vs : List VoucherRow) → vs ≡ vs ++ []
    end [] = refl
    end (v ∷ vs) = ap (λ xs. v ∷ xs) (end vs)
create_from-IsBatch input stripe now i (code ∷ codes) vs rows vs' d e =
    let row = new_voucher input stripe now i code vs in
    elim (Bool-cases (is_refused input code vs)) [
      | inl bad ↦ cc (rw (create_from, bad) at e)
      | inr good ↦
          elim (Option-cases (create_from input stripe now (suc i) codes (vs ++ row ∷ []))) [
            | inl n ↦ cc (rw (create_from, good, n) at e)
            | inr ((rows', table), made) ↦
                let e' = rw (create_from, good, made) at e in
                let same_rows : row ∷ rows' ≡ rows = cc in
                let same_table : table ≡ vs' = cc in
                let b =
                  create_from-IsBatch input stripe now (suc i) codes (vs ++ row ∷ []) rows' table
                    (new_code-Distinct row vs (fresh_code input code vs good) d) made in
                rw (← same_rows, ← same_table)
                  (record {
                    appended = b.appended ∙ append_one vs row rows';
                    coded = ap (λ cs. code ∷ cs) b.coded;
                    unused = (refl, b.unused);
                    distinct = b.distinct;
                  })
          ]
    ]

-- A batch that is created adds one unused voucher per code, in the order of the codes, behind the
-- rows that were there, and codes that were all different before are all different afterwards.
pub create_batch-IsBatch :
    (input : CreateVouchersInput) (codes : List Text) (stripe : Option StripeIds) (now : ℕ)
    (vs rows vs' : List VoucherRow)
    → DistinctCodes vs
    → create_batch input codes stripe now vs ≡ some (rows, vs')
    → IsBatch codes vs rows vs'
unfolding create_batch
create_batch-IsBatch input codes stripe now vs rows vs' d e =
    create_from-IsBatch input stripe now 0 codes vs rows vs' d e
