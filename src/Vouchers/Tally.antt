-- ===== src/Vouchers/Tally.antt =====
-- The counter of a voucher (bridge/src/db/vouchers.ts) is the number of its redemption rows.
use cumulusvpn.Common.{
  ℕ, ◌+◌, ◌≡◌, ◌≢◌, ◌<◌, ◌⊎◌, Exists, ltb→lt, refl, sym, ◌∙◌, ap, inl, inr, String, Bool, true,
  false, Option, none, some, List, [], ◌∷◌, ◌++◌, ◌==◌, if◌then◌else◌, any, sum_of, All, Bool-cases,
  arith,
}
use text.Mathlib.TextEquality.{eq_iff}
use cumulusvpn.Common.ListLaws.{sum_of-append}
use cumulusvpn.Payments.{PaymentsDb, insert_idempotent}
use cumulusvpn.Vouchers.{
  VoucherRow, VoucherStatus, active, revoked, is_active, is_unexpired, campaign_redemptions,
  RedemptionRow, VoucherDb, redeemed, can_redeem, bump, same_use, over_limit, payment_of, enqueue,
  use_row, redeem_grant, record_discount_redemption,
}

-- The redemptions of one voucher.
unfoldable pub uses_of : ℕ → List RedemptionRow → ℕ
uses_of id rs = sum_of (λ r. if r.voucher_id == id then 1 else 0) rs

-- The ids of vouchers are a primary key.
abbrev pub Distinct : List VoucherRow → Type 0
Distinct [] = Unit
Distinct (v ∷ vs) = All (λ w. w.id ≢ v.id) vs × Distinct vs

abbrev pub IsTallied : List RedemptionRow → VoucherRow → Type 0
IsTallied rs v = v.redemption_count ≡ uses_of v.id rs

pub record IsConsistent (db : VoucherDb) : Type 0 where
  pub distinct : Distinct db.vouchers
  pub tallied : All (IsTallied db.redemptions) db.vouchers

uses_of-append :
    (id : ℕ) (rs : List RedemptionRow) (r : RedemptionRow)
    → uses_of id (rs ++ r ∷ []) ≡ uses_of id rs + (if r.voucher_id == id then 1 else 0)
unfolding uses_of
uses_of-append id rs r =
    sum_of-append (λ x. if x.voucher_id == id then 1 else 0) rs (r ∷ []) ∙ omega arith

All-bump_ids :
    (P : ℕ → Type 0) (p : VoucherRow → Bool) (vs : List VoucherRow)
    → All (λ v. P v.id) vs
    → All (λ v. P v.id) (bump p vs)
unfolding bump
All-bump_ids P p [] h = tt
All-bump_ids P p (v ∷ vs) h = ground (arith, All-bump_ids P p vs h.1)

bump-Distinct : (p : VoucherRow → Bool) (vs : List VoucherRow) → Distinct vs → Distinct (bump p vs)
unfolding bump
bump-Distinct p [] h = tt
bump-Distinct p (v ∷ vs) h = elim (Bool-cases (p v)) [
  | inl e ↦ rw e (All-bump_ids (λ n. n ≢ v.id) p vs h.0, bump-Distinct p vs h.1)
  | inr e ↦ rw e (All-bump_ids (λ n. n ≢ v.id) p vs h.0, bump-Distinct p vs h.1)
]

-- A test that holds of one voucher of the id at most, or of none with another id.
IsTallied-others :
    (p : VoucherRow → Bool) (id : ℕ) (rs : List RedemptionRow) (r : RedemptionRow)
    (vs : List VoucherRow)
    → ((v : VoucherRow) → p v ≡ true → v.id ≡ id)
    → r.voucher_id ≡ id
    → All (λ v. v.id ≢ id) vs
    → All (IsTallied rs) vs
    → All (IsTallied (rs ++ r ∷ [])) (bump p vs)
unfolding bump
IsTallied-others p id rs r [] only e ne h = tt
IsTallied-others p id rs r (v ∷ vs) only e ne h =
    ground (arith, only v, uses_of-append v.id rs r, IsTallied-others p id rs r vs only e ne.1 h.1)

pub found_later :
    (p : VoucherRow → Bool) (id n : ℕ) (vs : List VoucherRow)
    → ((v : VoucherRow) → p v ≡ true → v.id ≡ id)
    → any p vs ≡ true
    → All (λ v. v.id ≢ n) vs
    → n ≢ id
found_later p id n [] only h k = cc
found_later p id n (v ∷ vs) only h k = elim (Bool-cases (p v)) [
  | inl here ↦ λ e. k.0 (only v here ∙ sym e)
  | inr later ↦ found_later p id n vs only (rw later at h) k.1
]

IsTallied-bump :
    (p : VoucherRow → Bool) (id : ℕ) (rs : List RedemptionRow) (r : RedemptionRow)
    (vs : List VoucherRow)
    → ((v : VoucherRow) → p v ≡ true → v.id ≡ id)
    → r.voucher_id ≡ id
    → any p vs ≡ true
    → Distinct vs
    → All (IsTallied rs) vs
    → All (IsTallied (rs ++ r ∷ [])) (bump p vs)
unfolding bump
IsTallied-bump p id rs r [] only e some_p d h = cc
IsTallied-bump p id rs r (v ∷ vs) only e some_p d h = elim (Bool-cases (p v)) [
  | inl here ↦
      let same : v.id ≡ id = only v here in
      let rest : All (λ w. w.id ≢ id) vs = rw same at d.0 in
      rw here
        (rw uses_of-append (ground (arith, h.0)), IsTallied-others p id rs r vs only e rest h.1)
  | inr later ↦
      let after : any p vs ≡ true = rw later at some_p in
      let ne : v.id ≢ id = found_later p id v.id vs only after d.0 in
      rw later
        (rw uses_of-append (ground (arith, h.0)), IsTallied-bump p id rs r vs only e after d.1 h.1)
]

pub can_redeem-id : (id now : ℕ) (v : VoucherRow) → can_redeem id now v ≡ true → v.id ≡ id
unfolding can_redeem
can_redeem-id id now v h = ground arith

used-IsConsistent :
    (p : VoucherRow → Bool) (id : ℕ) (r : RedemptionRow) (db db' : VoucherDb)
    → ((v : VoucherRow) → p v ≡ true → v.id ≡ id)
    → r.voucher_id ≡ id
    → any p db.vouchers ≡ true
    → db'.vouchers ≡ bump p db.vouchers
    → db'.redemptions ≡ db.redemptions ++ r ∷ []
    → IsConsistent db
    → IsConsistent db'
used-IsConsistent p id r db db' only e found ev er c = record {
  distinct = rw ev (bump-Distinct p db.vouchers c.distinct);
  tallied =
      rw (ev, er)
        (IsTallied-bump p id db.redemptions r db.vouchers only e found c.distinct c.tallied);
}

abbrev pub IsUnexpired : Option ℕ → ℕ → Type 0
IsUnexpired none now = Unit
IsUnexpired (some t) now = now < t

-- A row that a redemption of the voucher `id` may count up.
pub record IsEligible (id now : ℕ) (v : VoucherRow) : Type 0 where
  pub same : v.id ≡ id
  pub is_active : v.status ≡ active
  pub left : v.redemption_count < v.max_redemptions
  pub unexpired : IsUnexpired v.expires_at now

is_unexpired-IsUnexpired : (o : Option ℕ) (now : ℕ) → is_unexpired o now ≡ true → IsUnexpired o now
is_unexpired-IsUnexpired none now h = tt
is_unexpired-IsUnexpired (some t) now h = ltb→lt now t h

active-eq : (st : VoucherStatus) → is_active st ≡ true → st ≡ active
active-eq active h = refl
active-eq revoked h = cc

can_redeem-IsEligible :
    (id now : ℕ) (v : VoucherRow) → can_redeem id now v ≡ true → IsEligible id now v
unfolding can_redeem
can_redeem-IsEligible id now v h = record {
  same = ground arith;
  is_active = active-eq v.status (ground arith);
  left = ground arith;
  unexpired = is_unexpired-IsUnexpired v.expires_at now (ground arith);
}

any-Exists :
    (p : VoucherRow → Bool) (P : VoucherRow → Type 0) (vs : List VoucherRow)
    → ((v : VoucherRow) → p v ≡ true → P v)
    → any p vs ≡ true
    → Exists P vs
any-Exists p P [] f h = cc
any-Exists p P (v ∷ vs) f h = elim (Bool-cases (p v)) [
  | inl here ↦ inl (f v here)
  | inr later ↦ inr (any-Exists p P vs f (rw later at h))
]

-- The limit of a campaign, where there is one, is not reached.
abbrev pub IsUnderLimit : VoucherRow → String → VoucherDb → Type 0
IsUnderLimit v code db =
    (v.campaign ≡ "")
    ⊎ (v.per_code_limit ≡ 0)
    ⊎ (campaign_redemptions v.campaign code db < v.per_code_limit)

over_limit-IsUnderLimit :
    (v : VoucherRow) (code : String) (db : VoucherDb)
    → over_limit v code db ≡ false
    → IsUnderLimit v code db
over_limit-IsUnderLimit v code db h = ground (arith, eq_iff v.campaign "")

module _ (reference : List ℕ → String) (price : ℕ) where
  -- What a successful redemption passed, and the tables that it leaves.
  pub record IsRedeemed (v : VoucherRow) (code : String) (now rid : ℕ) (db db' : VoucherDb)
      : Type 0 where
    pub eligible : Exists (IsEligible v.id now) db.vouchers
    pub under_limit : IsUnderLimit v code db
    pub guarded : any (can_redeem v.id now) db.vouchers ≡ true
    pub first_use : any (same_use v.id code) db.redemptions ≡ false
    pub within : over_limit v code db ≡ false
    pub counted : db'.vouchers ≡ bump (can_redeem v.id now) db.vouchers
    pub payment : Option ℕ
    pub row : RedemptionRow
    pub row_is :
        (row.id ≡ rid)
        × (row.voucher_id ≡ v.id)
        × (row.payment_code ≡ code)
        × (row.payment_id ≡ payment)
    pub recorded : db'.redemptions ≡ db.redemptions ++ row ∷ []
    pub queued :
        insert_idempotent (payment_of reference price v code) now db.queue
        ≡ some (payment, db'.queue)

  enqueue-redeemed :
      (v : VoucherRow) (code : String) (now rid : ℕ) (db db' : VoucherDb)
      (o : Option (Option ℕ × PaymentsDb))
      → enqueue reference price v code now db o ≡ redeemed rid db'
      → (payment : Option ℕ) × (queue : PaymentsDb) × (o ≡ some (payment, queue))
        × (db'.vouchers ≡ bump (can_redeem v.id now) db.vouchers)
        × (db'.redemptions ≡ db.redemptions ++ use_row v code payment now db ∷ [])
        × (db'.queue ≡ queue)
        × ((use_row v code payment now db).id ≡ rid)
  unfolding enqueue
  enqueue-redeemed v code now rid db db' none e = cc
  enqueue-redeemed v code now rid db db' (some (payment, queue)) e =
      (payment, queue, refl, ground arith, ground arith, ground arith, ground arith)

  -- A redemption succeeds only for a voucher that is active, unexpired and not used up, by a code
  -- that has not used it and is under the campaign's limit; then the counter goes up, one redemption
  -- row is added, and the payment is offered to the queue, all together.
  pub redeem_grant-IsRedeemed :
      (v : VoucherRow) (code : String) (now rid : ℕ) (db db' : VoucherDb)
      → redeem_grant reference price v code now db ≡ redeemed rid db'
      → IsRedeemed v code now rid db db'
  unfolding redeem_grant
  redeem_grant-IsRedeemed v code now rid db db' e = elim (Bool-cases (over_limit v code db)) [
    | inl over ↦ cc (rw over at e)
    | inr within ↦ elim (Bool-cases (any (can_redeem v.id now) db.vouchers)) [
      | inr none_left ↦ cc (rw (within, none_left) at e)
      | inl guarded ↦ elim (Bool-cases (any (same_use v.id code) db.redemptions)) [
        | inl used ↦ cc (rw (within, guarded, used) at e)
        | inr first_use ↦
            let (payment, queue, offered, ev, er, eq, ei) =
              enqueue-redeemed v code now rid db db' _ (rw (within, guarded, first_use) at e) in
            record {
              eligible = any-Exists _ _ db.vouchers (can_redeem-IsEligible v.id now) guarded;
              under_limit = over_limit-IsUnderLimit v code db within;
              guarded = guarded;
              first_use = first_use;
              within = within;
              counted = ev;
              payment = payment;
              row = use_row v code payment now db;
              row_is = (ei, refl, refl, refl);
              recorded = er;
              queued = offered ∙ ap (λ q. some (payment, q)) (sym eq);
            }
      ]
    ]
  ]

  -- A redemption keeps every counter equal to the number of the voucher's redemption rows.
  pub redeem_grant-IsConsistent :
      (v : VoucherRow) (code : String) (now rid : ℕ) (db db' : VoucherDb)
      → IsConsistent db
      → redeem_grant reference price v code now db ≡ redeemed rid db'
      → IsConsistent db'
  redeem_grant-IsConsistent v code now rid db db' c e =
      let r = redeem_grant-IsRedeemed v code now rid db db' e in
      used-IsConsistent (can_redeem v.id now) v.id r.row db db' (can_redeem-id v.id now) r.row_is.1
        r.guarded r.counted r.recorded c

-- So does the record of a discount, for a voucher that exists.
pub record_discount_redemption-IsConsistent :
    (id : ℕ) (code : String) (payment : Option ℕ) (now : ℕ) (db : VoucherDb)
    → any (λ v. v.id == id) db.vouchers ≡ true
    → IsConsistent db
    → IsConsistent (record_discount_redemption id code payment now db).1
unfolding record_discount_redemption
record_discount_redemption-IsConsistent id code payment now db found c =
    elim (Bool-cases (any (same_use id code) db.redemptions)) [
      | inl used ↦ rw used c
      | inr fresh ↦ rw fresh (
          used-IsConsistent (λ v. v.id == id) id _ db _ (λ v h. ground arith) refl found refl refl
            c)
    ]
