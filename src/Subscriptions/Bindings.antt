-- ===== src/Subscriptions/Bindings.antt =====
-- What a lookup finds after each write of bridge/src/db/subscriptions.ts.
use cumulusvpn.Common.{
  ℕ, suc, ◌+◌, ◌≤◌, ◌≡◌, ◌≢◌, ◌∙◌, ap, refl, ◌⊎◌, inl, inr, String, Bool, true, false, ◌&&◌, Option,
  none, some, List, [], ◌∷◌, ◌++◌, leb, if◌then◌else◌, Option-cases, Bool-cases, arith,
}
use text.Mathlib.Text.{◌==◌ as str_eq}
use text.Mathlib.TextEquality.{eq_iff}
use cumulusvpn.Payments.{Rail, stripe, apple, google, voucher, rail_eq}
use cumulusvpn.Transfers.{Plan}
use cumulusvpn.Subscriptions.{
  TransferActor, SubscriptionRow, SubscriptionsDb, keyed, insert_or, get, fresh_row, refresh,
  upsert, move, rebind, note_row, not_later, note_expiry_rows, note_apple_expiry, put_token,
  find_token, map_apple_token, code_for_apple_token,
}

-- A write that keeps the key of the rows it changes.
abbrev pub KeepsKey : (SubscriptionRow → SubscriptionRow) → Type 0
KeepsKey f = (r : SubscriptionRow) → ((f r).rail ≡ r.rail) × ((f r).external_id ≡ r.external_id)

abbrev pub inserted_or :
    SubscriptionRow → (SubscriptionRow → SubscriptionRow) → Option SubscriptionRow → SubscriptionRow
inserted_or fresh f none = fresh
inserted_or fresh f (some r) = f r

pub rail_eq_refl : (a : Rail) → rail_eq a a ≡ true
rail_eq_refl stripe = refl
rail_eq_refl _ = refl

pub rail_eq→eq : (a b : Rail) → rail_eq a b ≡ true → a ≡ b
rail_eq→eq stripe b h = ground arith
rail_eq→eq apple b h = ground arith
rail_eq→eq google b h = ground arith
rail_eq→eq voucher b h = ground arith

pub get-insert_or_self :
    (rail : Rail) (ext : String) (fresh : SubscriptionRow) (f : SubscriptionRow → SubscriptionRow)
    (rs : List SubscriptionRow)
    → keyed rail ext fresh ≡ true
    → KeepsKey f
    → get rail ext (insert_or rail ext fresh f rs) ≡ some (inserted_or fresh f (get rail ext rs))
unfolding get insert_or
get-insert_or_self rail ext fresh f [] k h = ground arith
get-insert_or_self rail ext fresh f (r ∷ rs) k h =
    ground (arith, h r, get-insert_or_self rail ext fresh f rs k h)

pub get-insert_or_ne :
    (rail rail' : Rail) (ext ext' : String) (fresh : SubscriptionRow)
    (f : SubscriptionRow → SubscriptionRow) (rs : List SubscriptionRow)
    → keyed rail' ext' fresh ≡ false
    → ((r : SubscriptionRow) → keyed rail ext r ≡ true → keyed rail' ext' r ≡ false)
    → KeepsKey f
    → get rail' ext' (insert_or rail ext fresh f rs) ≡ get rail' ext' rs
unfolding get insert_or
get-insert_or_ne rail rail' ext ext' fresh f [] k apart h = ground arith
get-insert_or_ne rail rail' ext ext' fresh f (r ∷ rs) k apart h =
    ground (arith, h r, apart r, get-insert_or_ne rail rail' ext ext' fresh f rs k apart h)

pub keyed_fresh :
    (rail : Rail) (ext code : String) (plan : Plan) (now : ℕ) (customer : Option String)
    (moved : Option ℕ)
    → keyed rail ext (fresh_row rail ext code plan now customer moved) ≡ true
keyed_fresh rail ext code plan now customer moved =
    ground (arith, rail_eq_refl rail, eq_iff ext ext)

-- After an upsert the key is bound to the code and the plan, active; a customer id that was known
-- stays unless a new one came.
pub get-upsert :
    (rail : Rail) (ext code : String) (plan : Plan) (customer : Option String) (now : ℕ)
    (db : SubscriptionsDb)
    → get rail ext (upsert rail ext code plan customer now db).subscriptions
      ≡ some (
          inserted_or
            (fresh_row rail ext code plan now customer none)
            (refresh code plan now customer)
            (get rail ext db.subscriptions))
unfolding upsert
get-upsert rail ext code plan customer now db =
    get-insert_or_self rail ext _ (refresh code plan now customer) db.subscriptions
      (keyed_fresh rail ext code plan now customer none) (λ r. (refl, refl))

abbrev pub Differs : Rail → String → Rail → String → Type 0
Differs rail ext rail' ext' = (rail ≢ rail') ⊎ (ext ≢ ext')

pub keyed-Differs :
    (rail rail' : Rail) (ext ext' : String) (r : SubscriptionRow)
    → Differs rail ext rail' ext'
    → keyed rail ext r ≡ true
    → keyed rail' ext' r ≡ false
keyed-Differs rail rail' ext ext' r d h = elim (Bool-cases (keyed rail' ext' r)) [
  | inr e ↦ e
  | inl e ↦
      let same : rail ≡ rail' = ground (arith, rail_eq→eq r.rail rail, rail_eq→eq r.rail rail') in
      let match : ext ≡ ext' =
        ground (arith, eq_iff r.external_id ext, eq_iff r.external_id ext') in
      ground arith
]

-- An upsert leaves every other subscription alone.
pub get-upsert_ne :
    (rail rail' : Rail) (ext ext' code : String) (plan : Plan) (customer : Option String) (now : ℕ)
    (db : SubscriptionsDb)
    → (rail ≢ rail') ⊎ (ext ≢ ext')
    → get rail' ext' (upsert rail ext code plan customer now db).subscriptions
      ≡ get rail' ext' db.subscriptions
unfolding upsert
get-upsert_ne rail rail' ext ext' code plan customer now db d =
    get-insert_or_ne rail rail' ext ext' (fresh_row rail ext code plan now customer none)
      (refresh code plan now customer) db.subscriptions
      (keyed-Differs rail rail' ext ext' (fresh_row rail ext code plan now customer none) d
        (keyed_fresh rail ext code plan now customer none))
      (λ r. keyed-Differs rail rail' ext ext' r d) (λ r. (refl, refl))

-- A move binds a known subscription to the new code and stamps the time, leaves its status and
-- customer alone, and reports the code that it was bound to.
pub get-rebind :
    (rail : Rail) (ext code : String) (plan : Plan) (actor : TransferActor) (days now : ℕ)
    (db : SubscriptionsDb) (r : SubscriptionRow)
    → get rail ext db.subscriptions ≡ some r
    → (get rail ext (rebind rail ext code plan actor days now db).0.subscriptions
        ≡ some (move code plan now r))
      × ((rebind rail ext code plan actor days now db).1 ≡ some r.payment_code)
      × ((move code plan now r).status ≡ r.status)
      × ((move code plan now r).stripe_customer_id ≡ r.stripe_customer_id)
unfolding rebind
get-rebind rail ext code plan actor days now db r h = (
  get-insert_or_self rail ext _ (move code plan now) db.subscriptions
        (keyed_fresh rail ext code plan now none (some now)) (λ x. (refl, refl))
      ∙ rw h,
  rw h,
  refl,
  refl,
)

get-keyed :
    (rail : Rail) (ext : String) (r : SubscriptionRow) (rs : List SubscriptionRow)
    → get rail ext rs ≡ some r
    → keyed rail ext r ≡ true
unfolding get
get-keyed rail ext r [] h = cc
get-keyed rail ext r (x ∷ rs) h = ground (arith, get-keyed rail ext r rs)

note-keyed :
    (ext : String) (ms : ℕ) (sandbox : Bool) (x : SubscriptionRow)
    → keyed apple ext x ≡ true
    → keyed apple ext (note_row ext ms sandbox x) ≡ true
note-keyed ext ms sandbox x h = elim (Bool-cases (not_later x.apple_expires_ms ms)) [
  | inl e ↦ rw (h, e) h
  | inr e ↦ rw (h, e) h
]

note_unkeyed :
    (ext : String) (ms : ℕ) (sandbox : Bool) (x : SubscriptionRow)
    → keyed apple ext x ≡ false
    → keyed apple ext (note_row ext ms sandbox x) ≡ false
note_unkeyed ext ms sandbox x h = rw h h

get-note_expiry_rows :
    (ext : String) (ms : ℕ) (sandbox : Bool) (rs : List SubscriptionRow) (r : SubscriptionRow)
    → get apple ext rs ≡ some r
    → get apple ext (note_expiry_rows ext ms sandbox rs) ≡ some (note_row ext ms sandbox r)
unfolding get note_expiry_rows
get-note_expiry_rows ext ms sandbox [] r h = cc
get-note_expiry_rows ext ms sandbox (x ∷ rs) r h = elim (Bool-cases (keyed apple ext x)) [
  | inl here ↦
      let same : x ≡ r = ground arith in
      let kept : keyed apple ext (note_row ext ms sandbox x) ≡ true =
        note-keyed ext ms sandbox x here in
      rw kept (ap (λ y. some (note_row ext ms sandbox y)) same)
  | inr later ↦
      let kept : keyed apple ext (note_row ext ms sandbox x) ≡ false =
        note_unkeyed ext ms sandbox x later in
      rw kept (get-note_expiry_rows ext ms sandbox rs r (rw later at h))
]

abbrev pub latest : Option ℕ → ℕ → Option ℕ
latest none ms = some ms
latest (some t) ms = some (cumulusvpn.Common.max t ms)

-- The end of an Apple period only moves forward: afterwards it is the later one of the known and the
-- reported end.
pub get-note_apple_expiry :
    (ext : String) (ms : ℕ) (sandbox : Bool) (db : SubscriptionsDb) (r : SubscriptionRow)
    → get apple ext db.subscriptions ≡ some r
    → (r' : SubscriptionRow) × (get apple ext (note_apple_expiry ext ms sandbox db).subscriptions
        ≡ some r')
      × (r'.apple_expires_ms ≡ latest r.apple_expires_ms ms)
      × (r'.payment_code ≡ r.payment_code)
unfolding note_apple_expiry
get-note_apple_expiry ext ms sandbox db r h =
    let mine = get-keyed apple ext r db.subscriptions h in
    (
      note_row ext ms sandbox r,
      get-note_expiry_rows ext ms sandbox db.subscriptions r h,
      ground arith,
      ground arith,
    )

-- An Apple account token leads to the code that was stored for it last, in whatever case it is
-- written, and other tokens lead where they led.
pub code_for_apple_token-map_apple_token :
    (lower : String → String) (token other code : String) (db : SubscriptionsDb)
    → code_for_apple_token lower other (map_apple_token lower token code db) ≡ (
        if str_eq (lower token) (lower other)
        then some code
        else code_for_apple_token lower other db)
unfolding code_for_apple_token map_apple_token
code_for_apple_token-map_apple_token lower token other code db =
    tokens (lower token) (lower other) db.apple_tokens
  where
    tokens :
        (k j : String) (m : List (String × String))
        → find_token j (put_token k code m) ≡ (if str_eq k j then some code else find_token j m)
    tokens k j [] = refl
    tokens k j ((i, w) ∷ m) = ground (arith, eq_iff k j, eq_iff i k, eq_iff i j, tokens k j m)
