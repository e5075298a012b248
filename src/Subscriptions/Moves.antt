-- ===== src/Subscriptions/Moves.antt =====
-- When a subscription of bridge/src/db/subscriptions.ts last moved, after each write.
use cumulusvpn.Common.{
  ℕ, ◌≡◌, ◌∙◌, ap, refl, inl, inr, String, Option, none, some, List, [], ◌∷◌, if◌then◌else◌,
  Bool-cases, Option-cases,
}
use cumulusvpn.Payments.{Rail}
use cumulusvpn.Transfers.{Plan}
use cumulusvpn.Subscriptions.{
  SubscriptionRow, SubscriptionsDb, SubscriptionStatus, TransferActor, keyed, insert_or, get,
  fresh_row, refresh, upsert, move, rebind, set_status, set_status_rows,
}
use cumulusvpn.Subscriptions.Bindings.{
  Differs, keyed-Differs, get-insert_or_ne, keyed_fresh, get-insert_or_self,
}

abbrev pub moved_at : Option SubscriptionRow → Option ℕ
moved_at none = none
moved_at (some r) = r.transferred_at

-- A write that keeps the key of a row and the moment of its last move.
abbrev KeepsMove : (SubscriptionRow → SubscriptionRow) → Type 0
KeepsMove f =
    (r : SubscriptionRow)
    → ((f r).rail ≡ r.rail)
      × ((f r).external_id ≡ r.external_id)
      × ((f r).transferred_at ≡ r.transferred_at)

keyed-same :
    (rail : Rail) (ext : String) (a b : SubscriptionRow)
    → a.rail ≡ b.rail
    → a.external_id ≡ b.external_id
    → keyed rail ext a ≡ keyed rail ext b
keyed-same rail ext a b p q = rw (p, q) refl

-- The lookup of a row that was changed in place, in front of the same rows.
moved_at-changed :
    (rail : Rail) (ext : String) (a b : SubscriptionRow) (rs : List SubscriptionRow)
    → keyed rail ext a ≡ keyed rail ext b
    → a.transferred_at ≡ b.transferred_at
    → moved_at (get rail ext (a ∷ rs)) ≡ moved_at (get rail ext (b ∷ rs))
unfolding get
moved_at-changed rail ext a b rs k m = elim (Bool-cases (keyed rail ext b)) [
  | inl here ↦ rw (k, here) m
  | inr there ↦ rw (k, there) refl
]

moved_at-cons :
    (rail : Rail) (ext : String) (r : SubscriptionRow) (rs rs' : List SubscriptionRow)
    → moved_at (get rail ext rs) ≡ moved_at (get rail ext rs')
    → moved_at (get rail ext (r ∷ rs)) ≡ moved_at (get rail ext (r ∷ rs'))
unfolding get
moved_at-cons rail ext r rs rs' h = elim (Bool-cases (keyed rail ext r)) [
  | inl here ↦ rw here refl
  | inr there ↦ rw there h
]

moved_at-fresh :
    (rail : Rail) (ext : String) (r : SubscriptionRow)
    → r.transferred_at ≡ none
    → moved_at (get rail ext (r ∷ [])) ≡ none
unfolding get
moved_at-fresh rail ext r n = elim (Bool-cases (keyed rail ext r)) [
  | inl here ↦ rw here n
  | inr there ↦ rw there refl
]

moved_at-insert_or :
    (rail rail' : Rail) (ext ext' : String) (fresh : SubscriptionRow)
    (f : SubscriptionRow → SubscriptionRow) (rs : List SubscriptionRow)
    → fresh.transferred_at ≡ none
    → KeepsMove f
    → moved_at (get rail' ext' (insert_or rail ext fresh f rs)) ≡ moved_at (get rail' ext' rs)
unfolding insert_or
moved_at-insert_or rail rail' ext ext' fresh f [] n k =
    moved_at-fresh rail' ext' fresh n ∙ unfold get in refl
moved_at-insert_or rail rail' ext ext' fresh f (r ∷ rs) n k =
    let (same_rail, same_ext, same_move) = k r in
    elim (Bool-cases (keyed rail ext r)) [
      | inl here ↦
          rw (insert_or, here)
            (moved_at-changed rail' ext' (f r) r rs
              (keyed-same rail' ext' (f r) r same_rail same_ext) same_move)
      | inr there ↦
          rw (insert_or, there)
            (moved_at-cons rail' ext' r (insert_or rail ext fresh f rs) rs
              (moved_at-insert_or rail rail' ext ext' fresh f rs n k))
    ]

-- An upsert leaves every subscription's last move as it was.
pub moved_at-upsert :
    (rail rail' : Rail) (ext ext' code : String) (plan : Plan) (customer : Option String) (now : ℕ)
    (db : SubscriptionsDb)
    → moved_at (get rail' ext' (upsert rail ext code plan customer now db).subscriptions)
      ≡ moved_at (get rail' ext' db.subscriptions)
unfolding upsert
moved_at-upsert rail rail' ext ext' code plan customer now db =
    moved_at-insert_or rail rail' ext ext' _ (refresh code plan now customer) db.subscriptions refl
      (λ r. (refl, refl, refl))

-- So does a change of status.
pub moved_at-set_status :
    (rail rail' : Rail) (ext ext' : String) (status : SubscriptionStatus) (now : ℕ)
    (db : SubscriptionsDb)
    → moved_at (get rail' ext' (set_status rail ext status now db).subscriptions)
      ≡ moved_at (get rail' ext' db.subscriptions)
unfolding set_status get set_status_rows
moved_at-set_status rail rail' ext ext' status now db = rows db.subscriptions
  where
    rows :
        (rs : List SubscriptionRow)
        → moved_at (get rail' ext' (set_status_rows rail ext status now rs))
          ≡ moved_at (get rail' ext' rs)
    rows [] = refl
    rows (r ∷ rs) = elim (Bool-cases (keyed rail ext r)) [
      | inl here ↦ rw here (
          moved_at-changed rail' ext' (record r { status = status; updated_at = now }) r
            (set_status_rows rail ext status now rs) refl refl
          ∙ moved_at-cons rail' ext' r (set_status_rows rail ext status now rs) rs (rows rs))
      | inr there ↦
          rw there
            (moved_at-cons rail' ext' r (set_status_rows rail ext status now rs) rs (rows rs))
    ]

-- A move is recorded on the subscription that moves.
pub moved_at-rebind :
    (rail : Rail) (ext code : String) (plan : Plan) (actor : TransferActor) (days now : ℕ)
    (db : SubscriptionsDb)
    → moved_at (get rail ext (rebind rail ext code plan actor days now db).0.subscriptions)
      ≡ some now
unfolding rebind
moved_at-rebind rail ext code plan actor days now db =
    let found =
      get-insert_or_self rail ext (fresh_row rail ext code plan now none (some now))
        (move code plan now) db.subscriptions (keyed_fresh rail ext code plan now none (some now))
        (λ x. (refl, refl)) in
    elim (Option-cases (get rail ext db.subscriptions)) [
      | inl n ↦ rw (found, n) refl
      | inr (r, s) ↦ rw (found, s) refl
    ]

-- And on no other one.
pub get-rebind_ne :
    (rail rail' : Rail) (ext ext' code : String) (plan : Plan) (actor : TransferActor)
    (days now : ℕ) (db : SubscriptionsDb)
    → Differs rail ext rail' ext'
    → get rail' ext' (rebind rail ext code plan actor days now db).0.subscriptions
      ≡ get rail' ext' db.subscriptions
unfolding rebind
get-rebind_ne rail rail' ext ext' code plan actor days now db d =
    let fresh = fresh_row rail ext code plan now none (some now) in
    get-insert_or_ne rail rail' ext ext' fresh (move code plan now) db.subscriptions
      (keyed-Differs rail rail' ext ext' fresh d
        (keyed_fresh rail ext code plan now none (some now)))
      (λ r. keyed-Differs rail rail' ext ext' r d) (λ r. (refl, refl))

-- A row after a change of status.
abbrev pub with_status : Rail → String → SubscriptionStatus → ℕ → SubscriptionRow → SubscriptionRow
with_status rail ext status now r =
    if keyed rail ext r then record r { status = status; updated_at = now } else r

keyed-with_status :
    (rail rail' : Rail) (ext ext' : String) (status : SubscriptionStatus) (now : ℕ)
    (r : SubscriptionRow)
    → keyed rail' ext' (with_status rail ext status now r) ≡ keyed rail' ext' r
keyed-with_status rail rail' ext ext' status now r = elim (Bool-cases (keyed rail ext r)) [
  | inl here ↦ rw here refl
  | inr there ↦ rw there refl
]

-- A change of status is a change of the row that a lookup finds.
pub get-set_status :
    (rail rail' : Rail) (ext ext' : String) (status : SubscriptionStatus) (now : ℕ)
    (rs : List SubscriptionRow) (r : SubscriptionRow)
    → get rail' ext' rs ≡ some r
    → get rail' ext' (set_status_rows rail ext status now rs)
      ≡ some (with_status rail ext status now r)
unfolding get set_status_rows
get-set_status rail rail' ext ext' status now [] r h = cc
get-set_status rail rail' ext ext' status now (x ∷ rs) r h =
    elim (Bool-cases (keyed rail' ext' x)) [
      | inl found ↦
          let h' = rw (get, found) at h in
          let same : x ≡ r = cc in
          rw (keyed-with_status rail rail' ext ext' status now x, found)
            (ap (λ y. some (with_status rail ext status now y)) same)
      | inr further ↦
          rw (keyed-with_status rail rail' ext ext' status now x, further)
            (get-set_status rail rail' ext ext' status now rs r (rw (get, further) at h))
    ]
