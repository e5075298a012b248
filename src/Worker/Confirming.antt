-- ===== src/Worker/Confirming.antt =====
-- One visit of the confirmer (bridge/src/worker/confirmer.ts): what it may do to a broadcast row, and
-- on which answer of the chain.
use cumulusvpn.Common.{
  ℕ, ◌+◌, ◌≤◌, ◌<◌, ◌≡◌, refl, ◌⊎◌, inl, inr, String, true, Option, none, some, leb, ltb→lt, leb→le,
  Bool-cases,
}
use text.Mathlib.Text.{◌==◌ as str_eq}
use cumulusvpn.Payments.{
  PaymentRow, PaymentsDb, mark_confirmed, set_confirmed, reset_expired, set_expired,
}
use cumulusvpn.Payments.Rows.{row_of, row_of-update_self}
use cumulusvpn.Worker.{
  Lookup, errored, not_found, found, expiry_slack, confirm, reset, is_expired, push_again, judge,
  act, visit,
}

expired_parts :
    (tip : ℕ) (o : Option ℕ)
    → is_expired tip o ≡ true
    → (h : ℕ) × (o ≡ some h) × (h + expiry_slack < tip)
expired_parts tip none e = cc
expired_parts tip (some h) e = (h, refl, ltb→lt (h + expiry_slack) tip e)

act-confirm :
    (now : ℕ) (row : PaymentRow) (txid : String) (db : PaymentsDb)
    → row_of row.id db.payments ≡ some row
    → row_of row.id (act row txid confirm now db).payments ≡ some (set_confirmed now row)
unfolding act mark_confirmed
act-confirm now row txid db h =
    row_of-update_self row.id (set_confirmed now) row db.payments
      (λ r. unfold set_confirmed in refl) h

act-reset :
    (now : ℕ) (row : PaymentRow) (txid : String) (db : PaymentsDb)
    → row_of row.id db.payments ≡ some row
    → row_of row.id (act row txid reset now db).payments ≡ some (set_expired row)
unfolding act reset_expired
act-reset now row txid db h =
    row_of-update_self row.id set_expired row db.payments (λ r. unfold set_expired in refl) h

act-push_again :
    (now : ℕ) (row : PaymentRow) (txid : String) (hex : Option String) (db : PaymentsDb)
    → act row txid (push_again hex) now db ≡ db
unfolding act
act-push_again now row txid none db = refl
act-push_again now row txid (some hex) db = elim (Bool-cases (str_eq hex "")) [
  | inl e ↦ rw e
  | inr e ↦ rw e
]

-- A row is as it was; or it is confirmed, and the chain reported a confirmation; or it is requeued,
-- and the chain positively does not know the transaction, more than 20 blocks past its expiry.
abbrev pub Outcome : ℕ → ℕ → PaymentRow → Lookup → PaymentsDb → Type 0
Outcome tip now row l db =
    (row_of row.id db.payments ≡ some row)
    ⊎ ((row_of row.id db.payments ≡ some (set_confirmed now row))
        × (n : ℕ) × (l ≡ found n)
        × (1 ≤ n))
    ⊎ ((row_of row.id db.payments ≡ some (set_expired row))
        × (l ≡ not_found)
        × (h : ℕ) × (row.expiry_height ≡ some h)
        × (h + expiry_slack < tip))

act-Outcome :
    (tip now : ℕ) (row : PaymentRow) (txid : String) (l : Lookup) (db : PaymentsDb)
    → row_of row.id db.payments ≡ some row
    → Outcome tip now row l (act row txid (judge tip row l) now db)
unfolding judge
act-Outcome tip now row txid errored db h = inl (unfold act in h)
act-Outcome tip now row txid (found n) db h = elim (Bool-cases (leb 1 n)) [
  | inl mined ↦ rw mined (inr (inl (act-confirm now row txid db h, n, refl, leb→le 1 n mined)))
  | inr seen ↦ rw seen (inl (unfold act in h))
]
act-Outcome tip now row txid not_found db h = elim (Bool-cases (is_expired tip row.expiry_height)) [
  | inl dead ↦
      let (e, same, past) = expired_parts tip row.expiry_height dead in
      rw dead (inr (inr (act-reset now row txid db h, refl, e, same, past)))
  | inr alive ↦ rw alive (inl (rw act-push_again h))
]

-- The confirmer's visit of a row with a transaction id changes it only by these rules: an errored
-- lookup, and a transaction that is only in the mempool, never change it.
pub visit-Outcome :
    (tip now : ℕ) (lookup : String → Lookup) (row : PaymentRow) (txid : String) (db : PaymentsDb)
    → row_of row.id db.payments ≡ some row
    → Outcome tip now row (lookup txid) (visit tip lookup now row (some txid) db).0
unfolding visit
visit-Outcome tip now lookup row txid db h = elim (Bool-cases (str_eq txid "")) [
  | inl e ↦ rw e (inl h)
  | inr e ↦ rw e (act-Outcome tip now row txid (lookup txid) db h)
]
