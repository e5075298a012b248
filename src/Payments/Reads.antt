-- ===== src/Payments/Reads.antt =====
-- What the reads of bridge/src/db/payments.ts return (`nextPending`, `allBroadcast`), and what an
-- insert leaves alone.
use cumulusvpn.Common.{
  ℕ, suc, ◌≤◌, ◌≡◌, refl, inl, inr, true, ◌||◌, Option, some, List, [], ◌∷◌, ◌++◌, ltb, All, any,
  Bool-cases, arith,
}
use cumulusvpn.Common.ListLaws.{keep-All, All-keep, All-sort_by}
use cumulusvpn.Payments.{
  PaymentRow, PaymentsDb, NewPayment, PaymentStatus, pending, broadcast, confirmed, failed,
  status_eq, same_event, insert_idempotent, next_pending, all_broadcast, by_id, is_due, first,
  new_row, max_id,
}
use cumulusvpn.Payments.Rows.{
  row_of, Distinct, Distinct-keep, Distinct-sort_by, Distinct-row_of, row_of-append,
  Distinct-append_fresh,
}

-- The snapshot of a row is the row of the table.
abbrev pub IsCurrent : PaymentStatus → PaymentsDb → PaymentRow → Type 0
IsCurrent st db r = (row_of r.id db.payments ≡ some r) × (r.status ≡ st)

status_eq→eq : (a b : PaymentStatus) → status_eq a b ≡ true → a ≡ b
status_eq→eq pending b h = ground arith
status_eq→eq broadcast b h = ground arith
status_eq→eq confirmed b h = ground arith
status_eq→eq failed b h = ground arith

IsCurrent-if :
    (st : PaymentStatus) (db : PaymentsDb) (rows : List PaymentRow)
    → All (λ r. row_of r.id db.payments ≡ some r) rows
    → All (λ r. status_eq r.status st ≡ true) rows
    → All (IsCurrent st db) rows
IsCurrent-if st db [] h k = tt
IsCurrent-if st db (r ∷ rows) h k =
    ((h.0, status_eq→eq r.status st k.0), IsCurrent-if st db rows h.1 k.1)

-- The rows that the confirmer reads are the table's, all broadcast, no two of one id.
pub all_broadcast-IsCurrent :
    (db : PaymentsDb)
    → Distinct db.payments
    → All (IsCurrent broadcast db) (all_broadcast db) × Distinct (all_broadcast db)
unfolding all_broadcast
all_broadcast-IsCurrent db d = (
  All-sort_by (IsCurrent broadcast db) by_id _ (
      IsCurrent-if broadcast db _
        (All-keep (λ r. row_of r.id db.payments ≡ some r) _ db.payments
          (Distinct-row_of db.payments d))
        (keep-All _ db.payments)),
  Distinct-sort_by by_id _ (Distinct-keep _ db.payments d),
)

first-All {κ} :
    (P : PaymentRow → Type κ) (rows : List PaymentRow) (r : PaymentRow)
    → All P rows
    → first rows ≡ some r
    → P r
first-All P [] r h e = cc
first-All P (x ∷ rows) r h e = let same : x ≡ r = cc in mathlib.Core.Path.subst P same h.0

due_parts :
    (now : ℕ) (r : PaymentRow)
    → is_due now r ≡ true
    → (r.status ≡ pending) × (r.next_retry_at ≤ now)
due_parts now r h = ground (arith, status_eq→eq r.status pending)

-- The row that the broadcaster reads is the table's, pending, and its retry time has come.
pub next_pending-IsCurrent :
    (now : ℕ) (db : PaymentsDb) (r : PaymentRow)
    → Distinct db.payments
    → next_pending now db ≡ some r
    → IsCurrent pending db r × (r.next_retry_at ≤ now)
unfolding next_pending
next_pending-IsCurrent now db r d e =
    let found =
      first-All (λ x. row_of x.id db.payments ≡ some x) _ r
        (All-sort_by (λ x. row_of x.id db.payments ≡ some x) by_id _
          (All-keep (λ x. row_of x.id db.payments ≡ some x) (is_due now) db.payments
            (Distinct-row_of db.payments d)))
        e in
    let (is, due) = due_parts now r (
      first-All (λ x. is_due now x ≡ true) _ r
        (All-sort_by (λ x. is_due now x ≡ true) by_id _ (keep-All (is_due now) db.payments)) e) in
    ((found, is), due)

-- An insert keeps the ids apart and every row that there was.
pub record Grows (db db' : PaymentsDb) : Type 0 where
  pub apart : Distinct db'.payments
  pub kept :
      (j : ℕ) (r : PaymentRow) → row_of j db.payments ≡ some r → row_of j db'.payments ≡ some r

append-Grows :
    (p : NewPayment) (now : ℕ) (db db' : PaymentsDb)
    → Distinct db.payments
    → db'.payments ≡ db.payments ++ new_row p (suc (max_id db.payments)) now ∷ []
    → Grows db db'
append-Grows p now db db' d e = record {
  apart = rw e (Distinct-append_fresh _ db.payments refl d);
  kept = λ j r h. rw e (row_of-append j r db.payments _ h);
}

pub insert-Grows :
    (p : NewPayment) (now : ℕ) (db : PaymentsDb) (id : Option ℕ) (db' : PaymentsDb)
    → Distinct db.payments
    → insert_idempotent p now db ≡ some (id, db')
    → Grows db db'
unfolding insert_idempotent
insert-Grows p now db id db' d e = elim (Bool-cases (ltb p.days 1 || ltb p.flux_zats 1)) [
  | inl bad ↦ ground arith
  | inr good ↦ elim (Bool-cases (any (same_event p.rail p.event_key) db.payments)) [
    | inl known ↦
        let same : db ≡ db' = ground arith in rw (← same) (record { apart = d; kept = λ j r h. h })
    | inr fresh ↦ append-Grows p now db db' d (ground arith)
  ]
]
