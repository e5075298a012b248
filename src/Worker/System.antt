-- ===== src/Worker/System.antt =====
-- The bridge's two workers, interleaved with each other and with deliveries: the broadcaster holds a
-- row across its chain reads (bridge/src/worker/broadcaster.ts), the confirmer walks the rows that
-- it read when its tick began (bridge/src/worker/confirmer.ts).
use cumulusvpn.Common.{
  ℕ, ◌≡◌, ◌≢◌, refl, ◌∙◌, inl, inr, String, Option, none, some, List, [], ◌∷◌, All, Bool-cases,
}
use text.Mathlib.Text.{◌==◌ as str_eq}
use cumulusvpn.Payments.{
  PaymentRow, PaymentsDb, NewPayment, PaymentStatus, pending, broadcast, confirmed,
  insert_idempotent, next_pending, all_broadcast, update, mark_broadcast, set_broadcast,
  mark_confirmed, set_confirmed, reset_expired, set_expired, record_failure, set_failure,
}
use cumulusvpn.Payments.Rows.{row_of, Distinct, KeepsId, Distinct-update, row_of-update_ne}
use cumulusvpn.Payments.Reads.{
  IsCurrent, all_broadcast-IsCurrent, next_pending-IsCurrent, Grows, insert-Grows,
}
use cumulusvpn.Worker.{
  BroadcasterDeps, ChainReads, Attempt, built, refused, attempt, settle, Lookup, Verdict, skip,
  confirm, reset, rebroadcast, judge, act, visit, message,
}

pub record System : Type 0 where
  pub db : PaymentsDb
  -- the row that the broadcaster read before its chain reads
  pub in_hand : Option PaymentRow
  -- the rows that the confirmer has still to visit
  pub walk : List PaymentRow

pub data Step (d : BroadcasterDeps) : System → System → Type 0 where
  -- a rail delivers a payment event
  deliver :
      (s : System) (p : NewPayment) (now : ℕ) (id : Option ℕ) (db : PaymentsDb)
      → insert_idempotent p now s.db ≡ some (id, db)
      → Step d s (record s { db = db })
  -- the broadcaster reads the queue
  take_pending : (s : System) (now : ℕ) → Step d s (record s { in_hand = next_pending now s.db })
  -- its reads are answered, and it commits
  commit :
      (s : System) (row : PaymentRow) (answers : ChainReads) (now : ℕ)
      → s.in_hand ≡ some row
      → Step d s
          (record s { db = (settle d row (attempt d row answers s.db) now s.db).0; in_hand = none })
  -- the confirmer reads the broadcast rows
  begin_walk : (s : System) → s.walk ≡ [] → Step d s (record s { walk = all_broadcast s.db })
  -- it looks one of them up, and acts
  visit_row :
      (s : System) (tip : ℕ) (lookup : String → Lookup) (now : ℕ) (row : PaymentRow)
      (rest : List PaymentRow)
      → s.walk ≡ row ∷ rest
      → Step d s (record s { db = (visit tip lookup now row row.txid s.db).0; walk = rest })

abbrev pub HandOk : PaymentsDb → Option PaymentRow → Type 0
HandOk db none = Unit
HandOk db (some r) = IsCurrent pending db r

pub record Inv (s : System) : Type 0 where
  pub distinct : Distinct s.db.payments
  pub hand : HandOk s.db s.in_hand
  pub walking : All (IsCurrent broadcast s.db) s.walk
  pub walk_distinct : Distinct s.walk

-- A write changes the row of one id at most, and keeps all the ids apart.
pub record Touches (id : ℕ) (db db' : PaymentsDb) : Type 0 where
  pub apart : Distinct db'.payments
  pub others : (j : ℕ) → j ≢ id → row_of j db'.payments ≡ row_of j db.payments

update-Touches :
    (id : ℕ) (f : PaymentRow → PaymentRow) (db db' : PaymentsDb)
    → KeepsId f
    → Distinct db.payments
    → db'.payments ≡ update id f db.payments
    → Touches id db db'
update-Touches id f db db' k d e = record {
  apart = rw e (Distinct-update id f db.payments k d);
  others = λ j ne. rw e (row_of-update_ne j id f db.payments k ne);
}

settle-Touches :
    (d : BroadcasterDeps) (row : PaymentRow) (a : Attempt) (now : ℕ) (db : PaymentsDb)
    → Distinct db.payments
    → Touches row.id db (settle d row a now db).0
unfolding settle mark_broadcast record_failure
settle-Touches d row (built tx amount) now db h =
    update-Touches row.id
      (set_broadcast (d.builder.txid tx) (d.builder.hex tx) tx.expiry_height now (some amount)) db _
      (λ r. unfold set_broadcast in refl) h refl
settle-Touches d row (refused why) now db h =
    update-Touches row.id (set_failure row.attempts (message why) now) db _
      (λ r. unfold set_failure in refl) h refl

act-Touches :
    (row : PaymentRow) (txid : String) (v : Verdict) (now : ℕ) (db : PaymentsDb)
    → Distinct db.payments
    → Touches row.id db (act row txid v now db)
unfolding act mark_confirmed reset_expired
act-Touches row txid skip now db h = record { apart = h; others = λ j ne. refl }
act-Touches row txid (rebroadcast hex) now db h = record { apart = h; others = λ j ne. refl }
act-Touches row txid confirm now db h =
    update-Touches row.id (set_confirmed now) db _ (λ r. unfold set_confirmed in refl) h refl
act-Touches row txid reset now db h =
    update-Touches row.id set_expired db _ (λ r. unfold set_expired in refl) h refl

visit-Touches :
    (tip : ℕ) (lookup : String → Lookup) (now : ℕ) (row : PaymentRow) (t : Option String)
    (db : PaymentsDb)
    → Distinct db.payments
    → Touches row.id db (visit tip lookup now row t db).0
unfolding visit
visit-Touches tip lookup now row none db h = record { apart = h; others = λ j ne. refl }
visit-Touches tip lookup now row (some txid) db h = elim (Bool-cases (str_eq txid "")) [
  | inl e ↦ rw e (record { apart = h; others = λ j ne. refl })
  | inr e ↦ rw e (act-Touches row txid (judge tip row (lookup txid)) now db h)
]

-- A snapshot with another status is another row, so the write does not reach it.
Touches-IsCurrent :
    (st st' : PaymentStatus) (row r : PaymentRow) (db db' : PaymentsDb)
    → Touches row.id db db'
    → IsCurrent st db row
    → IsCurrent st' db r
    → st ≢ st'
    → IsCurrent st' db' r
Touches-IsCurrent st st' row r db db' t (found, is) (found', is') ne =
    (t.others r.id differ ∙ found', is')
  where
    differ : r.id ≢ row.id
    differ same = ne (cc (found, found', is, is', same))

Touches-All :
    (st st' : PaymentStatus) (row : PaymentRow) (rows : List PaymentRow) (db db' : PaymentsDb)
    → Touches row.id db db'
    → IsCurrent st db row
    → All (IsCurrent st' db) rows
    → st ≢ st'
    → All (IsCurrent st' db') rows
Touches-All st st' row [] db db' t c h ne = tt
Touches-All st st' row (r ∷ rows) db db' t c h ne = (
  Touches-IsCurrent st st' row r db db' t c h.0 ne,
  Touches-All st st' row rows db db' t c h.1 ne,
)

-- Rows with other ids than the one written stay current.
Touches-apart :
    (st : PaymentStatus) (row : PaymentRow) (rows : List PaymentRow) (db db' : PaymentsDb)
    → Touches row.id db db'
    → All (λ x. x.id ≢ row.id) rows
    → All (IsCurrent st db) rows
    → All (IsCurrent st db') rows
Touches-apart st row [] db db' t ne h = tt
Touches-apart st row (r ∷ rows) db db' t ne h =
    ((t.others r.id ne.0 ∙ h.0.0, h.0.1), Touches-apart st row rows db db' t ne.1 h.1)

Touches-HandOk :
    (row : PaymentRow) (hand : Option PaymentRow) (db db' : PaymentsDb)
    → Touches row.id db db'
    → IsCurrent broadcast db row
    → HandOk db hand
    → HandOk db' hand
Touches-HandOk row none db db' t c h = tt
Touches-HandOk row (some r) db db' t c h =
    Touches-IsCurrent broadcast pending row r db db' t c h (λ e. cc)

Grows-HandOk :
    (hand : Option PaymentRow) (db db' : PaymentsDb)
    → Grows db db'
    → HandOk db hand
    → HandOk db' hand
Grows-HandOk none db db' g h = tt
Grows-HandOk (some r) db db' g h = (g.kept r.id r h.0, h.1)

Grows-All :
    (st : PaymentStatus) (rows : List PaymentRow) (db db' : PaymentsDb)
    → Grows db db'
    → All (IsCurrent st db) rows
    → All (IsCurrent st db') rows
Grows-All st [] db db' g h = tt
Grows-All st (r ∷ rows) db db' g h = ((g.kept r.id r h.0.0, h.0.1), Grows-All st rows db db' g h.1)

next-HandOk :
    (now : ℕ) (db : PaymentsDb) (o : Option PaymentRow)
    → Distinct db.payments
    → next_pending now db ≡ o
    → HandOk db o
next-HandOk now db none d e = tt
next-HandOk now db (some r) d e = (next_pending-IsCurrent now db r d e).0

-- Every step of the two workers and of the rails keeps the invariant: distinct ids, the broadcaster's
-- row is still pending, and the rows that the confirmer has to visit are still broadcast.
pub Step-Inv : (d : BroadcasterDeps) {s t : System} → Step d s t → Inv s → Inv t
Step-Inv d (deliver s p now id db e) v =
    let g = insert-Grows p now s.db id db v.distinct e in
    record {
      distinct = g.apart;
      hand = Grows-HandOk s.in_hand s.db db g v.hand;
      walking = Grows-All broadcast s.walk s.db db g v.walking;
      walk_distinct = v.walk_distinct;
    }
Step-Inv d (take_pending s now) v = record {
  distinct = v.distinct;
  hand = next-HandOk now s.db _ v.distinct refl;
  walking = v.walking;
  walk_distinct = v.walk_distinct;
}
Step-Inv d (commit s row answers now e) v =
    let t = settle-Touches d row (attempt d row answers s.db) now s.db v.distinct in
    let held : HandOk s.db (some row) = rw e at v.hand in
    record {
      distinct = t.apart;
      hand = tt;
      walking = Touches-All pending broadcast row s.walk s.db _ t held v.walking (λ q. cc);
      walk_distinct = v.walk_distinct;
    }
Step-Inv d (begin_walk s e) v =
    let (walking, apart) = all_broadcast-IsCurrent s.db v.distinct in
    record { distinct = v.distinct; hand = v.hand; walking = walking; walk_distinct = apart }
Step-Inv d (visit_row s tip lookup now row rest e) v =
    let t = visit-Touches tip lookup now row row.txid s.db v.distinct in
    let walking : All (IsCurrent broadcast s.db) (row ∷ rest) = rw e at v.walking in
    let apart : Distinct (row ∷ rest) = rw e at v.walk_distinct in
    record {
      distinct = t.apart;
      hand = Touches-HandOk row s.in_hand s.db _ t walking.0 v.hand;
      walking = Touches-apart broadcast row rest s.db _ t apart.0 walking.1;
      walk_distinct = apart.1;
    }

pub data Reach (d : BroadcasterDeps) (s : System) : System → Type 0 where
  here : Reach d s s
  next : {t u : System} → Reach d s t → Step d t u → Reach d s u

pub Reach-Inv : (d : BroadcasterDeps) {s t : System} → Inv s → Reach d s t → Inv t
Reach-Inv d v here = v
Reach-Inv d v (next r st) = Step-Inv d st (Reach-Inv d v r)

-- A confirmed row is another row than one that is written.
settled_ne :
    (st : PaymentStatus) (row r : PaymentRow) (db : PaymentsDb)
    → IsCurrent st db row
    → st ≢ confirmed
    → row_of r.id db.payments ≡ some r
    → r.status ≡ confirmed
    → r.id ≢ row.id
settled_ne st row r db (found, is) ne h is' same = ne (cc (found, is, h, is', same))

Step-confirmed :
    (d : BroadcasterDeps) {s t : System}
    → Step d s t
    → Inv s
    → (r : PaymentRow) → IsCurrent confirmed s.db r
    → IsCurrent confirmed t.db r
Step-confirmed d (deliver s p now id db e) v r h =
    ((insert-Grows p now s.db id db v.distinct e).kept r.id r h.0, h.1)
Step-confirmed d (take_pending s now) v r h = h
Step-confirmed d (commit s row answers now e) v r h =
    let t = settle-Touches d row (attempt d row answers s.db) now s.db v.distinct in
    let held : HandOk s.db (some row) = rw e at v.hand in
    (t.others r.id (settled_ne pending row r s.db held (λ q. cc) h.0 h.1) ∙ h.0, h.1)
Step-confirmed d (begin_walk s e) v r h = h
Step-confirmed d (visit_row s tip lookup now row rest e) v r h =
    let t = visit-Touches tip lookup now row row.txid s.db v.distinct in
    let walking : All (IsCurrent broadcast s.db) (row ∷ rest) = rw e at v.walking in
    (t.others r.id (settled_ne broadcast row r s.db walking.0 (λ q. cc) h.0 h.1) ∙ h.0, h.1)

-- From a state of the invariant, under any interleaving of deliveries, of the broadcaster and of the
-- confirmer, a confirmed payment stays as it is for good: it is never rebuilt, reset or retried.
pub Reach-confirmed :
    (d : BroadcasterDeps) {s t : System} (r : PaymentRow)
    → Inv s
    → Reach d s t
    → IsCurrent confirmed s.db r
    → IsCurrent confirmed t.db r
Reach-confirmed d r v here h = h
Reach-confirmed d r v (next steps st) h =
    Step-confirmed d st (Reach-Inv d v steps) r (Reach-confirmed d r v steps h)
