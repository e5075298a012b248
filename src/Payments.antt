-- ===== src/Payments.antt =====
-- bridge/src/db/payments.ts: the repository over the tables `payments` and `spent_outpoints`, with
-- the constraints that bridge/src/db/migrations.ts puts on them. A table is the list of its rows in
-- the order of insertion, an SQL statement is a function of the tables, and a transaction is the
-- composition of its statements. The clock (`now()`, unix seconds) is an argument of each call.
pub mod Queue
pub mod Rows
pub mod Ledger
pub mod Reads
pub mod Events
mod Examples
use cumulusvpn.Common.{
  ℕ, zero, suc, ◌+◌, ◌-◌, ◌*◌, ◌^◌, ◌≡◌, min, max, String, Bool, true, false, ◌&&◌, ◌||◌, not,
  Option, none, some, List, [], ◌∷◌, ◌++◌, map, ltb, leb, ◌==◌, if◌then◌else◌, keep, any, find,
  sum_of, take, sort_by,
}
use mathlib.Core.Option
use cumulusvpn.Common.Decimal.{codes}
use text.Mathlib.Text.{◌==◌ as str_eq}

pub data Rail : Type 0 where
  stripe apple google voucher : Rail

pub data PaymentStatus : Type 0 where
  pending broadcast confirmed failed : PaymentStatus

-- `rail = ?` of a statement
abbrev pub rail_eq : Rail → Rail → Bool
rail_eq stripe stripe = true
rail_eq apple apple = true
rail_eq google google = true
rail_eq voucher voucher = true
rail_eq _ _ = false

abbrev pub status_eq : PaymentStatus → PaymentStatus → Bool
status_eq pending pending = true
status_eq broadcast broadcast = true
status_eq confirmed confirmed = true
status_eq failed failed = true
status_eq _ _ = false

-- The texts of `last_error` are lists of UTF-16 units, which `slice(0, 500)` counts.
pub record PaymentRow : Type 0 where
  pub id : ℕ
  pub rail : Rail
  pub event_key : String
  pub external_ref : String
  pub payment_code : String
  pub days : ℕ
  pub flux_zats : ℕ
  pub status : PaymentStatus
  pub txid : Option String
  pub raw_hex : Option String
  pub expiry_height : Option ℕ
  pub attempts : ℕ
  pub next_retry_at : ℕ
  pub last_error : Option (List ℕ)
  pub created_at : ℕ
  pub broadcast_at : Option ℕ
  pub confirmed_at : Option ℕ

pub record NewPayment : Type 0 where
  pub rail : Rail
  pub event_key : String
  pub external_ref : String
  pub payment_code : String
  pub days : ℕ
  pub flux_zats : ℕ

pub record Outpoint : Type 0 where
  pub txid : String
  pub vout : ℕ

pub record SpentRow : Type 0 where
  pub outpoint : Outpoint
  pub spent_by : String
  pub created_at : ℕ

-- The two tables.
pub record PaymentsDb : Type 0 where
  pub payments : List PaymentRow
  pub spent : List SpentRow

-- The key `${txid}:${vout}` of the program's sets: the decimal after the last colon is the index, so
-- two keys are one text exactly when both parts agree.
abbrev pub outpoint_eq : Outpoint → Outpoint → Bool
outpoint_eq a b = str_eq a.txid b.txid && a.vout == b.vout

-- SQLite gives a row without an id the id above the largest one.
unfoldable pub max_id : List PaymentRow → ℕ
max_id [] = 0
max_id (r ∷ rs) = max r.id (max_id rs)

-- `rail = ? AND event_key = ?`
abbrev pub same_event : Rail → String → PaymentRow → Bool
same_event rail key r = rail_eq rail r.rail && str_eq key r.event_key

abbrev new_row : NewPayment → ℕ → ℕ → PaymentRow
new_row p id now = record {
  id = id;
  rail = p.rail;
  event_key = p.event_key;
  external_ref = p.external_ref;
  payment_code = p.payment_code;
  days = p.days;
  flux_zats = p.flux_zats;
  status = pending;
  txid = none;
  raw_hex = none;
  expiry_height = none;
  attempts = 0;
  next_retry_at = 0;
  last_error = none;
  created_at = now;
  broadcast_at = none;
  confirmed_at = none;
}

-- `none`: a CHECK constraint of the table throws. Otherwise the id of the row, or null for a
-- duplicate, and the tables after the statement.
unfoldable pub insert_idempotent : NewPayment → ℕ → PaymentsDb → Option (Option ℕ × PaymentsDb)
insert_idempotent p now db =
    if ltb p.days 1 || ltb p.flux_zats 1
    then none
    else if any (same_event p.rail p.event_key) db.payments
    then some (none, db)
    else some (
      some (suc (max_id db.payments)),
      record db { payments = db.payments ++ new_row p (suc (max_id db.payments)) now ∷ [] },
    )

abbrev by_id : PaymentRow → PaymentRow → Bool
by_id a b = ltb a.id b.id

abbrev pub is_due : ℕ → PaymentRow → Bool
is_due now r = status_eq r.status pending && leb r.next_retry_at now

abbrev first {ℓ} : {A : Type ℓ} → List A → Option A
first [] = none
first (x ∷ _) = some x

unfoldable pub next_pending : ℕ → PaymentsDb → Option PaymentRow
next_pending now db = first (sort_by by_id (keep (is_due now) db.payments))

unfoldable pub all_broadcast : PaymentsDb → List PaymentRow
all_broadcast db = sort_by by_id (keep (λ r. status_eq r.status broadcast) db.payments)

-- `UPDATE payments SET … WHERE id = ?`
unfoldable pub update : ℕ → (PaymentRow → PaymentRow) → List PaymentRow → List PaymentRow
update id f [] = []
update id f (r ∷ rs) = (if r.id == id then f r else r) ∷ update id f rs

-- `INSERT OR IGNORE INTO spent_outpoints`, whose primary key is the outpoint
unfoldable pub hold : String → ℕ → Outpoint → List SpentRow → List SpentRow
hold txid now o spent =
    if any (λ s. outpoint_eq s.outpoint o) spent
    then spent
    else spent ++ record { outpoint = o; spent_by = txid; created_at = now } ∷ []

unfoldable pub hold_all : String → ℕ → List Outpoint → List SpentRow → List SpentRow
hold_all txid now [] spent = spent
hold_all txid now (o ∷ os) spent = hold_all txid now os (hold txid now o spent)

abbrev or_else {ℓ} : {A : Type ℓ} → Option A → A → A
or_else none d = d
or_else (some a) _ = a

unfoldable pub set_broadcast : String → String → ℕ → ℕ → Option ℕ → PaymentRow → PaymentRow
set_broadcast txid raw_hex expiry now zats r = record r {
  status = broadcast;
  txid = some txid;
  raw_hex = some raw_hex;
  expiry_height = some expiry;
  broadcast_at = some now;
  last_error = none;
  flux_zats = or_else zats r.flux_zats;
}

unfoldable pub mark_broadcast :
    ℕ → String → String → ℕ → List Outpoint → Option ℕ → ℕ → PaymentsDb → PaymentsDb
mark_broadcast id txid raw_hex expiry outpoints zats now db = record {
  payments = update id (set_broadcast txid raw_hex expiry now zats) db.payments;
  spent = hold_all txid now outpoints db.spent;
}

-- `DELETE FROM spent_outpoints WHERE spent_by = ?`
unfoldable pub release : String → List SpentRow → List SpentRow
release txid spent = keep (λ s. not (str_eq s.spent_by txid)) spent

abbrev pub row_of : ℕ → PaymentsDb → Option PaymentRow
row_of id db = find (λ r. r.id == id) db.payments

-- `if (row?.txid)`: null, undefined and the empty text are false
abbrev release_txid : Option String → List SpentRow → List SpentRow
release_txid none spent = spent
release_txid (some txid) spent = if str_eq txid "" then spent else release txid spent

unfoldable pub set_confirmed : ℕ → PaymentRow → PaymentRow
set_confirmed now r = record r { status = confirmed; raw_hex = none; confirmed_at = some now }

unfoldable pub mark_confirmed : ℕ → ℕ → PaymentsDb → PaymentsDb
mark_confirmed id now db = record {
  payments = update id (set_confirmed now) db.payments;
  spent = release_txid (Option.bind (row_of id db) (λ r. r.txid)) db.spent;
}

unfoldable pub set_expired : PaymentRow → PaymentRow
set_expired r = record r {
  status = pending;
  txid = none;
  raw_hex = none;
  expiry_height = none;
  broadcast_at = none;
  next_retry_at = 0;
  last_error = some (codes "tx expired unmined");
}

unfoldable pub reset_expired : ℕ → String → PaymentsDb → PaymentsDb
reset_expired id stale_txid db = record {
  payments = update id set_expired db.payments;
  spent = release stale_txid db.spent;
}

-- 1 min, doubled for each attempt, up to 6 h
unfoldable pub retry_delay : ℕ → ℕ
retry_delay attempts = min (60 * 2 ^ attempts) (6 * 3600)

unfoldable pub set_failure : ℕ → List ℕ → ℕ → PaymentRow → PaymentRow
set_failure attempts error now r = record r {
  attempts = attempts + 1;
  next_retry_at = now + retry_delay attempts;
  last_error = some (take 500 error);
}

unfoldable pub record_failure : ℕ → ℕ → List ℕ → ℕ → PaymentsDb → PaymentsDb
record_failure id attempts error now db = record db {
  payments = update id (set_failure attempts error now) db.payments;
}

-- `ORDER BY created_at DESC, id DESC`
abbrev newest_first : PaymentRow → PaymentRow → Bool
newest_first a b = ltb b.created_at a.created_at || (a.created_at == b.created_at && ltb b.id a.id)

unfoldable pub by_code : String → ℕ → PaymentsDb → List PaymentRow
by_code code limit db =
    take limit (sort_by newest_first (keep (λ r. str_eq r.payment_code code) db.payments))

unfoldable pub spent_outpoints : PaymentsDb → List Outpoint
spent_outpoints db = map (λ s. s.outpoint) db.spent
