-- ===== src/Payments/Events.antt =====
-- The queue's promise, UNIQUE(rail, event_key) of bridge/src/db/payments.ts: over any history of the
-- repository's writes a payment event has at most one row, and a recorded event keeps it.
use cumulusvpn.Common.{
  ℕ, suc, ◌+◌, ◌≤◌, ◌≡◌, refl, inl, inr, String, Bool, true, false, Option, none, some, List, [],
  ◌∷◌, ◌++◌, if◌then◌else◌, any, sum_of, arith, Bool-cases, ◌||◌, ltb, ◌<◌,
}
use text.Mathlib.TextEquality.{eq_iff}
use cumulusvpn.Payments.{
  max_id, new_row, Rail, stripe, apple, google, voucher, rail_eq, PaymentRow, NewPayment,
  PaymentsDb, Outpoint, same_event, insert_idempotent, update, mark_broadcast, set_broadcast,
  mark_confirmed, set_confirmed, reset_expired, set_expired, record_failure, set_failure,
}

-- The rows that record one event.
abbrev one_if : Bool → ℕ
one_if b = if b then 1 else 0

unfoldable pub event_count : Rail → String → List PaymentRow → ℕ
event_count rail key rows = sum_of (λ r. one_if (same_event rail key r)) rows

-- The writes of the repository, each with its arguments and the clock.
pub data Write : Type 0 where
  insert : NewPayment → ℕ → Write
  broadcast_as : ℕ → String → String → ℕ → List Outpoint → Option ℕ → ℕ → Write
  confirm : ℕ → ℕ → Write
  expire : ℕ → String → Write
  fail : ℕ → ℕ → List ℕ → ℕ → Write

-- An insert that throws leaves the tables as they were.
abbrev after_insert : PaymentsDb → Option (Option ℕ × PaymentsDb) → PaymentsDb
after_insert db none = db
after_insert db (some (id, db')) = db'

unfoldable pub write : Write → PaymentsDb → PaymentsDb
write (insert p now) db = after_insert db (insert_idempotent p now db)
write (broadcast_as id txid hex expiry os zats now) db =
    mark_broadcast id txid hex expiry os zats now db
write (confirm id now) db = mark_confirmed id now db
write (expire id txid) db = reset_expired id txid db
write (fail id attempts error now) db = record_failure id attempts error now db

unfoldable pub write_all : List Write → PaymentsDb → PaymentsDb
write_all [] db = db
write_all (w ∷ ws) db = write_all ws (write w db)

-- A statement that touches neither column leaves every count alone.
abbrev KeepsEvent : (PaymentRow → PaymentRow) → Type 0
KeepsEvent f = (r : PaymentRow) → ((f r).rail ≡ r.rail) × ((f r).event_key ≡ r.event_key)

event_count-update :
    (rail : Rail) (key : String) (id : ℕ) (f : PaymentRow → PaymentRow) (rows : List PaymentRow)
    → KeepsEvent f
    → event_count rail key (update id f rows) ≡ event_count rail key rows
unfolding event_count update
event_count-update rail key id f [] h = refl
event_count-update rail key id f (r ∷ rows) h =
    ground (arith, h r, event_count-update rail key id f rows h)

event_count-append :
    (rail : Rail) (key : String) (rows more : List PaymentRow)
    → event_count rail key (rows ++ more) ≡ event_count rail key rows + event_count rail key more
unfolding event_count
event_count-append rail key [] more = omega arith
event_count-append rail key (r ∷ rows) more = omega (arith, event_count-append rail key rows more)

rail_eq→eq : (a b : Rail) → rail_eq a b ≡ true → a ≡ b
rail_eq→eq stripe b h = ground arith
rail_eq→eq apple b h = ground arith
rail_eq→eq google b h = ground arith
rail_eq→eq voucher b h = ground arith

rail_eq_refl : (a : Rail) → rail_eq a a ≡ true
rail_eq_refl stripe = refl
rail_eq_refl _ = refl

pub event_count_absent :
    (rail : Rail) (key : String) (rows : List PaymentRow)
    → any (same_event rail key) rows ≡ false
    → event_count rail key rows ≡ 0
unfolding event_count
event_count_absent rail key [] h = refl
event_count_absent rail key (r ∷ rows) h = ground (arith, event_count_absent rail key rows)

event_count_present :
    (rail : Rail) (key : String) (rows : List PaymentRow)
    → any (same_event rail key) rows ≡ true
    → 1 ≤ event_count rail key rows
unfolding event_count
event_count_present rail key [] h = ground arith
event_count_present rail key (r ∷ rows) h = ground (arith, event_count_present rail key rows)

abbrev pub IsOnce : PaymentsDb → Type 0
IsOnce db = (rail : Rail) (key : String) → event_count rail key db.payments ≤ 1

same_event→eq :
    (rail : Rail) (key : String) (r : PaymentRow)
    → same_event rail key r ≡ true
    → (rail ≡ r.rail) × (key ≡ r.event_key)
same_event→eq rail key r h = ground (arith, rail_eq→eq rail r.rail, eq_iff key r.event_key)

same_event_refl : (r : PaymentRow) → same_event r.rail r.event_key r ≡ true
same_event_refl r = ground (arith, rail_eq_refl r.rail, eq_iff r.event_key r.event_key)

event_count_one :
    (rail : Rail) (key : String) (r : PaymentRow)
    → event_count rail key (r ∷ []) ≡ one_if (same_event rail key r)
unfolding event_count
event_count_one rail key r = omega arith

-- A row of another event does not count, and a row of this one is the first.
append-le :
    (rail : Rail) (key : String) (r : PaymentRow) (rows : List PaymentRow)
    → any (same_event r.rail r.event_key) rows ≡ false
    → event_count rail key rows ≤ 1
    → event_count rail key (rows ++ r ∷ []) ≤ 1
append-le rail key r rows absent h = rw event_count-append (
    rw event_count_one (elim (Bool-cases (same_event rail key r)) [
      | inr other ↦ rw other (omega arith)
      | inl same ↦
          let (e, q) = same_event→eq rail key r same in
          let none_yet : event_count rail key rows ≡ 0 =
            rw (e, q) (event_count_absent r.rail r.event_key rows absent) in
          rw (same, none_yet) (omega arith)
    ]))

insert-IsOnce :
    (p : NewPayment) (now : ℕ) (db : PaymentsDb) → IsOnce db → IsOnce (write (insert p now) db)
unfolding write insert_idempotent
insert-IsOnce p now db h rail key = elim (Bool-cases (ltb p.days 1 || ltb p.flux_zats 1)) [
  | inl bad ↦ rw bad (h rail key)
  | inr good ↦ elim (Bool-cases (any (same_event p.rail p.event_key) db.payments)) [
    | inl known ↦ rw (good, known) (h rail key)
    | inr fresh ↦ rw (good, fresh) (append-le rail key _ db.payments fresh (h rail key))
  ]
]

update-IsOnce :
    (id : ℕ) (f : PaymentRow → PaymentRow) (rows : List PaymentRow) (rail : Rail) (key : String)
    → KeepsEvent f
    → event_count rail key rows ≤ 1
    → event_count rail key (update id f rows) ≤ 1
update-IsOnce id f rows rail key k h = rw (event_count-update rail key id f rows k) h

write-IsOnce : (w : Write) (db : PaymentsDb) → IsOnce db → IsOnce (write w db)
unfolding write mark_broadcast mark_confirmed reset_expired record_failure
write-IsOnce (insert p now) db h rail key = insert-IsOnce p now db h rail key
write-IsOnce (broadcast_as id txid hex expiry os zats now) db h rail key =
    update-IsOnce id (set_broadcast txid hex expiry now zats) db.payments rail key
      (λ r. unfold set_broadcast in (refl, refl)) (h rail key)
write-IsOnce (confirm id now) db h rail key =
    update-IsOnce id (set_confirmed now) db.payments rail key
      (λ r. unfold set_confirmed in (refl, refl)) (h rail key)
write-IsOnce (expire id txid) db h rail key =
    update-IsOnce id set_expired db.payments rail key (λ r. unfold set_expired in (refl, refl))
      (h rail key)
write-IsOnce (fail id attempts error now) db h rail key =
    update-IsOnce id (set_failure attempts error now) db.payments rail key
      (λ r. unfold set_failure in (refl, refl)) (h rail key)

-- From tables in which no event has two rows, every history of the repository's writes (inserts,
-- broadcasts, confirmations, resets, failures) ends in such tables.
pub write_all-IsOnce : (ws : List Write) (db : PaymentsDb) → IsOnce db → IsOnce (write_all ws db)
unfolding write_all
write_all-IsOnce [] db h = h
write_all-IsOnce (w ∷ ws) db h = write_all-IsOnce ws (write w db) (write-IsOnce w db h)

last_counts :
    (r : PaymentRow) (rows : List PaymentRow) → 1 ≤ event_count r.rail r.event_key (rows ++ r ∷ [])
last_counts r rows =
    rw event_count-append (rw event_count_one (rw (same_event_refl r) (omega arith)))

insert-pos :
    (p : NewPayment) (now : ℕ) (db : PaymentsDb)
    → 0 < p.days
    → 0 < p.flux_zats
    → 1 ≤ event_count p.rail p.event_key (write (insert p now) db).payments
unfolding write insert_idempotent
insert-pos p now db d z =
    let checked : (ltb p.days 1 || ltb p.flux_zats 1) ≡ false = ground arith in
    elim (Bool-cases (any (same_event p.rail p.event_key) db.payments)) [
      | inl known ↦ rw (checked, known) (event_count_present p.rail p.event_key db.payments known)
      | inr fresh ↦ rw (checked, fresh) (last_counts (new_row p _ now) db.payments)
    ]

pub inserted_counts :
    (p : NewPayment) (now : ℕ) (db db' : PaymentsDb) (id : Option ℕ)
    → insert_idempotent p now db ≡ some (id, db')
    → 1 ≤ event_count p.rail p.event_key db'.payments
unfolding insert_idempotent
inserted_counts p now db db' id e = elim (Bool-cases (ltb p.days 1 || ltb p.flux_zats 1)) [
  | inl bad ↦ cc (rw (insert_idempotent, bad) at e)
  | inr good ↦ elim (Bool-cases (any (same_event p.rail p.event_key) db.payments)) [
    | inl known ↦
        let e' = rw (insert_idempotent, good, known) at e in
        let same : db ≡ db' = cc in
        rw (← same) (event_count_present p.rail p.event_key db.payments known)
    | inr fresh ↦
        let e' = rw (insert_idempotent, good, fresh) at e in
        let row = new_row p (suc (max_id db.payments)) now in
        let same : record db { payments = db.payments ++ row ∷ [] } ≡ db' = cc in
        rw (← same) (last_counts row db.payments)
  ]
]

insert_mono :
    (rail : Rail) (key : String) (p : NewPayment) (now : ℕ) (db : PaymentsDb)
    → event_count rail key db.payments ≤ event_count rail key (write (insert p now) db).payments
unfolding write insert_idempotent
insert_mono rail key p now db = elim (Bool-cases (ltb p.days 1 || ltb p.flux_zats 1)) [
  | inl bad ↦ rw bad (omega arith)
  | inr good ↦ elim (Bool-cases (any (same_event p.rail p.event_key) db.payments)) [
    | inl known ↦ rw (good, known) (omega arith)
    | inr fresh ↦ rw (good, fresh) (rw event_count-append (omega arith))
  ]
]

update_mono :
    (id : ℕ) (f : PaymentRow → PaymentRow) (rows : List PaymentRow) (rail : Rail) (key : String)
    → KeepsEvent f
    → event_count rail key rows ≤ event_count rail key (update id f rows)
update_mono id f rows rail key k = rw (event_count-update rail key id f rows k) (omega arith)

write_mono :
    (rail : Rail) (key : String) (w : Write) (db : PaymentsDb)
    → event_count rail key db.payments ≤ event_count rail key (write w db).payments
unfolding write mark_broadcast mark_confirmed reset_expired record_failure
write_mono rail key (insert p now) db = insert_mono rail key p now db
write_mono rail key (broadcast_as id txid hex expiry os zats now) db =
    update_mono id (set_broadcast txid hex expiry now zats) db.payments rail key
      (λ r. unfold set_broadcast in (refl, refl))
write_mono rail key (confirm id now) db =
    update_mono id (set_confirmed now) db.payments rail key
      (λ r. unfold set_confirmed in (refl, refl))
write_mono rail key (expire id txid) db =
    update_mono id set_expired db.payments rail key (λ r. unfold set_expired in (refl, refl))
write_mono rail key (fail id attempts error now) db =
    update_mono id (set_failure attempts error now) db.payments rail key
      (λ r. unfold set_failure in (refl, refl))

pub write_all_mono :
    (rail : Rail) (key : String) (ws : List Write) (db : PaymentsDb)
    → event_count rail key db.payments ≤ event_count rail key (write_all ws db).payments
unfolding write_all
write_all_mono rail key [] db = omega arith
write_all_mono rail key (w ∷ ws) db =
    omega (arith, write_mono rail key w db, write_all_mono rail key ws (write w db))

-- An event with at least one day and one zat that was offered to the queue has exactly one row after
-- any history of writes, repeated deliveries of the event included, if none had two before.
pub write_all-insert_once :
    (p : NewPayment) (now : ℕ) (ws : List Write) (db : PaymentsDb)
    → 0 < p.days
    → 0 < p.flux_zats
    → IsOnce db
    → event_count p.rail p.event_key (write_all ws (write (insert p now) db)).payments ≡ 1
write_all-insert_once p now ws db d z h = omega (
  arith,
  insert-pos p now db d z,
  write_all_mono p.rail p.event_key ws (write (insert p now) db),
  write_all-IsOnce ws (write (insert p now) db) (insert-IsOnce p now db h) p.rail p.event_key,
)
