-- ===== src/Rails/Google/Once.antt =====
-- The grants of bridge/src/rails/google.ts in the payments queue.
use cumulusvpn.Common.{
  ℕ, ◌<◌, ◌≡◌, ◌∙◌, refl, sym, ap, inl, inr, true, false, ◌&&◌, not, some, List, [], ◌∷◌, ◌++◌,
  Option-cases,
}
use cumulusvpn.Codes.{is_valid_payment_code}
use cumulusvpn.Grants.{record_grant}
use cumulusvpn.Payments.{google, PaymentsDb, NewPayment, insert_idempotent}
use cumulusvpn.Payments.Events.{
  Write, insert, write, write_all, event_count, IsOnce, write_all-IsOnce, write_all-insert_once,
}
use cumulusvpn.Price.Payout.{zats_for_days}
use cumulusvpn.Rails.{seconds}
use cumulusvpn.Rails.Play.{GoogleConfig, Outcome}
use cumulusvpn.Rails.GoogleMoves.{Job, finish}
use cumulusvpn.Rails.Google.Effects.{QueueEffect, unpaid, paid}
use cumulusvpn.Rails.Google.System.{State, Reach, here, next, Step-Effect}

-- A queue that a run of inserts leaves.
abbrev IsWritten : PaymentsDb → PaymentsDb → Type 0
IsWritten queue queue' = (ws : List Write) × (queue' ≡ write_all ws queue)

QueueEffect-IsWritten :
    {now : ℕ} {queue queue' : PaymentsDb} → QueueEffect now queue queue' → IsWritten queue queue'
unfolding write_all write
QueueEffect-IsWritten unpaid = ([], refl)
QueueEffect-IsWritten {now} (paid p id queue' e) = (insert p now ∷ [], rw e refl)

write_all-append :
    (xs ys : List Write) (db : PaymentsDb)
    → write_all (xs ++ ys) db ≡ write_all ys (write_all xs db)
unfolding write_all
write_all-append [] ys db = refl
write_all-append (x ∷ xs) ys db = write_all-append xs ys (write x db)

pub Reach-IsWritten :
    {cfg : GoogleConfig} {s t : State} → Reach cfg s t → IsWritten s.bridge.queue t.bridge.queue
unfolding write_all
Reach-IsWritten here = ([], refl)
Reach-IsWritten {cfg} {s} (next r st) =
    let (xs, e) = Reach-IsWritten r in
    let (ys, f) = QueueEffect-IsWritten (Step-Effect st).1.queue in
    (xs ++ ys, f ∙ ap (write_all ys) e ∙ sym (write_all-append xs ys s.bridge.queue))

-- Tables in which every event has one row at most stay so in any history of the handlers.
Reach-IsOnce :
    {cfg : GoogleConfig} {s t : State}
    → Reach cfg s t
    → IsOnce s.bridge.queue
    → IsOnce t.bridge.queue
Reach-IsOnce {cfg} {s} r h =
    let (ws, e) = Reach-IsWritten r in rw e (write_all-IsOnce ws s.bridge.queue h)

-- The payment of an acknowledged order.
abbrev order_payment : GoogleConfig → Job → NewPayment
order_payment cfg job = record {
  rail = google;
  event_key = job.facts.order_id;
  external_ref = job.token;
  payment_code = job.code;
  days = job.facts.days;
  flux_zats = zats_for_days cfg.price_zats job.facts.days;
}

finish-write :
    (cfg : GoogleConfig) (job : Job) (now_ms : ℕ) (o : Outcome) (queue queue' : PaymentsDb)
    → (job.facts.test && not cfg.test_grants) ≡ false
    → is_valid_payment_code cfg.decode job.code ≡ true
    → finish cfg job now_ms queue ≡ some (o, queue')
    → queue' ≡ write (insert (order_payment cfg job) (seconds now_ms)) queue
unfolding finish record_grant write
finish-write cfg job now_ms o queue queue' real valid e =
    elim (Option-cases (insert_idempotent (order_payment cfg job) (seconds now_ms) queue)) [
      | inl n ↦ cc (rw (finish, real, record_grant, valid, n) at e)
      | inr ((id, after), s) ↦
          let e' = rw (finish, real, record_grant, valid, s) at e in
          let same : after ≡ queue' = cc in rw (write, s) (sym same)
    ]

-- Once a purchase that is no test is acknowledged and settled, its order stands in the queue exactly
-- once, after every further history of the handlers: for a valid code, at least one day and one zat,
-- and tables in which no event had two rows.
pub acknowledged_owed :
    (cfg : GoogleConfig) (job : Job) (now_ms : ℕ) (o : Outcome) (queue queue' : PaymentsDb)
    (s t : State)
    → (job.facts.test && not cfg.test_grants) ≡ false
    → is_valid_payment_code cfg.decode job.code ≡ true
    → 0 < job.facts.days
    → 0 < zats_for_days cfg.price_zats job.facts.days
    → IsOnce queue
    → finish cfg job now_ms queue ≡ some (o, queue')
    → s.bridge.queue ≡ queue'
    → Reach cfg s t
    → event_count google job.facts.order_id t.bridge.queue.payments ≡ 1
acknowledged_owed cfg job now_ms o queue queue' s t real valid days zats once e from r =
    let (ws, written) = Reach-IsWritten r in
    rw (written, from, finish-write cfg job now_ms o queue queue' real valid e)
      (write_all-insert_once (order_payment cfg job) (seconds now_ms) ws queue days zats once)
