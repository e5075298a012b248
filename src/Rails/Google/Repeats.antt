-- ===== src/Rails/Google/Repeats.antt =====
-- The grants of bridge/src/rails/google.ts that are asked for again: the same order, the same test
-- subscription, or a move of the same period.
use Prim.Native.String
use cumulusvpn.Common.{
  ℕ, ◌<◌, ◌≤◌, ◌≡◌, ◌∙◌, refl, sym, inl, inr, String, true, false, ◌||◌, ◌⊎◌, Option, none, some,
  Option-cases, Bool-cases, any, ltb, ◌==◌, if◌then◌else◌, arith,
}
use cumulusvpn.Codes.{is_valid_payment_code}
use cumulusvpn.Grants.{GrantEvent, record_grant, payment_of}
use cumulusvpn.Payments.{google, PaymentsDb, same_event, insert_idempotent}
use cumulusvpn.Payments.Events.{event_count, event_count_absent, inserted_counts, write_all_mono}
use cumulusvpn.Rails.{seconds}
use cumulusvpn.Rails.Play.{GoogleConfig, PeriodFacts}
use cumulusvpn.Rails.GoogleMoves.{
  Job, is_probe, transfer_days, transfer_key, transfer_grant, test_grant, answered, finish,
}
use cumulusvpn.Rails.Google.Once.{Reach-IsWritten}
use cumulusvpn.Rails.Google.System.{State, Reach}

-- What asks for a grant: the end of a settlement, or a move.
pub data Paying : Type 0 where
  settlement : Job → ℕ → Paying
  transfer : String → String → PeriodFacts → ℕ → Paying

abbrev queue_of {ℓ} : {A : Type ℓ} → Option (A × PaymentsDb) → Option PaymentsDb
queue_of none = none
queue_of (some (a, queue)) = some queue

-- The queue afterwards, where the call does not throw.
abbrev pub pay : GoogleConfig → Paying → PaymentsDb → Option PaymentsDb
pay cfg (settlement job now_ms) queue = queue_of (finish cfg job now_ms queue)
pay cfg (transfer code token facts now_ms) queue =
    queue_of (transfer_grant cfg code token facts now_ms queue)

-- A call that throws leaves the queue as it was.
abbrev pub left_by : PaymentsDb → Option PaymentsDb → PaymentsDb
left_by queue none = queue
left_by queue (some queue') = queue'

abbrev pub code_paid : Paying → String
code_paid (settlement job now_ms) = job.code
code_paid (transfer code token facts now_ms) = code

abbrev pub days_paid : GoogleConfig → Paying → ℕ
days_paid cfg (settlement job now_ms) =
    if is_probe cfg job.facts then cfg.test_grant_days else job.facts.days
days_paid cfg (transfer code token facts now_ms) = transfer_days cfg facts now_ms

-- The same order; the same subscription in a test; or a move of the same subscription, which ends at
-- the same time or is a test again. The codes and the times may differ.
pub data IsRepeat (cfg : GoogleConfig) : Paying → Paying → Type 0 where
  order :
      (job job' : Job) (now_ms now_ms' : ℕ)
      → is_probe cfg job.facts ≡ false
      → is_probe cfg job'.facts ≡ false
      → job'.facts.order_id ≡ job.facts.order_id
      → IsRepeat cfg (settlement job now_ms) (settlement job' now_ms')
  tested :
      (job job' : Job) (now_ms now_ms' : ℕ)
      → is_probe cfg job.facts ≡ true
      → is_probe cfg job'.facts ≡ true
      → job'.token ≡ job.token
      → IsRepeat cfg (settlement job now_ms) (settlement job' now_ms')
  period :
      (code code' token : String) (facts facts' : PeriodFacts) (now_ms now_ms' : ℕ)
      → is_probe cfg facts' ≡ is_probe cfg facts
      → facts'.expiry_ms ≡ facts.expiry_ms
      → IsRepeat cfg (transfer code token facts now_ms) (transfer code' token facts' now_ms')
  tested_move :
      (code code' token : String) (facts facts' : PeriodFacts) (now_ms now_ms' : ℕ)
      → is_probe cfg facts ≡ true
      → is_probe cfg facts' ≡ true
      → IsRepeat cfg (transfer code token facts now_ms) (transfer code' token facts' now_ms')

-- The key of the event that a grant is recorded under.
abbrev key_of : GoogleConfig → Paying → String
key_of cfg (settlement job now_ms) =
    if is_probe cfg job.facts then String.◌++◌ "test:" job.token else job.facts.order_id
key_of cfg (transfer code token facts now_ms) = transfer_key cfg token facts

repeated_key : (cfg : GoogleConfig) (a b : Paying) → IsRepeat cfg a b → key_of cfg b ≡ key_of cfg a
repeated_key cfg _ _ (order job job' now_ms now_ms' p q e) = rw (p, q, e) refl
repeated_key cfg _ _ (tested job job' now_ms now_ms' p q e) = rw (p, q, e) refl
repeated_key cfg _ _ (period code code' token facts facts' now_ms now_ms' p e) = rw (p, e) refl
repeated_key cfg _ _ (tested_move code code' token facts facts' now_ms now_ms' p q) = rw (p, q) refl

-- An event that has a row is not recorded again.
recorded_kept :
    (cfg : GoogleConfig) (ev : GrantEvent) (now : ℕ) (queue : PaymentsDb)
    → 1 ≤ event_count ev.rail ev.event_key queue.payments
    → left_by queue (queue_of (record_grant cfg.decode cfg.price_zats ev now queue)) ≡ queue
unfolding record_grant insert_idempotent
recorded_kept cfg ev now queue h =
    elim (Bool-cases (is_valid_payment_code cfg.decode ev.payment_code)) [
      | inr bad ↦ rw (record_grant, bad) refl
      | inl good ↦ elim (Bool-cases (any (same_event ev.rail ev.event_key) queue.payments)) [
        | inr fresh ↦
            ground (arith, h, event_count_absent ev.rail ev.event_key queue.payments fresh)
        | inl known ↦
            elim (Bool-cases (
              ltb (payment_of cfg.price_zats ev).days 1
              || ltb (payment_of cfg.price_zats ev).flux_zats 1)) [
                | inl none_paid ↦ rw (record_grant, good, none_paid) refl
                | inr some_paid ↦ rw (record_grant, good, some_paid, known) refl
              ]
      ]
    ]

record_grant-counts :
    (cfg : GoogleConfig) (ev : GrantEvent) (now : ℕ) (queue queue' : PaymentsDb)
    → is_valid_payment_code cfg.decode ev.payment_code ≡ true
    → queue_of (record_grant cfg.decode cfg.price_zats ev now queue) ≡ some queue'
    → 1 ≤ event_count ev.rail ev.event_key queue'.payments
unfolding record_grant
record_grant-counts cfg ev now queue queue' valid e =
    elim (Option-cases (insert_idempotent (payment_of cfg.price_zats ev) now queue)) [
      | inl n ↦ cc (rw (record_grant, valid, n) at e)
      | inr ((id, after), s) ↦
          let e' = rw (record_grant, valid, s) at e in
          let same : after ≡ queue' = cc in
          rw (← same) (inserted_counts (payment_of cfg.price_zats ev) now queue after id s)
    ]

abbrev event_of : String → String → String → ℕ → GrantEvent
event_of key token code days = record {
  rail = google;
  event_key = key;
  external_ref = token;
  payment_code = code;
  days = days;
}

-- A change of the answer leaves the queue alone.
queue_of-answer {ℓ κ} :
    {A : Type ℓ} {B : Type κ} (f : A → B) (o : Option (A × PaymentsDb))
    → queue_of (elim o [ none ↦ none | some (a, queue) ↦ some (f a, queue) ]) ≡ queue_of o
queue_of-answer f none = refl
queue_of-answer f (some (a, queue)) = refl

-- What a call with days in it writes.
abbrev recorded : GoogleConfig → Paying → PaymentsDb → Option PaymentsDb
recorded cfg (settlement job now_ms) queue = queue_of (
    record_grant cfg.decode cfg.price_zats
      (event_of (key_of cfg (settlement job now_ms)) job.token job.code
        (days_paid cfg (settlement job now_ms)))
      (seconds now_ms) queue)
recorded cfg (transfer code token facts now_ms) queue = queue_of (
    record_grant cfg.decode cfg.price_zats
      (event_of (transfer_key cfg token facts) token code (transfer_days cfg facts now_ms))
      (seconds now_ms) queue)

-- A call records its event; a test or a move without days does nothing.
pay-cases :
    (cfg : GoogleConfig) (a : Paying) (queue : PaymentsDb)
    → (pay cfg a queue ≡ recorded cfg a queue)
      ⊎ ((days_paid cfg a ≡ 0) × (pay cfg a queue ≡ some queue))
unfolding finish test_grant transfer_grant
pay-cases cfg (settlement job now_ms) queue = elim (Bool-cases (is_probe cfg job.facts)) [
  | inr real ↦ inl (rw (finish, real) (queue_of-answer _ _))
  | inl probe ↦ elim (Bool-cases (cfg.test_grant_days == 0)) [
    | inl nothing ↦ inr (rw (finish, probe, test_grant, nothing) (ground (arith, nothing), refl))
    | inr some_days ↦ inl (
        rw (finish, probe, test_grant, some_days)
          (queue_of-answer (answered job) _ ∙ queue_of-answer _ _))
  ]
]
pay-cases cfg (transfer code token facts now_ms) queue =
    elim (Bool-cases (transfer_days cfg facts now_ms == 0)) [
      | inl nothing ↦ inr (ground (arith, nothing), rw (transfer_grant, nothing) refl)
      | inr some_days ↦ inl (rw (transfer_grant, some_days) (queue_of-answer _ _))
    ]

paid_kept :
    (cfg : GoogleConfig) (b : Paying) (queue : PaymentsDb)
    → 1 ≤ event_count google (key_of cfg b) queue.payments
    → left_by queue (pay cfg b queue) ≡ queue
paid_kept cfg b queue h = elim (pay-cases cfg b queue) [
  | inr (z, e) ↦ rw e refl
  | inl e ↦ rw e (by_kind b h)
]
  where
    by_kind :
        (b : Paying)
        → 1 ≤ event_count google (key_of cfg b) queue.payments
        → left_by queue (recorded cfg b queue) ≡ queue
    by_kind (settlement job now_ms) k = recorded_kept cfg _ (seconds now_ms) queue k
    by_kind (transfer code token facts now_ms) k = recorded_kept cfg _ (seconds now_ms) queue k

paid_counts :
    (cfg : GoogleConfig) (a : Paying) (queue queue' : PaymentsDb)
    → is_valid_payment_code cfg.decode (code_paid a) ≡ true
    → 0 < days_paid cfg a
    → pay cfg a queue ≡ some queue'
    → 1 ≤ event_count google (key_of cfg a) queue'.payments
paid_counts cfg a queue queue' valid days paid = elim (pay-cases cfg a queue) [
  | inr (z, e) ↦ ground (arith, z, days)
  | inl e ↦ by_kind a valid (sym e ∙ paid)
]
  where
    by_kind :
        (a : Paying)
        → is_valid_payment_code cfg.decode (code_paid a) ≡ true
        → recorded cfg a queue ≡ some queue'
        → 1 ≤ event_count google (key_of cfg a) queue'.payments
    by_kind (settlement job now_ms) v e =
        record_grant-counts cfg _ (seconds now_ms) queue queue' v e
    by_kind (transfer code token facts now_ms) v e =
        record_grant-counts cfg _ (seconds now_ms) queue queue' v e

-- A grant of at least one day to a valid code did not throw. Then, after every further history of the
-- handlers, a grant for the same order, for the same subscription in a test, or for a move of the same
-- period of the subscription adds nothing to the queue, whatever code asks for it and at whatever time.
pub Reach-repeat_free :
    (cfg : GoogleConfig) (a b : Paying) (queue queue' : PaymentsDb) (s t : State)
    → is_valid_payment_code cfg.decode (code_paid a) ≡ true
    → 0 < days_paid cfg a
    → pay cfg a queue ≡ some queue'
    → IsRepeat cfg a b
    → s.bridge.queue ≡ queue'
    → Reach cfg s t
    → left_by t.bridge.queue (pay cfg b t.bridge.queue) ≡ t.bridge.queue
Reach-repeat_free cfg a b queue queue' s t valid days paid again from r =
    paid_kept cfg b t.bridge.queue (rw (repeated_key cfg a b again) still_there)
  where
    still_there : 1 ≤ event_count google (key_of cfg a) t.bridge.queue.payments
    still_there =
        let (ws, written) = Reach-IsWritten r in
        rw (written, from)
          (omega (
            arith,
            paid_counts cfg a queue queue' valid days paid,
            write_all_mono google (key_of cfg a) ws queue',
          ))
