-- ===== src/Rails/Google/Effects.antt =====
-- What the handlers of bridge/src/rails/google.ts may do to the tables between two awaits.
use cumulusvpn.Common.{
  ℕ, ◌≡◌, ◌⊎◌, refl, inl, inr, String, Bool, false, ◌&&◌, not, ◌==◌, Option, none, some,
  Option-cases, Bool-cases,
}
use text.Mathlib.Text.{◌==◌ as str_eq}
use cumulusvpn.Codes.{is_valid_payment_code}
use cumulusvpn.Grants.{record_grant, GrantEvent, GrantResult, payment_of}
use cumulusvpn.Payments.{google, PaymentsDb, NewPayment, insert_idempotent}
use cumulusvpn.Subscriptions.{
  SubscriptionRow, SubscriptionsDb, refunded, TransferActor, user, admin, get, upsert, rebind,
  set_status,
}
use cumulusvpn.Subscriptions.Moves.{moved_at}
use cumulusvpn.Transfers.{Plan, transfer_available_at}
use cumulusvpn.Rails.{Bridge, seconds, result_text}
use cumulusvpn.Rails.Play.{
  is_text, accept, GoogleConfig, PlaySubscription, PeriodFacts, inactive_reason, period_facts,
}
use cumulusvpn.Rails.GoogleMoves.{Job, answered, transfer_grant, transfer_days, test_grant, finish}
use cumulusvpn.Rails.Google.{bind, bound_code, moved_owner, verify_section}

-- A user moves a subscription only when thirty days have passed; support always may.
abbrev pub MayMove : TransferActor → Option ℕ → ℕ → Type 0
MayMove user last now = transfer_available_at last now ≡ none
MayMove admin last now = Unit

-- Whoever settles a subscription that has moved, binds it to the code that it has.
abbrev pub IsOwner : String → String → SubscriptionsDb → Type 0
IsOwner token code subs =
    (r : SubscriptionRow) (t : ℕ)
    → get google token subs.subscriptions ≡ some r
    → r.transferred_at ≡ some t
    → str_eq r.payment_code "" ≡ false
    → code ≡ r.payment_code

-- A change of the subscriptions by a call on behalf of `actor`.
pub data SubsEffect (actor : TransferActor) (now : ℕ) (subs : SubscriptionsDb)
    : SubscriptionsDb → Type 0 where
  kept : SubsEffect actor now subs subs
  bound :
      (token code : String) (plan : Plan)
      → IsOwner token code subs
      → SubsEffect actor now subs (upsert google token code plan none now subs)
  marked : (token : String) → SubsEffect actor now subs (set_status google token refunded now subs)
  moved :
      (token code : String) (plan : Plan) (days : ℕ)
      → MayMove actor (moved_at (get google token subs.subscriptions)) now
      → SubsEffect actor now subs (rebind google token code plan actor days now subs).0

pub data QueueEffect (now : ℕ) (queue : PaymentsDb) : PaymentsDb → Type 0 where
  unpaid : QueueEffect now queue queue
  paid :
      (p : NewPayment) (id : Option ℕ) (queue' : PaymentsDb)
      → insert_idempotent p now queue ≡ some (id, queue')
      → QueueEffect now queue queue'

pub moved_owner-IsOwner :
    (token code : String) (subs : SubscriptionsDb)
    → IsOwner token (bound_code (moved_owner token subs) code) subs
unfolding moved_owner
moved_owner-IsOwner token code subs r t found at filled = rw (moved_owner, found, at) refl

pub sum-cases {ℓ κ} :
    {A : Type ℓ} {B : Type κ} (o : A ⊎ B) → ((a : A) × (o ≡ inl a)) ⊎ ((b : B) × (o ≡ inr b))
sum-cases (inl a) = inl (a, refl)
sum-cases (inr b) = inr (b, refl)

-- `verifyPurchase` writes no more than the binding of a purchase to its owner.
pub verify_section-effect :
    (actor : TransferActor) (cfg : GoogleConfig) (code token : String) (strict : Bool)
    (sub : PlaySubscription) (now_ms : ℕ) (subs : SubscriptionsDb)
    → SubsEffect actor
        (seconds now_ms)
        subs
        (verify_section cfg code token strict sub now_ms subs).1
unfolding verify_section bind
verify_section-effect actor cfg code token strict sub now_ms subs =
    elim (Bool-cases (is_valid_payment_code cfg.decode code)) [
      | inr bad ↦ rw (verify_section, bad) kept
      | inl good ↦ elim (Option-cases (inactive_reason sub)) [
        | inr (why, dead) ↦ rw (verify_section, good, dead) kept
        | inl live ↦ elim (Bool-cases (strict && not (is_text sub.account_id code))) [
          | inl off ↦ rw (verify_section, good, live, off) kept
          | inr fit ↦ elim (sum-cases (period_facts cfg sub)) [
            | inl (why, f) ↦ rw (verify_section, good, live, fit, f) kept
            | inr (facts, f) ↦
                rw (verify_section, good, live, fit, f)
                  (bound token (bound_code (moved_owner token subs) code) facts.plan
                    (moved_owner-IsOwner token code subs))
          ]
        ]
      ]
    ]

record_grant-effect :
    (cfg : GoogleConfig) (ev : GrantEvent) (now : ℕ) (queue queue' : PaymentsDb)
    (result : GrantResult)
    → record_grant cfg.decode cfg.price_zats ev now queue ≡ some (result, queue')
    → QueueEffect now queue queue'
unfolding record_grant
record_grant-effect cfg ev now queue queue' result e =
    elim (Bool-cases (is_valid_payment_code cfg.decode ev.payment_code)) [
      | inr bad ↦
          let e' = rw (record_grant, bad) at e in
          let same : queue ≡ queue' = cc in rw (← same) unpaid
      | inl good ↦
          elim (Option-cases (insert_idempotent (payment_of cfg.price_zats ev) now queue)) [
            | inl n ↦ cc (rw (record_grant, good, n) at e)
            | inr ((id, after), s) ↦
                let e' = rw (record_grant, good, s) at e in
                let same : after ≡ queue' = cc in
                rw (← same) (paid (payment_of cfg.price_zats ev) id after s)
          ]
    ]

-- What a call with a grant in it leaves where it does not throw.
abbrev pub Granted {ℓ} : {A : Type ℓ} → ℕ → PaymentsDb → Option (A × PaymentsDb) → Type 0
Granted now queue none = Unit
Granted now queue (some (a, queue')) = QueueEffect now queue queue'

Granted-map {ℓ} :
    {A : Type ℓ} (f : GrantResult → A) (now : ℕ) (queue : PaymentsDb)
    (o : Option (GrantResult × PaymentsDb))
    → ((r : GrantResult) (q : PaymentsDb) → o ≡ some (r, q) → QueueEffect now queue q)
    → Granted now queue (elim o [ none ↦ none | some (r, q) ↦ some (f r, q) ])
Granted-map f now queue none h = tt
Granted-map f now queue (some (r, q)) h = h r q refl

-- A change of the answer alone.
Granted-answered {ℓ} :
    {A : Type ℓ} (f : A → A) (now : ℕ) (queue : PaymentsDb) (o : Option (A × PaymentsDb))
    → Granted now queue o
    → Granted now queue (elim o [ none ↦ none | some (a, q) ↦ some (f a, q) ])
Granted-answered f now queue none h = h
Granted-answered f now queue (some (a, q)) h = h

-- The end of `settle` writes no more than one grant.
pub finish-effect :
    (cfg : GoogleConfig) (job : Job) (now_ms : ℕ) (queue : PaymentsDb)
    → Granted (seconds now_ms) queue (finish cfg job now_ms queue)
unfolding finish test_grant
finish-effect cfg job now_ms queue = elim (Bool-cases (job.facts.test && not cfg.test_grants)) [
  | inr real ↦
      rw (finish, real)
        (Granted-map (λ r. answered job (accept (result_text r) job.facts.days false)) _ queue _
          (λ r q e. record_grant-effect cfg _ (seconds now_ms) queue q r e))
  | inl probe ↦ elim (Bool-cases (cfg.test_grant_days == 0)) [
    | inl off ↦ rw (finish, probe, test_grant, off) unpaid
    | inr on ↦
        rw (finish, probe, test_grant, on)
          (Granted-answered (answered job) _ queue _ (
            Granted-map _ _ queue _
              (λ r q e. record_grant-effect cfg _ (seconds now_ms) queue q r e)))
  ]
]

pub transfer_grant-effect :
    (cfg : GoogleConfig) (code token : String) (facts : PeriodFacts) (now_ms : ℕ)
    (queue : PaymentsDb)
    → Granted (seconds now_ms) queue (transfer_grant cfg code token facts now_ms queue)
unfolding transfer_grant
transfer_grant-effect cfg code token facts now_ms queue =
    elim (Bool-cases (transfer_days cfg facts now_ms == 0)) [
      | inl nothing ↦ rw (transfer_grant, nothing) unpaid
      | inr some_days ↦
          rw (transfer_grant, some_days)
            (Granted-map _ _ queue _
              (λ r q e. record_grant-effect cfg _ (seconds now_ms) queue q r e))
    ]

-- A change of both tables.
pub record Effect (actor : TransferActor) (now : ℕ) (b b' : Bridge) : Type 0 where
  pub subs : SubsEffect actor now b.subs b'.subs
  pub queue : QueueEffect now b.queue b'.queue

abbrev pub still : (actor : TransferActor) (now : ℕ) (b : Bridge) → Effect actor now b b
still actor now b = record { subs = kept; queue = unpaid }
