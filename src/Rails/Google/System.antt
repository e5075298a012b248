-- ===== src/Rails/Google/System.antt =====
-- The handlers of bridge/src/rails/google.ts, interleaved: a purchase that is verified or claimed waits
-- for its acknowledgement, and any other handler may run before its grant is made. A notification that
-- asks Play first comes to a verification that does not look at the account id.
use cumulusvpn.Common.{
  ℕ, ◌≡◌, String, Bool, not, inl, inr, Bool-cases, Option-cases, Option, none, some, List, [], ◌∷◌,
  ◌++◌,
}
use cumulusvpn.Payments.{PaymentsDb}
use cumulusvpn.Subscriptions.{SubscriptionRow, SubscriptionsDb, TransferActor, user, admin}
use cumulusvpn.Rails.{Bridge, seconds}
use cumulusvpn.Rails.Play.{GoogleConfig, PlaySubscription, Outcome, is_text, given}
use cumulusvpn.Rails.GoogleMoves.{Job, finish}
use cumulusvpn.Rails.Google.{
  Section, answer, settling, verify_section, claim_section, admin_rebind, Rebound,
}
use cumulusvpn.Rails.Notices.{Notification, ended, handle_rtdn, is_revoke, is_grant_kind}
use cumulusvpn.Rails.Google.Effects.{
  SubsEffect, kept, marked, unpaid, Effect, verify_section-effect, finish-effect,
}
use cumulusvpn.Rails.Google.Handlers.{claim_section-effect, admin_rebind-effect}

pub record State : Type 0 where
  pub bridge : Bridge
  pub jobs : List Job

abbrev pub waiting : Section → List Job → List Job
waiting (answer _) jobs = jobs
waiting (settling job) jobs = jobs ++ job ∷ []

pub data Step (cfg : GoogleConfig) : TransferActor → State → State → Type 0 where
  verify :
      (s : State) (code token : String) (strict : Bool) (sub : PlaySubscription) (now_ms : ℕ)
      → Step cfg user s (record {
        bridge = record s.bridge {
          subs = (verify_section cfg code token strict sub now_ms s.bridge.subs).1;
        };
        jobs = waiting (verify_section cfg code token strict sub now_ms s.bridge.subs).0 s.jobs;
      })
  claim :
      (s : State) (code token : String) (transfer : Bool) (sub : PlaySubscription) (now_ms : ℕ)
      (section : Section) (b : Bridge)
      → claim_section cfg code token transfer sub now_ms s.bridge ≡ some (section, b)
      → Step cfg user s (record { bridge = b; jobs = waiting section s.jobs })
  acknowledged :
      (s : State) (before after : List Job) (job : Job) (now_ms : ℕ) (o : Outcome)
      (queue : PaymentsDb)
      → s.jobs ≡ before ++ job ∷ after
      → finish cfg job now_ms s.bridge.queue ≡ some (o, queue)
      → Step cfg user s
          (record { bridge = record s.bridge { queue = queue }; jobs = before ++ after })
  notify :
      (s : State) (note : Option Notification) (now_ms : ℕ) (text : String) (subs : SubscriptionsDb)
      → handle_rtdn cfg note now_ms s.bridge.subs ≡ ended text subs
      → Step cfg user s (record s { bridge = record s.bridge { subs = subs } })
  support :
      (s : State) (token code : String) (before : Option SubscriptionRow)
      (answered : Option PlaySubscription) (now_ms : ℕ) (r : Rebound) (b : Bridge)
      → admin_rebind cfg token code before answered now_ms s.bridge ≡ some (r, b)
      → Step cfg admin s (record s { bridge = b })

pub data Reach (cfg : GoogleConfig) (s : State) : State → Type 0 where
  here : Reach cfg s s
  next : {actor : TransferActor} {t u : State} → Reach cfg s t → Step cfg actor t u → Reach cfg s u

ended_injective :
    {text text' : String} {subs subs' : SubscriptionsDb}
    → ended text subs ≡ ended text' subs'
    → subs ≡ subs'
ended_injective e = cc

handle_rtdn-effect :
    (cfg : GoogleConfig) (note : Option Notification) (now_ms : ℕ) (text : String)
    (subs subs' : SubscriptionsDb)
    → handle_rtdn cfg note now_ms subs ≡ ended text subs'
    → SubsEffect user (seconds now_ms) subs subs'
unfolding handle_rtdn
handle_rtdn-effect cfg none now_ms text subs subs' e = rw (← ended_injective e) kept
handle_rtdn-effect cfg (some note) now_ms text subs subs' e = elim (Bool-cases note.is_test) [
  | inl test ↦ same (rw (handle_rtdn, test) at e)
  | inr real ↦ elim (Bool-cases (not (is_text note.package_name cfg.package_name))) [
    | inl other ↦ same (rw (handle_rtdn, real, other) at e)
    | inr ours ↦ elim (Bool-cases (not note.has_subscription)) [
      | inl bare ↦ same (rw (handle_rtdn, real, ours, bare) at e)
      | inr full ↦ elim (Option-cases (given note.token)) [
        | inl missing ↦ same (rw (handle_rtdn, real, ours, full, missing) at e)
        | inr (token, present) ↦ elim (Bool-cases (is_revoke note.kind)) [
          | inl revoked ↦
              rw (← ended_injective (rw (handle_rtdn, real, ours, full, present, revoked) at e))
                (marked token)
          | inr alive ↦ elim (Bool-cases (is_grant_kind note.kind)) [
            | inl grants ↦ cc (rw (handle_rtdn, real, ours, full, present, alive, grants) at e)
            | inr ignored ↦ same (rw (handle_rtdn, real, ours, full, present, alive, ignored) at e)
          ]
        ]
      ]
    ]
  ]
]
  where
    same :
        {text' : String}
        → ended text' subs ≡ ended text subs'
        → SubsEffect user (seconds now_ms) subs subs'
    same q = rw (← ended_injective q) kept

pub Step-Effect :
    {cfg : GoogleConfig} {actor : TransferActor} {s t : State}
    → Step cfg actor s t
    → (now : ℕ) × Effect actor now s.bridge t.bridge
Step-Effect {cfg} (verify s code token strict sub now_ms) = (
  seconds now_ms,
  record {
    subs = verify_section-effect user cfg code token strict sub now_ms s.bridge.subs;
    queue = unpaid;
  },
)
Step-Effect {cfg} (claim s code token transfer sub now_ms section b e) =
    (seconds now_ms, claim_section-effect cfg code token transfer sub now_ms s.bridge b section e)
Step-Effect {cfg} (acknowledged s before after job now_ms o queue w e) = (
  seconds now_ms,
  record { subs = kept; queue = rw e at (finish-effect cfg job now_ms s.bridge.queue) },
)
Step-Effect {cfg} (notify s note now_ms text subs e) = (
  seconds now_ms,
  record { subs = handle_rtdn-effect cfg note now_ms text s.bridge.subs subs e; queue = unpaid },
)
Step-Effect {cfg} (support s token code before answered now_ms r b e) =
    (seconds now_ms, admin_rebind-effect cfg token code before answered now_ms s.bridge b r e)
