-- ===== src/Rails/Google/Handlers.antt =====
-- What each handler of bridge/src/rails/google.ts may do to the tables.
use cumulusvpn.Common.{
  ℕ, ◌≡◌, inl, inr, String, Bool, true, not, Option, none, some, Option-cases, Bool-cases, arith,
}
use text.Mathlib.TextEquality.{eq_iff}
use cumulusvpn.Codes.{is_valid_payment_code}
use cumulusvpn.Payments.{google}
use cumulusvpn.Subscriptions.{
  SubscriptionRow, SubscriptionsDb, TransferActor, user, admin, get, upsert, rebind,
}
use cumulusvpn.Subscriptions.Moves.{moved_at}
use cumulusvpn.Transfers.{transfer_available_at}
use cumulusvpn.Rails.{Bridge, seconds}
use cumulusvpn.Rails.Play.{
  GoogleConfig, PlaySubscription, PeriodFacts, inactive_reason, period_facts,
}
use cumulusvpn.Rails.GoogleMoves.{Moved, transfer_to, transfer_grant, transfer_days}
use cumulusvpn.Rails.Google.{
  Section, bind, claim_section, take_over, admin_rebind, owner_of, may_settle, Rebound,
}
use cumulusvpn.Rails.Google.Effects.{
  MayMove, IsOwner, bound, moved, QueueEffect, unpaid, Effect, still, sum-cases,
  transfer_grant-effect,
}

-- `transferTo` makes one grant at most, and one move.
pub transfer_to-effect :
    (cfg : GoogleConfig) (code token : String) (facts : PeriodFacts) (actor : TransferActor)
    (now_ms : ℕ) (b b' : Bridge) (m : Moved)
    → MayMove actor (moved_at (get google token b.subs.subscriptions)) (seconds now_ms)
    → transfer_to cfg code token facts actor now_ms b ≡ some (m, b')
    → Effect actor (seconds now_ms) b b'
unfolding transfer_to
transfer_to-effect cfg code token facts actor now_ms b b' m may e =
    elim (Option-cases (transfer_grant cfg code token facts now_ms b.queue)) [
      | inl n ↦ cc (rw (transfer_to, n) at e)
      | inr ((grant, queue), s) ↦
          let paid : QueueEffect (seconds now_ms) b.queue queue =
            rw s at (transfer_grant-effect cfg code token facts now_ms b.queue) in
          let e' = rw (transfer_to, s) at e in
          let rebound =
            rebind google token code facts.plan actor (transfer_days cfg facts now_ms)
              (seconds now_ms) b.subs in
          let same : record { queue = queue; subs = rebound.0 } ≡ b' = cc in
          rw (← same) (record {
            subs = moved token code facts.plan (transfer_days cfg facts now_ms) may;
            queue = paid;
          })
    ]

take_over-effect :
    (cfg : GoogleConfig) (code token : String) (transfer : Bool) (facts : PeriodFacts) (now_ms : ℕ)
    (b b' : Bridge) (s : Section)
    → take_over cfg code token transfer facts now_ms b ≡ some (s, b')
    → Effect user (seconds now_ms) b b'
unfolding take_over
take_over-effect cfg code token transfer facts now_ms b b' s e = elim (Bool-cases (not transfer)) [
  | inl asked ↦
      let e' = rw (take_over, asked) at e in
      let same : b ≡ b' = cc in rw (← same) (still user (seconds now_ms) b)
  | inr wanted ↦
      elim (Option-cases (
        transfer_available_at (moved_at (get google token b.subs.subscriptions))
          (seconds now_ms))) [
            | inr (at, soon) ↦
                let e' = rw (take_over, wanted, soon) at e in
                let same : b ≡ b' = cc in rw (← same) (still user (seconds now_ms) b)
            | inl free ↦ elim (Option-cases (transfer_to cfg code token facts user now_ms b)) [
              | inl n ↦ cc (rw (take_over, wanted, free, n) at e)
              | inr ((m, after), done) ↦
                  let e' = rw (take_over, wanted, free, done) at e in
                  let same : after ≡ b' = cc in
                  rw (← same)
                    (transfer_to-effect cfg code token facts user now_ms b after m free done)
            ]
          ]
]

-- Who may settle a subscription by a claim is its owner, if it has moved.
may_settle-IsOwner :
    (token code : String) (sub : PlaySubscription) (subs : SubscriptionsDb)
    → may_settle (owner_of (get google token subs.subscriptions) sub) code ≡ true
    → IsOwner token code subs
unfolding owner_of
may_settle-IsOwner token code sub subs h r t found at filled =
    let h' = rw (owner_of, found, filled) at h in ground (arith, eq_iff r.payment_code code)

-- `claimPurchase` makes one grant at most, binds a moved subscription to nobody but its owner, and moves
-- one only when its thirty days have passed.
pub claim_section-effect :
    (cfg : GoogleConfig) (code token : String) (transfer : Bool) (sub : PlaySubscription)
    (now_ms : ℕ) (b b' : Bridge) (s : Section)
    → claim_section cfg code token transfer sub now_ms b ≡ some (s, b')
    → Effect user (seconds now_ms) b b'
unfolding claim_section bind
claim_section-effect cfg code token transfer sub now_ms b b' s e =
    elim (Bool-cases (is_valid_payment_code cfg.decode code)) [
      | inr bad ↦ unchanged (rw (claim_section, bad) at e)
      | inl good ↦ elim (Option-cases (inactive_reason sub)) [
        | inr (why, dead) ↦ unchanged (rw (claim_section, good, dead) at e)
        | inl live ↦ elim (sum-cases (period_facts cfg sub)) [
          | inl (why, f) ↦ unchanged (rw (claim_section, good, live, f) at e)
          | inr (facts, f) ↦
              elim (Bool-cases
                (may_settle (owner_of (get google token b.subs.subscriptions) sub) code)) [
                  | inr other ↦
                      take_over-effect cfg code token transfer facts now_ms b b' s
                        (rw (claim_section, good, live, f, other) at e)
                  | inl mine ↦
                      let e' = rw (claim_section, good, live, f, mine) at e in
                      let same : record b {
                        subs = upsert google token code facts.plan none (seconds now_ms) b.subs;
                      }
                          ≡ b' =
                        cc in
                      rw (← same) (record {
                        subs =
                            bound token code facts.plan
                              (may_settle-IsOwner token code sub b.subs mine);
                        queue = unpaid;
                      })
                ]
        ]
      ]
    ]
  where
    unchanged :
        {s s' : Section}
        → ◌≡◌ {A = Option (Section × Bridge)} (some (s', b)) (some (s, b'))
        → Effect user (seconds now_ms) b b'
    unchanged q = let same : b ≡ b' = cc in rw (← same) (still user (seconds now_ms) b)

-- `adminRebind` makes one grant at most, and one move.
pub admin_rebind-effect :
    (cfg : GoogleConfig) (token code : String) (before : Option SubscriptionRow)
    (answered : Option PlaySubscription) (now_ms : ℕ) (b b' : Bridge) (r : Rebound)
    → admin_rebind cfg token code before answered now_ms b ≡ some (r, b')
    → Effect admin (seconds now_ms) b b'
unfolding admin_rebind
admin_rebind-effect cfg token code none answered now_ms b b' r e =
    let same : b ≡ b' = cc in rw (← same) (still admin (seconds now_ms) b)
admin_rebind-effect cfg token code (some known) none now_ms b b' r e =
    let rebound = rebind google token code known.plan admin 0 (seconds now_ms) b.subs in
    let same : record b { subs = rebound.0 } ≡ b' = cc in
    rw (← same) (record { subs = moved token code known.plan 0 tt; queue = unpaid })
admin_rebind-effect cfg token code (some known) (some sub) now_ms b b' r e =
    elim (Option-cases (inactive_reason sub)) [
      | inr (why, dead) ↦ unchanged (rw (admin_rebind, dead) at e)
      | inl live ↦ elim (sum-cases (period_facts cfg sub)) [
        | inl (why, f) ↦ unchanged (rw (admin_rebind, live, f) at e)
        | inr (facts, f) ↦ elim (Option-cases (transfer_to cfg code token facts admin now_ms b)) [
          | inl n ↦ cc (rw (admin_rebind, live, f, n) at e)
          | inr ((m, after), done) ↦
              let e' = rw (admin_rebind, live, f, done) at e in
              let same : after ≡ b' = cc in
              rw (← same) (transfer_to-effect cfg code token facts admin now_ms b after m tt done)
        ]
      ]
    ]
  where
    unchanged :
        {r' : Rebound}
        → ◌≡◌ {A = Option (Rebound × Bridge)} (some (r', b)) (some (r, b'))
        → Effect admin (seconds now_ms) b b'
    unchanged q = let same : b ≡ b' = cc in rw (← same) (still admin (seconds now_ms) b)
