-- ===== src/Rails/Google/Owner.antt =====
-- A subscription that has moved stays with the code it moved to (bridge/src/rails/google.ts).
use text.Mathlib.Text.{◌==◌ as str_eq}
use text.Mathlib.TextEquality.{eq_iff}
use cumulusvpn.Common.{
  ℕ, ◌≡◌, ◌≢◌, ◌⊎◌, ◌∙◌, refl, inl, inr, String, Bool, true, false, none, some, if◌then◌else◌,
  Bool-cases, arith,
}
use cumulusvpn.Payments.{google}
use cumulusvpn.Subscriptions.{
  SubscriptionRow, SubscriptionsDb, TransferActor, get, keyed, upsert, rebind, set_status, refunded,
  refresh,
}
use cumulusvpn.Subscriptions.Bindings.{get-upsert, get-upsert_ne}
use cumulusvpn.Subscriptions.Moves.{
  moved_at, moved_at-rebind, get-rebind_ne, with_status, get-set_status,
}
use cumulusvpn.Transfers.{Plan}
use cumulusvpn.Rails.Play.{GoogleConfig}
use cumulusvpn.Rails.Google.Effects.{MayMove, IsOwner, SubsEffect, kept, bound, marked, moved}
use cumulusvpn.Rails.Google.Spacing.{IsLateEnough, MayMove-IsLateEnough}
use cumulusvpn.Rails.Google.System.{State, Step, Step-Effect}

-- The purchase is bound to `code`, and moved there at `t`.
pub record IsMovedTo (token code : String) (t : ℕ) (db : SubscriptionsDb) : Type 0 where
  pub row : SubscriptionRow
  pub found : get google token db.subscriptions ≡ some row
  pub owner : row.payment_code ≡ code
  pub when : row.transferred_at ≡ some t

-- What a step does to it: nothing, or a later move.
abbrev pub Stays : TransferActor → String → String → ℕ → SubscriptionsDb → Type 0
Stays actor token code t db =
    IsMovedTo token code t db
    ⊎ ((now : ℕ) × (moved_at (get google token db.subscriptions) ≡ some now)
        × IsLateEnough actor (some t) now)

upsert-IsMovedTo :
    (token ext code code' : String) (plan : Plan) (t now : ℕ) (db : SubscriptionsDb)
    → str_eq code "" ≡ false
    → IsOwner ext code' db
    → IsMovedTo token code t db
    → IsMovedTo token code t (upsert google ext code' plan none now db)
upsert-IsMovedTo token ext code code' plan t now db filled o m =
    elim (Bool-cases (str_eq ext token)) [
      | inr other ↦
          let apart : ext ≢ token = λ e. ground (arith, eq_iff ext token) in
          record {
            row = m.row;
            found =
                get-upsert_ne google google ext token code' plan none now db (inr apart) ∙ m.found;
            owner = m.owner;
            when = m.when;
          }
      | inl mine ↦
          let same : ext ≡ token = ground (arith, eq_iff ext token) in
          let own : code' ≡ code =
            o m.row t (rw same m.found) m.when (rw m.owner filled) ∙ m.owner in
          record {
            row = refresh code' plan now none m.row;
            found = rw (same, get-upsert google token code' plan none now db, m.found) refl;
            owner = own;
            when = m.when;
          }
    ]

set_status-IsMovedTo :
    (token ext code : String) (t now : ℕ) (db : SubscriptionsDb)
    → IsMovedTo token code t db
    → IsMovedTo token code t (set_status google ext refunded now db)
unfolding set_status
set_status-IsMovedTo token ext code t now db m = record {
  row = with_status google ext refunded now m.row;
  found = get-set_status google google ext token refunded now db.subscriptions m.row m.found;
  owner = kept_code (keyed google ext m.row);
  when = kept_move (keyed google ext m.row);
}
  where
    kept_code :
        (b : Bool)
        → (if b then record m.row { status = refunded; updated_at = now } else m.row).payment_code
          ≡ code
    kept_code true = m.owner
    kept_code false = m.owner

    kept_move :
        (b : Bool)
        → (if b then record m.row { status = refunded; updated_at = now } else m.row).transferred_at
          ≡ some t
    kept_move true = m.when
    kept_move false = m.when

rebind-Stays :
    (actor : TransferActor) (token ext code code' : String) (plan : Plan) (days t now : ℕ)
    (db : SubscriptionsDb)
    → MayMove actor (moved_at (get google ext db.subscriptions)) now
    → IsMovedTo token code t db
    → Stays actor token code t (rebind google ext code' plan actor days now db).0
rebind-Stays actor token ext code code' plan days t now db may m =
    elim (Bool-cases (str_eq ext token)) [
      | inr other ↦
          let apart : ext ≢ token = λ e. ground (arith, eq_iff ext token) in
          inl (record {
            row = m.row;
            found =
                get-rebind_ne google google ext token code' plan actor days now db (inr apart)
                ∙ m.found;
            owner = m.owner;
            when = m.when;
          })
      | inl mine ↦
          let same : ext ≡ token = ground (arith, eq_iff ext token) in
          let before : moved_at (get google ext db.subscriptions) ≡ some t =
            rw (same, m.found) m.when in
          inr (
            now,
            rw (← same) (moved_at-rebind google ext code' plan actor days now db),
            MayMove-IsLateEnough actor (some t) now (rw before at may),
          )
    ]

SubsEffect-Stays :
    {actor : TransferActor} {now : ℕ} {db db' : SubscriptionsDb} (token code : String) (t : ℕ)
    → str_eq code "" ≡ false
    → SubsEffect actor now db db'
    → IsMovedTo token code t db
    → Stays actor token code t db'
SubsEffect-Stays token code t filled kept m = inl m
SubsEffect-Stays {actor} {now} {db} token code t filled (bound ext code' plan o) m =
    inl (upsert-IsMovedTo token ext code code' plan t now db filled o m)
SubsEffect-Stays {actor} {now} {db} token code t filled (marked ext) m =
    inl (set_status-IsMovedTo token ext code t now db m)
SubsEffect-Stays {actor} {now} {db} token code t filled (moved ext code' plan days may) m =
    rebind-Stays actor token ext code code' plan days t now db may m

-- A moved subscription stays with its code whatever handler runs, a verification by the device that it
-- was moved away from included, until it is moved again: by support, or by a user thirty days later.
pub Step-Stays :
    {cfg : GoogleConfig} {actor : TransferActor} {s s' : State} (token code : String) (t : ℕ)
    → str_eq code "" ≡ false
    → Step cfg actor s s'
    → IsMovedTo token code t s.bridge.subs
    → Stays actor token code t s'.bridge.subs
Step-Stays token code t filled st m = SubsEffect-Stays token code t filled (Step-Effect st).1.subs m
