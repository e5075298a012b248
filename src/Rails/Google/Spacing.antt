-- ===== src/Rails/Google/Spacing.antt =====
-- The thirty days between two moves of a subscription (bridge/src/rails/google.ts, with
-- bridge/src/transfers.ts).
use text.Mathlib.Text.{◌==◌ as str_eq}
use text.Mathlib.TextEquality.{eq_iff}
use cumulusvpn.Common.{
  ℕ, ◌+◌, ◌≤◌, ◌≡◌, ◌≢◌, refl, sym, ap, ◌∙◌, inl, inr, String, Bool, true, ◌&&◌, Option, none, some,
  List, [], ◌∷◌, ◌++◌, keep, if◌then◌else◌, Bool-cases, arith,
}
use cumulusvpn.Payments.{google, rail_eq}
use cumulusvpn.Subscriptions.{
  refunded, SubscriptionsDb, TransferRow, TransferActor, user, admin, get, upsert, rebind,
  set_status,
}
use cumulusvpn.Subscriptions.Moves.{
  moved_at, moved_at-upsert, moved_at-set_status, moved_at-rebind, get-rebind_ne,
}
use cumulusvpn.Transfers.{Plan, transfer_available_at, transfer_interval_s}
use cumulusvpn.Rails.Play.{GoogleConfig}
use cumulusvpn.Rails.Google.Effects.{MayMove, SubsEffect, kept, bound, marked, moved}
use cumulusvpn.Rails.Google.System.{State, Reach, here, next, Step-Effect}

abbrev pub is_move_of : String → TransferRow → Bool
is_move_of token x = rail_eq x.rail google && str_eq x.external_id token

-- The rows of the audit table for one purchase token, oldest first.
abbrev pub moves_of : String → List TransferRow → List TransferRow
moves_of token xs = keep (is_move_of token) xs

-- A move by a user comes thirty days after the one before it, or later; support may move at any time.
abbrev pub IsLateEnough : TransferActor → Option ℕ → ℕ → Type 0
IsLateEnough admin last now = Unit
IsLateEnough user none now = Unit
IsLateEnough user (some t) now = t + transfer_interval_s ≤ now

-- The moves from `last` on keep their distance, and the subscription says when the latest was.
abbrev pub IsSpacedFrom : Option ℕ → List TransferRow → Option ℕ → Type 0
IsSpacedFrom last [] latest = latest ≡ last
IsSpacedFrom last (x ∷ xs) latest =
    IsLateEnough x.actor last x.created_at × IsSpacedFrom (some x.created_at) xs latest

abbrev pub IsSpaced : String → SubscriptionsDb → Type 0
IsSpaced token db =
    IsSpacedFrom none (moves_of token db.transfers) (moved_at (get google token db.subscriptions))

IsSpacedFrom-append :
    (last : Option ℕ) (xs : List TransferRow) (x : TransferRow) (latest : Option ℕ)
    → IsSpacedFrom last xs latest
    → IsLateEnough x.actor latest x.created_at
    → IsSpacedFrom last (xs ++ x ∷ []) (some x.created_at)
IsSpacedFrom-append last [] x latest h late = (rw h at late, refl)
IsSpacedFrom-append last (y ∷ xs) x latest h late =
    (h.0, IsSpacedFrom-append (some y.created_at) xs x latest h.1 late)

keep-append_one :
    (p : TransferRow → Bool) (xs : List TransferRow) (x : TransferRow)
    → keep p (xs ++ x ∷ []) ≡ keep p xs ++ (if p x then x ∷ [] else [])
keep-append_one p [] x = refl
keep-append_one p (y ∷ xs) x = elim (Bool-cases (p y)) [
  | inl yes_kept ↦ rw yes_kept (ap (λ zs. y ∷ zs) (keep-append_one p xs x))
  | inr left_out ↦ rw left_out (keep-append_one p xs x)
]

pub MayMove-IsLateEnough :
    (actor : TransferActor) (last : Option ℕ) (now : ℕ)
    → MayMove actor last now
    → IsLateEnough actor last now
unfolding transfer_available_at
MayMove-IsLateEnough admin last now m = tt
MayMove-IsLateEnough user none now m = tt
MayMove-IsLateEnough user (some t) now m = ground arith

append_nil : (xs : List TransferRow) → xs ++ [] ≡ xs
append_nil [] = refl
append_nil (x ∷ xs) = ap (λ ys. x ∷ ys) (append_nil xs)

-- The audit row of a move stands last.
rebind-moves :
    (actor : TransferActor) (token' token code : String) (plan : Plan) (days now : ℕ)
    (db : SubscriptionsDb)
    → (x : TransferRow) × (moves_of token'
          (rebind google token code plan actor days now db).0.transfers
        ≡ moves_of token' db.transfers ++ (if str_eq token token' then x ∷ [] else []))
      × (x.actor ≡ actor)
      × (x.created_at ≡ now)
unfolding rebind
rebind-moves actor token' token code plan days now db =
    (_, keep-append_one (is_move_of token') db.transfers _, refl, refl)

-- A move joins the moves of its own subscription, at their end.
rebind-IsSpaced_self :
    (actor : TransferActor) (token code : String) (plan : Plan) (days now : ℕ)
    (db : SubscriptionsDb) (x : TransferRow)
    → moves_of token (rebind google token code plan actor days now db).0.transfers
      ≡ moves_of token db.transfers ++ x ∷ []
    → x.actor ≡ actor
    → x.created_at ≡ now
    → MayMove actor (moved_at (get google token db.subscriptions)) now
    → IsSpaced token db
    → IsSpaced token (rebind google token code plan actor days now db).0
rebind-IsSpaced_self actor token code plan days now db x moves by when may h =
    let late : IsLateEnough x.actor (moved_at (get google token db.subscriptions)) x.created_at =
      rw (by, when) (MayMove-IsLateEnough actor _ now may) in
    let latest : moved_at
          (get google token (rebind google token code plan actor days now db).0.subscriptions)
        ≡ some x.created_at =
      moved_at-rebind google token code plan actor days now db ∙ ap some (sym when) in
    rw (moves, latest) (IsSpacedFrom-append none (moves_of token db.transfers) x _ h late)

rebind-IsSpaced :
    (actor : TransferActor) (token' token code : String) (plan : Plan) (days now : ℕ)
    (db : SubscriptionsDb)
    → MayMove actor (moved_at (get google token db.subscriptions)) now
    → IsSpaced token' db
    → IsSpaced token' (rebind google token code plan actor days now db).0
rebind-IsSpaced actor token' token code plan days now db may h =
    elim (Bool-cases (str_eq token token')) [
      | inr other ↦
          let apart : token ≢ token' = λ e. ground (arith, eq_iff token token') in
          let (x, moves, by, when) = rebind-moves actor token' token code plan days now db in
          rw
            (
              moves,
              other,
              append_nil,
              get-rebind_ne google google token token' code plan actor days now db (inr apart),
            )
            h
      | inl mine ↦
          let same : token ≡ token' = ground (arith, eq_iff token token') in
          let (x, moves, by, when) = rebind-moves actor token token code plan days now db in
          let self : str_eq token token ≡ true = ground (arith, eq_iff token token) in
          rw (← same) (
            rebind-IsSpaced_self actor token code plan days now db x (rw self at moves) by when may
              (rw (← same) at h))
    ]

SubsEffect-IsSpaced :
    {actor : TransferActor} {now : ℕ} {db db' : SubscriptionsDb} (token : String)
    → SubsEffect actor now db db'
    → IsSpaced token db
    → IsSpaced token db'
SubsEffect-IsSpaced token kept h = h
SubsEffect-IsSpaced {actor} {now} {db} token (bound ext code plan o) h =
    rw (moved_at-upsert google google ext token code plan none now db) (unfold upsert in h)
SubsEffect-IsSpaced {actor} {now} {db} token (marked ext) h =
    rw (moved_at-set_status google google ext token refunded now db) (unfold set_status in h)
SubsEffect-IsSpaced {actor} {now} {db} token (moved ext code plan days may) h =
    rebind-IsSpaced actor token ext code plan days now db may h

-- In every history of the handlers, interleaved in any way, each move of a subscription that a user made
-- came at least thirty days after the move before it, if that was so to begin with.
pub Reach-IsSpaced :
    {cfg : GoogleConfig} {s t : State} (token : String)
    → Reach cfg s t
    → IsSpaced token s.bridge.subs
    → IsSpaced token t.bridge.subs
Reach-IsSpaced token here h = h
Reach-IsSpaced token (next r st) h =
    SubsEffect-IsSpaced token (Step-Effect st).1.subs (Reach-IsSpaced token r h)
