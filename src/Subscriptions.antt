-- ===== src/Subscriptions.antt =====
-- bridge/src/db/subscriptions.ts: the repository over `subscriptions`, `apple_token_map` and
-- `subscription_transfers`. The clock is an argument of each call.
pub mod Bindings
pub mod Moves
mod Examples
use cumulusvpn.Common.{
  ℕ, suc, ◌+◌, ◌≡◌, max, String, Bool, true, false, ◌&&◌, ◌||◌, Option, none, some, List, [], ◌∷◌,
  ◌++◌, ltb, leb, ◌==◌, if◌then◌else◌, any, find, keep, sort_by, take,
}
use mathlib.Core.Option
use text.Mathlib.Text.{◌==◌ as str_eq}
use cumulusvpn.Payments.{Rail, stripe, apple, google, voucher, rail_eq}
use cumulusvpn.Transfers.{Plan}

pub data SubscriptionStatus : Type 0 where
  active canceled refunded on_hold : SubscriptionStatus

pub data TransferActor : Type 0 where
  user admin : TransferActor

pub record SubscriptionRow : Type 0 where
  pub rail : Rail
  pub external_id : String
  pub payment_code : String
  pub plan : Plan
  pub status : SubscriptionStatus
  pub created_at : ℕ
  pub updated_at : ℕ
  pub stripe_customer_id : Option String
  pub transferred_at : Option ℕ
  pub apple_expires_ms : Option ℕ
  pub apple_sandbox : Option Bool

pub record TransferRow : Type 0 where
  pub id : ℕ
  pub rail : Rail
  pub external_id : String
  pub from_code : Option String
  pub to_code : String
  pub actor : TransferActor
  pub days : ℕ
  pub created_at : ℕ

pub record SubscriptionsDb : Type 0 where
  pub subscriptions : List SubscriptionRow
  pub transfers : List TransferRow
  pub apple_tokens : List (String × String)

-- The primary key (rail, external_id).
abbrev pub keyed : Rail → String → SubscriptionRow → Bool
keyed rail ext r = rail_eq r.rail rail && str_eq r.external_id ext

-- `INSERT … ON CONFLICT (rail, external_id) DO UPDATE SET …`
unfoldable pub insert_or :
    Rail
    → String
    → SubscriptionRow
    → (SubscriptionRow → SubscriptionRow)
    → List SubscriptionRow
    → List SubscriptionRow
insert_or rail ext fresh f [] = fresh ∷ []
insert_or rail ext fresh f (r ∷ rs) =
    if keyed rail ext r then f r ∷ rs else r ∷ insert_or rail ext fresh f rs

-- `get`
unfoldable pub get : Rail → String → List SubscriptionRow → Option SubscriptionRow
get rail ext [] = none
get rail ext (r ∷ rs) = if keyed rail ext r then some r else get rail ext rs

-- `COALESCE(a, b)`
abbrev coalesce : Option String → Option String → Option String
coalesce (some a) b = some a
coalesce none b = b

abbrev pub fresh_row :
    Rail → String → String → Plan → ℕ → Option String → Option ℕ → SubscriptionRow
fresh_row rail ext code plan now customer moved = record {
  rail = rail;
  external_id = ext;
  payment_code = code;
  plan = plan;
  status = active;
  created_at = now;
  updated_at = now;
  stripe_customer_id = customer;
  transferred_at = moved;
  apple_expires_ms = none;
  apple_sandbox = none;
}

abbrev pub refresh : String → Plan → ℕ → Option String → SubscriptionRow → SubscriptionRow
refresh code plan now customer r = record r {
  payment_code = code;
  plan = plan;
  status = active;
  updated_at = now;
  stripe_customer_id = coalesce customer r.stripe_customer_id;
}

unfoldable pub upsert :
    Rail → String → String → Plan → Option String → ℕ → SubscriptionsDb → SubscriptionsDb
upsert rail ext code plan customer now db = record db {
  subscriptions =
      insert_or rail ext (fresh_row rail ext code plan now customer none)
        (refresh code plan now customer) db.subscriptions;
}

abbrev newest_update : SubscriptionRow → SubscriptionRow → Bool
newest_update a b = ltb b.updated_at a.updated_at

unfoldable pub list_for_code : String → SubscriptionsDb → List SubscriptionRow
list_for_code code db =
    sort_by newest_update (keep (λ r. str_eq r.payment_code code) db.subscriptions)

abbrev pub move : String → Plan → ℕ → SubscriptionRow → SubscriptionRow
move code plan now r = record r {
  payment_code = code;
  plan = plan;
  updated_at = now;
  transferred_at = some now;
}

unfoldable pub max_transfer_id : List TransferRow → ℕ
max_transfer_id [] = 0
max_transfer_id (t ∷ ts) = max t.id (max_transfer_id ts)

abbrev pub previous_code : Rail → String → SubscriptionsDb → Option String
previous_code rail ext db = Option.map (λ r. r.payment_code) (get rail ext db.subscriptions)

-- The tables after the move, and the code that was bound before.
unfoldable pub rebind :
    Rail
    → String
    → String
    → Plan
    → TransferActor
    → ℕ
    → ℕ
    → SubscriptionsDb
    → SubscriptionsDb × Option String
rebind rail ext code plan actor days now db = (
  record db {
    subscriptions =
        insert_or rail ext (fresh_row rail ext code plan now none (some now)) (move code plan now)
          db.subscriptions;
    transfers =
        db.transfers
        ++ record {
          id = suc (max_transfer_id db.transfers);
          rail = rail;
          external_id = ext;
          from_code = previous_code rail ext db;
          to_code = code;
          actor = actor;
          days = days;
          created_at = now;
        }
          ∷ [];
  },
  previous_code rail ext db,
)

abbrev is_code : Option String → String → Bool
is_code none code = false
is_code (some c) code = str_eq c code

abbrev newest_transfer : TransferRow → TransferRow → Bool
newest_transfer a b =
    ltb b.created_at a.created_at || (a.created_at == b.created_at && ltb b.id a.id)

unfoldable pub transfers_for_code : String → ℕ → SubscriptionsDb → List TransferRow
transfers_for_code code limit db = take limit (
    sort_by newest_transfer
      (keep (λ t. is_code t.from_code code || str_eq t.to_code code) db.transfers))

-- `apple_expires_ms IS NULL OR apple_expires_ms <= ?`
abbrev pub not_later : Option ℕ → ℕ → Bool
not_later none ms = true
not_later (some t) ms = leb t ms

abbrev pub note_row : String → ℕ → Bool → SubscriptionRow → SubscriptionRow
note_row ext ms sandbox r =
    if keyed apple ext r && not_later r.apple_expires_ms ms
    then record r { apple_expires_ms = some ms; apple_sandbox = some sandbox }
    else r

unfoldable pub note_expiry_rows : String → ℕ → Bool → List SubscriptionRow → List SubscriptionRow
note_expiry_rows ext ms sandbox [] = []
note_expiry_rows ext ms sandbox (r ∷ rs) =
    note_row ext ms sandbox r ∷ note_expiry_rows ext ms sandbox rs

unfoldable pub note_apple_expiry : String → ℕ → Bool → SubscriptionsDb → SubscriptionsDb
unfolding note_expiry_rows
note_apple_expiry ext ms sandbox db = record db {
  subscriptions = note_expiry_rows ext ms sandbox db.subscriptions;
}

unfoldable pub set_status_rows :
    Rail → String → SubscriptionStatus → ℕ → List SubscriptionRow → List SubscriptionRow
set_status_rows rail ext status now [] = []
set_status_rows rail ext status now (r ∷ rs) =
    (if keyed rail ext r then record r { status = status; updated_at = now } else r)
    ∷ set_status_rows rail ext status now rs

unfoldable pub set_status :
    Rail → String → SubscriptionStatus → ℕ → SubscriptionsDb → SubscriptionsDb
unfolding set_status_rows
set_status rail ext status now db = record db {
  subscriptions = set_status_rows rail ext status now db.subscriptions;
}

-- `toLowerCase` is the runtime's: an argument.
unfoldable pub put_token : String → String → List (String × String) → List (String × String)
put_token token code [] = (token, code) ∷ []
put_token token code ((k, v) ∷ m) =
    if str_eq k token then (k, code) ∷ m else (k, v) ∷ put_token token code m

unfoldable pub find_token : String → List (String × String) → Option String
find_token token [] = none
find_token token ((k, v) ∷ m) = if str_eq k token then some v else find_token token m

unfoldable pub map_apple_token :
    (String → String) → String → String → SubscriptionsDb → SubscriptionsDb
unfolding put_token
map_apple_token lower token code db = record db {
  apple_tokens = put_token (lower token) code db.apple_tokens;
}

unfoldable pub code_for_apple_token : (String → String) → String → SubscriptionsDb → Option String
unfolding find_token
code_for_apple_token lower token db = find_token (lower token) db.apple_tokens
