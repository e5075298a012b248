-- ===== src/Rails/Notices.antt =====
-- The notifications of bridge/src/rails/google.ts, `handleRtdn`, up to the answer of Play.
use Prim.Native.String
use cumulusvpn.Common.{ℕ, String, Bool, false, ◌||◌, not, Option, none, some, ◌==◌, if◌then◌else◌}
use cumulusvpn.Common.Decimal.{number_text}
use cumulusvpn.Payments.{google}
use cumulusvpn.Subscriptions.{SubscriptionsDb, refunded, get, set_status}
use cumulusvpn.Rails.{seconds}
use cumulusvpn.Rails.Play.{GoogleConfig, PlaySubscription, is_text, or_else, given}
use cumulusvpn.Rails.Google.{code_of}

-- A real-time developer notification, as JSON.parse gives it.
pub record Notification : Type 0 where
  pub package_name : Option String
  pub is_test : Bool
  pub has_subscription : Bool
  pub kind : Option ℕ
  pub token : Option String

-- What a notification comes to before Play is asked: an answer and the tables, or a re-verification of
-- a token whose known code, if any, was read now.
pub data Notified : Type 0 where
  ended : String → SubscriptionsDb → Notified
  re_verify : String → Option String → Notified

abbrev pub is_grant_kind : Option ℕ → Bool
is_grant_kind none = false
is_grant_kind (some n) = n == 1 || (n == 2 || n == 4)

abbrev pub is_revoke : Option ℕ → Bool
is_revoke none = false
is_revoke (some n) = n == 12

abbrev kind_text : Option ℕ → String
kind_text none = "undefined"
kind_text (some n) = number_text n

-- `handleRtdn` of a message that decodes, `none` for one that does not.
unfoldable pub handle_rtdn : GoogleConfig → Option Notification → ℕ → SubscriptionsDb → Notified
handle_rtdn cfg none now_ms subs = ended "rtdn:malformed" subs
handle_rtdn cfg (some note) now_ms subs =
    if note.is_test
    then ended "rtdn:test-notification" subs
    else if not (is_text note.package_name cfg.package_name)
    then ended "rtdn:wrong-package" subs
    else if not note.has_subscription
    then ended "rtdn:not-subscription" subs
    else elim (given note.token) [
      | none ↦ ended "rtdn:not-subscription" subs
      | some token ↦
          if is_revoke note.kind
          then ended "rtdn:revoked" (set_status google token refunded (seconds now_ms) subs)
          else if is_grant_kind note.kind
          then re_verify token (code_of (get google token subs.subscriptions))
          else ended (String.◌++◌ "rtdn:ignored:" (kind_text note.kind)) subs
    ]

-- The code that a re-verification runs for, from the answer of Play: `known?.payment_code ?? account`,
-- where an empty text is none.
unfoldable pub rtdn_code : Option String → PlaySubscription → Option String
rtdn_code known sub = given (or_else known sub.account_id)
