-- ===== src/Breaker.antt =====
-- bridge/src/breaker.ts (`InvalidAttemptBreaker`) and the throttle of bridge/src/worker/alerts.ts
-- (`Alerter`). Times are milliseconds of the caller's clock, an argument of each call.
pub mod Trips
mod Examples
use cumulusvpn.Common.{
  ℕ, ◌+◌, ◌-◌, Bool, true, false, ◌&&◌, not, Option, none, some, String, List, [], ◌∷◌, ◌++◌, ltb,
  if◌then◌else◌, keep, length,
}
use text.Mathlib.Text.{◌==◌ as str_eq}

pub record BreakerConfig : Type 0 where
  pub max_attempts : ℕ
  pub window_ms : ℕ
  pub cooldown_ms : ℕ

pub record Breaker : Type 0 where
  pub attempts : List ℕ
  pub open_until : ℕ

abbrev pub closed : Breaker
closed = record { attempts = []; open_until = 0 }

unfoldable pub is_open : ℕ → Breaker → Bool
is_open now b = ltb now b.open_until

-- `t > now - windowMs`, without the subtraction
abbrev pub in_window : BreakerConfig → ℕ → ℕ → Bool
in_window c now t = ltb now (t + c.window_ms)

abbrev pub recent : BreakerConfig → ℕ → List ℕ → List ℕ
recent c now ts = keep (in_window c now) ts ++ now ∷ []

-- The breaker after one invalid attempt, and whether `onTrip` is called.
unfoldable pub record_invalid : BreakerConfig → ℕ → Breaker → Breaker × Bool
unfolding is_open
record_invalid c now b =
    if ltb c.max_attempts (length (recent c now b.attempts)) && not (is_open now b)
    then (record { attempts = []; open_until = now + c.cooldown_ms }, true)
    else (record b { attempts = recent c now b.attempts }, false)

-- `lastSent`: the time of the last alert of each kind
abbrev pub Sent : Type 0
Sent = List (String × ℕ)

unfoldable last_sent : String → Sent → ℕ
last_sent kind [] = 0
last_sent kind ((k, t) ∷ sent) = if str_eq k kind then t else last_sent kind sent

abbrev pub throttle_ms : ℕ
throttle_ms = 21600000

-- Whether the webhook is called, and the times afterwards. `has_url`: a webhook is configured.
unfoldable pub alert : Bool → String → ℕ → Sent → Sent × Bool
unfolding last_sent
alert has_url kind now sent =
    if not has_url
    then (sent, false)
    else if ltb now (last_sent kind sent + throttle_ms)
    then (sent, false)
    else ((kind, now) ∷ sent, true)
