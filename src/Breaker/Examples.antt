-- ===== src/Breaker/Examples.antt =====
-- A breaker that allows one attempt in a window of ten.
use cumulusvpn.Common.{ℕ, ◌+◌, ◌≡◌, ◌⊎◌, refl, true, false, [], ◌∷◌, ltb, if◌then◌else◌, arith}
use cumulusvpn.Breaker.{BreakerConfig, closed, is_open, record_invalid, alert, last_sent}
use cumulusvpn.Breaker.Trips.{IsQuiet, IsUpTo, after, too_many, record_invalid_trips}

abbrev config : BreakerConfig
config = record { max_attempts = 1; window_ms = 10; cooldown_ms = 60 }

-- Attempts at 3 and 20: the first has left the window of the second.
two-IsQuiet : IsQuiet config (3 ∷ (20 ∷ [])) closed
unfolding record_invalid is_open
two-IsQuiet = (refl, (refl, tt))

two-IsUpTo : IsUpTo 25 (3 ∷ (20 ∷ []))
two-IsUpTo = (omega arith, omega arith)

record_invalid_trips_example :
    ((record_invalid config 25 (after config (3 ∷ (20 ∷ [])) closed)).1
      ≡ too_many config 25 (3 ∷ (20 ∷ [])) closed)
    × (is_open 84 (record_invalid config 25 (after config (3 ∷ (20 ∷ [])) closed)).0 ≡ (
        if too_many config 25 (3 ∷ (20 ∷ [])) closed then ltb 84 (25 + 60) else is_open 84 closed))
    × ((too_many config 25 (3 ∷ (20 ∷ [])) closed ≡ false)
        ⊎ ((record_invalid config 25 (after config (3 ∷ (20 ∷ [])) closed)).0.attempts ≡ []))
record_invalid_trips_example =
    record_invalid_trips config 25 84 (3 ∷ (20 ∷ [])) closed refl two-IsUpTo two-IsQuiet

trip_run : too_many config 25 (3 ∷ (20 ∷ [])) closed ≡ true
unfolding is_open
trip_run = refl

-- The clock is far from 0, which an alert that was never sent counts as its time.
abbrev clock : ℕ
clock = 30000000

alert_run : (alert true "low" clock []).1 ≡ true
unfolding alert last_sent
alert_run = refl
