-- ===== src/Transfers.antt =====
-- bridge/src/transfers.ts: what is left of a billing period, and when a subscription may move again.
-- Moments are whole milliseconds or seconds; a period end that is not finite is `none`.
pub mod Bounds
mod Examples
use cumulusvpn.Common.{
  ℕ, ◌+◌, ◌-◌, ◌*◌, ◌/◌, ◌≤◌, ◌<◌, ◌≡◌, Option, none, some, min, max, ltb, leb, if◌then◌else◌,
}

pub data Plan : Type 0 where
  monthly annual : Plan

-- `PLAN_DAYS` of bridge/src/config.ts
abbrev pub plan_days : Plan → ℕ
plan_days monthly = 30
plan_days annual = 360

abbrev pub day_ms : ℕ
day_ms = 86400000

abbrev pub transfer_interval_s : ℕ
transfer_interval_s = 30 * 86400

-- `Math.ceil(ms / DAY_MS)`
abbrev pub ceil_days : ℕ → ℕ
ceil_days ms = (ms + (day_ms - 1)) / day_ms

unfoldable pub remaining_days : Option ℕ → ℕ → Plan → ℕ
remaining_days none now plan = 0
remaining_days (some end) now plan =
    if leb end now then 0 else min (plan_days plan) (max 1 (ceil_days (end - now)))

unfoldable pub transfer_available_at : Option ℕ → ℕ → Option ℕ
transfer_available_at none now = none
transfer_available_at (some t) now =
    if ltb now (t + transfer_interval_s) then some (t + transfer_interval_s) else none
