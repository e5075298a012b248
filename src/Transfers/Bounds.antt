-- ===== src/Transfers/Bounds.antt =====
-- The bounds of bridge/src/transfers.ts.
use cumulusvpn.Common.{ℕ, ◌+◌, ◌≤◌, ◌<◌, ◌≡◌, ◌↔◌, none, some, arith}
use cumulusvpn.Transfers.{transfer_interval_s, transfer_available_at}

-- A subscription that moved may move again exactly when thirty days have passed, and the answer is
-- that moment.
pub transfer_available_at_iff :
    (moved now : ℕ)
    → ((transfer_available_at (some moved) now ≡ none) ↔ (moved + transfer_interval_s ≤ now))
      × ((now < moved + transfer_interval_s)
          → transfer_available_at (some moved) now ≡ some (moved + transfer_interval_s))
unfolding transfer_available_at
transfer_available_at_iff moved now = ground arith
