-- ===== src/Transfers/Examples.antt =====
-- Nine and a half days before the end of an annual plan.
use cumulusvpn.Common.{ℕ}

abbrev end : ℕ
end = 1000000000

abbrev now : ℕ
now = 179200000
