-- ===== src/Price/Examples.antt =====
-- Prices, payouts and days at a schedule whose price halves at height 20000, after bridge/src/price.ts.
use cumulusvpn.Common.{ℕ, ◌+◌, ◌≤◌, ◌≡◌, refl, arith}
use cumulusvpn.Price.{
  Schedule, base, entry, grace_blocks, effective, at, max_effective, raise_all, raise, index, grace,
  IsIncreasing,
}
use cumulusvpn.Common.{inr}
use cumulusvpn.Common.Decimal.{codes}
use cumulusvpn.Common.Numeral.{after_unit, before_unit, number_up_to, digits}
use cumulusvpn.Common.Text.{has_unit, split_unit, trim, trim_start, is_space}
use cumulusvpn.Price.Parse.{
  parse, parse_parts, add_entry, place, start_for, height_of, price_zats, IsPositive, HeadIsFirst,
  parse-IsIncreasing,
}
use cumulusvpn.Price.Window.{effective_attained}
use cumulusvpn.Price.Boundaries.{effective-le-max_effective}
use cumulusvpn.Price.Payout.{zats_for_days, gateway_days, days-le-gateway_days_mined}

abbrev halved : Schedule
halved = entry (record { start = 20000; zats = 500 }) (base 1000)

halved-IsIncreasing : IsIncreasing halved
halved-IsIncreasing = (omega arith, tt)

-- The cheaper price counts from its height on, and a dearer one only after the grace.
prices :
    (effective 19999 halved ≡ 1000)
    × (effective 20000 halved ≡ 500)
    × (max_effective 19990 20030 halved ≡ 1000)
unfolding effective at grace index max_effective raise_all raise
prices = (refl, refl, refl)

effective_attained_example :
    (k : ℕ) × (k ≤ 21000) × (21000 ≤ k + grace_blocks) × (effective 21000 halved ≡ at k halved)
effective_attained_example = effective_attained 21000 halved halved-IsIncreasing

effective-le-max_effective_example : effective 20010 halved ≤ max_effective 19990 20030 halved
effective-le-max_effective_example =
    effective-le-max_effective halved 19990 20030 20010 halved-IsIncreasing (omega arith)
      (omega arith)

price_run : effective 20010 halved ≡ 500
unfolding effective at grace index
price_run = refl

days-le-gateway_days_mined_example :
    30 ≤ gateway_days (effective 20010 halved) (zats_for_days (max_effective 19990 20030 halved) 30)
days-le-gateway_days_mined_example =
    days-le-gateway_days_mined halved 19990 20030 20010 30 halved-IsIncreasing
      (omega (arith, price_run)) (omega arith) (omega arith)

-- A schedule of two entries, with blanks around them.
parse_run :
    parse (codes " 0.00001, 0.000005@20000 ")
    ≡ inr (entry (record { start = 20000; zats = 500 }) (base 1000))
unfolding parse parse_parts add_entry place start_for height_of price_zats after_unit before_unit
    number_up_to digits has_unit split_unit trim trim_start is_space
parse_run = refl

parse-IsIncreasing_example :
    HeadIsFirst (split_unit 44 (trim (codes " 0.00001, 0.000005@20000 ")))
    × IsIncreasing halved
    × IsPositive halved
parse-IsIncreasing_example = parse-IsIncreasing (codes " 0.00001, 0.000005@20000 ") halved parse_run
