-- ===== src/Price/Payout.antt =====
-- Sizing a payout: `zatsForDays` of bridge/src/grants.ts against the rule by which the gateways
-- (gateway/internal/entitle/entitle.go, `grant` and `ValidPayment`) turn an amount into days.
use cumulusvpn.Common.{
  ℕ, suc, ◌+◌, ◌*◌, ◌/◌, ◌≤◌, ◌<◌, ◌≡◌, inl, inr, Bool-cases, ltb→lt, ltb, if◌then◌else◌, arith,
}
use native.Mathlib.Nat.{le-div_iff_mul-le, div-lt_iff_lt-mul, div-eq_of_lt}
use cumulusvpn.Price.{Schedule, IsIncreasing, effective, max_effective}
use cumulusvpn.Price.Boundaries.{effective-le-max_effective}

-- `Math.ceil((priceZats * days) / 30)`
unfoldable pub zats_for_days : ℕ → ℕ → ℕ
zats_for_days price days = (price * days + 29) / 30

-- `int(30 * (amount + 1e-9) / p)` after the check `30 * (amount + 1e-9) < p`; 1e-9 FLUX is a tenth of
-- a zat, so the numerator is `30 * amount + 3` in zats.
unfoldable pub gateway_days : ℕ → ℕ → ℕ
gateway_days price amount = if ltb (30 * amount + 3) price then 0 else (30 * amount + 3) / price

zats_for_days-bounds :
    (price days : ℕ)
    → (price * days ≤ 30 * zats_for_days price days)
      × (30 * zats_for_days price days ≤ price * days + 29)
unfolding zats_for_days
zats_for_days-bounds price days = (omega arith, omega arith)

guarded_div : (n p : ℕ) → (if ltb n p then 0 else n / p) ≡ n / p
guarded_div n p = elim (Bool-cases (ltb n p)) [
  | inl small ↦ rw (small, div-eq_of_lt (ltb→lt n p small))
  | inr large ↦ rw large
]

le-div : (j d n : ℕ) → 0 < j → d * j ≤ n → d ≤ n / j
le-div j d n pos h = (le-div_iff_mul-le pos).1 h

floor_unique : (p d z : ℕ) → p * d ≤ 30 * z → 30 * z ≤ p * d + 29 → 32 < p → (30 * z + 3) / p ≡ d
floor_unique p d z lo hi h =
    let pos : 0 < p = omega arith in
    let up : (30 * z + 3) / p < suc d = (div-lt_iff_lt-mul pos).1 (omega arith) in
    omega (arith, le-div p d (30 * z + 3) pos (omega arith))

floor_least : (p j d z : ℕ) → p * d ≤ 30 * z → 0 < j → j ≤ p → d ≤ (30 * z + 3) / j
floor_least p j d z lo pos h =
    let small : d * j ≤ p * d = grind arith in le-div j d (30 * z + 3) pos (omega arith)

-- At the price that it was sized by, a payout grants exactly the days bought (a price of 33 zats or
-- more; the least real price is far above).
pub gateway_days-zats_for_days :
    (price days : ℕ) → 32 < price → gateway_days price (zats_for_days price days) ≡ days
unfolding gateway_days
gateway_days-zats_for_days price days h =
    let (lo, hi) = zats_for_days-bounds price days in
    rw guarded_div (floor_unique price days (zats_for_days price days) lo hi h)

days-le-gateway_days :
    (price judged days : ℕ)
    → 0 < judged
    → judged ≤ price
    → days ≤ gateway_days judged (zats_for_days price days)
unfolding gateway_days
days-le-gateway_days price judged days p h =
    let (lo, hi) = zats_for_days-bounds price days in
    rw guarded_div (floor_least price judged days (zats_for_days price days) lo p h)

-- A payout sized by the highest effective price from the tip to the transaction's expiry grants at
-- least the days bought at whichever of these heights it is mined, if the entries increase and the
-- price there is not 0.
pub days-le-gateway_days_mined :
    (s : Schedule) (tip expiry mined days : ℕ)
    → IsIncreasing s
    → 0 < effective mined s
    → tip ≤ mined
    → mined ≤ expiry
    → days ≤ gateway_days (effective mined s) (zats_for_days (max_effective tip expiry s) days)
days-le-gateway_days_mined s tip expiry mined days i p a b =
    days-le-gateway_days _ _ days p (effective-le-max_effective s tip expiry mined i a b)
