-- ===== src/Breaker/Trips.antt =====
-- When the breaker of bridge/src/breaker.ts trips, and how often the alerts of
-- bridge/src/worker/alerts.ts go out.
use cumulusvpn.Common.{
  ℕ, ◌+◌, ◌≤◌, ◌<◌, ◌≡◌, refl, ap, ◌∙◌, ◌⊎◌, Bool, true, false, ◌&&◌, not, String, List, [], ◌∷◌,
  ◌++◌, ltb, if◌then◌else◌, keep, length, inl, inr, Bool-cases, ltb→lt, lt→ltb, length-append,
  arith,
}
use text.Mathlib.TextEquality.{eq_iff}
use cumulusvpn.Breaker.{
  BreakerConfig, Breaker, is_open, in_window, recent, record_invalid, Sent, last_sent, throttle_ms,
  alert,
}

-- The attempts of the window, the new one included.
abbrev load : BreakerConfig → ℕ → Breaker → ℕ
load c now b = length (keep (in_window c now) b.attempts) + 1

load-recent :
    (c : BreakerConfig) (now : ℕ) (b : Breaker) → length (recent c now b.attempts) ≡ load c now b
load-recent c now b = cumulusvpn.Common.length-append (keep (in_window c now) b.attempts) (now ∷ [])

record_invalid_tests :
    (c : BreakerConfig) (now : ℕ) (b : Breaker)
    → (record_invalid c now b).1 ≡ (ltb c.max_attempts (load c now b) && not (is_open now b))
unfolding record_invalid
record_invalid_tests c now b = rw load-recent (ground arith)

-- A trip opens the breaker for the whole cooldown and for no longer, and it counts from nothing again.
pub record_invalid_opens :
    (c : BreakerConfig) (now later : ℕ) (b : Breaker)
    → (record_invalid c now b).1 ≡ true
    → (is_open later (record_invalid c now b).0 ≡ ltb later (now + c.cooldown_ms))
      × ((record_invalid c now b).0.attempts ≡ [])
unfolding record_invalid
record_invalid_opens c now later b h =
    elim (Bool-cases
      (ltb c.max_attempts (length (recent c now b.attempts)) && not (is_open now b))) [
        | inl trips ↦ rw trips (refl, refl)
        | inr holds ↦ cc (rw holds at h)
      ]

-- An attempt that does not trip the breaker leaves it open for as long as it was.
pub record_invalid_keeps :
    (c : BreakerConfig) (now later : ℕ) (b : Breaker)
    → (record_invalid c now b).1 ≡ false
    → is_open later (record_invalid c now b).0 ≡ is_open later b
unfolding record_invalid
record_invalid_keeps c now later b h =
    elim (Bool-cases
      (ltb c.max_attempts (length (recent c now b.attempts)) && not (is_open now b))) [
        | inl trips ↦ cc (rw trips at h)
        | inr holds ↦ rw holds refl
      ]

record_invalid_attempts :
    (c : BreakerConfig) (now : ℕ) (b : Breaker)
    → (record_invalid c now b).1 ≡ false
    → (record_invalid c now b).0.attempts ≡ recent c now b.attempts
unfolding record_invalid
record_invalid_attempts c now b h =
    elim (Bool-cases
      (ltb c.max_attempts (length (recent c now b.attempts)) && not (is_open now b))) [
        | inl trips ↦ cc (rw trips at h)
        | inr holds ↦ rw holds refl
      ]

-- The breaker after invalid attempts at the times of a list.
abbrev pub after : BreakerConfig → List ℕ → Breaker → Breaker
after c [] b = b
after c (t ∷ ts) b = after c ts (record_invalid c t b).0

-- None of the attempts trips the breaker.
abbrev pub IsQuiet : BreakerConfig → List ℕ → Breaker → Type 0
IsQuiet c [] b = Unit
IsQuiet c (t ∷ ts) b = ((record_invalid c t b).1 ≡ false) × IsQuiet c ts (record_invalid c t b).0

-- The times are in order, and `now` is the last.
abbrev pub IsUpTo : ℕ → List ℕ → Type 0
IsUpTo now [] = Unit
IsUpTo now (t ∷ []) = t ≤ now
IsUpTo now (t ∷ (u ∷ ts)) = (t ≤ u) × IsUpTo now (u ∷ ts)

-- The attempts of a list that are less than the window's length before `now`.
abbrev pub count : BreakerConfig → ℕ → List ℕ → ℕ
count c now ts = length (keep (λ t. ltb now (t + c.window_ms)) ts)

count-append :
    (c : BreakerConfig) (now : ℕ) (a b : List ℕ)
    → count c now (a ++ b) ≡ count c now a + count c now b
count-append c now [] b = omega arith
count-append c now (t ∷ a) b = ground (arith, count-append c now a b)

-- What an earlier attempt forgot has left the window for good.
count-keep :
    (c : BreakerConfig) (earlier now : ℕ) (ts : List ℕ)
    → earlier ≤ now
    → count c now (keep (in_window c earlier) ts) ≡ count c now ts
count-keep c earlier now [] h = refl
count-keep c earlier now (t ∷ ts) h = ground (arith, h, count-keep c earlier now ts h)

first-le : (now t : ℕ) (ts : List ℕ) → IsUpTo now (t ∷ ts) → t ≤ now
first-le now t [] h = h
first-le now t (u ∷ ts) h = omega (arith, h.0, first-le now u ts h.1)

rest-IsUpTo : (now t : ℕ) (ts : List ℕ) → IsUpTo now (t ∷ ts) → IsUpTo now ts
rest-IsUpTo now t [] h = tt
rest-IsUpTo now t (u ∷ ts) h = h.1

count-after :
    (c : BreakerConfig) (now : ℕ) (ts : List ℕ) (b : Breaker)
    → IsUpTo now ts
    → IsQuiet c ts b
    → count c now (after c ts b).attempts ≡ count c now b.attempts + count c now ts
count-after c now [] b h q = omega arith
count-after c now (t ∷ ts) b h q =
    let later = count-after c now ts (record_invalid c t b).0 (rest-IsUpTo now t ts h) q.1 in
    let kept = record_invalid_attempts c t b q.0 in
    let both = count-append c now (keep (in_window c t) b.attempts) (t ∷ []) in
    let same = count-keep c t now b.attempts (first-le now t ts h) in
    later ∙ (rw (kept, both, same) (ground arith))

is_open-after :
    (c : BreakerConfig) (later : ℕ) (ts : List ℕ) (b : Breaker)
    → IsQuiet c ts b
    → is_open later (after c ts b) ≡ is_open later b
is_open-after c later [] b q = refl
is_open-after c later (t ∷ ts) b q =
    is_open-after c later ts (record_invalid c t b).0 q.1 ∙ record_invalid_keeps c t later b q.0

-- Whether an attempt at `now` behind those of a list is one too many.
abbrev pub too_many : BreakerConfig → ℕ → List ℕ → Breaker → Bool
too_many c now ts b = ltb c.max_attempts (count c now ts + 1) && not (is_open now b)

-- The breaker starts without attempts, and invalid attempts come in the order of their times, none of
-- which trips it. Then one more attempt trips it exactly when it is closed and, of the whole history,
-- more than the allowed number of attempts are in the window with the new one. A trip opens the breaker
-- until the cooldown is over and no longer, and it has no attempts again; otherwise it stays open as
-- long as it was at the start.
pub record_invalid_trips :
    (c : BreakerConfig) (now later : ℕ) (ts : List ℕ) (b : Breaker)
    → b.attempts ≡ []
    → IsUpTo now ts
    → IsQuiet c ts b
    → ((record_invalid c now (after c ts b)).1 ≡ too_many c now ts b)
      × (is_open later (record_invalid c now (after c ts b)).0
          ≡ (if too_many c now ts b then ltb later (now + c.cooldown_ms) else is_open later b))
      × ((too_many c now ts b ≡ false) ⊎ ((record_invalid c now (after c ts b)).0.attempts ≡ []))
record_invalid_trips c now later ts b none h q = (trips, opens, emptied)
  where
    from_nothing : {m n k : ℕ} → m ≡ n + k → n ≡ 0 → m ≡ k
    from_nothing e z = omega (arith, e, z)

    held : count c now (after c ts b).attempts ≡ count c now ts
    held = from_nothing (count-after c now ts b h q) (ap (λ ts'. count c now ts') none)

    trips : (record_invalid c now (after c ts b)).1 ≡ too_many c now ts b
    trips = record_invalid_tests c now (after c ts b) ∙ (rw (held, is_open-after c now ts b q) refl)

    opens :
        is_open later (record_invalid c now (after c ts b)).0
        ≡ (if too_many c now ts b then ltb later (now + c.cooldown_ms) else is_open later b)
    opens = elim (Bool-cases (too_many c now ts b)) [
      | inl many ↦ rw many (record_invalid_opens c now later (after c ts b) (trips ∙ many)).0
      | inr few ↦ rw few (
          record_invalid_keeps c now later (after c ts b) (trips ∙ few)
          ∙ is_open-after c later ts b q)
    ]

    emptied :
        (too_many c now ts b ≡ false) ⊎ ((record_invalid c now (after c ts b)).0.attempts ≡ [])
    emptied = elim (Bool-cases (too_many c now ts b)) [
      | inl many ↦ inr (record_invalid_opens c now later (after c ts b) (trips ∙ many)).1
      | inr few ↦ inl few
    ]

-- While closed the breaker never remembers more than the allowed number of attempts.
pub record_invalid_bounded :
    (c : BreakerConfig) (now : ℕ) (b : Breaker)
    → is_open now b ≡ false
    → length (record_invalid c now b).0.attempts ≤ c.max_attempts
unfolding record_invalid
record_invalid_bounded c now b h = ground arith

last_sent-cons : (kind : String) (now : ℕ) (sent : Sent) → last_sent kind ((kind, now) ∷ sent) ≡ now
unfolding last_sent
last_sent-cons kind now sent = ground (arith, eq_iff kind kind)

-- After an alert went out, the next one of its kind within six hours does not.
pub alert_throttled :
    (url url' : Bool) (kind : String) (now later : ℕ) (sent : Sent)
    → (alert url kind now sent).1 ≡ true
    → later < now + throttle_ms
    → (alert url' kind later (alert url kind now sent).0).1 ≡ false
unfolding alert
alert_throttled url url' kind now later sent h soon = elim (Bool-cases url) [
  | inr off ↦ cc
  | inl on ↦ elim (Bool-cases (ltb now (last_sent kind sent + throttle_ms))) [
    | inl early ↦ cc (rw (on, early) at h)
    | inr due ↦ rw (on, due, last_sent-cons) (ground (arith, lt→ltb later (now + throttle_ms) soon))
  ]
]
