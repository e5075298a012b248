-- ===== src/Split/Punycode.antt =====
-- The outer loop of `punycodeEncode` in clients/core-ts/src/split.ts ends, and it handles every code
-- point.
use cumulusvpn.Common.{
  ℕ, zero, suc, ◌+◌, ◌≤◌, ◌<◌, ◌≡◌, refl, sym, ap, inl, inr, ◌⊎◌, Bool, true, false, none, some,
  Option-cases, List, [], ◌∷◌, ltb, leb, ◌==◌, if◌then◌else◌, length, any, keep, All, min,
  Bool-cases, arith,
}
use cumulusvpn.Common.Text.{Text}
use cumulusvpn.Split.Bounds.{then_some}
use mathlib.Core.Path.{subst}
use mathlib.Core.Option.{none-ne-some, some-injective}
use cumulusvpn.Split.Domain.{
  code_points, Encoder, passed, written, encode_points, least_from, moved_to, encode_rounds,
  basic_of, start, punycode_encode,
}

abbrev occurs : ℕ → List ℕ → Bool
occurs n cps = any (λ c. c == n) cps

first_or_later :
    (b : Bool) (c k m : ℕ) → (if b then some (min c k) else some k) ≡ some m → (m ≡ c) ⊎ (m ≡ k)
first_or_later true c k m h = lesser (some-injective _ _ h)
  where
    lesser : min c k ≡ m → (m ≡ c) ⊎ (m ≡ k)
    lesser e = ground arith
first_or_later false c k m h = inr (sym (some-injective _ _ h))

occurs_here : (c m : ℕ) (cps : List ℕ) → c ≡ m → occurs m (c ∷ cps) ≡ true
occurs_here c m cps e = ground (arith, e)

occurs_later : (c k m : ℕ) (cps : List ℕ) → m ≡ k → occurs k cps ≡ true → occurs m (c ∷ cps) ≡ true
occurs_later c k m cps e h = subst (λ j. occurs j (c ∷ cps) ≡ true) (sym e) (ground (arith, h))

least_from-occurs : (n m : ℕ) (cps : List ℕ) → least_from n cps ≡ some m → occurs m cps ≡ true
unfolding least_from
least_from-occurs n m [] h = elim (none-ne-some _ h) [ ]
least_from-occurs n m (c ∷ cps) h = elim (Option-cases (least_from n cps)) [
  | inl e ↦
      occurs_here c m cps
        (some-injective _ _ (then_some (leb n c) (some c) m (rw (least_from, e) at h)).1)
  | inr (k, e) ↦ elim (first_or_later (leb n c) c k m (rw (least_from, e) at h)) [
    | inl first ↦ occurs_here c m cps (sym first)
    | inr later ↦ occurs_later c k m cps later (least_from-occurs n k cps e)
  ]
]

encode_points_handled :
    (basic n : ℕ) (e : Encoder) (cps : List ℕ) → e.handled ≤ (encode_points basic n e cps).handled
unfolding encode_points
encode_points_handled basic n e [] = omega arith
encode_points_handled basic n e (c ∷ cps) = elim (Bool-cases (ltb c n)) [
  | inl below ↦ rw (encode_points, below) (encode_points_handled basic n (passed e) cps)
  | inr above ↦ elim (Bool-cases (c == n)) [
    | inl same ↦
        rw (encode_points, above, same)
          (omega (arith, encode_points_handled basic n (written basic e) cps))
    | inr differ ↦ rw (encode_points, above, differ) (encode_points_handled basic n e cps)
  ]
]

encode_points_grows :
    (basic n : ℕ) (e : Encoder) (cps : List ℕ)
    → occurs n cps ≡ true
    → e.handled < (encode_points basic n e cps).handled
unfolding encode_points
encode_points_grows basic n e [] h = ground (arith, h)
encode_points_grows basic n e (c ∷ cps) h = elim (Bool-cases (ltb c n)) [
  | inl below ↦
      rw (encode_points, below)
        (encode_points_grows basic n (passed e) cps (ground (arith, h, below)))
  | inr above ↦ elim (Bool-cases (c == n)) [
    | inl same ↦
        rw (encode_points, above, same)
          (omega (arith, encode_points_handled basic n (written basic e) cps))
    | inr differ ↦
        rw (encode_points, above, differ)
          (encode_points_grows basic n e cps (ground (arith, h, differ)))
  ]
]

encode_rounds_done :
    (fuel basic : ℕ) (cps : List ℕ) (n : ℕ) (e : Encoder)
    → length cps ≤ e.handled
    → encode_rounds fuel basic cps n e ≡ e
unfolding encode_rounds
encode_rounds_done zero basic cps n e h = refl
encode_rounds_done (suc fuel) basic cps n e h = rw (encode_rounds, over) refl
  where
    over : ltb e.handled (length cps) ≡ false
    over = ground (arith, h)

-- Fuel for the code points that are not handled yet is enough.
encode_rounds_enough :
    (fuel fuel' basic : ℕ) (cps : List ℕ) (n : ℕ) (e : Encoder)
    → length cps ≤ e.handled + fuel
    → length cps ≤ e.handled + fuel'
    → encode_rounds fuel basic cps n e ≡ encode_rounds fuel' basic cps n e
unfolding encode_rounds
encode_rounds_enough zero fuel' basic cps n e h h' =
    sym (encode_rounds_done fuel' basic cps n e (omega (arith, h)))
encode_rounds_enough (suc fuel) zero basic cps n e h h' =
    encode_rounds_done (suc fuel) basic cps n e (omega (arith, h'))
encode_rounds_enough (suc fuel) (suc fuel') basic cps n e h h' =
    elim (Bool-cases (ltb e.handled (length cps))) [
      | inr over ↦ rw (encode_rounds, over) refl
      | inl more ↦ elim (Option-cases (least_from n cps)) [
        | inl nothing ↦ rw (encode_rounds, more, nothing) refl
        | inr (m, found) ↦
            let grown =
              encode_points_grows basic m (moved_to n m e) cps (least_from-occurs n m cps found) in
            rw (encode_rounds, more, found)
              (encode_rounds_enough fuel fuel' basic cps (m + 1) _ (omega (arith, h, grown))
                (omega (arith, h', grown)))
      ]
    ]

-- The code points below `n`, and those equal to it.
abbrev below : ℕ → List ℕ → ℕ
below n cps = length (keep (λ c. ltb c n) cps)

abbrev equal : ℕ → List ℕ → ℕ
equal n cps = length (keep (λ c. c == n) cps)

below-le-length : (n : ℕ) (cps : List ℕ) → below n cps ≤ length cps
below-le-length n [] = omega arith
below-le-length n (c ∷ cps) = ground (arith, below-le-length n cps)

below-suc : (m : ℕ) (cps : List ℕ) → below (m + 1) cps ≡ below m cps + equal m cps
below-suc m [] = refl
below-suc m (c ∷ cps) = ground (arith, below-suc m cps)

encode_points_count :
    (basic n : ℕ) (e : Encoder) (cps : List ℕ)
    → (encode_points basic n e cps).handled ≡ e.handled + equal n cps
unfolding encode_points
encode_points_count basic n e [] = omega arith
encode_points_count basic n e (c ∷ cps) = elim (Bool-cases (ltb c n)) [
  | inl less ↦
      rw (encode_points, less) (ground (arith, less, encode_points_count basic n (passed e) cps))
  | inr above ↦ elim (Bool-cases (c == n)) [
    | inl same ↦
        rw (encode_points, above, same)
          (omega (arith, encode_points_count basic n (written basic e) cps))
    | inr differ ↦ rw (encode_points, above, differ) (encode_points_count basic n e cps)
  ]
]

least_from-none : (n : ℕ) (cps : List ℕ) → least_from n cps ≡ none → All (λ c. c < n) cps
unfolding least_from
least_from-none n [] h = tt
least_from-none n (c ∷ cps) h = elim (Option-cases (least_from n cps)) [
  | inr (k, e) ↦ elim (Bool-cases (leb n c)) [
    | inl up ↦ elim (none-ne-some _ (sym (rw (least_from, e, up) at h))) [ ]
    | inr down ↦ elim (none-ne-some _ (sym (rw (least_from, e, down) at h))) [ ]
  ]
  | inl e ↦ elim (Bool-cases (leb n c)) [
    | inl up ↦ elim (none-ne-some _ (sym (rw (least_from, e, up) at h))) [ ]
    | inr down ↦ (ground (arith, down), least_from-none n cps e)
  ]
]

-- Nothing lies from `n` on below the least code point from `n` on.
abbrev IsGap : ℕ → ℕ → List ℕ → Type 0
IsGap n m cps = (n ≤ m) × All (λ c. (c < n) ⊎ (m ≤ c)) cps

gap_above : (n m : ℕ) (cps : List ℕ) → All (λ c. c < n) cps → All (λ c. (c < n) ⊎ (m ≤ c)) cps
gap_above n m [] h = tt
gap_above n m (c ∷ cps) h = (inl h.0, gap_above n m cps h.1)

gap_lowered :
    (n m k : ℕ) (cps : List ℕ)
    → k ≤ m
    → All (λ c. (c < n) ⊎ (m ≤ c)) cps
    → All (λ c. (c < n) ⊎ (k ≤ c)) cps
gap_lowered n m k [] l h = tt
gap_lowered n m k (c ∷ cps) l (inl less, hs) = (inl less, gap_lowered n m k cps l hs)
gap_lowered n m k (c ∷ cps) l (inr more, hs) =
    (inr (omega (arith, l, more)), gap_lowered n m k cps l hs)

least_from-IsGap : (n m : ℕ) (cps : List ℕ) → least_from n cps ≡ some m → IsGap n m cps
unfolding least_from
least_from-IsGap n m [] h = elim (none-ne-some _ h) [ ]
least_from-IsGap n m (c ∷ cps) h = elim (Option-cases (least_from n cps)) [
  | inl e ↦ elim (Bool-cases (leb n c)) [
    | inl up ↦
        let same = some-injective _ _ (rw (least_from, e, up) at h) in
        (
          ground (arith, up, same),
          (inr (omega (arith, same)), gap_above n m cps (least_from-none n cps e)),
        )
    | inr down ↦ elim (none-ne-some _ (rw (least_from, e, down) at h)) [ ]
  ]
  | inr (k, e) ↦
      let rest = least_from-IsGap n k cps e in
      elim (Bool-cases (leb n c)) [
        | inl up ↦
            let same = some-injective _ _ (rw (least_from, e, up) at h) in
            (
              ground (arith, up, same, rest.0),
              (inr (ground (arith, same)), gap_lowered n k m cps (ground (arith, same)) rest.1),
            )
        | inr down ↦
            let same = some-injective _ _ (rw (least_from, e, down) at h) in
            (
              omega (arith, same, rest.0),
              (inl (ground (arith, down)), gap_lowered n k m cps (omega (arith, same)) rest.1),
            )
      ]
]

below-IsGap : (n m : ℕ) (cps : List ℕ) → IsGap n m cps → below m cps ≡ below n cps
below-IsGap n m [] h = refl
below-IsGap n m (c ∷ cps) (l, (inl less, hs)) = ground (arith, l, less, below-IsGap n m cps (l, hs))
below-IsGap n m (c ∷ cps) (l, (inr more, hs)) = ground (arith, l, more, below-IsGap n m cps (l, hs))

below_everything : (n : ℕ) (cps : List ℕ) → All (λ c. c < n) cps → below n cps ≡ length cps
below_everything n [] h = refl
below_everything n (c ∷ cps) h = ground (arith, h.0, below_everything n cps h.1)

-- Before each round exactly the code points below `n` are handled, and after the last one all are.
encode_rounds_handled :
    (fuel basic : ℕ) (cps : List ℕ) (n : ℕ) (e : Encoder)
    → length cps ≤ e.handled + fuel
    → e.handled ≡ below n cps
    → (encode_rounds fuel basic cps n e).handled ≡ length cps
unfolding encode_rounds
encode_rounds_handled zero basic cps n e h same = omega (arith, h, same, below-le-length n cps)
encode_rounds_handled (suc fuel) basic cps n e h same =
    elim (Bool-cases (ltb e.handled (length cps))) [
      | inr over ↦ rw (encode_rounds, over) (ground (arith, over, same, below-le-length n cps))
      | inl more ↦ elim (Option-cases (least_from n cps)) [
        | inl nothing ↦
            rw (encode_rounds, more, nothing)
              (omega (arith, same, below_everything n cps (least_from-none n cps nothing)))
        | inr (m, found) ↦
            let grown =
              encode_points_grows basic m (moved_to n m e) cps (least_from-occurs n m cps found) in
            rw (encode_rounds, more, found)
              (encode_rounds_handled fuel basic cps (m + 1) _ (omega (arith, h, grown)) (
                omega (
                  arith,
                  same,
                  encode_points_count basic m (moved_to n m e) cps,
                  below-suc m cps,
                  below-IsGap n m cps (least_from-IsGap n m cps found),
                )))
      ]
    ]

-- The outer loop of the encoding has handled every code point of the label after as many rounds as
-- there are code points, and with more rounds the output stays the same.
pub punycode_encode_ends :
    (label : Text) (fuel : ℕ)
    → length (code_points label) ≤ fuel
    → ((encode_rounds fuel
          (length (basic_of (code_points label)))
          (code_points label)
          128
          (start (basic_of (code_points label)))).handled
        ≡ length (code_points label))
      × ((encode_rounds fuel
            (length (basic_of (code_points label)))
            (code_points label)
            128
            (start (basic_of (code_points label)))).output
          ≡ punycode_encode label)
unfolding punycode_encode
punycode_encode_ends label fuel h = (
  encode_rounds_handled fuel _ (code_points label) 128 _ (omega (arith, h)) refl,
  ap (λ e. e.output)
      (encode_rounds_enough fuel (length (code_points label)) _ (code_points label) 128 _
        (omega (arith, h)) (omega arith)),
)
