-- ===== src/Price/Parse.antt =====
-- `PriceSchedule.parse` of bridge/src/price.ts. Its texts are lists of UTF-16 units. A price text has at
-- most eight decimals and is read as its number of zats.
use cumulusvpn.Common.{
  ltb→lt, ℕ, suc, ◌+◌, ◌-◌, ◌*◌, ◌^◌, ◌<◌, ◌≡◌, Bool-cases, Option-cases, false, ap, ◌∙◌, Option,
  none, some, List, [], ◌∷◌, ◌⊎◌, inl, inr, ltb, leb, ◌==◌, if◌then◌else◌, length, arith, refl,
}
use cumulusvpn.Common.Numeral.{number_up_to, before_unit, after_unit}
use cumulusvpn.Common.Text.{Text, has_unit, split_unit, trim}
use cumulusvpn.Price.{Schedule, base, entry, start_of, IsIncreasing}

abbrev pub max_entries : ℕ
max_entries = 256

-- The errors, with the number of the entry where the message names it.
pub data ParseError : Type 0 where
  empty_schedule first_not_zero : ParseError
  too_many bad_price bad_height needs_height not_increasing : ℕ → ParseError

abbrev fraction : ℕ → Text → Option ℕ
fraction whole s = elim (number_up_to 8 s) [
  | none ↦ none
  | some n ↦ some (whole * 100000000 + n * 10 ^ (8 - length s))
]

-- `/^\d{1,9}(\.\d{1,8})?$/` and its value in zats
unfoldable pub price_zats : Text → Option ℕ
price_zats s = elim (number_up_to 9 (before_unit 46 s)) [
  | none ↦ none
  | some whole ↦
      if has_unit 46 s then fraction whole (after_unit 46 s) else some (whole * 100000000)
]

-- `/^\d{1,16}$/` and `Number.isSafeInteger`
unfoldable pub height_of : Text → Option ℕ
height_of s = elim (number_up_to 16 s) [
  | none ↦ none
  | some n ↦ if ltb n (2 ^ 53) then some n else none
]

-- `from` of the entry with index `i`
unfoldable pub start_for : ℕ → Text → ParseError ⊎ ℕ
start_for i s =
    if has_unit 64 s
    then elim (height_of (trim (after_unit 64 s))) [
      | none ↦ inl (bad_height (suc i))
      | some h ↦ inr h
    ]
    else if ltb 0 i
    then inl (needs_height (suc i))
    else inr 0

-- The checks against the entry before it.
unfoldable pub place : ℕ → ℕ → ℕ → Option Schedule → ParseError ⊎ Schedule
place i from zats none = if from == 0 then inr (base zats) else inl first_not_zero
place i from zats (some s) =
    if leb from (start_of s)
    then inl (not_increasing (suc i))
    else inr (entry (record { start = from; zats = zats }) s)

abbrev placed : ℕ → ℕ → Option Schedule → ParseError ⊎ ℕ → ParseError ⊎ Schedule
placed i zats prev (inl error) = inl error
placed i zats prev (inr from) = place i from zats prev

abbrev priced : ℕ → Text → Option Schedule → Option ℕ → ParseError ⊎ Schedule
priced i s prev none = inl (bad_price (suc i))
priced i s prev (some zats) =
    if ltb 0 zats then placed i zats prev (start_for i s) else inl (bad_price (suc i))

-- One round of the loop over the parts.
unfoldable pub add_entry : ℕ → Text → Option Schedule → ParseError ⊎ Schedule
add_entry i part prev = priced i (trim part) prev (price_zats (trim (before_unit 64 (trim part))))

unfoldable pub parse_parts : ℕ → Option Schedule → List Text → ParseError ⊎ Option Schedule
parse_parts i prev [] = inr prev
parse_parts i prev (part ∷ parts) = elim (add_entry i part prev) [
  | inl error ↦ inl error
  | inr s ↦ parse_parts (suc i) (some s) parts
]

-- A text has at least one part, so the loop never ends without an entry.
abbrev finished : ParseError ⊎ Option Schedule → ParseError ⊎ Schedule
finished (inl error) = inl error
finished (inr none) = inl empty_schedule
finished (inr (some s)) = inr s

unfoldable pub parse : Text → ParseError ⊎ Schedule
parse raw =
    let parts = split_unit 44 (trim raw) in
    if length (trim raw) == 0
    then inl empty_schedule
    else if ltb max_entries (length parts)
    then inl (too_many (length parts))
    else finished (parse_parts 0 none parts)

abbrev pub IsPositive : Schedule → Type 0
IsPositive (base z) = 0 < z
IsPositive (entry e s) = (0 < e.zats) × IsPositive s

abbrev IsSound : Option Schedule → Type 0
IsSound none = Unit
IsSound (some s) = IsIncreasing s × IsPositive s

place-IsSound :
    (i from zats : ℕ) (prev : Option Schedule) (s : Schedule)
    → 0 < zats
    → IsSound prev
    → place i from zats prev ≡ inr s
    → IsSound (some s)
unfolding place
place-IsSound i from zats none s p h e = elim (Bool-cases (from == 0)) [
  | inl z ↦ let e' = rw (place, z) at e in let same : base zats ≡ s = cc in rw (← same) (tt, p)
  | inr nz ↦ cc (rw (place, nz) at e)
]
place-IsSound i from zats (some before) s p h e = elim (Bool-cases (leb from (start_of before))) [
  | inl early ↦ cc (rw (place, early) at e)
  | inr late ↦
      let e' = rw (place, late) at e in
      let same : entry (record { start = from; zats = zats }) before ≡ s = cc in
      rw (← same) ((ground arith, h.0), (p, h.1))
]

placed-IsSound :
    (i zats : ℕ) (prev : Option Schedule) (o : ParseError ⊎ ℕ) (s : Schedule)
    → 0 < zats
    → IsSound prev
    → placed i zats prev o ≡ inr s
    → IsSound (some s)
placed-IsSound i zats prev (inl error) s p h e = cc
placed-IsSound i zats prev (inr from) s p h e = place-IsSound i from zats prev s p h e

priced-IsSound :
    (i : ℕ) (t : Text) (prev : Option Schedule) (o : Option ℕ) (s : Schedule)
    → IsSound prev
    → priced i t prev o ≡ inr s
    → IsSound (some s)
priced-IsSound i t prev none s h e = cc
priced-IsSound i t prev (some zats) s h e = elim (Bool-cases (ltb 0 zats)) [
  | inl some_price ↦
      placed-IsSound i zats prev (start_for i t) s (ltb→lt 0 zats some_price) h (rw some_price at e)
  | inr free ↦ cc (rw free at e)
]

sum-cases {ℓ κ} :
    {A : Type ℓ} {B : Type κ} (o : A ⊎ B) → ((a : A) × (o ≡ inl a)) ⊎ ((b : B) × (o ≡ inr b))
sum-cases (inl a) = inl (a, refl)
sum-cases (inr b) = inr (b, refl)

add_entry-IsSound :
    (i : ℕ) (part : Text) (prev : Option Schedule) (s : Schedule)
    → IsSound prev
    → add_entry i part prev ≡ inr s
    → IsSound (some s)
unfolding add_entry
add_entry-IsSound i part prev s h e =
    priced-IsSound i (trim part) prev (price_zats (trim (before_unit 64 (trim part)))) s h e

parse_parts-IsSound :
    (i : ℕ) (prev : Option Schedule) (parts : List Text) (o : Option Schedule)
    → IsSound prev
    → parse_parts i prev parts ≡ inr o
    → IsSound o
unfolding parse_parts
parse_parts-IsSound i prev [] o h e = let same : prev ≡ o = cc in rw (← same) h
parse_parts-IsSound i prev (part ∷ parts) o h e = elim (sum-cases (add_entry i part prev)) [
  | inl (error, bad) ↦ cc (rw (parse_parts, bad) at e)
  | inr (s, good) ↦
      let sound = add_entry-IsSound i part prev s h good in
      parse_parts-IsSound (suc i) (some s) parts o sound (rw (parse_parts, good) at e)
]

finished-IsSound :
    (o : ParseError ⊎ Option Schedule) (s : Schedule)
    → ((p : Option Schedule) → o ≡ inr p → IsSound p)
    → finished o ≡ inr s
    → IsSound (some s)
finished-IsSound (inl error) s h e = cc
finished-IsSound (inr none) s h e = cc
finished-IsSound (inr (some s')) s h e = let same : s' ≡ s = cc in rw (← same) (h (some s') refl)

-- The height of a part of the text, behind its `@`.
abbrev pub height_in : Text → Option ℕ
height_in part = height_of (trim (after_unit 64 (trim part)))

-- A part of the text names no height, or the height 0.
abbrev pub IsFirst : Text → Type 0
IsFirst part = (has_unit 64 (trim part) ≡ false) ⊎ (height_in part ≡ some 0)

abbrev pub HeadIsFirst : List Text → Type 0
HeadIsFirst [] = Unit
HeadIsFirst (part ∷ parts) = IsFirst part

place-zero : (i from zats : ℕ) (s : Schedule) → place i from zats none ≡ inr s → from ≡ 0
unfolding place
place-zero i from zats s e = elim (Bool-cases (from == 0)) [
  | inl z ↦ ground (arith, z)
  | inr nz ↦ cc (rw (place, nz) at e)
]

placed-zero :
    (i zats : ℕ) (o : ParseError ⊎ ℕ) (s : Schedule) → placed i zats none o ≡ inr s → o ≡ inr 0
placed-zero i zats (inl error) s e = cc
placed-zero i zats (inr from) s e = ap (λ n. inr n) (place-zero i from zats s e)

priced-zero :
    (i : ℕ) (t : Text) (o : Option ℕ) (s : Schedule)
    → priced i t none o ≡ inr s
    → start_for i t ≡ inr 0
priced-zero i t none s e = cc
priced-zero i t (some zats) s e = elim (Bool-cases (ltb 0 zats)) [
  | inl some_price ↦ placed-zero i zats (start_for i t) s (rw some_price at e)
  | inr free ↦ cc (rw free at e)
]

start_for-IsFirst : (i : ℕ) (part : Text) → start_for i (trim part) ≡ inr 0 → IsFirst part
unfolding start_for
start_for-IsFirst i part e = elim (Bool-cases (has_unit 64 (trim part))) [
  | inr without ↦ inl without
  | inl named ↦ elim (Option-cases (height_in part)) [
    | inl bad ↦ cc (rw (start_for, named, bad) at e)
    | inr (h, read) ↦
        let e' = rw (start_for, named, read) at e in
        let same : h ≡ 0 = cc in inr (read ∙ ap (λ n. some n) same)
  ]
]

parse_parts-HeadIsFirst :
    (parts : List Text) (o : Option Schedule) → parse_parts 0 none parts ≡ inr o → HeadIsFirst parts
unfolding parse_parts add_entry
parse_parts-HeadIsFirst [] o e = tt
parse_parts-HeadIsFirst (part ∷ parts) o e = elim (sum-cases (add_entry 0 part none)) [
  | inl (error, bad) ↦ cc (rw (parse_parts, bad) at e)
  | inr (s, good) ↦
      start_for-IsFirst 0 part
        (priced-zero 0 (trim part) (price_zats (trim (before_unit 64 (trim part)))) s good)
]

finished-parts :
    (o : ParseError ⊎ Option Schedule) (s : Schedule) → finished o ≡ inr s → o ≡ inr (some s)
finished-parts (inl error) s e = cc
finished-parts (inr none) s e = cc
finished-parts (inr (some s')) s e = cc

-- Where the parser accepts a text, the first of its parts between commas names no height or the height
-- 0, the heights of the schedule strictly increase, and every price of it is at least a zat.
pub parse-IsIncreasing :
    (raw : Text) (s : Schedule)
    → parse raw ≡ inr s
    → HeadIsFirst (split_unit 44 (trim raw)) × IsIncreasing s × IsPositive s
unfolding parse
parse-IsIncreasing raw s e = elim (Bool-cases (length (trim raw) == 0)) [
  | inl blank ↦ cc (rw (parse, blank) at e)
  | inr filled ↦ elim (Bool-cases (ltb max_entries (length (split_unit 44 (trim raw))))) [
    | inl many ↦ cc (rw (parse, filled, many) at e)
    | inr few ↦
        let e' = rw (parse, filled, few) at e in
        let sound =
          finished-IsSound (parse_parts 0 none (split_unit 44 (trim raw))) s
            (λ p. parse_parts-IsSound 0 none (split_unit 44 (trim raw)) p tt) e' in
        (
          parse_parts-HeadIsFirst (split_unit 44 (trim raw)) (some s)
              (finished-parts (parse_parts 0 none (split_unit 44 (trim raw))) s e'),
          sound.0,
          sound.1,
        )
  ]
]
