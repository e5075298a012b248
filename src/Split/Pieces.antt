-- ===== src/Split/Pieces.antt =====
-- Texts that are cut where they were joined.
use mathlib.Core.List.{append_assoc, append-nil, reverse, reverse-cons, reverse-reverse}
use cumulusvpn.Common.{
  ℕ, ◌≡◌, refl, sym, ap, ◌∙◌, true, false, ◌&&◌, List, [], ◌∷◌, ◌++◌, ◌==◌, All, arith,
}
use cumulusvpn.Common.ListLaws.{All-append}
use cumulusvpn.Common.Numeral.{before_unit, after_unit}
use cumulusvpn.Common.Text.{
  Text, has_unit, split_unit, split_pair, join, is_space, trim_start, trim,
}

pub All-imp : {P Q : ℕ → Type 0} → ((c : ℕ) → P c → Q c) → (s : Text) → All P s → All Q s
All-imp f [] h = tt
All-imp f (c ∷ s) h = (f c h.0, All-imp f s h.1)

module _ (P : ℕ → Type 0) where
  pub join-All : (sep : Text) (ps : List Text) → All P sep → All (All P) ps → All P (join sep ps)
  unfolding join
  join-All sep [] hs h = tt
  join-All sep (p ∷ []) hs h = h.0
  join-All sep (p ∷ (q ∷ ps)) hs h =
      All-append P p _ h.0 (All-append P sep _ hs (join-All sep (q ∷ ps) hs h.1))

  pub reverse-All : (s : Text) → All P s → All P (reverse s)
  reverse-All [] h = tt
  reverse-All (c ∷ s) h =
      rw (reverse-cons c s) (All-append P (reverse s) (c ∷ []) (reverse-All s h.1) (h.0, tt))

abbrev pub IsUnspaced : Text → Type 0
IsUnspaced s = All (λ c. is_space c ≡ false) s

trim_start-IsUnspaced : (s : Text) → IsUnspaced s → trim_start s ≡ s
unfolding trim_start
trim_start-IsUnspaced [] h = refl
trim_start-IsUnspaced (c ∷ s) h = rw h.0 refl

-- A text without a space is not trimmed.
pub trim-IsUnspaced : (s : Text) → IsUnspaced s → trim s ≡ s
unfolding trim
trim-IsUnspaced s h =
    rw (trim_start-IsUnspaced s h, trim_start-IsUnspaced (reverse s) (reverse-All _ s h))
      (reverse-reverse s)

-- No unit of the text is `c`.
abbrev pub Avoids : ℕ → Text → Type 0
Avoids c s = All (λ d. (d == c) ≡ false) s

pub split_unit-Avoids : (c : ℕ) (p : Text) → Avoids c p → split_unit c p ≡ p ∷ []
unfolding split_unit
split_unit-Avoids c [] h = refl
split_unit-Avoids c (d ∷ p) h = rw (h.0, split_unit-Avoids c p h.1) refl

split_unit-append :
    (c : ℕ) (p s : Text)
    → Avoids c p
    → (c == c) ≡ true
    → split_unit c (p ++ c ∷ s) ≡ p ∷ split_unit c s
unfolding split_unit
split_unit-append c [] s h e = rw e refl
split_unit-append c (d ∷ p) s h e = rw (h.0, split_unit-append c p s h.1 e) refl

-- Parts without the separator are got back from the joined text.
pub split_unit-join :
    (c : ℕ) (p : Text) (ps : List Text)
    → (c == c) ≡ true
    → All (Avoids c) (p ∷ ps)
    → split_unit c (join (c ∷ []) (p ∷ ps)) ≡ p ∷ ps
unfolding join
split_unit-join c p [] e h = split_unit-Avoids c p h.0
split_unit-join c p (q ∷ ps) e h =
    split_unit-append c p _ h.0 e ∙ ap (λ qs. p ∷ qs) (split_unit-join c q ps e h.1)

pub before_unit-append :
    (c : ℕ) (s t : Text) → Avoids c s → (c == c) ≡ true → before_unit c (s ++ c ∷ t) ≡ s
unfolding before_unit
before_unit-append c [] t h e = rw e refl
before_unit-append c (d ∷ s) t h e = rw (h.0, before_unit-append c s t h.1 e) refl

pub after_unit-append :
    (c : ℕ) (s t : Text) → Avoids c s → (c == c) ≡ true → after_unit c (s ++ c ∷ t) ≡ t
unfolding after_unit
after_unit-append c [] t h e = rw e refl
after_unit-append c (d ∷ s) t h e = rw (h.0, after_unit-append c s t h.1 e) refl

pub has_unit-append : (c : ℕ) (s t : Text) → (c == c) ≡ true → has_unit c (s ++ c ∷ t) ≡ true
unfolding has_unit
has_unit-append c [] t e = rw e refl
has_unit-append c (d ∷ s) t e = ground (arith, has_unit-append c s t e)

-- No two colons stand side by side.
abbrev pub IsSpread : Text → Type 0
IsSpread [] = Unit
IsSpread (c ∷ []) = Unit
IsSpread (c ∷ (d ∷ s)) = ((c == 58 && d == 58) ≡ false) × IsSpread (d ∷ s)

pub split_pair-IsSpread : (s : Text) → IsSpread s → split_pair 58 s ≡ s ∷ []
unfolding split_pair
split_pair-IsSpread [] h = refl
split_pair-IsSpread (c ∷ []) h = refl
split_pair-IsSpread (c ∷ (d ∷ s)) h = rw (h.0, split_pair-IsSpread (d ∷ s) h.1) refl

-- A text that stays spread with a colon behind it is cut off at a double colon.
pub split_pair-append :
    (s t : Text) → IsSpread (s ++ 58 ∷ []) → split_pair 58 (s ++ 58 ∷ 58 ∷ t) ≡ s ∷ split_pair 58 t
unfolding split_pair
split_pair-append [] t h = refl
split_pair-append (c ∷ []) t h = rw h.0 refl
split_pair-append (c ∷ (d ∷ s)) t h = rw (h.0, split_pair-append (d ∷ s) t h.1) refl

-- A part of a joined text: not empty, and without a colon.
abbrev pub IsPart : Text → Type 0
IsPart [] = ⊥
IsPart (c ∷ s) = Avoids 58 (c ∷ s)

part-IsSpread : (c : ℕ) (s t : Text) → Avoids 58 (c ∷ s) → IsSpread t → IsSpread ((c ∷ s) ++ t)
part-IsSpread c [] [] h k = tt
part-IsSpread c [] (d ∷ t) h k = (rw h.0 refl, k)
part-IsSpread c (d ∷ s) t h k = (rw h.0 refl, part-IsSpread d s t h.1 k)

colon-IsSpread :
    (c : ℕ) (s t : Text)
    → Avoids 58 (c ∷ s)
    → IsSpread ((c ∷ s) ++ t)
    → IsSpread (58 ∷ ((c ∷ s) ++ t))
colon-IsSpread c s t h k = (rw h.0 refl, k)

-- A joined text with a tail that is spread is spread.
pub join-IsSpread :
    (p : Text) (ps : List Text) (t : Text)
    → All IsPart (p ∷ ps)
    → IsSpread t
    → IsSpread (join (58 ∷ []) (p ∷ ps) ++ t)
unfolding join
join-IsSpread [] ps t h k = elim h.0 [ ]
join-IsSpread (c ∷ s) [] t h k = part-IsSpread c s t h.0 k
join-IsSpread (c ∷ s) ([] ∷ ps) t h k = elim h.1.0 [ ]
join-IsSpread (c ∷ s) ((d ∷ q) ∷ []) t h k = rw append_assoc (
    part-IsSpread c s (58 ∷ ((d ∷ q) ++ t)) h.0
      (colon-IsSpread d q t h.1.0 (part-IsSpread d q t h.1.0 k)))
join-IsSpread (c ∷ s) ((d ∷ q) ∷ (r ∷ ps)) t h k = rw append_assoc (
    part-IsSpread c s (58 ∷ (((d ∷ q) ++ (58 ∷ join (58 ∷ []) (r ∷ ps))) ++ t)) h.0
      (rw h.1.0.0 refl, join-IsSpread (d ∷ q) (r ∷ ps) t h.1 k))

-- The whole text, and the text with a colon behind it.
pub joined-IsSpread : (ps : List Text) → All IsPart ps → IsSpread (join (58 ∷ []) ps)
unfolding join
joined-IsSpread [] h = tt
joined-IsSpread (p ∷ ps) h =
    rw (sym (append-nil (join (58 ∷ []) (p ∷ ps)))) (join-IsSpread p ps [] h tt)

pub joined_colon-IsSpread :
    (ps : List Text) → All IsPart ps → IsSpread (join (58 ∷ []) ps ++ 58 ∷ [])
unfolding join
joined_colon-IsSpread [] h = tt
joined_colon-IsSpread (p ∷ ps) h = join-IsSpread p ps (58 ∷ []) h tt
