-- ===== src/Split/Groups.antt =====
-- The text of an IPv6 address, read back.
use mathlib.Core.Path.{subst}
use mathlib.Core.List.{append-nil}
use cumulusvpn.Common.{
  ℕ, zero, suc, ◌+◌, ◌-◌, ◌^◌, ◌≤◌, ◌<◌, ◌≡◌, refl, sym, ap, ◌∙◌, inl, inr, Bool, true, false, ◌||◌,
  some, List, [], ◌∷◌, ◌++◌, map, ltb, ◌==◌, length, take, drop, length-append, All, Bool-cases,
  arith,
}
use cumulusvpn.Common.ListLaws.{All-append}
use cumulusvpn.Common.Numeral.{is_hex}
use cumulusvpn.Common.Text.{Text, has_unit, split_unit, split_pair, join}
use cumulusvpn.Split.Address.{
  group, groups_of_parts, parse_groups, zeros, join_groups, fill, parse_halves, parse_ipv6,
  groups_of, hex, compress, format_ipv6,
}
use cumulusvpn.Split.Digits.{hex_length_pos, hex_up_to-hex, hex-IsHexText}
use cumulusvpn.Split.Pieces.{
  Avoids, split_unit-join, All-imp, join-All, IsPart, has_unit-append, split_pair-IsSpread,
  split_pair-append, joined-IsSpread, joined_colon-IsSpread,
}
use cumulusvpn.Split.Runs.{IsCut, best_run-IsCut_all, length-zeros, join_groups-groups_of}

abbrev pub AreGroups : List ℕ → Type 0
AreGroups gs = All (λ g. g < 65536) gs

abbrev texts : List ℕ → List Text
texts gs = map hex gs

hex_is_colonless : (c : ℕ) → is_hex c ≡ true → (c == 58) ≡ false
hex_is_colonless c h = ground (arith, h)

hex-Avoids : (g : ℕ) → g < 65536 → Avoids 58 (hex g)
hex-Avoids g l = All-imp hex_is_colonless (hex g) (hex-IsHexText g l)

texts-Avoid : (gs : List ℕ) → AreGroups gs → All (Avoids 58) (texts gs)
texts-Avoid [] h = tt
texts-Avoid (g ∷ gs) h = (hex-Avoids g h.0, texts-Avoid gs h.1)

IsPart-of : (s : Text) → 1 ≤ length s → Avoids 58 s → IsPart s
IsPart-of [] l h = ground (arith, l)
IsPart-of (c ∷ s) l h = h

texts-ArePart : (gs : List ℕ) → AreGroups gs → All IsPart (texts gs)
texts-ArePart [] h = tt
texts-ArePart (g ∷ gs) h =
    (IsPart-of (hex g) (hex_length_pos g) (hex-Avoids g h.0), texts-ArePart gs h.1)

group-hex : (g : ℕ) (last : Bool) → g < 65536 → group (hex g) last ≡ some (g ∷ [])
unfolding group
group-hex g last l = rw (group, hex_up_to-hex g l) refl

groups_of_parts-texts : (gs : List ℕ) → AreGroups gs → groups_of_parts (texts gs) ≡ some gs
unfolding groups_of_parts
groups_of_parts-texts [] h = refl
groups_of_parts-texts (g ∷ gs) h =
    rw (groups_of_parts, group-hex g _ h.0, groups_of_parts-texts gs h.1) refl

parse_groups_of : (s : Text) → 1 ≤ length s → parse_groups s ≡ groups_of_parts (split_unit 58 s)
unfolding parse_groups
parse_groups_of [] l = ground (arith, l)
parse_groups_of (c ∷ s) l = refl

joined_length_pos : (g : ℕ) (gs : List ℕ) → 1 ≤ length (join (58 ∷ []) (texts (g ∷ gs)))
unfolding join
joined_length_pos g [] = hex_length_pos g
joined_length_pos g (h ∷ gs) =
    omega (arith, hex_length_pos g, length-append (hex g) (58 ∷ join (58 ∷ []) (texts (h ∷ gs))))

-- The groups of a joined text.
parse_groups-join :
    (gs : List ℕ) → AreGroups gs → parse_groups (join (58 ∷ []) (texts gs)) ≡ some gs
unfolding parse_groups join
parse_groups-join [] h = refl
parse_groups-join (g ∷ gs) h =
    parse_groups_of (join (58 ∷ []) (texts (g ∷ gs))) (joined_length_pos g gs)
    ∙ (ap groups_of_parts (split_unit-join 58 (hex g) (texts gs) refl (texts-Avoid (g ∷ gs) h))
        ∙ groups_of_parts-texts (g ∷ gs) h)

take-texts : (pre rest : List ℕ) → take (length pre) (texts (pre ++ rest)) ≡ texts pre
take-texts [] rest = refl
take-texts (g ∷ pre) rest = ap (λ l. hex g ∷ l) (take-texts pre rest)

drop-texts :
    (pre rest : List ℕ) (n : ℕ) → drop (length pre + n) (texts (pre ++ rest)) ≡ drop n (texts rest)
drop-texts [] rest n = ap (λ k. drop k (texts rest)) (omega arith)
drop-texts (g ∷ pre) rest n =
    ap (λ k. drop k (texts (g ∷ (pre ++ rest)))) (shift (length pre) n) ∙ drop-texts pre rest n
  where
    shift : (a b : ℕ) → suc a + b ≡ suc (a + b)
    shift a b = omega arith

drop-zeros : (l : ℕ) (post : List ℕ) → drop l (texts (zeros l ++ post)) ≡ texts post
unfolding zeros
drop-zeros zero post = refl
drop-zeros (suc l) post = drop-zeros l post

fill_cut :
    (pre post : List ℕ) (l : ℕ)
    → length pre + length post + l ≡ 8
    → 2 ≤ l
    → fill (some pre) (some post) true ≡ some (join_groups 0 (pre ++ (zeros l ++ post)))
unfolding fill
fill_cut pre post l e two =
    rw (few) (ap (λ k. some (join_groups 0 (pre ++ (zeros k ++ post)))) (omega (arith, e)))
  where
    few : ltb 7 (length pre + length post) ≡ false
    few = ground (arith, e, two)

fill_whole :
    (gs : List ℕ) → length gs ≡ 8 → fill (some gs) (some []) false ≡ some (join_groups 0 gs)
unfolding fill zeros
fill_whole gs e = rw full (
    ap (λ k. some (join_groups 0 (gs ++ (zeros k ++ [])))) none_left
    ∙ ap (λ l. some (join_groups 0 l)) (append-nil gs))
  where
    full : (length gs + 0 == 8) ≡ true
    full = ground (arith, e)

    none_left : 8 - (length gs + 0) ≡ 0
    none_left = omega (arith, e)

parse_ipv6_of : (s : Text) → has_unit 58 s ≡ true → parse_ipv6 s ≡ parse_halves (split_pair 58 s)
unfolding parse_ipv6
parse_ipv6_of s h = rw h refl

-- A text with a double colon.
parse_cut :
    (pre post : List ℕ) (l : ℕ)
    → AreGroups pre
    → AreGroups post
    → length pre + length post + l ≡ 8
    → 2 ≤ l
    → parse_ipv6 (join (58 ∷ []) (texts pre) ++ 58 ∷ 58 ∷ join (58 ∷ []) (texts post))
      ≡ some (join_groups 0 (pre ++ (zeros l ++ post)))
unfolding parse_halves
parse_cut pre post l hpre hpost e two =
    parse_ipv6_of _
      (has_unit-append 58 (join (58 ∷ []) (texts pre)) (58 ∷ join (58 ∷ []) (texts post)) refl)
    ∙ (ap parse_halves (
          split_pair-append (join (58 ∷ []) (texts pre)) (join (58 ∷ []) (texts post))
            (joined_colon-IsSpread (texts pre) (texts-ArePart pre hpre))
          ∙ ap (λ t. join (58 ∷ []) (texts pre) ∷ t)
              (split_pair-IsSpread _ (joined-IsSpread (texts post) (texts-ArePart post hpost))))
        ∙ (rw (parse_groups-join pre hpre, parse_groups-join post hpost)
            (fill_cut pre post l e two)))

has_colon : (g h : ℕ) (gs : List ℕ) → has_unit 58 (join (58 ∷ []) (texts (g ∷ h ∷ gs))) ≡ true
unfolding join
has_colon g h gs = has_unit-append 58 (hex g) (join (58 ∷ []) (texts (h ∷ gs))) refl

-- A text of eight groups.
parse_whole :
    (gs : List ℕ)
    → AreGroups gs
    → length gs ≡ 8
    → parse_ipv6 (join (58 ∷ []) (texts gs)) ≡ some (join_groups 0 gs)
unfolding parse_halves
parse_whole [] hg e = ground (arith, e)
parse_whole (g ∷ []) hg e = ground (arith, e)
parse_whole (g ∷ (h ∷ gs)) hg e =
    parse_ipv6_of _ (has_colon g h gs)
    ∙ (ap parse_halves (
          split_pair-IsSpread _
            (joined-IsSpread (texts (g ∷ h ∷ gs)) (texts-ArePart (g ∷ h ∷ gs) hg)))
        ∙ (rw (parse_groups-join (g ∷ h ∷ gs) hg) (fill_whole (g ∷ h ∷ gs) e)))

before-AreGroups : (a b : List ℕ) → AreGroups (a ++ b) → AreGroups a
before-AreGroups [] b h = tt
before-AreGroups (g ∷ a) b h = (h.0, before-AreGroups a b h.1)

behind-AreGroups : (a b : List ℕ) → AreGroups (a ++ b) → AreGroups b
behind-AreGroups [] b h = h
behind-AreGroups (g ∷ a) b h = behind-AreGroups a b h.1

length_cut :
    (pre post : List ℕ) (l : ℕ) → length (pre ++ (zeros l ++ post)) ≡ length pre + length post + l
length_cut pre post l =
    omega (arith, length-append pre (zeros l ++ post), length-append (zeros l) post, length-zeros l)

parse_compress_cut :
    (pre post : List ℕ) (l : ℕ)
    → AreGroups (pre ++ (zeros l ++ post))
    → length (pre ++ (zeros l ++ post)) ≡ 8
    → 2 ≤ l
    → parse_ipv6 (compress (pre ++ (zeros l ++ post)) (length pre, l))
      ≡ some (join_groups 0 (pre ++ (zeros l ++ post)))
parse_compress_cut pre post l h e two =
    rw
      (
        not_one,
        take-texts pre (zeros l ++ post),
        drop-texts pre (zeros l ++ post) l,
        drop-zeros l post,
      )
      (parse_cut pre post l (before-AreGroups pre _ h)
        (behind-AreGroups (zeros l) post (behind-AreGroups pre _ h))
        (sym (length_cut pre post l) ∙ e) two)
  where
    not_one : (l == 1) ≡ false
    not_one = ground (arith, two)

parse_compress :
    (gs : List ℕ) (run : ℕ × ℕ)
    → AreGroups gs
    → length gs ≡ 8
    → IsCut gs run
    → parse_ipv6 (compress gs run) ≡ some (join_groups 0 gs)
parse_compress gs run h e (inl one) = rw one (parse_whole gs h e)
parse_compress gs run h e (inr cut) =
    ap (λ i. parse_ipv6 (compress gs (i, run.1))) (sym cut.2)
    ∙ (ap (λ l. parse_ipv6 (compress l (length cut.0, run.1))) cut.4
        ∙ (parse_compress_cut cut.0 cut.1 run.1 (subst AreGroups cut.4 h)
              (sym (ap length cut.4) ∙ e) cut.3
            ∙ ap (λ l. some (join_groups 0 l)) (sym cut.4)))

groups_of-AreGroups : (k v : ℕ) → AreGroups (groups_of k v)
unfolding groups_of
groups_of-AreGroups zero v = tt
groups_of-AreGroups (suc k) v = (omega arith, groups_of-AreGroups k v)

length-groups_of : (k v : ℕ) → length (groups_of k v) ≡ k
unfolding groups_of
length-groups_of zero v = refl
length-groups_of (suc k) v = ap suc (length-groups_of k v)

pub parse_ipv6-format_ipv6 : (v : ℕ) → v < 2 ^ 128 → parse_ipv6 (format_ipv6 v) ≡ some v
unfolding format_ipv6
parse_ipv6-format_ipv6 v l =
    parse_compress (groups_of 8 v) _ (groups_of-AreGroups 8 v) (length-groups_of 8 v)
      (best_run-IsCut_all (groups_of 8 v))
    ∙ ap some (join_groups-groups_of 8 0 v ∙ omega (arith, l))

abbrev pub is_grouped : ℕ → Bool
is_grouped c = is_hex c || c == 58

abbrev AreGrouped : List Text → Type 0
AreGrouped ps = All (λ s. All (λ c. is_grouped c ≡ true) s) ps

hex_is_grouped : (c : ℕ) → is_hex c ≡ true → is_grouped c ≡ true
hex_is_grouped c h = ground (arith, h)

texts-AreGrouped : (gs : List ℕ) → AreGroups gs → AreGrouped (texts gs)
texts-AreGrouped [] h = tt
texts-AreGrouped (g ∷ gs) h =
    (All-imp hex_is_grouped (hex g) (hex-IsHexText g h.0), texts-AreGrouped gs h.1)

take-AreGrouped : (n : ℕ) (ps : List Text) → AreGrouped ps → AreGrouped (take n ps)
take-AreGrouped zero ps h = tt
take-AreGrouped (suc n) [] h = tt
take-AreGrouped (suc n) (p ∷ ps) h = (h.0, take-AreGrouped n ps h.1)

drop-AreGrouped : (n : ℕ) (ps : List Text) → AreGrouped ps → AreGrouped (drop n ps)
drop-AreGrouped zero ps h = h
drop-AreGrouped (suc n) [] h = tt
drop-AreGrouped (suc n) (p ∷ ps) h = drop-AreGrouped n ps h.1

compress_grouped :
    (gs : List ℕ) (run : ℕ × ℕ) → AreGroups gs → All (λ c. is_grouped c ≡ true) (compress gs run)
compress_grouped gs run h = elim (Bool-cases (run.1 == 1)) [
  | inl one ↦ rw one (join-All _ (58 ∷ []) (texts gs) (refl, tt) (texts-AreGrouped gs h))
  | inr more ↦ rw more (
      All-append _ (join (58 ∷ []) (take run.0 (texts gs))) _
        (join-All _ (58 ∷ []) _ (refl, tt)
          (take-AreGrouped run.0 (texts gs) (texts-AreGrouped gs h)))
        (
          refl,
          (
            refl,
            join-All _ (58 ∷ []) (drop (run.0 + run.1) (texts gs)) (refl, tt)
                (drop-AreGrouped (run.0 + run.1) (texts gs) (texts-AreGrouped gs h)),
          ),
        ))
]

pub format_ipv6_grouped : (v : ℕ) → All (λ c. is_grouped c ≡ true) (format_ipv6 v)
unfolding format_ipv6
format_ipv6_grouped v = compress_grouped (groups_of 8 v) _ (groups_of-AreGroups 8 v)
