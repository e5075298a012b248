-- ===== src/Split/Routes.antt =====
-- The route lists of clients/core-ts/src/split.ts, as texts, and the addresses that they hold.
use mathlib.Core.Option.{none-ne-some, some-injective}
use mathlib.Core.Path.{subst}
use mathlib.Core.List.{append-nil}
use cumulusvpn.Common.{
  ℕ, ◌<◌, ◌^◌, ◌≡◌, refl, sym, ap, ◌∙◌, inl, inr, Bool, true, false, ◌&&◌, ◌||◌, not, Option, none,
  some, Option-cases, List, [], ◌∷◌, ◌++◌, map, All, Bool-cases, arith,
}
use cumulusvpn.Common.ListLaws.{All-append}
use cumulusvpn.Common.Text.{Text}
use cumulusvpn.Split.Accepted.{parse_cidr-IsBlock}
use cumulusvpn.Split.Address.{parse_cidr, format_cidr}
use cumulusvpn.Split.Blocks.{
  Family, family_eq, v4, v6, family_bits, Cidr, merged_of, whole_space, complement,
}
use cumulusvpn.Split.Compile.{
  parse_cidrs, merged_blocks, subtracted_blocks, merged_cidr_strings, subtract_cidr_strings,
  complement_routes,
}
use cumulusvpn.Split.Covering.{
  routed, of_family, routed-intervals_to_cidrs, merged_of-IsSeparated, inside-merged_of,
  routed-complement, intervals-append,
}
use cumulusvpn.Split.Interval.{inside}
use cumulusvpn.Split.RoundTrip.{IsBlock, parse_cidr-format_cidr}
use cumulusvpn.Split.Subtracting.{inside-append, inside-subtract_intervals}
use cumulusvpn.Split.Within.{
  IsBlockOf, subtract_intervals-AreBelow, intervals_to_cidrs-AreBlocks, merged_of-AreBelow,
  whole_space-AreBelow,
}

abbrev pub held_by : Option (List Cidr) → Family → ℕ → Bool
held_by none fam x = false
held_by (some cs) fam x = routed x (of_family fam cs)

-- Whether a list of routes, as a reader of the texts understands it, holds an address of a family.
abbrev pub covered : List Text → Family → ℕ → Bool
covered routes fam x = held_by (parse_cidrs routes) fam x

parse_cidrs-printed : (cs : List Cidr) → All IsBlock cs → parse_cidrs (map format_cidr cs) ≡ some cs
unfolding parse_cidrs
parse_cidrs-printed [] h = refl
parse_cidrs-printed (c ∷ cs) h =
    rw (parse_cidrs, parse_cidr-format_cidr c h.0, parse_cidrs-printed cs h.1) refl

pub parse_cidrs-IsBlock :
    (vs : List Text) (cs : List Cidr) → parse_cidrs vs ≡ some cs → All IsBlock cs
unfolding parse_cidrs
parse_cidrs-IsBlock [] cs h = subst (All IsBlock) (some-injective _ _ h) tt
parse_cidrs-IsBlock (v ∷ vs) cs h = elim (Option-cases (parse_cidr v)) [
  | inl e ↦ elim (none-ne-some _ (rw (parse_cidrs, e) at h)) [ ]
  | inr (c, e) ↦ elim (Option-cases (parse_cidrs vs)) [
    | inl f ↦ elim (none-ne-some _ (rw (parse_cidrs, e, f) at h)) [ ]
    | inr (ds, f) ↦
        subst (All IsBlock) (some-injective _ _ (rw (parse_cidrs, e, f) at h))
          (parse_cidr-IsBlock v c e, parse_cidrs-IsBlock vs ds f)
  ]
]

map-append : (a b : List Cidr) → map format_cidr (a ++ b) ≡ map format_cidr a ++ map format_cidr b
map-append [] b = refl
map-append (c ∷ a) b = ap (λ l. format_cidr c ∷ l) (map-append a b)

of_same : (fam : Family) (cs : List Cidr) → All (IsBlockOf fam) cs → of_family fam cs ≡ cs
of_same fam [] h = refl
of_same fam (c ∷ cs) h = rw (h.0.1, of_same fam cs h.1) refl

apart : (f a b : Family) → family_eq f a ≡ true → family_eq a b ≡ false → family_eq f b ≡ false
apart v4 v4 b p q = q
apart v6 v6 b p q = q
apart v4 v6 b p q = ground (arith, p)
apart v6 v4 b p q = ground (arith, p)

of_other :
    (fam other : Family) (cs : List Cidr)
    → family_eq fam other ≡ false
    → All (IsBlockOf fam) cs
    → of_family other cs ≡ []
of_other fam other [] differ h = refl
of_other fam other (c ∷ cs) differ h =
    rw (apart c.family fam other h.0.1 differ) (of_other fam other cs differ h.1)

pub of_family-append :
    (fam : Family) (a b : List Cidr) → of_family fam (a ++ b) ≡ of_family fam a ++ of_family fam b
of_family-append fam [] b = refl
of_family-append fam (c ∷ a) b = elim (Bool-cases (family_eq c.family fam)) [
  | inl same ↦ rw same (ap (λ l. c ∷ l) (of_family-append fam a b))
  | inr other ↦ rw other (of_family-append fam a b)
]

-- One list of blocks for each family, printed the one behind the other.
module _ (blocks : Family → List Cidr) (h : (fam : Family) → All (IsBlockOf fam) (blocks fam)) where
  of_both : (fam : Family) → of_family fam (blocks v4 ++ blocks v6) ≡ blocks fam
  of_both v4 =
      of_family-append v4 (blocks v4) (blocks v6)
      ∙ (rw (of_same v4 (blocks v4) (h v4), of_other v6 v4 (blocks v6) refl (h v6))
          (append-nil (blocks v4)))
  of_both v6 =
      of_family-append v6 (blocks v4) (blocks v6)
      ∙ (rw (of_same v6 (blocks v6) (h v6), of_other v4 v6 (blocks v4) refl (h v4)) refl)

  are_blocks : (fam : Family) (cs : List Cidr) → All (IsBlockOf fam) cs → All IsBlock cs
  are_blocks fam [] k = tt
  are_blocks fam (c ∷ cs) k = (k.0.0, are_blocks fam cs k.1)

  read_back :
      parse_cidrs (map format_cidr (blocks v4) ++ map format_cidr (blocks v6))
      ≡ some (blocks v4 ++ blocks v6)
  read_back =
      ap parse_cidrs (sym (map-append (blocks v4) (blocks v6)))
      ∙ parse_cidrs-printed (blocks v4 ++ blocks v6)
          (All-append _ (blocks v4) _ (are_blocks v4 _ (h v4)) (are_blocks v6 _ (h v6)))

  covered_printed :
      (fam : Family) (x : ℕ)
      → covered (map format_cidr (blocks v4) ++ map format_cidr (blocks v6)) fam x
        ≡ routed x (blocks fam)
  covered_printed fam x = ap (λ r. held_by r fam x) read_back ∙ ap (routed x) (of_both fam)

pub covered_parsed :
    (vs : List Text) (cs : List Cidr) (fam : Family) (x : ℕ)
    → parse_cidrs vs ≡ some cs
    → covered vs fam x ≡ routed x (of_family fam cs)
covered_parsed vs cs fam x e = ap (λ r. held_by r fam x) e

merged_blocks-AreBlocks :
    (cs : List Cidr) → All IsBlock cs → (fam : Family) → All (IsBlockOf fam) (merged_blocks fam cs)
unfolding merged_blocks
merged_blocks-AreBlocks cs h fam =
    intervals_to_cidrs-AreBlocks (merged_of fam cs) fam (merged_of-AreBelow fam cs h)

routed-merged_blocks :
    (x : ℕ) (fam : Family) (cs : List Cidr)
    → routed x (merged_blocks fam cs) ≡ routed x (of_family fam cs)
unfolding merged_blocks
routed-merged_blocks x fam cs =
    routed-intervals_to_cidrs x (merged_of fam cs) fam ∙ inside-merged_of x fam cs

-- Merging a list of routes does not throw where its texts can be read, and the printed list can be read
-- again and holds the same addresses.
pub merged_cidr_strings_covers :
    (vs : List Text) (cs : List Cidr)
    → parse_cidrs vs ≡ some cs
    → (out : List Text) × (merged_cidr_strings vs ≡ some out)
      × ((ds : List Cidr) × (parse_cidrs out ≡ some ds))
      × ((fam : Family) (x : ℕ) → covered out fam x ≡ covered vs fam x)
unfolding merged_cidr_strings
merged_cidr_strings_covers vs cs e = (
  _,
  rw (merged_cidr_strings, e) refl,
  (merged_blocks v4 cs ++ merged_blocks v6 cs, read_back (λ f. merged_blocks f cs) blocks),
  λ fam x.
      covered_printed (λ f. merged_blocks f cs) blocks fam x
      ∙ (routed-merged_blocks x fam cs ∙ sym (covered_parsed vs cs fam x e)),
)
  where
    blocks : (fam : Family) → All (IsBlockOf fam) (merged_blocks fam cs)
    blocks = merged_blocks-AreBlocks cs (parse_cidrs-IsBlock vs cs e)

subtracted_blocks-AreBlocks :
    (cs ds : List Cidr)
    → All IsBlock cs
    → (fam : Family) → All (IsBlockOf fam) (subtracted_blocks fam cs ds)
unfolding subtracted_blocks
subtracted_blocks-AreBlocks cs ds h fam = intervals_to_cidrs-AreBlocks _ fam (
    subtract_intervals-AreBelow _ (merged_of fam cs) (merged_of fam ds)
      (merged_of-AreBelow fam cs h))

routed-subtracted_blocks :
    (x : ℕ) (fam : Family) (cs ds : List Cidr)
    → routed x (subtracted_blocks fam cs ds)
      ≡ (routed x (of_family fam cs) && not (routed x (of_family fam ds)))
unfolding subtracted_blocks
routed-subtracted_blocks x fam cs ds =
    routed-intervals_to_cidrs x _ fam
    ∙ (inside-subtract_intervals x (merged_of fam cs) (merged_of fam ds)
          (merged_of-IsSeparated fam ds)
        ∙ (rw (inside-merged_of x fam cs, inside-merged_of x fam ds) refl))

-- The printed difference of two lists that can be read can be read again, and holds the addresses of the first that the second
-- does not hold.
pub subtract_cidr_strings_covers :
    (a b : List Text) (cs ds : List Cidr)
    → parse_cidrs a ≡ some cs
    → parse_cidrs b ≡ some ds
    → (out : List Text) × (subtract_cidr_strings a b ≡ some out)
      × ((es : List Cidr) × (parse_cidrs out ≡ some es))
      × ((fam : Family) (x : ℕ) → covered out fam x ≡ (covered a fam x && not (covered b fam x)))
unfolding subtract_cidr_strings
subtract_cidr_strings_covers a b cs ds e f = (
  _,
  rw (subtract_cidr_strings, e, f) refl,
  (
    subtracted_blocks v4 cs ds ++ subtracted_blocks v6 cs ds,
    read_back (λ g. subtracted_blocks g cs ds)
        (subtracted_blocks-AreBlocks cs ds (parse_cidrs-IsBlock a cs e)),
  ),
  λ fam x.
      covered_printed (λ g. subtracted_blocks g cs ds)
        (subtracted_blocks-AreBlocks cs ds (parse_cidrs-IsBlock a cs e)) fam x
      ∙ (routed-subtracted_blocks x fam cs ds
          ∙ (rw (covered_parsed a cs fam x e, covered_parsed b ds fam x f) refl)),
)

complement-AreBlocks : (cs : List Cidr) (fam : Family) → All (IsBlockOf fam) (complement fam cs)
unfolding complement
complement-AreBlocks cs fam = intervals_to_cidrs-AreBlocks _ fam (
    subtract_intervals-AreBelow _ (whole_space fam ∷ []) (merged_of fam cs)
      (whole_space-AreBelow fam))

-- The printed complement of a list that can be read can be read again, and holds exactly the addresses of both families that
-- the list does not hold.
pub complement_routes_covers :
    (vs : List Text) (cs : List Cidr)
    → parse_cidrs vs ≡ some cs
    → (out : List Text) × (complement_routes vs ≡ some out)
      × ((ds : List Cidr) × (parse_cidrs out ≡ some ds))
      × ((fam : Family) (x : ℕ)
          → x < 2 ^ family_bits fam
          → covered out fam x ≡ not (covered vs fam x))
unfolding complement_routes
complement_routes_covers vs cs e = (
  _,
  rw (complement_routes, e) refl,
  (
    complement v4 cs ++ complement v6 cs,
    read_back (λ f. complement f cs) (complement-AreBlocks cs),
  ),
  λ fam x l.
      covered_printed (λ f. complement f cs) (complement-AreBlocks cs) fam x
      ∙ (routed-complement x fam cs l ∙ ap not (sym (covered_parsed vs cs fam x e))),
)

routed_of-append :
    (fam : Family) (x : ℕ) (a b : List Cidr)
    → routed x (of_family fam (a ++ b)) ≡ (routed x (of_family fam a) || routed x (of_family fam b))
routed_of-append fam x a b =
    ap (routed x) (of_family-append fam a b)
    ∙ (ap (inside x) (intervals-append (of_family fam a) (of_family fam b)) ∙ inside-append x _ _)

pub covered_cons :
    (v : Text) (vs : List Text) (c : Cidr) (cs : List Cidr) (fam : Family) (x : ℕ)
    → parse_cidr v ≡ some c
    → parse_cidrs vs ≡ some cs
    → covered (v ∷ vs) fam x ≡ (routed x (of_family fam (c ∷ [])) || covered vs fam x)
unfolding parse_cidrs
covered_cons v vs c cs fam x e f =
    covered_parsed (v ∷ vs) (c ∷ cs) fam x (rw (parse_cidrs, e, f) refl)
    ∙ (routed_of-append fam x (c ∷ []) cs
        ∙ ap (λ r. routed x (of_family fam (c ∷ [])) || r) (sym (covered_parsed vs cs fam x f)))
