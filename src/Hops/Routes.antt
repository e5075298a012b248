-- ===== src/Hops/Routes.antt =====
-- What `selectHops` of clients/core-ts/src/multihop.ts promises: a returned route keeps every rule, and
-- it fails only where no route exists.
use cumulusvpn.Common.{
  ◌≡◌, ◌≢◌, refl, Bool, true, false, Bool-cases, Option, none, some, Option-cases, List, [], ◌∷◌,
  inl, inr, keep, find, All, sort_by, arith, ap, ◌∙◌,
}
use cumulusvpn.Common.ListLaws.{All-sort_by, keep-All, All-keep}
use cumulusvpn.Common.Sorting.{sort_by-All, All-of_keep, All-keep_of, All-map}
use cumulusvpn.Common.Text.{Text, text_eq_iff}
use cumulusvpn.Hops.{
  RouteStyle, single, same_country, cross_jurisdiction, Gateway, SelectHopsOptions, SelectedHops,
  HopsError, subnet_group, by_load_then_country, in_country, among, is_entry, fits_style,
  is_exit_for, first_route, paired, select_hops,
}

abbrev pub Jurisdiction : RouteStyle → Gateway → Gateway → Type 0
Jurisdiction single from g = from.country ≢ g.country
Jurisdiction same_country from g = from.country ≡ g.country
Jurisdiction cross_jurisdiction from g = from.country ≢ g.country

-- The rules for the exit of a route that enters at `from`.
pub record IsExit (lower : Text → Text) (style : RouteStyle) (opts : SelectHopsOptions)
    (from g : Gateway) : Type 0 where
  pub other : from.ip ≢ g.ip
  pub country : in_country opts.exit_country g.country ≡ true
  pub city : among opts.exit_ips g.ip ≡ true
  pub apart :
      opts.require_distinct_subnet ≡ true → subnet_group lower from.ip ≢ subnet_group lower g.ip
  pub jurisdiction : Jurisdiction style from g

pub record IsRoute (lower : Text → Text) (style : RouteStyle) (opts : SelectHopsOptions)
    (from g : Gateway) : Type 0 where
  pub entry : is_entry opts from ≡ true
  pub exit : IsExit lower style opts from g

fits_style_iff-to :
    (style : RouteStyle) (from g : Gateway)
    → fits_style style from g ≡ true
    → Jurisdiction style from g
unfolding fits_style
fits_style_iff-to single from g h = ground (arith, text_eq_iff g.country from.country)
fits_style_iff-to same_country from g h = ground (arith, text_eq_iff g.country from.country)
fits_style_iff-to cross_jurisdiction from g h = ground (arith, text_eq_iff g.country from.country)

fits_style_iff-from :
    (style : RouteStyle) (from g : Gateway)
    → Jurisdiction style from g
    → fits_style style from g ≡ true
unfolding fits_style
fits_style_iff-from single from g h = ground (arith, text_eq_iff g.country from.country)
fits_style_iff-from same_country from g h = ground (arith, text_eq_iff g.country from.country)
fits_style_iff-from cross_jurisdiction from g h = ground (arith, text_eq_iff g.country from.country)

module _ (lower : Text → Text) where
  is_exit_for-IsExit :
      (style : RouteStyle) (opts : SelectHopsOptions) (from g : Gateway)
      → is_exit_for lower style opts from g ≡ true
      → IsExit lower style opts from g
  unfolding is_exit_for
  is_exit_for-IsExit style opts from g h = record {
    other = ground (arith, text_eq_iff g.ip from.ip);
    country = ground arith;
    city = ground arith;
    apart = λ d. ground (arith, text_eq_iff (subnet_group lower g.ip) (subnet_group lower from.ip));
    jurisdiction = fits_style_iff-to style from g (ground arith);
  }

  IsExit-is_exit_for :
      (style : RouteStyle) (opts : SelectHopsOptions) (from g : Gateway)
      → IsExit lower style opts from g
      → is_exit_for lower style opts from g ≡ true
  unfolding is_exit_for
  IsExit-is_exit_for style opts from g h =
      let other = h.other in
      let country = h.country in
      let city = h.city in
      let apart = h.apart in
      let fits = fits_style_iff-from style from g h.jurisdiction in
      ground (
        arith,
        text_eq_iff g.ip from.ip,
        text_eq_iff (subnet_group lower g.ip) (subnet_group lower from.ip),
      )

  find-holds :
      (P : Gateway → Type 0) (p : Gateway → Bool) (xs : List Gateway) (g : Gateway)
      → All P xs
      → find p xs ≡ some g
      → P g × (p g ≡ true)
  find-holds P p [] g h e = cc
  find-holds P p (x ∷ xs) g h e = elim (Bool-cases (p x)) [
    | inl hit ↦ let e' = rw hit at e in let same : x ≡ g = cc in rw (← same) (h.0, hit)
    | inr miss ↦ find-holds P p xs g h.1 (rw miss at e)
  ]

  find-none :
      (p : Gateway → Bool) (xs : List Gateway) → find p xs ≡ none → All (λ g. p g ≡ false) xs
  find-none p [] e = tt
  find-none p (x ∷ xs) e = elim (Bool-cases (p x)) [
    | inl hit ↦ let e' = rw hit at e in cc
    | inr miss ↦ (miss, find-none p xs (rw miss at e))
  ]

  -- The exit of a result: none for a single hop, one that keeps the rules otherwise.
  abbrev pub Exits :
      (Gateway → Type 0) → RouteStyle → SelectHopsOptions → Gateway → Option Gateway → Type 0
  Exits P single opts entry exit = exit ≡ none
  Exits P same_country opts entry exit =
      (g : Gateway) × (exit ≡ some g) × P g × IsExit lower same_country opts entry g
  Exits P cross_jurisdiction opts entry exit =
      (g : Gateway) × (exit ≡ some g) × P g × IsExit lower cross_jurisdiction opts entry g

  first_route-holds :
      (P Q : Gateway → Type 0) (style : RouteStyle) (opts : SelectHopsOptions)
      (sorted pool : List Gateway) (hops : SelectedHops)
      → All P sorted
      → All Q pool
      → first_route lower style opts sorted pool ≡ some hops
      → Q hops.entry
        × ((g : Gateway) × (hops.exit ≡ some g) × P g × IsExit lower style opts hops.entry g)
  unfolding first_route
  first_route-holds P Q style opts sorted [] hops hp hq e = cc
  first_route-holds P Q style opts sorted (c ∷ pool) hops hp hq e =
      elim (Option-cases (find (is_exit_for lower style opts c) sorted)) [
        | inl n ↦
            first_route-holds P Q style opts sorted pool hops hp hq.1 (rw (first_route, n) at e)
        | inr (g, f) ↦
            let e' = rw (first_route, f) at e in
            let (pg, ok) = find-holds P _ sorted g hp f in
            let same : record { entry = c; exit = some g } ≡ hops = cc in
            rw (← same) (hq.0, (g, refl, pg, is_exit_for-IsExit style opts c g ok))
      ]

  first_route-none :
      (style : RouteStyle) (opts : SelectHopsOptions) (sorted pool : List Gateway)
      → first_route lower style opts sorted pool ≡ none
      → All (λ c. All (λ g. is_exit_for lower style opts c g ≡ false) sorted) pool
  unfolding first_route
  first_route-none style opts sorted [] e = tt
  first_route-none style opts sorted (c ∷ pool) e =
      elim (Option-cases (find (is_exit_for lower style opts c) sorted)) [
        | inl n ↦ (
          find-none _ sorted n,
          first_route-none style opts sorted pool (rw (first_route, n) at e),
        )
        | inr (g, f) ↦ let e' = rw (first_route, f) at e in cc
      ]

  paired-Exits :
      (P Q : Gateway → Type 0) (style : RouteStyle) (opts : SelectHopsOptions)
      (sorted pool : List Gateway) (hops : SelectedHops)
      → All P sorted
      → All Q pool
      → paired lower style opts sorted pool ≡ inr hops
      → Q hops.entry × Exits P style opts hops.entry hops.exit
  unfolding paired
  paired-Exits P Q style opts sorted [] hops hp hq e = cc
  paired-Exits P Q single opts sorted (c ∷ pool) hops hp hq e =
      let same : record { entry = c; exit = none } ≡ hops = cc in rw (← same) (hq.0, refl)
  paired-Exits P Q same_country opts sorted (c ∷ pool) hops hp hq e =
      elim (Option-cases (first_route lower same_country opts sorted (c ∷ pool))) [
        | inl n ↦ let e' = rw (paired, n) at e in cc
        | inr (found, f) ↦
            let e' = rw (paired, f) at e in
            let same : found ≡ hops = cc in
            first_route-holds P Q same_country opts sorted (c ∷ pool) hops hp hq (f ∙ ap some same)
      ]
  paired-Exits P Q cross_jurisdiction opts sorted (c ∷ pool) hops hp hq e =
      elim (Option-cases (first_route lower cross_jurisdiction opts sorted (c ∷ pool))) [
        | inl n ↦ let e' = rw (paired, n) at e in cc
        | inr (found, f) ↦
            let e' = rw (paired, f) at e in
            let same : found ≡ hops = cc in
            first_route-holds P Q cross_jurisdiction opts sorted (c ∷ pool) hops hp hq
              (f ∙ ap some same)
      ]

  -- A route that `selectHops` returns enters at a gateway of the fleet that the entry picks allow. A
  -- single hop has no exit; any other route has one, a gateway of the fleet with another address, that
  -- keeps the exit picks, the subnet rule when it is on, and the style's rule on countries.
  pub select_hops-Exits :
      (P : Gateway → Type 0) (gateways : List Gateway) (style : RouteStyle)
      (opts : SelectHopsOptions) (hops : SelectedHops)
      → All P gateways
      → select_hops lower gateways style opts ≡ inr hops
      → P hops.entry × (is_entry opts hops.entry ≡ true) × Exits P style opts hops.entry hops.exit
  unfolding select_hops
  select_hops-Exits P gateways style opts hops h e =
      let sorted = sort_by by_load_then_country gateways in
      let hs : All P sorted = All-sort_by P by_load_then_country gateways h in
      let (from_fleet, exits) =
        paired-Exits P (λ g. P g) style opts sorted (keep (is_entry opts) sorted) hops hs
          (All-keep P (is_entry opts) sorted hs) e in
      let (allowed, _) =
        paired-Exits P (λ g. is_entry opts g ≡ true) style opts sorted (keep (is_entry opts) sorted)
          hops hs (keep-All (is_entry opts) sorted) e in
      (from_fleet, allowed, exits)

  no_exits :
      (style : RouteStyle) (opts : SelectHopsOptions) (c : Gateway) (sorted : List Gateway)
      → All (λ g. is_exit_for lower style opts c g ≡ false) sorted
      → All (λ g. ¬ IsExit lower style opts c g) sorted
  no_exits style opts c sorted h =
      All-map _ _ (λ g off ex. let ok = IsExit-is_exit_for style opts c g ex in cc) sorted h

  paired_error :
      (style : RouteStyle) (opts : SelectHopsOptions) (sorted pool : List Gateway) (err : HopsError)
      → paired lower style opts sorted pool ≡ inl err
      → All (λ c. (style ≢ single) × All (λ g. ¬ IsExit lower style opts c g) sorted) pool
  unfolding paired
  paired_error style opts sorted [] err e = tt
  paired_error single opts sorted (c ∷ pool) err e = cc
  paired_error same_country opts sorted (c ∷ pool) err e =
      elim (Option-cases (first_route lower same_country opts sorted (c ∷ pool))) [
        | inl n ↦
            All-map _ _ (λ x h. ((λ q. cc), no_exits same_country opts x sorted h)) (c ∷ pool)
              (first_route-none same_country opts sorted (c ∷ pool) n)
        | inr (found, f) ↦ let e' = rw (paired, f) at e in cc
      ]
  paired_error cross_jurisdiction opts sorted (c ∷ pool) err e =
      elim (Option-cases (first_route lower cross_jurisdiction opts sorted (c ∷ pool))) [
        | inl n ↦
            All-map _ _ (λ x h. ((λ q. cc), no_exits cross_jurisdiction opts x sorted h)) (c ∷ pool)
              (first_route-none cross_jurisdiction opts sorted (c ∷ pool) n)
        | inr (found, f) ↦ let e' = rw (paired, f) at e in cc
      ]

  -- `selectHops` fails only where there is no route: for each gateway of the fleet that the entry picks
  -- allow, the style wants an exit and no gateway of the fleet keeps the rules for one.
  pub select_hops_complete :
      (gateways : List Gateway) (style : RouteStyle) (opts : SelectHopsOptions) (err : HopsError)
      → select_hops lower gateways style opts ≡ inl err
      → All
          (λ c. (style ≢ single) × All (λ g. ¬ IsExit lower style opts c g) gateways)
          (keep (is_entry opts) gateways)
  unfolding select_hops
  select_hops_complete gateways style opts err e =
      let sorted = sort_by by_load_then_country gateways in
      let bad = paired_error style opts sorted (keep (is_entry opts) sorted) err e in
      All-keep_of _ (is_entry opts) gateways (
        sort_by-All _ by_load_then_country gateways (
          All-of_keep _ (is_entry opts) sorted (
            All-map _ _ (λ c h. (h.0, sort_by-All _ by_load_then_country gateways h.1))
              (keep (is_entry opts) sorted) bad)))
