-- ===== src/Hops.antt =====
-- `selectHops` of clients/core-ts/src/multihop.ts: the choice of the entry and the exit of a route.
-- The tests on a country, an address and a subnet work on texts; `String.prototype.toLowerCase` is the
-- argument `lower`. A load is a non-negative double, and stands here as its bit pattern, which is
-- ordered like the number.
pub mod Routes
mod Examples
use cumulusvpn.Common.{
  length, take, ℕ, ◌≡◌, Bool, true, false, Option, none, some, List, [], ◌∷◌, ltb, leb, ◌==◌, not,
  ◌&&◌, ◌||◌, ◌⊎◌, inl, inr, if◌then◌else◌, keep, find, sort_by,
}
use cumulusvpn.Common.Text.{Text, text_eq, text_less, includes, has_unit, split_unit, join}

pub data RouteStyle : Type 0 where
  single same_country cross_jurisdiction : RouteStyle

pub record Gateway : Type 0 where
  pub ip : Text
  pub country : Text
  pub load : ℕ

pub record SelectHopsOptions : Type 0 where
  pub entry_country : Option Text
  pub exit_country : Option Text
  pub entry_ips : Option (List Text)
  pub exit_ips : Option (List Text)
  pub require_distinct_subnet : Bool

pub record SelectedHops : Type 0 where
  pub entry : Gateway
  pub exit : Option Gateway

-- What the thrown message tells: the country asked for, whether an entry city was chosen; the style,
-- the country of the first entry, whether an exit city was chosen and whether subnets must differ.
pub data HopsError : Type 0 where
  no_gateways : HopsError
  no_entry : Option Text → Bool → HopsError
  no_exit : RouteStyle → Text → Bool → Bool → HopsError

unfoldable pub subnet_group : (Text → Text) → Text → Text
subnet_group lower ip =
    if has_unit 58 ip
    then lower (join (58 ∷ []) (take 3 (split_unit 58 ip)))
    else let octets = split_unit 46 ip in
      if length octets == 4 then join (46 ∷ []) (take 3 octets) else ip

-- `byLoadThenCountry(a, b) < 0`
unfoldable pub by_load_then_country : Gateway → Gateway → Bool
by_load_then_country a b =
    if ltb a.load b.load
    then true
    else if ltb b.load a.load
    then false
    else if text_eq a.country b.country
    then (if text_eq a.ip b.ip then false else text_less a.ip b.ip)
    else text_less a.country b.country

-- `!country || g.country === country`: the empty text is no choice either
unfoldable pub in_country : Option Text → Text → Bool
in_country none c = true
in_country (some []) c = true
in_country (some (x ∷ xs)) c = text_eq c (x ∷ xs)

unfoldable pub among : Option (List Text) → Text → Bool
among none ip = true
among (some ips) ip = includes ips ip

unfoldable pub is_entry : SelectHopsOptions → Gateway → Bool
is_entry opts g = in_country opts.entry_country g.country && among opts.entry_ips g.ip

-- `single` returns before the exit is looked for; the code's last test is the one for the third style
unfoldable pub fits_style : RouteStyle → Gateway → Gateway → Bool
fits_style single from g = not (text_eq g.country from.country)
fits_style same_country from g = text_eq g.country from.country
fits_style cross_jurisdiction from g = not (text_eq g.country from.country)

module _ (lower : Text → Text) where
  unfoldable pub is_exit_for : RouteStyle → SelectHopsOptions → Gateway → Gateway → Bool
  is_exit_for style opts from g =
      if text_eq g.ip from.ip
      then false
      else if not (in_country opts.exit_country g.country)
      then false
      else if not (among opts.exit_ips g.ip)
      then false
      else if opts.require_distinct_subnet
          && text_eq (subnet_group lower g.ip) (subnet_group lower from.ip)
      then false
      else fits_style style from g

  unfoldable pub first_route :
      RouteStyle → SelectHopsOptions → List Gateway → List Gateway → Option SelectedHops
  first_route style opts sorted [] = none
  first_route style opts sorted (candidate ∷ pool) =
      let rest = first_route style opts sorted pool in
      elim (find (is_exit_for style opts candidate) sorted) [
        | some g ↦ some (record { entry = candidate; exit = some g })
        | none ↦ rest
      ]

  abbrev is_some : Option (List Text) → Bool
  is_some none = false
  is_some (some ips) = true

  -- `opts.entryCountry || entryIps`, as the country that the message names and whether a city was chosen
  unfoldable pub entry_error : Option Text → Option (List Text) → HopsError
  entry_error (some (x ∷ xs)) ips = no_entry (some (x ∷ xs)) (is_some ips)
  entry_error (some []) (some ips) = no_entry none true
  entry_error none (some ips) = no_entry none true
  entry_error (some []) none = no_gateways
  entry_error none none = no_gateways

  unfoldable pub paired :
      RouteStyle → SelectHopsOptions → List Gateway → List Gateway → HopsError ⊎ SelectedHops
  paired style opts sorted [] = inl (entry_error opts.entry_country opts.entry_ips)
  paired single opts sorted (entry ∷ pool) = inr (record { entry = entry; exit = none })
  paired same_country opts sorted (entry ∷ pool) =
      elim (first_route same_country opts sorted (entry ∷ pool)) [
        | some hops ↦ inr hops
        | none ↦ inl (
            no_exit same_country entry.country (is_some opts.exit_ips) opts.require_distinct_subnet)
      ]
  paired cross_jurisdiction opts sorted (entry ∷ pool) =
      elim (first_route cross_jurisdiction opts sorted (entry ∷ pool)) [
        | some hops ↦ inr hops
        | none ↦ inl (
            no_exit cross_jurisdiction entry.country (is_some opts.exit_ips)
              opts.require_distinct_subnet)
      ]

  unfoldable pub select_hops :
      List Gateway → RouteStyle → SelectHopsOptions → HopsError ⊎ SelectedHops
  select_hops gateways style opts =
      let sorted = sort_by by_load_then_country gateways in
      paired style opts sorted (keep (is_entry opts) sorted)
