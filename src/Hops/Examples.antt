-- ===== src/Hops/Examples.antt =====
-- Routes over a fleet of three gateways, two of them in one subnet.
use cumulusvpn.Common.{
  ℕ, ◌≡◌, ◌≢◌, ◌≤◌, refl, true, false, none, some, List, [], ◌∷◌, All, keep, inl, inr, arith,
}
use cumulusvpn.Common.Decimal.{codes}
use cumulusvpn.Common.Text.{
  Text, text_eq, text_less, includes, has_unit, split_unit, split_pair, join,
}
use cumulusvpn.Hops.{
  single, same_country, cross_jurisdiction, Gateway, SelectHopsOptions, SelectedHops, no_exit,
  subnet_group, by_load_then_country, in_country, among, is_entry, fits_style, is_exit_for,
  first_route, paired, select_hops,
}
use cumulusvpn.Hops.Routes.{IsExit, Exits, select_hops-Exits, select_hops_complete}

abbrev gateway : ℕ → Text → Text → Gateway
gateway load ip country = record { ip = ip; country = country; load = load }

abbrev near : Gateway
near = gateway 1 (codes "10.1.1.1") (codes "DE")

abbrev beside : Gateway
beside = gateway 2 (codes "10.1.1.2") (codes "DE")

abbrev far : Gateway
far = gateway 3 (codes "10.9.1.1") (codes "US")

abbrev fleet : List Gateway
fleet = far ∷ near ∷ beside ∷ []

abbrev apart : SelectHopsOptions
apart = record {
  entry_country = none;
  exit_country = none;
  entry_ips = none;
  exit_ips = none;
  require_distinct_subnet = true;
}

abbrev same_case : Text → Text
same_case s = s

abbrev crossing : SelectedHops
crossing = record { entry = near; exit = some far }

cross_run : select_hops same_case fleet cross_jurisdiction apart ≡ inr crossing
unfolding select_hops paired first_route is_exit_for fits_style is_entry among in_country
    by_load_then_country subnet_group text_eq text_less includes has_unit split_unit split_pair join
cross_run = refl

select_hops-Exits_example :
    (near.load ≤ 3)
    × (is_entry apart near ≡ true)
    × Exits same_case (λ g. g.load ≤ 3) cross_jurisdiction apart near (some far)
select_hops-Exits_example =
    select_hops-Exits same_case (λ g. g.load ≤ 3) fleet cross_jurisdiction apart crossing
      (omega arith, (omega arith, (omega arith, tt))) cross_run

-- In one country the two gateways share a subnet.
same_run :
    select_hops same_case fleet same_country apart
    ≡ inl (no_exit same_country (codes "DE") false true)
unfolding select_hops paired first_route is_exit_for fits_style is_entry among in_country
    by_load_then_country subnet_group text_eq text_less includes has_unit split_unit split_pair join
same_run = refl

select_hops_complete_example :
    All
      (λ c. (same_country ≢ single) × All (λ g. ¬ IsExit same_case same_country apart c g) fleet)
      (keep (is_entry apart) fleet)
select_hops_complete_example =
    select_hops_complete same_case fleet same_country apart
      (no_exit same_country (codes "DE") false true) same_run
