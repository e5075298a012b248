-- ===== src/Transport/Examples.antt =====
-- A gateway that offers plain WireGuard and a TLS transport for paying clients.
use cumulusvpn.Common.{
  ◌≡◌, ◌≤◌, ◌⊎◌, refl, String, false, Option, none, some, List, [], ◌∷◌, All, keep,
}
use cumulusvpn.Common.Decimal.{codes, decimal}
use cumulusvpn.Common.Text.{has_unit, split_unit, trim, trim_start, is_space, starts_with}
use cumulusvpn.Common.Sorting.{IsSorted}
use cumulusvpn.Transport.{
  Transport, free, premium, auto, stealth, whole, is_gated, preference, advertised_or_legacy,
  is_valid_port, tier_allows, index_of, is_allowed, rank, transport_fallback_chain,
  select_transport, require_transport, chosen, premium_only, apply_transport_to_endpoint,
  strip_endpoint_port, before_last, through_bracket,
}
use cumulusvpn.Transport.Choice.{
  IsUsable, transport_fallback_chain-IsUsable, select_transport-IsBest,
  require_transport-no_downgrade,
}

abbrev plain : Transport
plain = record { kind = "wg"; port = whole 51820; params = none }

abbrev tls : Transport
tls = record { kind = "wg-tls"; port = whole 443; params = some (("tier", "premium") ∷ []) }

abbrev offered : Option (List Transport)
offered = some (tls ∷ plain ∷ [])

abbrev native : List String
native = "wg" ∷ "awg" ∷ "wg-tls" ∷ []

-- A free client is told to upgrade, a paying one is given the TLS transport.
required :
    (require_transport offered stealth native free ≡ premium_only)
    × (require_transport offered stealth native premium ≡ chosen tls)
unfolding require_transport select_transport transport_fallback_chain is_allowed rank index_of
    preference advertised_or_legacy is_valid_port tier_allows is_gated
required = (refl, refl)

transport_fallback_chain-IsUsable_example :
    All (IsUsable auto native premium) (transport_fallback_chain offered auto native premium)
    × IsSorted (rank auto) (transport_fallback_chain offered auto native premium)
transport_fallback_chain-IsUsable_example =
    transport_fallback_chain-IsUsable offered auto native premium

select_run : select_transport offered auto native premium ≡ some plain
unfolding select_transport transport_fallback_chain is_allowed rank index_of preference
    advertised_or_legacy is_valid_port tier_allows is_gated
select_run = refl

select_transport-IsBest_example :
    IsUsable auto native premium plain
    × All
        (λ u. rank auto plain ≤ rank auto u)
        (keep (is_allowed auto native premium) (advertised_or_legacy offered))
select_transport-IsBest_example =
    select_transport-IsBest offered auto native premium plain select_run

require_transport-no_downgrade_example :
    ((tls.kind ≡ "wg-tls") ⊎ (tls.kind ≡ "awg"))
    × ((premium ≡ premium) ⊎ (is_gated tls.params ≡ false))
require_transport-no_downgrade_example =
    require_transport-no_downgrade offered native premium tls required.1

endpoints :
    (apply_transport_to_endpoint (codes "1.2.3.4:51820") tls ≡ codes "1.2.3.4:443")
    × (apply_transport_to_endpoint (codes "[::1]:51820") tls ≡ codes "[::1]:443")
unfolding apply_transport_to_endpoint strip_endpoint_port before_last through_bracket has_unit
    split_unit trim trim_start is_space starts_with decimal
endpoints = (refl, refl)
