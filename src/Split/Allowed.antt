-- ===== src/Split/Allowed.antt =====
-- `allowedIpsFor` of clients/core-ts/src/wgconfig.ts: what the configuration of a compiled policy routes
-- into the tunnel.
use cumulusvpn.Common.{
  ℕ, ◌<◌, ◌^◌, ◌≡◌, refl, Bool, true, false, ◌||◌, Option, none, some, List, [], ◌∷◌, if◌then◌else◌,
  arith,
}
use cumulusvpn.Common.Decimal.{codes}
use cumulusvpn.Common.Numeral.{digits, number_up_to, hex_digits, hex_up_to, before_unit, after_unit}
use cumulusvpn.Common.Text.{
  Text, has_unit, split_unit, split_pair, is_space, trim_start, trim, join,
}
use cumulusvpn.Split.Address.{
  octet, join_octets, parse_ipv4, group, groups_of_parts, parse_groups, zeros, join_groups, fill,
  parse_halves, parse_ipv6, with_prefix, of_address, parse_cidr,
}
use cumulusvpn.Split.Blocks.{Family, v4, v6, family_bits, cidr_to_interval}
use cumulusvpn.Split.Compile.{parse_cidrs}
use cumulusvpn.Split.Interval.{inside}
use cumulusvpn.Split.Routes.{covered}
use cumulusvpn.Split.Rules.{CompiledSplit}

abbrev pub full_tunnel : List Text
full_tunnel = codes "0.0.0.0/0" ∷ codes "::/0" ∷ []

abbrev pub is_none : List Text → Bool
is_none [] = true
is_none (v ∷ vs) = false

-- The routes, before they are joined.
unfoldable pub allowed_routes : Option CompiledSplit → List Text
allowed_routes none = full_tunnel
allowed_routes (some split) =
    if split.is_noop || is_none split.tunnel_routes then full_tunnel else split.tunnel_routes

unfoldable pub allowed_ips_for : Option CompiledSplit → Text
allowed_ips_for split = join (codes ", ") (allowed_routes split)

full_tunnel_covers :
    (fam : Family) (x : ℕ) → x < 2 ^ family_bits fam → covered full_tunnel fam x ≡ true
unfolding parse_cidrs inside cidr_to_interval parse_cidr of_address parse_ipv4 split_unit
    before_unit trim join_octets octet number_up_to digits with_prefix has_unit after_unit
    parse_ipv6 parse_halves split_pair fill parse_groups groups_of_parts hex_digits hex_up_to
    is_space trim_start group join_groups zeros
full_tunnel_covers v4 x l = ground arith
full_tunnel_covers v6 x l = ground arith

-- Without routes everything goes into the tunnel.
pub allowed_routes_full :
    (split : CompiledSplit) (fam : Family) (x : ℕ)
    → (split.is_noop || is_none split.tunnel_routes) ≡ true
    → x < 2 ^ family_bits fam
    → covered (allowed_routes (some split)) fam x ≡ true
unfolding allowed_routes
allowed_routes_full split fam x h l = rw h (full_tunnel_covers fam x l)

pub allowed_routes_listed :
    (split : CompiledSplit) (fam : Family) (x : ℕ)
    → (split.is_noop || is_none split.tunnel_routes) ≡ false
    → covered (allowed_routes (some split)) fam x ≡ covered split.tunnel_routes fam x
unfolding allowed_routes
allowed_routes_listed split fam x h = rw h refl
