-- ===== src/Split/Examples.antt =====
-- Intervals and blocks of clients/core-ts/src/split.ts at a few addresses.
use cumulusvpn.Common.{
  ℕ, length, ◌≡◌, refl, inl, ◌⊎◌, true, false, not, none, some, [], ◌∷◌, All, arith,
}
use cumulusvpn.Common.Decimal.{codes, decimal}
use cumulusvpn.Common.Numeral.{digits, number_up_to, before_unit, after_unit}
use cumulusvpn.Common.Text.{Text, has_unit, split_unit, join, is_space, trim_start, trim}
use cumulusvpn.Split.Address.{
  octet, join_octets, parse_ipv4, with_prefix, of_address, parse_cidr, format_ipv4, format_cidr,
}
use cumulusvpn.Split.Compile.{CompileSplitContext, compile_split_policy}
use cumulusvpn.Split.Domain.{
  code_points, variable_digits, adapt_loop, adapt, encode_points, least_from, encode_rounds,
  basic_of, start, punycode_encode,
}
use cumulusvpn.Split.Punycode.{punycode_encode_ends}
use cumulusvpn.Split.Gate.{IsGated, normalize_cidr_value_stable}
use cumulusvpn.Split.Loading.{
  holds_endpoint, past_endpoints, normalize_cidr_value, sanitize_split_policy,
}
use cumulusvpn.Split.Policies.{IsUsable}
use cumulusvpn.Split.Wanted.{asks_in}
use cumulusvpn.Split.Allowed.{allowed_routes}
use cumulusvpn.Split.Routes.{covered}
use cumulusvpn.Split.Refinement.{Compiled, compile_split_policy_routes, endpoint_never_included}
use cumulusvpn.Split.RoundTrip.{IsBlock, parse_cidr-format_cidr}
use cumulusvpn.Split.Rules.{
  include, cidr, linux, tunnel, ok, Loaded, missing, flag, number, text, array, object, end_items,
  end_fields, field, SplitRule, SplitPolicy, CompiledSplit,
}
use cumulusvpn.Split.Sanitized.{sanitized_policy_compiles}
use cumulusvpn.Split.Interval.{Interval}
use cumulusvpn.Split.Blocks.{v4, Cidr, cidr_to_interval, complement}
use cumulusvpn.Split.Covering.{routed, of_family, routed-complement}

abbrev span : ℕ → ℕ → Interval
span a b = record { start = a; last = b }

-- 10.0.0.0/8
abbrev ten : Cidr
ten = record { family = v4; net = 167772160; prefix = 8 }

routed-complement_example :
    routed 167772161 (complement v4 (ten ∷ [])) ≡ not (routed 167772161 (of_family v4 (ten ∷ [])))
routed-complement_example = routed-complement 167772161 v4 (ten ∷ []) (omega arith)

ten-IsBlock : IsBlock ten
ten-IsBlock = ((10, refl, omega arith), omega arith)

parse_cidr-format_cidr_example : parse_cidr (format_cidr ten) ≡ some ten
parse_cidr-format_cidr_example = parse_cidr-format_cidr ten ten-IsBlock

-- 10.0.0.0/8 as a rule, and 10.1.2.3 as the gateway.
abbrev ten_rule : SplitRule
ten_rule = record {
  kind = cidr;
  value = format_cidr ten;
  label = missing;
  platform = none;
  enabled = true;
}

abbrev gateway : Cidr
gateway = record { family = v4; net = 167838211; prefix = 32 }

gateway-IsBlock : IsBlock gateway
gateway-IsBlock = ((167838211, refl, omega arith), omega arith)

abbrev include_ten : SplitPolicy
include_ten = record {
  mode = include;
  rules = ten_rule ∷ [];
  lan_bypass = false;
  excluded_dns = tunnel;
}

abbrev session : CompileSplitContext
session = record {
  platform = linux;
  supports_exclude_route = false;
  endpoint_ips = format_cidr gateway ∷ [];
}

include_ten-IsUsable : All IsUsable (include_ten).rules
include_ten-IsUsable = (λ same. (ten, parse_cidr-format_cidr ten ten-IsBlock), tt)

compile_split_policy_routes_example :
    (out : CompiledSplit) × (compile_split_policy include_ten session ≡ some out)
    × Compiled include false (asks_in include include_ten (session).endpoint_ips) out
compile_split_policy_routes_example =
    compile_split_policy_routes include_ten session include_ten-IsUsable

-- 11.0.0.0/8, which holds no endpoint, beside 10.0.0.0/8, which does.
abbrev eleven : Cidr
eleven = record { family = v4; net = 184549376; prefix = 8 }

eleven-IsBlock : IsBlock eleven
eleven-IsBlock = ((11, refl, omega arith), omega arith)

abbrev eleven_rule : SplitRule
eleven_rule = record {
  kind = cidr;
  value = format_cidr eleven;
  label = missing;
  platform = none;
  enabled = true;
}

abbrev include_both : SplitPolicy
include_both = record {
  mode = include;
  rules = ten_rule ∷ (eleven_rule ∷ []);
  lan_bypass = false;
  excluded_dns = tunnel;
}

include_both-IsUsable : All IsUsable (include_both).rules
include_both-IsUsable = (
  λ same. (ten, parse_cidr-format_cidr ten ten-IsBlock),
  (λ same. (eleven, parse_cidr-format_cidr eleven eleven-IsBlock), tt),
)

endpoint_never_included_example :
    (out : CompiledSplit) × (compile_split_policy include_both session ≡ some out)
    × (covered out.tunnel_routes v4 167838211 ≡ false)
    × ((out.tunnel_routes ≡ []) ⊎ (covered (allowed_routes (some out)) v4 167838211 ≡ false))
endpoint_never_included_example =
    endpoint_never_included include_both session (format_cidr gateway) gateway refl
      include_both-IsUsable (inl refl) (parse_cidr-format_cidr gateway gateway-IsBlock)

ten_passes :
    normalize_cidr_value (codes "10.9.8.7/8") (codes "11.2.3.4" ∷ []) ≡ ok (codes "10.0.0.0/8")
unfolding normalize_cidr_value past_endpoints holds_endpoint cidr_to_interval format_cidr
    format_ipv4 decimal join parse_cidr parse_ipv4 split_unit before_unit trim join_octets octet
    number_up_to digits with_prefix has_unit after_unit is_space trim_start of_address
ten_passes = refl

normalize_cidr_value_stable_example :
    IsGated (codes "11.2.3.4" ∷ []) (codes "10.0.0.0/8")
    × (normalize_cidr_value (codes "10.0.0.0/8") (codes "11.2.3.4" ∷ []) ≡ ok (codes "10.0.0.0/8"))
normalize_cidr_value_stable_example =
    normalize_cidr_value_stable (codes "10.9.8.7/8") (codes "11.2.3.4" ∷ []) (codes "10.0.0.0/8")
      ten_passes

abbrev stored : Loaded
stored = object (
    field (codes "version") (number 1) (
      field (codes "mode") (text (codes "exclude")) (
        field (codes "lanBypass") (flag true) (
          field (codes "excludedDns") (text (codes "system"))
            (field (codes "rules") (array end_items) end_fields)))))

abbrev same_text : Text → Text
same_text s = s

sanitized_policy_compiles_example :
    (out : CompiledSplit) × (compile_split_policy
        (sanitize_split_policy same_text same_text stored)
        session
      ≡ some out)
    × Compiled
        (sanitize_split_policy same_text same_text stored).mode
        false
        (asks_in
          (sanitize_split_policy same_text same_text stored).mode
          (sanitize_split_policy same_text same_text stored)
          (session).endpoint_ips)
        out
sanitized_policy_compiles_example = sanitized_policy_compiles same_text same_text stored session

-- "bücher"
abbrev books : Text
books = 98 ∷ 252 ∷ codes "cher"

punycode_encode_ends_example :
    ((encode_rounds 9
        (length (basic_of (code_points books)))
        (code_points books)
        128
        (start (basic_of (code_points books)))).handled
      ≡ length (code_points books))
    × ((encode_rounds 9
          (length (basic_of (code_points books)))
          (code_points books)
          128
          (start (basic_of (code_points books)))).output
        ≡ punycode_encode books)
unfolding code_points
punycode_encode_ends_example = punycode_encode_ends books 9 (omega arith)

books_encoded : punycode_encode books ≡ codes "bcher-kva"
unfolding punycode_encode encode_rounds encode_points least_from code_points variable_digits adapt
    adapt_loop
books_encoded = refl
