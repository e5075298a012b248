-- ===== src/Transport.antt =====
-- clients/core-ts/src/transport.ts: the choice of a transport for a gateway, the hard error in place of
-- a quiet downgrade, and the endpoint of the chosen transport.
pub mod Choice
mod Examples
use text.Mathlib.Text.{◌==◌ as str_eq}
use cumulusvpn.Common.{
  length, take, ℕ, zero, suc, ◌≡◌, String, Bool, true, false, Option, none, some, List, [], ◌∷◌,
  ◌++◌, ltb, leb, ◌==◌, not, ◌&&◌, ◌||◌, if◌then◌else◌, keep, any, find, sort_by,
}
use cumulusvpn.Common.Text.{Text, has_unit, split_unit, trim, starts_with}
use cumulusvpn.Common.Decimal.{decimal}

pub data TransportMode : Type 0 where
  auto speed stealth : TransportMode

pub data Tier : Type 0 where
  free premium : Tier

-- A `number`: one that is no natural number (negative, a fraction) is kept as it prints.
pub data Port : Type 0 where
  whole : ℕ → Port
  odd : Text → Port

pub record Transport : Type 0 where
  pub kind : String
  pub port : Port
  pub params : Option (List (String × String))

abbrev pub wg_port : ℕ
wg_port = 51820

unfoldable pub preference : TransportMode → List String
preference speed = "wg" ∷ "awg" ∷ []
preference auto = "wg" ∷ "awg" ∷ "wg-tls" ∷ []
preference stealth = "wg-tls" ∷ "awg" ∷ []

unfoldable pub advertised_or_legacy : Option (List Transport) → List Transport
advertised_or_legacy none = record { kind = "wg"; port = whole wg_port; params = none } ∷ []
advertised_or_legacy (some []) = record { kind = "wg"; port = whole wg_port; params = none } ∷ []
advertised_or_legacy (some (t ∷ ts)) = t ∷ ts

unfoldable pub is_valid_port : Port → Bool
is_valid_port (whole n) = leb 1 n && leb n 65535
is_valid_port (odd s) = false

-- `params?.tier === 'premium'`
unfoldable pub is_gated : Option (List (String × String)) → Bool
is_gated none = false
is_gated (some []) = false
is_gated (some ((k, v) ∷ kvs)) =
    let rest = is_gated (some kvs) in if str_eq k "tier" then str_eq v "premium" else rest

unfoldable pub tier_allows : Transport → Tier → Bool
tier_allows t premium = true
tier_allows t free = not (is_gated t.params)

unfoldable pub has_premium_transport : Option (List Transport) → Bool
has_premium_transport none = false
has_premium_transport (some ts) = any (λ t. is_gated t.params) ts

-- `indexOf`, one higher: 0 stands for -1
unfoldable pub index_of : String → List String → ℕ
index_of s [] = 0
index_of s (x ∷ xs) =
    let rest = index_of s xs in
    if str_eq x s then 1 else elim rest [ zero ↦ 0 | suc n ↦ suc (suc n) ]

unfoldable pub is_allowed : TransportMode → List String → Tier → Transport → Bool
is_allowed mode implemented tier t =
    any (str_eq t.kind) implemented
    && (any (str_eq t.kind) (preference mode) && (is_valid_port t.port && tier_allows t tier))

unfoldable pub rank : TransportMode → Transport → ℕ
rank mode t = index_of t.kind (preference mode)

abbrev pub preferred : TransportMode → Transport → Transport → Bool
preferred mode a b = ltb (rank mode a) (rank mode b)

unfoldable pub transport_fallback_chain :
    Option (List Transport) → TransportMode → List String → Tier → List Transport
transport_fallback_chain ts mode implemented tier =
    sort_by (preferred mode) (keep (is_allowed mode implemented tier) (advertised_or_legacy ts))

abbrev pub first_of : List Transport → Option Transport
first_of [] = none
first_of (t ∷ ts) = some t

unfoldable pub select_transport :
    Option (List Transport) → TransportMode → List String → Tier → Option Transport
select_transport ts mode implemented tier =
    first_of (transport_fallback_chain ts mode implemented tier)

-- The three errors that `requireTransport` throws, or the transport.
pub data Required : Type 0 where
  chosen : Transport → Required
  premium_only no_resistant no_compatible : Required

abbrev pub is_free_tier : Tier → Bool
is_free_tier free = true
is_free_tier premium = false

abbrev pub is_stealth : TransportMode → Bool
is_stealth stealth = true
is_stealth auto = false
is_stealth speed = false

abbrev pub is_empty : List Transport → Bool
is_empty [] = true
is_empty (t ∷ ts) = false

unfoldable pub require_transport :
    Option (List Transport) → TransportMode → List String → Tier → Required
require_transport ts mode implemented tier = elim (select_transport ts mode implemented tier) [
  | some t ↦ chosen t
  | none ↦
      if is_free_tier tier && not (is_empty (transport_fallback_chain ts mode implemented premium))
      then premium_only
      else if is_stealth mode
      then no_resistant
      else no_compatible
]

unfoldable pub obfs_for_transport : Transport → Option (List (String × String))
obfs_for_transport t = if str_eq t.kind "awg" then t.params else none

-- `s.slice(0, s.lastIndexOf(c))` where `c` occurs in `s`
unfoldable pub before_last : ℕ → Text → Text
before_last c [] = []
before_last c (x ∷ xs) = let rest = before_last c xs in if has_unit c xs then x ∷ rest else []

-- `s.slice(0, s.indexOf(']') + 1)`, all of `s` where there is none
unfoldable pub through_bracket : Text → Text
through_bracket [] = []
through_bracket (x ∷ xs) = let rest = through_bracket xs in if x == 93 then x ∷ [] else x ∷ rest

unfoldable pub strip_endpoint_port : Text → Text
strip_endpoint_port endpoint =
    let s = trim endpoint in
    if starts_with (91 ∷ []) s
    then through_bracket s
    else if has_unit 58 s && (length (split_unit 58 s) == 2)
    then before_last 58 s
    else s

abbrev port_text : Port → Text
port_text (whole n) = decimal n
port_text (odd s) = s

unfoldable pub apply_transport_to_endpoint : Text → Transport → Text
apply_transport_to_endpoint endpoint t = strip_endpoint_port endpoint ++ (58 ∷ port_text t.port)
