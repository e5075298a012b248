-- ===== src/Transport/Choice.antt =====
-- What `transportFallbackChain`, `selectTransport` and `requireTransport` of
-- clients/core-ts/src/transport.ts choose.
use text.Mathlib.Text.{◌==◌ as str_eq}
use text.Mathlib.TextEquality.{eq_iff}
use cumulusvpn.Common.{
  ℕ, ◌≡◌, ◌≤◌, String, refl, Bool, true, false, ap, Option-cases, Option, none, some, List, [], ◌∷◌,
  ◌⊎◌, inl, inr, keep, All, any, not, ◌&&◌, arith, leb→le, if◌then◌else◌,
}
use cumulusvpn.Common.ListLaws.{All-sort_by, keep-All}
use cumulusvpn.Common.Sorting.{
  sort_by-All, All-of_keep, All-map, IsSorted, sort_by-IsSorted, All-le_trans,
}
use cumulusvpn.Transport.{
  TransportMode, auto, speed, stealth, Tier, free, premium, Port, whole, odd, Transport, preference,
  advertised_or_legacy, is_valid_port, is_gated, tier_allows, is_allowed, rank, preferred,
  transport_fallback_chain, first_of, select_transport, chosen, premium_only, no_resistant,
  no_compatible, require_transport, is_empty, is_free_tier, is_stealth,
}

-- What a transport of the chain has: the client can dial it, the mode names it, its port is a port,
-- and a gated one is for a paying tier.
pub record IsUsable (mode : TransportMode) (implemented : List String) (tier : Tier) (t : Transport)
    : Type 0 where
  pub dialled : any (str_eq t.kind) implemented ≡ true
  pub named : any (str_eq t.kind) (preference mode) ≡ true
  pub port_ok : (n : ℕ) × (t.port ≡ whole n) × (1 ≤ n) × (n ≤ 65535)
  pub entitled : (tier ≡ premium) ⊎ (is_gated t.params ≡ false)

valid_port-bounds :
    (p : Port) → is_valid_port p ≡ true → (n : ℕ) × (p ≡ whole n) × (1 ≤ n) × (n ≤ 65535)
unfolding is_valid_port
valid_port-bounds (whole n) h =
    (n, refl, ground (arith, leb→le 1 n), ground (arith, leb→le n 65535))
valid_port-bounds (odd s) h = cc

tier-entitled :
    (t : Transport) (tier : Tier)
    → tier_allows t tier ≡ true
    → (tier ≡ premium) ⊎ (is_gated t.params ≡ false)
unfolding tier_allows
tier-entitled t premium h = inl refl
tier-entitled t free h = inr (ground arith)

pub is_allowed-IsUsable :
    (mode : TransportMode) (implemented : List String) (tier : Tier) (t : Transport)
    → is_allowed mode implemented tier t ≡ true
    → IsUsable mode implemented tier t
unfolding is_allowed
is_allowed-IsUsable mode implemented tier t h = record {
  dialled = ground arith;
  named = ground arith;
  port_ok = valid_port-bounds t.port (ground arith);
  entitled = tier-entitled t tier (ground arith);
}

-- Every transport of the chain is one that the client can dial and the mode names, on a port between
-- 1 and 65535, and is not gated unless the tier is premium; and the chain is in the mode's order.
pub transport_fallback_chain-IsUsable :
    (ts : Option (List Transport)) (mode : TransportMode) (implemented : List String) (tier : Tier)
    → All (IsUsable mode implemented tier) (transport_fallback_chain ts mode implemented tier)
      × IsSorted (rank mode) (transport_fallback_chain ts mode implemented tier)
unfolding transport_fallback_chain
transport_fallback_chain-IsUsable ts mode implemented tier =
    let offered = advertised_or_legacy ts in
    let kept = keep-All (is_allowed mode implemented tier) offered in
    (
      All-sort_by (IsUsable mode implemented tier) (preferred mode)
          (keep (is_allowed mode implemented tier) offered)
          (All-map _ _ (λ t h. is_allowed-IsUsable mode implemented tier t h) _ kept),
      sort_by-IsSorted (rank mode) (keep (is_allowed mode implemented tier) offered),
    )

-- `first_of` of a sorted list is least
first_of-least :
    (f : Transport → ℕ) (xs : List Transport) (t : Transport)
    → IsSorted f xs
    → first_of xs ≡ some t
    → All (λ u. f t ≤ f u) xs
first_of-least f [] t s e = cc
first_of-least f (x ∷ xs) t s e =
    let same : x ≡ t = cc in
    let le : f t ≤ f x = rw (← same) (omega arith) in (le, All-le_trans f t x xs le s.0)

first_of-none : (P : Transport → Type 0) (xs : List Transport) → first_of xs ≡ none → All P xs
first_of-none P [] e = tt
first_of-none P (x ∷ xs) e = cc

first_of-All :
    (P : Transport → Type 0) (xs : List Transport) (t : Transport)
    → All P xs
    → first_of xs ≡ some t
    → P t
first_of-All P [] t h e = cc
first_of-All P (x ∷ xs) t h e = let same : x ≡ t = cc in rw (← same) h.0

-- The chosen transport can be dialled, is named by the mode, has a valid port and is not gated unless
-- the tier is premium, and it comes first, in the mode's order, among all the transports of the gateway
-- that are allowed.
pub select_transport-IsBest :
    (ts : Option (List Transport)) (mode : TransportMode) (implemented : List String) (tier : Tier)
    (t : Transport)
    → select_transport ts mode implemented tier ≡ some t
    → IsUsable mode implemented tier t
      × All
          (λ u. rank mode t ≤ rank mode u)
          (keep (is_allowed mode implemented tier) (advertised_or_legacy ts))
unfolding select_transport transport_fallback_chain
select_transport-IsBest ts mode implemented tier t e =
    let usable = keep (is_allowed mode implemented tier) (advertised_or_legacy ts) in
    (
      first_of-All (IsUsable mode implemented tier) _ t
          (transport_fallback_chain-IsUsable ts mode implemented tier).0 e,
      sort_by-All _ (preferred mode) usable
          (first_of-least (rank mode) _ t (sort_by-IsSorted (rank mode) usable) e),
    )

-- Where no transport is chosen, no transport of the gateway is allowed.
pub select_transport-none :
    (ts : Option (List Transport)) (mode : TransportMode) (implemented : List String) (tier : Tier)
    → select_transport ts mode implemented tier ≡ none
    → All (λ u. is_allowed mode implemented tier u ≡ false) (advertised_or_legacy ts)
unfolding select_transport transport_fallback_chain
select_transport-none ts mode implemented tier e =
    let ok = is_allowed mode implemented tier in
    let offered = advertised_or_legacy ts in
    All-map _ _ (λ u. refuted (ok u)) offered
      (All-of_keep (λ u. ok u ≡ false) ok offered
        (sort_by-All _ (preferred mode) (keep ok offered) (first_of-none (λ u. ok u ≡ false) _ e)))
  where
    refuted : (b : Bool) → (b ≡ true → b ≡ false) → b ≡ false
    refuted true h = h refl
    refuted false h = refl

resistant :
    (t : Transport)
    → any (str_eq t.kind) (preference stealth) ≡ true
    → (t.kind ≡ "wg-tls") ⊎ (t.kind ≡ "awg")
unfolding preference
resistant t h = ground (arith, eq_iff t.kind "wg-tls", eq_iff t.kind "awg")

require_transport-chosen :
    (ts : Option (List Transport)) (mode : TransportMode) (implemented : List String) (tier : Tier)
    (t : Transport)
    → require_transport ts mode implemented tier ≡ chosen t
    → select_transport ts mode implemented tier ≡ some t
unfolding require_transport
require_transport-chosen ts mode implemented tier t e =
    elim (Option-cases (select_transport ts mode implemented tier)) [
      | inl n ↦
          not_chosen mode
            (is_free_tier tier
              && not (is_empty (transport_fallback_chain ts mode implemented premium)))
            t (rw (require_transport, n) at e)
      | inr (t', s) ↦ rw s (ap some (chosen_injective (rw (require_transport, s) at e)))
    ]
  where
    chosen_injective : {a b : Transport} → chosen a ≡ chosen b → a ≡ b
    chosen_injective q = cc

    not_chosen :
        (mode : TransportMode) (p : Bool) (t : Transport)
        → (if p then premium_only else if is_stealth mode then no_resistant else no_compatible)
          ≡ chosen t
        → {o : Option Transport} → o ≡ some t
    not_chosen mode true t q = cc
    not_chosen auto false t q = cc
    not_chosen speed false t q = cc
    not_chosen stealth false t q = cc

require_transport-premium_only :
    (ts : Option (List Transport)) (mode : TransportMode) (implemented : List String) (tier : Tier)
    → require_transport ts mode implemented tier ≡ premium_only
    → (tier ≡ free) × (is_empty (transport_fallback_chain ts mode implemented premium) ≡ false)
unfolding require_transport
require_transport-premium_only ts mode implemented tier e = ground arith

select_nonempty :
    (ts : Option (List Transport)) (mode : TransportMode) (implemented : List String)
    → is_empty (transport_fallback_chain ts mode implemented premium) ≡ false
    → (t : Transport) × (require_transport ts mode implemented premium ≡ chosen t)
unfolding require_transport select_transport
select_nonempty ts mode implemented h =
    given (nonempty (transport_fallback_chain ts mode implemented premium) h)
  where
    given :
        (t : Transport) × (first_of (transport_fallback_chain ts mode implemented premium) ≡ some t)
        → (t : Transport) × (require_transport ts mode implemented premium ≡ chosen t)
    given (t, e) = (t, rw (require_transport, select_transport, e) refl)

    nonempty :
        (xs : List Transport) → is_empty xs ≡ false → (t : Transport) × (first_of xs ≡ some t)
    nonempty [] e = cc
    nonempty (x ∷ xs) e = (x, refl)

-- A stealth request that gives a transport gives an obfuscated one, wg-tls or awg, and one that is
-- not gated unless the tier is premium.
pub require_transport-no_downgrade :
    (ts : Option (List Transport)) (implemented : List String) (tier : Tier) (t : Transport)
    → require_transport ts stealth implemented tier ≡ chosen t
    → ((t.kind ≡ "wg-tls") ⊎ (t.kind ≡ "awg")) × ((tier ≡ premium) ⊎ (is_gated t.params ≡ false))
unfolding select_transport
require_transport-no_downgrade ts implemented tier t e =
    let usable =
      first_of-All (IsUsable stealth implemented tier) _ t
        (transport_fallback_chain-IsUsable ts stealth implemented tier).0
        (require_transport-chosen ts stealth implemented tier t e) in
    (resistant t usable.named, usable.entitled)

-- The error that tells a user to upgrade is given only to the free tier, at a gateway that would give
-- a paying client a transport.
pub require_transport_upgrade :
    (ts : Option (List Transport)) (mode : TransportMode) (implemented : List String) (tier : Tier)
    → require_transport ts mode implemented tier ≡ premium_only
    → (tier ≡ free) × ((t : Transport) × (require_transport ts mode implemented premium ≡ chosen t))
require_transport_upgrade ts mode implemented tier e =
    let (is_free, some_left) = require_transport-premium_only ts mode implemented tier e in
    (is_free, select_nonempty ts mode implemented some_left)
