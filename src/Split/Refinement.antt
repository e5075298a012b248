-- ===== src/Split/Refinement.antt =====
-- `compileSplitPolicy` of clients/core-ts/src/split.ts, against what the policy asks for each address.
use cumulusvpn.Common.{
  zero, ℕ, ◌-◌, ◌<◌, ◌^◌, ◌≡◌, refl, sym, ap, ◌∙◌, inl, inr, ◌⊎◌, Bool, true, false, ◌&&◌, ◌||◌,
  not, Option, Option-cases, some, List, [], ◌∷◌, ◌++◌, if◌then◌else◌, any, All, Exists, Bool-cases,
  arith,
}
use cumulusvpn.Common.ListLaws.{All-append, keep-All}
use cumulusvpn.Common.Text.{Text}
use cumulusvpn.Split.Accepted.{parse_cidr-IsBlock}
use cumulusvpn.Split.Address.{parse_cidr}
use cumulusvpn.Split.Allowed.{allowed_routes, allowed_routes_full, allowed_routes_listed}
use cumulusvpn.Split.Blocks.{Family, v4, v6, family_eq, family_bits, Cidr, cidr_to_interval}
use cumulusvpn.Split.Compile.{
  lan_bypass_cidrs, CompileSplitContext, any_of, contains_any_endpoint, parse_cidrs, active_cidrs,
  active_apps, active_domains, lan_of, around, merged_cidr_strings, in_mode, compile_split_policy,
}
use cumulusvpn.Split.Covering.{routed, of_family, pow_pos}
use cumulusvpn.Split.Interval.{holds, inside}
use cumulusvpn.Split.Loading.{same_block, holds_endpoint}
use cumulusvpn.Split.Policies.{
  IsReadable, IsUsable, IsRead, Around, active_cidrs-IsReadable, lan_of-IsReadable, lan-IsReadable,
  covered-lan_of, covered-append, around-Excludes, including-Includes, parse_cidrs-readable,
}
use cumulusvpn.Split.Routes.{covered, covered_cons}
use cumulusvpn.Split.Rules.{
  SplitMode, off, exclude, include, SplitPolicy, CompiledSplit, noop_split,
}
use cumulusvpn.Split.Wanted.{
  in_block, in_lan, ruled, asks_in, in_block-routed, family_eq_sym, covered-active_cidrs,
  covered-in_lan,
}
use mathlib.Core.Option.{none-ne-some}

-- What the configuration routes is what is asked for, or, where nothing is asked for, everything.
abbrev pub Tunnels : (Family → ℕ → Bool) → CompiledSplit → Type 0
Tunnels asked out =
    (((fam : Family) × (x : ℕ) × (x < 2 ^ family_bits fam) × (asked fam x ≡ true))
      × ((fam : Family) (x : ℕ)
          → x < 2 ^ family_bits fam
          → covered (allowed_routes (some out)) fam x ≡ asked fam x))
    ⊎ ((fam : Family) (x : ℕ)
        → x < 2 ^ family_bits fam
        → (asked fam x ≡ false) × (covered (allowed_routes (some out)) fam x ≡ true))

-- What the platform keeps out of the tunnel is what is not asked for.
abbrev pub Bypasses : (Family → ℕ → Bool) → CompiledSplit → Type 0
Bypasses asked out =
    (out.tunnel_routes ≡ [])
    × ((fam : Family) (x : ℕ) → not (covered out.bypass_routes fam x) ≡ asked fam x)

abbrev pub IsAround : Bool → (Family → ℕ → Bool) → CompiledSplit → Type 0
IsAround true asked out = Bypasses asked out
IsAround false asked out = Tunnels asked out

-- By the mode, and by whether the platform can keep routes out.
abbrev pub Compiled : SplitMode → Bool → (Family → ℕ → Bool) → CompiledSplit → Type 0
Compiled include native asked out = Tunnels asked out
Compiled exclude native asked out = IsAround native asked out
Compiled off native asked out = IsAround native asked out

family_eq_same : (fam : Family) → family_eq fam fam ≡ true
family_eq_same v4 = refl
family_eq_same v6 = refl

own_block : (c : Cidr) → in_block c.family c.net (some c) ≡ true
own_block c =
    rw (family_eq_same c.family) (ground (arith, pow_pos (family_bits c.family - c.prefix)))

or_true : (a b : Bool) → a ≡ true → (a || b) ≡ true
or_true a b h = ground (arith, h)

-- A list of routes that can be read and is not empty holds an address.
held_address :
    (v : Text) (vs : List Text)
    → IsRead (v ∷ vs)
    → (fam : Family) × (x : ℕ) × (x < 2 ^ family_bits fam) × (covered (v ∷ vs) fam x ≡ true)
unfolding parse_cidrs
held_address v vs h = elim (Option-cases (parse_cidr v)) [
  | inl e ↦ elim (none-ne-some _ (rw (parse_cidrs, e) at h.1)) [ ]
  | inr (c, e) ↦ elim (Option-cases (parse_cidrs vs)) [
    | inl f ↦ elim (none-ne-some _ (rw (parse_cidrs, e, f) at h.1)) [ ]
    | inr (cs, f) ↦ (
      c.family,
      c.net,
      (parse_cidr-IsBlock v c e).1,
      covered_cons v vs c cs c.family c.net e f
          ∙ (rw (in_block-routed c.family c.net c) (or_true _ _ (own_block c))),
    )
  ]
]

read_routes-Tunnels :
    (asked : Family → ℕ → Bool) (out : CompiledSplit) (routes : List Text)
    → out.tunnel_routes ≡ routes
    → out.is_noop ≡ false
    → IsRead routes
    → ((fam : Family) (x : ℕ) → x < 2 ^ family_bits fam → covered routes fam x ≡ asked fam x)
    → Tunnels asked out
unfolding parse_cidrs inside
read_routes-Tunnels asked out [] same works h k =
    inr (λ fam x l. (sym (k fam x l), allowed_routes_full out fam x (rw (works, same) refl) l))
read_routes-Tunnels asked out (v ∷ vs) same works h k =
    let (fam, x, l, held) = held_address v vs h in
    inl (
      (fam, x, l, sym (k fam x l) ∙ held),
      λ fam x l.
          allowed_routes_listed out fam x (rw (works, same) refl)
          ∙ (ap (λ r. covered r fam x) same ∙ k fam x l),
    )

abbrev Compiles : SplitMode → SplitPolicy → CompileSplitContext → Option CompiledSplit → Type 0
Compiles mode policy ctx result =
    (out : CompiledSplit) × (result ≡ some out)
    × Compiled mode ctx.supports_exclude_route (asks_in mode policy ctx.endpoint_ips) out

Around-IsAround :
    (native : Bool) (asked : Family → ℕ → Bool) (vs : List Text) (out : CompiledSplit)
    → out.is_noop ≡ false
    → ((fam : Family) (x : ℕ) → not (covered vs fam x) ≡ asked fam x)
    → Around native vs out
    → IsAround native asked out
Around-IsAround true asked vs out works k h = (h.0, λ fam x. ap not (h.1 fam x) ∙ k fam x)
Around-IsAround false asked vs out works k h =
    read_routes-Tunnels asked out out.tunnel_routes refl works h.0 λ fam x l. h.1 fam x l ∙ k fam x

-- Without the LAN bypass the mode `off` asks for everything, and everything is routed.
noop-IsAround :
    (native : Bool) (asked : Family → ℕ → Bool)
    → ((fam : Family) (x : ℕ) → asked fam x ≡ true)
    → IsAround native asked noop_split
unfolding parse_cidrs inside
noop-IsAround true asked k = (refl, λ fam x. sym (k fam x))
noop-IsAround false asked k = inl (
  (v4, zero, omega arith, k v4 zero),
  λ fam x l. allowed_routes_full noop_split fam x refl l ∙ sym (k fam x),
)

off_result :
    (lan native : Bool) (asked : Family → ℕ → Bool)
    → ((fam : Family) (x : ℕ) → not (lan && covered lan_bypass_cidrs fam x) ≡ asked fam x)
    → (out : CompiledSplit) × ((if lan
          then around [] [] native (merged_cidr_strings lan_bypass_cidrs)
          else some noop_split)
        ≡ some out)
      × IsAround native asked out
off_result false native asked k =
    (noop_split, refl, noop-IsAround native asked λ fam x. sym (k fam x))
off_result true native asked k =
    let (out, made, works, kept) = around-Excludes [] [] lan_bypass_cidrs native lan-IsReadable in
    (out, made, Around-IsAround native asked lan_bypass_cidrs out works k kept)

in_mode-Compiles :
    (mode : SplitMode) (policy : SplitPolicy) (ctx : CompileSplitContext)
    → All IsUsable policy.rules
    → Compiles mode policy ctx (in_mode mode policy ctx)
in_mode-Compiles include policy ctx h =
    let (out, made, works, reads, same) =
      including-Includes (active_apps policy ctx.platform) (active_domains policy)
        (active_cidrs policy ctx.endpoint_ips) policy.lan_bypass
        (active_cidrs-IsReadable policy ctx.endpoint_ips h) in
    (
      out,
      made,
      read_routes-Tunnels (asks_in include policy ctx.endpoint_ips) out out.tunnel_routes refl works
          reads
          λ fam x l.
            same fam x
            ∙ (rw
                (covered-active_cidrs policy ctx.endpoint_ips fam x h, covered-in_lan policy fam x)
                refl),
    )
in_mode-Compiles exclude policy ctx h =
    let (out, made, works, around) =
      around-Excludes (active_apps policy ctx.platform) (active_domains policy)
        (active_cidrs policy ctx.endpoint_ips ++ lan_of policy) ctx.supports_exclude_route
        (All-append _ (active_cidrs policy ctx.endpoint_ips) _
          (active_cidrs-IsReadable policy ctx.endpoint_ips h) (lan_of-IsReadable policy)) in
    (
      out,
      made,
      Around-IsAround ctx.supports_exclude_route (asks_in exclude policy ctx.endpoint_ips)
          (active_cidrs policy ctx.endpoint_ips ++ lan_of policy) out works
          (λ fam x. ap not (both fam x)) around,
    )
  where
    both :
        (fam : Family) (x : ℕ)
        → covered (active_cidrs policy ctx.endpoint_ips ++ lan_of policy) fam x
          ≡ (ruled policy ctx.endpoint_ips fam x || in_lan policy fam x)
    both fam x =
        covered-append (active_cidrs policy ctx.endpoint_ips) (lan_of policy) fam x
          (active_cidrs-IsReadable policy ctx.endpoint_ips h) (lan_of-IsReadable policy)
        ∙ (rw
            (
              covered-lan_of policy fam x,
              covered-active_cidrs policy ctx.endpoint_ips fam x h,
              covered-in_lan policy fam x,
            )
            refl)
in_mode-Compiles off policy ctx h =
    off_result policy.lan_bypass ctx.supports_exclude_route (asks_in off policy ctx.endpoint_ips)
      λ fam x. ap not (covered-in_lan policy fam x)

-- A policy whose CIDR rules have texts that can be read is compiled in each mode. For a platform that
-- cannot leave routes out, and in the include mode on any platform, the configuration's AllowedIPs hold
-- an address of either family exactly when the policy asks for it, by the blocks of its enabled rules,
-- of the session's endpoints and of the LAN; only where the policy asks for no address at all do they
-- hold every address. For a platform that can leave routes out, the other modes list no tunnel routes,
-- and the bypass routes hold exactly the addresses that the policy does not ask for.
pub compile_split_policy_routes :
    (policy : SplitPolicy) (ctx : CompileSplitContext)
    → All IsUsable policy.rules
    → (out : CompiledSplit) × (compile_split_policy policy ctx ≡ some out)
      × Compiled policy.mode ctx.supports_exclude_route
          (asks_in policy.mode policy ctx.endpoint_ips)
          out
unfolding compile_split_policy
compile_split_policy_routes policy ctx h = in_mode-Compiles policy.mode policy ctx h

any-false :
    (c : Cidr) (endpoint : Text) (endpoints : List Text)
    → any (holds_endpoint c) endpoints ≡ false
    → Exists (λ t. t ≡ endpoint) endpoints
    → holds_endpoint c endpoint ≡ false
any-false c endpoint [] h m = elim m [ ]
any-false c endpoint (t ∷ endpoints) h (inl same) = rw (sym same) (ground (arith, h))
any-false c endpoint (t ∷ endpoints) h (inr later) =
    any-false c endpoint endpoints (ground (arith, h)) later

single_block :
    (e c : Cidr)
    → (family_eq e.family c.family && holds e.net (cidr_to_interval c)) ≡ false
    → routed e.net (of_family e.family (c ∷ [])) ≡ false
unfolding inside
single_block e c h = elim (Bool-cases (family_eq c.family e.family)) [
  | inr other ↦ rw other refl
  | inl same ↦ rw same (ground (arith, h, family_eq_sym c.family e.family ∙ refl, same))
]

-- A text that survives the filter does not hold the endpoint.
survivor_misses :
    (v : Text) (c e : Cidr) (endpoint : Text) (endpoints : List Text)
    → parse_cidr v ≡ some c
    → parse_cidr endpoint ≡ some e
    → not (contains_any_endpoint v endpoints) ≡ true
    → Exists (λ t. t ≡ endpoint) endpoints
    → routed e.net (of_family e.family (c ∷ [])) ≡ false
unfolding contains_any_endpoint holds_endpoint
survivor_misses v c e endpoint endpoints r p k m =
    single_block e c
      (sym (ap (same_block c) p) ∙ any-false c endpoint endpoints (ground (arith, none_held)) m)
  where
    none_held : not (any (holds_endpoint c) endpoints) ≡ true
    none_held = sym (ap (λ o. not (any_of o endpoints)) r) ∙ k

misses_endpoint :
    (vs endpoints : List Text) (endpoint : Text) (e : Cidr)
    → All IsReadable vs
    → All (λ v. not (contains_any_endpoint v endpoints) ≡ true) vs
    → Exists (λ t. t ≡ endpoint) endpoints
    → parse_cidr endpoint ≡ some e
    → covered vs e.family e.net ≡ false
unfolding parse_cidrs inside
misses_endpoint [] endpoints endpoint e h k m p = refl
misses_endpoint (v ∷ vs) endpoints endpoint e h k m p =
    covered_cons v vs h.0.0 rest.0 e.family e.net h.0.1 rest.1
    ∙ (rw
        (
          survivor_misses v h.0.0 e endpoint endpoints h.0.1 p k.0 m,
          misses_endpoint vs endpoints endpoint e h.1 k.1 m p,
        )
        refl)
  where
    rest : (cs : List Cidr) × (parse_cidrs vs ≡ some cs)
    rest = parse_cidrs-readable vs h.1

active_misses_endpoint :
    (policy : SplitPolicy) (endpoints : List Text) (endpoint : Text) (e : Cidr)
    → All IsUsable policy.rules
    → Exists (λ t. t ≡ endpoint) endpoints
    → parse_cidr endpoint ≡ some e
    → covered (active_cidrs policy endpoints) e.family e.net ≡ false
unfolding active_cidrs
active_misses_endpoint policy endpoints endpoint e h m p =
    misses_endpoint (active_cidrs policy endpoints) endpoints endpoint e
      (active_cidrs-IsReadable policy endpoints h)
      (keep-All (λ v. not (contains_any_endpoint v endpoints)) _) m p

missed_by_configuration :
    (out : CompiledSplit) (routes : List Text) (e : Cidr)
    → out.tunnel_routes ≡ routes
    → out.is_noop ≡ false
    → covered out.tunnel_routes e.family e.net ≡ false
    → (out.tunnel_routes ≡ []) ⊎ (covered (allowed_routes (some out)) e.family e.net ≡ false)
missed_by_configuration out [] e same works h = inl same
missed_by_configuration out (v ∷ vs) e same works h =
    inr (allowed_routes_listed out e.family e.net (rw (works, same) refl) ∙ h)

-- In the include mode no gateway endpoint of the session is among the tunnel routes, whatever the rules
-- say, and the configuration does not route it, unless the policy leaves no tunnel routes at all, where
-- everything is routed.
pub endpoint_never_included :
    (policy : SplitPolicy) (ctx : CompileSplitContext) (endpoint : Text) (e : Cidr)
    → policy.mode ≡ include
    → All IsUsable policy.rules
    → Exists (λ t. t ≡ endpoint) ctx.endpoint_ips
    → parse_cidr endpoint ≡ some e
    → (out : CompiledSplit) × (compile_split_policy policy ctx ≡ some out)
      × (covered out.tunnel_routes e.family e.net ≡ false)
      × ((out.tunnel_routes ≡ []) ⊎ (covered (allowed_routes (some out)) e.family e.net ≡ false))
unfolding compile_split_policy
endpoint_never_included policy ctx endpoint e mode h m p =
    let (out, made, works, reads, same) =
      including-Includes (active_apps policy ctx.platform) (active_domains policy)
        (active_cidrs policy ctx.endpoint_ips) policy.lan_bypass
        (active_cidrs-IsReadable policy ctx.endpoint_ips h) in
    let missed =
      same e.family e.net
      ∙ ap (λ b. b && not (policy.lan_bypass && covered lan_bypass_cidrs e.family e.net))
          (active_misses_endpoint policy ctx.endpoint_ips endpoint e h m p) in
    (
      out,
      ap (λ w. in_mode w policy ctx) mode ∙ made,
      missed,
      missed_by_configuration out out.tunnel_routes e refl works missed,
    )
