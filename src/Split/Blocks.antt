-- ===== src/Split/Blocks.antt =====
-- CIDR blocks of clients/core-ts/src/split.ts: `cidrToInterval` and the greedy `intervalToCidrs`. A
-- block size is a power of two, kept as its exponent `k`: `size >>= 1n` takes one off, and the prefix,
-- `bits - (size.toString(2).length - 1)`, is `bits - k`.
use cumulusvpn.Common.{
  ℕ, zero, suc, ◌+◌, ◌-◌, ◌*◌, ◌/◌, ◌%◌, ◌^◌, Bool, List, [], ◌∷◌, ◌++◌, map, ltb, leb, ◌==◌,
  if◌then◌else◌, keep,
}
use cumulusvpn.Split.Interval.{Interval, merge_intervals, subtract_intervals}

pub data Family : Type 0 where
  v4 v6 : Family

abbrev pub family_eq : Family → Family → Bool
family_eq v4 v4 = cumulusvpn.Common.true
family_eq v6 v6 = cumulusvpn.Common.true
family_eq _ _ = cumulusvpn.Common.false

abbrev pub family_bits : Family → ℕ
family_bits v4 = 32
family_bits v6 = 128

pub record Cidr : Type 0 where
  pub family : Family
  pub net : ℕ
  pub prefix : ℕ

unfoldable pub cidr_to_interval : Cidr → Interval
cidr_to_interval c = record {
  start = c.net;
  last = c.net + 2 ^ (family_bits c.family - c.prefix) - 1;
}

-- The exponent of the lowest set bit, `start & -start`, of a number below `2 ^ fuel`; `fuel` for 0.
unfoldable pub trailing : ℕ → ℕ → ℕ
trailing zero n = 0
trailing (suc fuel) n = let more = suc (trailing fuel (n / 2)) in if n % 2 == 0 then more else 0

-- `while (size > span) size >>= 1n`
unfoldable pub fit : ℕ → ℕ → ℕ
fit span zero = 0
fit span (suc k) = let less = fit span k in if ltb span (2 ^ suc k) then less else suc k

-- The exponent of the block that starts at `start` in a remainder of `span` addresses. For 0 the
-- lowest set bit is replaced by the whole space.
unfoldable pub block_bits : ℕ → ℕ → ℕ → ℕ
unfolding trailing fit
block_bits bits start span = fit span (if start == 0 then bits else trailing bits start)

abbrev pub block : Family → ℕ → ℕ → Cidr
block fam start k = record { family = fam; net = start; prefix = family_bits fam - k }

-- The loop of `intervalToCidrs`, on fuel: each round moves `start` up by at least one address.
unfoldable pub cover : ℕ → Family → ℕ → ℕ → List Cidr
cover zero fam start last = []
cover (suc fuel) fam start last =
    let k = block_bits (family_bits fam) start (last - start + 1) in
    let more = block fam start k ∷ cover fuel fam (start + 2 ^ k) last in
    if leb start last then more else []

-- More rounds than the interval has addresses are never needed.
unfoldable pub interval_to_cidrs : Interval → Family → List Cidr
unfolding cover
interval_to_cidrs iv fam = cover (iv.last + 1 - iv.start) fam iv.start iv.last

unfoldable pub intervals_to_cidrs : List Interval → Family → List Cidr
intervals_to_cidrs [] fam = []
intervals_to_cidrs (iv ∷ ivs) fam = interval_to_cidrs iv fam ++ intervals_to_cidrs ivs fam

-- `toMergedIntervals` behind its parser: one family, as merged intervals.
unfoldable pub merged_of : Family → List Cidr → List Interval
merged_of fam cidrs =
    merge_intervals (map cidr_to_interval (keep (λ c. family_eq c.family fam) cidrs))

abbrev pub whole_space : Family → Interval
whole_space fam = record { start = 0; last = 2 ^ family_bits fam - 1 }

-- `complementRoutes` of one family, between its parser and its printer.
unfoldable pub complement : Family → List Cidr → List Cidr
complement fam excluded =
    intervals_to_cidrs (subtract_intervals (whole_space fam ∷ []) (merged_of fam excluded)) fam
