-- ===== src/Split/Covering.antt =====
-- The blocks that clients/core-ts/src/split.ts emits for an interval are exactly its addresses, and the
-- complement of a list of blocks is the rest of the address space.
use cumulusvpn.Common.{
  ℕ, zero, suc, ◌+◌, ◌-◌, ◌*◌, ◌/◌, ◌%◌, ◌^◌, ◌≤◌, ◌<◌, ◌≡◌, refl, sym, ◌∙◌, ap, inl, inr, Bool,
  true, ◌&&◌, ◌||◌, not, List, [], ◌∷◌, ◌++◌, map, ltb, leb, ◌==◌, All, keep, Bool-cases, leb→le,
  arith,
}
use cumulusvpn.Split.Interval.{Interval, holds, inside}
use cumulusvpn.Split.Merging.{
  IsSeparated, IsProper, inside-merge_intervals, merge_intervals-IsSeparated,
}
use cumulusvpn.Split.Subtracting.{inside-append, inside-subtract_intervals}
use cumulusvpn.Split.Blocks.{
  Family, family_eq, family_bits, Cidr, cidr_to_interval, trailing, fit, block_bits, block, cover,
  interval_to_cidrs, intervals_to_cidrs, merged_of, whole_space, complement,
}
use native.Mathlib.Nat.{pow-suc}

-- An address lies in a block of the list.
abbrev pub routed : ℕ → List Cidr → Bool
routed x cidrs = inside x (map cidr_to_interval cidrs)

pub pow_pos : (k : ℕ) → 0 < 2 ^ k
pow_pos zero = omega arith
pow_pos (suc k) = rw pow-suc (omega (arith, pow_pos k))

fit-le : (span k : ℕ) → fit span k ≤ k
unfolding fit
fit-le span zero = omega arith
fit-le span (suc k) = ground (arith, fit-le span k)

-- The block fits in what is left.
fit-pow-le : (span k : ℕ) → 0 < span → 2 ^ fit span k ≤ span
unfolding fit
fit-pow-le span zero h = omega arith
fit-pow-le span (suc k) h = elim (Bool-cases (ltb span (2 ^ suc k))) [
  | inl big ↦ rw big (fit-pow-le span k h)
  | inr fits ↦ rw fits (ground arith)
]

trailing-le : (fuel n : ℕ) → trailing fuel n ≤ fuel
unfolding trailing
trailing-le zero n = omega arith
trailing-le (suc fuel) n = ground (arith, trailing-le fuel (n / 2))

block_bits-le : (bits start span : ℕ) → block_bits bits start span ≤ bits
unfolding block_bits
block_bits-le bits start span = elim (Bool-cases (start == 0)) [
  | inl z ↦ rw z (fit-le span bits)
  | inr p ↦ rw p (omega (arith, fit-le span (trailing bits start), trailing-le bits start))
]

block_bits-pow-le : (bits start span : ℕ) → 0 < span → 2 ^ block_bits bits start span ≤ span
unfolding block_bits
block_bits-pow-le bits start span h = fit-pow-le span _ h

-- A block of `k` host bits, as an interval.
block_interval :
    (fam : Family) (start k : ℕ)
    → k ≤ family_bits fam
    → cidr_to_interval (block fam start k) ≡ record { start = start; last = start + 2 ^ k - 1 }
unfolding cidr_to_interval
block_interval fam start k h =
    let e : family_bits fam - (family_bits fam - k) ≡ k = omega arith in rw e

inside-cons :
    (x : ℕ) (iv : Interval) (ivs : List Interval)
    → inside x (iv ∷ ivs) ≡ (holds x iv || inside x ivs)
unfolding inside
inside-cons x iv ivs = refl

routed-cover :
    (x fuel : ℕ) (fam : Family) (start last : ℕ)
    → last + 1 - start ≤ fuel
    → routed x (cover fuel fam start last) ≡ (leb start x && leb x last)
unfolding cover
routed-cover x zero fam start last h = unfold inside in ground arith
routed-cover x (suc fuel) fam start last h = elim (Bool-cases (leb start last)) [
  | inr over ↦ rw over (unfold inside in ground arith)
  | inl more ↦
      let k : ℕ = block_bits (family_bits fam) start (last - start + 1) in
      let small : k ≤ family_bits fam = block_bits-le (family_bits fam) start (last - start + 1) in
      let fits : 2 ^ k ≤ last - start + 1 =
        block_bits-pow-le (family_bits fam) start (last - start + 1) (omega arith) in
      rw more (
        rw (inside-cons, block_interval fam start k small)
          (rw (routed-cover x fuel fam (start + 2 ^ k) last (omega (arith, pow_pos k)))
            (step_covers x start last (2 ^ k) (pow_pos k) (leb→le start last more) fits)))
]
  where
    step_covers :
        (x start last p : ℕ)
        → 0 < p
        → start ≤ last
        → p ≤ last - start + 1
        → ((leb start x && leb x (start + p - 1)) || (leb (start + p) x && leb x last))
          ≡ (leb start x && leb x last)
    step_covers x start last p a b c = ground arith

pub intervals-append :
    (a b : List Cidr)
    → map cidr_to_interval (a ++ b) ≡ map cidr_to_interval a ++ map cidr_to_interval b
intervals-append [] b = refl
intervals-append (c ∷ a) b = ap (λ l. cidr_to_interval c ∷ l) (intervals-append a b)

-- The blocks of a list of intervals hold exactly the addresses of the intervals.
pub routed-intervals_to_cidrs :
    (x : ℕ) (ivs : List Interval) (fam : Family)
    → routed x (intervals_to_cidrs ivs fam) ≡ inside x ivs
unfolding intervals_to_cidrs interval_to_cidrs
routed-intervals_to_cidrs x [] fam = refl
routed-intervals_to_cidrs x (iv ∷ ivs) fam =
    rw (intervals-append, inside-append, inside-cons)
      (rw (
        routed-cover x (iv.last + 1 - iv.start) fam iv.start iv.last (omega arith),
        routed-intervals_to_cidrs x ivs fam,
      ))

cidr_to_interval-IsProper : (c : Cidr) → IsProper (cidr_to_interval c)
unfolding cidr_to_interval
cidr_to_interval-IsProper c = omega (arith, pow_pos (family_bits c.family - c.prefix))

All-IsProper : (cs : List Cidr) → All IsProper (map cidr_to_interval cs)
All-IsProper [] = tt
All-IsProper (c ∷ cs) = (cidr_to_interval-IsProper c, All-IsProper cs)

abbrev pub of_family : Family → List Cidr → List Cidr
of_family fam cidrs = keep (λ c. family_eq c.family fam) cidrs

pub merged_of-IsSeparated : (fam : Family) (cidrs : List Cidr) → IsSeparated 0 (merged_of fam cidrs)
unfolding merged_of
merged_of-IsSeparated fam cidrs = merge_intervals-IsSeparated _ (All-IsProper (of_family fam cidrs))

pub inside-merged_of :
    (x : ℕ) (fam : Family) (cidrs : List Cidr)
    → inside x (merged_of fam cidrs) ≡ routed x (of_family fam cidrs)
unfolding merged_of
inside-merged_of x fam cidrs = inside-merge_intervals x (map cidr_to_interval (of_family fam cidrs))

whole_inside :
    (x : ℕ) (fam : Family) → x < 2 ^ family_bits fam → inside x (whole_space fam ∷ []) ≡ true
unfolding inside
whole_inside x fam h = ground arith

-- Every address of the family's space is routed by the complement exactly when no excluded block of
-- the family holds it.
pub routed-complement :
    (x : ℕ) (fam : Family) (excluded : List Cidr)
    → x < 2 ^ family_bits fam
    → routed x (complement fam excluded) ≡ not (routed x (of_family fam excluded))
unfolding complement
routed-complement x fam excluded h =
    routed-intervals_to_cidrs x _ fam
    ∙ (inside-subtract_intervals x (whole_space fam ∷ []) (merged_of fam excluded)
          (merged_of-IsSeparated fam excluded)
        ∙ (rw (whole_inside x fam h, inside-merged_of x fam excluded)))

-- A block whose network address is a multiple of its size.
abbrev pub IsAligned : Cidr → Type 0
IsAligned c =
    (q : ℕ) × (c.net ≡ q * 2 ^ (family_bits c.family - c.prefix))
    × (c.prefix ≤ family_bits c.family)

abbrev Multiple : ℕ → ℕ → Type 0
Multiple n k = (q : ℕ) × (n ≡ q * 2 ^ k)

double_pow : (q k : ℕ) → q * 2 ^ suc k ≡ 2 * q * 2 ^ k
double_pow q k = rw pow-suc (omega arith)

trailing-Multiple : (fuel n : ℕ) → Multiple n (trailing fuel n)
unfolding trailing
trailing-Multiple zero n = (n, omega arith)
trailing-Multiple (suc fuel) n = elim (Bool-cases (n % 2 == 0)) [
  | inr odd ↦ rw odd (n, omega arith)
  | inl even ↦
      let (q, e) = trailing-Multiple fuel (n / 2) in
      let twice : n ≡ 2 * (n / 2) = ground arith in
      rw even (
        q,
        twice ∙ (ap (λ m. 2 * m) e ∙ (omega arith ∙ sym (double_pow q (trailing fuel (n / 2))))),
      )
]

fit-Multiple : (n span k : ℕ) → Multiple n k → Multiple n (fit span k)
unfolding fit
fit-Multiple n span zero m = m
fit-Multiple n span (suc k) (q, e) = elim (Bool-cases (ltb span (2 ^ suc k))) [
  | inl big ↦ rw big (fit-Multiple n span k (2 * q, e ∙ double_pow q k))
  | inr fits ↦ rw fits (q, e)
]

block_bits-Multiple : (bits start span : ℕ) → Multiple start (block_bits bits start span)
unfolding block_bits
block_bits-Multiple bits start span = elim (Bool-cases (start == 0)) [
  | inl z ↦ rw z (fit-Multiple start span bits (0, ground arith))
  | inr p ↦ rw p (fit-Multiple start span (trailing bits start) (trailing-Multiple bits start))
]

block-IsAligned :
    (fam : Family) (start k : ℕ)
    → k ≤ family_bits fam
    → Multiple start k
    → IsAligned (block fam start k)
block-IsAligned fam start k h (q, e) =
    let same : family_bits fam - (family_bits fam - k) ≡ k = omega arith in
    (q, rw same e, omega arith)

-- Every block that an interval is cut into is a CIDR block: its address is a multiple of its size.
pub cover-IsAligned :
    (fuel : ℕ) (fam : Family) (start last : ℕ) → All IsAligned (cover fuel fam start last)
unfolding cover
cover-IsAligned zero fam start last = tt
cover-IsAligned (suc fuel) fam start last = elim (Bool-cases (leb start last)) [
  | inr over ↦ rw over tt
  | inl more ↦ rw more (
    block-IsAligned fam start _ (block_bits-le (family_bits fam) start (last - start + 1))
        (block_bits-Multiple (family_bits fam) start (last - start + 1)),
    cover-IsAligned fuel fam _ last,
  )
]
