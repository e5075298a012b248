-- ===== src/Split/Within.antt =====
-- The route lists of clients/core-ts/src/split.ts stay within the space of their family.
use mathlib.Core.Path.{subst}
use native.Mathlib.Nat.{mul-le-mul_right, add-mul, lt_of_mul-lt-mul_right, mul_assoc, pow-suc}
use cumulusvpn.Common.{
  ℕ, zero, suc, ◌+◌, ◌-◌, ◌*◌, ◌^◌, ◌≤◌, ◌<◌, ◌≡◌, refl, sym, ap, ◌∙◌, inl, inr, true, ◌||◌, List,
  [], ◌∷◌, map, keep, ltb, leb, All, Bool-cases, leb→le, arith,
}
use cumulusvpn.Common.ListLaws.{All-append, All-sort_by}
use cumulusvpn.Split.Blocks.{
  Family, family_eq, v4, v6, family_bits, Cidr, cidr_to_interval, block, block_bits, cover,
  interval_to_cidrs, intervals_to_cidrs, merged_of, whole_space,
}
use cumulusvpn.Split.Covering.{IsAligned, cover-IsAligned, pow_pos}
use cumulusvpn.Split.Interval.{
  Interval, starts_before, absorb, merge_onto, turn, merge_intervals, front, cut_from,
  subtract_intervals,
}
use cumulusvpn.Split.RoundTrip.{IsBlock}

-- No interval reaches `top`.
abbrev pub AreBelow : ℕ → List Interval → Type 0
AreBelow top ivs = All (λ iv. iv.last < top) ivs

absorb-AreBelow :
    (top : ℕ) (out : List Interval) (iv : Interval)
    → AreBelow top out
    → iv.last < top
    → AreBelow top (absorb out iv)
unfolding absorb
absorb-AreBelow top [] iv h l = (l, tt)
absorb-AreBelow top (last ∷ out) iv h l = ground arith

merge_onto-AreBelow :
    (top : ℕ) (out ivs : List Interval)
    → AreBelow top out
    → AreBelow top ivs
    → AreBelow top (merge_onto out ivs)
unfolding merge_onto
merge_onto-AreBelow top out [] h k = h
merge_onto-AreBelow top out (iv ∷ ivs) h k =
    merge_onto-AreBelow top (absorb out iv) ivs (absorb-AreBelow top out iv h k.0) k.1

turn-AreBelow :
    (top : ℕ) (out acc : List Interval)
    → AreBelow top out
    → AreBelow top acc
    → AreBelow top (turn out acc)
unfolding turn
turn-AreBelow top [] acc h k = k
turn-AreBelow top (iv ∷ out) acc h k = turn-AreBelow top out (iv ∷ acc) h.1 (h.0, k)

merge_intervals-AreBelow :
    (top : ℕ) (ivs : List Interval) → AreBelow top ivs → AreBelow top (merge_intervals ivs)
unfolding merge_intervals
merge_intervals-AreBelow top ivs h =
    turn-AreBelow top _ [] (merge_onto-AreBelow top [] _ tt (All-sort_by _ starts_before ivs h)) tt

front-AreBelow :
    (top cursor : ℕ) (cut : Interval) → cut.start ≤ top → 0 < top → AreBelow top (front cursor cut)
unfolding front
front-AreBelow top cursor cut h pos = ground arith

cut_from-AreBelow :
    (top hi cursor : ℕ) (cuts : List Interval) → hi < top → AreBelow top (cut_from hi cursor cuts)
unfolding cut_from
cut_from-AreBelow top hi cursor [] h = ground arith
cut_from-AreBelow top hi cursor (cut ∷ cuts) h =
    elim (Bool-cases (ltb cut.last cursor || ltb hi cut.start)) [
      | inl skipped ↦ rw skipped (cut_from-AreBelow top hi cursor cuts h)
      | inr taken ↦ rw taken (
          All-append _ (front cursor cut) _
            (front-AreBelow top cursor cut (ground (arith, h, taken)) (omega (arith, h)))
            (ground (arith, cut_from-AreBelow top hi (cut.last + 1) cuts h)))
    ]

pub subtract_intervals-AreBelow :
    (top : ℕ) (a b : List Interval) → AreBelow top a → AreBelow top (subtract_intervals a b)
unfolding subtract_intervals
subtract_intervals-AreBelow top [] b h = tt
subtract_intervals-AreBelow top (iv ∷ a) b h =
    All-append _ (cut_from iv.last iv.start b) _ (cut_from-AreBelow top iv.last iv.start b h.0)
      (subtract_intervals-AreBelow top a b h.1)

-- A block of its family, of the family `fam`.
abbrev pub IsBlockOf : Family → Cidr → Type 0
IsBlockOf fam c = IsBlock c × (family_eq c.family fam ≡ true)

family_eq_self : (fam : Family) → family_eq fam fam ≡ true
family_eq_self v4 = refl
family_eq_self v6 = refl

cover-AreBlocks :
    (fuel : ℕ) (fam : Family) (start last : ℕ)
    → last < 2 ^ family_bits fam
    → All (IsBlockOf fam) (cover fuel fam start last)
unfolding cover
cover-AreBlocks zero fam start last h = tt
cover-AreBlocks (suc fuel) fam start last h = elim (Bool-cases (leb start last)) [
  | inr over ↦ rw over tt
  | inl more ↦ rw more (
    ((head-IsAligned more, omega (arith, h, leb→le start last more)), family_eq_self fam),
    cover-AreBlocks fuel fam _ last h,
  )
]
  where
    head-IsAligned :
        leb start last ≡ true
        → IsAligned (block fam start (block_bits (family_bits fam) start (last - start + 1)))
    head-IsAligned more = (rw more at (cover-IsAligned (suc fuel) fam start last)).0

pub intervals_to_cidrs-AreBlocks :
    (ivs : List Interval) (fam : Family)
    → AreBelow (2 ^ family_bits fam) ivs
    → All (IsBlockOf fam) (intervals_to_cidrs ivs fam)
unfolding intervals_to_cidrs interval_to_cidrs
intervals_to_cidrs-AreBlocks [] fam h = tt
intervals_to_cidrs-AreBlocks (iv ∷ ivs) fam h =
    All-append _ (interval_to_cidrs iv fam) _ (cover-AreBlocks _ fam iv.start iv.last h.0)
      (intervals_to_cidrs-AreBlocks ivs fam h.1)

family_eq_sound : (a b : Family) → family_eq a b ≡ true → a ≡ b
family_eq_sound v4 v4 h = refl
family_eq_sound v6 v6 h = refl
family_eq_sound v4 v6 h = ground (arith, h)
family_eq_sound v6 v4 h = ground (arith, h)

block_end :
    (net q size top : ℕ)
    → 0 < size
    → net ≡ q * size
    → net < top * size
    → net + size - 1 < top * size
block_end net q size top pos e l =
    omega (arith, pos, e, l, add-mul q 1 size, mul-le-mul_right size fits)
  where
    fits : q + 1 ≤ top
    fits = omega (arith, lt_of_mul-lt-mul_right size {m = q} {n = top} (rw e at l))

pow_add : (a b : ℕ) → 2 ^ (a + b) ≡ 2 ^ a * 2 ^ b
pow_add a zero = ap (λ n. 2 ^ n) {x = a + 0} {y = a} (omega arith) ∙ omega arith
pow_add a (suc b) =
    ap (λ n. 2 ^ n) {x = a + suc b} {y = suc (a + b)} (omega arith)
    ∙ (pow-suc 2 (a + b)
        ∙ (ap (λ n. n * 2) (pow_add a b)
            ∙ (mul_assoc (2 ^ a) (2 ^ b) 2 ∙ ap (λ n. 2 ^ a * n) (sym (pow-suc 2 b)))))

space_of :
    (fam : Family) (prefix : ℕ)
    → prefix ≤ family_bits fam
    → 2 ^ family_bits fam ≡ 2 ^ prefix * 2 ^ (family_bits fam - prefix)
space_of fam prefix h =
    ap (λ n. 2 ^ n) (omega (arith, h)) ∙ pow_add prefix (family_bits fam - prefix)

interval_end :
    (fam : Family) (c : Cidr)
    → IsBlock c
    → c.family ≡ fam
    → (cidr_to_interval c).last < 2 ^ family_bits fam
unfolding cidr_to_interval
interval_end fam c h e =
    subst (λ f. c.net + 2 ^ (family_bits c.family - c.prefix) - 1 < 2 ^ family_bits f) e
      (subst (λ n. c.net + 2 ^ (family_bits c.family - c.prefix) - 1 < n) (sym space)
        (block_end c.net h.0.0 (2 ^ (family_bits c.family - c.prefix)) (2 ^ c.prefix)
          (pow_pos (family_bits c.family - c.prefix)) h.0.1 (subst (λ n. c.net < n) space h.1)))
  where
    space : 2 ^ family_bits c.family ≡ 2 ^ c.prefix * 2 ^ (family_bits c.family - c.prefix)
    space = space_of c.family c.prefix h.0.2

intervals-AreBelow :
    (fam : Family) (cs : List Cidr)
    → All IsBlock cs
    → AreBelow (2 ^ family_bits fam) (map cidr_to_interval (keep (λ c. family_eq c.family fam) cs))
intervals-AreBelow fam [] h = tt
intervals-AreBelow fam (c ∷ cs) h = elim (Bool-cases (family_eq c.family fam)) [
  | inl same ↦
      rw same
        (interval_end fam c h.0 (family_eq_sound c.family fam same), intervals-AreBelow fam cs h.1)
  | inr other ↦ rw other (intervals-AreBelow fam cs h.1)
]

pub merged_of-AreBelow :
    (fam : Family) (cs : List Cidr)
    → All IsBlock cs
    → AreBelow (2 ^ family_bits fam) (merged_of fam cs)
unfolding merged_of
merged_of-AreBelow fam cs h = merge_intervals-AreBelow _ _ (intervals-AreBelow fam cs h)

pub whole_space-AreBelow : (fam : Family) → AreBelow (2 ^ family_bits fam) (whole_space fam ∷ [])
whole_space-AreBelow fam = (omega (arith, pow_pos (family_bits fam)), tt)
