-- ===== src/Price/Boundaries.antt =====
-- `maxEffective` of bridge/src/price.ts: checking the boundaries inside a range is exhaustive.
use cumulusvpn.Common.{
  ℕ, zero, suc, ◌+◌, ◌-◌, ◌≤◌, ◌<◌, ◌≡◌, refl, inl, inr, Bool, true, false, ◌||◌, leb, ◌==◌,
  Bool-cases, arith,
}
use cumulusvpn.Price.{
  grace_blocks, Schedule, base, entry, IsIncreasing, index, at, effective, raise, raise_all,
  max_effective,
}
use cumulusvpn.Price.Window.{effective-le-at, effective_attained}

-- The heights that `maxEffective` looks at: where an entry starts, and where its grace ends.
is_boundary : ℕ → Schedule → Bool
is_boundary t (base z) = t == 0 || t == grace_blocks
is_boundary t (entry e s) = t == e.start || t == e.start + grace_blocks || is_boundary t s

at_between :
    (k : ℕ) (s : Schedule) → is_boundary (suc k + grace_blocks) s ≡ false → at (suc k) s ≡ at k s
unfolding is_boundary at index
at_between k (base z) h = refl
at_between k (entry e s) h = ground (arith, at_between k s)

effective-le-effective :
    (t : ℕ) (s : Schedule)
    → IsIncreasing s
    → is_boundary (suc t) s ≡ false
    → effective (suc t) s ≤ effective t s
effective-le-effective t s i h =
    let (k, a, b, q) = effective_attained t s i in
    elim (Bool-cases (leb (suc t) (k + grace_blocks))) [
      | inl near ↦ rw q (effective-le-at (suc t) k s (omega arith) (ground arith))
      | inr far ↦
          let e : suc k + grace_blocks ≡ suc t = ground arith in
          rw (q, ← at_between k s (rw e h))
            (effective-le-at (suc t) (suc k) s (omega arith) (omega arith))
    ]

module _ (all : Schedule) (lo hi : ℕ) where
  raise-le : (b p : ℕ) → p ≤ raise all lo hi b p
  unfolding raise
  raise-le b p = ground arith

  raise-le-effective : (b p : ℕ) → lo < b → b ≤ hi → effective b all ≤ raise all lo hi b p
  unfolding raise
  raise-le-effective b p h k = ground arith

  raise_all-le : (s : Schedule) (p : ℕ) → p ≤ raise_all all lo hi s p
  unfolding raise_all
  raise_all-le (base z) p = omega (arith, raise-le)
  raise_all-le (entry e s) p = omega (arith, raise-le, raise_all-le s p)

  raise_all-le-effective :
      (t : ℕ) (s : Schedule) (p : ℕ)
      → lo < t
      → t ≤ hi
      → is_boundary t s ≡ true
      → effective t all ≤ raise_all all lo hi s p
  unfolding raise_all is_boundary
  raise_all-le-effective t (base z) p a b h = grind (arith, raise-le, raise-le-effective)
  raise_all-le-effective t (entry e s) p a b h =
      grind (arith, raise-le, raise-le-effective, raise_all-le-effective t s p a b)

effective-le-max_effective_at :
    (s : Schedule) (lo hi n : ℕ)
    → IsIncreasing s
    → lo + n ≤ hi
    → effective (lo + n) s ≤ max_effective lo hi s
unfolding max_effective
effective-le-max_effective_at s lo hi zero i h =
    let e : lo + zero ≡ lo = omega arith in rw e (raise_all-le s lo hi s (effective lo s))
effective-le-max_effective_at s lo hi (suc n) i h =
    let e : lo + suc n ≡ suc (lo + n) = omega arith in
    rw e (elim (Bool-cases (is_boundary (suc (lo + n)) s)) [
      | inl found ↦
          raise_all-le-effective s lo hi (suc (lo + n)) s _ (omega arith) (omega arith) found
      | inr plain ↦ omega (
        arith,
        effective-le-effective (lo + n) s i plain,
        effective-le-max_effective_at s lo hi n i (omega arith),
      )
    ])

-- With increasing entries, the highest effective price over a range is at least the effective price
-- of every height in the range.
pub effective-le-max_effective :
    (s : Schedule) (lo hi t : ℕ)
    → IsIncreasing s
    → lo ≤ t
    → t ≤ hi
    → effective t s ≤ max_effective lo hi s
effective-le-max_effective s lo hi t i a b =
    let e : lo + (t - lo) ≡ t = omega arith in
    rw e at (effective-le-max_effective_at s lo hi (t - lo) i (omega arith))
