-- ===== src/Split/Subtracting.antt =====
-- What `subtractIntervals` of clients/core-ts/src/split.ts leaves.
use cumulusvpn.Common.{
  ℕ, ◌+◌, ◌<◌, ◌≡◌, refl, ◌∙◌, inl, inr, Bool, false, ◌&&◌, ◌||◌, not, List, [], ◌∷◌, ◌++◌, ltb,
  leb, Bool-cases, arith,
}
use cumulusvpn.Split.Interval.{Interval, holds, inside, front, cut_from, subtract_intervals}
use cumulusvpn.Split.Merging.{IsSeparated}

pub inside-append : (x : ℕ) (a b : List Interval) → inside x (a ++ b) ≡ (inside x a || inside x b)
unfolding inside
inside-append x [] b = refl
inside-append x (iv ∷ a) b = ground (arith, inside-append x a b)

inside_one : (x : ℕ) (iv : Interval) → inside x (iv ∷ []) ≡ holds x iv
unfolding inside
inside_one x iv = ground arith

inside_none : (x : ℕ) → inside x [] ≡ false
unfolding inside
inside_none x = refl

-- No address below the first interval.
outside_below :
    (x lo : ℕ) (ivs : List Interval) → IsSeparated lo ivs → x < lo → inside x ivs ≡ false
unfolding inside
outside_below x lo [] s h = refl
outside_below x lo (iv ∷ ivs) s h = ground (arith, outside_below x (iv.last + 2) ivs s.2)

inside-cons :
    (x : ℕ) (iv : Interval) (ivs : List Interval)
    → inside x (iv ∷ ivs) ≡ (holds x iv || inside x ivs)
unfolding inside
inside-cons x iv ivs = refl

inside-front :
    (x cursor : ℕ) (cut : Interval)
    → inside x (front cursor cut) ≡ (leb cursor x && ltb x cut.start)
unfolding front inside
inside-front x cursor cut = ground arith

inside-cut_from :
    (x hi cursor lo : ℕ) (cuts : List Interval)
    → IsSeparated lo cuts
    → inside x (cut_from hi cursor cuts) ≡ ((leb cursor x && leb x hi) && not (inside x cuts))
unfolding cut_from
inside-cut_from x hi cursor lo [] s =
    rw inside_none
      (ground (arith, inside_one x (record { start = cursor; last = hi }), inside_none x))
inside-cut_from x hi cursor lo (cut ∷ cuts) s =
    elim (Bool-cases (ltb cut.last cursor || ltb hi cut.start)) [
      | inl skip ↦
          rw (skip, inside-cons)
            (ground (arith, inside-cut_from x hi cursor (cut.last + 2) cuts s.2))
      | inr meet ↦ rw meet (
          rw (inside-append, inside-cons, inside-front)
            (elim (Bool-cases (ltb hi (cut.last + 1))) [
              | inl ends ↦
                  rw (ends, inside_none) (ground (arith, outside_below x (cut.last + 2) cuts s.2))
              | inr goes ↦
                  rw (goes, inside-cut_from x hi (cut.last + 1) (cut.last + 2) cuts s.2)
                    (ground (arith, outside_below x (cut.last + 2) cuts s.2))
            ]))
    ]

spread : (a b d : Bool) → ((a && not d) || (b && not d)) ≡ ((a || b) && not d)
spread a b d = ground arith

-- For cuts as `mergeIntervals` returns them, an address is left exactly when it lies in `a` and in no
-- cut.
pub inside-subtract_intervals :
    (x : ℕ) (a b : List Interval)
    → IsSeparated 0 b
    → inside x (subtract_intervals a b) ≡ (inside x a && not (inside x b))
unfolding subtract_intervals
inside-subtract_intervals x [] b s = rw inside_none
inside-subtract_intervals x (iv ∷ a) b s =
    inside-append x (cut_from iv.last iv.start b) (subtract_intervals a b)
    ∙ (rw
        (
          inside-cut_from x iv.last iv.start 0 b s,
          inside-subtract_intervals x a b s,
          inside-cons x iv a,
        )
        (spread (holds x iv) (inside x a) (inside x b)))
