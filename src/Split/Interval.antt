-- ===== src/Split/Interval.antt =====
-- The interval arithmetic of clients/core-ts/src/split.ts: `mergeIntervals`, `subtractIntervals`. A
-- bigint address is a number.
use cumulusvpn.Common.{
  ℕ, ◌+◌, ◌-◌, Bool, ◌&&◌, ◌||◌, List, [], ◌∷◌, ◌++◌, ltb, leb, if◌then◌else◌, any, sort_by,
}

-- Both ends are included.
pub record Interval : Type 0 where
  pub start : ℕ
  pub last : ℕ

abbrev pub holds : ℕ → Interval → Bool
holds x iv = leb iv.start x && leb x iv.last

-- Whether an address lies in one of the intervals.
unfoldable pub inside : ℕ → List Interval → Bool
inside x [] = cumulusvpn.Common.false
inside x (iv ∷ ivs) = holds x iv || inside x ivs

abbrev pub starts_before : Interval → Interval → Bool
starts_before a b = ltb a.start b.start

-- One round of the merge; `out` has its last element first.
unfoldable pub absorb : List Interval → Interval → List Interval
absorb [] iv = iv ∷ []
absorb (top ∷ out) iv =
    if leb iv.start (top.last + 1)
    then (if ltb top.last iv.last
        then record { start = top.start; last = iv.last } ∷ out
        else top ∷ out)
    else iv ∷ (top ∷ out)

unfoldable pub merge_onto : List Interval → List Interval → List Interval
merge_onto out [] = out
merge_onto out (iv ∷ ivs) = merge_onto (absorb out iv) ivs

-- Back to the order of the array.
unfoldable pub turn : List Interval → List Interval → List Interval
turn [] acc = acc
turn (iv ∷ out) acc = turn out (iv ∷ acc)

unfoldable pub merge_intervals : List Interval → List Interval
unfolding absorb merge_onto turn
merge_intervals ivs = turn (merge_onto [] (sort_by starts_before ivs)) []

abbrev pub piece : ℕ → ℕ → List Interval
piece lo hi = record { start = lo; last = hi } ∷ []

-- `if (cut.start > cursor) out.push({ start: cursor, end: cut.start - 1n })`
unfoldable pub front : ℕ → Interval → List Interval
front cursor cut = if ltb cursor cut.start then piece cursor (cut.start - 1) else []

-- The loop over the cuts for one interval that ends at `hi`: `continue`, the piece in front of a cut,
-- `break`, and the piece behind the last cut.
unfoldable pub cut_from : ℕ → ℕ → List Interval → List Interval
cut_from hi cursor [] = if leb cursor hi then piece cursor hi else []
cut_from hi cursor (cut ∷ cuts) =
    let skipped = cut_from hi cursor cuts in
    let resumed = cut_from hi (cut.last + 1) cuts in
    if ltb cut.last cursor || ltb hi cut.start
    then skipped
    else front cursor cut ++ (if ltb hi (cut.last + 1) then [] else resumed)

unfoldable pub subtract_intervals : List Interval → List Interval → List Interval
unfolding cut_from
subtract_intervals [] b = []
subtract_intervals (iv ∷ a) b = cut_from iv.last iv.start b ++ subtract_intervals a b
