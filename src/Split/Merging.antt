-- ===== src/Split/Merging.antt =====
-- What `mergeIntervals` of clients/core-ts/src/split.ts keeps, and the form of its result.
use cumulusvpn.Common.{
  ℕ, ◌+◌, ◌≤◌, ◌<◌, ◌≡◌, refl, ◌∙◌, ap, inl, inr, Bool, false, ◌||◌, List, [], ◌∷◌, ltb, leb, All,
  sort_by, insert_by, Bool-cases, arith,
}
use cumulusvpn.Common.ListLaws.{All-sort_by}
use cumulusvpn.Split.Interval.{
  Interval, holds, inside, starts_before, absorb, merge_onto, turn, merge_intervals,
}

-- Sorted by their starts, from `lo` on.
abbrev IsSortedFrom : ℕ → List Interval → Type 0
IsSortedFrom lo [] = Unit
IsSortedFrom lo (iv ∷ ivs) = (lo ≤ iv.start) × IsSortedFrom iv.start ivs

-- Proper intervals in ascending order with a gap of at least one address between two: from `lo` on.
abbrev pub IsSeparated : ℕ → List Interval → Type 0
IsSeparated lo [] = Unit
IsSeparated lo (iv ∷ ivs) = (lo ≤ iv.start) × (iv.start ≤ iv.last) × IsSeparated (iv.last + 2) ivs

abbrev pub IsProper : Interval → Type 0
IsProper iv = iv.start ≤ iv.last

insert_by-IsSortedFrom :
    (lo : ℕ) (iv : Interval) (ivs : List Interval)
    → lo ≤ iv.start
    → IsSortedFrom lo ivs
    → IsSortedFrom lo (insert_by starts_before iv ivs)
insert_by-IsSortedFrom lo iv [] h s = (h, tt)
insert_by-IsSortedFrom lo iv (j ∷ ivs) h s = elim (Bool-cases (ltb j.start iv.start)) [
  | inl before ↦ rw before (s.0, insert_by-IsSortedFrom j.start iv ivs (ground arith) s.1)
  | inr after ↦ rw after (h, (ground arith, s.1))
]

sort_by-IsSortedFrom : (ivs : List Interval) → IsSortedFrom 0 (sort_by starts_before ivs)
sort_by-IsSortedFrom [] = tt
sort_by-IsSortedFrom (iv ∷ ivs) =
    insert_by-IsSortedFrom 0 iv (sort_by starts_before ivs) (omega arith) (sort_by-IsSortedFrom ivs)

-- Every interval to come starts no earlier than the one on top.
abbrev IsAhead : List Interval → List Interval → Type 0
IsAhead [] ivs = IsSortedFrom 0 ivs
IsAhead (top ∷ out) ivs = IsSortedFrom top.start ivs

inside-absorb :
    (x : ℕ) (out : List Interval) (iv : Interval)
    → IsAhead out (iv ∷ [])
    → inside x (absorb out iv) ≡ (holds x iv || inside x out)
unfolding inside absorb
inside-absorb x [] iv h = ground arith
inside-absorb x (top ∷ out) iv h = ground arith

sorted_weaken :
    (lo lo' : ℕ) (ivs : List Interval) → lo ≤ lo' → IsSortedFrom lo' ivs → IsSortedFrom lo ivs
sorted_weaken lo lo' [] le h = tt
sorted_weaken lo lo' (iv ∷ ivs) le h = (omega arith, h.1)

IsAhead-one :
    (out : List Interval) (iv : Interval) (ivs : List Interval)
    → IsAhead out (iv ∷ ivs)
    → IsAhead out (iv ∷ [])
IsAhead-one [] iv ivs h = (h.0, tt)
IsAhead-one (top ∷ out) iv ivs h = (h.0, tt)

absorb-IsAhead :
    (out : List Interval) (iv : Interval) (ivs : List Interval)
    → IsAhead out (iv ∷ ivs)
    → IsAhead (absorb out iv) ivs
unfolding absorb
absorb-IsAhead [] iv ivs h = h.1
absorb-IsAhead (top ∷ out) iv ivs h =
    let later : IsSortedFrom top.start ivs = sorted_weaken top.start iv.start ivs h.0 h.1 in
    elim (Bool-cases (leb iv.start (top.last + 1))) [
      | inr apart ↦ rw apart h.1
      | inl touching ↦ rw touching (elim (Bool-cases (ltb top.last iv.last)) [
        | inl longer ↦ rw longer later
        | inr covered ↦ rw covered later
      ])
    ]

or_rotate : (a b c : Bool) → (a || (b || c)) ≡ ((b || a) || c)
or_rotate a b c = ground arith

or_false : (a : Bool) → (a || false) ≡ a
or_false a = ground arith

inside-merge_onto :
    (x : ℕ) (out ivs : List Interval)
    → IsAhead out ivs
    → inside x (merge_onto out ivs) ≡ (inside x ivs || inside x out)
unfolding merge_onto inside
inside-merge_onto x out [] h = refl
inside-merge_onto x out (iv ∷ ivs) h =
    inside-merge_onto x (absorb out iv) ivs (absorb-IsAhead out iv ivs h)
    ∙ (rw (inside-absorb x out iv (IsAhead-one out iv ivs h))
        (or_rotate (inside x ivs) (holds x iv) (inside x out)))

inside-insert_by :
    (x : ℕ) (iv : Interval) (ivs : List Interval)
    → inside x (insert_by starts_before iv ivs) ≡ (holds x iv || inside x ivs)
unfolding inside
inside-insert_by x iv [] = refl
inside-insert_by x iv (j ∷ ivs) = ground (arith, inside-insert_by x iv ivs)

inside-sort_by : (x : ℕ) (ivs : List Interval) → inside x (sort_by starts_before ivs) ≡ inside x ivs
unfolding inside
inside-sort_by x [] = refl
inside-sort_by x (iv ∷ ivs) =
    inside-insert_by x iv (sort_by starts_before ivs)
    ∙ ap (λ b. holds x iv || b) (inside-sort_by x ivs)

inside-turn :
    (x : ℕ) (out acc : List Interval) → inside x (turn out acc) ≡ (inside x out || inside x acc)
unfolding inside turn
inside-turn x [] acc = refl
inside-turn x (iv ∷ out) acc =
    inside-turn x out (iv ∷ acc) ∙ or_rotate (inside x out) (holds x iv) (inside x acc)

-- Merging intervals keeps the set of addresses that they hold.
pub inside-merge_intervals :
    (x : ℕ) (ivs : List Interval) → inside x (merge_intervals ivs) ≡ inside x ivs
unfolding merge_intervals
inside-merge_intervals x ivs =
    inside-turn x (merge_onto [] (sort_by starts_before ivs)) []
    ∙ (ap (λ b. b || inside x [])
          (inside-merge_onto x [] (sort_by starts_before ivs) (sort_by-IsSortedFrom ivs))
        ∙ (tidy (inside-sort_by x ivs)))
  where
    tidy : {a b : Bool} → a ≡ b → ((a || inside x []) || inside x []) ≡ b
    tidy {a} e = unfold inside in (or_false (a || false) ∙ (or_false a ∙ e))

-- The stack of the merge, its last interval first.
abbrev IsStack : List Interval → Type 0
IsStack [] = Unit
IsStack (iv ∷ []) = IsProper iv
IsStack (iv ∷ (j ∷ out)) = IsProper iv × (j.last + 1 < iv.start) × IsStack (j ∷ out)

absorb-IsStack :
    (out : List Interval) (iv : Interval)
    → IsAhead out (iv ∷ [])
    → IsProper iv
    → IsStack out
    → IsStack (absorb out iv)
unfolding absorb
absorb-IsStack [] iv h p s = p
absorb-IsStack (top ∷ []) iv h p s = ground arith
absorb-IsStack (top ∷ (j ∷ out)) iv h p s = ground arith

merge_onto-IsStack :
    (out ivs : List Interval)
    → IsAhead out ivs
    → All IsProper ivs
    → IsStack out
    → IsStack (merge_onto out ivs)
unfolding merge_onto
merge_onto-IsStack out [] h p s = s
merge_onto-IsStack out (iv ∷ ivs) h p s =
    merge_onto-IsStack (absorb out iv) ivs (absorb-IsAhead out iv ivs h) p.1
      (absorb-IsStack out iv (IsAhead-one out iv ivs h) p.0 s)

IsSeparated-weaken :
    (lo lo' : ℕ) (ivs : List Interval) → lo ≤ lo' → IsSeparated lo' ivs → IsSeparated lo ivs
IsSeparated-weaken lo lo' [] le h = tt
IsSeparated-weaken lo lo' (iv ∷ ivs) le h = (omega arith, h.1, h.2)

-- What is turned already lies above the stack.
abbrev IsUnder : List Interval → List Interval → Type 0
IsUnder [] acc = Unit
IsUnder (iv ∷ out) acc = IsSeparated (iv.last + 2) acc

turn-IsSeparated :
    (out acc : List Interval)
    → IsStack out
    → IsUnder out acc
    → IsSeparated 0 acc
    → IsSeparated 0 (turn out acc)
unfolding turn
turn-IsSeparated [] acc s u h = h
turn-IsSeparated (iv ∷ []) acc s u h = (omega arith, s, u)
turn-IsSeparated (iv ∷ (j ∷ out)) acc s u h =
    turn-IsSeparated (j ∷ out) (iv ∷ acc) s.2 (omega arith, s.0, u) (omega arith, s.0, u)

-- Of proper intervals, the result is in ascending order, and between two of its intervals at least one
-- address is missing.
pub merge_intervals-IsSeparated :
    (ivs : List Interval) → All IsProper ivs → IsSeparated 0 (merge_intervals ivs)
unfolding merge_intervals
merge_intervals-IsSeparated ivs p =
    turn-IsSeparated (merge_onto [] sorted) [] stack (nothing (merge_onto [] sorted)) tt
  where
    sorted : List Interval
    sorted = sort_by starts_before ivs

    stack : IsStack (merge_onto [] sorted)
    stack =
        merge_onto-IsStack [] sorted (sort_by-IsSortedFrom ivs)
          (All-sort_by IsProper starts_before ivs p) tt

    nothing : (out : List Interval) → IsUnder out []
    nothing [] = tt
    nothing (iv ∷ out) = tt
