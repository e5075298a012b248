-- ===== src/Common/Sorting.antt =====
-- The stable sort by a key: its result is in order, and it has what the list had.
use Prim.Native.Nat.{ℕ, ◌≤◌}
use mathlib.Core.Path.{◌≡◌}
use mathlib.Core.Logic.{inl, inr}
use mathlib.Core.Bool.{Bool, true}
use mathlib.Core.List.{List, [], ◌∷◌}
use native.Mathlib.Omega.{arith}
use cumulusvpn.Common.Tests.{ltb, Bool-cases}
use cumulusvpn.Common.Lists.{keep, All, insert_by, sort_by}

module _ {ℓ κ} {A : Type ℓ} (P : A → Type κ) where
  insert_by-All :
      (before : A → A → Bool) (x : A) (xs : List A) → All P (insert_by before x xs) → P x × All P xs
  insert_by-All before x [] h = h
  insert_by-All before x (y ∷ ys) h = elim (Bool-cases (before y x)) [
    | inl e ↦
        let h' = rw e at h in let (px, pys) = insert_by-All before x ys h'.1 in (px, (h'.0, pys))
    | inr e ↦ rw e at h
  ]

  pub sort_by-All : (before : A → A → Bool) (xs : List A) → All P (sort_by before xs) → All P xs
  sort_by-All before [] h = tt
  sort_by-All before (x ∷ xs) h =
      let (px, pxs) = insert_by-All before x (sort_by before xs) h in
      (px, sort_by-All before xs pxs)

  -- what holds of all that a test keeps holds of the list where the test holds
  pub All-of_keep :
      (p : A → Bool) (xs : List A) → All P (keep p xs) → All (λ x. p x ≡ true → P x) xs
  All-of_keep p [] h = tt
  All-of_keep p (x ∷ xs) h = elim (Bool-cases (p x)) [
    | inl e ↦ let h' = rw e at h in ((λ _. h'.0), All-of_keep p xs h'.1)
    | inr e ↦ ((λ yes. cc), All-of_keep p xs (rw e at h))
  ]

module _ {ℓ κ} {A : Type ℓ} (P : A → Type κ) where
  pub All-keep_of :
      (p : A → Bool) (xs : List A) → All (λ x. p x ≡ true → P x) xs → All P (keep p xs)
  All-keep_of p [] h = tt
  All-keep_of p (x ∷ xs) h = elim (Bool-cases (p x)) [
    | inl e ↦ rw e (h.0 e, All-keep_of p xs h.1)
    | inr e ↦ rw e (All-keep_of p xs h.1)
  ]

pub All-map {ℓ κ μ} :
    {A : Type ℓ} (P : A → Type κ) (Q : A → Type μ)
    → ((x : A) → P x → Q x)
    → (xs : List A) → All P xs
    → All Q xs
All-map P Q f [] h = tt
All-map P Q f (x ∷ xs) h = (f x h.0, All-map P Q f xs h.1)

module _ {ℓ} {A : Type ℓ} (f : A → ℕ) where
  abbrev pub lower_key : A → A → Bool
  lower_key a b = ltb (f a) (f b)

  abbrev pub IsSorted : List A → Type 0
  IsSorted [] = Unit
  IsSorted (x ∷ xs) = All (λ y. f x ≤ f y) xs × IsSorted xs

  All-le_insert :
      (a x : A) (xs : List A)
      → f a ≤ f x
      → All (λ y. f a ≤ f y) xs
      → All (λ y. f a ≤ f y) (insert_by lower_key x xs)
  All-le_insert a x [] le h = (le, tt)
  All-le_insert a x (y ∷ ys) le h = elim (Bool-cases (ltb (f y) (f x))) [
    | inl e ↦ rw e (h.0, All-le_insert a x ys le h.1)
    | inr e ↦ rw e (le, h)
  ]

  pub All-le_trans :
      (a b : A) (xs : List A) → f a ≤ f b → All (λ y. f b ≤ f y) xs → All (λ y. f a ≤ f y) xs
  All-le_trans a b [] le h = tt
  All-le_trans a b (x ∷ xs) le h = (omega (arith, h.0), All-le_trans a b xs le h.1)

  insert_by-IsSorted : (x : A) (xs : List A) → IsSorted xs → IsSorted (insert_by lower_key x xs)
  insert_by-IsSorted x [] h = (tt, tt)
  insert_by-IsSorted x (y ∷ ys) h = elim (Bool-cases (ltb (f y) (f x))) [
    | inl e ↦ rw e (All-le_insert y x ys (ground arith) h.0, insert_by-IsSorted x ys h.1)
    | inr e ↦ let le : f x ≤ f y = ground arith in rw e ((le, All-le_trans x y ys le h.0), h)
  ]

  pub sort_by-IsSorted : (xs : List A) → IsSorted (sort_by lower_key xs)
  sort_by-IsSorted [] = tt
  sort_by-IsSorted (x ∷ xs) = insert_by-IsSorted x (sort_by lower_key xs) (sort_by-IsSorted xs)
