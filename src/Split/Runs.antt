-- ===== src/Split/Runs.antt =====
-- The run of zero groups that an IPv6 text leaves out.
use mathlib.Core.List.{append_assoc}
use native.Mathlib.Nat.{pow-suc, add-mul, mul_assoc, div-add-mod', div-div-eq-div-mul}
use cumulusvpn.Common.{
  ℕ, zero, suc, ◌+◌, ◌-◌, ◌*◌, ◌/◌, ◌%◌, ◌^◌, ◌≤◌, ◌≡◌, ◌⊎◌, refl, sym, ap, ◌∙◌, inl, inr, true,
  List, [], ◌∷◌, ◌++◌, ltb, ◌==◌, length, take, drop, length-append, Bool-cases, arith,
}
use cumulusvpn.Split.Address.{zeros, zero_run, best_run, join_groups, groups_of}

pub length-zeros : (n : ℕ) → length (zeros n) ≡ n
unfolding zeros
length-zeros zero = refl
length-zeros (suc n) = ap suc (length-zeros n)

pub take-length : (s t : List ℕ) → take (length s) (s ++ t) ≡ s
take-length [] t = refl
take-length (x ∷ s) t = ap (λ l. x ∷ l) (take-length s t)

pub drop-length : (s t : List ℕ) → drop (length s) (s ++ t) ≡ t
drop-length [] t = refl
drop-length (x ∷ s) t = drop-length s t

-- The groups with the run cut out: `pre`, the zeros, `post`; or no run at all.
abbrev pub IsCut : List ℕ → ℕ × ℕ → Type 0
IsCut gs run =
    (run.1 ≡ 1)
    ⊎ ((pre : List ℕ) × (post : List ℕ) × (length pre ≡ run.0)
        × (2 ≤ run.1)
        × (gs ≡ pre ++ (zeros run.1 ++ post)))

zero_in_front :
    (g : ℕ) (gs post : List ℕ)
    → (g == 0) ≡ true
    → gs ≡ zeros (zero_run gs) ++ post
    → g ∷ gs ≡ 0 ∷ (zeros (zero_run gs) ++ post)
zero_in_front g gs post is_zero e = ap (λ x. x ∷ gs) (ground (arith, is_zero)) ∙ ap (λ l. 0 ∷ l) e

-- The leading zeros and what follows them.
leading_zeros : (gs : List ℕ) → (post : List ℕ) × (gs ≡ zeros (zero_run gs) ++ post)
unfolding zeros zero_run
leading_zeros [] = ([], refl)
leading_zeros (g ∷ gs) = elim (Bool-cases (g == 0)) [
  | inl is_zero ↦
      rw is_zero
        ((leading_zeros gs).0, zero_in_front g gs (leading_zeros gs).0 is_zero (leading_zeros gs).1)
  | inr other ↦ rw other (g ∷ gs, refl)
]

one_le_run : (gs : List ℕ) (run : ℕ × ℕ) → IsCut gs run → 1 ≤ run.1
one_le_run gs run (inl none) = omega (arith, none)
one_le_run gs run (inr cut) = omega (arith, cut.3)

moved_on : (done : List ℕ) (g i : ℕ) → length done ≡ i → length (done ++ g ∷ []) ≡ suc i
moved_on done g i l = omega (arith, l, length-append done (g ∷ []))

-- The search keeps a run that cuts the groups: those in front of `gs` are `done`.
best_run-IsCut :
    (all done gs : List ℕ) (i skip : ℕ) (best : ℕ × ℕ)
    → all ≡ done ++ gs
    → length done ≡ i
    → IsCut all best
    → IsCut all (best_run i skip best gs)
unfolding best_run
best_run-IsCut all done [] i skip best e l h = h
best_run-IsCut all done (g ∷ gs) i (suc skip) best e l h =
    best_run-IsCut all (done ++ g ∷ []) gs (suc i) skip best
      (e ∙ sym (append_assoc done (g ∷ []) gs)) (moved_on done g i l) h
best_run-IsCut all done (g ∷ gs) i zero best e l h =
    best_run-IsCut all (done ++ g ∷ []) gs (suc i) (zero_run (g ∷ gs) - 1) _
      (e ∙ sym (append_assoc done (g ∷ []) gs)) (moved_on done g i l)
      (elim (Bool-cases (ltb best.1 (zero_run (g ∷ gs)))) [
        | inr shorter ↦ rw shorter h
        | inl longer ↦ rw longer (
            inr (
              done,
              (leading_zeros (g ∷ gs)).0,
              l,
              ground (arith, longer, one_le_run all best h),
              e ∙ ap (λ r. done ++ r) (leading_zeros (g ∷ gs)).1,
            ))
      ])

-- The run that the text of `gs` leaves out cuts it.
pub best_run-IsCut_all : (gs : List ℕ) → IsCut gs (best_run 0 0 (0, 1) gs)
best_run-IsCut_all gs = best_run-IsCut gs [] gs 0 0 (0, 1) refl refl (inl refl)

two_divisions :
    (v d q r w m b : ℕ)
    → d * b + w ≡ v
    → q * (b * 65536) + m ≡ v
    → q * 65536 + r ≡ d
    → m ≡ r * b + w
two_divisions v d q r w m b ev em ed =
    omega (arith, ev, em, ap (λ x. x * b) ed, add-mul (q * 65536) r b, same)
  where
    same : q * 65536 * b ≡ q * (b * 65536)
    same = mul_assoc q 65536 b ∙ ap (λ x. q * x) (omega arith)

-- The rest of a number by a multiple of `b`.
mod_mul : (v b : ℕ) → v % (b * 65536) ≡ v / b % 65536 * b + v % b
mod_mul v b =
    two_divisions v (v / b) (v / b / 65536) (v / b % 65536) (v % b) (v % (b * 65536)) b
      (div-add-mod' v b)
      (ap (λ q. q * (b * 65536) + v % (b * 65536)) (div-div-eq-div-mul v b 65536)
        ∙ div-add-mod' v (b * 65536))
      (div-add-mod' (v / b) 65536)

split_off :
    (acc r w b m n : ℕ) → n ≡ b * 65536 → m ≡ r * b + w → (acc * 65536 + r) * b + w ≡ acc * n + m
split_off acc r w b m n en em = omega (
  arith,
  em,
  ap (λ x. acc * x) en,
  add-mul (acc * 65536) r b,
  mul_assoc acc 65536 b,
  ap (λ x. acc * x) (swap b),
)
  where
    swap : (b : ℕ) → 65536 * b ≡ b * 65536
    swap b = omega arith

-- The groups of an address, joined, are the address.
pub join_groups-groups_of :
    (k acc v : ℕ) → join_groups acc (groups_of k v) ≡ acc * 65536 ^ k + v % 65536 ^ k
unfolding join_groups groups_of
join_groups-groups_of zero acc v = omega arith
join_groups-groups_of (suc k) acc v =
    join_groups-groups_of k (acc * 65536 + v / 65536 ^ k % 65536) v
    ∙ split_off acc (v / 65536 ^ k % 65536) (v % 65536 ^ k) (65536 ^ k) _ (65536 ^ suc k)
        (pow-suc 65536 k) (ap (λ n. v % n) (pow-suc 65536 k) ∙ mod_mul v (65536 ^ k))
