-- ===== src/Treasury/Picking.antt =====
-- What `selectUtxos` of bridge/src/flux/utxo.ts returns.
use cumulusvpn.Common.{
  ℕ, ◌+◌, ◌≤◌, ◌<◌, ◌≡◌, refl, true, List, [], ◌∷◌, ◌++◌, leb, leb→le, Bool-cases, inl, inr, keep,
  All, sum_of, arith,
}
use cumulusvpn.Common.ListLaws.{
  All-keep, All-sort_by, All-append, keep-All, sum_of-append, sum_of-sort_by,
}
use cumulusvpn.Payments.{Outpoint}
use cumulusvpn.Treasury.{Utxo, picked, insufficient, is_free, larger, usable, pick, select_utxos}

abbrev pub value_of : List Utxo → ℕ
value_of us = sum_of (λ u. u.satoshis) us

-- What a result promises about the search with `needed` over `us`.
pub record IsCover (P : Utxo → Type 0) (needed : ℕ) (inputs : List Utxo) (total : ℕ) : Type 0 where
  pub counted : total ≡ value_of inputs
  pub covers : needed ≤ total
  pub from : All P inputs

picked_injective : {xs ys : List Utxo} {s t : ℕ} → picked xs s ≡ picked ys t → (xs ≡ ys) × (s ≡ t)
picked_injective e = (cc, cc)

pick-IsCover :
    (P : Utxo → Type 0) (needed : ℕ) (inputs : List Utxo) (total : ℕ) (us : List Utxo)
    (xs : List Utxo) (t : ℕ)
    → total ≡ value_of inputs
    → All P inputs
    → All P us
    → pick needed inputs total us ≡ picked xs t
    → IsCover P needed xs t
unfolding pick
pick-IsCover P needed inputs total [] xs t c h k e = ground arith
pick-IsCover P needed inputs total (u ∷ us) xs t c h k e =
    let counted : total + u.satoshis ≡ value_of (inputs ++ u ∷ []) =
      omega (arith, sum_of-append (λ (v : Utxo). v.satoshis) inputs (u ∷ [])) in
    let from : All P (inputs ++ u ∷ []) = All-append P inputs (u ∷ []) h (k.0, tt) in
    elim (Bool-cases (leb needed (total + u.satoshis))) [
      | inl enough ↦
          let (same_inputs, same_total) = picked_injective (rw enough at e) in
          rw (← same_inputs, ← same_total)
            (record { counted = counted; covers = leb→le _ _ enough; from = from })
      | inr short ↦
          pick-IsCover P needed (inputs ++ u ∷ []) (total + u.satoshis) us xs t counted from k.1
            (rw short at e)
    ]

pick-insufficient :
    (needed : ℕ) (inputs : List Utxo) (total : ℕ) (us : List Utxo) (n a : ℕ)
    → total < needed
    → pick needed inputs total us ≡ insufficient n a
    → (n ≡ needed) × (a ≡ total + value_of us) × (a < needed)
unfolding pick
pick-insufficient needed inputs total [] n a lt e = ground arith
pick-insufficient needed inputs total (u ∷ us) n a lt e =
    ground (arith, pick-insufficient needed (inputs ++ u ∷ []) (total + u.satoshis) us n a)

-- A selection is counted right and covers what is needed, every input of it is free of the excluded
-- outpoints, and satisfies whatever all available outputs satisfy.
pub select_utxos-IsCover :
    (P : Utxo → Type 0) (available : List Utxo) (excluded : List Outpoint) (needed : ℕ)
    (xs : List Utxo) (t : ℕ)
    → All P available
    → select_utxos available excluded needed ≡ picked xs t
    → IsCover P needed xs t × All (λ u. is_free excluded u ≡ true) xs
unfolding select_utxos
select_utxos-IsCover P available excluded needed xs t h e =
    let free : All (λ u. is_free excluded u ≡ true) (usable available excluded) =
      unfold usable in
      All-sort_by (λ u. is_free excluded u ≡ true) larger _
        (keep-All (is_free excluded) available) in
    let held : All P (usable available excluded) =
      unfold usable in All-sort_by P larger _ (All-keep P (is_free excluded) available h) in
    (
      pick-IsCover P needed [] 0 _ xs t refl tt held e,
      (pick-IsCover (λ u. is_free excluded u ≡ true) needed [] 0 _ xs t refl tt free e).from,
    )

-- A selection for a positive amount fails only for want of money: it reports what was needed and all
-- that the free outputs hold, and
-- the second is less than the first.
pub select_utxos_insufficient :
    (available : List Utxo) (excluded : List Outpoint) (needed n a : ℕ)
    → 0 < needed
    → select_utxos available excluded needed ≡ insufficient n a
    → (n ≡ needed) × (a ≡ value_of (keep (is_free excluded) available)) × (a < needed)
unfolding select_utxos usable
select_utxos_insufficient available excluded needed n a pos e =
    let (same, total, lt) = pick-insufficient needed [] 0 _ n a pos e in
    (
      same,
      omega (
        arith,
        total,
        sum_of-sort_by (λ (u : Utxo). u.satoshis) larger (keep (is_free excluded) available),
      ),
      lt,
    )
