-- ===== src/Payments/Ledger.antt =====
-- The ledger of held outpoints (`spent_outpoints`) of bridge/src/db/payments.ts.
use cumulusvpn.Common.{
  ℕ, ◌≡◌, ◌≢◌, refl, ◌∙◌, ◌⊎◌, inl, inr, String, true, false, Option, none, some, List, [], ◌∷◌,
  ◌++◌, map, if◌then◌else◌, All, any, Bool-cases, arith,
}
use text.Mathlib.TextEquality.{eq_iff}
use cumulusvpn.Payments.{Outpoint, SpentRow, outpoint_eq, hold, hold_all, release}

-- The transaction that holds an outpoint.
unfoldable pub holder : Outpoint → List SpentRow → Option String
holder o [] = none
holder o (s ∷ spent) = if outpoint_eq s.outpoint o then some s.spent_by else holder o spent

outpoint_eq→eq : (a b : Outpoint) → outpoint_eq a b ≡ true → (a.txid ≡ b.txid) × (a.vout ≡ b.vout)
outpoint_eq→eq a b h = ground (arith, eq_iff a.txid b.txid)

outpoint_eq_refl : (a : Outpoint) → outpoint_eq a a ≡ true
outpoint_eq_refl a = ground (arith, eq_iff a.txid a.txid)

outpoint_eq_comm : (a b : Outpoint) → outpoint_eq a b ≡ outpoint_eq b a
outpoint_eq_comm a b = ground (arith, eq_iff a.txid b.txid, eq_iff b.txid a.txid)

-- An outpoint outside the set of the held ones has no holder.
pub holder_free :
    (o : Outpoint) (spent : List SpentRow)
    → any (outpoint_eq o) (map (λ s. s.outpoint) spent) ≡ false
    → holder o spent ≡ none
unfolding holder
holder_free o [] h = refl
holder_free o (s ∷ spent) h = ground (arith, outpoint_eq_comm s.outpoint o, holder_free o spent)

holder-append :
    (o : Outpoint) (spent more : List SpentRow) (t : String)
    → holder o spent ≡ some t
    → holder o (spent ++ more) ≡ some t
unfolding holder
holder-append o [] more t h = cc
holder-append o (s ∷ spent) more t h = ground (arith, holder-append o spent more t)

holder-append_none :
    (o : Outpoint) (spent more : List SpentRow)
    → holder o spent ≡ none
    → holder o (spent ++ more) ≡ holder o more
unfolding holder
holder-append_none o [] more h = refl
holder-append_none o (s ∷ spent) more h = ground (arith, holder-append_none o spent more)

holder_absent :
    (o : Outpoint) (spent : List SpentRow)
    → any (λ s. outpoint_eq s.outpoint o) spent ≡ false
    → holder o spent ≡ none
unfolding holder
holder_absent o [] h = refl
holder_absent o (s ∷ spent) h = ground (arith, holder_absent o spent)

holder_present :
    (o : Outpoint) (spent : List SpentRow)
    → any (λ s. outpoint_eq s.outpoint o) spent ≡ true
    → holder o spent ≢ none
unfolding holder
holder_present o [] h = cc
holder_present o (s ∷ spent) h = ground (arith, holder_present o spent)

-- An outpoint that a transaction may claim: no other one holds it.
abbrev pub Claimable : String → List SpentRow → Outpoint → Type 0
Claimable t spent o = (holder o spent ≡ none) ⊎ (holder o spent ≡ some t)

holder_one :
    (o x : Outpoint) (r : SpentRow)
    → r.outpoint ≡ o
    → holder x (r ∷ []) ≡ (if outpoint_eq o x then some r.spent_by else none)
unfolding holder
holder_one o x r e = rw e

hold_kept :
    (t t' : String) (now : ℕ) (o x : Outpoint) (spent : List SpentRow)
    → holder x spent ≡ some t'
    → holder x (hold t now o spent) ≡ some t'
unfolding hold
hold_kept t t' now o x spent h = elim (Bool-cases (any (λ s. outpoint_eq s.outpoint o) spent)) [
  | inl there ↦ rw there h
  | inr fresh ↦ rw fresh (holder-append x spent _ t' h)
]

hold_self :
    (t : String) (now : ℕ) (o : Outpoint) (spent : List SpentRow)
    → Claimable t spent o
    → holder o (hold t now o spent) ≡ some t
unfolding hold
hold_self t now o spent h = elim (Bool-cases (any (λ s. outpoint_eq s.outpoint o) spent)) [
  | inl there ↦ rw there (ground (arith, holder_present o spent there))
  | inr fresh ↦ rw fresh (
      holder-append_none o spent _ (holder_absent o spent fresh)
      ∙ (holder_one o o _ refl ∙ rw (outpoint_eq_refl o)))
]

hold-Claimable :
    (t : String) (now : ℕ) (o x : Outpoint) (spent : List SpentRow)
    → Claimable t spent x
    → Claimable t (hold t now o spent) x
unfolding hold
hold-Claimable t now o x spent (inr h) = inr (hold_kept t t now o x spent h)
hold-Claimable t now o x spent (inl h) =
    elim (Bool-cases (any (λ s. outpoint_eq s.outpoint o) spent)) [
      | inl there ↦ rw there (inl h)
      | inr fresh ↦ rw fresh (elim (Bool-cases (outpoint_eq o x)) [
        | inl same ↦ inr (holder-append_none x spent _ h ∙ (holder_one o x _ refl ∙ rw same))
        | inr other ↦ inl (holder-append_none x spent _ h ∙ (holder_one o x _ refl ∙ rw other))
      ])
    ]

All-Claimable :
    (t : String) (now : ℕ) (o : Outpoint) (os : List Outpoint) (spent : List SpentRow)
    → All (Claimable t spent) os
    → All (Claimable t (hold t now o spent)) os
All-Claimable t now o [] spent h = tt
All-Claimable t now o (x ∷ os) spent h =
    (hold-Claimable t now o x spent h.0, All-Claimable t now o os spent h.1)

hold_all_kept :
    (t t' : String) (now : ℕ) (os : List Outpoint) (x : Outpoint) (spent : List SpentRow)
    → holder x spent ≡ some t'
    → holder x (hold_all t now os spent) ≡ some t'
unfolding hold_all
hold_all_kept t t' now [] x spent h = h
hold_all_kept t t' now (o ∷ os) x spent h =
    hold_all_kept t t' now os x (hold t now o spent) (hold_kept t t' now o x spent h)

hold_all_self :
    (t : String) (now : ℕ) (os : List Outpoint) (spent : List SpentRow)
    → All (Claimable t spent) os
    → All (λ o. holder o (hold_all t now os spent) ≡ some t) os
unfolding hold_all
hold_all_self t now [] spent h = tt
hold_all_self t now (o ∷ os) spent h = (
  hold_all_kept t t now os o (hold t now o spent) (hold_self t now o spent h.0),
  hold_all_self t now os (hold t now o spent) (All-Claimable t now o os spent h.1),
)

-- Outpoints that no other transaction holds are all held by the new one, whatever repeats there are,
-- and an outpoint that was held keeps its holder.
pub hold_all-holder :
    (t : String) (now : ℕ) (os : List Outpoint) (spent : List SpentRow)
    → All (Claimable t spent) os
    → All (λ o. holder o (hold_all t now os spent) ≡ some t) os
      × ((x : Outpoint) (t' : String)
          → holder x spent ≡ some t'
          → holder x (hold_all t now os spent) ≡ some t')
hold_all-holder t now os spent h =
    (hold_all_self t now os spent h, λ x t' k. hold_all_kept t t' now os x spent k)

-- A release gives back no outpoint of another transaction.
pub release_kept :
    (t t' : String) (x : Outpoint) (spent : List SpentRow)
    → t' ≢ t
    → holder x spent ≡ some t'
    → holder x (release t spent) ≡ some t'
unfolding release holder
release_kept t t' x [] ne h = cc
release_kept t t' x (s ∷ spent) ne h =
    ground (arith, eq_iff s.spent_by t, release_kept t t' x spent ne)
