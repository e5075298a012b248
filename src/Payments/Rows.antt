-- ===== src/Payments/Rows.antt =====
-- Looking rows up by id in the table `payments` of bridge/src/db/payments.ts, across its statements.
use cumulusvpn.Common.{
  ℕ, zero, suc, ◌+◌, ◌≤◌, ◌<◌, ◌≡◌, ◌≢◌, refl, sym, ◌∙◌, max, ◌⊎◌, inl, inr, Bool, true, false,
  Option, none, some, List, [], ◌∷◌, ◌++◌, ◌==◌, if◌then◌else◌, find, keep, sort_by, insert_by, All,
  arith,
}
use cumulusvpn.Common.ListLaws.{All-keep, All-insert_by, All-sort_by}
use cumulusvpn.Payments.{PaymentRow, max_id, update}

unfoldable pub row_of : ℕ → List PaymentRow → Option PaymentRow
row_of id rows = find (λ r. r.id == id) rows

-- No two rows share an id.
abbrev pub Distinct : List PaymentRow → Type 0
Distinct [] = Unit
Distinct (r ∷ rs) = All (λ x. x.id ≢ r.id) rs × Distinct rs

pub Distinct-keep :
    (p : PaymentRow → Bool) (rows : List PaymentRow) → Distinct rows → Distinct (keep p rows)
Distinct-keep p [] h = tt
Distinct-keep p (r ∷ rows) h =
    ground (arith, All-keep (λ x. x.id ≢ r.id) p rows h.0, Distinct-keep p rows h.1)

All-ne_sym : (r y : PaymentRow) (ys : List PaymentRow) → y.id ≢ r.id → r.id ≢ y.id
All-ne_sym r y ys h e = h (sym e)

Distinct-insert_by :
    (before : PaymentRow → PaymentRow → Bool) (r : PaymentRow) (rows : List PaymentRow)
    → All (λ x. x.id ≢ r.id) rows
    → Distinct rows
    → Distinct (insert_by before r rows)
Distinct-insert_by before r [] h d = (tt, tt)
Distinct-insert_by before r (y ∷ ys) h d = ground (
  arith,
  All-insert_by (λ x. x.id ≢ y.id) before r ys (λ e. h.0 (sym e)) d.0,
  Distinct-insert_by before r ys h.1 d.1,
)

pub Distinct-sort_by :
    (before : PaymentRow → PaymentRow → Bool) (rows : List PaymentRow)
    → Distinct rows
    → Distinct (sort_by before rows)
Distinct-sort_by before [] h = tt
Distinct-sort_by before (r ∷ rows) h =
    Distinct-insert_by before r (sort_by before rows)
      (All-sort_by (λ x. x.id ≢ r.id) before rows h.0) (Distinct-sort_by before rows h.1)

row_of_skip :
    (r x : PaymentRow) (rows : List PaymentRow)
    → x.id ≢ r.id
    → row_of x.id (r ∷ rows) ≡ row_of x.id rows
unfolding row_of
row_of_skip r x rows h = ground arith

All-skip :
    (r : PaymentRow) (rows xs : List PaymentRow)
    → All (λ x. x.id ≢ r.id) xs
    → All (λ x. row_of x.id rows ≡ some x) xs
    → All (λ x. row_of x.id (r ∷ rows) ≡ some x) xs
All-skip r rows [] h k = tt
All-skip r rows (x ∷ xs) h k = (row_of_skip r x rows h.0 ∙ k.0, All-skip r rows xs h.1 k.1)

row_of_head : (r : PaymentRow) (rows : List PaymentRow) → row_of r.id (r ∷ rows) ≡ some r
unfolding row_of
row_of_head r rows = ground arith

-- With distinct ids, every row is the one found by its id.
pub Distinct-row_of :
    (rows : List PaymentRow) → Distinct rows → All (λ x. row_of x.id rows ≡ some x) rows
Distinct-row_of [] h = tt
Distinct-row_of (r ∷ rows) h =
    (row_of_head r rows, All-skip r rows rows h.0 (Distinct-row_of rows h.1))

-- A statement that keeps the ids.
abbrev pub KeepsId : (PaymentRow → PaymentRow) → Type 0
KeepsId f = (r : PaymentRow) → (f r).id ≡ r.id

All-update :
    (P : ℕ → Type 0) (id : ℕ) (f : PaymentRow → PaymentRow) (rows : List PaymentRow)
    → KeepsId f
    → All (λ x. P x.id) rows
    → All (λ x. P x.id) (update id f rows)
unfolding update
All-update P id f [] k h = tt
All-update P id f (r ∷ rows) k h = (head, All-update P id f rows k h.1)
  where
    head : P (if r.id == id then f r else r).id
    head = elim (cumulusvpn.Common.Bool-cases (r.id == id)) [
      | inl e ↦ rw (e, k r) h.0
      | inr e ↦ rw e h.0
    ]

pub Distinct-update :
    (id : ℕ) (f : PaymentRow → PaymentRow) (rows : List PaymentRow)
    → KeepsId f
    → Distinct rows
    → Distinct (update id f rows)
unfolding update
Distinct-update id f [] k h = tt
Distinct-update id f (r ∷ rows) k h = (head, Distinct-update id f rows k h.1)
  where
    head : All (λ x. x.id ≢ (if r.id == id then f r else r).id) (update id f rows)
    head = elim (cumulusvpn.Common.Bool-cases (r.id == id)) [
      | inl e ↦ rw (e, k r) (All-update (λ n. n ≢ r.id) id f rows k h.0)
      | inr e ↦ rw e (All-update (λ n. n ≢ r.id) id f rows k h.0)
    ]

pub row_of-update_ne :
    (j id : ℕ) (f : PaymentRow → PaymentRow) (rows : List PaymentRow)
    → KeepsId f
    → j ≢ id
    → row_of j (update id f rows) ≡ row_of j rows
unfolding row_of update
row_of-update_ne j id f [] k ne = refl
row_of-update_ne j id f (r ∷ rows) k ne = ground (arith, k r, row_of-update_ne j id f rows k ne)

pub row_of-update_self :
    (id : ℕ) (f : PaymentRow → PaymentRow) (r : PaymentRow) (rows : List PaymentRow)
    → KeepsId f
    → row_of id rows ≡ some r
    → row_of id (update id f rows) ≡ some (f r)
unfolding row_of update
row_of-update_self id f r [] k h = cc
row_of-update_self id f r (x ∷ rows) k h = ground (arith, k x, row_of-update_self id f r rows k)

pub row_of-append :
    (id : ℕ) (r : PaymentRow) (rows more : List PaymentRow)
    → row_of id rows ≡ some r
    → row_of id (rows ++ more) ≡ some r
unfolding row_of
row_of-append id r [] more h = cc
row_of-append id r (x ∷ rows) more h = ground (arith, row_of-append id r rows more)

All-le-max_id : (n : ℕ) (rows : List PaymentRow) → max_id rows ≤ n → All (λ x. x.id ≤ n) rows
unfolding max_id
All-le-max_id n [] h = tt
All-le-max_id n (r ∷ rows) h = (omega arith, All-le-max_id n rows (omega arith))

-- A row with an id above all others keeps the ids distinct.
Distinct-append :
    (r : PaymentRow) (rows : List PaymentRow)
    → All (λ x. x.id < r.id) rows
    → Distinct rows
    → Distinct (rows ++ r ∷ [])
Distinct-append r [] h d = (tt, tt)
Distinct-append r (x ∷ rows) h d = (
  cumulusvpn.Common.ListLaws.All-append (λ y. y.id ≢ x.id) rows (r ∷ []) d.0 (omega arith, tt),
  Distinct-append r rows h.1 d.1,
)

pub Distinct-append_fresh :
    (r : PaymentRow) (rows : List PaymentRow)
    → r.id ≡ suc (max_id rows)
    → Distinct rows
    → Distinct (rows ++ r ∷ [])
Distinct-append_fresh r rows e d = Distinct-append r rows below d
  where
    weaken :
        (n m : ℕ) (xs : List PaymentRow) → n < m → All (λ x. x.id ≤ n) xs → All (λ x. x.id < m) xs
    weaken n m [] lt h = tt
    weaken n m (x ∷ xs) lt h = (omega arith, weaken n m xs lt h.1)

    below : All (λ x. x.id < r.id) rows
    below =
        weaken (max_id rows) r.id rows (omega arith)
          (All-le-max_id (max_id rows) rows (omega arith))
