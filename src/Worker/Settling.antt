-- ===== src/Worker/Settling.antt =====
-- One commit of the broadcaster (bridge/src/worker/broadcaster.ts) and one visit of the confirmer
-- (bridge/src/worker/confirmer.ts).
use cumulusvpn.Common.{
  ℕ, ◌+◌, ◌≤◌, ◌<◌, ◌≡◌, refl, sym, ap, ◌∙◌, inl, inr, String, true, Option, none, some, List, [],
  ◌∷◌, map, All, Option-cases, arith,
}
use cumulusvpn.Codes.{memo_for_code}
use cumulusvpn.Price.{IsIncreasing, effective}
use cumulusvpn.Price.Payout.{gateway_days, days-le-gateway_days_mined}
use cumulusvpn.Payments.{PaymentRow, PaymentsDb, Outpoint, spent_outpoints, mark_broadcast}
use cumulusvpn.Payments.Ledger.{holder, Claimable, holder_free, hold_all-holder}
use cumulusvpn.Treasury.{
  Utxo, picked, insufficient, is_free, select_utxos, PaymentTx, BuildParams, build_payment_tx,
  expiry_delta, Builder, Output, pay, null_data,
}
use cumulusvpn.Treasury.Picking.{value_of, select_utxos-IsCover}
use cumulusvpn.Treasury.Conservation.{
  paid_out, AreTo, build_payment_tx-IsBalanced, build_payment_tx_outputs,
}
use cumulusvpn.Worker.{
  BroadcasterDeps, reads, built, attempt, assemble, amount_for, params_for, finish, settle,
}

-- What a built attempt satisfies: no input is held by a transaction of ours, the inputs pay the
-- outputs and the fee, the amount is sized for the transaction's lifetime, and the outputs are that
-- amount to the payment address, the memo of the row's code, and change back to the treasury.
pub record IsSafeSpend (d : BroadcasterDeps) (db : PaymentsDb) (tip : ℕ) (row : PaymentRow)
    (tx : PaymentTx) (amount : ℕ) : Type 0 where
  pub free : All (λ u. is_free (spent_outpoints db) u ≡ true) tx.inputs
  pub solvent : paid_out tx + d.fee_zats ≤ value_of tx.inputs
  pub lifetime : tx.expiry_height ≡ tip + expiry_delta
  pub sized : amount ≡ amount_for d tip row
  pub memo : String
  pub memo_is : memo_for_code d.decode row.payment_code ≡ some memo
  pub change : List Output
  pub pays : tx.outputs ≡ pay d.payment_address amount ∷ (null_data memo ∷ change)
  pub returned : AreTo d.treasury change

finish_cases :
    (d : BroadcasterDeps) (tip : ℕ) (row : PaymentRow) (made : Option PaymentTx) (tx : PaymentTx)
    (amount : ℕ)
    → finish d tip row made ≡ built tx amount
    → (made ≡ some tx) × (amount ≡ amount_for d tip row)
finish_cases d tip row none tx amount e = cc
finish_cases d tip row (some tx') tx amount e = (cc, cc)

assemble-IsSafeSpend :
    (d : BroadcasterDeps) (db : PaymentsDb) (tip : ℕ) (row : PaymentRow) (inputs : List Utxo)
    (total : ℕ) (tx : PaymentTx) (amount : ℕ)
    → total ≡ value_of inputs
    → All (λ u. is_free (spent_outpoints db) u ≡ true) inputs
    → assemble d tip row inputs total ≡ built tx amount
    → IsSafeSpend d db tip row tx amount
unfolding assemble
assemble-IsSafeSpend d db tip row inputs total tx amount c h e =
    elim (Option-cases (memo_for_code d.decode row.payment_code)) [
      | inl bad ↦ cc (rw (bad, assemble) at e)
      | inr (memo, good) ↦
          let made =
            finish_cases d tip row (build_payment_tx (params_for d tip row memo inputs total)) tx
              amount (rw (good, assemble) at e) in
          let b = build_payment_tx-IsBalanced _ tx made.0 in
          let (change, outputs, returned) = build_payment_tx_outputs _ tx made.0 in
          record {
            free = rw b.same_inputs h;
            solvent = rw (b.same_inputs, ← c) b.fee_paid;
            lifetime = b.expires;
            sized = made.1;
            memo = memo;
            memo_is = good;
            change = change;
            pays =
                outputs
                ∙ ap (λ z. pay d.payment_address z ∷ (null_data memo ∷ change)) (sym made.1);
            returned = returned;
          }
    ]

-- Whenever the broadcaster builds a transaction for a row, it spends no outpoint that one of our
-- own unconfirmed transactions holds, its inputs pay its outputs and the fee, it expires 40 blocks
-- after the tip, and its outputs are one payment to the payment address, of the row's days at the
-- highest price of that lifetime, the memo of the row's code, and change to the treasury alone.
pub attempt-IsSafeSpend :
    (d : BroadcasterDeps) (row : PaymentRow) (tip : ℕ) (utxos : List Utxo) (db : PaymentsDb)
    (tx : PaymentTx) (amount : ℕ)
    → attempt d row (reads tip utxos) db ≡ built tx amount
    → IsSafeSpend d db tip row tx amount
unfolding attempt
attempt-IsSafeSpend d row tip utxos db tx amount e =
    go (select_utxos utxos (spent_outpoints db) (amount_for d tip row + d.fee_zats)) refl
      (everything utxos)
  where
    everything : (us : List Utxo) → All (λ _. Unit {0}) us
    everything [] = tt
    everything (u ∷ us) = (tt, everything us)

    go :
        (sel : cumulusvpn.Treasury.Selection)
        → select_utxos utxos (spent_outpoints db) (amount_for d tip row + d.fee_zats) ≡ sel
        → All (λ _. Unit {0}) utxos
        → IsSafeSpend d db tip row tx amount
    go (insufficient n a) q h = cc (rw (q, attempt) at e)
    go (picked inputs total) q h =
        let (cover, free) = select_utxos-IsCover (λ _. Unit {0}) utxos _ _ inputs total h q in
        assemble-IsSafeSpend d db tip row inputs total tx amount cover.counted free
          (rw (q, attempt) at e)

-- A row that is built at some tip is paid in full: mined at any height from the tip to the
-- transaction's expiry, the first output of the transaction, a payment to the payment address, grants
-- at least the row's days by the gateways' rule, if the schedule's entries increase and the effective
-- price there is not 0.
pub attempt_grants_days :
    (d : BroadcasterDeps) (row : PaymentRow) (tip mined : ℕ) (utxos : List Utxo) (db : PaymentsDb)
    (tx : PaymentTx) (amount : ℕ)
    → IsIncreasing d.schedule
    → 0 < effective mined d.schedule
    → tip ≤ mined
    → mined ≤ tx.expiry_height
    → attempt d row (reads tip utxos) db ≡ built tx amount
    → (paid : ℕ) × (others : List Output) × (tx.outputs ≡ pay d.payment_address paid ∷ others)
      × (row.days ≤ gateway_days (effective mined d.schedule) paid)
unfolding amount_for
attempt_grants_days d row tip mined utxos db tx amount i p lo hi e =
    let safe = attempt-IsSafeSpend d row tip utxos db tx amount e in
    (
      amount,
      null_data safe.memo ∷ safe.change,
      safe.pays,
      rw safe.sized (
          days-le-gateway_days_mined d.schedule tip (tip + expiry_delta) mined row.days i p lo
            (rw safe.lifetime at hi)),
    )

free_inputs :
    (t : String) (db : PaymentsDb) (us : List Utxo)
    → All (λ u. is_free (spent_outpoints db) u ≡ true) us
    → All (Claimable t db.spent) (map (λ u. u.outpoint) us)
unfolding spent_outpoints
free_inputs t db [] h = tt
free_inputs t db (u ∷ us) h =
    (inl (holder_free u.outpoint db.spent (ground (arith, h.0))), free_inputs t db us h.1)

-- After the commit of a built transaction every input of it is held by it, and none of them was held
-- by a transaction of ours before.
pub settle-holder :
    (d : BroadcasterDeps) (row : PaymentRow) (tip now : ℕ) (utxos : List Utxo) (db : PaymentsDb)
    (tx : PaymentTx) (amount : ℕ)
    → attempt d row (reads tip utxos) db ≡ built tx amount
    → let spent' = (settle d row (attempt d row (reads tip utxos) db) now db).0.spent in
      All (λ u. is_free (spent_outpoints db) u ≡ true) tx.inputs
      × All (λ o. holder o spent' ≡ some (d.builder.txid tx)) (map (λ u. u.outpoint) tx.inputs)
unfolding settle mark_broadcast
settle-holder d row tip now utxos db tx amount e =
    let safe = attempt-IsSafeSpend d row tip utxos db tx amount e in
    let (mine, _) =
      hold_all-holder (d.builder.txid tx) now (map (λ u. u.outpoint) tx.inputs) db.spent
        (free_inputs (d.builder.txid tx) db tx.inputs safe.free) in
    rw e (safe.free, mine)

-- The commit of a built transaction takes no outpoint away from another transaction of ours.
pub settle_kept :
    (d : BroadcasterDeps) (row : PaymentRow) (tip now : ℕ) (utxos : List Utxo) (db : PaymentsDb)
    (tx : PaymentTx) (amount : ℕ) (x : Outpoint) (t : String)
    → attempt d row (reads tip utxos) db ≡ built tx amount
    → holder x db.spent ≡ some t
    → holder x (settle d row (attempt d row (reads tip utxos) db) now db).0.spent ≡ some t
unfolding settle mark_broadcast
settle_kept d row tip now utxos db tx amount x t e h =
    let safe = attempt-IsSafeSpend d row tip utxos db tx amount e in
    let (_, theirs) =
      hold_all-holder (d.builder.txid tx) now (map (λ u. u.outpoint) tx.inputs) db.spent
        (free_inputs (d.builder.txid tx) db tx.inputs safe.free) in
    rw e (theirs x t h)
