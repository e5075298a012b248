-- ===== src/Worker/Examples.antt =====
-- Runs of bridge/src/worker/broadcaster.ts and bridge/src/worker/confirmer.ts on small tables.
use cumulusvpn.Common.{ℕ, List, ◌≤◌, ◌≡◌, refl, true, none, some, [], ◌∷◌, All, arith}
use cumulusvpn.Codes.{Decoder, memo_for_code, is_valid_payment_code}
use cumulusvpn.Price.{base, max_effective, effective, raise_all, raise, at, grace, index}
use cumulusvpn.Price.Payout.{zats_for_days, gateway_days}
use cumulusvpn.Payments.{
  PaymentRow, PaymentsDb, stripe, pending, broadcast, confirmed, spent_outpoints, next_pending,
}
use cumulusvpn.Payments.Rows.{row_of}
use cumulusvpn.Payments.Reads.{IsCurrent}
use cumulusvpn.Payments.Ledger.{holder}
use cumulusvpn.Treasury.{
  Utxo, Output, PaymentTx, pay, null_data, select_utxos, pick, usable, build_payment_tx, Builder,
  is_free,
}
use cumulusvpn.Worker.{
  BroadcasterDeps, reads, attempt, built, assemble, amount_for, settle, found, visit,
}
use cumulusvpn.Worker.System.{
  System, here, next, take_pending, commit, Inv, Step-Inv, Reach-confirmed,
}
use cumulusvpn.Worker.Settling.{
  IsSafeSpend, attempt-IsSafeSpend, attempt_grants_days, settle-holder,
}
use cumulusvpn.Worker.Confirming.{Outcome, visit-Outcome}

abbrev builder : Builder
builder = record { hex = λ tx. "00ff"; txid = λ tx. "t1" }

abbrev twenty_bytes : Decoder
twenty_bytes s =
    some (
      1 ∷ 2 ∷ 3 ∷ 4 ∷ 5 ∷ 6 ∷ 7 ∷ 8 ∷ 9 ∷ 10 ∷ 11 ∷ 12 ∷ 13 ∷ 14 ∷ 15 ∷ 16 ∷ 17 ∷ 18 ∷ 19 ∷ 20 ∷ [])

abbrev deps : BroadcasterDeps
deps = record {
  builder = builder;
  decode = twenty_bytes;
  treasury = "t1treasury";
  payment_address = "t1payments";
  schedule = base 100;
  fee_zats = 10;
}

abbrev bought : PaymentRow
bought = record {
  id = 1;
  rail = stripe;
  event_key = "in_1";
  external_ref = "sub_1";
  payment_code = "abcdefghijklmnopqrstuvwxyz";
  days = 30;
  flux_zats = 100;
  status = pending;
  txid = none;
  raw_hex = none;
  expiry_height = none;
  attempts = 0;
  next_retry_at = 5;
  last_error = none;
  created_at = 5;
  broadcast_at = none;
  confirmed_at = none;
}

abbrev coin : Utxo
coin = record { outpoint = record { txid = "u1"; vout = 0 }; satoshis = 5000; confirmations = 3 }

abbrev held_coin : Utxo
held_coin = record {
  outpoint = record { txid = "u0"; vout = 1 };
  satoshis = 9000;
  confirmations = 3;
}

abbrev queued : PaymentsDb
queued = record {
  payments = bought ∷ [];
  spent = record { outpoint = held_coin.outpoint; spent_by = "t0"; created_at = 1 } ∷ [];
}

abbrev payment : PaymentTx
payment = record {
  expiry_height = 140;
  inputs = coin ∷ [];
  outputs =
      pay "t1payments" 100
      ∷ null_data "CVPN1:abcdefghijklmnopqrstuvwxyz"
      ∷ pay "t1treasury" 4890
      ∷ [];
}

attempt_run : attempt deps bought (reads 100 (held_coin ∷ coin ∷ [])) queued ≡ built payment 100
unfolding attempt assemble amount_for select_utxos pick usable spent_outpoints memo_for_code
    is_valid_payment_code build_payment_tx zats_for_days max_effective raise_all raise effective at
    grace index
attempt_run = refl

attempt-IsSafeSpend_example : IsSafeSpend deps queued 100 bought payment 100
attempt-IsSafeSpend_example =
    attempt-IsSafeSpend deps bought 100 (held_coin ∷ coin ∷ []) queued payment 100 attempt_run

price_run : effective 110 deps.schedule ≡ 100
unfolding effective at grace index
price_run = refl

attempt_grants_days_example :
    (paid : ℕ) × (others : List Output) × (payment.outputs ≡ pay "t1payments" paid ∷ others)
    × (30 ≤ gateway_days (effective 110 deps.schedule) paid)
attempt_grants_days_example =
    attempt_grants_days deps bought 100 110 (held_coin ∷ coin ∷ []) queued payment 100 tt
      (omega (arith, price_run)) (omega arith) (omega arith) attempt_run

abbrev after_commit : PaymentsDb
after_commit =
    (settle deps bought (attempt deps bought (reads 100 (held_coin ∷ coin ∷ [])) queued) 200
      queued).0

settle-holder_example :
    All (λ u. is_free (spent_outpoints queued) u ≡ true) payment.inputs
    × All (λ o. holder o after_commit.spent ≡ some "t1") (coin.outpoint ∷ [])
settle-holder_example =
    settle-holder deps bought 100 200 (held_coin ∷ coin ∷ []) queued payment 100 attempt_run

held_before : holder held_coin.outpoint queued.spent ≡ some "t0"
unfolding holder
held_before = refl

-- A confirmed row beside the pending one.
abbrev done : PaymentRow
done = record bought {
  id = 2;
  event_key = "in_0";
  status = confirmed;
  txid = some "t9";
  confirmed_at = some 4;
}

abbrev start : System
start = record { db = record queued { payments = bought ∷ done ∷ [] }; in_hand = none; walk = [] }

abbrev holding : System
holding = record start { in_hand = next_pending 10 start.db }

abbrev committed : System
committed = record holding {
  db = (settle deps bought (attempt deps bought (reads 100 (coin ∷ [])) start.db) 11 start.db).0;
  in_hand = none;
}

start-Inv : Inv start
start-Inv = record {
  distinct = (((λ e. omega (arith, e)), tt), (tt, tt));
  hand = tt;
  walking = tt;
  walk_distinct = tt;
}

next_run : next_pending 10 start.db ≡ some bought
unfolding next_pending
next_run = refl

Step-Inv_example : Inv holding
Step-Inv_example = Step-Inv deps (take_pending start 10) start-Inv

done-IsCurrent : IsCurrent confirmed start.db done
unfolding row_of
done-IsCurrent = (refl, refl)

Reach-confirmed_example : IsCurrent confirmed committed.db done
Reach-confirmed_example =
    Reach-confirmed deps done start-Inv
      (next (next here (take_pending start 10))
        (commit holding bought (reads 100 (coin ∷ [])) 11 next_run))
      done-IsCurrent

abbrev on_chain : PaymentRow
on_chain = record bought {
  status = broadcast;
  txid = some "t1";
  raw_hex = some "00ff";
  expiry_height = some 140;
}

on_chain_row : row_of 1 (on_chain ∷ []) ≡ some on_chain
unfolding row_of
on_chain_row = refl

visit-Outcome_example :
    Outcome 150 300 on_chain
      (found 2)
      (visit 150
        (λ t. found 2)
        300
        on_chain
        (some "t1")
        (record queued { payments = on_chain ∷ [] })).0
visit-Outcome_example =
    visit-Outcome 150 300 (λ t. found 2) on_chain "t1" (record queued { payments = on_chain ∷ [] })
      on_chain_row
