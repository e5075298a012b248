-- ===== src/Treasury/Examples.antt =====
-- Selections and a transaction over three outputs of the treasury.
use cumulusvpn.Common.{ℕ, ◌≤◌, ◌<◌, ◌≡◌, refl, true, some, List, [], ◌∷◌, All, keep, arith}
use cumulusvpn.Payments.{Outpoint}
use cumulusvpn.Treasury.{
  Utxo, picked, insufficient, is_free, select_utxos, pick, usable, BuildParams, PaymentTx, pay,
  null_data, build_payment_tx,
}
use cumulusvpn.Treasury.Picking.{IsCover, value_of, select_utxos-IsCover, select_utxos_insufficient}
use cumulusvpn.Treasury.Conservation.{IsBalanced, build_payment_tx-IsBalanced}

abbrev coin : ℕ → ℕ → Utxo
coin n value = record {
  outpoint = record { txid = "u"; vout = n };
  satoshis = value;
  confirmations = 2;
}

abbrev available : List Utxo
available = coin 0 400 ∷ coin 1 900 ∷ coin 2 700 ∷ []

abbrev held : List Outpoint
held = record { txid = "u"; vout = 1 } ∷ []

pick_run : select_utxos available held 1000 ≡ picked (coin 2 700 ∷ coin 0 400 ∷ []) 1100
unfolding select_utxos pick usable
pick_run = refl

select_utxos-IsCover_example :
    IsCover (λ u. 400 ≤ u.satoshis) 1000 (coin 2 700 ∷ coin 0 400 ∷ []) 1100
    × All (λ u. is_free held u ≡ true) (coin 2 700 ∷ coin 0 400 ∷ [])
select_utxos-IsCover_example =
    select_utxos-IsCover (λ u. 400 ≤ u.satoshis) available held 1000 (coin 2 700 ∷ coin 0 400 ∷ [])
      1100 (omega arith, (omega arith, (omega arith, tt))) pick_run

poor_run : select_utxos available held 5000 ≡ insufficient 5000 1100
unfolding select_utxos pick usable
poor_run = refl

abbrev needed : ℕ
needed = 5000

select_utxos_insufficient_example :
    (needed ≡ needed) × (1100 ≡ value_of (keep (is_free held) available)) × (1100 < needed)
select_utxos_insufficient_example =
    select_utxos_insufficient available held needed needed 1100 (omega arith) poor_run

abbrev params : BuildParams
params = record {
  treasury = "t1a";
  inputs = coin 1 9000 ∷ [];
  input_total_zats = 9000;
  payment_address = "t1b";
  amount_zats = 5000;
  memo = "CVPN1:x";
  fee_zats = 10;
  tip_height = 7;
}

abbrev made : PaymentTx
made = record {
  expiry_height = 47;
  inputs = coin 1 9000 ∷ [];
  outputs = pay "t1b" 5000 ∷ null_data "CVPN1:x" ∷ pay "t1a" 3990 ∷ [];
}

build_run : build_payment_tx params ≡ some made
unfolding build_payment_tx
build_run = refl

build_payment_tx-IsBalanced_example : IsBalanced params made
build_payment_tx-IsBalanced_example = build_payment_tx-IsBalanced params made build_run
