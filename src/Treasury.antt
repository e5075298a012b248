-- ===== src/Treasury.antt =====
-- bridge/src/flux/utxo.ts (`selectUtxos`) and bridge/src/flux/tx.ts (`buildPaymentTx`). The encoding,
-- hashing and signing of a transaction are the package @runonflux/utxo-lib: the record `Builder`.
pub mod Picking
pub mod Conservation
mod Examples
use cumulusvpn.Common.{
  ℕ, zero, suc, ◌+◌, ◌-◌, ◌≡◌, String, Bool, true, false, Option, none, some, List, [], ◌∷◌, ◌++◌,
  map, ltb, leb, not, if◌then◌else◌, keep, any, sort_by,
}
use cumulusvpn.Payments.{Outpoint, outpoint_eq}

pub record Utxo : Type 0 where
  pub outpoint : Outpoint
  pub satoshis : ℕ
  pub confirmations : ℕ

-- A selection, or `InsufficientFundsError` with what was needed and what there is.
pub data Selection : Type 0 where
  picked : List Utxo → ℕ → Selection
  insufficient : ℕ → ℕ → Selection

abbrev pub is_free : List Outpoint → Utxo → Bool
is_free excluded u = not (any (outpoint_eq u.outpoint) excluded)

-- `(a, b) => b.satoshis - a.satoshis`
abbrev pub larger : Utxo → Utxo → Bool
larger a b = ltb b.satoshis a.satoshis

unfoldable pub usable : List Utxo → List Outpoint → List Utxo
usable available excluded = sort_by larger (keep (is_free excluded) available)

unfoldable pub pick : ℕ → List Utxo → ℕ → List Utxo → Selection
pick needed inputs total [] = insufficient needed total
pick needed inputs total (u ∷ us) =
    let more = pick needed (inputs ++ u ∷ []) (total + u.satoshis) us in
    if leb needed (total + u.satoshis) then picked (inputs ++ u ∷ []) (total + u.satoshis) else more

unfoldable pub select_utxos : List Utxo → List Outpoint → ℕ → Selection
unfolding pick usable
select_utxos available excluded needed = pick needed [] 0 (usable available excluded)

pub data Output : Type 0 where
  pay : String → ℕ → Output
  null_data : String → Output

pub record PaymentTx : Type 0 where
  pub expiry_height : ℕ
  pub inputs : List Utxo
  pub outputs : List Output

pub record BuildParams : Type 0 where
  pub treasury : String
  pub inputs : List Utxo
  pub input_total_zats : ℕ
  pub payment_address : String
  pub amount_zats : ℕ
  pub memo : String
  pub fee_zats : ℕ
  pub tip_height : ℕ

abbrev pub expiry_delta : ℕ
expiry_delta = 40

abbrev pub dust_zats : ℕ
dust_zats = 1000

abbrev pub change_outputs : String → ℕ → List Output
change_outputs address change = if leb dust_zats change then pay address change ∷ [] else []

-- `none`: the inputs do not cover amount and fee, and the call throws
unfoldable pub build_payment_tx : BuildParams → Option PaymentTx
build_payment_tx p =
    if ltb p.input_total_zats (p.amount_zats + p.fee_zats)
    then none
    else some (record {
      expiry_height = p.tip_height + expiry_delta;
      inputs = p.inputs;
      outputs =
          pay p.payment_address p.amount_zats
          ∷ (null_data p.memo
              ∷ change_outputs p.treasury (p.input_total_zats - p.amount_zats - p.fee_zats));
    })

-- `tx.toHex()` and `tx.getId()` of the signed transaction
pub record Builder : Type 0 where
  pub hex : PaymentTx → String
  pub txid : PaymentTx → String
