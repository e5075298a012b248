-- ===== src/Worker.antt =====
-- bridge/src/worker/broadcaster.ts and bridge/src/worker/confirmer.ts. What the chain answers is an
-- argument of a tick; the clock readings of one tick are one argument.
pub mod System
pub mod Settling
pub mod Confirming
mod Examples
use cumulusvpn.Common.{
  ℕ, ◌+◌, String, Bool, true, false, ◌&&◌, Option, none, some, List, [], ◌∷◌, ◌++◌, map, ltb, leb,
  if◌then◌else◌,
}
use cumulusvpn.Common.Decimal.{codes, decimal}
use cumulusvpn.Codes.{Decoder, memo_for_code}
use cumulusvpn.Price.{Schedule, max_effective}
use cumulusvpn.Price.Payout.{zats_for_days}
use cumulusvpn.Payments.{
  PaymentRow, PaymentsDb, Outpoint, next_pending, spent_outpoints, mark_broadcast, mark_confirmed,
  reset_expired, record_failure,
}
use cumulusvpn.Treasury.{
  Utxo, Selection, picked, insufficient, select_utxos, PaymentTx, BuildParams, build_payment_tx,
  expiry_delta, Builder,
}
use text.Mathlib.Text.{◌==◌ as str_eq}

pub record BroadcasterDeps : Type 0 where
  pub builder : Builder
  pub decode : Decoder
  pub treasury : String
  pub payment_address : String
  pub schedule : Schedule
  pub fee_zats : ℕ

-- `Promise.all([tipHeight(), utxos(address)])`: the answers, or the message of the error
pub data ChainReads : Type 0 where
  reads : ℕ → List Utxo → ChainReads
  unread : List ℕ → ChainReads

-- Why an attempt ended before the broadcast.
pub data Refusal : Type 0 where
  chain_error : List ℕ → Refusal
  insufficient_funds : ℕ → ℕ → Refusal
  invalid_code not_covered : Refusal

-- `treasury has ${availableZats} zats, need ${neededZats}`, and the other messages
unfoldable pub message : Refusal → List ℕ
message (chain_error text) = text
message (insufficient_funds needed available) =
    codes "treasury has " ++ (decimal available ++ (codes " zats, need " ++ decimal needed))
message invalid_code = codes "memoForCode: invalid payment code"
message not_covered = codes "buildPaymentTx: inputs do not cover amount + fee"

pub data Attempt : Type 0 where
  built : PaymentTx → ℕ → Attempt
  refused : Refusal → Attempt

module _ (d : BroadcasterDeps) where
  -- The amount in the price window of the transaction: tip .. tip + EXPIRY_DELTA.
  unfoldable pub amount_for : ℕ → PaymentRow → ℕ
  amount_for tip row = zats_for_days (max_effective tip (tip + expiry_delta) d.schedule) row.days

  abbrev params_for : ℕ → PaymentRow → String → List Utxo → ℕ → BuildParams
  params_for tip row memo inputs total = record {
    treasury = d.treasury;
    inputs = inputs;
    input_total_zats = total;
    payment_address = d.payment_address;
    amount_zats = amount_for tip row;
    memo = memo;
    fee_zats = d.fee_zats;
    tip_height = tip;
  }

  abbrev finish : ℕ → PaymentRow → Option PaymentTx → Attempt
  finish tip row none = refused not_covered
  finish tip row (some tx) = built tx (amount_for tip row)

  assemble : ℕ → PaymentRow → List Utxo → ℕ → Attempt
  assemble tip row inputs total = elim (memo_for_code d.decode row.payment_code) [
    | none ↦ refused invalid_code
    | some memo ↦ finish tip row (build_payment_tx (params_for tip row memo inputs total))
  ]

  -- Chain reads, selection and build: nothing is written.
  unfoldable pub attempt : PaymentRow → ChainReads → PaymentsDb → Attempt
  unfolding assemble
  attempt row (unread text) db = refused (chain_error text)
  attempt row (reads tip utxos) db =
      elim (select_utxos utxos (spent_outpoints db) (amount_for tip row + d.fee_zats)) [
        | insufficient needed available ↦ refused (insufficient_funds needed available)
        | picked inputs total ↦ assemble tip row inputs total
      ]

  -- The bytes handed to the network, and whether the operator is paged.
  pub record Effects : Type 0 where
    pub sent : Option String
    pub alert : Bool

  abbrev is_insufficient : Refusal → Bool
  is_insufficient (insufficient_funds _ _) = true
  is_insufficient _ = false

  -- Write-ahead: the row and the held outpoints are committed, then the bytes leave. The answer of
  -- the broadcast itself changes nothing.
  unfoldable pub settle : PaymentRow → Attempt → ℕ → PaymentsDb → PaymentsDb × Effects
  settle row (built tx amount) now db = (
    mark_broadcast row.id (d.builder.txid tx) (d.builder.hex tx) tx.expiry_height
        (map (λ u. u.outpoint) tx.inputs) (some amount) now db,
    record { sent = some (d.builder.hex tx); alert = false },
  )
  settle row (refused why) now db = (
    record_failure row.id row.attempts (message why) now db,
    record { sent = none; alert = is_insufficient why },
  )

  -- One tick of the broadcaster.
  unfoldable pub broadcast_tick : ChainReads → ℕ → PaymentsDb → PaymentsDb × Effects
  unfolding attempt settle
  broadcast_tick answers now db = elim (next_pending now db) [
    | none ↦ (db, record { sent = none; alert = false })
    | some row ↦ settle row (attempt row answers db) now db
  ]

-- `chain.tx(txid)`: a transport error, a positive not-found, or the confirmations
pub data Lookup : Type 0 where
  errored not_found : Lookup
  found : ℕ → Lookup

abbrev pub expiry_slack : ℕ
expiry_slack = 20

pub data Verdict : Type 0 where
  skip confirm reset : Verdict
  rebroadcast : String → Verdict

-- `row.expiry_height !== null && tip > row.expiry_height + EXPIRY_SLACK`
abbrev pub is_expired : ℕ → Option ℕ → Bool
is_expired tip none = false
is_expired tip (some h) = ltb (h + expiry_slack) tip

-- `if (row.raw_hex)`
abbrev push_again : Option String → Verdict
push_again none = skip
push_again (some hex) = if str_eq hex "" then skip else rebroadcast hex

-- What the confirmer decides about one row with a txid.
unfoldable pub judge : ℕ → PaymentRow → Lookup → Verdict
judge tip row errored = skip
judge tip row (found n) = if leb 1 n then confirm else skip
judge tip row not_found = if is_expired tip row.expiry_height then reset else push_again row.raw_hex

unfoldable pub act : PaymentRow → String → Verdict → ℕ → PaymentsDb → PaymentsDb
act row txid skip now db = db
act row txid (rebroadcast hex) now db = db
act row txid confirm now db = mark_confirmed row.id now db
act row txid reset now db = reset_expired row.id txid db

abbrev sent_by : Verdict → List String
sent_by (rebroadcast hex) = hex ∷ []
sent_by _ = []

-- One row of the confirmer's loop: `if (!row.txid) continue`, the lookup, the decision.
unfoldable pub visit :
    ℕ → (String → Lookup) → ℕ → PaymentRow → Option String → PaymentsDb → PaymentsDb × List String
unfolding judge act
visit tip lookup now row none db = (db, [])
visit tip lookup now row (some txid) db =
    if str_eq txid ""
    then (db, [])
    else (act row txid (judge tip row (lookup txid)) now db, sent_by (judge tip row (lookup txid)))

-- The loop over the rows that were read when the tick began.
unfoldable pub confirm_rows :
    ℕ → (String → Lookup) → ℕ → List PaymentRow → PaymentsDb → PaymentsDb × List String
unfolding visit
confirm_rows tip lookup now [] db = (db, [])
confirm_rows tip lookup now (row ∷ rows) db =
    let (db1, sent1) = visit tip lookup now row row.txid db in
    let (db2, sent2) = confirm_rows tip lookup now rows db1 in (db2, sent1 ++ sent2)

-- One tick of the confirmer; `none` for the tip: the read failed and the tick ends.
unfoldable pub confirm_tick :
    Option ℕ → (String → Lookup) → ℕ → PaymentsDb → PaymentsDb × List String
unfolding confirm_rows
confirm_tick none lookup now db = (db, [])
confirm_tick (some tip) lookup now db =
    confirm_rows tip lookup now (cumulusvpn.Payments.all_broadcast db) db
