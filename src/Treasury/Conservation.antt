-- ===== src/Treasury/Conservation.antt =====
-- A payment transaction of bridge/src/flux/tx.ts neither makes nor loses money.
use cumulusvpn.Common.{
  ℕ, ◌+◌, ◌-◌, ◌≤◌, ◌<◌, ◌≡◌, refl, sym, ap, inl, inr, String, Option, none, some, List, [], ◌∷◌,
  ltb, leb, All, Bool-cases, sum_of, arith,
}
use cumulusvpn.Treasury.{
  Output, pay, null_data, PaymentTx, BuildParams, build_payment_tx, expiry_delta, dust_zats,
  change_outputs,
}

abbrev pub zats_in : Output → ℕ
zats_in (pay address zats) = zats
zats_in (null_data memo) = 0

abbrev pub paid_out : PaymentTx → ℕ
paid_out tx = sum_of zats_in tx.outputs

-- What a built transaction satisfies: the inputs pay the outputs and a fee of at least the asked
-- one, exceeded by less than the dust limit; it expires 40 blocks after the tip.
pub record IsBalanced (p : BuildParams) (tx : PaymentTx) : Type 0 where
  pub fee_paid : paid_out tx + p.fee_zats ≤ p.input_total_zats
  pub fee_bounded : p.input_total_zats < paid_out tx + p.fee_zats + dust_zats
  pub same_inputs : tx.inputs ≡ p.inputs
  pub expires : tx.expiry_height ≡ p.tip_height + expiry_delta

-- A transaction that is built has the inputs that were given and expires 40 blocks after the tip; the
-- given total covers its outputs and the fee, and what is left over is less than the dust limit.
pub build_payment_tx-IsBalanced :
    (p : BuildParams) (tx : PaymentTx) → build_payment_tx p ≡ some tx → IsBalanced p tx
unfolding build_payment_tx
build_payment_tx-IsBalanced p tx e = ground arith

-- What goes to an address: every output of the list is a payment to it.
abbrev pub AreTo : String → List Output → Type 0
AreTo address outputs = All (λ o. (z : ℕ) × (o ≡ pay address z)) outputs

change_outputs-AreTo :
    (address : String) (change : ℕ) → AreTo address (change_outputs address change)
change_outputs-AreTo address change = elim (Bool-cases (leb dust_zats change)) [
  | inl large ↦ rw large ((change, refl), tt)
  | inr dust ↦ rw dust tt
]

-- The outputs of a built transaction: the amount to the payment address, the memo, and change.
pub build_payment_tx_outputs :
    (p : BuildParams) (tx : PaymentTx)
    → build_payment_tx p ≡ some tx
    → (change : List Output) × (tx.outputs
        ≡ pay p.payment_address p.amount_zats ∷ (null_data p.memo ∷ change))
      × AreTo p.treasury change
unfolding build_payment_tx
build_payment_tx_outputs p tx e =
    elim (Bool-cases (ltb p.input_total_zats (p.amount_zats + p.fee_zats))) [
      | inl poor ↦ cc (rw poor at e)
      | inr covered ↦ (
        change_outputs p.treasury (p.input_total_zats - p.amount_zats - p.fee_zats),
        sym (ap outputs_of (rw covered at e)),
        change_outputs-AreTo p.treasury (p.input_total_zats - p.amount_zats - p.fee_zats),
      )
    ]
  where
    outputs_of : Option PaymentTx → List Output
    outputs_of none = []
    outputs_of (some t) = t.outputs
