-- ===== src/Rails/Examples.antt =====
-- A purchase of bridge/src/rails/google.ts: verified by one device, claimed by another, moved.
use cumulusvpn.Common.{ℕ, ◌<◌, ◌≡◌, refl, String, true, false, Option, none, some, [], ◌∷◌, arith}
use cumulusvpn.Codes.{Decoder, is_valid_payment_code}
use cumulusvpn.Grants.{record_grant}
use cumulusvpn.Payments.{google, PaymentsDb, insert_idempotent, max_id}
use cumulusvpn.Payments.Events.{event_count, IsOnce}
use cumulusvpn.Price.Payout.{zats_for_days}
use cumulusvpn.Subscriptions.{user, get, upsert, rebind, insert_or, max_transfer_id}
use cumulusvpn.Transfers.{annual, remaining_days, transfer_available_at}
use cumulusvpn.Rails.{Bridge}
use cumulusvpn.Rails.Play.{
  GoogleConfig, PlaySubscription, PeriodFacts, Outcome, reject, inactive_reason, plan_for_base_plan,
  period_facts,
}
use cumulusvpn.Rails.GoogleMoves.{Job, finish, transfer_to, transfer_grant, transfer_days}
use cumulusvpn.Rails.Google.{
  Section, answer, settling, bind, moved_owner, owner_of, verify_section, claim_section, take_over,
}
use cumulusvpn.Rails.Google.System.{State, Reach, here, next, waiting, verify, claim}
use cumulusvpn.Rails.Google.Spacing.{IsSpaced, Reach-IsSpaced}
use cumulusvpn.Rails.Google.Owner.{IsMovedTo, Stays, Step-Stays}
use cumulusvpn.Rails.Google.Once.{acknowledged_owed}
use cumulusvpn.Rails.Google.Repeats.{
  Paying, transfer, pay, left_by, code_paid, days_paid, period, Reach-repeat_free,
}

abbrev twenty_bytes : Decoder
twenty_bytes s =
    some (
      1 ∷ 2 ∷ 3 ∷ 4 ∷ 5 ∷ 6 ∷ 7 ∷ 8 ∷ 9 ∷ 10 ∷ 11 ∷ 12 ∷ 13 ∷ 14 ∷ 15 ∷ 16 ∷ 17 ∷ 18 ∷ 19 ∷ 20 ∷ [])

abbrev config : GoogleConfig
config = record {
  package_name = "com.cumulusvpn";
  base_plan_monthly = "monthly";
  base_plan_annual = "annual";
  test_grants = false;
  test_grant_days = 1;
  price_zats = 1000;
  decode = twenty_bytes;
}

abbrev alice : String
alice = "alicealicealicealicealice"

abbrev bob : String
bob = "bobbobbobbobbobbobbobbobbob"

abbrev year_end : ℕ
year_end = 40000000000

abbrev purchase : PlaySubscription
purchase = record {
  state = some "SUBSCRIPTION_STATE_ACTIVE";
  account_id = some alice;
  line = some (record {
    base_plan_id = some "annual";
    latest_successful_order_id = some "GPA.1";
    product_id = none;
    expiry_ms = some year_end;
  });
  latest_order_id = none;
  test_purchase = false;
}

abbrev facts : PeriodFacts
facts = record {
  days = 360;
  plan = annual;
  order_id = "GPA.1";
  product_id = none;
  expiry_ms = some year_end;
  test = false;
}

abbrev fresh : Bridge
fresh = record {
  queue = record { payments = []; spent = [] };
  subs = record { subscriptions = []; transfers = []; apple_tokens = [] };
}

abbrev begin : State
begin = record { bridge = fresh; jobs = [] }

abbrev job : Job
job = record { code = alice; token = "tok"; facts = facts; claimed = false }

-- Another device's purchase is not taken by a verification, and not by a claim that does not ask to move.
verified : (verify_section config alice "tok" true purchase 5000 fresh.subs).0 ≡ settling job
unfolding verify_section is_valid_payment_code inactive_reason period_facts plan_for_base_plan
    moved_owner get bind
verified = refl

mismatch :
    (verify_section config bob "tok" true purchase 5000 fresh.subs).0
    ≡ answer (reject "account_id_mismatch")
unfolding verify_section is_valid_payment_code inactive_reason
mismatch = refl

abbrev bought : State
bought = record {
  bridge = record fresh {
    subs = (verify_section config alice "tok" true purchase 5000 fresh.subs).1;
  };
  jobs = waiting (verify_section config alice "tok" true purchase 5000 fresh.subs).0 [];
}

owned_elsewhere :
    claim_section config bob "tok" false purchase 6000 bought.bridge
    ≡ some (answer (reject "owned_by_other_device"), bought.bridge)
unfolding claim_section is_valid_payment_code inactive_reason period_facts plan_for_base_plan
    owner_of get take_over verify_section moved_owner bind upsert insert_or
owned_elsewhere = refl

abbrev or_nothing : Option (Section × Bridge) → Section × Bridge
or_nothing none = (answer (reject ""), fresh)
or_nothing (some r) = r

-- The move to the second device, an hour later.
abbrev taken : Section × Bridge
taken = or_nothing (claim_section config bob "tok" true purchase 3600000 bought.bridge)

abbrev handed_over : State
handed_over = record { bridge = taken.1; jobs = waiting taken.0 bought.jobs }

taken_run :
    claim_section config bob "tok" true purchase 3600000 bought.bridge ≡ some (taken.0, taken.1)
unfolding claim_section is_valid_payment_code inactive_reason period_facts plan_for_base_plan
    owner_of get take_over verify_section moved_owner bind upsert insert_or transfer_available_at
    transfer_to transfer_grant transfer_days remaining_days record_grant insert_idempotent max_id
    zats_for_days rebind max_transfer_id
taken_run = refl

moves : Reach config begin handed_over
moves =
    next (next here (verify begin alice "tok" true purchase 5000))
      (claim bought bob "tok" true purchase 3600000 taken.0 taken.1 taken_run)

no_moves : IsSpaced "tok" begin.bridge.subs
unfolding get
no_moves = refl

Reach-IsSpaced_example : IsSpaced "tok" handed_over.bridge.subs
Reach-IsSpaced_example = Reach-IsSpaced "tok" moves no_moves

once : IsOnce fresh.queue
unfolding event_count
once rail key = omega arith

-- The move once more, and back: the queue keeps the one row of the period.
abbrev the_move : Paying
the_move = transfer bob "tok" facts 3600000

abbrev the_way_back : Paying
the_way_back = transfer alice "tok" facts 7200000

abbrev or_queue : Option PaymentsDb → PaymentsDb
or_queue none = fresh.queue
or_queue (some queue) = queue

abbrev moved_queue : PaymentsDb
moved_queue = or_queue (pay config the_move fresh.queue)

moved_run : pay config the_move fresh.queue ≡ some moved_queue
unfolding transfer_grant transfer_days remaining_days record_grant insert_idempotent max_id
    is_valid_payment_code zats_for_days
moved_run = refl

move_code_valid : is_valid_payment_code (config).decode (code_paid the_move) ≡ true
unfolding is_valid_payment_code
move_code_valid = refl

move_has_days : 0 < days_paid config the_move
unfolding transfer_days remaining_days
move_has_days = omega arith

abbrev paid_state : State
paid_state = record { bridge = record fresh { queue = moved_queue }; jobs = [] }

abbrev verified_state : State
verified_state = record {
  bridge = record (paid_state).bridge {
    subs = (verify_section config bob "tok" false purchase 5000000 fresh.subs).1;
  };
  jobs = waiting (verify_section config bob "tok" false purchase 5000000 fresh.subs).0 [];
}

Reach-repeat_free_example :
    left_by (verified_state).bridge.queue (pay config the_way_back (verified_state).bridge.queue)
    ≡ (verified_state).bridge.queue
Reach-repeat_free_example =
    Reach-repeat_free config the_move the_way_back fresh.queue moved_queue paid_state verified_state
      move_code_valid move_has_days moved_run
      (period bob alice "tok" facts facts 3600000 7200000 refl refl) refl
      (next here (verify paid_state bob "tok" false purchase 5000000))

bob_owns : IsMovedTo "tok" bob 3600 handed_over.bridge.subs
unfolding claim_section is_valid_payment_code inactive_reason period_facts plan_for_base_plan
    owner_of get take_over verify_section moved_owner bind upsert insert_or transfer_available_at
    transfer_to transfer_grant transfer_days remaining_days record_grant insert_idempotent max_id
    zats_for_days rebind max_transfer_id
bob_owns = record { row = _; found = refl; owner = refl; when = refl }

-- The first device verifies again, as its app does when it starts.
Step-Stays_example :
    Stays user "tok" bob 3600
      (verify_section config alice "tok" true purchase 9000000 handed_over.bridge.subs).1
Step-Stays_example =
    Step-Stays "tok" bob 3600 refl (verify handed_over alice "tok" true purchase 9000000) bob_owns

abbrev or_empty : Option (Outcome × PaymentsDb) → Outcome × PaymentsDb
or_empty none = (reject "", fresh.queue)
or_empty (some r) = r

abbrev settled : Outcome × PaymentsDb
settled = or_empty (finish config job 7000 fresh.queue)

settled_run : finish config job 7000 fresh.queue ≡ some (settled.0, settled.1)
unfolding finish record_grant is_valid_payment_code insert_idempotent max_id zats_for_days
settled_run = refl

valid_alice : is_valid_payment_code config.decode alice ≡ true
unfolding is_valid_payment_code
valid_alice = refl

some_zats : 0 < zats_for_days 1000 360
unfolding zats_for_days
some_zats = omega arith

abbrev paid_for : State
paid_for = record { bridge = record fresh { queue = settled.1 }; jobs = [] }

acknowledged_owed_example : event_count google "GPA.1" settled.1.payments ≡ 1
acknowledged_owed_example =
    acknowledged_owed config job 7000 settled.0 fresh.queue settled.1 paid_for paid_for refl
      valid_alice (omega arith) some_zats once settled_run refl here
