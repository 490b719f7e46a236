-- ===== src/Db/Timeless/Calls.antt =====
-- No call takes time: the clock moves between calls only.
use boltcard.Prelude.{ℕ, ◌≤◌, ◌≡◌, List, [], ◌∷◌, Option, none, some, Bool, String, arith}
use boltcard.Prelude.Int.{ℤ}
use boltcard.Text.{Text}
use boltcard.Db.Schema.{Db, failed}
use boltcard.Db.Timeless.{
  Timeless, Timeless-pure, Timeless-raise, Timeless-bind, Timeless-open_db, Timeless-query,
  timeless_rules,
}
use boltcard.Db.Monad.{open_db, query, used}
use boltcard.Db.Settings.{get_setting, get_setting_now, clear}
use boltcard.Db.Hoare.Calls.{get_setting-now, read_setting-now}
use boltcard.Db.Cards.{get_new_card, update_card_uid_ctr, check_and_update_counter}
use boltcard.Db.CardWrites.{
  NewCard, Pin, insert_card, insert_card_with_pin, wipe_card, update_card, update_card_with_pin,
  update_card_with_part_pin,
}
use boltcard.Db.Receipts.{insert_receipt, update_receipt_state}
use boltcard.Db.Payments.{
  insert_payment, update_payment_invoice, fail_payment, release_payment, update_payment_status,
}
use boltcard.Db.Approvals.{
  update_payment_ntfy, random_hex_16, create_payment_ntfy_token, approve_payment_by_token,
  get_payment_approval,
}
use boltcard.Db.Authorize.{authorize_payment}
use boltcard.Db.Calls.{
  Call, step, run, wait, waits, reads, gets_setting, gets_setting_now, gets_new_card,
  updates_card_uid_ctr, checks_counter, inserts_card, inserts_card_with_pin, wipes_card,
  updates_card, updates_card_with_pin, updates_card_with_part_pin, inserts_receipt,
  updates_receipt_state, inserts_payment, updates_payment_invoice, authorizes_payment,
  fails_payment, releases_payment, updates_payment_status, updates_payment_ntfy, creates_ntfy_token,
  approves_by_token,
}

Timeless-get_setting : (name : String) → Timeless (get_setting name)
Timeless-get_setting name = record { at = get_setting-now name }

get_new_card-Timeless : (code : Text) → Timeless (get_new_card code)
unfolding get_new_card
get_new_card-Timeless code = search (timeless_rules) depth 20

update_card_uid_ctr-Timeless :
    (id : ℕ) (uid : Text) (ctr : ℕ) → Timeless (update_card_uid_ctr id uid ctr)
unfolding update_card_uid_ctr
update_card_uid_ctr-Timeless id uid ctr = search (timeless_rules) depth 20

check_and_update_counter-Timeless : (id ctr : ℕ) → Timeless (check_and_update_counter id ctr)
unfolding check_and_update_counter
check_and_update_counter-Timeless id ctr = search (timeless_rules) depth 20

pub insert_card-Timeless : (n : NewCard) → Timeless (insert_card n)
unfolding insert_card
insert_card-Timeless n = search (timeless_rules) depth 20

pub insert_card_with_pin-Timeless : (n : NewCard) (p : Pin) → Timeless (insert_card_with_pin n p)
unfolding insert_card_with_pin
insert_card_with_pin-Timeless n p = search (timeless_rules) depth 20

wipe_card-Timeless : (name : Text) → Timeless (wipe_card name)
unfolding wipe_card
wipe_card-Timeless name = search (timeless_rules, Timeless-get_setting) depth 20

update_card-Timeless :
    (name : Text) (enable : Bool) (tx day : ℤ) → Timeless (update_card name enable tx day)
unfolding update_card
update_card-Timeless name enable tx day = search (timeless_rules) depth 20

update_card_with_pin-Timeless :
    (name : Text) (enable : Bool) (tx day : ℤ) (p : Pin)
    → Timeless (update_card_with_pin name enable tx day p)
unfolding update_card_with_pin
update_card_with_pin-Timeless name enable tx day p = search (timeless_rules) depth 20

update_card_with_part_pin-Timeless :
    (name : Text) (enable : Bool) (tx day : ℤ) (pin : Bool) (limit : ℤ)
    → Timeless (update_card_with_part_pin name enable tx day pin limit)
unfolding update_card_with_part_pin
update_card_with_part_pin-Timeless name enable tx day pin limit = search (timeless_rules) depth 20

insert_receipt-Timeless :
    (id : ℕ) (pr hash : Text) (amount : ℕ) → Timeless (insert_receipt id pr hash amount)
unfolding insert_receipt
insert_receipt-Timeless id pr hash amount = search (timeless_rules) depth 20

update_receipt_state-Timeless : (hash : Text) (s : String) → Timeless (update_receipt_state hash s)
unfolding update_receipt_state
update_receipt_state-Timeless hash s = search (timeless_rules) depth 20

insert_payment-Timeless : (id : ℕ) (k1 : Text) → Timeless (insert_payment id k1)
unfolding insert_payment
insert_payment-Timeless id k1 = search (timeless_rules) depth 20

update_payment_invoice-Timeless :
    (id : ℕ) (pr : Text) (amount : ℕ) → Timeless (update_payment_invoice id pr amount)
unfolding update_payment_invoice
update_payment_invoice-Timeless id pr amount = search (timeless_rules) depth 20

authorize_payment-Timeless :
    (id sats : ℕ) (totals : Bool) → Timeless (authorize_payment id sats totals)
unfolding authorize_payment
authorize_payment-Timeless id sats totals = search (timeless_rules) depth 20

fail_payment-Timeless : (id : ℕ) (reason : String) → Timeless (fail_payment id reason)
unfolding fail_payment
fail_payment-Timeless id reason = search (timeless_rules) depth 20

release_payment-Timeless : (id : ℕ) (reason : String) → Timeless (release_payment id reason)
unfolding release_payment
release_payment-Timeless id reason = search (timeless_rules) depth 20

update_payment_status-Timeless :
    (id : ℕ) (s reason : String) → Timeless (update_payment_status id s reason)
unfolding update_payment_status
update_payment_status-Timeless id s reason = search (timeless_rules) depth 20

update_payment_ntfy-Timeless : (id flag : ℕ) → Timeless (update_payment_ntfy id flag)
unfolding update_payment_ntfy
update_payment_ntfy-Timeless id flag = search (timeless_rules) depth 20

approve_payment_by_token-Timeless :
    (token : Text) (flag : ℕ) → Timeless (approve_payment_by_token token flag)
unfolding approve_payment_by_token
approve_payment_by_token-Timeless token flag = search (timeless_rules) depth 20

pub get_payment_approval-now : (id : ℕ) (db : Db) → (get_payment_approval id db).1.now ≡ db.now
unfolding get_payment_approval open_db query
get_payment_approval-now id db =
    (Timeless-bind open_db _ Timeless-open_db λ _. Timeless-query _).at db

get_setting_now-now : (name : String) (db : Db) → (get_setting_now name db).1.now ≡ db.now
unfolding get_setting_now clear
get_setting_now-now name db = read_setting-now name (clear db)

random_hex_16-Timeless : (random : Option Text) → Timeless (random_hex_16 random)
unfolding random_hex_16
random_hex_16-Timeless none = Timeless-raise failed
random_hex_16-Timeless (some bytes) = Timeless-pure _

create_payment_ntfy_token-Timeless :
    (random : Option Text) (id : ℕ) → Timeless (create_payment_ntfy_token random id)
unfolding create_payment_ntfy_token
create_payment_ntfy_token-Timeless random id = search (timeless_rules, random_hex_16-Timeless)

step-now : (db : Db) (c : Call) → db.now ≤ (step db c).now
unfolding step wait get_setting_now clear used
step-now db (waits n) = omega arith
step-now db reads = omega arith
step-now db (gets_setting name) = rw (get_setting-now name db) (omega arith)
step-now db (gets_setting_now name) = rw (get_setting_now-now name db) (omega arith)
step-now db (gets_new_card code) = omega (arith, (get_new_card-Timeless code).at db)
step-now db (updates_card_uid_ctr id uid ctr) =
    omega (arith, (update_card_uid_ctr-Timeless id uid ctr).at db)
step-now db (checks_counter id ctr) =
    omega (arith, (check_and_update_counter-Timeless id ctr).at db)
step-now db (inserts_card n) = omega (arith, (insert_card-Timeless n).at db)
step-now db (inserts_card_with_pin n p) = omega (arith, (insert_card_with_pin-Timeless n p).at db)
step-now db (wipes_card name) = omega (arith, (wipe_card-Timeless name).at db)
step-now db (updates_card name enable tx day) =
    omega (arith, (update_card-Timeless name enable tx day).at db)
step-now db (updates_card_with_pin name enable tx day p) =
    omega (arith, (update_card_with_pin-Timeless name enable tx day p).at db)
step-now db (updates_card_with_part_pin name enable tx day pin limit) =
    omega (arith, (update_card_with_part_pin-Timeless name enable tx day pin limit).at db)
step-now db (inserts_receipt id pr hash amount) =
    omega (arith, (insert_receipt-Timeless id pr hash amount).at db)
step-now db (updates_receipt_state hash s) =
    omega (arith, (update_receipt_state-Timeless hash s).at db)
step-now db (inserts_payment id k1) = omega (arith, (insert_payment-Timeless id k1).at db)
step-now db (updates_payment_invoice id pr amount) =
    omega (arith, (update_payment_invoice-Timeless id pr amount).at db)
step-now db (authorizes_payment id sats totals) =
    omega (arith, (authorize_payment-Timeless id sats totals).at db)
step-now db (fails_payment id reason) = omega (arith, (fail_payment-Timeless id reason).at db)
step-now db (releases_payment id reason) = omega (arith, (release_payment-Timeless id reason).at db)
step-now db (updates_payment_status id s reason) =
    omega (arith, (update_payment_status-Timeless id s reason).at db)
step-now db (updates_payment_ntfy id flag) =
    omega (arith, (update_payment_ntfy-Timeless id flag).at db)
step-now db (approves_by_token token flag) =
    omega (arith, (approve_payment_by_token-Timeless token flag).at db)
step-now db (creates_ntfy_token random id) =
    omega (arith, (create_payment_ntfy_token-Timeless random id).at db)

-- Time does not run back in a history.
pub run-now : (db : Db) (cs : List Call) → db.now ≤ (run db cs).now
unfolding run
run-now db [] = omega arith
run-now db (c ∷ cs) = omega (arith, step-now db c, run-now (step db c) cs)
