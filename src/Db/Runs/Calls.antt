-- ===== src/Db/Runs/Calls.antt =====
-- The functions of db/db.go as histories: each that changes a table is one call, and each that reads
-- is two queries.
use boltcard.Prelude.{ℕ, refl, Bool, Option, String}
use boltcard.Prelude.Int.{ℤ}
use boltcard.Text.{Text}
use boltcard.Db.Schema.{Tables}
use boltcard.Db.Monad.{Result, open_db, query, ◌>>◌}
use boltcard.Db.Settings.{get_setting}
use boltcard.Db.Cards.{
  get_new_card, get_card_count_for_uid, get_card_count_for_name_lnurlp, get_card_id_for_name_lnurlp,
  get_cards_blank_uid, update_card_uid_ctr, get_card_from_uid, get_card_from_card_id,
  get_card_from_card_name, get_card_name_count, check_and_update_counter,
}
use boltcard.Db.CardWrites.{
  NewCard, Pin, insert_card, insert_card_with_pin, wipe_card, update_card, update_card_with_pin,
  update_card_with_part_pin,
}
use boltcard.Db.Receipts.{insert_receipt, update_receipt_state, get_card_id_for_r_hash}
use boltcard.Db.Payments.{
  insert_payment, get_payment_k1, get_card_id_for_card_payment_id, update_payment_invoice,
  check_lnurlw_timeout, fail_payment, release_payment, update_payment_status,
}
use boltcard.Db.Approvals.{
  update_payment_ntfy, create_payment_ntfy_token, approve_payment_by_token, get_payment_approval,
}
use boltcard.Db.Calls.{
  step, gets_setting, gets_new_card, updates_card_uid_ctr, checks_counter, inserts_card,
  inserts_card_with_pin, wipes_card, updates_card, updates_card_with_pin,
  updates_card_with_part_pin, inserts_receipt, updates_receipt_state, inserts_payment,
  updates_payment_invoice, fails_payment, releases_payment, updates_payment_status,
  updates_payment_ntfy, creates_ntfy_token, approves_by_token,
}
use boltcard.Db.Runs.{Runs, Runs-call, Runs-bind, Runs-open_db, Runs-query}

-- `open()` and a query.
two_queries : {A : Type 0} (q : ℕ → Tables → Result A) → Runs (open_db >> query q)
two_queries q = Runs-bind _ _ Runs-open_db λ _. Runs-query q

pub get_setting-Runs : (name : String) → Runs (get_setting name)
unfolding step
get_setting-Runs name = Runs-call _ (gets_setting name) λ db. refl

pub get_new_card-Runs : (code : Text) → Runs (get_new_card code)
unfolding step
get_new_card-Runs code = Runs-call _ (gets_new_card code) λ db. refl

pub update_card_uid_ctr-Runs :
    (id : ℕ) (uid : Text) (ctr : ℕ) → Runs (update_card_uid_ctr id uid ctr)
unfolding step
update_card_uid_ctr-Runs id uid ctr = Runs-call _ (updates_card_uid_ctr id uid ctr) λ db. refl

pub check_and_update_counter-Runs : (id ctr : ℕ) → Runs (check_and_update_counter id ctr)
unfolding step
check_and_update_counter-Runs id ctr = Runs-call _ (checks_counter id ctr) λ db. refl

pub insert_card-Runs : (n : NewCard) → Runs (insert_card n)
unfolding step
insert_card-Runs n = Runs-call _ (inserts_card n) λ db. refl

pub insert_card_with_pin-Runs : (n : NewCard) (p : Pin) → Runs (insert_card_with_pin n p)
unfolding step
insert_card_with_pin-Runs n p = Runs-call _ (inserts_card_with_pin n p) λ db. refl

pub wipe_card-Runs : (name : Text) → Runs (wipe_card name)
unfolding step
wipe_card-Runs name = Runs-call _ (wipes_card name) λ db. refl

pub update_card-Runs : (name : Text) (on : Bool) (tx day : ℤ) → Runs (update_card name on tx day)
unfolding step
update_card-Runs name on tx day = Runs-call _ (updates_card name on tx day) λ db. refl

pub update_card_with_pin-Runs :
    (name : Text) (on : Bool) (tx day : ℤ) (p : Pin) → Runs (update_card_with_pin name on tx day p)
unfolding step
update_card_with_pin-Runs name on tx day p =
    Runs-call _ (updates_card_with_pin name on tx day p) λ db. refl

pub update_card_with_part_pin-Runs :
    (name : Text) (on : Bool) (tx day : ℤ) (pin_on : Bool) (limit : ℤ)
    → Runs (update_card_with_part_pin name on tx day pin_on limit)
unfolding step
update_card_with_part_pin-Runs name on tx day pin_on limit =
    Runs-call _ (updates_card_with_part_pin name on tx day pin_on limit) λ db. refl

pub insert_receipt-Runs :
    (id : ℕ) (pr hash : Text) (amount : ℕ) → Runs (insert_receipt id pr hash amount)
unfolding step
insert_receipt-Runs id pr hash amount = Runs-call _ (inserts_receipt id pr hash amount) λ db. refl

pub update_receipt_state-Runs : (hash : Text) (s : String) → Runs (update_receipt_state hash s)
unfolding step
update_receipt_state-Runs hash s = Runs-call _ (updates_receipt_state hash s) λ db. refl

pub insert_payment-Runs : (id : ℕ) (k1 : Text) → Runs (insert_payment id k1)
unfolding step
insert_payment-Runs id k1 = Runs-call _ (inserts_payment id k1) λ db. refl

pub update_payment_invoice-Runs :
    (id : ℕ) (pr : Text) (amount : ℕ) → Runs (update_payment_invoice id pr amount)
unfolding step
update_payment_invoice-Runs id pr amount =
    Runs-call _ (updates_payment_invoice id pr amount) λ db. refl

pub fail_payment-Runs : (id : ℕ) (reason : String) → Runs (fail_payment id reason)
unfolding step
fail_payment-Runs id reason = Runs-call _ (fails_payment id reason) λ db. refl

pub release_payment-Runs : (id : ℕ) (reason : String) → Runs (release_payment id reason)
unfolding step
release_payment-Runs id reason = Runs-call _ (releases_payment id reason) λ db. refl

pub update_payment_status-Runs :
    (id : ℕ) (s reason : String) → Runs (update_payment_status id s reason)
unfolding step
update_payment_status-Runs id s reason = Runs-call _ (updates_payment_status id s reason) λ db. refl

pub update_payment_ntfy-Runs : (id flag : ℕ) → Runs (update_payment_ntfy id flag)
unfolding step
update_payment_ntfy-Runs id flag = Runs-call _ (updates_payment_ntfy id flag) λ db. refl

pub create_payment_ntfy_token-Runs :
    (random : Option Text) (id : ℕ) → Runs (create_payment_ntfy_token random id)
unfolding step
create_payment_ntfy_token-Runs random id = Runs-call _ (creates_ntfy_token random id) λ db. refl

pub approve_payment_by_token-Runs :
    (token : Text) (flag : ℕ) → Runs (approve_payment_by_token token flag)
unfolding step
approve_payment_by_token-Runs token flag = Runs-call _ (approves_by_token token flag) λ db. refl

pub get_card_count_for_uid-Runs : (uid : Text) → Runs (get_card_count_for_uid uid)
unfolding get_card_count_for_uid
get_card_count_for_uid-Runs uid = two_queries _

pub get_card_count_for_name_lnurlp-Runs : (name : Text) → Runs (get_card_count_for_name_lnurlp name)
unfolding get_card_count_for_name_lnurlp
get_card_count_for_name_lnurlp-Runs name = two_queries _

pub get_card_id_for_name_lnurlp-Runs : (name : Text) → Runs (get_card_id_for_name_lnurlp name)
unfolding get_card_id_for_name_lnurlp
get_card_id_for_name_lnurlp-Runs name = two_queries _

pub get_cards_blank_uid-Runs : Runs get_cards_blank_uid
unfolding get_cards_blank_uid
get_cards_blank_uid-Runs = two_queries _

pub get_card_from_uid-Runs : (uid : Text) → Runs (get_card_from_uid uid)
unfolding get_card_from_uid
get_card_from_uid-Runs uid = two_queries _

pub get_card_from_card_id-Runs : (id : ℕ) → Runs (get_card_from_card_id id)
unfolding get_card_from_card_id
get_card_from_card_id-Runs id = two_queries _

pub get_card_from_card_name-Runs : (name : Text) → Runs (get_card_from_card_name name)
unfolding get_card_from_card_name
get_card_from_card_name-Runs name = two_queries _

pub get_card_name_count-Runs : (name : Text) → Runs (get_card_name_count name)
unfolding get_card_name_count
get_card_name_count-Runs name = two_queries _

pub get_card_id_for_r_hash-Runs : (hash : Text) → Runs (get_card_id_for_r_hash hash)
unfolding get_card_id_for_r_hash
get_card_id_for_r_hash-Runs hash = two_queries _

pub get_payment_k1-Runs : (k1 : Text) → Runs (get_payment_k1 k1)
unfolding get_payment_k1
get_payment_k1-Runs k1 = two_queries _

pub get_card_id_for_card_payment_id-Runs : (id : ℕ) → Runs (get_card_id_for_card_payment_id id)
unfolding get_card_id_for_card_payment_id
get_card_id_for_card_payment_id-Runs id = two_queries _

pub check_lnurlw_timeout-Runs : (id : ℕ) → Runs (check_lnurlw_timeout id)
unfolding check_lnurlw_timeout
check_lnurlw_timeout-Runs id = two_queries _

pub get_payment_approval-Runs : (id : ℕ) → Runs (get_payment_approval id)
unfolding get_payment_approval
get_payment_approval-Runs id = two_queries _

pub ruleset call_runs = (
  get_setting-Runs, get_new_card-Runs, update_card_uid_ctr-Runs, check_and_update_counter-Runs,
  insert_card-Runs, insert_card_with_pin-Runs, wipe_card-Runs, update_card-Runs,
  update_card_with_pin-Runs, update_card_with_part_pin-Runs, insert_receipt-Runs,
  update_receipt_state-Runs, insert_payment-Runs, update_payment_invoice-Runs, fail_payment-Runs,
  release_payment-Runs, update_payment_status-Runs, update_payment_ntfy-Runs,
  create_payment_ntfy_token-Runs, approve_payment_by_token-Runs, get_card_count_for_uid-Runs,
  get_card_count_for_name_lnurlp-Runs, get_card_id_for_name_lnurlp-Runs, get_cards_blank_uid-Runs,
  get_card_from_uid-Runs, get_card_from_card_id-Runs, get_card_from_card_name-Runs,
  get_card_name_count-Runs, get_card_id_for_r_hash-Runs, get_payment_k1-Runs,
  get_card_id_for_card_payment_id-Runs, check_lnurlw_timeout-Runs, get_payment_approval-Runs,
)
