-- ===== src/Db/Keeps/Calls.antt =====
-- A relation that every statement of db/db.go respects is kept by every call and every history.
use boltcard.Prelude.{ℕ, ◌≡◌, refl, ◌&&◌, All, List, [], ◌∷◌, Option, none, some, Bool, String}
use boltcard.Prelude.Int.{ℤ}
use boltcard.Text.{Text, fits, pad}
use boltcard.Db.Schema.{Db, failed, fits_int4}
use boltcard.Db.Monad.{used}
use boltcard.Db.Keeps.{
  Preserved, Keeps, Keeps-pure, Keeps-raise, Keeps-bind, Keeps-open_db, Keeps-expect_one,
}
use boltcard.Db.Keeps.Settings.{Keeps-get_setting, Keeps-get_setting_now}
use boltcard.Db.Cards.{get_new_card, update_card_uid_ctr, check_and_update_counter}
use boltcard.Db.CardWrites.{
  NewCard, Pin, yn, insert_card, insert_card_with_pin, wipe_card, update_card, update_card_with_pin,
  update_card_with_part_pin,
}
use boltcard.Db.Receipts.{insert_receipt, update_receipt_state}
use boltcard.Db.Payments.{
  insert_payment, update_payment_invoice, fail_payment, release_payment, update_payment_status,
}
use boltcard.Db.Approvals.{
  update_payment_ntfy, random_hex_16, create_payment_ntfy_token, approve_payment_by_token,
}
use boltcard.Db.Authorize.{authorize_payment}
use boltcard.Db.Calls.{
  Call, step, run, waits, reads, gets_setting, gets_setting_now, gets_new_card,
  updates_card_uid_ctr, checks_counter, inserts_card, inserts_card_with_pin, wipes_card,
  updates_card, updates_card_with_pin, updates_card_with_part_pin, inserts_receipt,
  updates_receipt_state, inserts_payment, updates_payment_invoice, authorizes_payment,
  fails_payment, releases_payment, updates_payment_status, updates_payment_ntfy, creates_ntfy_token,
  approves_by_token,
}
use boltcard.Db.Keeps.Statements.{Lawful, exec_rules, uid_ctr-Keeps, update_pin-Keeps}

-- The card that a call sets up.
abbrev pub set_up_of : Call → Option ℕ
set_up_of (updates_card_uid_ctr id uid ctr) = some id
set_up_of _ = none

module _ {k : Preserved} {MaySetUp : ℕ → Type 0} (laws : Lawful k MaySetUp) where
  pub get_new_card-Keeps : (code : Text) → Keeps k (get_new_card code)
  unfolding get_new_card
  get_new_card-Keeps code = search (exec_rules)

  pub update_card_uid_ctr-Keeps :
      (id : ℕ) (uid : Text) (ctr : ℕ) → MaySetUp id → Keeps k (update_card_uid_ctr id uid ctr)
  unfolding update_card_uid_ctr
  update_card_uid_ctr-Keeps id uid ctr may =
      Keeps-bind _ _ Keeps-open_db
        λ _. Keeps-bind _ _ (uid_ctr-Keeps laws id uid ctr may) λ n. Keeps-expect_one _ n

  pub check_and_update_counter-Keeps : (id ctr : ℕ) → Keeps k (check_and_update_counter id ctr)
  unfolding check_and_update_counter
  check_and_update_counter-Keeps id ctr = search (exec_rules)

  pub insert_card-Keeps : (n : NewCard) → Keeps k (insert_card n)
  unfolding insert_card
  insert_card-Keeps n = search (exec_rules)

  pub insert_card_with_pin-Keeps : (n : NewCard) (p : Pin) → Keeps k (insert_card_with_pin n p)
  unfolding insert_card_with_pin
  insert_card_with_pin-Keeps n p = search (exec_rules)

  pub wipe_card-Keeps : (name : Text) → Keeps k (wipe_card name)
  unfolding wipe_card
  wipe_card-Keeps name = search (exec_rules)

  pub update_card-Keeps :
      (name : Text) (enable : Bool) (tx day : ℤ) → Keeps k (update_card name enable tx day)
  unfolding update_card
  update_card-Keeps name enable tx day = search (exec_rules)

  pub update_card_with_pin-Keeps :
      (name : Text) (enable : Bool) (tx day : ℤ) (p : Pin)
      → Keeps k (update_card_with_pin name enable tx day p)
  unfolding update_card_with_pin
  update_card_with_pin-Keeps name enable tx day p = Keeps-bind _ _ Keeps-open_db λ _.
      Keeps-bind _ _
        (update_pin-Keeps laws name enable tx day
          (fits 4 p.pin_number && fits_int4 p.pin_limit_sats)
          (λ c. record c {
            pin_enable = yn p.pin_enable;
            pin_number = pad 4 p.pin_number;
            pin_limit_sats = p.pin_limit_sats;
          })
          (λ c. refl) (λ c. refl))
        λ n. Keeps-expect_one _ n

  pub update_card_with_part_pin-Keeps :
      (name : Text) (enable : Bool) (tx day : ℤ) (pin : Bool) (limit : ℤ)
      → Keeps k (update_card_with_part_pin name enable tx day pin limit)
  unfolding update_card_with_part_pin
  update_card_with_part_pin-Keeps name enable tx day pin limit = Keeps-bind _ _ Keeps-open_db λ _.
      Keeps-bind _ _
        (update_pin-Keeps laws name enable tx day (fits_int4 limit)
          (λ c. record c { pin_enable = yn pin; pin_limit_sats = limit }) (λ c. refl) (λ c. refl))
        λ n. Keeps-expect_one _ n

  pub insert_receipt-Keeps :
      (id : ℕ) (pr hash : Text) (amount : ℕ) → Keeps k (insert_receipt id pr hash amount)
  unfolding insert_receipt
  insert_receipt-Keeps id pr hash amount = search (exec_rules)

  pub update_receipt_state-Keeps :
      (hash : Text) (s : String) → Keeps k (update_receipt_state hash s)
  unfolding update_receipt_state
  update_receipt_state-Keeps hash s = search (exec_rules)

  pub insert_payment-Keeps : (id : ℕ) (k1 : Text) → Keeps k (insert_payment id k1)
  unfolding insert_payment
  insert_payment-Keeps id k1 = search (exec_rules)

  pub update_payment_invoice-Keeps :
      (id : ℕ) (pr : Text) (amount : ℕ) → Keeps k (update_payment_invoice id pr amount)
  unfolding update_payment_invoice
  update_payment_invoice-Keeps id pr amount = search (exec_rules)

  pub authorize_payment-Keeps :
      (id sats : ℕ) (totals : Bool) → Keeps k (authorize_payment id sats totals)
  unfolding authorize_payment
  authorize_payment-Keeps id sats totals = search (exec_rules) depth 20

  pub fail_payment-Keeps : (id : ℕ) (reason : String) → Keeps k (fail_payment id reason)
  unfolding fail_payment
  fail_payment-Keeps id reason = search (exec_rules)

  pub release_payment-Keeps : (id : ℕ) (reason : String) → Keeps k (release_payment id reason)
  unfolding release_payment
  release_payment-Keeps id reason = search (exec_rules)

  pub update_payment_status-Keeps :
      (id : ℕ) (s reason : String) → Keeps k (update_payment_status id s reason)
  unfolding update_payment_status
  update_payment_status-Keeps id s reason = search (exec_rules)

  pub update_payment_ntfy-Keeps : (id flag : ℕ) → Keeps k (update_payment_ntfy id flag)
  unfolding update_payment_ntfy
  update_payment_ntfy-Keeps id flag = search (exec_rules)

  pub approve_payment_by_token-Keeps :
      (token : Text) (flag : ℕ) → Keeps k (approve_payment_by_token token flag)
  unfolding approve_payment_by_token
  approve_payment_by_token-Keeps token flag = search (exec_rules)

  random_hex_16-Keeps : (random : Option Text) → Keeps k (random_hex_16 random)
  unfolding random_hex_16
  random_hex_16-Keeps none = Keeps-raise failed
  random_hex_16-Keeps (some bytes) = Keeps-pure _

  pub create_payment_ntfy_token-Keeps :
      (random : Option Text) (id : ℕ) → Keeps k (create_payment_ntfy_token random id)
  unfolding create_payment_ntfy_token
  create_payment_ntfy_token-Keeps random id = search (exec_rules, random_hex_16-Keeps)

  -- A call that sets a card up does so where the card may be set up.
  abbrev Allowed : Call → Type 0
  Allowed c = (id : ℕ) → set_up_of c ≡ some id → MaySetUp id

  pub step-keeps : (db : Db) (c : Call) → Allowed c → k.Rel db.tables (step db c).tables
  unfolding step used
  step-keeps db (waits n) may = k.same db.tables
  step-keeps db reads may = k.same db.tables
  step-keeps db (gets_setting name) may = (Keeps-get_setting {k = k} name).at db
  step-keeps db (gets_setting_now name) may = (Keeps-get_setting_now {k = k} name).at db
  step-keeps db (gets_new_card code) may = (get_new_card-Keeps code).at db
  step-keeps db (updates_card_uid_ctr id uid ctr) may =
      (update_card_uid_ctr-Keeps id uid ctr (may id refl)).at db
  step-keeps db (checks_counter id ctr) may = (check_and_update_counter-Keeps id ctr).at db
  step-keeps db (inserts_card n) may = (insert_card-Keeps n).at db
  step-keeps db (inserts_card_with_pin n p) may = (insert_card_with_pin-Keeps n p).at db
  step-keeps db (wipes_card name) may = (wipe_card-Keeps name).at db
  step-keeps db (updates_card name enable tx day) may = (update_card-Keeps name enable tx day).at db
  step-keeps db (updates_card_with_pin name enable tx day p) may =
      (update_card_with_pin-Keeps name enable tx day p).at db
  step-keeps db (updates_card_with_part_pin name enable tx day pin limit) may =
      (update_card_with_part_pin-Keeps name enable tx day pin limit).at db
  step-keeps db (inserts_receipt id pr hash amount) may =
      (insert_receipt-Keeps id pr hash amount).at db
  step-keeps db (updates_receipt_state hash s) may = (update_receipt_state-Keeps hash s).at db
  step-keeps db (inserts_payment id k1) may = (insert_payment-Keeps id k1).at db
  step-keeps db (updates_payment_invoice id pr amount) may =
      (update_payment_invoice-Keeps id pr amount).at db
  step-keeps db (authorizes_payment id sats totals) may =
      (authorize_payment-Keeps id sats totals).at db
  step-keeps db (fails_payment id reason) may = (fail_payment-Keeps id reason).at db
  step-keeps db (releases_payment id reason) may = (release_payment-Keeps id reason).at db
  step-keeps db (updates_payment_status id s reason) may =
      (update_payment_status-Keeps id s reason).at db
  step-keeps db (updates_payment_ntfy id flag) may = (update_payment_ntfy-Keeps id flag).at db
  step-keeps db (creates_ntfy_token random id) may =
      (create_payment_ntfy_token-Keeps random id).at db
  step-keeps db (approves_by_token token flag) may =
      (approve_payment_by_token-Keeps token flag).at db

  pub run-keeps : (db : Db) (cs : List Call) → All Allowed cs → k.Rel db.tables (run db cs).tables
  unfolding run
  run-keeps db [] may = k.same db.tables
  run-keeps db (c ∷ cs) may =
      k.trans db.tables _ _ (step-keeps db c may.0) (run-keeps (step db c) cs may.1)
