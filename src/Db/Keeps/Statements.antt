-- ===== src/Db/Keeps/Statements.antt =====
-- What a relation has to satisfy at the statements of db/db.go, and the actions that run one.
use boltcard.Prelude.{ℕ, ◌≡◌, Bool, String}
use boltcard.Prelude.Int.{ℤ}
use boltcard.Text.{Text}
use boltcard.Db.Schema.{CardRow}
use boltcard.Db.Monad.{exec}
use boltcard.Db.Keeps.{
  Preserved, Keeps, Respects, Respects-checked, Keeps-exec, Keeps-if, Keeps-pure, Keeps-raise,
  keeps_rules,
}
use boltcard.Db.Keeps.Settings.{Keeps-get_setting, Keeps-get_setting_now}
use boltcard.Db.Cards.{use_one_time_code_sql, update_card_uid_ctr_sql, counter_sql}
use boltcard.Db.CardWrites.{
  NewCard, Pin, wipe_sql, insert_card_sql, update_card_sql, update_pin_sql,
}
use boltcard.Db.Receipts.{insert_receipt_sql, update_receipt_state_sql}
use boltcard.Db.Payments.{
  insert_payment_sql, update_payment_invoice_sql, fail_payment_sql, release_payment_sql,
  update_payment_status_sql,
}
use boltcard.Db.Approvals.{
  update_payment_ntfy_sql, create_payment_ntfy_token_sql, approve_payment_by_token_sql,
}
use boltcard.Db.Authorize.{claim_sql}

-- Every statement respects the relation, the set-up of a card where the card may be set up.
pub record Lawful (k : Preserved) (MaySetUp : ℕ → Type 0) : Type 0 where
  pub use_code_law : (code : Text) → Respects k (use_one_time_code_sql code)
  pub uid_ctr_law :
      (id : ℕ) (uid : Text) (ctr : ℕ)
      → MaySetUp id
      → Respects k (update_card_uid_ctr_sql id uid ctr)
  pub counter_law : (id ctr : ℕ) → Respects k (counter_sql id ctr)
  pub wipe_law : (name : Text) → Respects k (wipe_sql name)
  pub insert_card_law : (n : NewCard) (p : Pin) → Respects k (insert_card_sql n p)
  pub update_card_law :
      (name : Text) (enable : Bool) (tx day : ℤ) → Respects k (update_card_sql name enable tx day)
  pub update_pin_law :
      (name : Text) (enable : Bool) (tx day : ℤ) (fits : Bool) (set_pin : CardRow → CardRow)
      → ((c : CardRow) → (set_pin c).card_id ≡ c.card_id)
      → ((c : CardRow) → (set_pin c).last_counter_value ≡ c.last_counter_value)
      → Respects k (update_pin_sql name enable tx day fits set_pin)
  pub insert_receipt_law :
      (id : ℕ) (pr hash : Text) (amount : ℕ) → Respects k (insert_receipt_sql id pr hash amount)
  pub receipt_state_law : (hash : Text) (s : String) → Respects k (update_receipt_state_sql hash s)
  pub insert_payment_law : (id : ℕ) (k1 : Text) → Respects k (insert_payment_sql id k1)
  pub invoice_law :
      (id : ℕ) (pr : Text) (amount : ℕ) → Respects k (update_payment_invoice_sql id pr amount)
  pub claim_law : (id : ℕ) → Respects k (claim_sql id)
  pub fail_law : (id : ℕ) (reason : String) → Respects k (fail_payment_sql id reason)
  pub release_law : (id : ℕ) (reason : String) → Respects k (release_payment_sql id reason)
  pub status_law : (id : ℕ) (s reason : String) → Respects k (update_payment_status_sql id s reason)
  pub ntfy_law : (id flag : ℕ) → Respects k (update_payment_ntfy_sql id flag)
  pub token_law : (id : ℕ) (token : Text) → Respects k (create_payment_ntfy_token_sql id token)
  pub approve_law : (token : Text) (flag : ℕ) → Respects k (approve_payment_by_token_sql token flag)

module _ {k : Preserved} {MaySetUp : ℕ → Type 0} (laws : Lawful k MaySetUp) where
  open laws use {
    use_code_law, uid_ctr_law, counter_law, wipe_law, insert_card_law, update_card_law,
    update_pin_law, insert_receipt_law, receipt_state_law, insert_payment_law, invoice_law,
    claim_law, fail_law, release_law, status_law, ntfy_law, token_law, approve_law,
  }

  pub use_code-Keeps : (code : Text) → Keeps k (exec (use_one_time_code_sql code))
  use_code-Keeps code = Keeps-exec _ (use_code_law code)

  pub uid_ctr-Keeps :
      (id : ℕ) (uid : Text) (ctr : ℕ)
      → MaySetUp id
      → Keeps k (exec (update_card_uid_ctr_sql id uid ctr))
  uid_ctr-Keeps id uid ctr may = Keeps-exec _ (uid_ctr_law id uid ctr may)

  pub counter-Keeps : (id ctr : ℕ) → Keeps k (exec (counter_sql id ctr))
  counter-Keeps id ctr = Keeps-exec _ (counter_law id ctr)

  pub wipe-Keeps : (name : Text) → Keeps k (exec (wipe_sql name))
  wipe-Keeps name = Keeps-exec _ (wipe_law name)

  pub insert_card-Keeps : (n : NewCard) (p : Pin) → Keeps k (exec (insert_card_sql n p))
  insert_card-Keeps n p = Keeps-exec _ (insert_card_law n p)

  pub update_card-Keeps :
      (name : Text) (enable : Bool) (tx day : ℤ)
      → Keeps k (exec (update_card_sql name enable tx day))
  update_card-Keeps name enable tx day = Keeps-exec _ (update_card_law name enable tx day)

  pub update_pin-Keeps :
      (name : Text) (enable : Bool) (tx day : ℤ) (fits : Bool) (set_pin : CardRow → CardRow)
      → ((c : CardRow) → (set_pin c).card_id ≡ c.card_id)
      → ((c : CardRow) → (set_pin c).last_counter_value ≡ c.last_counter_value)
      → Keeps k (exec (update_pin_sql name enable tx day fits set_pin))
  update_pin-Keeps name enable tx day fits set_pin same counter =
      Keeps-exec _ (update_pin_law name enable tx day fits set_pin same counter)

  pub insert_receipt-Keeps :
      (id : ℕ) (pr hash : Text) (amount : ℕ) → Keeps k (exec (insert_receipt_sql id pr hash amount))
  insert_receipt-Keeps id pr hash amount = Keeps-exec _ (insert_receipt_law id pr hash amount)

  pub receipt_state-Keeps :
      (hash : Text) (s : String) → Keeps k (exec (update_receipt_state_sql hash s))
  receipt_state-Keeps hash s = Keeps-exec _ (receipt_state_law hash s)

  pub insert_payment-Keeps : (id : ℕ) (k1 : Text) → Keeps k (exec (insert_payment_sql id k1))
  insert_payment-Keeps id k1 = Keeps-exec _ (insert_payment_law id k1)

  pub invoice-Keeps :
      (id : ℕ) (pr : Text) (amount : ℕ) → Keeps k (exec (update_payment_invoice_sql id pr amount))
  invoice-Keeps id pr amount = Keeps-exec _ (invoice_law id pr amount)

  pub claim-Keeps : (id : ℕ) → Keeps k (exec (claim_sql id))
  claim-Keeps id = Keeps-exec _ (claim_law id)

  pub fail-Keeps : (id : ℕ) (reason : String) → Keeps k (exec (fail_payment_sql id reason))
  fail-Keeps id reason = Keeps-exec _ (fail_law id reason)

  pub release-Keeps : (id : ℕ) (reason : String) → Keeps k (exec (release_payment_sql id reason))
  release-Keeps id reason = Keeps-exec _ (release_law id reason)

  pub status-Keeps :
      (id : ℕ) (s reason : String) → Keeps k (exec (update_payment_status_sql id s reason))
  status-Keeps id s reason = Keeps-exec _ (status_law id s reason)

  pub ntfy-Keeps : (id flag : ℕ) → Keeps k (exec (update_payment_ntfy_sql id flag))
  ntfy-Keeps id flag = Keeps-exec _ (ntfy_law id flag)

  pub token-Keeps :
      (id : ℕ) (token : Text) → Keeps k (exec (create_payment_ntfy_token_sql id token))
  token-Keeps id token = Keeps-exec _ (token_law id token)

  pub approve-Keeps :
      (token : Text) (flag : ℕ) → Keeps k (exec (approve_payment_by_token_sql token flag))
  approve-Keeps token flag = Keeps-exec _ (approve_law token flag)

  pub ruleset exec_rules = (
    keeps_rules, use_code-Keeps, counter-Keeps, wipe-Keeps, insert_card-Keeps, update_card-Keeps,
    insert_receipt-Keeps, receipt_state-Keeps, insert_payment-Keeps, invoice-Keeps, claim-Keeps,
    fail-Keeps, release-Keeps, status-Keeps, ntfy-Keeps, token-Keeps, approve-Keeps,
    Keeps-get_setting,
  )
