-- ===== src/Db/Calls.antt =====
-- Histories of the database: the calls of db/db.go that change a table, made in any order by any
-- number of requests, and the passing of time.
use boltcard.Prelude.{ℕ, ◌+◌, List, [], ◌∷◌, Option, Bool, false, ◌&&◌, String, ◌==◌, if◌then◌else◌}
use boltcard.Prelude.Int.{ℤ}
use boltcard.Text.{Text}
use boltcard.Db.Schema.{Db}
use boltcard.Db.Monad.{Result, ok, err, used}
use boltcard.Db.Settings.{get_setting, get_setting_now}
use boltcard.Db.Cards.{get_new_card, update_card_uid_ctr, check_and_update_counter}
use boltcard.Db.CardWrites.{
  NewCard, Pin, insert_card, insert_card_with_pin, wipe_card, update_card, update_card_with_pin,
  update_card_with_part_pin,
}
use boltcard.Db.Receipts.{insert_receipt, update_receipt_state}
use boltcard.Db.Payments.{
  insert_payment, update_payment_invoice, fail_payment, release_payment, update_payment_status,
}
use boltcard.Db.Approvals.{update_payment_ntfy, create_payment_ntfy_token, approve_payment_by_token}
use boltcard.Db.Authorize.{authorize_payment}

pub data Call : Type 0 where
  waits : ℕ → Call
  -- a query of the tables
  reads : Call
  gets_setting : String → Call
  gets_setting_now : String → Call
  gets_new_card : Text → Call
  updates_card_uid_ctr : ℕ → Text → ℕ → Call
  checks_counter : ℕ → ℕ → Call
  inserts_card : NewCard → Call
  inserts_card_with_pin : NewCard → Pin → Call
  wipes_card : Text → Call
  updates_card : Text → Bool → ℤ → ℤ → Call
  updates_card_with_pin : Text → Bool → ℤ → ℤ → Pin → Call
  updates_card_with_part_pin : Text → Bool → ℤ → ℤ → Bool → ℤ → Call
  inserts_receipt : ℕ → Text → Text → ℕ → Call
  updates_receipt_state : Text → String → Call
  inserts_payment : ℕ → Text → Call
  updates_payment_invoice : ℕ → Text → ℕ → Call
  authorizes_payment : ℕ → ℕ → Bool → Call
  fails_payment : ℕ → String → Call
  releases_payment : ℕ → String → Call
  updates_payment_status : ℕ → String → String → Call
  updates_payment_ntfy : ℕ → ℕ → Call
  creates_ntfy_token : Option Text → ℕ → Call
  approves_by_token : Text → ℕ → Call

unfoldable pub wait : ℕ → Db → Db
wait n db = record db { now = db.now + n }

-- The state after a call.
unfoldable pub step : Db → Call → Db
unfolding wait
step db (waits n) = wait n db
step db reads = used db
step db (gets_setting name) = (get_setting name db).1
step db (gets_setting_now name) = (get_setting_now name db).1
step db (gets_new_card code) = (get_new_card code db).1
step db (updates_card_uid_ctr id uid ctr) = (update_card_uid_ctr id uid ctr db).1
step db (checks_counter id ctr) = (check_and_update_counter id ctr db).1
step db (inserts_card n) = (insert_card n db).1
step db (inserts_card_with_pin n p) = (insert_card_with_pin n p db).1
step db (wipes_card name) = (wipe_card name db).1
step db (updates_card name enable tx day) = (update_card name enable tx day db).1
step db (updates_card_with_pin name enable tx day p) =
    (update_card_with_pin name enable tx day p db).1
step db (updates_card_with_part_pin name enable tx day pin limit) =
    (update_card_with_part_pin name enable tx day pin limit db).1
step db (inserts_receipt id pr hash amount) = (insert_receipt id pr hash amount db).1
step db (updates_receipt_state hash s) = (update_receipt_state hash s db).1
step db (inserts_payment id k1) = (insert_payment id k1 db).1
step db (updates_payment_invoice id pr amount) = (update_payment_invoice id pr amount db).1
step db (authorizes_payment id sats totals) = (authorize_payment id sats totals db).1
step db (fails_payment id reason) = (fail_payment id reason db).1
step db (releases_payment id reason) = (release_payment id reason db).1
step db (updates_payment_status id s reason) = (update_payment_status id s reason db).1
step db (updates_payment_ntfy id flag) = (update_payment_ntfy id flag db).1
step db (creates_ntfy_token random id) = (create_payment_ntfy_token random id db).1
step db (approves_by_token token flag) = (approve_payment_by_token token flag db).1

unfoldable pub run : Db → List Call → Db
run db [] = db
run db (c ∷ cs) = run (step db c) cs

-- `Authorize_payment` returned `true`, so that its caller sends the payment.
abbrev pub authorized : Result (Bool × String) → Bool
authorized (ok (answer, reason)) = answer
authorized (err e) = false

unfoldable pub claims_at : ℕ → Db → Call → ℕ
claims_at id db (authorizes_payment other sats totals) =
    if other == id && authorized (authorize_payment other sats totals db).0 then 1 else 0
claims_at id db _ = 0

-- How often a history authorizes the payment `id`.
unfoldable pub claims : ℕ → Db → List Call → ℕ
unfolding claims_at
claims id db [] = 0
claims id db (c ∷ cs) = claims_at id db c + claims id (step db c) cs
