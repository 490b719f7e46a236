-- ===== src/Service/Api.antt =====
-- The functions of the internal API as histories.
use boltcard.Prelude.{ℕ, ◌≡◌, refl, Bool, String}
use boltcard.Prelude.Int.{ℤ, pos, negsuc}
use boltcard.Text.{Text}
use boltcard.Http.{Request}
use boltcard.Db.Schema.{Db, Fault, fine, refused, reply_lost}
use boltcard.Db.Monad.{ok, exec, on_exec, next_fault, used}
use boltcard.Db.Calls.{reads, step}
use boltcard.Db.Runs.{Runs, Runs-call, runs_rules}
use boltcard.Db.Runs.Calls.{call_runs, update_payment_ntfy-Runs}
use boltcard.Internalapi.{
  enabled, int_param, bool_param, name_param, flag_param, update_any_payment_ntfy, getboltcard,
  wipeboltcard, updateboltcardpayment,
}
use boltcard.Internalapi.Create.{
  Draws, Reasons, card_params, pin_params, createboltcard, createboltcardwithpin,
}
use boltcard.Internalapi.Update.{write_pin, updateboltcard, updateboltcardwithpin}

enabled-Runs : (text : String) → Runs (enabled text)
unfolding enabled
enabled-Runs text = search (runs_rules, call_runs) depth 20

int_param-Runs : (r : Request) (name text : String) → Runs (int_param r name text)
unfolding int_param
int_param-Runs r name text = search (runs_rules)

bool_param-Runs : (r : Request) (name text : String) → Runs (bool_param r name text)
unfolding bool_param
bool_param-Runs r name text = search (runs_rules)

name_param-Runs :
    (is_print : ℕ → Bool) (r : Request) (text : String) → Runs (name_param is_print r text)
unfolding name_param
name_param-Runs is_print r text = search (runs_rules) depth 20

ruleset param_runs = (enabled-Runs, int_param-Runs, bool_param-Runs, name_param-Runs)

card_params-Runs :
    (is_print : ℕ → Bool) (why : Reasons) (r : Request) → Runs (card_params is_print why r)
unfolding card_params
card_params-Runs is_print why r = search (runs_rules, param_runs) depth 60

pin_params-Runs : (r : Request) → Runs (pin_params r)
unfolding pin_params
pin_params-Runs r = search (runs_rules, param_runs) depth 60

write_pin-Runs :
    (name : Text) (on : Bool) (tx day : ℤ) (pin_on : Bool) (pin : Text) (limit : ℤ)
    → Runs (write_pin name on tx day pin_on pin limit)
unfolding write_pin
write_pin-Runs name on tx day pin_on pin limit = search (runs_rules, call_runs) depth 20

-- A statement that no row satisfies.
no_row-Runs : Runs (exec (λ now t. ok (t, 0)))
unfolding exec
no_row-Runs = Runs-call _ reads λ db. unfold step in by_fault (next_fault db) (used db)
  where
    by_fault : (f : Fault) (db : Db) → db ≡ (on_exec f (ok (db.tables, 0)) db).1
    by_fault fine db = refl
    by_fault refused db = refl
    by_fault reply_lost db = refl

module _ (is_print : ℕ → Bool) (r : Request) where
  pub createboltcard-Runs : (draws : Draws) → Runs (createboltcard is_print draws r)
  unfolding createboltcard
  createboltcard-Runs draws = search (runs_rules, call_runs, card_params-Runs) depth 60

  pub createboltcardwithpin-Runs : (draws : Draws) → Runs (createboltcardwithpin is_print draws r)
  unfolding createboltcardwithpin
  createboltcardwithpin-Runs draws =
      search (runs_rules, call_runs, card_params-Runs, pin_params-Runs) depth 60

  pub getboltcard-Runs : Runs (getboltcard is_print r)
  unfolding getboltcard
  getboltcard-Runs = search (runs_rules, call_runs, param_runs) depth 60

  pub wipeboltcard-Runs : Runs (wipeboltcard is_print r)
  unfolding wipeboltcard
  wipeboltcard-Runs = search (runs_rules, call_runs, param_runs) depth 60

  pub updateboltcard-Runs : Runs (updateboltcard is_print r)
  unfolding updateboltcard
  updateboltcard-Runs = search (runs_rules, call_runs, param_runs) depth 60

  pub updateboltcardwithpin-Runs : Runs (updateboltcardwithpin is_print r)
  unfolding updateboltcardwithpin
  updateboltcardwithpin-Runs = search (runs_rules, call_runs, param_runs, write_pin-Runs) depth 60

update_any_payment_ntfy-Runs : (id : ℤ) (flag : ℕ) → Runs (update_any_payment_ntfy id flag)
unfolding update_any_payment_ntfy
update_any_payment_ntfy-Runs (pos id) flag = update_payment_ntfy-Runs id flag
update_any_payment_ntfy-Runs (negsuc id) flag = search (runs_rules, no_row-Runs) depth 20

flag_param-Runs : (r : Request) → Runs (flag_param r)
unfolding flag_param
flag_param-Runs r = search (runs_rules) depth 20

pub updateboltcardpayment-Runs : (r : Request) → Runs (updateboltcardpayment r)
unfolding updateboltcardpayment
updateboltcardpayment-Runs r =
    search (runs_rules, param_runs, flag_param-Runs, update_any_payment_ntfy-Runs) depth 60
