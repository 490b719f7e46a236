-- ===== src/Internalapi.antt =====
-- The package internalapi: the functions that create, read, update and wipe cards. Each reads its
-- parameters in the order of the code and stops at the first that is not valid, with the reason as
-- its error, which `resp_err.Write_message` puts in the answer.
pub mod Validate
pub mod Create
pub mod Update
pub mod Params
pub mod Keeps
pub mod Limits
pub mod RoundTrip
use boltcard.Prelude.{
  ℕ, ◌++◌, Bool, true, false, not, ◌||◌, List, [], Option, none, some, String, ◌==◌, if◌then◌else◌,
}
use boltcard.Prelude.Int.{ℤ, pos, negsuc}
use boltcard.Text.{Text, codes, text_eq}
use boltcard.Text.Numbers.{atoi, parse_bool, itoa}
use boltcard.Http.{Request, get_param}
use boltcard.Db.Schema.{Card, CardWipeInfo, message}
use boltcard.Db.Monad.{ok, M, pure, ◌>>=◌, ◌>>◌, open_db, exec, expect_one}
use boltcard.Db.Settings.{get_setting}
use boltcard.Db.Cards.{get_card_from_card_name}
use boltcard.Db.CardWrites.{wipe_card}
use boltcard.Db.Approvals.{update_payment_ntfy}
use boltcard.Lnurlw.Tap.{or_raise, ensure, or_message}
use Validate.{card_name_valid}

-- if db.Get_setting("FUNCTION_INTERNAL_API") != "ENABLE"
unfoldable pub enabled : String → M (Unit {0})
unfolding text_eq
enabled text = do
  value ← get_setting "FUNCTION_INTERNAL_API"
  ensure (text_eq value (codes "ENABLE")) (message text)

unfoldable pub int_param : Request → String → String → M ℤ
int_param r name text = or_raise (atoi (get_param name r)) (message text)

unfoldable pub bool_param : Request → String → String → M Bool
bool_param r name text = or_raise (parse_bool (get_param name r)) (message text)

-- The parameter card_name, where it is valid. `is_print` is `unicode.IsPrint` beyond Latin-1.
unfoldable pub name_param : (ℕ → Bool) → Request → String → M Text
name_param is_print r text =
    ensure (card_name_valid is_print (get_param "card_name" r)) (message text)
    >> pure (get_param "card_name" r)

-- The values that the JSON of `Getboltcard` prints.
pub record CardAnswer : Type 0 where
  pub uid : Text
  pub lnurlw_enable : ℕ
  pub tx_limit_sats : Text
  pub day_limit_sats : Text
  pub pin_enable : ℕ
  pub pin_limit_sats : Text

card_answer : Card → CardAnswer
card_answer c = record {
  uid = c.db_uid;
  lnurlw_enable = c.lnurlw_enable;
  tx_limit_sats = itoa c.tx_limit_sats;
  day_limit_sats = itoa c.day_limit_sats;
  pin_enable = c.pin_enable;
  pin_limit_sats = itoa c.pin_limit_sats;
}

unfoldable pub getboltcard : (ℕ → Bool) → Request → M CardAnswer
unfolding card_answer
getboltcard is_print r = do
  enabled "getboltcard: internal API function is not enabled"
  card_name ←
      name_param is_print r
        "getboltcard: the card name must be set and be at most 100 printable characters"
  c ←
      or_message (get_card_from_card_name card_name)
        "getboltcard: a non-wiped card with the card_name does not exist in the database"
  pure (card_answer c)

unfoldable pub wipeboltcard : (ℕ → Bool) → Request → M CardWipeInfo
wipeboltcard is_print r = do
  enabled "wipeboltcard: internal API function is not enabled"
  card_name ←
      name_param is_print r
        "wipeboltcard: the card name must be set and be at most 100 printable characters"
  or_message (wipe_card card_name) "wipeboltcard: the card could not be wiped"

-- Y or N, as the flag that is stored.
unfoldable pub flag_param : Request → M ℕ
unfolding text_eq
flag_param r =
    let ntfy_flag = get_param "approve" r in
    if text_eq ntfy_flag (codes "Y")
    then pure b'Y'
    else ensure (text_eq ntfy_flag (codes "N"))
        (message "updateboltcardpayment: approve must be Y or N")
      >> pure b'N'

-- No row has a negative id.
unfoldable pub update_any_payment_ntfy : ℤ → ℕ → M (Unit {0})
update_any_payment_ntfy (pos pay_id) ntfy_flag = update_payment_ntfy pay_id ntfy_flag
update_any_payment_ntfy (negsuc n) ntfy_flag = do
  open_db
  count ← exec (λ now t. ok (t, 0))
  expect_one "not one card_payments record updated" count

unfoldable pub updateboltcardpayment : Request → M (Unit {0})
unfolding flag_param update_any_payment_ntfy
updateboltcardpayment r = do
  enabled "updateboltcardpayment: internal API function is not enabled"
  ntfy_flag ← flag_param r
  pay_id ← int_param r "payment_id" "updateboltcardpayment: payment_id is not a valid integer"
  or_message (update_any_payment_ntfy pay_id ntfy_flag)
      "updateboltcardpayment: the card payment could not be updated"
