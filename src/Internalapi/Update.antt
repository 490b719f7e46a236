-- ===== src/Internalapi/Update.antt =====
-- `Updateboltcard` and `Updateboltcardwithpin` of internalapi.
use boltcard.Prelude.{ℕ, Bool, not, ◌||◌, ◌&&◌, [], ◌==◌, if◌then◌else◌}
use boltcard.Prelude.Int.{ℤ}
use boltcard.Text.{Text, text_eq}
use boltcard.Http.{Request, get_param}
use boltcard.Db.Schema.{message}
use boltcard.Db.Monad.{M, ◌>>=◌, ◌>>◌}
use boltcard.Db.Cards.{get_card_name_count}
use boltcard.Db.CardWrites.{update_card, update_card_with_pin, update_card_with_part_pin}
use boltcard.Lnurlw.Tap.{ensure, or_message}
use boltcard.Internalapi.{enabled, int_param, bool_param, name_param}
use boltcard.Internalapi.Validate.{limit_valid, pin_valid}

unfoldable pub updateboltcard : (ℕ → Bool) → Request → M (Unit {0})
updateboltcard is_print r = do
  enabled "updateboltcard: internal API function is not enabled"
  enable_flag ← bool_param r "enable" "updateboltcard: enable is not a valid boolean"
  tx_max ← int_param r "tx_max" "updateboltcard: tx_max is not a valid integer"
  day_max ← int_param r "day_max" "updateboltcard: day_max is not a valid integer"
  ensure (limit_valid tx_max && limit_valid day_max)
      (message "updateboltcard: tx_max and day_max must not be negative")
  card_name ←
      name_param is_print r
        "updateboltcard: the card name must be set and be at most 100 printable characters"
  card_count ←
      or_message (get_card_name_count card_name) "updateboltcard: the card could not be read"
  ensure (not (card_count == 0))
      (message "updateboltcard: the card name does not exist in the database")
  or_message (update_card card_name enable_flag tx_max day_max)
      "updateboltcard: the card could not be updated"

-- With no PIN given, the PIN stays.
unfoldable pub write_pin : Text → Bool → ℤ → ℤ → Bool → Text → ℤ → M (Unit {0})
unfolding text_eq
write_pin card_name enable_flag tx_max day_max pin_enable_flag pin_number pin_limit_sats =
    if text_eq pin_number []
    then update_card_with_part_pin card_name enable_flag tx_max day_max pin_enable_flag
        pin_limit_sats
    else update_card_with_pin card_name enable_flag tx_max day_max (record {
      pin_enable = pin_enable_flag;
      pin_number = pin_number;
      pin_limit_sats = pin_limit_sats;
    })

unfoldable pub updateboltcardwithpin : (ℕ → Bool) → Request → M (Unit {0})
unfolding write_pin text_eq
updateboltcardwithpin is_print r = do
  enabled "updateboltcardwithpin: internal API function is not enabled"
  enable_flag ← bool_param r "enable" "updateboltcardwithpin: enable is not a valid boolean"
  tx_max ← int_param r "tx_max" "updateboltcardwithpin: tx_max is not a valid integer"
  day_max ← int_param r "day_max" "updateboltcardwithpin: day_max is not a valid integer"
  pin_enable_flag ←
      bool_param r "enable_pin" "updateboltcardwithpin: enable_pin is not a valid boolean"
  ensure (limit_valid tx_max && limit_valid day_max)
      (message "updateboltcardwithpin: tx_max and day_max must not be negative")
  let pin_number = get_param "pin_number" r
  ensure (text_eq pin_number [] || pin_valid pin_number)
      (message "updateboltcardwithpin: pin_number must be four digits")
  pin_limit_sats ←
      int_param r "pin_limit_sats" "updateboltcardwithpin: pin_limit_sats is not a valid integer"
  ensure (limit_valid pin_limit_sats)
      (message "updateboltcardwithpin: pin_limit_sats must not be negative")
  card_name ←
      name_param is_print r
        "updateboltcardwithpin: the card name must be set and be at most 100 printable characters"
  card_count ←
      or_message (get_card_name_count card_name) "updateboltcardwithpin: the card could not be read"
  ensure (not (card_count == 0))
      (message "updateboltcardwithpin: the card name does not exist in the database")
  or_message
      (write_pin card_name enable_flag tx_max day_max pin_enable_flag pin_number pin_limit_sats)
      "updateboltcardwithpin: the card could not be updated"
