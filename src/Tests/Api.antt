-- ===== src/Tests/Api.antt =====
-- The theorems on the internal API at concrete inputs.
use boltcard.Prelude.{
  ℕ, ◌≡◌, ◌↔◌, refl, ◌∷◌, List, [], none, some, true, false, Bool, length, All, String,
}
use boltcard.Text.{Text, codes, text_eq, has_suffix, fits, excess, all_blank, cut, characters}
use boltcard.Text.Hex.{encode_to_string}
use boltcard.Text.Numbers.{
  atoi, parse_bool, itoa, is_digit, in_int64, digits, magnitude, positive, negative, one_of,
  written,
}
use boltcard.Text.Runes.{runes, runes_after, first_rune}
use boltcard.Http.{Request, get_param, first_value}
use boltcard.Db.Schema.{Db}
use boltcard.Db.Monad.{ok, open_db, query, exec, checked}
use boltcard.Db.Rows.{select_row, update_rows}
use boltcard.Db.Settings.{get_setting, held, find_entry, read_setting, lookup_setting}
use boltcard.Db.CardWrites.{insert_card_with_pin, insert_card_sql, new_row, wipe_sql, fits_columns}
use boltcard.Db.Cards.{get_card_from_card_name}
use boltcard.Internalapi.{CardAnswer, enabled, int_param, bool_param, name_param, getboltcard}
use boltcard.Internalapi.Validate.{
  pin_valid, pin_valid_iff, IsDigits, all_digits, card_name_valid, all_printable, limit_valid,
}
use boltcard.Internalapi.Create.{
  Draws, createboltcardwithpin, card_params, pin_params, new_card_of, new_card_url,
}
use boltcard.Internalapi.RoundTrip.{create_then_get, AnswersParams}
use boltcard.Internalapi.Limits.{served, served-LimitsValid, creates_with_pin, updates, wipes}
use boltcard.Internalapi.Limits.Writes.{LimitsValid}
use boltcard.Tests.{example_db}

pin_valid_iff_example :
    (pin_valid (codes "0420") ≡ true) ↔ ((length (codes "0420") ≡ 4) × IsDigits (codes "0420"))
pin_valid_iff_example = pin_valid_iff (codes "0420")

abbrev api_db : Db
api_db = record example_db {
  tables = record example_db.tables {
    settings = ("FUNCTION_INTERNAL_API", codes "ENABLE") ∷ example_db.tables.settings;
  };
}

abbrev no_print : ℕ → Bool
no_print r = false

abbrev request_with : List (String × Text) → Request
request_with params = record {
  host = codes "localhost";
  remote_addr = codes "127.0.0.1";
  params = params;
  headers = [];
}

abbrev create_request : Request
create_request = request_with (
    ("card_name", codes "red card")
    ∷ ("tx_max", codes "+500")
    ∷ ("day_max", codes "0900")
    ∷ ("enable", codes "true")
    ∷ ("uid_privacy", codes "F")
    ∷ ("allow_neg_bal", codes "0")
    ∷ ("enable_pin", codes "1")
    ∷ ("pin_number", codes "0420")
    ∷ ("pin_limit_sats", codes "7")
    ∷ [])

abbrev named_request : Request
named_request = request_with (("card_name", codes "red card") ∷ [])

abbrev drawn : Draws
drawn = record {
  one_time_code = some (codes "0123456789abcdef");
  k0_auth_key = some (codes "0123456789abcdef");
  k2_cmac_key = none;
  k3 = some (codes "0123456789abcdef");
  k4 = some (codes "0123456789abcdef");
}

abbrev got : CardAnswer
got = record {
  uid = [];
  lnurlw_enable = b'Y';
  tx_limit_sats = codes "500";
  day_limit_sats = codes "900";
  pin_enable = b'Y';
  pin_limit_sats = codes "7";
}

abbrev created_url : Text
created_url = codes "https://card.example/new?a=30313233343536373839616263646566"

made : (createboltcardwithpin no_print drawn create_request api_db).0 ≡ ok created_url
unfolding fits_columns fits excess all_blank cut characters is_digit in_int64 createboltcardwithpin
    card_params pin_params enabled int_param bool_param name_param card_name_valid all_printable
    runes runes_after first_rune get_param first_value get_setting held find_entry read_setting
    lookup_setting open_db query exec atoi digits magnitude positive negative one_of parse_bool
    limit_valid pin_valid all_digits insert_card_with_pin insert_card_sql new_row wipe_sql checked
    new_card_of new_card_url encode_to_string has_suffix text_eq
made = refl

got_again :
    (getboltcard no_print named_request
      (createboltcardwithpin no_print drawn create_request api_db).1).0
    ≡ ok got
unfolding fits_columns fits excess all_blank cut characters is_digit in_int64 createboltcardwithpin
    card_params pin_params enabled int_param bool_param name_param card_name_valid all_printable
    runes runes_after first_rune get_param first_value get_setting held find_entry read_setting
    lookup_setting open_db query exec atoi digits magnitude positive negative one_of parse_bool
    limit_valid pin_valid all_digits insert_card_with_pin insert_card_sql new_row wipe_sql checked
    new_card_of new_card_url encode_to_string has_suffix text_eq getboltcard get_card_from_card_name
    itoa written select_row update_rows
got_again = refl

create_then_get_example : AnswersParams create_request got
create_then_get_example =
    create_then_get no_print drawn create_request named_request created_url got api_db
      (unfold get_param first_value in refl) made got_again

abbrev update_request : Request
update_request = request_with (
    ("card_name", codes "red card")
    ∷ ("tx_max", codes "-500")
    ∷ ("day_max", codes "900")
    ∷ ("enable", codes "true")
    ∷ [])

served-LimitsValid_example :
    All LimitsValid
      (served no_print
        ((creates_with_pin drawn, create_request)
          ∷ (updates, update_request)
          ∷ (wipes, named_request)
          ∷ [])
        api_db).tables.cards
unfolding limit_valid
served-LimitsValid_example = served-LimitsValid no_print _ _ ((refl, refl, refl), tt)
