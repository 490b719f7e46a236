-- ===== src/Internalapi/Create.antt =====
-- `Createboltcard` and `Createboltcardwithpin` of internalapi.
use boltcard.Prelude.{ℕ, ◌++◌, Bool, ◌&&◌, [], Option, none, some, String, if◌then◌else◌}
use boltcard.Prelude.Int.{ℤ}
use boltcard.Text.{Text, codes, has_suffix}
use boltcard.Text.Hex.{encode_to_string}
use boltcard.Http.{Request, get_param}
use boltcard.Db.Schema.{message}
use boltcard.Db.Monad.{M, pure, ◌>>=◌, ◌>>◌}
use boltcard.Db.Settings.{get_setting}
use boltcard.Db.CardWrites.{NewCard, Pin, insert_card, insert_card_with_pin}
use boltcard.Lnurlw.Tap.{ensure, or_message}
use boltcard.Internalapi.{enabled, int_param, bool_param, name_param}
use boltcard.Internalapi.Validate.{limit_valid, pin_valid}

-- What the five calls of `random_hex` read: 16 bytes, or an error.
pub record Draws : Type 0 where
  pub one_time_code : Option Text
  pub k0_auth_key : Option Text
  pub k2_cmac_key : Option Text
  pub k3 : Option Text
  pub k4 : Option Text

-- The error of the source is logged, and the text is empty.
abbrev pub random_hex : Option Text → Text
random_hex none = []
random_hex (some bytes) = encode_to_string bytes

-- The parameters that both functions read, in their order.
pub record CardParams : Type 0 where
  pub tx_max : ℤ
  pub day_max : ℤ
  pub enable_flag : Bool
  pub card_name : Text
  pub uid_privacy_flag : Bool
  pub allow_neg_bal_flag : Bool

-- The reasons of the two functions, which name the function.
pub record Reasons : Type 0 where
  pub not_enabled : String
  pub tx_max : String
  pub day_max : String
  pub enable : String
  pub negative : String
  pub card_name : String
  pub uid_privacy : String
  pub allow_neg_bal : String
  pub not_created : String

unfoldable pub card_params : (ℕ → Bool) → Reasons → Request → M CardParams
card_params is_print why r = do
  enabled why.not_enabled
  tx_max ← int_param r "tx_max" why.tx_max
  day_max ← int_param r "day_max" why.day_max
  enable_flag ← bool_param r "enable" why.enable
  ensure (limit_valid tx_max && limit_valid day_max) (message why.negative)
  card_name ← name_param is_print r why.card_name
  uid_privacy_flag ← bool_param r "uid_privacy" why.uid_privacy
  allow_neg_bal_flag ← bool_param r "allow_neg_bal" why.allow_neg_bal
  pure (record {
    tx_max = tx_max;
    day_max = day_max;
    enable_flag = enable_flag;
    card_name = card_name;
    uid_privacy_flag = uid_privacy_flag;
    allow_neg_bal_flag = allow_neg_bal_flag;
  })

unfoldable pub new_card_of : CardParams → Draws → NewCard
new_card_of p d = record {
  one_time_code = random_hex d.one_time_code;
  k0_auth_key = random_hex d.k0_auth_key;
  k2_cmac_key = random_hex d.k2_cmac_key;
  k3 = random_hex d.k3;
  k4 = random_hex d.k4;
  tx_limit_sats = p.tx_max;
  day_limit_sats = p.day_max;
  lnurlw_enable = p.enable_flag;
  card_name = p.card_name;
  uid_privacy = p.uid_privacy_flag;
  allow_neg_bal = p.allow_neg_bal_flag;
}

-- The URL that the answer holds.
unfoldable pub new_card_url : Text → Text → Text
new_card_url hostdomain one_time_code =
    if has_suffix hostdomain (codes ".onion")
    then codes "http://" ++ hostdomain ++ codes "/new?a=" ++ one_time_code
    else codes "https://" ++ hostdomain ++ codes "/new?a=" ++ one_time_code

abbrev createboltcard_reasons : Reasons
createboltcard_reasons = record {
  not_enabled = "createboltcard: internal API function is not enabled";
  tx_max = "createboltcard: tx_max is not a valid integer";
  day_max = "createboltcard: day_max is not a valid integer";
  enable = "createboltcard: enable is not a valid boolean";
  negative = "createboltcard: tx_max and day_max must not be negative";
  card_name = "createboltcard: the card name must be set and be at most 100 printable characters";
  uid_privacy = "createboltcard: uid_privacy is not a valid boolean";
  allow_neg_bal = "createboltcard: allow_neg_bal is not a valid boolean";
  not_created = "createboltcard: the card could not be created";
}

unfoldable pub createboltcard : (ℕ → Bool) → Draws → Request → M Text
unfolding new_card_of
createboltcard is_print draws r = do
  p ← card_params is_print createboltcard_reasons r
  or_message (insert_card (new_card_of p draws)) createboltcard_reasons.not_created
  hostdomain ← get_setting "HOST_DOMAIN"
  pure (new_card_url hostdomain (random_hex draws.one_time_code))

abbrev createboltcardwithpin_reasons : Reasons
createboltcardwithpin_reasons = record {
  not_enabled = "createboltcardwithpin: internal API function is not enabled";
  tx_max = "createboltcardwithpin: tx_max is not a valid integer";
  day_max = "createboltcardwithpin: day_max is not a valid integer";
  enable = "createboltcardwithpin: enable is not a valid boolean";
  negative = "createboltcardwithpin: tx_max and day_max must not be negative";
  card_name =
      "createboltcardwithpin: the card name must be set and be at most 100 printable characters";
  uid_privacy = "createboltcardwithpin: uid_privacy is not a valid boolean";
  allow_neg_bal = "createboltcardwithpin: allow_neg_bal is not a valid boolean";
  not_created = "createboltcardwithpin: the card could not be created";
}

-- The parameters of the PIN.
unfoldable pub pin_params : Request → M Pin
pin_params r = do
  pin_enable_flag ←
      bool_param r "enable_pin" "createboltcardwithpin: enable_pin is not a valid boolean"
  let pin_number = get_param "pin_number" r
  ensure (pin_valid pin_number) (message "createboltcardwithpin: pin_number must be four digits")
  pin_limit_sats ←
      int_param r "pin_limit_sats" "createboltcardwithpin: pin_limit_sats is not a valid integer"
  ensure (limit_valid pin_limit_sats)
      (message "createboltcardwithpin: pin_limit_sats must not be negative")
  pure (record {
    pin_enable = pin_enable_flag;
    pin_number = pin_number;
    pin_limit_sats = pin_limit_sats;
  })

unfoldable pub createboltcardwithpin : (ℕ → Bool) → Draws → Request → M Text
unfolding new_card_of
createboltcardwithpin is_print draws r = do
  p ← card_params is_print createboltcardwithpin_reasons r
  pin ← pin_params r
  or_message (insert_card_with_pin (new_card_of p draws) pin)
      createboltcardwithpin_reasons.not_created
  hostdomain ← get_setting "HOST_DOMAIN"
  pure (new_card_url hostdomain (random_hex draws.one_time_code))
