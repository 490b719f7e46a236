-- ===== src/Internalapi/Params.antt =====
-- What the parameters of the internal API are where a function goes on behind them.
use boltcard.Prelude.{ℕ, ◌≡◌, refl, Bool, true, ◌&&◌, some, String}
use boltcard.Text.{codes, text_eq}
use boltcard.Text.Numbers.{atoi, parse_bool}
use boltcard.Http.{Request, get_param}
use boltcard.Db.Schema.{Tables, message}
use boltcard.Db.CardWrites.{Pin}
use boltcard.Db.Hoare.{Reads, Ensures-pure, Ensures-read, Ensures-weaken}
use boltcard.Db.Hoare.Calls.{Reads-get_setting, Reads-ensure, Reads-or_raise}
use boltcard.Internalapi.{enabled, int_param, bool_param, name_param}
use boltcard.Internalapi.Validate.{card_name_valid, limit_valid, pin_valid}
use boltcard.Internalapi.Create.{CardParams, Reasons, card_params, pin_params}

module _ {now : ℕ} {t : Tables} where
  pub Reads-enabled : (text : String) → Reads now t (enabled text) (λ _. Unit {0})
  unfolding enabled
  Reads-enabled text = Ensures-read _ _ (Reads-get_setting _) λ value _.
      Ensures-weaken _ (λ _ t' (same, _). (same, tt))
        (Reads-ensure (text_eq value (codes "ENABLE")) (message text))

  pub Reads-int_param :
      (r : Request) (name text : String)
      → Reads now t (int_param r name text) (λ n. atoi (get_param name r) ≡ some n)
  unfolding int_param
  Reads-int_param r name text = Reads-or_raise (atoi (get_param name r)) (message text)

  pub Reads-bool_param :
      (r : Request) (name text : String)
      → Reads now t (bool_param r name text) (λ b. parse_bool (get_param name r) ≡ some b)
  unfolding bool_param
  Reads-bool_param r name text = Reads-or_raise (parse_bool (get_param name r)) (message text)

  pub Reads-name_param :
      (is_print : ℕ → Bool) (r : Request) (text : String)
      → Reads now t
          (name_param is_print r text)
          (λ name. (name ≡ get_param "card_name" r) × (card_name_valid is_print name ≡ true))
  unfolding name_param
  Reads-name_param is_print r text =
      Ensures-read _ _
        (Reads-ensure (card_name_valid is_print (get_param "card_name" r)) (message text))
        λ _ valid. Ensures-pure _ (refl, (refl, valid))

-- What the parameters of a new card say.
pub record SaysCard (is_print : ℕ → Bool) (r : Request) (p : CardParams) : Type 0 where
  pub tx_max : atoi (get_param "tx_max" r) ≡ some p.tx_max
  pub day_max : atoi (get_param "day_max" r) ≡ some p.day_max
  pub enable : parse_bool (get_param "enable" r) ≡ some p.enable_flag
  pub limits : (limit_valid p.tx_max && limit_valid p.day_max) ≡ true
  pub name : p.card_name ≡ get_param "card_name" r
  pub name_ok : card_name_valid is_print p.card_name ≡ true

pub Reads-card_params :
    {now : ℕ} {t : Tables} (is_print : ℕ → Bool) (why : Reasons) (r : Request)
    → Reads now t (card_params is_print why r) (SaysCard is_print r)
unfolding card_params
Reads-card_params is_print why r = Ensures-read _ _ (Reads-enabled _) λ _ _.
    Ensures-read _ _ (Reads-int_param r _ _) λ tx_max tx.
      Ensures-read _ _ (Reads-int_param r _ _) λ day_max day.
        Ensures-read _ _ (Reads-bool_param r _ _) λ on enable.
          Ensures-read _ _
            (Reads-ensure (limit_valid tx_max && limit_valid day_max) (message why.negative))
            λ _ limits. Ensures-read _ _ (Reads-name_param is_print r _) λ name (named, name_ok).
              Ensures-read _ _ (Reads-bool_param r _ _) λ privacy _.
                Ensures-read _ _ (Reads-bool_param r _ _) λ negative _. Ensures-pure _ (
                  refl,
                  record {
                    tx_max = tx;
                    day_max = day;
                    enable = enable;
                    limits = limits;
                    name = named;
                    name_ok = name_ok;
                  },
                )

-- What the parameters of a PIN say.
pub record SaysPin (r : Request) (p : Pin) : Type 0 where
  pub pin_enable : parse_bool (get_param "enable_pin" r) ≡ some p.pin_enable
  pub pin_number : pin_valid p.pin_number ≡ true
  pub pin_limit : atoi (get_param "pin_limit_sats" r) ≡ some p.pin_limit_sats
  pub pin_limit_ok : limit_valid p.pin_limit_sats ≡ true

pub Reads-pin_params : {now : ℕ} {t : Tables} (r : Request) → Reads now t (pin_params r) (SaysPin r)
unfolding pin_params
Reads-pin_params r = Ensures-read _ _ (Reads-bool_param r _ _) λ on enable.
    Ensures-read _ _
      (Reads-ensure (pin_valid (get_param "pin_number" r))
        (message "createboltcardwithpin: pin_number must be four digits"))
      λ _ number. Ensures-read _ _ (Reads-int_param r _ _) λ limit is_limit.
        Ensures-read _ _
          (Reads-ensure (limit_valid limit)
            (message "createboltcardwithpin: pin_limit_sats must not be negative"))
          λ _ limit_ok. Ensures-pure _ (
            refl,
            record {
              pin_enable = enable;
              pin_number = number;
              pin_limit = is_limit;
              pin_limit_ok = limit_ok;
            },
          )
