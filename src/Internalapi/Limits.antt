-- ===== src/Internalapi/Limits.antt =====
-- No function of the internal API gives a card a negative limit.
pub mod Writes
use boltcard.Prelude.{
  ℕ, ◌≡◌, refl, sym, Bool, true, false, not, ◌&&◌, ◌||◌, List, [], ◌∷◌, Option, none, some, String,
  ◌==◌, arith, All, if◌then◌else◌,
}
use boltcard.Prelude.Int.{ℤ, pos, negsuc, ◌≤ℤ◌}
use boltcard.Text.{Text, codes, text_eq}
use boltcard.Http.{Request, get_param}
use boltcard.Db.Schema.{Tables, Db, CardRow, Error, message}
use boltcard.Db.Monad.{
  Result, ok, err, M, pure, raise, continue, ◌>>=◌, ◌>>◌, exec, open_db, Statement, checked,
}
use boltcard.Db.Settings.{get_setting}
use boltcard.Db.Rows.{update_rows, All-update_rows}
use boltcard.Db.Cards.{update_cards, get_card_from_card_name, get_card_name_count}
use boltcard.Db.CardWrites.{
  NewCard, Pin, default_pin, yn, wipe_sql, insert_card_sql, new_row, insert_card,
  insert_card_with_pin, wipe_card, update_card_sql, update_pin_sql, update_card,
  update_card_with_pin, update_card_with_part_pin,
}
use boltcard.Db.Approvals.{update_payment_ntfy, update_payment_ntfy_sql}
use boltcard.Db.Payments.{update_payments}
use boltcard.Db.Keeps.{
  Preserved, Keeps, Respects, Respects-checked, Keeps-pure, Keeps-raise, Keeps-if, Keeps-query,
  Keeps-open_db, Keeps-bind, Keeps-exec, Keeps-expect_one, keeps_rules,
}
use boltcard.Db.Keeps.Settings.{Keeps-get_setting}
use boltcard.Lnurlw.Tap.{or_raise, ensure, or_message, relabel}
use boltcard.Internalapi.{
  enabled, int_param, bool_param, name_param, getboltcard, wipeboltcard, updateboltcardpayment,
  update_any_payment_ntfy, flag_param,
}
use Writes.{
  LimitsValid, limits, wipe-LimitsValid, insert_card-LimitsValid, insert_card_with_pin-LimitsValid,
  update_card-LimitsValid, write_pin-LimitsValid,
}
use boltcard.Internalapi.Validate.{card_name_valid, limit_valid, pin_valid}
use boltcard.Internalapi.Params.{Reads-card_params, Reads-pin_params}
use boltcard.Internalapi.Keeps.{
  Keeps-bind_read, Keeps-card_params, Keeps-pin_params, Keeps-ensure, Keeps-or_message,
  Keeps-enabled, Keeps-int_param, Keeps-bool_param, Keeps-name_param, Keeps-get_card_name_count,
}
use boltcard.Internalapi.Create.{
  Draws, CardParams, Reasons, card_params, new_card_of, pin_params, createboltcard,
  createboltcardwithpin,
}
use boltcard.Internalapi.Update.{updateboltcard, updateboltcardwithpin, write_pin}

-- The functions of the internal API.
pub data Function : Type 0 where
  creates : Draws → Function
  creates_with_pin : Draws → Function
  gets : Function
  updates : Function
  updates_with_pin : Function
  updates_payment : Function
  wipes : Function

-- The state after a request to a function.
unfoldable pub requested : (ℕ → Bool) → Function → Request → Db → Db
requested is_print (creates draws) r db = (createboltcard is_print draws r db).1
requested is_print (creates_with_pin draws) r db = (createboltcardwithpin is_print draws r db).1
requested is_print gets r db = (getboltcard is_print r db).1
requested is_print updates r db = (updateboltcard is_print r db).1
requested is_print updates_with_pin r db = (updateboltcardwithpin is_print r db).1
requested is_print updates_payment r db = (updateboltcardpayment r db).1
requested is_print wipes r db = (wipeboltcard is_print r db).1

module _ (is_print : ℕ → Bool) (r : Request) where
  createboltcard-LimitsValid : (draws : Draws) → Keeps limits (createboltcard is_print draws r)
  unfolding createboltcard new_card_of
  createboltcard-LimitsValid draws =
      Keeps-bind_read _ _ (Keeps-card_params is_print _ r) (λ now t. Reads-card_params is_print _ r)
        λ p says.
          Keeps-bind _ _ (Keeps-or_message _ _ (insert_card-LimitsValid _ says.limits))
            λ _. Keeps-bind _ _ (Keeps-get_setting _) λ hostdomain. Keeps-pure _

  createboltcardwithpin-LimitsValid :
      (draws : Draws) → Keeps limits (createboltcardwithpin is_print draws r)
  unfolding createboltcardwithpin new_card_of
  createboltcardwithpin-LimitsValid draws =
      Keeps-bind_read _ _ (Keeps-card_params is_print _ r) (λ now t. Reads-card_params is_print _ r)
        λ p says.
          Keeps-bind_read _ _ (Keeps-pin_params r) (λ now t. Reads-pin_params r)
            λ pin says_pin.
              Keeps-bind _ _
                (Keeps-or_message _ _
                  (insert_card_with_pin-LimitsValid _ pin says.limits says_pin.pin_limit_ok))
                λ _. Keeps-bind _ _ (Keeps-get_setting _) λ hostdomain. Keeps-pure _

  getboltcard-LimitsValid : Keeps limits (getboltcard is_print r)
  unfolding getboltcard get_card_from_card_name
  getboltcard-LimitsValid = Keeps-bind _ _ (Keeps-enabled _) λ _.
      Keeps-bind _ _ (Keeps-name_param is_print r _) λ name.
        Keeps-bind _ _ (Keeps-or_message _ _ (Keeps-bind _ _ Keeps-open_db λ _. Keeps-query _))
          λ c. Keeps-pure _

  wipeboltcard-LimitsValid : Keeps limits (wipeboltcard is_print r)
  unfolding wipeboltcard wipe_card
  wipeboltcard-LimitsValid = Keeps-bind _ _ (Keeps-enabled _) λ _.
      Keeps-bind _ _ (Keeps-name_param is_print r _) λ name. Keeps-or_message _ _ (
        Keeps-bind _ _ Keeps-open_db λ _. Keeps-bind _ _ (wipe-LimitsValid name) λ _.
          Keeps-bind _ _ (Keeps-query _)
            λ info. Keeps-bind _ _ (Keeps-get_setting _) λ k1. Keeps-pure _)

  updateboltcard-LimitsValid : Keeps limits (updateboltcard is_print r)
  unfolding updateboltcard
  updateboltcard-LimitsValid = Keeps-bind _ _ (Keeps-enabled _) λ _.
      Keeps-bind _ _ (Keeps-bool_param r _ _) λ on. Keeps-bind _ _ (Keeps-int_param r _ _) λ tx.
        Keeps-bind _ _ (Keeps-int_param r _ _) λ day.
          Keeps-ensure (limit_valid tx && limit_valid day)
            (message "updateboltcard: tx_max and day_max must not be negative") _
            λ both. Keeps-bind _ _ (Keeps-name_param is_print r _) λ name.
              Keeps-bind _ _ (Keeps-or_message _ _ (Keeps-get_card_name_count name)) λ count.
                Keeps-ensure (not (count == 0))
                  (message "updateboltcard: the card name does not exist in the database") _
                  λ _. Keeps-or_message _ _ (update_card-LimitsValid name on tx day both)

  updateboltcardwithpin-LimitsValid : Keeps limits (updateboltcardwithpin is_print r)
  unfolding updateboltcardwithpin
  updateboltcardwithpin-LimitsValid = Keeps-bind _ _ (Keeps-enabled _) λ _.
      Keeps-bind _ _ (Keeps-bool_param r _ _) λ on. Keeps-bind _ _ (Keeps-int_param r _ _) λ tx.
        Keeps-bind _ _ (Keeps-int_param r _ _) λ day.
          Keeps-bind _ _ (Keeps-bool_param r _ _) λ pin_on.
            Keeps-ensure (limit_valid tx && limit_valid day)
              (message "updateboltcardwithpin: tx_max and day_max must not be negative") _
              λ both.
                Keeps-ensure
                  (text_eq (get_param "pin_number" r) [] || pin_valid (get_param "pin_number" r))
                  (message "updateboltcardwithpin: pin_number must be four digits") _
                  λ _. Keeps-bind _ _ (Keeps-int_param r _ _) λ limit.
                    Keeps-ensure (limit_valid limit)
                      (message "updateboltcardwithpin: pin_limit_sats must not be negative") _
                      λ ok_limit. Keeps-bind _ _ (Keeps-name_param is_print r _) λ name.
                        Keeps-bind _ _ (Keeps-or_message _ _ (Keeps-get_card_name_count name))
                          λ count.
                            Keeps-ensure (not (count == 0))
                              (message
                                "updateboltcardwithpin: the card name does not exist in the database")
                              _
                              λ _. Keeps-or_message _ _ (
                                write_pin-LimitsValid name on tx day pin_on
                                  (get_param "pin_number" r) limit both ok_limit)

  -- Flags are written to the payments alone.
  updateboltcardpayment-LimitsValid : Keeps limits (updateboltcardpayment r)
  unfolding updateboltcardpayment update_any_payment_ntfy update_payment_ntfy
      update_payment_ntfy_sql flag_param update_payments
  updateboltcardpayment-LimitsValid = Keeps-bind _ _ (Keeps-enabled _) λ _.
      Keeps-bind _ _ (reads_flag (text_eq (get_param "approve" r) (codes "Y")))
        λ flag. Keeps-bind _ _ (Keeps-int_param r _ _) λ id. Keeps-or_message _ _ (writes flag id)
    where
      reads_flag :
          (b : Bool)
          → Keeps {A = ℕ} limits (
              if b
              then pure b'Y'
              else ensure
                  (text_eq (get_param "approve" r) (codes "N"))
                  (message "updateboltcardpayment: approve must be Y or N")
                >> pure b'N')
      reads_flag true = Keeps-pure _
      reads_flag false =
          Keeps-ensure (text_eq (get_param "approve" r) (codes "N")) _ _ λ _. Keeps-pure _

      writes : (flag : ℕ) (id : ℤ) → Keeps limits (update_any_payment_ntfy id flag)
      writes flag (pos id) =
          Keeps-bind _ _ Keeps-open_db
            λ _. Keeps-bind _ _ (Keeps-exec _ λ now t h. h) λ n. Keeps-expect_one _ n
      writes flag (negsuc id) =
          Keeps-bind _ _ Keeps-open_db
            λ _. Keeps-bind _ _ (Keeps-exec _ λ now t h. h) λ n. Keeps-expect_one _ n

  requested_once :
      (f : Function) (db : Db)
      → All LimitsValid db.tables.cards
      → All LimitsValid (requested is_print f r db).tables.cards
  unfolding requested
  requested_once (creates draws) db = (createboltcard-LimitsValid draws).at db
  requested_once (creates_with_pin draws) db = (createboltcardwithpin-LimitsValid draws).at db
  requested_once gets db = getboltcard-LimitsValid.at db
  requested_once updates db = updateboltcard-LimitsValid.at db
  requested_once updates_with_pin db = updateboltcardwithpin-LimitsValid.at db
  requested_once updates_payment db = updateboltcardpayment-LimitsValid.at db
  requested_once wipes db = wipeboltcard-LimitsValid.at db

-- The state after the requests, in their order.
unfoldable pub served : (ℕ → Bool) → List (Function × Request) → Db → Db
served is_print [] db = db
served is_print ((f, r) ∷ rs) db = served is_print rs (requested is_print f r db)

-- The limits of the cards stay non-negative. Where the amount and day limits and the PIN limit of
-- every card are not negative, they are so after any sequence of requests to the functions of the
-- internal API, whatever their parameters, their outcomes and the faults of the database.
pub served-LimitsValid :
    (is_print : ℕ → Bool) (rs : List (Function × Request)) (db : Db)
    → All LimitsValid db.tables.cards
    → All LimitsValid (served is_print rs db).tables.cards
unfolding served
served-LimitsValid is_print [] db h = h
served-LimitsValid is_print ((f, r) ∷ rs) db h =
    served-LimitsValid is_print rs (requested is_print f r db) (requested_once is_print r f db h)
