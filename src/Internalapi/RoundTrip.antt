-- ===== src/Internalapi/RoundTrip.antt =====
-- What is asked for when a card is created is what is read back.
use mathlib.Core.Path.{subst}
use boltcard.Prelude.{
  ℕ, ◌≡◌, ◌≤◌, refl, sym, ◌∙◌, Bool, true, false, List, [], ◌∷◌, some, ◌==◌, arith,
}
use boltcard.Prelude.Int.{ℤ}
use boltcard.Text.{Text, text_eq_refl, characters, characters-le, cut-all}
use boltcard.Text.Numbers.{atoi, itoa, parse_bool, atoi-itoa, atoi_range}
use boltcard.Http.{Request, get_param}
use boltcard.Db.Schema.{Tables, Db, CardRow, Card}
use boltcard.Db.Monad.{ok, query, open_db, next_fault, used, on_query}
use boltcard.Db.Rows.{select_row}
use boltcard.Db.Cards.{get_card_from_card_name}
use boltcard.Db.CardWrites.{NewCard, Pin, yn, new_row, insert_card_with_pin}
use boltcard.Db.CardWrites.Live.{inserted}
use boltcard.Db.Timeless.Calls.{insert_card_with_pin-Timeless}
use boltcard.Db.Hoare.{Ensures, Reads, Ensures-pure, Ensures-bind, Ensures-read}
use boltcard.Db.Hoare.Calls.{
  Sees, Reads-get_setting, Ensures-or_message, Reads-get_card_from_card_name,
}
use boltcard.Internalapi.{CardAnswer, card_answer, getboltcard}
use boltcard.Internalapi.Params.{
  SaysCard, SaysPin, Reads-enabled, Reads-name_param, Reads-card_params, Reads-pin_params,
}
use boltcard.Internalapi.Validate.{card_name_valid}
use boltcard.Internalapi.Create.{Draws, CardParams, new_card_of, createboltcardwithpin}

-- The first row of the cards is the new one.
record Inserted (n : NewCard) (p : Pin) (t : Tables) : Type 0 where
  id : ℕ
  at : ℕ
  others : List CardRow
  are : t.cards ≡ new_row id n p at ∷ others

insert-Inserted :
    (now : ℕ) (t : Tables) (n : NewCard) (p : Pin)
    → Ensures now t (insert_card_with_pin n p) (λ _ t'. Inserted n p t')
insert-Inserted now t n p = record {
  at = λ db same e u r. (
    (insert_card_with_pin-Timeless n p).at db ∙ same,
    record { id = db.tables.next_card_id; at = db.now; others = _; are = inserted n p db r },
  );
}

record Created (is_print : ℕ → Bool) (draws : Draws) (r : Request) (t : Tables) : Type 0 where
  params : CardParams
  pin : Pin
  says : SaysCard is_print r params
  says_pin : SaysPin r pin
  inserted_row : Inserted (new_card_of params draws) pin t

create-Created :
    (is_print : ℕ → Bool) (draws : Draws) (r : Request) (now : ℕ) (t : Tables)
    → Ensures now t (createboltcardwithpin is_print draws r) (λ _. Created is_print draws r)
unfolding createboltcardwithpin
create-Created is_print draws r now t = Ensures-read _ _ (Reads-card_params is_print _ r) λ p says.
    Ensures-read _ _ (Reads-pin_params r) λ pin says_pin.
      Ensures-bind _ _ (Ensures-or_message _ _ (insert-Inserted now t (new_card_of p draws) pin))
        λ _ t' row. Ensures-read _ _ (Reads-get_setting _) λ hostdomain _.
          Ensures-pure _
            (record { params = p; pin = pin; says = says; says_pin = says_pin; inserted_row = row })

-- The values of an answer are those that the parameters of a request say.
pub record AnswersParams (r : Request) (a : CardAnswer) : Type 0 where
  pub uid : a.uid ≡ []
  pub lnurlw_enable : parse_bool (get_param "enable" r) ≡ some (a.lnurlw_enable == b'Y')
  pub tx_limit : atoi a.tx_limit_sats ≡ atoi (get_param "tx_max" r)
  pub day_limit : atoi a.day_limit_sats ≡ atoi (get_param "day_max" r)
  pub pin_enable : parse_bool (get_param "enable_pin" r) ≡ some (a.pin_enable == b'Y')
  pub pin_limit : atoi a.pin_limit_sats ≡ atoi (get_param "pin_limit_sats" r)

yn_is : (b : Bool) → (yn b == b'Y') ≡ b
yn_is true = refl
yn_is false = refl

-- A number that was read is written as a text of the same number.
same_number : (s : Text) (n : ℤ) → atoi s ≡ some n → atoi (itoa n) ≡ atoi s
same_number s n e = let (low, high) = atoi_range s n e in atoi-itoa n low high ∙ sym e

same_flag : (s : Text) (b : Bool) → parse_bool s ≡ some b → parse_bool s ≡ some (yn b == b'Y')
same_flag s b e = rw (yn_is b) e

short_name :
    (is_print : ℕ → Bool) (name : Text)
    → card_name_valid is_print name ≡ true
    → characters name ≤ 100
unfolding card_name_valid
short_name is_print name valid = ground (arith, valid, characters-le name)

-- The row that is read is the new one.
read_new_row :
    (now : ℕ) (t : Tables) (n : NewCard) (p : Pin) (c : Card)
    → characters n.card_name ≤ 100
    → Inserted n p t
    → Sees now t (get_card_from_card_name n.card_name) c
    → (c.db_uid ≡ [])
      × (c.lnurlw_enable ≡ yn n.lnurlw_enable)
      × (c.tx_limit_sats ≡ n.tx_limit_sats)
      × (c.day_limit_sats ≡ n.day_limit_sats)
      × (c.pin_enable ≡ yn p.pin_enable)
      × (c.pin_limit_sats ≡ p.pin_limit_sats)
unfolding get_card_from_card_name open_db query next_fault used on_query select_row new_row
read_new_row now t n p c short row sees =
    ground (arith, row.are, text_eq_refl n.card_name, cut-all 100 n.card_name short)

getboltcard-Ensures :
    (is_print : ℕ → Bool) (r : Request) (now : ℕ) (t : Tables)
    → Reads now t (getboltcard is_print r) (λ a.
      (c : Card) × ((a ≡ card_answer c)
        × Sees now t (get_card_from_card_name (get_param "card_name" r)) c))
unfolding getboltcard
getboltcard-Ensures is_print r now t = Ensures-read _ _ (Reads-enabled _) λ _ _.
    Ensures-read _ _ (Reads-name_param is_print r _) λ name (named, _).
      Ensures-read _ _ (Ensures-or_message _ _ (Reads-get_card_from_card_name name)) λ c sees.
        Ensures-pure _
          (refl, (c, (refl, subst (λ n. Sees now t (get_card_from_card_name n) c) named sees)))

answers :
    (is_print : ℕ → Bool) (draws : Draws) (r r' : Request) (now : ℕ) (t : Tables) (a : CardAnswer)
    → Created is_print draws r t
    → get_param "card_name" r' ≡ get_param "card_name" r
    → (c : Card) → a ≡ card_answer c
    → Sees now t (get_card_from_card_name (get_param "card_name" r')) c
    → AnswersParams r a
unfolding card_answer new_card_of
answers is_print draws r r' now t a made name c is_answer sees =
    let says = made.says in
    let pin = made.says_pin in
    let (uid, on, tx, day, pin_on, pin_limit) =
      read_new_row now t _ made.pin c (short_name is_print _ says.name_ok) made.inserted_row
        (subst (λ n. Sees now t (get_card_from_card_name n) c) (name ∙ sym says.name) sees) in
    rw is_answer (record {
      uid = uid;
      lnurlw_enable = rw on (same_flag _ _ says.enable);
      tx_limit = rw tx (same_number _ _ says.tx_max);
      day_limit = rw day (same_number _ _ says.day_max);
      pin_enable = rw pin_on (same_flag _ _ pin.pin_enable);
      pin_limit = rw pin_limit (same_number _ _ pin.pin_limit);
    })

-- Whatever faults the calls meet, where a card was created with a PIN and the card of its name is
-- then read, what the answer says is what the parameters of the creation said: the limits as the
-- same numbers, the flags as the same truth values, and no UID.
pub create_then_get :
    (is_print : ℕ → Bool) (draws : Draws) (r r' : Request) (url : Text) (a : CardAnswer) (db : Db)
    → get_param "card_name" r' ≡ get_param "card_name" r
    → (createboltcardwithpin is_print draws r db).0 ≡ ok url
    → (getboltcard is_print r' (createboltcardwithpin is_print draws r db).1).0 ≡ ok a
    → AnswersParams r a
create_then_get is_print draws r r' url a db name made got =
    let (n, created) =
      (create-Created is_print draws r db.now db.tables).at db refl refl url made in
    let (_, (_, (c, (is_answer, sees)))) =
      (getboltcard-Ensures is_print r' _ _).at _ refl refl a got in
    answers is_print draws r r' _ _ a created name c is_answer sees
