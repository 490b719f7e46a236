-- ===== src/Internalapi/Keeps.antt =====
-- What the ways to read and check a request keep.
use boltcard.Prelude.{ℕ, ◌≡◌, refl, Bool, true, false, ◌&&◌, Option, none, some, String}
use boltcard.Text.{Text, codes, text_eq}
use boltcard.Http.{Request, get_param}
use boltcard.Db.Schema.{Tables, Db, Error, message}
use boltcard.Db.Monad.{Result, ok, err, M, continue, ◌>>=◌, ◌>>◌}
use boltcard.Db.Cards.{get_card_name_count}
use boltcard.Db.Keeps.{
  Preserved, Keeps, Keeps-pure, Keeps-raise, Keeps-query, Keeps-open_db, Keeps-bind,
}
use boltcard.Db.Hoare.{Reads}
use boltcard.Db.Keeps.Settings.{Keeps-get_setting}
use boltcard.Lnurlw.Tap.{or_raise, ensure, or_message}
use boltcard.Internalapi.{enabled, int_param, bool_param, name_param}
use boltcard.Internalapi.Validate.{card_name_valid, limit_valid, pin_valid}
use boltcard.Internalapi.Create.{Reasons, card_params, pin_params}

module _ {k : Preserved} where
  pub Keeps-ensure :
      {A : Type 0} (b : Bool) (e : Error) (m : M A)
      → (b ≡ true → Keeps k m)
      → Keeps k (ensure b e >> m)
  Keeps-ensure true e m h = record { at = λ db. (h refl).at db }
  Keeps-ensure false e m h = record { at = λ db. k.same db.tables }

  pub Keeps-or_raise : {A : Type 0} (o : Option A) (e : Error) → Keeps k (or_raise o e)
  Keeps-or_raise none e = Keeps-raise e
  Keeps-or_raise (some a) e = Keeps-pure a

  pub Keeps-or_message :
      {A : Type 0} (m : M A) (text : String) → Keeps k m → Keeps k (or_message m text)
  Keeps-or_message m text h = record { at = λ db. h.at db }

  pub Keeps-enabled : (text : String) → Keeps k (enabled text)
  unfolding enabled
  Keeps-enabled text =
      Keeps-bind _ _ (Keeps-get_setting _) λ value. ends (text_eq value (codes "ENABLE"))
    where
      ends : (b : Bool) → Keeps k (ensure b (message text))
      ends true = Keeps-pure tt
      ends false = Keeps-raise _

  pub Keeps-int_param : (r : Request) (name text : String) → Keeps k (int_param r name text)
  unfolding int_param
  Keeps-int_param r name text = Keeps-or_raise _ _

  pub Keeps-bool_param : (r : Request) (name text : String) → Keeps k (bool_param r name text)
  unfolding bool_param
  Keeps-bool_param r name text = Keeps-or_raise _ _

  pub Keeps-name_param :
      (is_print : ℕ → Bool) (r : Request) (text : String) → Keeps k (name_param is_print r text)
  unfolding name_param
  Keeps-name_param is_print r text =
      Keeps-ensure (card_name_valid is_print (get_param "card_name" r)) (message text) _
        λ _. Keeps-pure _

  -- What follows an action that reads may use what it has read.
  pub Keeps-bind_read :
      {A B : Type 0} {F : A → Type 0} (m : M A) (f : A → M B)
      → Keeps k m
      → ((now : ℕ) (t : Tables) → Reads now t m F)
      → ((a : A) → F a → Keeps k (f a))
      → Keeps k (m >>= f)
  Keeps-bind_read {A} {B} {F} m f km reads kf = record {
    at = λ db.
        continued db.tables (m db).0 (m db).1
          (λ a e. ((reads db.now db.tables).at db refl refl a e).1.1) (km.at db);
  }
    where
      continued :
          (t : Tables) (r : Result A) (db : Db)
          → ((a : A) → r ≡ ok a → F a)
          → k.Rel t db.tables
          → k.Rel t (continue r f db).1.tables
      continued t (ok a) db h rel = k.trans t db.tables _ rel ((kf a (h a refl)).at db)
      continued t (err e) db h rel = rel

  pub Keeps-card_params :
      (is_print : ℕ → Bool) (why : Reasons) (r : Request) → Keeps k (card_params is_print why r)
  unfolding card_params
  Keeps-card_params is_print why r = Keeps-bind _ _ (Keeps-enabled _) λ _.
      Keeps-bind _ _ (Keeps-int_param r _ _) λ tx_max.
        Keeps-bind _ _ (Keeps-int_param r _ _) λ day_max.
          Keeps-bind _ _ (Keeps-bool_param r _ _) λ on.
            Keeps-ensure (limit_valid tx_max && limit_valid day_max) (message why.negative) _ λ _.
              Keeps-bind _ _ (Keeps-name_param is_print r _) λ name.
                Keeps-bind _ _ (Keeps-bool_param r _ _)
                  λ privacy. Keeps-bind _ _ (Keeps-bool_param r _ _) λ negative. Keeps-pure _

  pub Keeps-pin_params : (r : Request) → Keeps k (pin_params r)
  unfolding pin_params
  Keeps-pin_params r = Keeps-bind _ _ (Keeps-bool_param r _ _) λ on.
      Keeps-ensure (pin_valid (get_param "pin_number" r))
        (message "createboltcardwithpin: pin_number must be four digits") _
        λ _. Keeps-bind _ _ (Keeps-int_param r _ _) λ limit.
          Keeps-ensure (limit_valid limit)
            (message "createboltcardwithpin: pin_limit_sats must not be negative") _
            λ _. Keeps-pure _

  pub Keeps-get_card_name_count : (name : Text) → Keeps k (get_card_name_count name)
  unfolding get_card_name_count
  Keeps-get_card_name_count name = Keeps-bind _ _ Keeps-open_db λ _. Keeps-query _
