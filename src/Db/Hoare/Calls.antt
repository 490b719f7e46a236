-- ===== src/Db/Hoare/Calls.antt =====
-- What the calls that change no table, and the helpers of the handlers, read.
use boltcard.Prelude.{ℕ, ◌≡◌, refl, Bool, true, false, Option, none, some, String, [], arith}
use boltcard.Text.{Text}
use boltcard.Db.Schema.{Tables, Db, Error, no_rows, failed, violation, message}
use boltcard.Db.Monad.{Result, ok, err, M, query, open_db, next_fault, used, on_query}
use boltcard.Db.Settings.{get_setting, fetch, held, settle, hold, read_setting}
use boltcard.Db.Keeps.Settings.{get_setting-tables}
use boltcard.Db.Payments.{get_payment_k1, check_lnurlw_timeout}
use boltcard.Db.Cards.{get_card_from_card_id, get_card_from_card_name}
use boltcard.Db.Approvals.{get_payment_approval}
use boltcard.Db.Hoare.{
  Ensures, Reads, Ensures-read, Ensures-pure, Ensures-raise, Reads-open_db, Reads-query,
}
use boltcard.Lnurlw.Tap.{or_raise, ensure, or_message, relabel}

-- A connection with no faults to tables at a time, with no setting held.
abbrev pub calm : ℕ → Tables → Db
calm now t = record { tables = t; cache = record { entries = []; ttl = 0 }; now = now; faults = [] }

-- What an action returns on a calm connection.
abbrev pub Sees : {A : Type 0} → ℕ → Tables → M A → A → Type 0
Sees now t m a = (m (calm now t)).0 ≡ ok a

hold-now : (name : String) (value : Text) (db : Db) → (hold name value db).now ≡ db.now
unfolding hold
hold-now name value db = ground arith

settle-now : (name : String) (r : Result Text) (db : Db) → (settle name r db).1.now ≡ db.now
unfolding settle
settle-now name (ok value) db = hold-now name value db
settle-now name (err no_rows) db = hold-now name _ db
settle-now name (err failed) db = refl
settle-now name (err violation) db = refl
settle-now name (err (message s)) db = refl

pub read_setting-now : (name : String) (db : Db) → (read_setting name db).1.now ≡ db.now
unfolding read_setting open_db query used
read_setting-now name db = ground arith

fetch-now : (o : Option Text) (name : String) (db : Db) → (fetch o name db).1.now ≡ db.now
unfolding fetch
fetch-now (some value) name db = refl
fetch-now none name db = rw (settle-now name) (read_setting-now name db)

pub get_setting-now : (name : String) (db : Db) → (get_setting name db).1.now ≡ db.now
unfolding get_setting
get_setting-now name db = fetch-now (held name db.now db.cache) name db

module _ {now : ℕ} {t : Tables} where
  pub Reads-get_setting : (name : String) → Reads now t (get_setting name) (λ _. Unit {0})
  Reads-get_setting name = record {
    at = λ db n s a e. (rw (get_setting-now name db) n, (rw (get_setting-tables name db) s, tt));
  }

  pub Reads-ensure : (b : Bool) (e : Error) → Reads now t (ensure b e) (λ _. b ≡ true)
  Reads-ensure true e = Ensures-pure tt (refl, refl)
  Reads-ensure false e = Ensures-raise e

  pub Reads-or_raise :
      {A : Type 0} (o : Option A) (e : Error) → Reads now t (or_raise o e) (λ a. o ≡ some a)
  Reads-or_raise none e = Ensures-raise e
  Reads-or_raise (some a) e = Ensures-pure a (refl, refl)

  pub Reads-get_payment_k1 :
      (k1 : Text) → Reads now t (get_payment_k1 k1) (Sees now t (get_payment_k1 k1))
  unfolding get_payment_k1 open_db query next_fault used on_query
  Reads-get_payment_k1 k1 = Ensures-read open_db _ Reads-open_db λ _ _. Reads-query _

  pub Reads-check_lnurlw_timeout :
      (id : ℕ) → Reads now t (check_lnurlw_timeout id) (Sees now t (check_lnurlw_timeout id))
  unfolding check_lnurlw_timeout open_db query next_fault used on_query
  Reads-check_lnurlw_timeout id = Ensures-read open_db _ Reads-open_db λ _ _. Reads-query _

  pub Reads-get_card_from_card_id :
      (id : ℕ) → Reads now t (get_card_from_card_id id) (Sees now t (get_card_from_card_id id))
  unfolding get_card_from_card_id open_db query next_fault used on_query
  Reads-get_card_from_card_id id = Ensures-read open_db _ Reads-open_db λ _ _. Reads-query _

  pub Reads-get_payment_approval :
      (id : ℕ) → Reads now t (get_payment_approval id) (Sees now t (get_payment_approval id))
  unfolding get_payment_approval open_db query next_fault used on_query
  Reads-get_payment_approval id = Ensures-read open_db _ Reads-open_db λ _ _. Reads-query _

  -- Another error for the failure of an action leaves what it ensures.
  pub Ensures-or_message :
      {A : Type 0} {Q : A → Tables → Type 0} (m : M A) (text : String)
      → Ensures now t m Q
      → Ensures now t (or_message m text) Q
  Ensures-or_message m text h = record { at = λ db n s a e. h.at db n s a (same (m db).0 a e) }
    where
      same : {A : Type 0} (r : Result A) (a : A) → relabel r text ≡ ok a → r ≡ ok a
      same (ok b) a e = e
      same (err x) a e = absurd (cc)

  pub Reads-get_card_from_card_name :
      (name : Text)
      → Reads now t (get_card_from_card_name name) (Sees now t (get_card_from_card_name name))
  unfolding get_card_from_card_name open_db query next_fault used on_query
  Reads-get_card_from_card_name name = Ensures-read open_db _ Reads-open_db λ _ _. Reads-query _
