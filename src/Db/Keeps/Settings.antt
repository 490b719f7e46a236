-- ===== src/Db/Keeps/Settings.antt =====
-- Reading a setting changes no table.
use boltcard.Prelude.{◌≡◌, refl, [], Option, none, some, String, sym, arith}
use mathlib.Core.Path.{subst}
use boltcard.Text.{Text}
use boltcard.Db.Schema.{Db, failed, no_rows, violation, message}
use boltcard.Db.Monad.{Result, ok, err, query, open_db}
use boltcard.Db.Settings.{
  read_setting, hold, settle, fetch, held, get_setting, get_setting_now, clear,
}
use boltcard.Db.Keeps.{Preserved, Keeps}

read_setting-tables : (name : String) (db : Db) → (read_setting name db).1.tables ≡ db.tables
unfolding read_setting open_db query
read_setting-tables name db = ground arith

hold-tables : (name : String) (value : Text) (db : Db) → (hold name value db).tables ≡ db.tables
unfolding hold
hold-tables name value db = ground arith

settle-tables :
    (name : String) (r : Result Text) (db : Db) → (settle name r db).1.tables ≡ db.tables
unfolding settle
settle-tables name (ok value) db = hold-tables name value db
settle-tables name (err no_rows) db = hold-tables name _ db
settle-tables name (err failed) db = refl
settle-tables name (err violation) db = refl
settle-tables name (err (message s)) db = refl

fetch-tables : (o : Option Text) (name : String) (db : Db) → (fetch o name db).1.tables ≡ db.tables
unfolding fetch
fetch-tables (some value) name db = refl
fetch-tables none name db = rw (settle-tables name) (read_setting-tables name db)

pub get_setting-tables : (name : String) (db : Db) → (get_setting name db).1.tables ≡ db.tables
unfolding get_setting
get_setting-tables name db = fetch-tables (held name db.now db.cache) name db

settle-ok : (name : String) (r : Result Text) (db : Db) → (v : Text) × ((settle name r db).0 ≡ ok v)
unfolding settle
settle-ok name (ok value) db = (value, refl)
settle-ok name (err no_rows) db = ([], refl)
settle-ok name (err failed) db = ([], refl)
settle-ok name (err violation) db = ([], refl)
settle-ok name (err (message s)) db = ([], refl)

fetch-ok : (o : Option Text) (name : String) (db : Db) → (v : Text) × ((fetch o name db).0 ≡ ok v)
unfolding fetch
fetch-ok (some value) name db = (value, refl)
fetch-ok none name db = settle-ok name _ _

-- A setting that cannot be read is empty.
pub get_setting-ok : (name : String) (db : Db) → (v : Text) × ((get_setting name db).0 ≡ ok v)
unfolding get_setting
get_setting-ok name db = fetch-ok (held name db.now db.cache) name db

pub get_setting_now-tables :
    (name : String) (db : Db) → (get_setting_now name db).1.tables ≡ db.tables
unfolding get_setting_now
get_setting_now-tables name db = read_setting-tables name (clear db)

module _ {k : Preserved} where
  pub Keeps-get_setting : (name : String) → Keeps k (get_setting name)
  Keeps-get_setting name = record {
    at = λ db. subst (k.Rel db.tables) (sym (get_setting-tables name db)) (k.same db.tables);
  }

  pub Keeps-get_setting_now : (name : String) → Keeps k (get_setting_now name)
  Keeps-get_setting_now name = record {
    at = λ db. subst (k.Rel db.tables) (sym (get_setting_now-tables name db)) (k.same db.tables);
  }
