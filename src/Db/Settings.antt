-- ===== src/Db/Settings.antt =====
-- db/settings.go: settings are read through a cache that holds a value for a short time.
pub mod Recent
use boltcard.Prelude.{
  ℕ, ◌-◌, ◌*◌, List, [], ◌∷◌, Option, none, some, ◌&&◌, String, str_eq, ltb, if◌then◌else◌,
}
use boltcard.Prelude.Int.{ℤ, pos, negsuc}
use boltcard.Text.{Text}
use boltcard.Db.Schema.{Db, no_rows, SettingEntry, SettingCache, second}
use boltcard.Db.Monad.{Result, ok, err, M, ◌>>◌, query, open_db}

abbrev pub default_setting_cache_sec : ℕ
default_setting_cache_sec = 10

unfoldable pub lookup_setting : String → List (String × Text) → Result Text
lookup_setting name [] = err no_rows
lookup_setting name ((key, value) ∷ rest) =
    if str_eq key name then ok value else lookup_setting name rest

-- `read_setting`
unfoldable pub read_setting : String → M Text
unfolding lookup_setting
read_setting name = do open_db; query λ now t. lookup_setting name t.settings

unfoldable pub find_entry : String → List SettingEntry → Option SettingEntry
find_entry name [] = none
find_entry name (e ∷ es) = if str_eq e.name name then some e else find_entry name es

-- The value held for a name, while it is younger than `ttl`.
unfoldable pub held : String → ℕ → SettingCache → Option Text
unfolding find_entry
held name now c = elim (find_entry name c.entries) [
  | none ↦ none
  | some e ↦ if ltb 0 c.ttl && ltb (now - e.fetched_at) c.ttl then some e.value else none
]

-- A value is only held where `ttl` is positive.
unfoldable pub hold : String → Text → Db → Db
hold name value db =
    if ltb 0 db.cache.ttl
    then record db {
      cache = record db.cache {
        entries = record { name = name; value = value; fetched_at = db.now } ∷ db.cache.entries;
      };
    }
    else db

-- A setting with no row is a settled answer and is held; any other error is not.
unfoldable pub settle : String → Result Text → Db → Result Text × Db
unfolding hold
settle name (ok value) db = (ok value, hold name value db)
settle name (err no_rows) db = (ok [], hold name [] db)
settle name (err e) db = (ok [], db)

unfoldable pub fetch : Option Text → String → M Text
unfolding settle
fetch (some value) name db = (ok value, db)
fetch none name db = settle name (read_setting name db).0 (read_setting name db).1

-- `setting_cache.get`, and `Get_setting`
unfoldable pub get_setting : String → M Text
unfolding fetch held read_setting
get_setting name db = fetch (held name db.now db.cache) name db

unfoldable pub clear : Db → Db
clear db = record db { cache = record db.cache { entries = [] } }

or_empty : Result Text → Result Text
or_empty (ok value) = ok value
or_empty (err e) = ok []

-- `Get_setting_now`
unfoldable pub get_setting_now : String → M Text
unfolding clear or_empty read_setting
get_setting_now name db =
    (or_empty (read_setting name (clear db)).0, (read_setting name (clear db)).1)

at_least_zero : ℤ → ℕ
at_least_zero (pos n) = n
at_least_zero (negsuc n) = 0

-- `Set_setting_cache_seconds`
unfoldable pub set_setting_cache_seconds : ℤ → Db → Db
unfolding at_least_zero
set_setting_cache_seconds seconds db = record db {
  cache = record { entries = []; ttl = at_least_zero seconds * second };
}
