-- ===== src/Db/Settings/Recent.antt =====
-- How old the answer of `Get_setting` may be.
use boltcard.Prelude.{
  ℕ, ◌-◌, ◌<◌, ◌≡◌, refl, sym, ◌⊎◌, inl, inr, [], Option, none, some, ◌&&◌, String, ltb, arith,
  if◌then◌else◌,
}
use boltcard.Text.{Text}
use boltcard.Db.Schema.{Db, Tables, SettingEntry, SettingCache, no_rows, failed, violation, message}
use boltcard.Db.Monad.{Result, ok, err, query, open_db, used, on_query}
use boltcard.Db.Settings.{
  lookup_setting, read_setting, find_entry, held, settle, fetch, get_setting,
}

-- A value that was read less than the time to live ago.
pub record Held (name : String) (now : ℕ) (c : SettingCache) (value : Text) : Type 0 where
  pub entry : SettingEntry
  pub latest : find_entry name c.entries ≡ some entry
  pub is_value : entry.value ≡ value
  pub young : now - entry.fetched_at < c.ttl

held-Held :
    (name : String) (now : ℕ) (c : SettingCache) (value : Text)
    → held name now c ≡ some value
    → Held name now c value
unfolding held
held-Held name now c value e = from (find_entry name c.entries) refl e
  where
    from :
        (o : Option SettingEntry)
        → find_entry name c.entries ≡ o
        → elim o [
          | none ↦ none
          | some x ↦ if ltb 0 c.ttl && ltb (now - x.fetched_at) c.ttl then some x.value else none
        ]
          ≡ some value
        → Held name now c value
    from none f e' = absurd (cc)
    from (some x) f e' = record {
      entry = x;
      latest = f;
      is_value = ground arith;
      young = ground arith;
    }

-- What one reading of the table may give.
abbrev Read : String → Tables → Text → Type 0
Read name t value = (value ≡ []) ⊎ (lookup_setting name t.settings ≡ ok value)

settle-Read :
    (name : String) (r : Result Text) (db : Db) (t : Tables) (value : Text)
    → ((v : Text) → r ≡ ok v → lookup_setting name t.settings ≡ ok v)
    → (settle name r db).0 ≡ ok value
    → Read name t value
unfolding settle
settle-Read name (ok v) db t value h e = inr (rw (sym (ok_value v value e)) (h v refl))
  where
    ok_value : (a b : Text) → ok a ≡ ok b → a ≡ b
    ok_value a b e' = cc
settle-Read name (err no_rows) db t value h e = inl (cc)
settle-Read name (err failed) db t value h e = inl (cc)
settle-Read name (err violation) db t value h e = inl (cc)
settle-Read name (err (message s)) db t value h e = inl (cc)

read_setting-lookup :
    (name : String) (db : Db) (v : Text)
    → (read_setting name db).0 ≡ ok v
    → lookup_setting name db.tables.settings ≡ ok v
unfolding read_setting open_db query on_query used
read_setting-lookup name db v e = ground arith

-- Whatever faults the calls meet, the answer of `Get_setting` is empty, or what the table holds now,
-- or the latest value that was kept for the name, which was read less than the time to live ago.
pub get_setting-Recent :
    (name : String) (db : Db) (value : Text)
    → (get_setting name db).0 ≡ ok value
    → ((value ≡ []) ⊎ (lookup_setting name db.tables.settings ≡ ok value))
      ⊎ Held name db.now db.cache value
unfolding get_setting fetch
get_setting-Recent name db value e = from (held name db.now db.cache) refl e
  where
    from :
        (o : Option Text)
        → held name db.now db.cache ≡ o
        → (fetch o name db).0 ≡ ok value
        → Read name db.tables value ⊎ Held name db.now db.cache value
    from none h e' = inl (
        settle-Read name (read_setting name db).0 (read_setting name db).1 db.tables value
          (read_setting-lookup name db) e')
    from (some v) h e' = inr (held-Held name db.now db.cache value (rw h (cc)))
