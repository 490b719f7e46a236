-- ===== src/Startup/Protected.antt =====
-- When the port of the internal API is open.
use boltcard.Prelude.{
  ◌≤◌, ◌≡◌, refl, ◌∙◌, Bool, true, false, not, length, arith, ap, none, some, if◌then◌else◌,
}
use boltcard.Text.{Text, codes, text_eq, text_eq_iff}
use boltcard.Db.Schema.{Db}
use boltcard.Db.Monad.{ok, pure, ◌>>=◌}
use boltcard.Db.Settings.{get_setting}
use boltcard.Auth.{min_key_length, internal_api_key}
use boltcard.Db.Hoare.Post.{returned_bind}
use boltcard.Startup.{
  key_configured, internal_port, Running, external_port, Prepared, prepare, start,
}

-- The state in which `start` asks whether the function is enabled, and the one in which it then reads
-- the key.
abbrev pub asks_enabled : Db → Db
asks_enabled db = (prepare db).1

abbrev pub reads_key : Db → Db
reads_key db = (get_setting "FUNCTION_INTERNAL_API" (asks_enabled db)).1

-- In these states the start reads ENABLE and a key of the required length, and `addr` is the address
-- that it has read.
pub record Protected (env addr : Text) (db : Db) : Type 0 where
  pub prepared : Prepared
  pub reached : (prepare db).0 ≡ ok prepared
  pub listens : addr ≡ prepared.internal_listen
  pub enabled : (get_setting "FUNCTION_INTERNAL_API" (asks_enabled db)).0 ≡ ok (codes "ENABLE")
  pub key : Text
  pub read : (internal_api_key env (reads_key db)).0 ≡ ok key
  pub long : min_key_length ≤ length key

-- A key of the required length is read in a state.
record HasKey (env : Text) (db : Db) : Type 0 where
  key : Text
  read : (internal_api_key env db).0 ≡ ok key
  long : min_key_length ≤ length key

key_configured-HasKey : (env : Text) (db : Db) → (key_configured env db).0 ≡ ok true → HasKey env db
unfolding key_configured
key_configured-HasKey env db e =
    let (key, read, is) = returned_bind (internal_api_key env) _ db true e in
    record { key = key; read = read; long = ground (arith, is) }

configured-HasKey :
    (env listen addr : Text) (db : Db)
    → ((key_configured env >>= λ configured. pure (if configured then some listen else none)) db).0
      ≡ ok (some addr)
    → HasKey env db × addr ≡ listen
configured-HasKey env listen addr db e =
    let (b, configured, is) = returned_bind (key_configured env) _ db (some addr) e in
    by_answer b configured is
  where
    by_answer :
        (b : Bool)
        → (key_configured env db).0 ≡ ok b
        → ok (if b then some listen else none) ≡ ok (some addr)
        → HasKey env db × addr ≡ listen
    by_answer false configured is = absurd (cc)
    by_answer true configured is = (key_configured-HasKey env db configured, cc)

-- What the port says of the state in which the function is asked for.
record Opened (env listen addr : Text) (db : Db) : Type 0 where
  enabled : (get_setting "FUNCTION_INTERNAL_API" db).0 ≡ ok (codes "ENABLE")
  has_key : HasKey env (get_setting "FUNCTION_INTERNAL_API" db).1
  listens : addr ≡ listen

internal_port-Opened :
    (env listen addr : Text) (db : Db)
    → (internal_port env listen db).0 ≡ ok (some addr)
    → Opened env listen addr db
unfolding internal_port text_eq
internal_port-Opened env listen addr db e =
    let (value, read, is) =
      returned_bind (get_setting "FUNCTION_INTERNAL_API") _ db (some addr) e in
    by_value value (text_eq value (codes "ENABLE")) refl read is
  where
    by_value :
        (value : Text) (enabled : Bool)
        → text_eq value (codes "ENABLE") ≡ enabled
        → (get_setting "FUNCTION_INTERNAL_API" db).0 ≡ ok value
        → ((if not enabled
              then pure none
              else (key_configured env >>= λ configured.
                  pure (if configured then some listen else none)))
            (get_setting "FUNCTION_INTERNAL_API" db).1).0
          ≡ ok (some addr)
        → Opened env listen addr db
    by_value value false same read is = absurd (cc)
    by_value value true same read is =
        let (has_key, listens) = configured-HasKey env listen addr _ is in
        record {
          enabled = read ∙ ap ok ((text_eq_iff value (codes "ENABLE")).0 same);
          has_key = has_key;
          listens = listens;
        }

same_port : (r s : Running) → ok r ≡ ok s → r.internal_addr ≡ s.internal_addr
same_port r s e = cc

-- The internal API is never open without a key. Whatever the settings and the faults of the
-- database, where the service starts and opens the port of the internal API, it does so at the address
-- that it has read; FUNCTION_INTERNAL_API, which it reads next, is ENABLE; and the key, which it reads
-- after that, has at least the required length.
pub start-Protected :
    (env : Text) (running : Running) (addr : Text) (db : Db)
    → (start env db).0 ≡ ok running
    → running.internal_addr ≡ some addr
    → Protected env addr db
unfolding start external_port
start-Protected env running addr db started opened =
    let (p, reached, rest) = returned_bind prepare _ db running started in
    let (o, port, is) =
      returned_bind (internal_port env p.internal_listen) _ (prepare db).1 running rest in
    let same : o ≡ some addr = same_port _ running is ∙ opened in
    let h : Opened env p.internal_listen addr (prepare db).1 =
      internal_port-Opened env p.internal_listen addr (prepare db).1 (port ∙ ap ok same) in
    record {
      prepared = p;
      reached = reached;
      listens = h.listens;
      enabled = h.enabled;
      key = h.has_key.key;
      read = h.has_key.read;
      long = h.has_key.long;
    }
