-- ===== src/Db/Monad.antt =====
-- Database calls as actions on the state: `(value, error)` results, `open`, `QueryRow`, `Exec` and
-- `Begin`/`Commit`, each a round trip that may meet a fault.
use boltcard.Prelude.{ℕ, [], ◌∷◌, Bool, true, false, String, ◌==◌, if◌then◌else◌}
use boltcard.Db.Schema.{
  Tables, Fault, fine, refused, reply_lost, Db, Error, failed, violation, message,
}

pub data Result {ℓ} (A : Type ℓ) : Type ℓ where
  ok : A → Result A
  err : Error → Result A

abbrev pub M : Type 0 → Type 0
M A = Db → Result A × Db

abbrev pub pure : {A : Type 0} → A → M A
pure a db = (ok a, db)

abbrev pub raise : {A : Type 0} → Error → M A
raise e db = (err e, db)

abbrev pub continue : {A B : Type 0} → Result A → (A → M B) → M B
continue (ok a) f db = f a db
continue (err e) f db = (err e, db)

infixl 5 ◌>>=◌ ◌>>◌
abbrev pub ◌>>=◌ : {A B : Type 0} → M A → (A → M B) → M B
◌>>=◌ m f db = continue (m db).0 f (m db).1

abbrev pub ◌>>◌ : {A B : Type 0} → M A → M B → M B
m >> k = m >>= λ _. k

-- The fault of the next round trip. No entry left means no more faults.
unfoldable pub next_fault : Db → Fault
next_fault db = elim db.faults [ [] ↦ fine | f ∷ _ ↦ f ]

unfoldable pub used : Db → Db
used db = record db { faults = elim db.faults [ [] ↦ [] | _ ∷ rest ↦ rest ] }

unfoldable pub on_query : {A : Type 0} → Fault → Result A → Result A
on_query fine r = r
on_query _ r = err failed

-- `db.QueryRow(...).Scan(...)`
unfoldable pub query : {A : Type 0} → (ℕ → Tables → Result A) → M A
unfolding on_query next_fault used
query q db = (on_query (next_fault db) (q db.now db.tables), used db)

-- `open()`
unfoldable pub open_db : M (Unit {0})
unfolding query
open_db = query (λ _ _. ok tt)

-- A statement gives the changed tables and the number of rows affected.
abbrev pub Statement : Type 0
Statement = ℕ → Tables → Result (Tables × ℕ)

-- A statement that violates a constraint is an error and changes nothing.
unfoldable pub checked : (Tables → Bool) → Statement → Statement
checked valid s now t = if valid t then s now t else err violation

pub on_exec : Fault → Result (Tables × ℕ) → Db → Result ℕ × Db
on_exec fine (ok (t, n)) db = (ok n, record db { tables = t })
on_exec fine (err e) db = (err e, db)
on_exec refused r db = (err failed, db)
on_exec reply_lost (ok (t, n)) db = (err failed, record db { tables = t })
on_exec reply_lost (err e) db = (err failed, db)

-- `db.Exec(...)` and `res.RowsAffected()`
unfoldable pub exec : Statement → M ℕ
unfolding on_exec next_fault used
exec s db = on_exec (next_fault db) (s db.now db.tables) (used db)

-- `if count != 1 { return errors.New(...) }`
abbrev pub expect_one : String → ℕ → M (Unit {0})
expect_one text count = if count == 1 then pure tt else raise (message text)

-- The end of a transaction whose body answers `true` to commit and `false` to roll back.
pub on_commit : Fault → Tables → Bool × String → Db → Result (Bool × String) × Db
on_commit fine before answer db = (ok answer, db)
on_commit refused before answer db = (err failed, record db { tables = before })
on_commit reply_lost before answer db = (err failed, db)

pub finish : Tables → Result (Bool × String) → Db → Result (Bool × String) × Db
finish before (ok (true, text)) db = on_commit (next_fault db) before (true, text) (used db)
finish before (ok (false, text)) db = (ok (false, text), record db { tables = before })
finish before (err e) db = (err e, record db { tables = before })

-- `db.Begin()`
unfoldable pub begin : M (Unit {0})
unfolding query
begin = query (λ _ _. ok tt)

-- `tx := db.Begin()`, the body, `tx.Commit()` after the answer `true`, and the deferred
-- `tx.Rollback()` after every other.
unfoldable pub transaction : M (Bool × String) → M (Bool × String)
unfolding finish on_commit begin
transaction body = do begin; λ db. finish db.tables (body db).0 (body db).1
