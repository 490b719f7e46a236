-- ===== src/Db/Keeps.antt =====
-- Relations between the tables before and after an action that every round trip keeps, whatever
-- faults it meets: one rule for each way to build an action.
pub mod Settings
pub mod Statements
pub mod Calls
use boltcard.Prelude.{
  ℕ, ◌≡◌, refl, Bool, true, false, String, if◌then◌else◌, arith, ◌==◌, List, [], ◌∷◌,
}
use boltcard.Db.Schema.{Tables, Fault, fine, refused, reply_lost, Db, Error, violation}
use boltcard.Db.Monad.{
  Result, ok, err, M, pure, raise, continue, ◌>>=◌, ◌>>◌, query, open_db, exec, expect_one,
  Statement, transaction, next_fault, used, begin, checked, on_exec, on_commit, finish,
}

-- A relation that holds of unchanged tables and composes.
pub record Preserved : Type 1 where
  pub Rel : Tables → Tables → Type 0
  pub same : (t : Tables) → Rel t t
  pub trans : (t u v : Tables) → Rel t u → Rel u v → Rel t v

-- `m` keeps the relation, whether it returns or fails.
pub record Keeps {A : Type 0} (k : Preserved) (m : M A) : Type 0 where
  pub at : (db : Db) → k.Rel db.tables (m db).1.tables

-- The tables after a statement: a failed one changes nothing.
abbrev pub after : Tables → Result (Tables × ℕ) → Tables
after t (ok (u, n)) = u
after t (err e) = t

-- A statement keeps the relation.
abbrev pub Respects : Preserved → Statement → Type 0
Respects k s = (now : ℕ) (t : Tables) → k.Rel t (after t (s now t))

pub Respects-checked :
    (k : Preserved) (valid : Tables → Bool) (s : Statement)
    → Respects k s
    → Respects k (checked valid s)
unfolding checked
Respects-checked k valid s h now t = by_test (valid t) (h now t)
  where
    by_test :
        (b : Bool)
        → k.Rel t (after t (s now t))
        → k.Rel t (after t (if b then s now t else err violation))
    by_test true h' = h'
    by_test false h' = k.same t

module _ {k : Preserved} where
  pub Keeps-pure : {A : Type 0} (a : A) → Keeps k (pure a)
  Keeps-pure a = record { at = λ db. k.same db.tables }

  pub Keeps-raise : {A : Type 0} (e : Error) → Keeps k (raise {A = A} e)
  Keeps-raise e = record { at = λ db. k.same db.tables }

  pub Keeps-if :
      {A : Type 0} (b : Bool) (m n : M A) → Keeps k m → Keeps k n → Keeps k (if b then m else n)
  Keeps-if true m n km kn = km
  Keeps-if false m n km kn = kn

  pub Keeps-query : {A : Type 0} (q : ℕ → Tables → Result A) → Keeps k (query q)
  unfolding query
  Keeps-query q = record { at = λ db. k.same db.tables }

  pub Keeps-open_db : Keeps k open_db
  unfolding open_db
  Keeps-open_db = record { at = λ db. k.same db.tables }

  Keeps-begin : Keeps k begin
  unfolding begin
  Keeps-begin = record { at = λ db. k.same db.tables }

  Keeps-continue :
      {A B : Type 0} (t : Tables) (r : Result A) (f : A → M B) (db : Db)
      → ((a : A) → Keeps k (f a))
      → k.Rel t db.tables
      → k.Rel t (continue r f db).1.tables
  Keeps-continue t (ok a) f db kf h = k.trans t db.tables _ h ((kf a).at db)
  Keeps-continue t (err e) f db kf h = h

  pub Keeps-bind :
      {A B : Type 0} (m : M A) (f : A → M B)
      → Keeps k m
      → ((a : A) → Keeps k (f a))
      → Keeps k (m >>= f)
  Keeps-bind m f km kf = record {
    at = λ db. Keeps-continue db.tables (m db).0 f (m db).1 kf (km.at db);
  }

  pub Keeps-exec : (s : Statement) → Respects k s → Keeps k (exec s)
  unfolding exec
  Keeps-exec s h = record {
    at = λ db.
        by_fault db.tables (next_fault db) (s db.now db.tables) (used db) refl (h db.now db.tables);
  }
    where
      by_fault :
          (t : Tables) (f : Fault) (r : Result (Tables × ℕ)) (db : Db)
          → db.tables ≡ t
          → k.Rel t (after t r)
          → k.Rel t (on_exec f r db).1.tables
      by_fault t fine (ok (u, n)) db e h' = h'
      by_fault t fine (err x) db e h' = rw e (k.same t)
      by_fault t refused r db e h' = rw e (k.same t)
      by_fault t reply_lost (ok (u, n)) db e h' = h'
      by_fault t reply_lost (err x) db e h' = rw e (k.same t)

  pub Keeps-expect_one : (text : String) (count : ℕ) → Keeps k (expect_one text count)
  Keeps-expect_one text count = Keeps-if (count == 1) _ _ (Keeps-pure tt) (Keeps-raise _)

  pub Keeps-transaction : (body : M (Bool × String)) → Keeps k body → Keeps k (transaction body)
  unfolding transaction
  Keeps-transaction body h =
      Keeps-bind begin _ Keeps-begin
        λ _. record { at = λ db. by_answer db.tables (body db).0 (body db).1 (h.at db) }
    where
      by_commit :
          (t : Tables) (f : Fault) (a : Bool × String) (db : Db)
          → k.Rel t db.tables
          → k.Rel t (on_commit f t a db).1.tables
      by_commit t fine a db r = r
      by_commit t refused a db r = k.same t
      by_commit t reply_lost a db r = r

      by_answer :
          (t : Tables) (r : Result (Bool × String)) (db : Db)
          → k.Rel t db.tables
          → k.Rel t (finish t r db).1.tables
      by_answer t (ok (true, text)) db r = by_commit t (next_fault db) (true, text) (used db) r
      by_answer t (ok (false, text)) db r = k.same t
      by_answer t (err e) db r = k.same t

pub ruleset keeps_rules = (
  Keeps-pure, Keeps-raise, Keeps-if, Keeps-query, Keeps-open_db, Keeps-bind, Keeps-expect_one,
  Keeps-transaction,
)
