-- ===== src/Db/Timeless.antt =====
-- Actions that take no time.
pub mod Calls
use boltcard.Prelude.{
  ℕ, suc, ◌+◌, ◌≤◌, ◌≡◌, refl, sym, List, [], ◌∷◌, Option, none, some, Bool, true, false, String,
  ◌==◌, if◌then◌else◌, arith,
}
use boltcard.Prelude.Int.{ℤ}
use boltcard.Text.{Text}
use boltcard.Db.Schema.{Db, Tables, Error, Fault, fine, refused, reply_lost, failed}
use boltcard.Db.Monad.{
  Result, ok, err, M, pure, raise, continue, ◌>>=◌, ◌>>◌, query, open_db, Statement, exec, on_exec,
  expect_one, begin, finish, on_commit, transaction, next_fault, used,
}

pub record Timeless {A : Type 0} (m : M A) : Type 0 where
  pub at : (db : Db) → (m db).1.now ≡ db.now

pub Timeless-pure : {A : Type 0} (a : A) → Timeless (pure a)
Timeless-pure a = record { at = λ db. refl }

pub Timeless-raise : {A : Type 0} (e : Error) → Timeless {A = A} (raise e)
Timeless-raise e = record { at = λ db. refl }

pub Timeless-if :
    {A : Type 0} (b : Bool) (m n : M A) → Timeless m → Timeless n → Timeless (if b then m else n)
Timeless-if true m n hm hn = hm
Timeless-if false m n hm hn = hn

pub Timeless-query : {A : Type 0} (q : ℕ → Tables → Result A) → Timeless (query q)
unfolding query used
Timeless-query q = record { at = λ db. refl }

pub Timeless-open_db : Timeless open_db
unfolding open_db query used
Timeless-open_db = record { at = λ db. refl }

continue-now :
    {A B : Type 0} (r : Result A) (f : A → M B) (db : Db)
    → ((a : A) → Timeless (f a))
    → (continue r f db).1.now ≡ db.now
continue-now (ok a) f db h = (h a).at db
continue-now (err e) f db h = refl

pub Timeless-bind :
    {A B : Type 0} (m : M A) (f : A → M B)
    → Timeless m
    → ((a : A) → Timeless (f a))
    → Timeless (m >>= f)
Timeless-bind m f hm hf = record { at = λ db. rw (continue-now (m db).0 f (m db).1 hf) (hm.at db) }

pub Timeless-exec : (s : Statement) → Timeless (exec s)
unfolding exec used
Timeless-exec s = record { at = λ db. executed (next_fault db) (s db.now db.tables) (used db) }
  where
    executed : (f : Fault) (r : Result (Tables × ℕ)) (db : Db) → (on_exec f r db).1.now ≡ db.now
    executed fine (ok (t, n)) db = refl
    executed fine (err e) db = refl
    executed refused r db = refl
    executed reply_lost (ok (t, n)) db = refl
    executed reply_lost (err e) db = refl

pub Timeless-expect_one : (text : String) (count : ℕ) → Timeless (expect_one text count)
Timeless-expect_one text count = Timeless-if (count == 1) _ _ (Timeless-pure tt) (Timeless-raise _)

pub Timeless-transaction : (body : M (Bool × String)) → Timeless body → Timeless (transaction body)
unfolding transaction begin query used
Timeless-transaction body h =
    Timeless-bind begin _ (record { at = λ db. refl })
      λ _. record { at = λ db. rw (finished db.tables (body db).0 (body db).1) (h.at db) }
  where
    committed :
        (f : Fault) (t : Tables) (a : Bool × String) (db : Db) → (on_commit f t a db).1.now ≡ db.now
    committed fine t a db = refl
    committed refused t a db = refl
    committed reply_lost t a db = refl

    finished : (t : Tables) (r : Result (Bool × String)) (db : Db) → (finish t r db).1.now ≡ db.now
    finished t (ok (true, text)) db = committed (next_fault db) t (true, text) (used db)
    finished t (ok (false, text)) db = refl
    finished t (err e) db = refl

pub ruleset timeless_rules = (
  Timeless-pure, Timeless-raise, Timeless-if, Timeless-query, Timeless-open_db, Timeless-bind,
  Timeless-exec, Timeless-expect_one, Timeless-transaction,
)
