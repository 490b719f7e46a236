-- ===== src/Db/Hoare.antt =====
-- What an action that returns a value has read and has left in the tables: a rule for each way to
-- build an action. An action that fails promises nothing.
pub mod Calls
pub mod Post
use mathlib.Core.Path.{subst}
use boltcard.Prelude.{
  ℕ, ◌≡◌, refl, sym, Bool, true, false, Option, none, some, String, if◌then◌else◌, ◌==◌, arith,
  List, [], ◌∷◌,
}
use boltcard.Db.Schema.{Tables, Fault, fine, refused, reply_lost, Db, Error}
use boltcard.Db.Monad.{
  Result, ok, err, M, pure, raise, continue, ◌>>=◌, ◌>>◌, on_query, query, open_db, begin, on_exec,
  exec, Statement, on_commit, finish, transaction, next_fault, used,
}

-- Started at the time `now` on the tables `t`, the action returns an `a` and leaves the tables `t'`
-- only if `Q a t'` holds. No action takes time.
pub record Ensures {A : Type 0} (now : ℕ) (t : Tables) (m : M A) (Q : A → Tables → Type 0)
    : Type 0 where
  pub at :
      (db : Db)
      → db.now ≡ now
      → db.tables ≡ t
      → (a : A) → (m db).0 ≡ ok a
      → ((m db).1.now ≡ now) × Q a (m db).1.tables

-- The action changes no table.
abbrev pub Reads : {A : Type 0} → ℕ → Tables → M A → (A → Type 0) → Type 0
Reads now t m F = Ensures now t m (λ a t'. (t' ≡ t) × F a)

pub ok_inj : {A : Type 0} (a b : A) → ok a ≡ ok b → a ≡ b
ok_inj a b e = cc

module _ {A : Type 0} {now : ℕ} {t : Tables} {Q : A → Tables → Type 0} where
  pub Ensures-pure : (a : A) → Q a t → Ensures now t (pure a) Q
  Ensures-pure a q = record {
    at = λ db n s b e. (n, subst (λ x. Q x db.tables) (ok_inj a b e) (subst (Q a) (sym s) q));
  }

  pub Ensures-raise : (x : Error) → Ensures now t (raise x) Q
  Ensures-raise x = record { at = λ db n s a e. absurd (cc) }

  pub Ensures-if :
      (b : Bool) (m n : M A)
      → (b ≡ true → Ensures now t m Q)
      → (b ≡ false → Ensures now t n Q)
      → Ensures now t (if b then m else n) Q
  Ensures-if true m n hm hn = hm refl
  Ensures-if false m n hm hn = hn refl

  pub Ensures-weaken :
      {Q' : A → Tables → Type 0} (m : M A)
      → ((a : A) (t' : Tables) → Q' a t' → Q a t')
      → Ensures now t m Q'
      → Ensures now t m Q
  Ensures-weaken m post h = record {
    at = λ db n s a e. let (n', q) = h.at db n s a e in (n', post a _ q);
  }

  pub Ensures-bind :
      {B : Type 0} {R : B → Tables → Type 0} (m : M B) (f : B → M A)
      → Ensures now t m R
      → ((b : B) (t' : Tables) → R b t' → Ensures now t' (f b) Q)
      → Ensures now t (m >>= f) Q
  Ensures-bind {B = B} {R = R} m f hm hf = record {
    at = λ db n s a. continued (m db).0 (m db).1 (hm.at db n s) a;
  }
    where
      continued :
          (r : Result B) (db : Db)
          → ((b : B) → r ≡ ok b → (db.now ≡ now) × R b db.tables)
          → (a : A) → (continue r f db).0 ≡ ok a
          → ((continue r f db).1.now ≡ now) × Q a (continue r f db).1.tables
      continued (ok b) db h a e = let (n, q) = h b refl in (hf b db.tables q).at db n refl a e
      continued (err x) db h a e = absurd (cc)

  pub Ensures-read :
      {B : Type 0} {F : B → Type 0} (m : M B) (f : B → M A)
      → Reads now t m F
      → ((b : B) → F b → Ensures now t (f b) Q)
      → Ensures now t (m >>= f) Q
  Ensures-read m f hm hf =
      Ensures-bind m f hm λ b t' (s, q). subst (λ u. Ensures now u (f b) Q) (sym s) (hf b q)

-- What a query returns is what it reads.
pub Reads-query :
    {A : Type 0} {now : ℕ} {t : Tables} (q : ℕ → Tables → Result A)
    → Reads now t (query q) (λ a. q now t ≡ ok a)
unfolding query used on_query
Reads-query {A = A} {now} {t} q = record {
  at = λ db n s a e. (n, (s, answered (next_fault db) _ a (rw (sym n, sym s) e)));
}
  where
    answered : (f : Fault) (r : Result A) (a : A) → on_query f r ≡ ok a → r ≡ ok a
    answered fine r a e = e
    answered refused r a e = absurd (cc)
    answered reply_lost r a e = absurd (cc)

pub Reads-open_db : {now : ℕ} {t : Tables} → Reads now t open_db (λ _. Unit {0})
unfolding open_db
Reads-open_db = Ensures-weaken _ (λ a t' (s, q). (s, tt)) (Reads-query (λ now t. ok tt))

-- What a statement returns is the number of rows, and what it leaves its tables.
pub Ensures-exec :
    {now : ℕ} {t : Tables} (s : Statement) → Ensures now t (exec s) (λ n t'. s now t ≡ ok (t', n))
unfolding exec
Ensures-exec {now} {t} s = record {
  at = λ db n e a. executed (next_fault db) (used db) _ a n (rw (sym n, sym e) refl);
}
  where
    executed :
        (f : Fault) (db : Db) (r : Result (Tables × ℕ)) (a : ℕ)
        → db.now ≡ now
        → r ≡ s now t
        → (on_exec f r db).0 ≡ ok a
        → ((on_exec f r db).1.now ≡ now) × (s now t ≡ ok ((on_exec f r db).1.tables, a))
    executed fine db (ok (t', k)) a n i e = (n, rw (sym i, ok_inj k a e) refl)
    executed fine db (err x) a n i e = absurd (cc)
    executed refused db r a n i e = absurd (cc)
    executed reply_lost db (ok x) a n i e = absurd (cc)
    executed reply_lost db (err x) a n i e = absurd (cc)

-- A transaction that commits leaves what its body leaves, and one that rolls back what was there.
pub Ensures-transaction :
    {now : ℕ} {t : Tables} {Q : Bool × String → Tables → Type 0} (body : M (Bool × String))
    → Ensures now t body Q
    → ((text : String) → Q (false, text) t)
    → Ensures now t (transaction body) Q
unfolding transaction begin query on_query used
Ensures-transaction {now} {t} {Q} body h rolled = record {
  at = λ db n s. begun (on_query (next_fault db) (ok tt)) (used db) n s;
}
  where
    committed :
        (f : Fault) (before : Tables) (x a : Bool × String) (db : Db)
        → (db.now ≡ now) × Q x db.tables
        → (on_commit f before x db).0 ≡ ok a
        → ((on_commit f before x db).1.now ≡ now) × Q a (on_commit f before x db).1.tables
    committed fine before x a db (n, q) e = (n, subst (λ y. Q y db.tables) (ok_inj x a e) q)
    committed refused before x a db q e = absurd (cc)
    committed reply_lost before x a db q e = absurd (cc)

    ended :
        (r : Result (Bool × String)) (before : Tables) (db : Db)
        → before ≡ t
        → ((x : Bool × String) → r ≡ ok x → (db.now ≡ now) × Q x db.tables)
        → (a : Bool × String) → (finish before r db).0 ≡ ok a
        → ((finish before r db).1.now ≡ now) × Q a (finish before r db).1.tables
    ended (ok (true, text)) before db b q a e =
        committed (next_fault db) before (true, text) a (used db) (q _ refl) e
    ended (ok (false, text)) before db b q a e = (
      (q _ refl).0,
      subst (λ y. Q y before) (ok_inj _ a e) (subst (Q (false, text)) (sym b) (rolled text)),
    )
    ended (err x) before db b q a e = absurd (cc)

    begun :
        (r : Result (Unit {0})) (db : Db)
        → db.now ≡ now
        → db.tables ≡ t
        → (a : Bool × String)
        → let after = continue r (λ _ d. finish d.tables (body d).0 (body d).1) db in
          after.0 ≡ ok a → (after.1.now ≡ now) × Q a after.1.tables
    begun (ok u) db n s a e = ended (body db).0 db.tables (body db).1 s (h.at db n s) a e
    begun (err x) db n s a e = absurd (cc)
