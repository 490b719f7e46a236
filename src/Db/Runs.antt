-- ===== src/Db/Runs.antt =====
-- Actions as histories: an action that makes only calls of db/db.go leaves the state that a history
-- of them leaves, and what it starts is accounted for by the payments that the history authorizes.
pub mod Calls
use mathlib.Core.Path.{subst}
use mathlib.Core.List.{append_assoc}
use boltcard.Prelude.{
  ℕ, ◌+◌, ◌≤◌, ◌≡◌, refl, sym, ◌∙◌, Bool, true, false, List, [], ◌∷◌, ◌++◌, Option, none, some,
  String, arith, if◌then◌else◌,
}
use boltcard.Db.Schema.{Tables, Db, Error, message}
use boltcard.Db.Monad.{Result, ok, err, M, pure, raise, continue, ◌>>=◌, ◌>>◌, query, open_db, used}
use boltcard.Db.Calls.{Call, reads, step, run, claims_at, claims}
use boltcard.Lnurlw.Tap.{or_raise, ensure, or_message, ignore}

run_append : (db : Db) (cs ds : List Call) → run db (cs ++ ds) ≡ run (run db cs) ds
unfolding run
run_append db [] ds = refl
run_append db (c ∷ cs) ds = run_append (step db c) cs ds

claims_append :
    (id : ℕ) (db : Db) (cs ds : List Call)
    → claims id db (cs ++ ds) ≡ claims id db cs + claims id (run db cs) ds
unfolding run claims
claims_append id db [] ds = omega arith
claims_append id db (c ∷ cs) ds = omega (arith, claims_append id (step db c) cs ds)

-- A history from `db` to `db'` that authorizes each payment `id` at least `owed id` times, less
-- `credit id`.
pub record History (credit owed : ℕ → ℕ) (db db' : Db) : Type 0 where
  pub calls : List Call
  pub leads : run db calls ≡ db'
  pub covers : (id : ℕ) → owed id ≤ credit id + claims id db calls

pub History-same : (credit : ℕ → ℕ) (db : Db) → History credit credit db db
History-same credit db = record {
  calls = [];
  leads = unfold run in refl;
  covers = λ id. unfold claims in omega arith;
}

pub History-then :
    {credit owed owed' : ℕ → ℕ} {db db' db'' : Db}
    → History credit owed db db'
    → History owed owed' db' db''
    → History credit owed' db db''
History-then {credit} {owed} {owed'} {db} {db'} {db''} h k = record {
  calls = h.calls ++ k.calls;
  leads = run_append db h.calls k.calls ∙ rw (h.leads) (k.leads);
  covers = λ id.
      let more : owed' id ≤ owed id + claims id (run db h.calls) k.calls =
        subst (λ d. owed' id ≤ owed id + claims id d k.calls) (sym h.leads) (k.covers id) in
      rw (claims_append id db h.calls k.calls) (omega (arith, more, h.covers id));
}

-- One history after another that has no credit.
pub History-plus :
    {credit owed owed' : ℕ → ℕ} {db db' db'' : Db}
    → History credit owed db db'
    → History (λ id. 0) owed' db' db''
    → History credit (λ id. owed id + owed' id) db db''
History-plus {credit} {owed} {owed'} {db} {db'} {db''} h k = record {
  calls = h.calls ++ k.calls;
  leads = run_append db h.calls k.calls ∙ rw (h.leads) (k.leads);
  covers = λ id.
      let more : owed' id ≤ 0 + claims id (run db h.calls) k.calls =
        subst (λ d. owed' id ≤ 0 + claims id d k.calls) (sym h.leads) (k.covers id) in
      rw (claims_append id db h.calls k.calls) (omega (arith, more, h.covers id));
}

-- What a result is owed: nothing for an error.
abbrev pub owed_by : {A : Type 0} → (A → ℕ → ℕ) → Result A → ℕ → ℕ
owed_by weight (ok a) id = weight a id
owed_by weight (err e) id = 0

-- The action is a history, whatever the state it starts in.
pub record Traced {A : Type 0} (credit : ℕ → ℕ) (weight : A → ℕ → ℕ) (m : M A) : Type 0 where
  pub at : (db : Db) → History credit (owed_by weight (m db).0) db (m db).1

-- A history that authorizes at least nothing.
pub record Runs {A : Type 0} (m : M A) : Type 0 where
  pub at : (db : Db) → (cs : List Call) × (run db cs ≡ (m db).1)

module _ {A : Type 0} where
  -- A credit that is not used is left.
  pub Runs-Traced : {credit : ℕ → ℕ} (m : M A) → Runs m → Traced credit (λ a. credit) m
  Runs-Traced {credit} m h = record { at = λ db. whole db (m db).0 (h.at db) }
    where
      whole :
          (db : Db) (r : Result A)
          → (cs : List Call) × (run db cs ≡ (m db).1)
          → History credit (owed_by (λ a. credit) r) db (m db).1
      whole db (ok a) (cs, e) = record { calls = cs; leads = e; covers = λ id. omega arith }
      whole db (err x) (cs, e) = record { calls = cs; leads = e; covers = λ id. omega arith }

  pub Traced-Runs :
      {credit : ℕ → ℕ} {weight : A → ℕ → ℕ} (m : M A) → Traced credit weight m → Runs m
  Traced-Runs m h = record { at = λ db. ((h.at db).calls, (h.at db).leads) }

  pub Traced-bind :
      {B : Type 0} {credit : ℕ → ℕ} {weight : B → ℕ → ℕ} {weight' : A → ℕ → ℕ} (m : M B)
      (f : B → M A)
      → Traced credit weight m
      → ((b : B) → Traced (weight b) weight' (f b))
      → Traced credit weight' (m >>= f)
  Traced-bind {B} {credit} {weight} {weight'} m f hm hf = record {
    at = λ db. continued db (m db).0 (m db).1 (hm.at db);
  }
    where
      continued :
          (db : Db) (r : Result B) (db' : Db)
          → History credit (owed_by weight r) db db'
          → History credit (owed_by weight' (continue r f db').0) db (continue r f db').1
      continued db (ok b) db' h = History-then h ((hf b).at db')
      continued db (err x) db' h = record {
        calls = h.calls;
        leads = h.leads;
        covers = λ id. omega arith;
      }

  pub Runs-pure : (a : A) → Runs (pure a)
  Runs-pure a = record { at = λ db. ([], unfold run in refl) }

  pub Runs-raise : (e : Error) → Runs (raise {A = A} e)
  Runs-raise e = record { at = λ db. ([], unfold run in refl) }

  pub Runs-query : (q : ℕ → Tables → Result A) → Runs (query q)
  unfolding query
  Runs-query q = record { at = λ db. (reads ∷ [], unfold run step in refl) }

  pub Runs-bind :
      {B : Type 0} (m : M B) (f : B → M A) → Runs m → ((b : B) → Runs (f b)) → Runs (m >>= f)
  Runs-bind {B} m f hm hf = record { at = λ db. continued db (m db).0 (m db).1 (hm.at db) }
    where
      continued :
          (db : Db) (r : Result B) (db' : Db)
          → (cs : List Call) × (run db cs ≡ db')
          → (cs : List Call) × (run db cs ≡ (continue r f db').1)
      continued db (ok b) db' (cs, e) =
          let (ds, k) = (hf b).at db' in (cs ++ ds, run_append db cs ds ∙ rw e k)
      continued db (err x) db' (cs, e) = (cs, e)

  -- What follows an action may look at its error.
  pub Runs-after :
      {B : Type 0} (m : M B) (k : Result B → M A)
      → Runs m
      → ((r : Result B) → Runs (k r))
      → Runs (λ db. k (m db).0 (m db).1)
  Runs-after m k hm hk = record {
    at = λ db.
        let (cs, e) = hm.at db in
        let (ds, f) = (hk (m db).0).at (m db).1 in (cs ++ ds, run_append db cs ds ∙ rw e f);
  }

  pub Runs-if : (b : Bool) (m n : M A) → Runs m → Runs n → Runs (if b then m else n)
  Runs-if true m n hm hn = hm
  Runs-if false m n hm hn = hn

  pub Runs-or_raise : (o : Option A) (e : Error) → Runs (or_raise o e)
  Runs-or_raise none e = Runs-raise e
  Runs-or_raise (some a) e = Runs-pure a

  pub Runs-or_message : (m : M A) (text : String) → Runs m → Runs (or_message m text)
  Runs-or_message m text h = record { at = λ db. h.at db }

  pub Runs-ignore : (m : M A) → Runs m → Runs (ignore m)
  Runs-ignore m h = record { at = λ db. h.at db }

  -- An action that leaves the state of a call.
  pub Runs-call : (m : M A) (c : Call) → ((db : Db) → step db c ≡ (m db).1) → Runs m
  Runs-call m c h = record { at = λ db. (c ∷ [], unfold run in h db) }

pub Runs-ensure : (b : Bool) (e : Error) → Runs (ensure b e)
Runs-ensure true e = Runs-pure tt
Runs-ensure false e = Runs-raise e

pub Runs-open_db : Runs open_db
unfolding open_db
Runs-open_db = Runs-query _

pub ruleset runs_rules = (
  Runs-pure, Runs-raise, Runs-query, Runs-bind, Runs-if, Runs-or_raise, Runs-or_message,
  Runs-ignore, Runs-ensure, Runs-open_db,
)
