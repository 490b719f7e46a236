-- ===== src/Db/Hoare/Post.antt =====
-- What holds where an action returns, with the state it leaves: for actions that wait, while other
-- requests are served.
use boltcard.Prelude.{◌≡◌, refl, Bool, true, false, Option, none, some}
use mathlib.Core.Path.{subst}
use boltcard.Db.Schema.{Tables, Db, Error}
use boltcard.Db.Monad.{Result, ok, err, M, pure, raise, continue, ◌>>=◌}
use boltcard.Db.Hoare.{Ensures}
use boltcard.Lnurlw.Tap.{or_raise, ensure}

pub record Post {A : Type 0} (db : Db) (m : M A) (Q : A → Db → Type 0) : Type 0 where
  pub at : (a : A) → (m db).0 ≡ ok a → Q a (m db).1

module _ {A : Type 0} {db : Db} where
  pub Post-any : (m : M A) → Post db m (λ _ _. Unit {0})
  Post-any m = record { at = λ a e. tt }

  pub Post-value : (m : M A) → Post db m (λ a _. (m db).0 ≡ ok a)
  Post-value m = record { at = λ a e. e }

  pub Post-Ensures :
      {Q : A → Tables → Type 0} (m : M A)
      → Ensures db.now db.tables m Q
      → Post db m (λ a db'. (db'.now ≡ db.now) × Q a db'.tables)
  Post-Ensures m h = record { at = λ a e. h.at db refl refl a e }

  pub Post-weaken :
      {Q Q' : A → Db → Type 0} (m : M A)
      → ((a : A) (db' : Db) → Q a db' → Q' a db')
      → Post db m Q
      → Post db m Q'
  Post-weaken m f h = record { at = λ a e. f a _ (h.at a e) }

  pub Post-pure : {Q : A → Db → Type 0} (a : A) → Q a db → Post db (pure a) Q
  Post-pure {Q} a q = record { at = λ b e. subst (λ x. Q x db) (inj b e) q }
    where
      inj : (b : A) → ok a ≡ ok b → a ≡ b
      inj b e = cc

  pub Post-raise : {Q : A → Db → Type 0} (x : Error) → Post db (raise x) Q
  Post-raise x = record { at = λ b e. absurd (cc) }

  pub Post-or_raise : (o : Option A) (x : Error) → Post db (or_raise o x) (λ a _. o ≡ some a)
  Post-or_raise none x = Post-raise x
  Post-or_raise (some a) x = Post-pure a refl

  pub Post-bind :
      {B : Type 0} {R : B → Db → Type 0} {Q : A → Db → Type 0} (m : M B) (f : B → M A)
      → Post db m R
      → ((b : B) (db' : Db) → R b db' → Post db' (f b) Q)
      → Post db (m >>= f) Q
  Post-bind {B} {R} {Q} m f hm hf = record { at = continued (m db).0 (m db).1 hm.at }
    where
      continued :
          (r : Result B) (db' : Db)
          → ((b : B) → r ≡ ok b → R b db')
          → (a : A) → (continue r f db').0 ≡ ok a
          → Q a (continue r f db').1
      continued (ok b) db' h a e = (hf b db' (h b refl)).at a e
      continued (err x) db' h a e = absurd (cc)

pub Post-ensure : {db : Db} (b : Bool) (e : Error) → Post db (ensure b e) (λ _ _. b ≡ true)
Post-ensure true e = record { at = λ b' e'. refl }
Post-ensure false e = record { at = λ b' e'. absurd (cc) }

-- What an action in two parts returns, the second part returns after the first.
pub returned_bind :
    {A B : Type 0} (m : M B) (f : B → M A) (db : Db) (a : A)
    → ((m >>= f) db).0 ≡ ok a
    → (b : B) × ((m db).0 ≡ ok b) × ((f b (m db).1).0 ≡ ok a)
returned_bind {A} {B} m f db = by_result (m db).0 (m db).1
  where
    by_result :
        (r : Result B) (db' : Db) (a : A)
        → (continue r f db').0 ≡ ok a
        → (b : B) × (r ≡ ok b) × ((f b db').0 ≡ ok a)
    by_result (ok b) db' a e = (b, refl, e)
    by_result (err x) db' a e = absurd (cc)
