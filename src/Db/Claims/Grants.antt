-- ===== src/Db/Claims/Grants.antt =====
-- The answer `true` of `Authorize_payment` leaves the payment claimed.
use boltcard.Prelude.{
  ℕ, ◌≡◌, refl, inl, inr, List, [], ◌∷◌, some, Bool, true, false, ◌&&◌, String, ◌==◌, if◌then◌else◌,
  arith, Bool-cases,
}
use boltcard.Db.Schema.{Tables, PaymentRow, Db, Fault, fine, refused, reply_lost}
use boltcard.Db.Monad.{
  Result, ok, err, M, pure, continue, ◌>>=◌, exec, transaction, next_fault, used, begin, finish,
  on_exec, on_commit,
}
use boltcard.Db.Rows.{update_rows}
use boltcard.Db.Authorize.{Locked, claim_sql, claimed_one, claim, check_rules, authorize_payment}
use boltcard.Db.Calls.{authorized}
use boltcard.Db.Claims.Forward.{Spent}

-- What holds of the tables whenever the answer is `true`.
pub record Grants (P : Tables → Type 0) (m : M (Bool × String)) : Type 0 where
  pub at : (db : Db) → authorized (m db).0 ≡ true → P (m db).1.tables

module _ {P : Tables → Type 0} where
  Grants-refuse : (text : String) → Grants P (pure (false, text))
  Grants-refuse text = record { at = λ db e. absurd (cc) }

  Grants-if :
      (b : Bool) (m n : M (Bool × String)) → Grants P m → Grants P n → Grants P (if b then m else n)
  Grants-if true m n gm gn = gm
  Grants-if false m n gm gn = gn

  Grants-continue :
      {A : Type 0} (r : Result A) (f : A → M (Bool × String)) (db : Db)
      → ((a : A) → Grants P (f a))
      → authorized (continue r f db).0 ≡ true
      → P (continue r f db).1.tables
  Grants-continue (ok a) f db gf e = (gf a).at db e
  Grants-continue (err x) f db gf e = absurd (cc)

  Grants-bind :
      {A : Type 0} (m : M A) (f : A → M (Bool × String))
      → ((a : A) → Grants P (f a))
      → Grants P (m >>= f)
  Grants-bind m f gf = record { at = λ db. Grants-continue (m db).0 f (m db).1 gf }

  Grants-transaction : (body : M (Bool × String)) → Grants P body → Grants P (transaction body)
  unfolding transaction
  Grants-transaction body g =
      Grants-bind begin _
        λ _. record { at = λ db. by_answer db.tables (body db).0 (body db).1 (g.at db) }
    where
      by_commit :
          (t : Tables) (f : Fault) (text : String) (db : Db)
          → P db.tables
          → authorized (on_commit f t (true, text) db).0 ≡ true
          → P (on_commit f t (true, text) db).1.tables
      by_commit t fine text db p e = p
      by_commit t refused text db p e = absurd (cc)
      by_commit t reply_lost text db p e = absurd (cc)

      by_answer :
          (t : Tables) (r : Result (Bool × String)) (db : Db)
          → (authorized r ≡ true → P db.tables)
          → authorized (finish t r db).0 ≡ true
          → P (finish t r db).1.tables
      by_answer t (ok (true, text)) db p e = by_commit t (next_fault db) text (used db) (p refl) e
      by_answer t (ok (false, text)) db p e = absurd (cc)
      by_answer t (err x) db p e = absurd (cc)

Spent-claimed :
    (id now : ℕ) (rs : List PaymentRow)
    → Spent id (
        update_rows
          (λ r. r.card_payment_id == id && r.paid_flag == b'N')
          (λ r. record r { paid_flag = b'Y'; payment_time = some now })
          rs)
unfolding update_rows
Spent-claimed id now [] = tt
Spent-claimed id now (r ∷ rs) = (ground arith, Spent-claimed id now rs)

claim-Grants : (id : ℕ) → Grants (λ t. Spent id t.payments) (claim id)
unfolding claim claimed_one exec claim_sql
claim-Grants id = record {
  at = λ db. by_fault (next_fault db) (used db) _ _ (Spent-claimed id db.now db.tables.payments);
}
  where
    by_fault :
        (f : Fault) (db : Db) (t : Tables) (n : ℕ)
        → Spent id t.payments
        → let (r, db') = on_exec f (ok (t, n)) db in
          authorized (continue r claimed_one db').0 ≡ true
          → Spent id (continue r claimed_one db').1.tables.payments
    by_fault fine db t n h e = elim (Bool-cases (n == 1)) [
      | inl one ↦ rw one h
      | inr other ↦ rw other h
    ]
    by_fault refused db t n h e = absurd (cc)
    by_fault reply_lost db t n h e = absurd (cc)

check_rules-Grants :
    (id sats : ℕ) (totals : Bool) (l : Locked)
    → Grants (λ t. Spent id t.payments) (check_rules id sats totals l)
unfolding check_rules
check_rules-Grants id sats totals l =
    search (Grants-refuse, Grants-if, Grants-bind, claim-Grants) depth 12

pub authorize_payment-Grants :
    (id sats : ℕ) (totals : Bool)
    → Grants (λ t. Spent id t.payments) (authorize_payment id sats totals)
unfolding authorize_payment
authorize_payment-Grants id sats totals =
    search (Grants-bind, Grants-transaction, check_rules-Grants)
