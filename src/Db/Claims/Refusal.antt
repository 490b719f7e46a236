-- ===== src/Db/Claims/Refusal.antt =====
-- `Authorize_payment` refuses a payment that is claimed already.
use boltcard.Prelude.{
  ℕ, ◌≡◌, refl, sym, ◌≢◌, Option, none, some, Bool, true, false, String, ◌==◌, arith, ==_iff,
}
use mathlib.Core.Path.{subst}
use boltcard.Db.Schema.{Tables, PaymentRow, Db, Fault, fine, refused, reply_lost}
use boltcard.Db.Monad.{
  Result, ok, err, M, continue, ◌>>=◌, query, open_db, transaction, next_fault, on_query, used,
  begin, finish,
}
use boltcard.Db.Rows.{select_row, All-select_row, select_row-holds}
use boltcard.Db.Payments.{with_id, join_card}
use boltcard.Db.Authorize.{Locked, locked_row, lock_rows, check_rules, authorize_payment}
use boltcard.Db.Calls.{authorized}
use boltcard.Db.Claims.Forward.{RowSpent, Spent}

lock_rows-Spent :
    (id : ℕ) (t : Tables) (l : Locked)
    → Spent id t.payments
    → lock_rows id t ≡ ok l
    → (l.paid_flag == b'N') ≡ false
unfolding lock_rows locked_row
lock_rows-Spent id t l h e =
    from (select_row (with_id id) t.payments)
      (λ r s.
        All-select_row (RowSpent id) _ t.payments r h s
          ((==_iff _ _).0 (select_row-holds _ t.payments r s)))
      e
  where
    from :
        (o : Option PaymentRow)
        → ((r : PaymentRow) → o ≡ some r → r.paid_flag ≢ b'N')
        → join_card locked_row t o ≡ ok l
        → (l.paid_flag == b'N') ≡ false
    from none n e' = absurd (cc)
    from (some r) n e' = ground (arith, n r refl)

check_rules-refuses :
    (id sats : ℕ) (totals : Bool) (l : Locked) (db : Db)
    → (l.paid_flag == b'N') ≡ false
    → authorized (check_rules id sats totals l db).0 ≡ false
unfolding check_rules
check_rules-refuses id sats totals l db e = rw e

body_refuses :
    (id sats : ℕ) (totals : Bool) (f : Fault) (r : Result Locked) (db : Db)
    → ((l : Locked) → r ≡ ok l → (l.paid_flag == b'N') ≡ false)
    → authorized (continue (on_query f r) (check_rules id sats totals) db).0 ≡ false
unfolding on_query
body_refuses id sats totals fine (ok l) db h = check_rules-refuses id sats totals l db (h l refl)
body_refuses id sats totals fine (err e) db h = refl
body_refuses id sats totals refused r db h = refl
body_refuses id sats totals reply_lost r db h = refl

finish-refuses :
    (t : Tables) (r : Result (Bool × String)) (db : Db)
    → authorized r ≡ false
    → authorized (finish t r db).0 ≡ false
unfolding transaction
finish-refuses t (ok (true, text)) db e = absurd (cc)
finish-refuses t (ok (false, text)) db e = refl
finish-refuses t (err x) db e = refl

transaction-refuses :
    (body : M (Bool × String)) (db : Db)
    → ((d : Db) → d.tables ≡ db.tables → authorized (body d).0 ≡ false)
    → authorized (transaction body db).0 ≡ false
unfolding transaction begin query
transaction-refuses body db h = begun (on_query (next_fault db) (ok tt))
  where
    begun :
        (r : Result (Unit {0}))
        → authorized (continue r (λ _ d. finish d.tables (body d).0 (body d).1) (used db)).0 ≡ false
    begun (ok u) = finish-refuses _ (body (used db)).0 _ (h (used db) refl)
    begun (err e) = refl

-- A payment whose claim is taken is not authorized, whatever faults the calls meet.
pub authorize_payment-refuses :
    (id sats : ℕ) (totals : Bool) (db : Db)
    → Spent id db.tables.payments
    → authorized (authorize_payment id sats totals db).0 ≡ false
unfolding authorize_payment open_db query
authorize_payment-refuses id sats totals db h = opened (on_query (next_fault db) (ok tt))
  where
    opened :
        (r : Result (Unit {0}))
        → authorized
            (continue r
              (λ _. transaction (query (λ now t. lock_rows id t) >>= check_rules id sats totals))
              (used db)).0
          ≡ false
    opened (ok u) = transaction-refuses _ (used db) λ d e.
        body_refuses id sats totals (next_fault d) (lock_rows id d.tables) (used d)
          λ l. lock_rows-Spent id d.tables l (subst (λ t. Spent id t.payments) (sym e) h)
    opened (err e) = refl
