-- ===== src/Db/Payments/Ended.antt =====
-- What ends a withdraw request without a payment: `Fail_payment` and `Release_payment`.
use boltcard.Prelude.{
  ℕ, ◌+◌, ◌≡◌, refl, List, [], ◌∷◌, none, some, Bool, false, ◌&&◌, ◌==◌, arith, String, str_eq,
}
use boltcard.Text.{pad}
use boltcard.Db.Schema.{PaymentRow, Db}
use boltcard.Db.Monad.{ok, query, exec, open_db, used}
use boltcard.Db.Rows.{update_rows}
use boltcard.Db.Payments.{fail_payment, fail_payment_sql, release_payment, release_payment_sql}
use boltcard.Db.Totals.{counts_today, counts_in_balance, day_total_msats, spent_msats, sum_payments}
use boltcard.Db.Claims.Forward.{Spent}

abbrev failed_row : String → ℕ → PaymentRow → PaymentRow
failed_row reason now r = record r {
  paid_flag = b'Y';
  amount_msats = none;
  payment_status = "FAILED";
  failure_reason = reason;
  payment_status_time = some now;
}

fail_payment-payments :
    (id : ℕ) (reason : String) (db : Db)
    → (fail_payment id reason db).0 ≡ ok tt
    → (fail_payment id reason db).1.tables.payments
      ≡ update_rows
          (λ r. r.card_payment_id == id && r.paid_flag == b'N')
          (failed_row reason db.now)
          db.tables.payments
unfolding fail_payment open_db query exec fail_payment_sql used
fail_payment-payments id reason db e = ground arith

Spent-failed :
    (id now : ℕ) (reason : String) (rs : List PaymentRow)
    → Spent id (
        update_rows
          (λ r. r.card_payment_id == id && r.paid_flag == b'N')
          (failed_row reason now)
          rs)
unfolding update_rows
Spent-failed id now reason [] = tt
Spent-failed id now reason (r ∷ rs) = (ground arith, Spent-failed id now reason rs)

pub fail_payment-Spent :
    (id : ℕ) (reason : String) (db : Db)
    → (fail_payment id reason db).0 ≡ ok tt
    → Spent id (fail_payment id reason db).1.tables.payments
fail_payment-Spent id reason db e =
    rw (fail_payment-payments id reason db e) (Spent-failed id db.now reason db.tables.payments)

abbrev released_row : String → ℕ → PaymentRow → PaymentRow
released_row reason now r = record r {
  amount_msats = none;
  ntfy_token = pad 32 [];
  payment_status = "FAILED";
  failure_reason = reason;
  payment_status_time = some now;
}

abbrev pub to_release : ℕ → PaymentRow → Bool
to_release id r = r.card_payment_id == id && str_eq r.payment_status ""

release_payment-payments :
    (id : ℕ) (reason : String) (db : Db)
    → (release_payment id reason db).0 ≡ ok tt
    → (release_payment id reason db).1.tables.payments
      ≡ update_rows (to_release id) (released_row reason db.now) db.tables.payments
unfolding release_payment open_db query exec release_payment_sql used
release_payment-payments id reason db e = ground arith

-- The rows that the update changes no longer count, and the others count as before.
sum-released :
    (p : PaymentRow → Bool) (id now : ℕ) (reason : String) (rs : List PaymentRow)
    → ((r : PaymentRow) → p r ≡ false → p (released_row reason now r) ≡ false)
    → sum_payments p (update_rows (to_release id) (released_row reason now) rs)
        + sum_payments (λ r. to_release id r && p r) rs
      ≡ sum_payments p rs
unfolding sum_payments update_rows
sum-released p id now reason [] out = refl
sum-released p id now reason (r ∷ rs) out =
    ground (arith, out r, sum-released p id now reason rs out)

-- Whatever faults the calls meet, a release that succeeds takes exactly the payment's own amount off
-- the day's total and off the spent total of every card.
pub release_payment-frees :
    (id card now : ℕ) (reason : String) (db : Db)
    → (release_payment id reason db).0 ≡ ok tt
    → day_total_msats now card (release_payment id reason db).1.tables
          + sum_payments (λ r. to_release id r && counts_today now card r) db.tables.payments
        ≡ day_total_msats now card db.tables
      × spent_msats card (release_payment id reason db).1.tables
          + sum_payments (λ r. to_release id r && counts_in_balance card r) db.tables.payments
        ≡ spent_msats card db.tables
unfolding day_total_msats counts_today spent_msats counts_in_balance
release_payment-frees id card now reason db e = rw (release_payment-payments id reason db e) (
  sum-released (counts_today now card) id db.now reason db.tables.payments (λ r f. f),
  sum-released (counts_in_balance card) id db.now reason db.tables.payments (λ r f. ground arith),
)

pub fail_payment-next_payment_id :
    (id : ℕ) (reason : String) (db : Db)
    → (fail_payment id reason db).0 ≡ ok tt
    → (fail_payment id reason db).1.tables.next_payment_id ≡ db.tables.next_payment_id
unfolding fail_payment open_db query exec fail_payment_sql used
fail_payment-next_payment_id id reason db e = ground arith
