-- ===== src/Db/Payments/Invoices.antt =====
-- What `Update_payment_invoice` leaves on the row of a payment.
use boltcard.Prelude.{ℕ, ◌≤◌, ◌<◌, ◌≡◌, refl, [], some, true, ◌&&◌, ltb, leb, arith, length}
use boltcard.Text.{Text}
use boltcard.Db.Schema.{PaymentRow, Db}
use boltcard.Db.Monad.{ok, query, exec, open_db, next_fault, used, on_query, checked}
use boltcard.Db.Rows.{select_row, count_rows, select_row-update_rows, updated, select_row-holds}
use boltcard.Db.Payments.{with_id, update_payment_invoice, update_payment_invoice_sql}

abbrev pub with_invoice : Text → ℕ → PaymentRow → PaymentRow
with_invoice pr amount r = record r { ln_invoice = pr; amount_msats = some amount }

-- With no fault, an invoice that fits its column, of a positive amount, is stored on the one row of a
-- payment whatever the row's paid_flag is: on a claimed payment it takes the place of the invoice and
-- the amount that the claim was checked for.
pub update_payment_invoice-replaces :
    (id : ℕ) (pr : Text) (amount : ℕ) (r : PaymentRow) (db : Db)
    → db.faults ≡ []
    → count_rows (with_id id) db.tables.payments ≡ 1
    → select_row (with_id id) db.tables.payments ≡ some r
    → length pr ≤ 1024
    → 0 < amount
    → ((update_payment_invoice id pr amount db).0 ≡ ok tt)
      × (select_row (with_id id) (update_payment_invoice id pr amount db).1.tables.payments
          ≡ some (with_invoice pr amount r))
unfolding update_payment_invoice open_db query exec on_query next_fault used
    update_payment_invoice_sql checked updated
update_payment_invoice-replaces id pr amount r db f c s fits positive =
    let test : (leb (length pr) 1024 && ltb 0 amount) ≡ true = ground arith in
    rw (f, test, c)
      (
        refl,
        rw
            (
              select_row-update_rows (with_id id) (with_id id) (with_invoice pr amount)
                  db.tables.payments (λ x. refl),
              s,
              select_row-holds (with_id id) db.tables.payments r s,
            )
            refl,
      )
