-- ===== src/Tests/Limits.antt =====
-- The theorems on the daily limit and on a replaced invoice at concrete inputs.
use boltcard.Prelude.{◌+◌, ◌*◌, ◌≤◌, ◌≡◌, refl, some, true, arith}
use boltcard.Text.{codes}
use boltcard.Db.Schema.{PaymentRow, Db}
use boltcard.Db.Monad.{ok, open_db, exec, transaction}
use boltcard.Db.Rows.{select_row, count_rows}
use boltcard.Db.Payments.{with_id, update_payment_invoice}
use boltcard.Db.Payments.Invoices.{with_invoice, update_payment_invoice-replaces}
use boltcard.Db.Totals.{day_total_msats, day_total_sats}
use boltcard.Db.Authorize.{locked_row, lock_rows, claim_sql, authorize_payment}
use boltcard.Db.Limits.Day.{authorize_payment-day_limit}
use boltcard.Tests.{example_card, example_payment, example_db_with}

abbrev priced_payment : PaymentRow
priced_payment = record example_payment { amount_msats = some 50999 }

abbrev priced_db : Db
priced_db = example_db_with example_card priced_payment

authorize_payment-day_limit_example :
    day_total_msats priced_db.now 1 (authorize_payment 1 50 true priced_db).1.tables
    ≤ 5000 * 1000 + 1998
unfolding authorize_payment open_db transaction lock_rows locked_row select_row day_total_sats
    day_total_msats exec claim_sql count_rows
authorize_payment-day_limit_example =
    authorize_payment-day_limit 1 50999 "" (locked_row priced_payment example_card) priced_db
      (λ same. refl, tt) refl refl

abbrev claimed_db : Db
claimed_db = example_db_with example_card (record priced_payment { paid_flag = b'Y' })

update_payment_invoice-replaces_example :
    ((update_payment_invoice 1 (codes "lnbc2") 1000 claimed_db).0 ≡ ok tt)
    × (select_row
          (with_id 1)
          (update_payment_invoice 1 (codes "lnbc2") 1000 claimed_db).1.tables.payments
        ≡ some (with_invoice (codes "lnbc2") 1000 (record priced_payment { paid_flag = b'Y' })))
unfolding count_rows select_row
update_payment_invoice-replaces_example =
    update_payment_invoice-replaces 1 (codes "lnbc2") 1000
      (record priced_payment { paid_flag = b'Y' }) claimed_db refl refl refl (omega arith)
      (omega arith)
