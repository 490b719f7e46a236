-- ===== src/Db/Authorize.antt =====
-- `Authorize_payment` of db/db.go. The row locks that FOR UPDATE takes are held to the commit, so
-- the transaction is one step here.
use boltcard.Prelude.{ℕ, some, Bool, true, false, not, ◌&&◌, String, ◌==◌, if◌then◌else◌}
use boltcard.Prelude.Int.{ℤ, pos, ◌+ℤ◌, ◌-ℤ◌, ltb_ℤ}
use boltcard.Db.Schema.{Tables, PaymentRow, CardRow}
use boltcard.Db.Monad.{Result, M, pure, ◌>>=◌, ◌>>◌, query, open_db, exec, Statement, transaction}
use boltcard.Db.Rows.{select_row}
use boltcard.Db.Payments.{with_id, join_card, update_payments}
use boltcard.Db.Totals.{day_total_sats, card_total_sats}

-- What the first query selects, and locks.
pub record Locked : Type 0 where
  pub card_id : ℕ
  pub paid_flag : ℕ
  pub tx_limit_sats : ℤ
  pub day_limit_sats : ℤ
  pub allow_negative_balance : ℕ

unfoldable pub locked_row : PaymentRow → CardRow → Locked
locked_row r c = record {
  card_id = r.card_id;
  paid_flag = r.paid_flag;
  tx_limit_sats = c.tx_limit_sats;
  day_limit_sats = c.day_limit_sats;
  allow_negative_balance = c.allow_negative_balance;
}

unfoldable pub lock_rows : ℕ → Tables → Result Locked
unfolding locked_row
lock_rows card_payment_id t =
    join_card locked_row t (select_row (with_id card_payment_id) t.payments)

-- UPDATE card_payments SET paid_flag = 'Y', payment_time = NOW()
-- WHERE card_payment_id = $1 AND paid_flag = 'N'
unfoldable pub claim_sql : ℕ → Statement
unfolding update_payments
claim_sql card_payment_id =
    update_payments (λ r. r.card_payment_id == card_payment_id && r.paid_flag == b'N')
      λ now r. record r { paid_flag = b'Y'; payment_time = some now }

unfoldable pub claimed_one : ℕ → M (Bool × String)
claimed_one count = if count == 1 then pure (true, "") else pure (false, "payment already made")

unfoldable pub claim : ℕ → M (Bool × String)
unfolding claimed_one
claim card_payment_id = do count ← exec (claim_sql card_payment_id); claimed_one count

unfoldable pub check_balance : ℕ → Locked → ℕ → M (Bool × String)
unfolding claim
check_balance card_payment_id l invoice_sats =
    if l.allow_negative_balance == b'Y' then claim card_payment_id else do
      card_total ← query (λ now t. card_total_sats l.card_id t)
      if ltb_ℤ (card_total -ℤ pos invoice_sats) (pos 0)
          then pure (false, "not enough balance")
          else claim card_payment_id

unfoldable pub check_day_and_balance : ℕ → Locked → ℕ → M (Bool × String)
unfolding check_balance
check_day_and_balance card_payment_id l invoice_sats = do
  day_total ← query (λ now t. day_total_sats now l.card_id t)
  if ltb_ℤ l.day_limit_sats (day_total +ℤ pos invoice_sats)
      then pure (false, "over day_limit_sats")
      else check_balance card_payment_id l invoice_sats

unfoldable pub check_rules : ℕ → ℕ → Bool → Locked → M (Bool × String)
unfolding check_day_and_balance
check_rules card_payment_id invoice_sats with_totals l =
    if not (l.paid_flag == b'N')
    then pure (false, "payment already made")
    else if ltb_ℤ l.tx_limit_sats (pos invoice_sats)
    then pure (false, "over tx_limit_sats")
    else if with_totals
    then check_day_and_balance card_payment_id l invoice_sats
    else claim card_payment_id

-- The answer is `(authorized, reason)`.
unfoldable pub authorize_payment : ℕ → ℕ → Bool → M (Bool × String)
unfolding check_rules
authorize_payment card_payment_id invoice_sats with_totals = do
  open_db
  transaction (
      query (λ now t. lock_rows card_payment_id t)
      >>= check_rules card_payment_id invoice_sats with_totals)
