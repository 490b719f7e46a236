-- ===== src/Db/Approvals.antt =====
-- The card holder's answer to a payment: the ntfy columns of card_payments in db/db.go.
pub mod Tokens
use boltcard.Prelude.{
  ℕ, [], Option, none, some, Bool, true, false, ◌&&◌, str_eq, ◌==◌, leb, if◌then◌else◌, length,
}
use boltcard.Text.{Text, pad, bpchar_eq, text_eq}
use boltcard.Text.Hex.{encode_to_string}
use boltcard.Db.Schema.{PaymentRow, failed}
use boltcard.Db.Monad.{
  M, pure, raise, ◌>>=◌, ◌>>◌, query, open_db, exec, expect_one, Statement, checked,
}
use boltcard.Db.Rows.{select_row, scan}
use boltcard.Db.Payments.{with_id, is_present, update_payments}

unfoldable pub update_payment_ntfy_sql : ℕ → ℕ → Statement
unfolding update_payments
update_payment_ntfy_sql card_payment_id ntfy_flag =
    update_payments (with_id card_payment_id)
      λ now r. record r { ntfy_flag = ntfy_flag; ntfy_ts = some now }

unfoldable pub update_payment_ntfy : ℕ → ℕ → M (Unit {0})
update_payment_ntfy card_payment_id ntfy_flag = do
  open_db
  count ← exec (update_payment_ntfy_sql card_payment_id ntfy_flag)
  expect_one "not one card_payments record updated" count

-- `rand.Read` gives 16 bytes, or fails.
unfoldable pub random_hex_16 : Option Text → M Text
random_hex_16 none = raise failed
random_hex_16 (some bytes) = pure (encode_to_string bytes)

-- `ntfy_token` is CHAR(32).
unfoldable pub create_payment_ntfy_token_sql : ℕ → Text → Statement
unfolding update_payments
create_payment_ntfy_token_sql card_payment_id token =
    checked (λ _. leb (length token) 32)
      (update_payments (with_id card_payment_id) λ _ r. record r { ntfy_token = pad 32 token })

unfoldable pub create_payment_ntfy_token : Option Text → ℕ → M Text
unfolding random_hex_16
create_payment_ntfy_token random card_payment_id = do
  token ← random_hex_16 random
  open_db
  count ← exec (create_payment_ntfy_token_sql card_payment_id token)
  expect_one "not one card_payments record updated" count
  pure token

-- WHERE ntfy_token = $1 AND paid_flag = 'Y' AND payment_status = ''
unfoldable pub awaits_answer : Text → PaymentRow → Bool
awaits_answer ntfy_token r =
    bpchar_eq r.ntfy_token ntfy_token && r.paid_flag == b'Y' && str_eq r.payment_status ""

unfoldable pub approve_payment_by_token_sql : Text → ℕ → Statement
unfolding update_payments
approve_payment_by_token_sql ntfy_token ntfy_flag =
    update_payments (awaits_answer ntfy_token)
      λ now r. record r { ntfy_flag = ntfy_flag; ntfy_ts = some now; ntfy_token = pad 32 [] }

unfoldable pub approve_payment_by_token : Text → ℕ → M Bool
unfolding text_eq
approve_payment_by_token ntfy_token ntfy_flag = if text_eq ntfy_token [] then pure false else do
  open_db
  count ← exec (approve_payment_by_token_sql ntfy_token ntfy_flag)
  pure (count == 1)

approval_of : Option ℕ → ℕ → Bool × Bool
approval_of none ntfy_flag = (false, false)
approval_of (some ntfy_ts) ntfy_flag = (true, ntfy_flag == b'Y')

-- Answered, and approved.
unfoldable pub get_payment_approval : ℕ → M (Bool × Bool)
unfolding approval_of
get_payment_approval card_payment_id = do
  open_db
  query λ now t.
      scan (λ r. approval_of r.ntfy_ts r.ntfy_flag)
        (select_row (with_id card_payment_id) t.payments)

unfoldable pub check_payment_ntfy : ℕ → M Bool
check_payment_ntfy card_payment_id = do
  open_db
  query λ now t.
      scan (λ r. r.ntfy_flag == b'Y' && is_present r.ntfy_ts)
        (select_row (with_id card_payment_id) t.payments)
