-- ===== src/Db/Payments.antt =====
-- The card_payments operations of db/db.go, apart from `Authorize_payment` (Db/Authorize.antt).
pub mod Ended
pub mod Invoices
use boltcard.Prelude.{
  ℕ, suc, ◌+◌, ◌*◌, [], ◌∷◌, Option, none, some, Bool, true, false, not, ◌&&◌, String, str_eq, ◌==◌,
  ltb, leb, length,
}
use boltcard.Text.{Text, pad, bpchar_eq}
use boltcard.Db.Schema.{Tables, CardRow, PaymentRow, no_rows, Payment, second}
use boltcard.Db.Monad.{
  Result, ok, err, M, ◌>>=◌, ◌>>◌, query, open_db, exec, expect_one, Statement, checked,
}
use boltcard.Db.Rows.{select_row, count_rows, update_rows, scan}

abbrev pub with_id : ℕ → PaymentRow → Bool
with_id id r = r.card_payment_id == id

abbrev pub card_with_id : ℕ → CardRow → Bool
card_with_id id c = c.card_id == id

abbrev pub is_present : {A : Type 0} → Option A → Bool
is_present none = false
is_present (some a) = true

-- UPDATE card_payments SET ... WHERE ...
unfoldable pub update_payments : (PaymentRow → Bool) → (ℕ → PaymentRow → PaymentRow) → Statement
update_payments p f now t =
    ok (record t { payments = update_rows p (f now) t.payments }, count_rows p t.payments)

new_payment : ℕ → ℕ → Text → ℕ → PaymentRow
new_payment id card_id lnurlw_k1 now = record {
  card_payment_id = id;
  card_id = card_id;
  lnurlw_k1 = pad 32 lnurlw_k1;
  lnurlw_request_time = now;
  ln_invoice = [];
  amount_msats = none;
  paid_flag = b'N';
  payment_time = none;
  payment_status = "";
  failure_reason = "";
  payment_status_time = some now;
  ntfy_flag = b'N';
  ntfy_ts = none;
  ntfy_token = pad 32 [];
}

-- The card must exist (fk_card), `lnurlw_k1` must fit CHAR(32) and be UNIQUE.
unfoldable pub insert_payment_sql : ℕ → Text → Statement
unfolding new_payment
insert_payment_sql card_id lnurlw_k1 =
    checked
      (λ t.
        is_present (select_row (card_with_id card_id) t.cards)
        && leb (length lnurlw_k1) 32
        && not (is_present (select_row (λ r. bpchar_eq r.lnurlw_k1 lnurlw_k1) t.payments)))
      λ now t. ok (
        record t {
          payments = new_payment t.next_payment_id card_id lnurlw_k1 now ∷ t.payments;
          next_payment_id = suc t.next_payment_id;
        },
        1,
      )

unfoldable pub insert_payment : ℕ → Text → M (Unit {0})
insert_payment card_id lnurlw_k1 = do
  open_db
  count ← exec (insert_payment_sql card_id lnurlw_k1)
  expect_one "not one card_payments record inserted" count

unfoldable pub get_payment_k1 : Text → M Payment
get_payment_k1 lnurlw_k1 = do
  open_db
  query λ now t.
      scan
        (λ r. record {
          card_payment_id = r.card_payment_id;
          card_id = r.card_id;
          paid_flag = r.paid_flag;
        })
        (select_row (λ r. bpchar_eq r.lnurlw_k1 lnurlw_k1) t.payments)

unfoldable pub get_card_id_for_card_payment_id : ℕ → M ℕ
get_card_id_for_card_payment_id card_payment_id = do
  open_db
  query λ now t. scan (λ r. r.card_id) (select_row (with_id card_payment_id) t.payments)

-- `ln_invoice` must fit VARCHAR(1024) and the amount must be positive.
unfoldable pub update_payment_invoice_sql : ℕ → Text → ℕ → Statement
unfolding update_payments
update_payment_invoice_sql card_payment_id ln_invoice amount_msats =
    checked (λ _. leb (length ln_invoice) 1024 && ltb 0 amount_msats)
      (update_payments (with_id card_payment_id)
        λ _ r. record r { ln_invoice = ln_invoice; amount_msats = some amount_msats })

unfoldable pub update_payment_invoice : ℕ → Text → ℕ → M (Unit {0})
update_payment_invoice card_payment_id ln_invoice amount_msats = do
  open_db
  count ← exec (update_payment_invoice_sql card_payment_id ln_invoice amount_msats)
  expect_one "not one card_payments record updated" count

-- SELECT NOW() > cp.lnurlw_request_time + c.lnurlw_request_timeout_sec * INTERVAL '1 SECOND'
timed_out : ℕ → PaymentRow → CardRow → Bool
timed_out now r c = ltb (r.lnurlw_request_time + c.lnurlw_request_timeout_sec * second) now

abbrev pub join_card :
    {B : Type 0} → (PaymentRow → CardRow → B) → Tables → Option PaymentRow → Result B
join_card f t none = err no_rows
join_card f t (some r) = scan (f r) (select_row (card_with_id r.card_id) t.cards)

unfoldable pub check_lnurlw_timeout : ℕ → M Bool
unfolding timed_out
check_lnurlw_timeout card_payment_id = do
  open_db
  query λ now t. join_card (timed_out now) t (select_row (with_id card_payment_id) t.payments)

unfoldable pub fail_payment_sql : ℕ → String → Statement
unfolding update_payments
fail_payment_sql card_payment_id failure_reason =
    update_payments (λ r. r.card_payment_id == card_payment_id && r.paid_flag == b'N')
      λ now r. record r {
        paid_flag = b'Y';
        amount_msats = none;
        payment_status = "FAILED";
        failure_reason = failure_reason;
        payment_status_time = some now;
      }

unfoldable pub fail_payment : ℕ → String → M (Unit {0})
fail_payment card_payment_id failure_reason = do
  open_db
  count ← exec (fail_payment_sql card_payment_id failure_reason)
  expect_one "not one card_payment record updated" count

unfoldable pub release_payment_sql : ℕ → String → Statement
unfolding update_payments
release_payment_sql card_payment_id failure_reason =
    update_payments (λ r. r.card_payment_id == card_payment_id && str_eq r.payment_status "")
      λ now r. record r {
        amount_msats = none;
        ntfy_token = pad 32 [];
        payment_status = "FAILED";
        failure_reason = failure_reason;
        payment_status_time = some now;
      }

unfoldable pub release_payment : ℕ → String → M (Unit {0})
release_payment card_payment_id failure_reason = do
  open_db
  count ← exec (release_payment_sql card_payment_id failure_reason)
  expect_one "not one card_payment record updated" count

-- The names of lnrpc, and the reasons of the code, fit VARCHAR(100).
unfoldable pub update_payment_status_sql : ℕ → String → String → Statement
unfolding update_payments
update_payment_status_sql card_payment_id payment_status failure_reason =
    update_payments (with_id card_payment_id) λ now r. record r {
      payment_status = payment_status;
      failure_reason = failure_reason;
      payment_status_time = some now;
    }

unfoldable pub update_payment_status : ℕ → String → String → M (Unit {0})
update_payment_status card_payment_id payment_status failure_reason = do
  open_db
  count ← exec (update_payment_status_sql card_payment_id payment_status failure_reason)
  expect_one "not one card_payment record updated" count
