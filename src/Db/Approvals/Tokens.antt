-- ===== src/Db/Approvals/Tokens.antt =====
-- An approval token answers once; a blank one answers every payment whose token is cleared.
use boltcard.Prelude.{ℕ, ◌≡◌, refl, ◌≢◌, [], some, true, false, ◌==◌, arith, replicate}
use boltcard.Text.{
  Text, pad, bpchar_eq, text_eq, text_eq_iff, text_eq_refl, strip_right, strip_right-pad, is_space,
}
use boltcard.Db.Schema.{PaymentRow, Db}
use boltcard.Db.Monad.{ok, query, exec, open_db}
use boltcard.Db.Rows.{
  select_row, update_rows, count_rows, count_rows-update_rows, select_row-update_rows, updated,
}
use boltcard.Db.Payments.{with_id}
use boltcard.Db.Approvals.{
  awaits_answer, approve_payment_by_token_sql, approve_payment_by_token, get_payment_approval,
}

-- A token that is not all blanks.
abbrev pub IsToken : Text → Type 0
IsToken token = strip_right is_space token ≢ []

cleared_ne_token : (token : Text) → IsToken token → bpchar_eq (pad 32 []) token ≡ false
unfolding bpchar_eq pad
cleared_ne_token token h = ground (
  arith,
  strip_right-pad 32 [],
  text_eq_iff (strip_right is_space (replicate 32 32)) (strip_right is_space token),
)

abbrev answer : ℕ → ℕ → PaymentRow → PaymentRow
answer flag now r = record r { ntfy_flag = flag; ntfy_ts = some now; ntfy_token = pad 32 [] }

-- Where a payment was answered, the statement has run.
approve-answered :
    (token : Text) (flag : ℕ) (db : Db)
    → (approve_payment_by_token token flag db).0 ≡ ok true
    → (approve_payment_by_token token flag db).1.tables.payments
      ≡ update_rows (awaits_answer token) (answer flag db.now) db.tables.payments
unfolding approve_payment_by_token open_db query exec approve_payment_by_token_sql
approve-answered token flag db e = ground arith

approve_none :
    (token : Text) (flag : ℕ) (db : Db)
    → count_rows (awaits_answer token) db.tables.payments ≡ 0
    → (approve_payment_by_token token flag db).0 ≢ ok true
unfolding approve_payment_by_token open_db query exec approve_payment_by_token_sql
approve_none token flag db e = ground arith

answered_ne :
    (token : Text) (flag now : ℕ) (r : PaymentRow)
    → IsToken token
    → awaits_answer token (answer flag now r) ≡ false
unfolding awaits_answer
answered_ne token flag now r h = ground (arith, cleared_ne_token token h)

-- Whatever is answered first, and whatever faults the calls meet, a token that is not all blanks
-- answers no second time.
pub token_answers_once :
    (token : Text) (first second : ℕ) (db : Db)
    → IsToken token
    → (approve_payment_by_token token first db).0 ≡ ok true
    → (approve_payment_by_token token second (approve_payment_by_token token first db).1).0
      ≢ ok true
token_answers_once token first second db h e = approve_none token second _ (
    rw (approve-answered token first db e)
      (count_rows-update_rows _ _ db.tables.payments (λ r. answered_ne token first db.now r h)))

abbrev pub blank_token : Text
blank_token = replicate 32 32

pub blank_matches :
    (r : PaymentRow)
    → r.paid_flag ≡ b'Y'
    → r.payment_status ≡ ""
    → r.ntfy_token ≡ pad 32 []
    → awaits_answer blank_token r ≡ true
unfolding awaits_answer bpchar_eq pad
blank_matches r p s t = rw (p, s, t) (text_eq_refl (strip_right is_space blank_token))

-- The row of a payment after the answer to a token.
pub answered_row :
    (token : Text) (flag id : ℕ) (r : PaymentRow) (db : Db)
    → db.faults ≡ []
    → select_row (with_id id) db.tables.payments ≡ some r
    → awaits_answer token r ≡ true
    → text_eq token [] ≡ false
    → (get_payment_approval id (approve_payment_by_token token flag db).1).0
      ≡ ok (true, flag == b'Y')
unfolding approve_payment_by_token get_payment_approval open_db query exec
    approve_payment_by_token_sql updated
answered_row token flag id r db f s a n = rw n (
    ground (
      arith,
      select_row-update_rows (with_id id) (awaits_answer token) (answer flag db.now)
          db.tables.payments (λ x. refl),
    ))
