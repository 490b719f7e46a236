-- ===== src/Tests/Examples.antt =====
-- The theorems at concrete inputs.
use boltcard.Prelude.{◌≤◌, ◌≡◌, ◌≢◌, refl, ◌∷◌, [], true, arith}
use boltcard.Text.{bpchar_eq, codes, strip_right}
use boltcard.Http.{Request, get_param, first_value}
use boltcard.Db.Schema.{Db, PaymentRow, fine, reply_lost}
use boltcard.Db.Monad.{ok, query, exec, open_db}
use boltcard.Db.Rows.{count_rows, select_row, updated}
use boltcard.Db.Approvals.{
  awaits_answer, approve_payment_by_token, approve_payment_by_token_sql, get_payment_approval,
}
use boltcard.Db.Approvals.Tokens.{token_answers_once, blank_token}
use boltcard.Db.Calls.{authorizes_payment, updates_payment_invoice, claims}
use boltcard.Db.Claims.{claims-le-one}
use boltcard.Approve.{approve_request}
use boltcard.Approve.Blank.{blank_token_approves}
use boltcard.Tests.{card_key, example_card, example_payment, example_db, example_db_with}

-- Two requests that race to claim the payment, after a lost reply.
claims-le-one_example :
    claims 1
      (record example_db { faults = fine ∷ fine ∷ reply_lost ∷ [] })
      (updates_payment_invoice 1 (codes "lnbc") 50000
        ∷ authorizes_payment 1 50 true
        ∷ authorizes_payment 1 50 true
        ∷ [])
    ≤ 1
claims-le-one_example = claims-le-one 1 _ _ (omega arith)

abbrev claimed_payment : PaymentRow
claimed_payment = record example_payment { paid_flag = b'Y' }

abbrev waiting_db : Db
waiting_db = example_db_with example_card (record claimed_payment { ntfy_token = card_key })

token_answers_once_example :
    (approve_payment_by_token card_key b'Y' (approve_payment_by_token card_key b'N' waiting_db).1).0
    ≢ ok true
unfolding count_rows awaits_answer bpchar_eq
token_answers_once_example =
    token_answers_once card_key b'N' b'Y' waiting_db (unfold strip_right in λ e. absurd (cc)) (
      unfold approve_payment_by_token open_db query exec approve_payment_by_token_sql updated in
      refl)

abbrev blank_request : Request
blank_request = record {
  host = codes "card.example";
  remote_addr = codes "192.0.2.1";
  params = ("token", blank_token) ∷ ("approve", codes "Y") ∷ [];
  headers = [];
}

blank_token_approves_example :
    (get_payment_approval 1
      (approve_request blank_request (example_db_with example_card claimed_payment)).1).0
    ≡ ok (true, true)
blank_token_approves_example =
    blank_token_approves blank_request 1 claimed_payment
      (example_db_with example_card claimed_payment) (unfold get_param first_value in refl)
      (unfold get_param first_value in refl) refl (unfold select_row in refl) refl refl refl
