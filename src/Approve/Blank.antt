-- ===== src/Approve/Blank.antt =====
-- The answer to a token of blanks.
use boltcard.Prelude.{ℕ, ◌≡◌, refl, [], Bool, true, false, some}
use boltcard.Text.{codes, text_eq, pad}
use boltcard.Http.{Request, get_param}
use boltcard.Db.Schema.{Db, PaymentRow, message}
use boltcard.Db.Monad.{Result, ok, err, pure, continue, ◌>>◌}
use boltcard.Db.Rows.{select_row}
use boltcard.Db.Payments.{with_id}
use boltcard.Db.Approvals.{approve_payment_by_token, get_payment_approval}
use boltcard.Db.Approvals.Tokens.{blank_token, blank_matches, answered_row}
use boltcard.Lnurlw.Tap.{ensure}
use boltcard.Approve.{approve_request}

approve_request-state :
    (req : Request) (db : Db)
    → get_param "approve" req ≡ codes "Y"
    → get_param "token" req ≡ blank_token
    → (approve_request req db).1 ≡ (approve_payment_by_token blank_token b'Y' db).1
unfolding approve_request
approve_request-state req db a t =
    rw (a, t, approve_request) (same (approve_payment_by_token blank_token b'Y' db).0)
  where
    same :
        (r : Result Bool)
        → (continue r
            (λ answered.
              ensure answered (message "no payment was awaiting approval for the token given")
              >> pure true)
            (approve_payment_by_token blank_token b'Y' db).1).1
          ≡ (approve_payment_by_token blank_token b'Y' db).1
    same (ok true) = refl
    same (ok false) = refl
    same (err e) = refl

-- With no fault, a request to /approve that carries 32 blanks for a token and Y for an answer
-- approves every payment that is claimed, not reported on, and has no token: its holder is
-- recorded to have approved it.
pub blank_token_approves :
    (req : Request) (id : ℕ) (r : PaymentRow) (db : Db)
    → get_param "approve" req ≡ codes "Y"
    → get_param "token" req ≡ blank_token
    → db.faults ≡ []
    → select_row (with_id id) db.tables.payments ≡ some r
    → r.paid_flag ≡ b'Y'
    → r.payment_status ≡ ""
    → r.ntfy_token ≡ pad 32 []
    → (get_payment_approval id (approve_request req db).1).0 ≡ ok (true, true)
blank_token_approves req id r db a t f s paid status cleared =
    rw (approve_request-state req db a t) (
      answered_row blank_token b'Y' id r db f s (blank_matches r paid status cleared)
        (unfold text_eq in refl))
