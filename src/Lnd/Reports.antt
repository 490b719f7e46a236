-- ===== src/Lnd/Reports.antt =====
-- The goroutine that pays an invoice records what the node last reports.
use mathlib.Core.Option.{some-injective}
use mathlib.Core.Path.{subst}
use boltcard.Prelude.{ℕ, ◌≡◌, refl, List, Option, none, some, false, String, arith, ◌==◌, ◌∙◌, sym}
use boltcard.Prelude.Int.{ℤ}
use boltcard.Text.{Text}
use boltcard.Externals.{Externals}
use boltcard.Text.Numbers.{atoi}
use boltcard.Lnurlw.Tap.{or_raise}
use boltcard.Db.Schema.{Tables, Db, PaymentRow, failed}
use boltcard.Db.Monad.{ok, M}
use boltcard.Db.Rows.{select_row, updated_row}
use boltcard.Db.Settings.{get_setting}
use boltcard.Db.Payments.{
  with_id, update_payments, update_payment_status, update_payment_status_sql,
  get_card_id_for_card_payment_id,
}
use boltcard.Db.Totals.{counts_in_balance}
use boltcard.Db.Calls.{Call, run}
use boltcard.Db.Hoare.{
  Ensures, Reads, Ensures-bind, Ensures-read, Ensures-pure, Ensures-if, Ensures-raise, Ensures-exec,
  Ensures-weaken, Reads-open_db, Reads-query,
}
use boltcard.Db.Hoare.Calls.{Reads-get_card_from_card_id}
use boltcard.Db.Hoare.Post.{Post, Post-any, Post-Ensures, Post-weaken, Post-or_raise, Post-bind}
use boltcard.Lnd.{Node, Stream, ends, breaks, sends, Connection, SendPaymentRequest, meanwhile}
use boltcard.Lnd.Pay.{
  Notice, receive, notices_of_payment, connect, or_fails, payment_of, pay_invoice,
}

abbrev or_later : ℤ × ℤ → Option (ℤ × ℤ) → Option (ℤ × ℤ)
or_later update none = some update
or_later update (some later) = some later

-- The status and the reason of the last update, where there is one.
unfoldable pub last_update : Stream → Option (ℤ × ℤ)
last_update (ends others) = none
last_update (breaks others) = none
last_update (sends others status reason rest) = or_later (status, reason) (last_update rest)

-- What other requests do between the last update and the end of the stream.
unfoldable pub calls_at_end : Stream → List Call
calls_at_end (ends others) = others
calls_at_end (breaks others) = others
calls_at_end (sends others status reason rest) = calls_at_end rest

-- The row of the payment has the status and the reason. A failed payment is in no balance.
pub record Reported (id : ℕ) (status reason : String) (t : Tables) : Type 0 where
  pub row : PaymentRow
  pub found : select_row (with_id id) t.payments ≡ some row
  pub has_status : row.payment_status ≡ status
  pub has_reason : row.failure_reason ≡ reason
  pub free : status ≡ "FAILED" → (card_id : ℕ) → counts_in_balance card_id row ≡ false

module _ (id : ℕ) (status reason : String) where
  update-Reported :
      (now : ℕ) (t : Tables)
      → Ensures now t
          (update_payment_status id status reason)
          (λ _ t'. Reported id status reason t')
  unfolding update_payment_status update_payment_status_sql update_payments counts_in_balance
  update-Reported now t = Ensures-read _ _ Reads-open_db λ _ _.
      Ensures-bind _ _ (Ensures-exec _) λ n t' e.
        Ensures-if (n == 1) _ _
          (λ one.
            let (r, found) =
              updated_row (with_id id)
                (λ r. record r {
                  payment_status = status;
                  failure_reason = reason;
                  payment_status_time = some now;
                })
                t.payments (λ r. refl) (ground (arith, e, one)) in
            Ensures-pure tt (record {
              row = record r {
                payment_status = status;
                failure_reason = reason;
                payment_status_time = some now;
              };
              found = ground (arith, e, found);
              has_status = refl;
              has_reason = refl;
              free = λ failed card_id. rw (failed) (ground arith);
            }))
          λ _. Ensures-raise _

same_tables :
    {A : Type 0} (id : ℕ) (status reason : String) (db : Db) (m : M A)
    → Reported id status reason db.tables
    → Reads db.now db.tables m (λ _. Unit {0})
    → Post db m (λ _ db'. Reported id status reason db'.tables)
same_tables id status reason db m reported h =
    Post-weaken m (λ a db' (n, (s, u)). rw s reported) (Post-Ensures m h)

Reads-get_card_id_for_card_payment_id :
    {now : ℕ} {t : Tables} (id : ℕ)
    → Reads now t (get_card_id_for_card_payment_id id) (λ _. Unit {0})
unfolding get_card_id_for_card_payment_id
Reads-get_card_id_for_card_payment_id id =
    Ensures-read _ _ Reads-open_db λ _ _. Ensures-weaken _ (λ a t' (s, q). (s, tt)) (Reads-query _)

Reads-notices_of_payment :
    {now : ℕ} {t : Tables} (id : ℕ) → Reads now t (notices_of_payment id) (λ _. Unit {0})
unfolding notices_of_payment
Reads-notices_of_payment id =
    Ensures-read _ _ (Reads-get_card_id_for_card_payment_id id) λ card_id _.
      Ensures-read _ _ (Reads-get_card_from_card_id card_id) λ c _. Ensures-pure _ (refl, tt)

module _ (node : Node) (id : ℕ) where
  -- The names of the numbers of an update.
  abbrev pub ReportsUpdate : ℤ × ℤ → Tables → Type 0
  ReportsUpdate u = Reported id (node.payment_status_name u.0) (node.failure_reason_name u.1)

  -- The calls leave what is recorded of the payment for this update.
  abbrev pub Spares : ℤ × ℤ → List Call → Type 0
  Spares u cs = (db : Db) → ReportsUpdate u db.tables → ReportsUpdate u (run db cs).tables

  -- A loop that gets no update leaves what there was.
  not_updated :
      (stream : Stream) (last : ℤ × ℤ) (db : Db)
      → last_update stream ≡ none
      → Spares last (calls_at_end stream)
      → ReportsUpdate last db.tables
      → Post db (receive node id stream) (λ _ db'. ReportsUpdate last db'.tables)
  unfolding receive last_update calls_at_end
  not_updated (ends others) last db e spares reported = record { at = λ _ _. spares db reported }
  not_updated (breaks others) last db e spares reported = record { at = λ _ e'. absurd (cc) }
  not_updated (sends others s r rest) last db e spares reported =
      absurd (some_update (last_update rest) e)
    where
      some_update : (o : Option (ℤ × ℤ)) → or_later (s, r) o ≡ none → ⊥
      some_update none e' = cc
      some_update (some later) e' = cc

  after_update :
      (update last : ℤ × ℤ) (o : Option (ℤ × ℤ)) (rest : Stream) (db : Db)
      → last_update rest ≡ o
      → or_later update o ≡ some last
      → Spares last (calls_at_end rest)
      → ReportsUpdate update db.tables
      → (last_update rest ≡ some last
          → Post db (receive node id rest) (λ _ db'. ReportsUpdate last db'.tables))
      → Post db (receive node id rest) (λ _ db'. ReportsUpdate last db'.tables)
  after_update update last none rest db is e spares reported later =
      not_updated rest last db is spares
        (subst (λ u. ReportsUpdate u db.tables) (some-injective _ _ e) reported)
  after_update update last (some x) rest db is e spares reported later = later (is ∙ e)

  -- Where the loop gets to the end of the stream, the row has the last update.
  received :
      (stream : Stream) (last : ℤ × ℤ) (db : Db)
      → last_update stream ≡ some last
      → Spares last (calls_at_end stream)
      → Post db (receive node id stream) (λ _ db'. ReportsUpdate last db'.tables)
  unfolding receive last_update calls_at_end
  received (ends others) last db e spares = absurd (cc)
  received (breaks others) last db e spares = absurd (cc)
  received (sends others s r rest) last db e spares =
      Post-bind (meanwhile others) _ (Post-any _) λ _ db1 _.
        Post-bind
          (update_payment_status id (node.payment_status_name s) (node.failure_reason_name r)) _
          (Post-Ensures _ (update-Reported id _ _ db1.now db1.tables))
          λ _ db2 (_, reported).
            after_update (s, r) last (last_update rest) rest db2 refl e spares reported
              (λ is. received rest last db2 is spares)

-- Whatever the faults and whatever other requests do before the last update of the stream, where
-- `PayInvoice` gets to its end, the stream had an update, and what other requests do between the last
-- one and the end of the stream leaves what is recorded of it, the row of the payment has the status
-- and the failure reason of the last update when `PayInvoice` ends. If that status is FAILED, the
-- payment counts in the balance of no card.
pub pay_invoice-Reported :
    (node : Node) (x : Externals) (id : ℕ) (invoice : Text) (stream : Stream) (last : ℤ × ℤ)
    (notices : List Notice) (db : Db)
    → ((c : Connection) (t : ℤ) (q : SendPaymentRequest)
        → (node.send_payment c t q).1 ≡ some stream)
    → last_update stream ≡ some last
    → Spares node id last (calls_at_end stream)
    → (pay_invoice node x id invoice db).0 ≡ ok notices
    → ReportsUpdate node id last (pay_invoice node x id invoice db).1.tables
unfolding pay_invoice
pay_invoice-Reported node x id invoice stream last notices db given updated spares =
    (Post-bind (get_setting "LN_PORT") _ (Post-any _) λ port _ _.
        Post-bind (or_raise (atoi port) failed) _ (Post-any _) λ ln_port _ _.
          Post-bind (or_fails (connect node ln_port) id "could not reach the lightning node") _
            (Post-any _)
            λ connection _ _.
              Post-bind (payment_of node x id invoice) _ (Post-any _) λ (timeout, payment) _ _.
                Post-bind (meanwhile (node.send_payment connection timeout payment).0) _
                  (Post-any _)
                  λ _ _ _.
                    Post-bind _ _
                      (Post-or_raise (node.send_payment connection timeout payment).1 failed)
                      λ s db5 e.
                        Post-bind (receive node id s) _
                          (given_stream s db5
                            (some-injective _ _ (sym (given connection timeout payment) ∙ e)))
                          λ _ db6 reported.
                            same_tables id _ _ db6 _ reported (Reads-notices_of_payment id)).at
      notices
  where
    given_stream :
        (s : Stream) (db' : Db)
        → stream ≡ s
        → Post db' (receive node id s) (λ _ db''. ReportsUpdate node id last db''.tables)
    given_stream s db' same =
        subst (λ s. Post db' (receive node id s) (λ _ db''. ReportsUpdate node id last db''.tables))
          same (received node id stream last db' updated spares)
