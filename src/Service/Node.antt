-- ===== src/Service/Node.antt =====
-- What waits for the node, as histories: the calls that other requests make meanwhile are part of it.
use boltcard.Prelude.{ℕ, List, Option, none, some, String, refl}
use boltcard.Prelude.Int.{ℤ}
use boltcard.Text.{Text, codes, text_eq}
use boltcard.Externals.{Externals, Bolt11}
use boltcard.Http.{Request}
use boltcard.Db.Monad.{Result, ok, err, M}
use boltcard.Text.Hex.{encode_to_string}
use boltcard.Db.Receipts.{update_receipt_state}
use boltcard.Db.Calls.{Call}
use boltcard.Db.Runs.{
  Runs, Runs-after, Runs-bind, Runs-if, Runs-pure, Runs-raise, Runs-ignore, runs_rules,
}
use boltcard.Db.Runs.Calls.{
  call_runs, get_setting-Runs, update_payment_status-Runs, update_receipt_state-Runs,
}
use boltcard.Db.Schema.{failed}
use boltcard.Lnd.{Node, Stream, ends, breaks, sends, meanwhile, get_grpc_conn}
use boltcard.Lnd.Pay.{
  connect, fails_with, or_fails, decoded_or_fails, payment_of, receive, notices_of_payment,
  pay_invoice,
}
use boltcard.Lnd.Invoices.{add_invoice, watch, monitor_invoice_state}
use boltcard.Lndhub
use boltcard.Lndhub.{Server}
use boltcard.Lnurlp.{pay_request, response, deposit, callback}

pub meanwhile-Runs : (others : List Call) → Runs (meanwhile others)
meanwhile-Runs others = record { at = λ db. (others, refl) }

module _ (node : Node) where
  get_grpc_conn-Runs :
      (host : Text) (port : ℤ) (tls file : Text) → Runs (get_grpc_conn node host port tls file)
  unfolding get_grpc_conn
  get_grpc_conn-Runs host port tls file = search (runs_rules, meanwhile-Runs) depth 40

  connect-Runs : (port : ℤ) → Runs (connect node port)
  unfolding connect
  connect-Runs port = search (runs_rules, call_runs, get_grpc_conn-Runs) depth 40

  fails_with-Runs : {A : Type 0} (id : ℕ) (reason : String) → Runs (fails_with {A = A} id reason)
  unfolding fails_with
  fails_with-Runs id reason = search (runs_rules, call_runs) depth 20

  or_fails-Runs :
      {A : Type 0} (m : M A) (id : ℕ) (reason : String) → Runs m → Runs (or_fails m id reason)
  unfolding or_fails
  or_fails-Runs {A = A} m id reason h = Runs-after m answers h runs
    where
      answers : Result A → M A
      answers r db = elim r [ ok a ↦ (ok a, db) | err e ↦ fails_with id reason db ]

      runs : (r : Result A) → Runs (answers r)
      runs (ok a) = Runs-pure a
      runs (err e) = fails_with-Runs id reason

  decoded_or_fails-Runs : (o : Option Bolt11) (id : ℕ) → Runs (decoded_or_fails o id)
  unfolding decoded_or_fails
  decoded_or_fails-Runs none id = fails_with-Runs id _
  decoded_or_fails-Runs (some b) id = Runs-pure b

  payment_of-Runs : (x : Externals) (id : ℕ) (pr : Text) → Runs (payment_of node x id pr)
  unfolding payment_of
  payment_of-Runs x id pr = search (runs_rules, call_runs, decoded_or_fails-Runs) depth 40

  receive-Runs : (id : ℕ) (stream : Stream) → Runs (receive node id stream)
  unfolding receive
  receive-Runs id (ends others) = meanwhile-Runs others
  receive-Runs id (breaks others) = Runs-bind _ _ (meanwhile-Runs others) λ _. Runs-raise failed
  receive-Runs id (sends others status reason rest) = Runs-bind _ _ (meanwhile-Runs others) λ _.
      Runs-bind _ _
        (update_payment_status-Runs id (node.payment_status_name status)
          (node.failure_reason_name reason))
        λ _. receive-Runs id rest

  watch-Runs : (r_hash : Text) (stream : Stream) → Runs (watch node r_hash stream)
  unfolding watch
  watch-Runs r_hash (ends others) = meanwhile-Runs others
  watch-Runs r_hash (breaks others) = Runs-bind _ _ (meanwhile-Runs others) λ _. Runs-raise failed
  watch-Runs r_hash (sends others state reason rest) = Runs-bind _ _ (meanwhile-Runs others) λ _.
      Runs-bind _ _
        (Runs-ignore
          (update_receipt_state (encode_to_string r_hash) (node.invoice_state_name state))
          (update_receipt_state-Runs _ _))
        λ _. watch-Runs r_hash rest

  notices_of_payment-Runs : (id : ℕ) → Runs (notices_of_payment id)
  unfolding notices_of_payment
  notices_of_payment-Runs id = search (runs_rules, call_runs) depth 20

  pub pay_invoice-Runs : (x : Externals) (id : ℕ) (pr : Text) → Runs (pay_invoice node x id pr)
  unfolding pay_invoice
  pay_invoice-Runs x id pr =
      search
        (
          runs_rules, call_runs, connect-Runs, or_fails-Runs, payment_of-Runs, meanwhile-Runs,
          receive-Runs, notices_of_payment-Runs,
        )
        depth 60

  pub monitor_invoice_state-Runs : (r_hash : Text) → Runs (monitor_invoice_state node r_hash)
  unfolding monitor_invoice_state
  monitor_invoice_state-Runs r_hash =
      search (runs_rules, call_runs, connect-Runs, meanwhile-Runs, watch-Runs) depth 60

  add_invoice-Runs : (sats : ℤ) (metadata : Text) → Runs (add_invoice node sats metadata)
  unfolding add_invoice
  add_invoice-Runs sats metadata =
      search (runs_rules, call_runs, connect-Runs, meanwhile-Runs) depth 60

  deposit-Runs : (name : Text) (r : Request) → Runs (deposit node name r)
  unfolding deposit
  deposit-Runs name r = search (runs_rules, call_runs, add_invoice-Runs) depth 60

  pub callback-Runs : (name : Text) (r : Request) → Runs (callback node name r)
  unfolding callback text_eq
  callback-Runs name r = Runs-bind _ _ (get_setting-Runs _) λ value.
      Runs-if (text_eq value (codes "ENABLE")) _ _
        (Runs-bind _ _ (deposit-Runs name r) λ d. Runs-pure (some d)) (Runs-pure none)

pay_request-Runs : (name : Text) (r : Request) → Runs (pay_request name r)
unfolding pay_request
pay_request-Runs name r = search (runs_rules, call_runs) depth 40

pub response-Runs : (name : Text) (r : Request) → Runs (response name r)
unfolding response text_eq
response-Runs name r = Runs-bind _ _ (get_setting-Runs _) λ value.
    Runs-if (text_eq value (codes "ENABLE")) _ _
      (Runs-bind _ _ (pay_request-Runs name r) λ p. Runs-pure (some p)) (Runs-pure none)

pub hub-Runs :
    (server : Server) (id : ℕ) (pr : Text) (sats : ℕ) (login token : Text)
    → Runs (Lndhub.pay_invoice server id pr sats login token)
unfolding Lndhub.pay_invoice
hub-Runs server id pr sats login token = search (runs_rules, call_runs, meanwhile-Runs) depth 20
