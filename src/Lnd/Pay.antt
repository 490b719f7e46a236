-- ===== src/Lnd/Pay.antt =====
-- `PayInvoice` of lnd/lnd.go, the goroutine that pays an invoice, up to the messages it starts.
use boltcard.Prelude.{ℕ, List, [], ◌∷◌, Option, none, some, true, String, ◌==◌, if◌then◌else◌}
use boltcard.Prelude.Int.{ℤ, pos, ltb_ℤ, ◌+ℤ◌}
use boltcard.Text.{Text}
use boltcard.Text.Numbers.{atoi, wrap_int64}
use boltcard.Externals.{Externals, Bolt11}
use boltcard.Invoice.{decode}
use boltcard.Db.Schema.{failed}
use boltcard.Db.Monad.{ok, err, M, pure, raise, ◌>>=◌, ◌>>◌}
use boltcard.Db.Settings.{get_setting}
use boltcard.Db.Cards.{get_card_from_card_id}
use boltcard.Db.Payments.{update_payment_status, get_card_id_for_card_payment_id}
use boltcard.Lnurlw.Tap.{or_raise, ignore}
use boltcard.Lnd.{
  Node, Stream, ends, breaks, sends, Connection, SendPaymentRequest, meanwhile, seconds,
  get_grpc_conn,
}

-- The goroutines that send messages.
pub data Notice : Type 0 where
  -- go nostrfy.SendNostrfication(card_id, c.Card_name, db.NostrPay)
  nostr_pay : ℕ → Text → Notice
  -- go nostrfy.SendNostrfication(card_id, c.Card_name, db.NostrRec)
  nostr_rec : ℕ → Text → Notice
  -- go email.Send_balance_email(c.Email_address, card_id)
  balance_email : Text → ℕ → Notice

-- The connection with the settings LN_HOST, LN_PORT, LN_TLS_FILE and LN_MACAROON_FILE.
unfoldable pub connect : Node → ℤ → M Connection
connect node ln_port = do
  ln_host ← get_setting "LN_HOST"
  ln_tls_file ← get_setting "LN_TLS_FILE"
  ln_macaroon_file ← get_setting "LN_MACAROON_FILE"
  get_grpc_conn node ln_host ln_port ln_tls_file ln_macaroon_file

-- The goroutine ends on an error, here after it has marked the payment as failed.
unfoldable pub fails_with : {A : Type 0} → ℕ → String → M A
fails_with card_payment_id reason =
    ignore (update_payment_status card_payment_id "FAILED" reason) >> raise failed

-- An action whose error marks the payment as failed.
unfoldable pub or_fails : {A : Type 0} → M A → ℕ → String → M A
unfolding fails_with
or_fails m card_payment_id reason db = elim (m db).0 [
  | ok a ↦ (ok a, (m db).1)
  | err e ↦ fails_with card_payment_id reason (m db).1
]

-- An invoice that is not decoded.
unfoldable pub decoded_or_fails : Option Bolt11 → ℕ → M Bolt11
unfolding fails_with
decoded_or_fails none id = fails_with id "invoice could not be decoded"
decoded_or_fails (some b) id = pure b

-- At least 60 seconds.
abbrev pub at_least_a_minute : ℤ → ℤ
at_least_a_minute expiry = if ltb_ℤ expiry (pos 60) then pos 60 else expiry

-- The loop over `stream.Recv()`.
unfoldable pub receive : Node → ℕ → Stream → M (Unit {0})
receive node id (ends others) = meanwhile others
receive node id (breaks others) = meanwhile others >> raise failed
receive node id (sends others status reason rest) = do
  meanwhile others
  update_payment_status id (node.payment_status_name status) (node.failure_reason_name reason)
  receive node id rest

-- The messages about a payment.
unfoldable pub notices_of_payment : ℕ → M (List Notice)
notices_of_payment card_payment_id = do
  card_id ← get_card_id_for_card_payment_id card_payment_id
  c ← get_card_from_card_id card_id
  pure (
      nostr_pay card_id c.card_name
      ∷ (if c.email_enable == b'Y' then balance_email c.email_address card_id ∷ [] else []))

-- The settings that limit the fee, and the request to the node.
unfoldable pub payment_of : Node → Externals → ℕ → Text → M (ℤ × SendPaymentRequest)
payment_of node x card_payment_id invoice = do
  fee_limit_sat_str ← get_setting "FEE_LIMIT_SAT"
  fee_limit_sat ← or_raise (atoi fee_limit_sat_str) failed
  fee_limit_percent_str ← get_setting "FEE_LIMIT_PERCENT"
  fee_limit_percent ← or_raise (node.parse_float fee_limit_percent_str) failed
  bolt11 ← decoded_or_fails (decode x invoice) card_payment_id
  pure (
    seconds (at_least_a_minute bolt11.expiry),
    record {
      payment_request = invoice;
      no_inflight_updates = true;
      timeout_seconds = 30;
      fee_limit_sat =
          wrap_int64 (fee_limit_sat +ℤ node.fee_limit_product fee_limit_percent bolt11.m_satoshi);
    },
  )

unfoldable pub pay_invoice : Node → Externals → ℕ → Text → M (List Notice)
pay_invoice node x card_payment_id invoice = do
  port ← get_setting "LN_PORT"
  ln_port ← or_raise (atoi port) failed
  connection ← or_fails (connect node ln_port) card_payment_id "could not reach the lightning node"
  (timeout, payment) ← payment_of node x card_payment_id invoice
  let (others, answer) = node.send_payment connection timeout payment
  meanwhile others
  stream ← or_raise answer failed
  receive node card_payment_id stream
  notices_of_payment card_payment_id
