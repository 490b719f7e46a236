-- ===== src/Lnd/Invoices.antt =====
-- `Add_invoice` and `Monitor_invoice_state` of lnd/lnd.go: an invoice of the node, and the goroutine
-- that records its state.
use boltcard.Prelude.{List, [], ◌∷◌, Option}
use boltcard.Prelude.Int.{ℤ}
use boltcard.Text.{Text}
use boltcard.Text.Hex.{encode_to_string}
use boltcard.Text.Numbers.{atoi}
use boltcard.Db.Schema.{failed}
use boltcard.Db.Monad.{M, pure, raise, ◌>>=◌, ◌>>◌}
use boltcard.Db.Settings.{get_setting}
use boltcard.Db.Cards.{get_card_from_card_id}
use boltcard.Db.Receipts.{update_receipt_state, get_card_id_for_r_hash}
use boltcard.Db.Calls.{Call}
use boltcard.Lnurlw.Tap.{or_raise, ignore}
use boltcard.Lnd.{Node, Stream, ends, breaks, sends, Invoice, meanwhile, seconds}
use boltcard.Lnd.Pay.{Notice, nostr_rec, connect}

-- The invoice that the node is asked for.
abbrev pub invoice_of : Node → ℤ → Text → ℤ → Invoice
invoice_of node amount_sat metadata expiry = record {
  value = amount_sat;
  description_hash = node.sha256 metadata;
  expiry = expiry;
}

-- The payment request and the hash.
unfoldable pub add_invoice : Node → ℤ → Text → M (Text × Text)
add_invoice node amount_sat metadata = do
  port ← get_setting "LN_PORT"
  ln_port ← or_raise (atoi port) failed
  expiry ← get_setting "LN_INVOICE_EXPIRY_SEC"
  ln_invoice_expiry ← or_raise (atoi expiry) failed
  connection ← connect node ln_port
  let (others, result) : List Call × Option (Text × Text) =
      node.add_invoice connection (invoice_of node amount_sat metadata ln_invoice_expiry)
  meanwhile others
  or_raise result failed

-- The loop over `stream.Recv()`. The error of `Update_receipt_state` is not read.
unfoldable pub watch : Node → Text → Stream → M (Unit {0})
watch node r_hash (ends others) = meanwhile others
watch node r_hash (breaks others) = meanwhile others >> raise failed
watch node r_hash (sends others state reason rest) = do
  meanwhile others
  ignore (update_receipt_state (encode_to_string r_hash) (node.invoice_state_name state))
  watch node r_hash rest

-- An update of an invoice has no failure reason: that number is not read.
unfoldable pub monitor_invoice_state : Node → Text → M (List Notice)
monitor_invoice_state node r_hash = do
  port ← get_setting "LN_PORT"
  ln_port ← or_raise (atoi port) failed
  expiry ← get_setting "LN_INVOICE_EXPIRY_SEC"
  ln_invoice_expiry ← or_raise (atoi expiry) failed
  connection ← connect node ln_port
  let (others, answer) : List Call × Option Stream =
      node.subscribe_single_invoice connection (seconds ln_invoice_expiry) r_hash
  meanwhile others
  stream ← or_raise answer failed
  watch node r_hash stream
  card_id ← get_card_id_for_r_hash (encode_to_string r_hash)
  c ← get_card_from_card_id card_id
  pure (nostr_rec card_id c.card_name ∷ [])
