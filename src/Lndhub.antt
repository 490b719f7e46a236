-- ===== src/Lndhub.antt =====
-- lndhub/lndhub.go: the goroutine that asks an LNDHUB server to pay an invoice. The server is a
-- parameter, and so is what other requests do until it answers.
pub mod Unrecorded
use boltcard.Prelude.{ℕ, ◌≡◌, ◌++◌, List, [], Option}
use boltcard.Prelude.Int.{pos}
use boltcard.Text.{Text, codes}
use boltcard.Text.Numbers.{itoa}
use boltcard.Db.Schema.{Db, failed}
use boltcard.Db.Monad.{M, ◌>>=◌, ◌>>◌}
use boltcard.Db.Settings.{get_setting}
use boltcard.Db.Calls.{Call, run}
use boltcard.Db.Keeps.{Keeps, Keeps-bind, Keeps-pure}
use boltcard.Db.Keeps.Settings.{Keeps-get_setting}
use boltcard.Internalapi.Keeps.{Keeps-or_raise}
use boltcard.Lnd.{meanwhile}
use boltcard.Lnd.Unsent.{unchanged}
use boltcard.Lnurlw.Tap.{or_raise}

-- LndhubPayInvoiceRequest
pub record PayInvoiceRequest : Type 0 where
  pub invoice : Text
  pub free_amount : Text
  pub login_id : Text

-- The answer to a POST with a bearer token, where the call does not fail, and what other requests
-- do until then.
abbrev pub Server : Type 0
Server = Text → Text → PayInvoiceRequest → List Call × Option Text

abbrev pub request : Text → ℕ → Text → PayInvoiceRequest
request invoice amount_sats login_id = record {
  invoice = invoice;
  free_amount = itoa (pos amount_sats);
  login_id = login_id;
}

-- The answer is logged.
unfoldable pub pay_invoice : Server → ℕ → Text → ℕ → Text → Text → M Text
pay_invoice server card_payment_id invoice amount_sats login_id access_token = do
  lndhub_url ← get_setting "LNDHUB_URL"
  let (others, answer) : List Call × Option Text =
      server (lndhub_url ++ codes "/payinvoice") (codes "Bearer " ++ access_token)
        (request invoice amount_sats login_id)
  meanwhile others
  or_raise answer failed
