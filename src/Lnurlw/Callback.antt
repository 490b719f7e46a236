-- ===== src/Lnurlw/Callback.antt =====
-- `Callback`, `lnd_payment` and `lndhub_payment` of lnurlw/lnurlw_callback.go: the invoice for a
-- withdraw request is checked and claimed, and a goroutine is started to pay it.
pub mod Checked
pub mod Pin
pub mod Runs
pub mod Started
use boltcard.Prelude.{
  ℕ, ◌/◌, Bool, true, false, not, ◌&&◌, List, [], ◌∷◌, Option, String, ◌==◌, if◌then◌else◌, length,
}
use boltcard.Prelude.Int.{pos, pos_part, ltb_ℤ}
use boltcard.Text.{Text, codes, text_eq}
use boltcard.Externals.{Externals, Bolt11}
use boltcard.Invoice.{decode}
use boltcard.Http.{Request, get_param}
use boltcard.Db.Schema.{Card, Payment, failed, message}
use boltcard.Db.Monad.{M, pure, raise, ◌>>=◌, ◌>>◌}
use boltcard.Db.Settings.{get_setting}
use boltcard.Db.Cards.{get_card_from_card_id}
use boltcard.Db.Payments.{
  get_payment_k1, check_lnurlw_timeout, update_payment_invoice, fail_payment,
}
use boltcard.Db.Authorize.{authorize_payment}
use boltcard.Lnurlw.Tap.{or_raise, ensure, ignore}

-- The goroutine that a callback starts once it has answered `{"status":"OK"}`.
pub data Job : Type 0 where
  -- go lnd.PayInvoice(card_payment_id, invoice)
  pays_by_lnd : ℕ → Text → Job
  -- go await_approval(card_payment_id, invoice_sats, invoice)
  awaits_approval : ℕ → ℕ → Text → Job
  -- go lndhub.PayInvoice(card_payment_id, invoice, amount, login, token)
  pays_by_lndhub : ℕ → Text → ℕ → Text → Text → Job

-- int(bolt11.MSatoshi / 1000). The amount is positive.
abbrev pub sats_of : Bolt11 → ℕ
sats_of b = pos_part b.m_satoshi / 1000

-- `if !authorized { ... return }`
abbrev pub if_authorized : Bool × String → M Job → M Job
if_authorized (true, refusal) start = start
if_authorized (false, refusal) start = raise (message refusal)

unfoldable pub lnd_payment : Payment → Bolt11 → Text → M Job
unfolding text_eq
lnd_payment p bolt11 param_pr = do
  let invoice_sats = sats_of bolt11
  answer ← authorize_payment p.card_payment_id invoice_sats true
  if_authorized answer do
    function_ntfy ← get_setting "FUNCTION_NTFY"
    pure (
        if text_eq function_ntfy (codes "ENABLE")
        then awaits_approval p.card_payment_id invoice_sats param_pr
        else pays_by_lnd p.card_payment_id param_pr)

-- `strings.Split(s, ":")`
unfoldable pub split_colon : Text → List Text
split_colon [] = [] ∷ []
split_colon (c ∷ s) = elim (split_colon s) [
  | [] ↦ [] ∷ []
  | part ∷ parts ↦ if c == b':' then [] ∷ part ∷ parts else (c ∷ part) ∷ parts
]

-- "login:password", 20 bytes each.
unfoldable pub login_parts : List Text → M (Text × Text)
login_parts (login ∷ password ∷ []) =
    if length login == 20 && length password == 20
    then pure (login, password)
    else raise (message "login:password badly formed")
login_parts _ = raise (message "login:password not found")

-- `auth` is the answer of the LNDHUB server to a login: its access token, or `none` where the call
-- or its JSON fails.
unfoldable pub lndhub_payment : (Text → Text → Text → Option Text) → Payment → Bolt11 → Text → M Job
unfolding split_colon login_parts
lndhub_payment auth p bolt11 param_pr = do
  lndhub_url ← get_setting "LNDHUB_URL"
  c ← get_card_from_card_id p.card_id
  let invoice_sats = sats_of bolt11
  (login, password) ← login_parts (split_colon c.card_name)
  access_token ← or_raise (auth lndhub_url login password) failed
  answer ← authorize_payment p.card_payment_id invoice_sats false
  if_authorized answer
      (pure (pays_by_lndhub p.card_payment_id param_pr invoice_sats login access_token))

-- c.Pin_enable == "Y" && int(bolt11.MSatoshi/1000) >= c.Pin_limit_sats && the PINs differ
unfoldable pub pin_refused : Card → ℕ → Text → Bool
unfolding text_eq
pin_refused c invoice_sats param_pin =
    c.pin_enable == b'Y'
    && not (ltb_ℤ (pos invoice_sats) c.pin_limit_sats)
    && not (text_eq c.pin_number param_pin)

-- A wrong PIN consumes the withdraw request.
pub check_pin : Payment → Card → ℕ → Text → M (Unit {0})
unfolding pin_refused
check_pin p c invoice_sats param_pin =
    if pin_refused c invoice_sats param_pin
    then ignore (fail_payment p.card_payment_id "incorrect pin provided")
      >> raise (message "incorrect pin provided")
    else pure tt

-- LN_TESTNODE, where it is set, is the only node that is paid.
check_testnode : Bolt11 → Text → M (Unit {0})
unfolding text_eq
check_testnode bolt11 testnode =
    if not (text_eq testnode []) && not (text_eq bolt11.payee testnode)
    then raise (message "rejected as not the defined test node")
    else pure tt

-- The checks before the payment of an invoice: of the request, the timeout, the invoice, the PIN
-- and the test node.
unfoldable pub checked_callback : Externals → Request → M (Payment × Bolt11 × Text)
unfolding check_pin check_testnode text_eq
checked_callback x req = do
  env_host_domain ← get_setting "HOST_DOMAIN"
  ensure (text_eq req.host env_host_domain) (message "wrong host domain")
  let param_k1 = get_param "k1" req
  ensure (not (text_eq param_k1 [])) (message "k1 not found")
  p ← get_payment_k1 param_k1
  ensure (p.paid_flag == b'N') (message "payment already made")
  lnurlw_timeout ← check_lnurlw_timeout p.card_payment_id
  ensure (not lnurlw_timeout) (message "lnurlw request has timed out")
  let param_pr = get_param "pr" req
  ensure (not (text_eq param_pr [])) (message "pr field not found")
  bolt11 ← or_raise (decode x param_pr) failed
  update_payment_invoice p.card_payment_id param_pr (pos_part bolt11.m_satoshi)
  c ← get_card_from_card_id p.card_id
  check_pin p c (sats_of bolt11) (get_param "pin" req)
  testnode ← get_setting "LN_TESTNODE"
  check_testnode bolt11 testnode
  pure (p, bolt11, param_pr)

-- The job that the callback starts. An error is answered by `resp_err.Write`, and starts none.
unfoldable pub callback : Externals → (Text → Text → Text → Option Text) → Request → M Job
unfolding checked_callback lnd_payment lndhub_payment
callback x auth req = do
  (p, bolt11, param_pr) ← checked_callback x req
  lndhub ← get_setting "FUNCTION_LNDHUB"
  if text_eq lndhub (codes "ENABLE")
      then lndhub_payment auth p bolt11 param_pr
      else lnd_payment p bolt11 param_pr
