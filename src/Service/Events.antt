-- ===== src/Service/Events.antt =====
-- The service as a whole: the requests and the goroutines in the order in which they are handled,
-- and time that passes. A goroutine that waits has the calls of the requests that are served in the
-- meantime as its own argument.
use boltcard.Prelude.{ℕ, ◌+◌, Bool, [], ◌∷◌, List, Option}
use boltcard.Text.{Text}
use boltcard.Externals.{Externals}
use boltcard.Http.{Request}
use boltcard.Db.Schema.{Db}
use boltcard.Db.Calls.{Call, wait}
use boltcard.Lnd.{Node}
use boltcard.Lnd.Pay.{pay_invoice}
use boltcard.Lnd.Invoices.{monitor_invoice_state}
use boltcard.Lnurlw.Request.{response}
use boltcard.Lnurlw.Callback.{callback}
use boltcard.Lnurlw.Approval.{await_approval}
use boltcard.Lndhub
use boltcard.Lndhub.{Server}
use boltcard.Lnurlp
use boltcard.Approve.{approve_request}
use boltcard.Program.{new_card_request}
use boltcard.Internalapi.Limits.{Function, requested}
use boltcard.Db.Runs.{owed_by}
use boltcard.Service.Pays.{starts}

pub data Event : Type 0 where
  passes : ℕ → Event
  -- GET /ln, with what `Create_k1` reads
  taps : Option Text → Request → Event
  -- GET /cb
  calls_back : Request → Event
  -- GET /approve
  approves : Request → Event
  -- GET /new
  sets_up : Request → Event
  -- GET /.well-known/lnurlp/name
  asks : Text → Request → Event
  -- GET /lnurlp/name
  deposits : Text → Request → Event
  -- the internal API
  administers : Function → Request → Event
  -- the goroutines await_approval, lnd.PayInvoice, lndhub.PayInvoice and lnd.Monitor_invoice_state
  awaits : ℕ → (ℕ → List Call) → Option Text → Bool → ℕ → Event
  pays : ℕ → Text → Event
  pays_by_hub : ℕ → Text → ℕ → Text → Text → Event
  monitors : Text → Event

-- What is outside of the service.
pub record World : Type 1 where
  pub externals : Externals
  pub auth : Text → Text → Text → Option Text
  pub node : Node
  pub hub : Server
  pub is_print : ℕ → Bool

module _ (w : World) where
  unfoldable pub handled : Db → Event → Db
  handled db (passes n) = wait n db
  handled db (taps random r) = (response w.externals random r db).1
  handled db (calls_back r) = (callback w.externals w.auth r db).1
  handled db (approves r) = (approve_request r db).1
  handled db (sets_up r) = (new_card_request r db).1
  handled db (asks name r) = (Lnurlp.response name r db).1
  handled db (deposits name r) = (Lnurlp.callback w.node name r db).1
  handled db (administers f r) = requested w.is_print f r db
  handled db (awaits fuel others random published id) =
      (await_approval fuel others random published id db).1
  handled db (pays id pr) = (pay_invoice w.node w.externals id pr db).1
  handled db (pays_by_hub id pr sats login token) =
      (Lndhub.pay_invoice w.hub id pr sats login token db).1
  handled db (monitors r_hash) = (monitor_invoice_state w.node r_hash db).1

  -- How many jobs that pay for `id` an event starts.
  unfoldable pub jobs_at : ℕ → Db → Event → ℕ
  jobs_at id db (calls_back r) = owed_by starts (callback w.externals w.auth r db).0 id
  jobs_at id db _ = 0

  unfoldable pub all_handled : Db → List Event → Db
  all_handled db [] = db
  all_handled db (e ∷ es) = all_handled (handled db e) es

  unfoldable pub jobs : ℕ → Db → List Event → ℕ
  jobs id db [] = 0
  jobs id db (e ∷ es) = jobs_at id db e + jobs id (handled db e) es
